-- ===== src/Config.antt =====
-- internal/config/config.go: the settings, their defaults and the tests on them. The file's parser
-- is in Config/Parse.antt and its editor in Config/Write.antt.
pub mod Parse
pub mod Write
pub mod Bounds
pub mod Edits
pub mod Lines
pub mod Frame
pub mod Assigning
pub mod Pieces
pub mod Rendered
pub mod Keeps
pub mod Reference
pub mod LastLine
pub mod Placing
pub mod EditSpec
pub mod Specified
pub mod Final
pub mod Spelled
pub mod Assigned
pub mod Sets
pub mod AnyOrder
pub mod Disks
pub mod Atomic
use retrosaver.Prelude.{ℕ, ◌*◌, Bool, true, false, ◌&&◌, List, [], ◌∷◌, Text, codes, lt64}

-- time.Duration: nanoseconds, as an int64 pattern.
abbrev pub Duration : Type 0
Duration = ℕ

abbrev pub second : Duration
second = 1_000_000_000

pub data MonitorMode : Type 0 where
  same different : MonitorMode

pub record Config : Type 0 where
  pub saver_delay : Duration
  pub lock_after : Duration
  pub blank_after : Duration
  pub cycle_after : Duration
  pub monitors : MonitorMode
  pub exclude : List Text
  pub include : List Text

abbrev pub defaults : Config
defaults = record {
  saver_delay = 300 * second;
  lock_after = 900 * second;
  blank_after = 120 * second;
  cycle_after = 300 * second;
  monitors = same;
  exclude =
      codes "webcollage"
      ∷ codes "vidwhacker"
      ∷ codes "glslideshow"
      ∷ codes "photopile"
      ∷ codes "carousel"
      ∷ codes "sonar"
      ∷ [];
  include = [];
}

abbrev pub lock_enabled : Config → Bool
lock_enabled c = lt64 0 c.lock_after

abbrev pub blank_enabled : Config → Bool
blank_enabled c = lt64 0 c.lock_after && lt64 0 c.blank_after

abbrev pub cycle_enabled : Config → Bool
cycle_enabled c = lt64 0 c.cycle_after

abbrev pub is_different : MonitorMode → Bool
is_different same = false
is_different different = true

abbrev pub different_per_monitor : Config → Bool
different_per_monitor c = is_different c.monitors
