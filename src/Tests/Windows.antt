-- ===== src/Tests/Windows.antt =====
-- The screen of the savers and the start of the modules at concrete inputs.
use retrosaver.Prelude.{
  ◌≡◌, refl, true, false, [], ◌∷◌, some, arith, ltb, ◌==◌, if◌then◌else◌, codes, ℕ, inl, inr,
  Bool-cases, some-injective, ◌+◌,
}
use retrosaver.Window.Saver.{System}
use retrosaver.Window.Screen.{Server, Screen, View, expired, polled}
use retrosaver.Window.Screen.Settling.{open_screen, settle, settle_windows, short}
use retrosaver.Window.Screen.Waiting.{IsTimed, Explains, settle-Explains}
use retrosaver.Window.Screen.Opened.{Opens, open_screen-Opens}
use retrosaver.Window.Starting.{Grace, real_launch}
use retrosaver.Window.Starting.Laws.{Starts, real_launch-Starts}
use retrosaver.Tests.Files.{no_files, left_screen, right_screen}
use retrosaver.Tests.Modules.{flame, atlantis}

-- The window manager manages window 11 only, and leaves it short of its monitor.
abbrev placed_short : ℕ → View
placed_short w = record { is_managed = w == 11; size = some (1920, 1048); place = some (0, 32) }

abbrev slow_server : Server
slow_server = record {
  connects = true;
  xinerama = record {
    init = true;
    state = some 1;
    screens = some (left_screen ∷ right_screen ∷ []);
  };
  whole = record { x = 0; y = 0; width = 3840; height = 1080 };
  atom = λ name. some 300;
  pixmap_id = some 9;
  cursor_id = some 10;
  window_id = λ i. if i == 0 then some 11 else some 12;
  creates = λ w. true;
  maps = λ w. true;
  wait = λ n. if ltb n 2 then polled else expired;
  before = λ n. placed_short;
  after = λ n. placed_short;
}

slow_server-IsTimed : IsTimed slow_server
slow_server-IsTimed n h = elim (Bool-cases (ltb n 2)) [
  | inl e ↦ ground arith
  | inr e ↦ let bad = rw e at h in cc
]

open_screen-Opens_example : Opens slow_server (open_screen slow_server (flame ∷ atlantis ∷ []))
open_screen-Opens_example =
    open_screen-Opens slow_server slow_server-IsTimed flame (atlantis ∷ [])
      (λ e. absurd (omega (arith, some-injective 10 0 e)))

abbrev two_windows : Screen
two_windows = record {
  cursor = 10;
  windows = 11 ∷ 12 ∷ [];
  mons = left_screen ∷ right_screen ∷ [];
  closed = false;
  sent = [];
}

settle-Explains_example :
    Explains slow_server
      (11 ∷ 12 ∷ [])
      (left_screen ∷ right_screen ∷ [])
      (settle slow_server two_windows)
settle-Explains_example = settle-Explains slow_server slow_server-IsTimed two_windows 300 refl refl

-- The first window ends the wait, though nobody manages the second.
first_decides :
    settle_windows slow_server 3 0 (11 ∷ 12 ∷ []) (left_screen ∷ right_screen ∷ []) ≡ short 11
unfolding settle_windows
first_decides = refl

-- Each process has a PID of its window, and the one in window 12 exits at once.
abbrev linux : System
linux = record { start = λ path w. some (4_000 + w); dies = λ pid. true }

abbrev one_exits : Grace
one_exits = record { exits = λ pid. pid == 4_012; canceled = false }

real_launch-Starts_example :
    Starts linux
      (codes "/usr/libexec/xscreensaver")
      (flame ∷ atlantis ∷ [])
      (11 ∷ 12 ∷ [])
      4_100
      no_files
      (real_launch linux
        (codes "/usr/libexec/xscreensaver")
        (flame ∷ atlantis ∷ [])
        one_exits
        4_100
        (some (11 ∷ 12 ∷ []))
        no_files)
real_launch-Starts_example =
    real_launch-Starts linux (codes "/usr/libexec/xscreensaver") flame (atlantis ∷ []) one_exits
      4_100 (11 ∷ 12 ∷ []) no_files
      (
        (refl, (refl, (refl, (refl, (refl, tt))))),
        ((refl, (refl, (refl, (refl, (refl, (refl, (refl, (refl, tt)))))))), tt),
      )
