-- ===== src/Command/Settings.antt =====
-- cmd/retrosaver/configcmd.go: `config show`, `config set` and `list`.
pub mod Show
use retrosaver.Prelude.{
  ℕ, ◌+◌, ◌/◌, Bool, true, false, not, ◌&&◌, List, [], ◌∷◌, ◌++◌, Option, none, some, if◌then◌else◌,
  is_some, Text, codes, text_eq, contains, map,
}
use retrosaver.Config.{Config, second}
use retrosaver.Config.Parse.{
  Outcome, failed, parsed, ReadFile, LoadError, missing, unreadable, holds, load,
}
use retrosaver.Config.Write.{lookup, mode_text}
use retrosaver.Chars.{cut, join, itoa, quote}
use retrosaver.Modules.{Finder, discover, select, is_empty}

pub data ArgumentError : Type 0 where
  no_arguments : ArgumentError
  not_key_value given_twice : Text → ArgumentError

abbrev pub add_update :
    Text → List (Text × Text) → Option (Text × Text) → Outcome ArgumentError (List (Text × Text))
add_update a updates none = failed (not_key_value a)
add_update a updates (some (key, value)) =
    if text_eq key []
    then failed (not_key_value a)
    else if is_some (lookup updates key)
    then failed (given_twice key)
    else parsed (updates ++ (key, value) ∷ [])

abbrev pub continue_updates :
    Outcome ArgumentError (List (Text × Text))
    → (List (Text × Text) → Outcome ArgumentError (List (Text × Text)))
    → Outcome ArgumentError (List (Text × Text))
continue_updates (failed e) next = failed e
continue_updates (parsed updates) next = next updates

-- The loop of `parseAssignments`, with the entries of the map in the order in which they were
-- added.
unfoldable pub updates_from :
    List Text → List (Text × Text) → Outcome ArgumentError (List (Text × Text))
updates_from [] updates = parsed updates
updates_from (a ∷ args) updates =
    continue_updates (add_update a updates (cut 61 a)) (λ u. updates_from args u)

unfoldable pub parse_assignments : List Text → Outcome ArgumentError (List (Text × Text))
parse_assignments [] = failed no_arguments
parse_assignments (a ∷ args) = updates_from (a ∷ args) []

-- `configJSON`.
pub record Shown : Type 0 where
  pub path : Text
  pub exists : Bool
  pub saver_delay : ℕ
  pub cycle_after : ℕ
  pub monitors : Text
  pub lock_after : ℕ
  pub blank_after : ℕ
  pub exclude : List Text
  pub include : List Text

-- The float64 of Duration.Seconds is exact for the whole seconds that a configuration holds.
abbrev pub shown : Text → Bool → Config → Shown
shown path exists cfg = record {
  path = path;
  exists = exists;
  saver_delay = cfg.saver_delay / second;
  cycle_after = cfg.cycle_after / second;
  monitors = mode_text cfg.monitors;
  lock_after = cfg.lock_after / second;
  blank_after = cfg.blank_after / second;
  exclude = cfg.exclude;
  include = cfg.include;
}

-- The lines that `showConfig` prints when it does not print JSON.
abbrev pub shown_lines : Shown → List Text
shown_lines s =
    (codes "# " ++ s.path)
    ∷ (codes "SAVER_DELAY=" ++ itoa s.saver_delay)
    ∷ (codes "CYCLE_AFTER=" ++ itoa s.cycle_after)
    ∷ (codes "MONITORS=" ++ s.monitors)
    ∷ (codes "LOCK_AFTER=" ++ itoa s.lock_after)
    ∷ (codes "BLANK_AFTER=" ++ itoa s.blank_after)
    ∷ (codes "EXCLUDE=" ++ quote (join (32 ∷ []) s.exclude))
    ∷ (codes "INCLUDE=" ++ quote (join (32 ∷ []) s.include))
    ∷ []

-- Each line ends in a line feed.
unfoldable pub print_lines : List Text → Text
print_lines [] = []
print_lines (l ∷ ls) = l ++ 10 ∷ print_lines ls

-- What os.Stat says of the config file.
pub data Stat : Type 0 where
  exists not_exist stat_failed : Stat

abbrev pub shown_if : Text → Config → Stat → Option Shown
shown_if path cfg exists = some (shown path true cfg)
shown_if path cfg not_exist = some (shown path false cfg)
shown_if path cfg stat_failed = none

abbrev pub shown_unless : Text → Stat → Config × Option LoadError → Option Shown
shown_unless path stat (cfg, some e) = none
shown_unless path stat (cfg, none) = shown_if path cfg stat

-- `showConfig`: the object that is encoded, or printed by lines; none for an error.
unfoldable pub show_config : Text → ReadFile → Stat → Option Shown
show_config path file stat = shown_unless path stat (load file)

-- One entry of `list`, with what the finder's `Info` says of the name.
pub record Entry {ℓ} (I : Type ℓ) : Type ℓ where
  pub info : I
  pub selected : Bool

pub data Listing {ℓ} (I : Type ℓ) : Type ℓ where
  names : List Text → Listing I
  entries : List (Entry I) → Listing I

module _ {ℓ} {I : Type ℓ} (info : Text → I) where
  abbrev pub entries_of : List Text → List Text → List (Entry I)
  entries_of selected [] = []
  entries_of selected (n ∷ ns) =
      record { info = info n; selected = contains selected n } ∷ entries_of selected ns

  abbrev pub list_from : Config → Bool → Bool → Option (List Text) → Option (Listing I)
  list_from cfg all as_json none = none
  list_from cfg all as_json (some discovered) =
      let selected = select discovered cfg.include cfg.exclude in
      let shown_names = if all then discovered else selected in
      if as_json
      then some (entries (entries_of selected shown_names))
      else if not all && is_empty selected
      then none
      else some (names shown_names)

  -- `listModules`: none for an error.
  unfoldable pub list_modules : Finder → Config → Bool → Bool → Option (Listing I)
  list_modules f cfg all as_json = list_from cfg all as_json (discover f)
