-- ===== src/Config/Reference.antt =====
-- internal/config/write.go: what `apply` does to a file, without the map of last lines. A line is
-- replaced if it assigns a rendered key and no line after it does.
use retrosaver.Prelude.{Bool, false, ◌||◌, List, [], ◌∷◌, Option, none, some, if◌then◌else◌, Text}
use retrosaver.Chars.{split, join}
use retrosaver.Config.Write.{keys, assigned_key, lookup, needed, append_lines}
use retrosaver.Config.Assigning.{is_key}

unfoldable pub assigned_in : Text → List Text → Bool
assigned_in key [] = false
assigned_in key (l ∷ ls) = is_key key (assigned_key l) || assigned_in key ls

abbrev pub or_line : Text → Option Text → Text
or_line l none = l
or_line l (some line) = line

-- What becomes of a line, with the lines after it.
abbrev pub new_line : List (Text × Text) → Text → List Text → Option Text → Text
new_line rendered l later none = l
new_line rendered l later (some key) =
    if assigned_in key later then l else or_line l (lookup rendered key)

unfoldable pub edited : List (Text × Text) → List Text → List Text
edited rendered [] = []
edited rendered (l ∷ ls) = new_line rendered l ls (assigned_key l) ∷ edited rendered ls

-- The lines of the keys that no line assigns, in the order of the program's keys.
unfoldable pub added : List (Text × Text) → List Text → List Text → List Text
added rendered ls [] = []
added rendered ls (key ∷ ks) =
    let rest = added rendered ls ks in
    if assigned_in key ls then rest else needed none (lookup rendered key) rest

unfoldable pub reference : Text → List (Text × Text) → Text
reference content rendered =
    append_lines (join (10 ∷ []) (edited rendered (split 10 content)))
      (added rendered (split 10 content) keys)
