-- ===== src/Config/EditSpec.antt =====
-- internal/config/write.go: what `apply` is to make of a file, said without its helpers.
use retrosaver.Prelude.{◌≡◌, ◌≢◌, ◌⊎◌, List, [], ◌∷◌, ◌++◌, if◌then◌else◌, ◌==◌, Text}
use retrosaver.Chars.{split, join, trim_space}
use retrosaver.Chars.Find.{Without}
use retrosaver.Config.Write.{keys}

-- A blank line, or one that begins with `#`.
abbrev pub IsComment : Text → Type 0
IsComment text = (text ≡ []) ⊎ ((rest : Text) × (text ≡ 35 ∷ rest))

-- A line that is no comment and has the key, but for white space, before its first equals sign.
abbrev pub Assigns : Text → Text → Type 0
Assigns key line =
    (name : Text) × (value : Text) × (¬ IsComment (trim_space line))
    × (trim_space line ≡ name ++ 61 ∷ value)
    × Without 61 name
    × (key ≡ trim_space name)

abbrev pub AssignedIn : Text → List Text → Type 0
AssignedIn key [] = ⊥
AssignedIn key (l ∷ ls) = Assigns key l ⊎ AssignedIn key ls

-- The line that is rendered for a key: that of the key's first entry.
abbrev pub Renders : List (Text × Text) → Text → Text → Type 0
Renders [] key line = ⊥
Renders ((k, l) ∷ entries) key line =
    ((k ≡ key) × (l ≡ line)) ⊎ ((k ≢ key) × Renders entries key line)

-- A line and what becomes of it, with the lines after it.
abbrev pub Becomes : List (Text × Text) → Text → List Text → Text → Type 0
Becomes rendered l later result =
    ((key : Text) × Assigns key l × (¬ AssignedIn key later) × Renders rendered key result)
    ⊎ ((result ≡ l)
        × ((key : Text)
            → Assigns key l
            → ¬ AssignedIn key later
            → (line : Text) → ¬ Renders rendered key line))

abbrev pub AllBecome : List (Text × Text) → List Text → List Text → Type 0
AllBecome rendered [] results = results ≡ []
AllBecome rendered (l ∷ ls) results =
    (result : Text) × (rest : List Text) × (results ≡ result ∷ rest)
    × Becomes rendered l ls result
    × AllBecome rendered ls rest

-- The lines to append, for the keys in turn: those rendered for the keys that no line assigns.
abbrev pub Appends : List (Text × Text) → List Text → List Text → List Text → Type 0
Appends rendered ls [] extra = extra ≡ []
Appends rendered ls (key ∷ ks) extra =
    ((AssignedIn key ls ⊎ ((line : Text) → ¬ Renders rendered key line))
      × Appends rendered ls ks extra)
    ⊎ ((line : Text) × (rest : List Text) × (¬ AssignedIn key ls)
        × Renders rendered key line
        × (extra ≡ line ∷ rest)
        × Appends rendered ls ks rest)

-- A text whose last line, if it has any, is ended.
abbrev pub ended : Text → Text
ended [] = []
ended (c ∷ []) = if c == 10 then 10 ∷ [] else c ∷ 10 ∷ []
ended (c ∷ d ∷ ds) = c ∷ ended (d ∷ ds)

abbrev pub each_ended : List Text → Text
each_ended [] = []
each_ended (l ∷ ls) = l ++ 10 ∷ each_ended ls

abbrev pub with_extra : Text → List Text → Text
with_extra text [] = text
with_extra text (l ∷ ls) = ended text ++ each_ended (l ∷ ls)

pub record IsEdit (rendered : List (Text × Text)) (content result : Text) : Type 0 where
  pub lines : List Text
  pub extra : List Text
  pub replaced : AllBecome rendered (split 10 content) lines
  pub appended : Appends rendered (split 10 content) keys extra
  pub written : result ≡ with_extra (join (10 ∷ []) lines) extra
