-- ===== src/Config/Edits.antt =====
-- internal/config/write.go: what an edit of the config file leaves alone, and that what it writes
-- loads.
use retrosaver.Prelude.{
  ℕ, zero, suc, ◌+◌, ◌≡◌, ◌≢◌, inl, inr, refl, sym, ◌∙◌, ap, subst, List, [], ◌∷◌, Option, none,
  some, arith, Bool-cases, get_elem?, set, Text, text_eq,
}
use retrosaver.Config.{Config, defaults}
use retrosaver.Config.Parse.{
  Outcome, ParseError, ReadFile, failed, parsed, missing, unreadable, holds, parse, load,
}
use retrosaver.Config.Write.{
  lookup, assigned_key, mark, mark_found, last_lines, put_line, replace_one, replace_lines,
  UpdateError, checked, set_rendered, set_config, apply, render, default_file,
}

-- Text that reads as a configuration without an error.
abbrev pub Loads : Text → Type 0
Loads text = (c : Config) × (load (holds text) ≡ (c, none))

checked-Loads :
    (edited text : Text) (o : Outcome ParseError Config)
    → parse edited defaults ≡ o
    → checked edited o ≡ parsed (some text)
    → Loads text
unfolding load
checked-Loads edited text (failed e) k h = cc
checked-Loads edited text (parsed c) k h =
    let same : edited ≡ text = cc in (c, subst (λ t. load (holds t) ≡ (c, none)) same (rw k refl))

set_rendered-Loads :
    (file : ReadFile) (o : Outcome UpdateError (List (Text × Text))) (text : Text)
    → set_rendered file o ≡ parsed (some text)
    → Loads text
set_rendered-Loads file (failed e) text h = cc
set_rendered-Loads missing (parsed r) text h =
    checked-Loads (apply default_file r) text (parse (apply default_file r) defaults) refl h
set_rendered-Loads unreadable (parsed r) text h = cc
set_rendered-Loads (holds content) (parsed r) text h =
    checked-Loads (apply content r) text (parse (apply content r) defaults) refl h

-- What `Set` writes, whatever the file held and whatever the updates, is a file that `Load` reads
-- without an error.
pub set_config-Loads :
    (file : ReadFile) (updates : List (Text × Text)) (text : Text)
    → set_config file updates ≡ parsed (some text)
    → Loads text
unfolding set_config
set_config-Loads file [] text h = cc
set_config-Loads file (u ∷ us) text h = set_rendered-Loads file (render (u ∷ us)) text h

-- A line that assigns none of the rendered keys.
abbrev pub Untouched : List (Text × Text) → Text → Type 0
Untouched rendered l = (key : Text) → assigned_key l ≡ some key → lookup rendered key ≡ none

get_elem?-set :
    (xs : List Text) (i j : ℕ) (l : Text) → i ≢ j → get_elem? (set xs j l) i ≡ get_elem? xs i
get_elem?-set [] i j l n = refl
get_elem?-set (x ∷ xs) zero zero l n = absurd (n refl)
get_elem?-set (x ∷ xs) zero (suc j) l n = refl
get_elem?-set (x ∷ xs) (suc i) zero l n = refl
get_elem?-set (x ∷ xs) (suc i) (suc j) l n = get_elem?-set xs i j l (λ e. n (ap suc e))

-- No entry points at line `i`.
abbrev pub Misses : ℕ → List (Text × ℕ) → Type 0
Misses i last = (key : Text) (j : ℕ) → lookup last key ≡ some j → i ≢ j

mark_found-Misses :
    (i k : ℕ) (key : Text) (o : Option Text) (last : List (Text × ℕ))
    → Misses i last
    → (i ≡ k → o ≡ none)
    → Misses i (mark_found key k o last)
unfolding lookup
mark_found-Misses i k key none last m u = m
mark_found-Misses i k key (some line) last m u = λ key' j e. elim (Bool-cases (text_eq key key')) [
  | inl same_key ↦ λ at_k. let none_there = u (at_k ∙ sym (some_eq (rw same_key at e))) in cc
  | inr other ↦ m key' j (rw other at e)
]
  where
    some_eq : {x y : ℕ} → some x ≡ some y → x ≡ y
    some_eq h = cc

mark-Misses :
    (rendered : List (Text × Text)) (i k : ℕ) (o : Option Text) (last : List (Text × ℕ))
    → Misses i last
    → (i ≡ k → (key : Text) → o ≡ some key → lookup rendered key ≡ none)
    → Misses i (mark rendered k o last)
mark-Misses rendered i k none last m u = m
mark-Misses rendered i k (some key) last m u =
    mark_found-Misses i k key (lookup rendered key) last m (λ e. u e key refl)

last_lines-Misses :
    (rendered : List (Text × Text)) (i k : ℕ) (ls : List Text) (last : List (Text × ℕ))
    → Misses i last
    → ((d : ℕ) (l : Text) → i ≡ k + d → get_elem? ls d ≡ some l → Untouched rendered l)
    → Misses i (last_lines rendered k ls last)
unfolding last_lines
last_lines-Misses rendered i k [] last m u = m
last_lines-Misses rendered i k (l ∷ ls) last m u =
    last_lines-Misses rendered i (suc k) ls (mark rendered k (assigned_key l) last)
      (mark-Misses rendered i k (assigned_key l) last m (λ e. u 0 l (omega arith) refl))
      (λ d l' e. u (suc d) l' (omega arith))

put_line-keeps :
    (i j : ℕ) (o : Option Text) (lines : List Text)
    → i ≢ j
    → get_elem? (put_line j o lines) i ≡ get_elem? lines i
put_line-keeps i j none lines n = refl
put_line-keeps i j (some l) lines n = get_elem?-set lines i j l n

replace_one-keeps :
    (rendered : List (Text × Text)) (key : Text) (i : ℕ) (o : Option ℕ) (lines : List Text)
    → ((j : ℕ) → o ≡ some j → i ≢ j)
    → get_elem? (replace_one rendered key o lines) i ≡ get_elem? lines i
replace_one-keeps rendered key i none lines m = refl
replace_one-keeps rendered key i (some j) lines m =
    put_line-keeps i j (lookup rendered key) lines (m j refl)

pub replace_lines-keeps :
    (rendered entries : List (Text × Text)) (last : List (Text × ℕ)) (i : ℕ) (lines : List Text)
    → Misses i last
    → get_elem? (replace_lines rendered last entries lines) i ≡ get_elem? lines i
unfolding replace_lines
replace_lines-keeps rendered [] last i lines m = refl
replace_lines-keeps rendered ((key, v) ∷ entries) last i lines m =
    replace_lines-keeps rendered entries last i (replace_one rendered key (lookup last key) lines) m
    ∙ replace_one-keeps rendered key i (lookup last key) lines (m key)

-- A line of the file that assigns none of the keys to be set (a comment, a blank line, an unknown
-- key or no assignment at all) is in the edited lines where it was.
pub last_lines-keeps :
    (rendered : List (Text × Text)) (lines : List Text) (i : ℕ) (l : Text)
    → get_elem? lines i ≡ some l
    → Untouched rendered l
    → get_elem? (replace_lines rendered (last_lines rendered 0 lines []) rendered lines) i ≡ some l
unfolding lookup
last_lines-keeps rendered lines i l at_i u =
    replace_lines-keeps rendered rendered (last_lines rendered 0 lines []) i lines
      (last_lines-Misses rendered i 0 lines [] (λ key j e. cc) (there))
    ∙ at_i
  where
    there : (d : ℕ) (l' : Text) → i ≡ 0 + d → get_elem? lines d ≡ some l' → Untouched rendered l'
    there d l' e at_d =
        let same : d ≡ i = omega arith in
        let found : get_elem? lines i ≡ some l' =
          subst (λ k. get_elem? lines k ≡ some l') same at_d in
        let equal : l ≡ l' = cc in subst (Untouched rendered) equal u
