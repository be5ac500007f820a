-- ===== src/Config/Assigned.antt =====
-- internal/config/write.go: the value of a setting after the line that is rendered for it.
use retrosaver.Prelude.{
  ℕ, ◌≡◌, inl, inr, refl, sym, ap, subst, ◌∙◌, true, false, ◌||◌, [], ◌∷◌, ◌++◌, append_assoc, some,
  some-injective, arith, Bool-cases, Text, codes, text_eq, contains,
}
use retrosaver.Chars.{fields, join}
use retrosaver.Chars.Trim.{fields-join}
use retrosaver.Config.{Config, Duration, same, different}
use retrosaver.Config.Parse.{
  Outcome, failed, parsed, ParseError, SecondsError, seconds, with_seconds, set_key, scan_line,
}
use retrosaver.Config.Write.{assignment, all_module_names, has_unwanted, list_keys, keys}
use retrosaver.Config.Frame.{
  Setting, Value, delay, mode, names, value_of, key_name, saver_delay, lock_after, blank_after,
  cycle_after, monitors, exclude, include,
}
use retrosaver.Config.Lines.{IsTight-quoted, unquote-quoted, AllNames, AllNames-words}
use retrosaver.Config.Rendered.{AllNames-all}
use retrosaver.Config.Final.{known_key}
use retrosaver.Config.Spelled.{
  delay_of, mode_of, spelled, key_name-IsKey, IsBare, delay-IsBare, mode-IsBare, scanned-set_key,
  unquote-IsBare, IsBare-IsTight,
}

with_seconds-value :
    (n : ℕ) (key : Text) (s : Setting) (put : Duration → Config) (o : Outcome SecondsError Duration)
    (d : Config) (x : Value)
    → ((t : Duration) → value_of s (put t) ≡ delay t)
    → with_seconds n key put o ≡ parsed d
    → delay_of o ≡ some x
    → value_of s d ≡ x
with_seconds-value n key s put (failed e) d x p h m = cc
with_seconds-value n key s put (parsed t) d x p h m =
    let made : put t ≡ d = ground arith in
    let value : delay t ≡ x = some-injective (delay t) x m in
    ap (value_of s) (sym made) ∙ p t ∙ value

parsed-value :
    (s : Setting) (a d : Config) (x y : Value)
    → ◌≡◌ {A = Outcome ParseError Config} (parsed a) (parsed d)
    → value_of s a ≡ y
    → some y ≡ some x
    → value_of s d ≡ x
parsed-value s a d x y h e m =
    let made : a ≡ d = ground arith in ap (value_of s) (sym made) ∙ e ∙ some-injective y x m

mode-value :
    (n : ℕ) (v : Text) (c d : Config) (x : Value)
    → set_key n (codes "MONITORS") v c ≡ parsed d
    → mode_of v ≡ some x
    → value_of monitors d ≡ x
unfolding set_key text_eq
mode-value n v c d x h m = elim (Bool-cases (text_eq v (codes "same"))) [
  | inl e ↦
      parsed-value monitors (record c { monitors = same }) d x (mode same) (rw e at h) refl
        (rw e at m)
  | inr e ↦ elim (Bool-cases (text_eq v (codes "different"))) [
    | inl e' ↦
        parsed-value monitors (record c { monitors = different }) d x (mode different)
          (rw e' at (rw e at h)) refl (rw e' at (rw e at m))
    | inr e' ↦ let bad = rw e' at (rw e at m) in cc
  ]
]

-- An assignment that is read leaves the setting with the value that its text spells.
set_key-value :
    (s : Setting) (n : ℕ) (v : Text) (c d : Config) (x : Value)
    → set_key n (key_name s) v c ≡ parsed d
    → spelled s v ≡ some x
    → value_of s d ≡ x
unfolding set_key text_eq
set_key-value saver_delay n v c d x h m =
    with_seconds-value n (key_name saver_delay) saver_delay (λ t. record c { saver_delay = t })
      (seconds v) d x (λ t. refl) h m
set_key-value lock_after n v c d x h m =
    with_seconds-value n (key_name lock_after) lock_after (λ t. record c { lock_after = t })
      (seconds v) d x (λ t. refl) h m
set_key-value blank_after n v c d x h m =
    with_seconds-value n (key_name blank_after) blank_after (λ t. record c { blank_after = t })
      (seconds v) d x (λ t. refl) h m
set_key-value cycle_after n v c d x h m =
    with_seconds-value n (key_name cycle_after) cycle_after (λ t. record c { cycle_after = t })
      (seconds v) d x (λ t. refl) h m
set_key-value monitors n v c d x h m = mode-value n v c d x h m
set_key-value exclude n v c d x h m =
    parsed-value exclude (record c { exclude = fields v }) d x (names (fields v)) h refl m
set_key-value include n v c d x h m =
    parsed-value include (record c { include = fields v }) d x (names (fields v)) h refl m

-- The lines of the keys that take one word, and of those that take a list.
word_line :
    (key v line : Text)
    → contains keys key ≡ true
    → contains list_keys key ≡ false
    → assignment key v ≡ parsed line
    → line ≡ key ++ 61 ∷ v
unfolding assignment
word_line key v line k l h =
    let rest = rw l at (rw k at h) in
    elim (Bool-cases (text_eq v [] || has_unwanted v)) [
      | inl e ↦ let bad = rw e at rest in cc
      | inr e ↦
          let made : (key ++ 61 ∷ []) ++ v ≡ line = let same = rw e at rest in ground arith in
          sym made ∙ append_assoc key (61 ∷ []) v
    ]

names_line :
    (key v line : Text)
    → contains keys key ≡ true
    → contains list_keys key ≡ true
    → assignment key v ≡ parsed line
    → (line ≡ key ++ 61 ∷ 34 ∷ (join (32 ∷ []) (fields v) ++ 34 ∷ [])) × AllNames (fields v)
unfolding assignment
names_line key v line k l h =
    let rest = rw l at (rw k at h) in
    elim (Bool-cases (all_module_names (fields v))) [
      | inl e ↦ (
        (let made : ((key ++ (61 ∷ 34 ∷ [])) ++ join (32 ∷ []) (fields v)) ++ (34 ∷ []) ≡ line =
              let same = rw e at rest in ground arith in
            sym made
            ∙ append_assoc (key ++ 61 ∷ 34 ∷ []) (join (32 ∷ []) (fields v)) (34 ∷ [])
            ∙ append_assoc key (61 ∷ 34 ∷ []) (join (32 ∷ []) (fields v) ++ 34 ∷ [])),
        AllNames-all (fields v) e,
      )
      | inr e ↦ let bad = rw e at rest in cc
    ]

module _ (s : Setting) (v line : Text) (x : Value) (made : assignment (key_name s) v ≡ parsed line)
    (meant : spelled s v ≡ some x) (n : ℕ) (c d : Config)
    (scanned : scan_line n line c ≡ parsed d) where
  word-value : contains list_keys (key_name s) ≡ false → IsBare v → value_of s d ≡ x
  word-value one b =
      let here = word_line (key_name s) v line (known_key s) one made in
      set_key-value s n v c d x
        (ap (λ t. set_key n (key_name s) t c) (sym (unquote-IsBare v b))
          ∙ scanned-set_key n (key_name s) v c d (key_name-IsKey s) (IsBare-IsTight v b)
              (subst (λ l. scan_line n l c ≡ parsed d) here scanned))
        meant

  list-value :
      contains list_keys (key_name s) ≡ true
      → spelled s (join (32 ∷ []) (fields v)) ≡ some x
      → value_of s d ≡ x
  list-value many h =
      let (here, _) = names_line (key_name s) v line (known_key s) many made in
      let text = join (32 ∷ []) (fields v) in
      set_key-value s n text c d x
        (ap (λ t. set_key n (key_name s) t c) (sym (unquote-quoted text))
          ∙ scanned-set_key n (key_name s) (34 ∷ (text ++ 34 ∷ [])) c d (key_name-IsKey s)
              (IsTight-quoted text) (subst (λ l. scan_line n l c ≡ parsed d) here scanned))
        h

  fields-written :
      contains list_keys (key_name s) ≡ true → fields (join (32 ∷ []) (fields v)) ≡ fields v
  fields-written many =
      fields-join (fields v)
        (AllNames-words (fields v) (names_line (key_name s) v line (known_key s) many made).1).0

-- The line that is rendered for a setting, once it is scanned, leaves it with the value that the
-- update spells.
pub rendered-value :
    (s : Setting) (v line : Text) (x : Value)
    → assignment (key_name s) v ≡ parsed line
    → spelled s v ≡ some x
    → (n : ℕ) (c d : Config) → scan_line n line c ≡ parsed d
    → value_of s d ≡ x
unfolding contains text_eq
rendered-value saver_delay v line x h m n c d k =
    word-value saver_delay v line x h m n c d k refl (delay-IsBare v x m)
rendered-value lock_after v line x h m n c d k =
    word-value lock_after v line x h m n c d k refl (delay-IsBare v x m)
rendered-value blank_after v line x h m n c d k =
    word-value blank_after v line x h m n c d k refl (delay-IsBare v x m)
rendered-value cycle_after v line x h m n c d k =
    word-value cycle_after v line x h m n c d k refl (delay-IsBare v x m)
rendered-value monitors v line x h m n c d k =
    word-value monitors v line x h m n c d k refl (mode-IsBare v x m)
rendered-value exclude v line x h m n c d k =
    list-value exclude v line x h m n c d k refl
      (ap (λ f. some (names f)) (fields-written exclude v line x h m n c d k refl) ∙ m)
rendered-value include v line x h m n c d k =
    list-value include v line x h m n c d k refl
      (ap (λ f. some (names f)) (fields-written include v line x h m n c d k refl) ∙ m)
