-- ===== src/Config/Frame.antt =====
-- internal/config/config.go: a line of the file changes the setting of its key and no other.
use retrosaver.Prelude.{
  ℕ, ◌≡◌, ◌≢◌, inl, inr, refl, sym, ap, subst, ◌∙◌, Bool, true, false, List, Option, none, some,
  some-injective, arith, Bool-cases, if-both, if◌then◌else◌, leb, Text, codes, text_eq, text_eq_iff,
  length,
}
use retrosaver.Chars.{trim_space, cut, fields}
use retrosaver.Config.{Config, Duration, MonitorMode, same, different}
use retrosaver.Config.Parse.{
  Outcome, failed, parsed, ParseError, seconds, with_seconds, set_key, is_comment, assign, unquote,
  parse_line, bad_seconds, bad_monitors, not_assignment, line_too_long, scan_line, max_token,
  SecondsError,
}
use retrosaver.Config.Write.{assigned_key, key_of}

-- The settings, what each has as its value, and its key.
pub data Setting : Type 0 where
  saver_delay lock_after blank_after cycle_after monitors exclude include : Setting

pub data Value : Type 0 where
  delay : Duration → Value
  mode : MonitorMode → Value
  names : List Text → Value

abbrev pub value_of : Setting → Config → Value
value_of saver_delay c = delay c.saver_delay
value_of lock_after c = delay c.lock_after
value_of blank_after c = delay c.blank_after
value_of cycle_after c = delay c.cycle_after
value_of monitors c = mode c.monitors
value_of exclude c = names c.exclude
value_of include c = names c.include

abbrev pub key_name : Setting → Text
key_name saver_delay = codes "SAVER_DELAY"
key_name lock_after = codes "LOCK_AFTER"
key_name blank_after = codes "BLANK_AFTER"
key_name cycle_after = codes "CYCLE_AFTER"
key_name monitors = codes "MONITORS"
key_name exclude = codes "EXCLUDE"
key_name include = codes "INCLUDE"

-- What a key that is not the setting's leaves of it.
abbrev Same : Setting → Config → Outcome ParseError Config → Type 0
Same s c o = (c' : Config) → o ≡ parsed c' → value_of s c' ≡ value_of s c

parsed-Same : (s : Setting) (c d : Config) → value_of s d ≡ value_of s c → Same s c (parsed d)
parsed-Same s c d h c' e = let equal : d ≡ c' = ground arith in ap (value_of s) (sym equal) ∙ h

failed-Same : (s : Setting) (c : Config) (e : ParseError) → Same s c (failed e)
failed-Same s c e c' k = cc

with_seconds-Same :
    (s : Setting) (n : ℕ) (key : Text) (c : Config) (put : Duration → Config)
    (o : Outcome SecondsError Duration)
    → ((d : Duration) → value_of s (put d) ≡ value_of s c)
    → Same s c (with_seconds n key put o)
with_seconds-Same s n key c put (failed e) h = failed-Same s c (bad_seconds n key e)
with_seconds-Same s n key c put (parsed d) h = parsed-Same s c (put d) (h d)

saver_delay-other :
    (s : Setting) (c : Config) (v : Duration)
    → s ≢ saver_delay
    → value_of s (record c { saver_delay = v }) ≡ value_of s c
saver_delay-other saver_delay c v h = absurd (h refl)
saver_delay-other _ c v h = refl

lock_after-other :
    (s : Setting) (c : Config) (v : Duration)
    → s ≢ lock_after
    → value_of s (record c { lock_after = v }) ≡ value_of s c
lock_after-other lock_after c v h = absurd (h refl)
lock_after-other _ c v h = refl

blank_after-other :
    (s : Setting) (c : Config) (v : Duration)
    → s ≢ blank_after
    → value_of s (record c { blank_after = v }) ≡ value_of s c
blank_after-other blank_after c v h = absurd (h refl)
blank_after-other _ c v h = refl

cycle_after-other :
    (s : Setting) (c : Config) (v : Duration)
    → s ≢ cycle_after
    → value_of s (record c { cycle_after = v }) ≡ value_of s c
cycle_after-other cycle_after c v h = absurd (h refl)
cycle_after-other _ c v h = refl

monitors-other :
    (s : Setting) (c : Config) (v : MonitorMode)
    → s ≢ monitors
    → value_of s (record c { monitors = v }) ≡ value_of s c
monitors-other monitors c v h = absurd (h refl)
monitors-other _ c v h = refl

exclude-other :
    (s : Setting) (c : Config) (v : List Text)
    → s ≢ exclude
    → value_of s (record c { exclude = v }) ≡ value_of s c
exclude-other exclude c v h = absurd (h refl)
exclude-other _ c v h = refl

include-other :
    (s : Setting) (c : Config) (v : List Text)
    → s ≢ include
    → value_of s (record c { include = v }) ≡ value_of s c
include-other include c v h = absurd (h refl)
include-other _ c v h = refl

is_other : (s t : Setting) (key : Text) → key ≢ key_name s → text_eq key (key_name t) ≡ true → s ≢ t
is_other s t key h e equal = h ((text_eq_iff key (key_name t)).0 e ∙ ap key_name (sym equal))

-- A key leaves the settings of the other keys as they are.
set_key-Same :
    (s : Setting) (n : ℕ) (key value : Text) (c : Config)
    → key ≢ key_name s
    → Same s c (set_key n key value c)
unfolding set_key
set_key-Same s n key value c h =
    if-both (Same s c) (text_eq key (codes "SAVER_DELAY")) _ _
      (λ e.
        with_seconds-Same s n key c (λ d. record c { saver_delay = d }) (seconds value)
          λ d. saver_delay-other s c d (is_other s saver_delay key h e))
      λ _.
        if-both (Same s c) (text_eq key (codes "LOCK_AFTER")) _ _
          (λ e.
            with_seconds-Same s n key c (λ d. record c { lock_after = d }) (seconds value)
              λ d. lock_after-other s c d (is_other s lock_after key h e))
          λ _.
            if-both (Same s c) (text_eq key (codes "BLANK_AFTER")) _ _
              (λ e.
                with_seconds-Same s n key c (λ d. record c { blank_after = d }) (seconds value)
                  λ d. blank_after-other s c d (is_other s blank_after key h e))
              λ _.
                if-both (Same s c) (text_eq key (codes "CYCLE_AFTER")) _ _
                  (λ e.
                    with_seconds-Same s n key c (λ d. record c { cycle_after = d }) (seconds value)
                      λ d. cycle_after-other s c d (is_other s cycle_after key h e))
                  λ _.
                    if-both (Same s c) (text_eq key (codes "MONITORS")) _ _
                      (λ e.
                        let other = is_other s monitors key h e in
                        if-both (Same s c) (text_eq value (codes "same")) _ _
                          (λ _.
                            parsed-Same s c (record c { monitors = same })
                              (monitors-other s c same other))
                          λ _.
                            if-both (Same s c) (text_eq value (codes "different")) _ _
                              (λ _.
                                parsed-Same s c (record c { monitors = different })
                                  (monitors-other s c different other))
                              λ _. failed-Same s c (bad_monitors n value))
                      λ _.
                        if-both (Same s c) (text_eq key (codes "EXCLUDE")) _ _
                          (λ e.
                            parsed-Same s c (record c { exclude = fields value })
                              (exclude-other s c (fields value) (is_other s exclude key h e)))
                          λ _.
                            if-both (Same s c) (text_eq key (codes "INCLUDE")) _ _
                              (λ e.
                                parsed-Same s c (record c { include = fields value })
                                  (include-other s c (fields value) (is_other s include key h e)))
                              λ _. parsed-Same s c c refl

-- What a key makes of its setting does not depend on the settings before.
abbrev Agree : Setting → Outcome ParseError Config → Outcome ParseError Config → Type 0
Agree s o p = (c d : Config) → o ≡ parsed c → p ≡ parsed d → value_of s c ≡ value_of s d

parsed-Agree :
    (s : Setting) (c d : Config) → value_of s c ≡ value_of s d → Agree s (parsed c) (parsed d)
parsed-Agree s c d h c' d' e k = parsed-Same s c c refl c' e ∙ h ∙ sym (parsed-Same s d d refl d' k)

with_seconds-Agree :
    (s : Setting) (n k : ℕ) (key : Text) (put put' : Duration → Config)
    (o : Outcome SecondsError Duration)
    → ((d : Duration) → value_of s (put d) ≡ value_of s (put' d))
    → Agree s (with_seconds n key put o) (with_seconds k key put' o)
with_seconds-Agree s n k key put put' (failed e) h = λ c d a b. cc
with_seconds-Agree s n k key put put' (parsed d) h = parsed-Agree s (put d) (put' d) (h d)

mode_set : Bool → Bool → ℕ → Text → Config → Outcome ParseError Config
mode_set a b n value c =
    if a
    then parsed (record c { monitors = same })
    else if b
    then parsed (record c { monitors = different })
    else failed (bad_monitors n value)

monitors-Agree :
    (a b : Bool) (n k : ℕ) (value : Text) (c d : Config)
    → Agree monitors (mode_set a b n value c) (mode_set a b k value d)
unfolding mode_set
monitors-Agree true b n k value c d =
    parsed-Agree monitors (record c { monitors = same }) (record d { monitors = same }) refl
monitors-Agree false true n k value c d =
    parsed-Agree monitors (record c { monitors = different }) (record d { monitors = different })
      refl
monitors-Agree false false n k value c d = λ c' d' a b. cc

set_key-Agree :
    (s : Setting) (n k : ℕ) (value : Text) (c d : Config)
    → Agree s (set_key n (key_name s) value c) (set_key k (key_name s) value d)
unfolding set_key text_eq mode_set
set_key-Agree saver_delay n k value c d =
    with_seconds-Agree saver_delay n k (key_name saver_delay) (λ v. record c { saver_delay = v })
      (λ v. record d { saver_delay = v }) (seconds value) λ v. refl
set_key-Agree lock_after n k value c d =
    with_seconds-Agree lock_after n k (key_name lock_after) (λ v. record c { lock_after = v })
      (λ v. record d { lock_after = v }) (seconds value) λ v. refl
set_key-Agree blank_after n k value c d =
    with_seconds-Agree blank_after n k (key_name blank_after) (λ v. record c { blank_after = v })
      (λ v. record d { blank_after = v }) (seconds value) λ v. refl
set_key-Agree cycle_after n k value c d =
    with_seconds-Agree cycle_after n k (key_name cycle_after) (λ v. record c { cycle_after = v })
      (λ v. record d { cycle_after = v }) (seconds value) λ v. refl
set_key-Agree monitors n k value c d =
    monitors-Agree (text_eq value (codes "same")) (text_eq value (codes "different")) n k value c d
set_key-Agree exclude n k value c d =
    parsed-Agree exclude (record c { exclude = fields value }) (record d { exclude = fields value })
      refl
set_key-Agree include n k value c d =
    parsed-Agree include (record c { include = fields value }) (record d { include = fields value })
      refl

assign-Same :
    (s : Setting) (n : ℕ) (text : Text) (c : Config) (o : Option (Text × Text))
    → key_of o ≢ some (key_name s)
    → Same s c (assign n text c o)
assign-Same s n text c none h = failed-Same s c (not_assignment n text)
assign-Same s n text c (some (key, value)) h =
    set_key-Same s n (trim_space key) (unquote (trim_space value)) c (λ e. h (ap some e))

-- A line that does not assign a setting's key leaves the setting as it is.
pub scan_line-Same :
    (s : Setting) (n : ℕ) (raw : Text) (c : Config)
    → assigned_key raw ≢ some (key_name s)
    → Same s c (scan_line n raw c)
unfolding scan_line parse_line assigned_key
scan_line-Same s n raw c h =
    if-both (Same s c) (leb max_token (length raw)) _ _ (λ _. failed-Same s c line_too_long)
      λ _. elim (Bool-cases (is_comment (trim_space raw))) [
        | inl comment ↦ rw comment (parsed-Same s c c refl)
        | inr no_comment ↦
            rw no_comment
              (assign-Same s n (trim_space raw) c (cut 61 (trim_space raw)) (rw no_comment at h))
      ]

assign-Agree :
    (s : Setting) (n k : ℕ) (text : Text) (c d : Config) (o : Option (Text × Text))
    → key_of o ≡ some (key_name s)
    → Agree s (assign n text c o) (assign k text d o)
assign-Agree s n k text c d none h = cc
assign-Agree s n k text c d (some (key, value)) h =
    let its : trim_space key ≡ key_name s = some-injective (trim_space key) (key_name s) h in
    subst
      (λ name.
        Agree s (set_key n name (unquote (trim_space value)) c)
          (set_key k name (unquote (trim_space value)) d))
      (sym its) (set_key-Agree s n k (unquote (trim_space value)) c d)

failed-Agree : (s : Setting) (e : ParseError) (p : Outcome ParseError Config) → Agree s (failed e) p
failed-Agree s e p c d a b = cc

-- A line that assigns a setting's key makes the same of the setting, whatever the settings were.
pub scan_line-Agree :
    (s : Setting) (n k : ℕ) (raw : Text) (c d : Config)
    → assigned_key raw ≡ some (key_name s)
    → Agree s (scan_line n raw c) (scan_line k raw d)
unfolding scan_line parse_line assigned_key
scan_line-Agree s n k raw c d h = elim (Bool-cases (leb max_token (length raw))) [
  | inl long ↦ rw long (failed-Agree s line_too_long (failed line_too_long))
  | inr fits ↦ elim (Bool-cases (is_comment (trim_space raw))) [
    | inl comment ↦ let nothing = rw comment at h in cc
    | inr no_comment ↦ rw fits (
        rw no_comment
          (assign-Agree s n k (trim_space raw) c d (cut 61 (trim_space raw)) (rw no_comment at h)))
  ]
]
