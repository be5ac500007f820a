-- ===== src/Config/Assigning.antt =====
-- internal/config/config.go: the value of a setting depends on the lines that assign its key, and
-- on no others.
use retrosaver.Prelude.{
  ℕ, suc, ◌≡◌, ◌≢◌, refl, sym, ap, subst, ◌∙◌, Bool, true, false, List, [], ◌∷◌, Option, none, some,
  arith, Bool-cases, if◌then◌else◌, Text, text_eq, text_eq_iff, inl, inr,
}
use retrosaver.Config.{Config}
use retrosaver.Config.Parse.{Outcome, failed, parsed, ParseError, scan_line, and_then, parse_lines}
use retrosaver.Config.Write.{assigned_key}
use retrosaver.Config.Frame.{Setting, Value, value_of, key_name, scan_line-Same, scan_line-Agree}

abbrev pub is_key : Text → Option Text → Bool
is_key key none = false
is_key key (some k) = text_eq k key

abbrev pub assigns : Setting → Text → Bool
assigns s l = is_key (key_name s) (assigned_key l)

-- The lines that assign a setting's key.
unfoldable pub assigning : Setting → List Text → List Text
assigning s [] = []
assigning s (l ∷ ls) = let rest = assigning s ls in if assigns s l then l ∷ rest else rest

pub is_key→some : (key : Text) (o : Option Text) → is_key key o ≡ true → o ≡ some key
is_key→some key none h = cc
is_key→some key (some k) h = ap some ((text_eq_iff k key).0 h)

is_key→other : (key : Text) (o : Option Text) → is_key key o ≡ false → o ≢ some key
is_key→other key none h = λ e. cc
is_key→other key (some k) h =
    λ e. let equal : k ≡ key = ground arith in let found = (text_eq_iff k key).1 equal in cc

-- A line that can leave the setting with a value.
abbrev pub Makes : Setting → Text → Value → Type 0
Makes s l v =
    (n : ℕ) × (c : Config) × (d : Config) × (scan_line n l c ≡ parsed d) × (value_of s d ≡ v)

Makes-unique :
    (s : Setting) (l : Text) (v w : Value) → assigns s l ≡ true → Makes s l v → Makes s l w → v ≡ w
Makes-unique s l v w a (n, c, d, e, h) (m, c', d', e', h') =
    sym h
    ∙ scan_line-Agree s n m l c c' (is_key→some (key_name s) (assigned_key l) a) d d' e e'
    ∙ h'

-- The value that a setting with value `v` has after the lines, in turn.
unfoldable pub Results : Setting → List Text → Value → Value → Type 0
Results s [] v w = w ≡ v
Results s (l ∷ ls) v w = (u : Value) × (assigns s l ≡ true) × Makes s l u × Results s ls u w

Results-unique :
    (s : Setting) (ls : List Text) (v u w : Value) → Results s ls v u → Results s ls v w → u ≡ w
unfolding Results
Results-unique s [] v u w h k = h ∙ sym k
Results-unique s (l ∷ ls) v u w (a, t, m, r) (a', t', m', r') =
    Results-unique s ls a u w r (subst (λ x. Results s ls x w) (Makes-unique s l a' a t m' m) r')

and_then-parsed :
    (o : Outcome ParseError Config) (next : Config → Outcome ParseError Config) (d : Config)
    → and_then o next ≡ parsed d
    → (c : Config) × (o ≡ parsed c) × (next c ≡ parsed d)
and_then-parsed (failed e) next d h = cc
and_then-parsed (parsed c) next d h = (c, refl, h)

pub parse_lines-Results :
    (s : Setting) (n : ℕ) (ls : List Text) (c d : Config)
    → parse_lines n ls c ≡ parsed d
    → Results s (assigning s ls) (value_of s c) (value_of s d)
unfolding parse_lines assigning Results
parse_lines-Results s n [] c d h = let equal : c ≡ d = ground arith in ap (value_of s) (sym equal)
parse_lines-Results s n (l ∷ ls) c d h =
    let (c1, here, later) =
      and_then-parsed (scan_line n l c) (λ c'. parse_lines (suc n) ls c') d h in
    let rest = parse_lines-Results s (suc n) ls c1 d later in
    elim (Bool-cases (assigns s l)) [
      | inl a ↦ rw a (value_of s c1, a, (n, c, c1, here, refl), rest)
      | inr b ↦
          let kept =
            scan_line-Same s n l c (is_key→other (key_name s) (assigned_key l) b) c1 here in
          rw b (subst (λ v. Results s (assigning s ls) v (value_of s d)) kept rest)
    ]

-- Two files that parse, from settings that agree, and that have the same lines for a setting's key,
-- agree on the setting.
pub parse_lines-assigning :
    (s : Setting) (n k : ℕ) (ls ms : List Text) (c d : Config)
    → assigning s ls ≡ assigning s ms
    → (b : Config) → parse_lines n ls b ≡ parsed c
    → parse_lines k ms b ≡ parsed d
    → value_of s c ≡ value_of s d
parse_lines-assigning s n k ls ms c d e b h h' =
    Results-unique s (assigning s ms) (value_of s b) (value_of s c) (value_of s d)
      (subst (λ xs. Results s xs (value_of s b) (value_of s c)) e
        (parse_lines-Results s n ls b c h))
      (parse_lines-Results s k ms b d h')
