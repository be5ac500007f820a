-- ===== src/Config/Lines.antt =====
-- internal/config/config.go: what the parser makes of lines that the program itself writes.
use retrosaver.Prelude.{
  ℕ, ◌*◌, ◌≤◌, ◌<◌, ◌≡◌, ◌∙◌, refl, sym, ap, subst, Bool, true, false, not, ◌&&◌, ◌||◌, List, [],
  ◌∷◌, ◌++◌, some, arith, leb, ◌==◌, All, length, Text, text_eq, lt64, mul64,
}
use retrosaver.Config.{Config, Duration, second}
use retrosaver.Chars.{
  keep_unless_blank, is_space, trim_left, trim_right, trim_space, cut, has_prefix, itoa, quoted,
}
use retrosaver.Chars.Numbers.{atoi-itoa, Digits, not_space, trim_right-only_digits}
use retrosaver.Chars.Trim.{trim_right-append, OneWord, IsWord, IsPlain, OneLine}
use retrosaver.Config.Parse.{
  parsed, max_seconds, max_token, seconds, in_range, unquote, closed_by, set_key, parse_line,
  scan_line, is_comment,
}
use retrosaver.Config.Write.{assigned_key, is_name_char, all_name_chars, is_module_name}

-- A duration of whole seconds that the parser accepts.
abbrev pub IsWhole : Duration → Type 0
IsWhole d = (k : ℕ) × (k ≤ max_seconds) × (d ≡ k * second)

pub seconds-itoa : (k : ℕ) → k ≤ max_seconds → seconds (itoa k) ≡ parsed (k * second)
unfolding seconds
seconds-itoa k h = rw (atoi-itoa k (omega arith)) (accepted k h)
  where
    accepted : (k : ℕ) → k ≤ max_seconds → in_range (some k) ≡ parsed (k * second)
    accepted k h =
        let not_negative : lt64 k 0 ≡ false = ground arith in
        let not_large : lt64 max_seconds k ≡ false = ground arith in
        let exact : mul64 k second ≡ k * second = omega arith in
        rw not_negative (rw not_large (rw exact refl))

closed_by-quoted : (q : ℕ) (t : Text) → closed_by q (t ++ q ∷ []) ≡ some t
closed_by-quoted q [] = ground arith
closed_by-quoted q (c ∷ []) = rw (closed_by-quoted q []) refl
closed_by-quoted q (c ∷ d ∷ ds) = rw (closed_by-quoted q (d ∷ ds)) refl

pub unquote-quoted : (t : Text) → unquote (34 ∷ (t ++ 34 ∷ [])) ≡ t
unfolding unquote
unquote-quoted t = rw (closed_by-quoted 34 t) refl

pub unquote-word : (c : ℕ) (cs : Text) → (c == 34 || c == 39) ≡ false → unquote (c ∷ cs) ≡ c ∷ cs
unfolding unquote
unquote-word c cs h = rw h refl

-- The characters of module names.
name_char_lem :
    (c : ℕ)
    → is_name_char c ≡ true
    → (is_space c ≡ false) × (quoted c ≡ c ∷ []) × ((c == 10) ≡ false)
unfolding is_space
name_char_lem c h = ground arith

all_chars : (t : Text) → all_name_chars t ≡ true → OneWord t × IsPlain t × OneLine t
unfolding all_name_chars
all_chars [] h = (tt, tt, tt)
all_chars (c ∷ cs) h =
    let (space, plain, line) = name_char_lem c (ground arith) in
    let (spaces, plains, lines) = all_chars cs (ground arith) in
    ((space, spaces), (plain, plains), (line, lines))

-- Module names are words, plain, and on one line.
pub name-IsWord : (n : Text) → is_module_name n ≡ true → IsWord n × IsPlain n × OneLine n
unfolding all_name_chars text_eq
name-IsWord [] h = absurd (ground arith)
name-IsWord (c ∷ cs) h =
    let chars = all_chars (c ∷ cs) (both (all_name_chars (c ∷ cs)) (not (text_eq (c ∷ cs) [])) h) in
    ((chars.0, (c, cs, refl)), chars.1, chars.2)
  where
    both : (a b : Bool) → (a && b) ≡ true → a ≡ true
    both a b h = ground arith

abbrev pub AllNames : List Text → Type 0
AllNames = All (λ n. is_module_name n ≡ true)

pub AllNames-words :
    (ns : List Text)
    → AllNames ns
    → All IsWord ns × All (λ n. IsPlain n) ns × All (λ n. OneLine n) ns
AllNames-words [] h = (tt, tt, tt)
AllNames-words (n ∷ ns) h =
    let (w, p, l) = name-IsWord n h.0 in
    let (ws, ps, ls) = AllNames-words ns h.1 in ((w, ws), (p, ps), (l, ls))

-- A value that trimming leaves as it is.
abbrev pub IsTight : Text → Type 0
IsTight v = (c : ℕ) × (cs : Text) × (v ≡ c ∷ cs) × (is_space c ≡ false) × (trim_right v ≡ v)

abbrev pub IsKey : Text → Type 0
IsKey key = IsWord key × All (λ c. (c == 61 || c == 35) ≡ false) key

abbrev pub is_key_char : ℕ → Bool
is_key_char c = not (is_space c || c == 61 || c == 35)

abbrev pub is_key_text : Text → Bool
is_key_text [] = true
is_key_text (c ∷ cs) = is_key_char c && is_key_text cs

key_chars :
    (t : Text) → is_key_text t ≡ true → OneWord t × All (λ c. (c == 61 || c == 35) ≡ false) t
key_chars [] h = (tt, tt)
key_chars (c ∷ cs) h =
    let (word, plain) = key_chars cs (ground arith) in ((ground arith, word), (ground arith, plain))

pub is_key_text-IsKey : (k : ℕ) (ks : Text) → is_key_text (k ∷ ks) ≡ true → IsKey (k ∷ ks)
is_key_text-IsKey k ks h =
    let (word, plain) = key_chars (k ∷ ks) h in ((word, (k, ks, refl)), plain)

pub IsTight-Digits : (t : Text) → Digits t → IsTight t
IsTight-Digits t (c, cs, e, all) =
    (c, cs, e, not_space c all.0, ap trim_right e ∙ trim_right-only_digits (c ∷ cs) all ∙ sym e)

pub IsTight-quoted : (t : Text) → IsTight (34 ∷ (t ++ 34 ∷ []))
unfolding trim_right is_space
IsTight-quoted t = (34, t ++ 34 ∷ [], refl, refl, trim_right-append (34 ∷ t) (34 ∷ []) 34 [] refl)

pub trim_right-word : (w : Text) → OneWord w → trim_right w ≡ w
unfolding trim_right
trim_right-word [] h = refl
trim_right-word (c ∷ []) h = rw (h.0) refl
trim_right-word (c ∷ d ∷ ds) h = rw (trim_right-word (d ∷ ds) h.1) refl

trim_left-first : (c : ℕ) (cs : Text) → is_space c ≡ false → trim_left (c ∷ cs) ≡ c ∷ cs
unfolding trim_left
trim_left-first c cs h = rw h refl

trim_space-tight : (v : Text) → IsTight v → trim_space v ≡ v
unfolding trim_space
trim_space-tight v (c, cs, e, s, t) =
    ap (λ u. trim_right (trim_left u)) e
    ∙ ap trim_right (trim_left-first c cs s)
    ∙ ap trim_right (sym e)
    ∙ t

trim_space-word : (w : Text) → IsWord w → trim_space w ≡ w
trim_space-word w (o, (c, cs, e)) =
    trim_space-tight w (c, cs, e, (subst OneWord e o).0, trim_right-word w o)

cut-key :
    (key v : Text)
    → All (λ c. (c == 61 || c == 35) ≡ false) key
    → cut 61 (key ++ 61 ∷ v) ≡ some (key, v)
unfolding cut
cut-key [] v h = refl
cut-key (k ∷ ks) v h =
    let other : (k == 61) ≡ false = ground arith in rw other (rw (cut-key ks v h.1) refl)

trim_space-line :
    (key v : Text) → IsWord key → IsTight v → trim_space (key ++ 61 ∷ v) ≡ key ++ 61 ∷ v
unfolding trim_space
trim_space-line key v (o, (k, ks, e)) (c, cs, e', s, t) =
    ap trim_right (
      ap (λ x. trim_left (x ++ 61 ∷ v)) e
      ∙ trim_left-first k (ks ++ 61 ∷ v) (subst OneWord e o).0
      ∙ ap (λ x. x ++ 61 ∷ v) (sym e))
    ∙ trim_right-append key (61 ∷ v) 61 v
        (trim_right-append (61 ∷ []) v c cs (t ∙ e') ∙ ap (λ x. 61 ∷ x) (sym e'))

is_comment-line : (key v : Text) → IsKey key → is_comment (key ++ 61 ∷ v) ≡ false
unfolding text_eq has_prefix
is_comment-line key v ((o, (k, ks, e)), plain) =
    ap (λ x. is_comment (x ++ 61 ∷ v)) e
    ∙ other k (subst (All (λ c. (c == 61 || c == 35) ≡ false)) e plain).0
  where
    other : (k : ℕ) → (k == 61 || k == 35) ≡ false → (false || (k == 35 && true)) ≡ false
    other k h = ground arith

-- A line of the form KEY=value is parsed as the assignment of its value.
pub scan_line-assign :
    (n : ℕ) (key v : Text) (cfg : Config)
    → IsKey key
    → IsTight v
    → length (key ++ 61 ∷ v) < max_token
    → scan_line n (key ++ 61 ∷ v) cfg ≡ set_key n key (unquote v) cfg
unfolding scan_line parse_line
scan_line-assign n key v cfg (word, plain) tight short =
    let not_long : leb max_token (length (key ++ 61 ∷ v)) ≡ false = ground arith in
    rw not_long (
      rw (trim_space-line key v word tight) (
        rw (is_comment-line key v (word, plain)) (
          rw (cut-key key v plain)
            (rw (trim_space-word key word) (rw (trim_space-tight v tight) refl)))))

trim_right-first :
    (c : ℕ) (cs : Text) → is_space c ≡ false → trim_right (c ∷ cs) ≡ c ∷ trim_right cs
unfolding trim_right
trim_right-first c cs h = kept (trim_right cs)
  where
    kept : (t : Text) → keep_unless_blank c t ≡ c ∷ t
    kept [] = rw h refl
    kept (d ∷ ds) = refl

-- The key of a line that has one, whatever its value.
pub assigned_key-line : (key v : Text) → IsKey key → assigned_key (key ++ 61 ∷ v) ≡ some key
unfolding assigned_key trim_space is_space
assigned_key-line key v ((o, (k, ks, e)), plain) =
    let word : IsWord key = (o, (k, ks, e)) in
    let trimmed : trim_space (key ++ 61 ∷ v) ≡ key ++ 61 ∷ trim_right v =
      ap trim_right (
        ap (λ x. trim_left (x ++ 61 ∷ v)) e
        ∙ trim_left-first k (ks ++ 61 ∷ v) (subst OneWord e o).0
        ∙ ap (λ x. x ++ 61 ∷ v) (sym e))
      ∙ trim_right-append key (61 ∷ v) 61 (trim_right v) (trim_right-first 61 v refl) in
    rw trimmed (
      rw (is_comment-line key (trim_right v) (word, plain))
        (rw (cut-key key (trim_right v) plain) (ap some (trim_space-word key word))))
