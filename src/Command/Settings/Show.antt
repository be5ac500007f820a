-- ===== src/Command/Settings/Show.antt =====
-- cmd/retrosaver/configcmd.go: what `config show` prints is a config file of the settings that it
-- shows.
use retrosaver.Prelude.{
  ℕ, suc, ◌/◌, ◌<◌, ◌≡◌, ◌∙◌, refl, sym, ap, subst, Bool, true, false, List, [], ◌∷◌, ◌++◌, none,
  arith, leb, ◌==◌, All, length, length-append, Text, codes, text_eq,
}
use retrosaver.Config.{Config, MonitorMode, Duration, second, defaults, same, different}
use retrosaver.Chars.{
  is_space, trim_right, trim_space, fields, join, split, itoa, quote, trim_left, keep_unless_blank,
  has_prefix, quote_inner, quoted,
}
use retrosaver.Chars.Numbers.{itoa-Digits, length-to_digits}
use retrosaver.Chars.Trim.{
  OneLine, quote_inner-IsPlain, join-All, fields-join, split-line, OneLine-digits, is_one_line,
  is_one_line-OneLine, All-append,
}
use retrosaver.Config.Parse.{
  is_comment, parsed, holds, max_token, unquote, set_key, scan_line, parse_line, parse_lines, parse,
  load, or_defaults, seconds, and_then, with_seconds,
}
use retrosaver.Config.Write.{mode_text}
use retrosaver.Config.Lines.{
  IsWhole, AllNames, AllNames-words, IsKey, IsTight-Digits, IsTight-quoted, seconds-itoa,
  unquote-quoted, unquote-word, is_key_text-IsKey, scan_line-assign,
}
use retrosaver.Command.Settings.{shown, shown_lines, print_lines}

-- Settings that can be printed: delays of whole seconds, and module names on the lists.
pub record IsPrintable (c : Config) : Type 0 where
  pub saver : IsWhole c.saver_delay
  pub cycle : IsWhole c.cycle_after
  pub lock : IsWhole c.lock_after
  pub blank : IsWhole c.blank_after
  pub excluded : AllNames c.exclude
  pub included : AllNames c.include

-- A line of digits is read as the number of seconds that it shows.
seconds_value : (d : Duration) → IsWhole d → seconds (unquote (itoa (d / second))) ≡ parsed d
seconds_value d (k, small, e) =
    let quotient : d / second ≡ k = omega arith in
    let (c, cs, eq, all) = itoa-Digits k (omega arith) in
    ap (λ q. seconds (unquote (itoa q))) quotient
    ∙ ap (λ t. seconds (unquote t)) eq
    ∙ ap seconds (unquote-word c cs (ground arith))
    ∙ ap seconds (sym eq)
    ∙ seconds-itoa k small
    ∙ ap parsed (sym e)

seconds-line :
    (n : ℕ) (key : Text) (d : Duration) (cfg : Config)
    → IsKey key
    → IsWhole d
    → length key < 100
    → scan_line n (key ++ 61 ∷ itoa (d / second)) cfg
      ≡ set_key n key (unquote (itoa (d / second))) cfg
seconds-line n key d cfg k (q, small, e) short =
    scan_line-assign n key (itoa (d / second)) cfg k
      (IsTight-Digits (itoa (d / second)) (itoa-Digits (d / second) (omega arith)))
      (omega
        (arith, length-append key (61 ∷ itoa (d / second)), length-to_digits 19 (d / second) []))

-- The quoted list of names is read as the list.
names_value : (ns : List Text) → AllNames ns → fields (unquote (quote (join (32 ∷ []) ns))) ≡ ns
names_value ns h =
    let (words, plain, _) = AllNames-words ns h in
    let text = join (32 ∷ []) ns in
    ap (λ t. fields (unquote (34 ∷ (t ++ 34 ∷ []))))
      (quote_inner-IsPlain text (join-All (λ c. quoted c ≡ c ∷ []) (32 ∷ []) ns (refl, tt) plain))
    ∙ ap fields (unquote-quoted text)
    ∙ fields-join ns words

-- The comment with the path sets nothing.
comment_first : (x : Text) → is_comment (keep_unless_blank 35 x) ≡ true
unfolding text_eq has_prefix is_space
comment_first [] = refl
comment_first (c ∷ cs) = refl

comment-line :
    (n : ℕ) (path : Text) (cfg : Config)
    → length path < 65_000
    → scan_line n (codes "# " ++ path) cfg ≡ parsed cfg
unfolding scan_line parse_line trim_space trim_left trim_right is_space
comment-line n path cfg short =
    let not_long : leb max_token (length (codes "# " ++ path)) ≡ false = ground arith in
    rw not_long (rw (comment_first (keep_unless_blank 32 (trim_right path))) refl)

split-print_lines :
    (ls : List Text) → All (λ l. OneLine l) ls → split 10 (print_lines ls) ≡ ls ++ [] ∷ []
unfolding print_lines split
split-print_lines [] h = refl
split-print_lines (l ∷ ls) h =
    split-line l (print_lines ls) h.0 ∙ ap (λ k. l ∷ k) (split-print_lines ls h.1)

parse_lines-step :
    (n : ℕ) (raw : Text) (raws : List Text) (c c' : Config)
    → scan_line n raw c ≡ parsed c'
    → parse_lines n (raw ∷ raws) c ≡ parse_lines (suc n) raws c'
unfolding parse_lines
parse_lines-step n raw raws c c' e = ap (λ o. and_then o (λ d. parse_lines (suc n) raws d)) e

-- The assignment of each key.
module _ (n : ℕ) (c : Config) where
  delay-saver :
      (d : Duration)
      → IsWhole d
      → scan_line n (codes "SAVER_DELAY=" ++ itoa (d / second)) c
        ≡ parsed (record c { saver_delay = d })
  unfolding set_key text_eq is_space
  delay-saver d w =
      seconds-line n (codes "SAVER_DELAY") d c (is_key_text-IsKey 83 (codes "AVER_DELAY") refl) w
        (omega arith)
      ∙ ap (with_seconds n (codes "SAVER_DELAY") (λ t. record c { saver_delay = t }))
          (seconds_value d w)

  delay-cycle :
      (d : Duration)
      → IsWhole d
      → scan_line n (codes "CYCLE_AFTER=" ++ itoa (d / second)) c
        ≡ parsed (record c { cycle_after = d })
  unfolding set_key text_eq is_space
  delay-cycle d w =
      seconds-line n (codes "CYCLE_AFTER") d c (is_key_text-IsKey 67 (codes "YCLE_AFTER") refl) w
        (omega arith)
      ∙ ap (with_seconds n (codes "CYCLE_AFTER") (λ t. record c { cycle_after = t }))
          (seconds_value d w)

  delay-lock :
      (d : Duration)
      → IsWhole d
      → scan_line n (codes "LOCK_AFTER=" ++ itoa (d / second)) c
        ≡ parsed (record c { lock_after = d })
  unfolding set_key text_eq is_space
  delay-lock d w =
      seconds-line n (codes "LOCK_AFTER") d c (is_key_text-IsKey 76 (codes "OCK_AFTER") refl) w
        (omega arith)
      ∙ ap (with_seconds n (codes "LOCK_AFTER") (λ t. record c { lock_after = t }))
          (seconds_value d w)

  delay-blank :
      (d : Duration)
      → IsWhole d
      → scan_line n (codes "BLANK_AFTER=" ++ itoa (d / second)) c
        ≡ parsed (record c { blank_after = d })
  unfolding set_key text_eq is_space
  delay-blank d w =
      seconds-line n (codes "BLANK_AFTER") d c (is_key_text-IsKey 66 (codes "LANK_AFTER") refl) w
        (omega arith)
      ∙ ap (with_seconds n (codes "BLANK_AFTER") (λ t. record c { blank_after = t }))
          (seconds_value d w)

  mode_line :
      (m : MonitorMode)
      → scan_line n (codes "MONITORS=" ++ mode_text m) c ≡ parsed (record c { monitors = m })
  unfolding set_key text_eq is_space unquote trim_right
  mode_line same =
      scan_line-assign n (codes "MONITORS") (codes "same") c
        (is_key_text-IsKey 77 (codes "ONITORS") refl) (115, codes "ame", refl, refl, refl)
        (omega arith)
  mode_line different =
      scan_line-assign n (codes "MONITORS") (codes "different") c
        (is_key_text-IsKey 77 (codes "ONITORS") refl) (100, codes "ifferent", refl, refl, refl)
        (omega arith)

  names-exclude :
      (ns : List Text)
      → AllNames ns
      → length (codes "EXCLUDE=" ++ quote (join (32 ∷ []) ns)) < max_token
      → scan_line n (codes "EXCLUDE=" ++ quote (join (32 ∷ []) ns)) c
        ≡ parsed (record c { exclude = ns })
  unfolding set_key text_eq is_space
  names-exclude ns h short =
      scan_line-assign n (codes "EXCLUDE") (quote (join (32 ∷ []) ns)) c
        (is_key_text-IsKey 69 (codes "XCLUDE") refl)
        (IsTight-quoted (quote_inner (join (32 ∷ []) ns))) short
      ∙ ap (λ t. parsed (record c { exclude = t })) (names_value ns h)

  names-include :
      (ns : List Text)
      → AllNames ns
      → length (codes "INCLUDE=" ++ quote (join (32 ∷ []) ns)) < max_token
      → scan_line n (codes "INCLUDE=" ++ quote (join (32 ∷ []) ns)) c
        ≡ parsed (record c { include = ns })
  unfolding set_key text_eq is_space
  names-include ns h short =
      scan_line-assign n (codes "INCLUDE") (quote (join (32 ∷ []) ns)) c
        (is_key_text-IsKey 73 (codes "NCLUDE") refl)
        (IsTight-quoted (quote_inner (join (32 ∷ []) ns))) short
      ∙ ap (λ t. parsed (record c { include = t })) (names_value ns h)

-- The lines that the names and the path make are shorter than the scanner's buffer.
abbrev pub FitsScanner : Text → Config → Type 0
FitsScanner path c =
    (length path < 65_000)
    × (length (codes "EXCLUDE=" ++ quote (join (32 ∷ []) c.exclude)) < max_token)
    × (length (codes "INCLUDE=" ++ quote (join (32 ∷ []) c.include)) < max_token)

last_line : (n : ℕ) (c : Config) → parse_lines n ([] ∷ []) c ≡ parsed c
unfolding parse_lines scan_line parse_line trim_space trim_left trim_right text_eq has_prefix
last_line n c = refl

parse_lines-shown :
    (path : Text) (exists : Bool) (c : Config)
    → IsPrintable c
    → FitsScanner path c
    → parse_lines 1 (shown_lines (shown path exists c) ++ [] ∷ []) defaults ≡ parsed c
parse_lines-shown path exists c p (short, short_x, short_i) =
    let c1 = record defaults { saver_delay = c.saver_delay } in
    let c2 = record c1 { cycle_after = c.cycle_after } in
    let c3 = record c2 { monitors = c.monitors } in
    let c4 = record c3 { lock_after = c.lock_after } in
    let c5 = record c4 { blank_after = c.blank_after } in
    let c6 = record c5 { exclude = c.exclude } in
    parse_lines-step 1 _ _ defaults defaults (comment-line 1 path defaults short)
    ∙ parse_lines-step 2 _ _ defaults c1 (delay-saver 2 defaults c.saver_delay p.saver)
    ∙ parse_lines-step 3 _ _ c1 c2 (delay-cycle 3 c1 c.cycle_after p.cycle)
    ∙ parse_lines-step 4 _ _ c2 c3 (mode_line 4 c2 c.monitors)
    ∙ parse_lines-step 5 _ _ c3 c4 (delay-lock 5 c3 c.lock_after p.lock)
    ∙ parse_lines-step 6 _ _ c4 c5 (delay-blank 6 c4 c.blank_after p.blank)
    ∙ parse_lines-step 7 _ _ c5 c6 (names-exclude 7 c5 c.exclude p.excluded short_x)
    ∙ parse_lines-step 8 _ _ c6 c (names-include 8 c6 c.include p.included short_i)
    ∙ last_line 9 c

itoa-OneLine : (d : Duration) → IsWhole d → OneLine (itoa (d / second))
itoa-OneLine d (k, small, e) =
    let (c, cs, eq, all) = itoa-Digits (d / second) (omega arith) in
    subst OneLine (sym eq) (OneLine-digits (c ∷ cs) all)

quote-OneLine : (ns : List Text) → AllNames ns → OneLine (quote (join (32 ∷ []) ns))
quote-OneLine ns h =
    let (_, plain, lines) = AllNames-words ns h in
    let text = join (32 ∷ []) ns in
    (
      refl,
      All-append (λ c. (c == 10) ≡ false) (quote_inner text) (34 ∷ [])
          (subst OneLine
            (sym (
              quote_inner-IsPlain text
                (join-All (λ c. quoted c ≡ c ∷ []) (32 ∷ []) ns (refl, tt) plain)))
            (join-All (λ c. (c == 10) ≡ false) (32 ∷ []) ns (refl, tt) lines))
          (refl, tt),
    )

mode_text-OneLine : (m : MonitorMode) → OneLine (mode_text m)
mode_text-OneLine same = is_one_line-OneLine (codes "same") refl
mode_text-OneLine different = is_one_line-OneLine (codes "different") refl

after : (key v : Text) → is_one_line key ≡ true → OneLine v → OneLine (key ++ v)
after key v k = All-append (λ c. (c == 10) ≡ false) key v (is_one_line-OneLine key k)

shown_lines-OneLine :
    (path : Text) (exists : Bool) (c : Config)
    → IsPrintable c
    → OneLine path
    → All (λ l. OneLine l) (shown_lines (shown path exists c))
shown_lines-OneLine path exists c p l = (
  after (codes "# ") path refl l,
  (
    after (codes "SAVER_DELAY=") (itoa (c.saver_delay / second)) refl
        (itoa-OneLine c.saver_delay p.saver),
    (
      after (codes "CYCLE_AFTER=") (itoa (c.cycle_after / second)) refl
          (itoa-OneLine c.cycle_after p.cycle),
      (
        after (codes "MONITORS=") (mode_text c.monitors) refl (mode_text-OneLine c.monitors),
        (
          after (codes "LOCK_AFTER=") (itoa (c.lock_after / second)) refl
              (itoa-OneLine c.lock_after p.lock),
          (
            after (codes "BLANK_AFTER=") (itoa (c.blank_after / second)) refl
                (itoa-OneLine c.blank_after p.blank),
            (
              after (codes "EXCLUDE=") (quote (join (32 ∷ []) c.exclude)) refl
                  (quote-OneLine c.exclude p.excluded),
              (
                after (codes "INCLUDE=") (quote (join (32 ∷ []) c.include)) refl
                    (quote-OneLine c.include p.included),
                tt,
              ),
            ),
          ),
        ),
      ),
    ),
  ),
)

-- `config show` prints a config file: the lines that it prints for settings with delays of whole
-- seconds and with module names on the lists load as the same settings, whatever the path that the
-- first line names, as long as the path is on one line and each line is shorter than the scanner's
-- buffer.
pub load-show :
    (path : Text) (exists : Bool) (c : Config)
    → IsPrintable c
    → FitsScanner path c
    → OneLine path
    → load (holds (print_lines (shown_lines (shown path exists c)))) ≡ (c, none)
unfolding load parse
load-show path exists c p fits l =
    ap (λ ls. or_defaults (parse_lines 1 ls defaults))
      (split-print_lines (shown_lines (shown path exists c))
        (shown_lines-OneLine path exists c p l))
    ∙ ap or_defaults (parse_lines-shown path exists c p fits)
