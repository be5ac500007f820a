-- ===== src/Watch/Events.antt =====
-- internal/watch/watch.go: `mentions` on the bytes of whole inotify events.
use retrosaver.Prelude.{
  ℕ, zero, suc, ◌+◌, ◌/◌, ◌%◌, ◌<◌, ◌≤◌, ◌≡◌, ◌≢◌, refl, sym, ap, ◌∙◌, Bool, true, false, not, ◌&&◌,
  ◌||◌, List, [], ◌∷◌, ◌++◌, arith, ltb, ◌==◌, if◌then◌else◌, length, length-append, All, Text,
  text_eq,
}
use retrosaver.Watch.{
  trim_nul, take, drop_bytes, header, number, name_length, mentions_from, mentions,
}

-- `struct inotify_event` and the NUL bytes that pad its name.
pub record Inotify : Type 0 where
  pub wd : ℕ
  pub mask : ℕ
  pub cookie : ℕ
  pub name : Text
  pub padding : ℕ

-- A 32-bit number in little-endian order, before other bytes.
abbrev pub word32 : ℕ → Text → Text
word32 n rest = n % 256 ∷ n / 256 % 256 ∷ n / 65_536 % 256 ∷ n / 16_777_216 % 256 ∷ rest

pub nuls : ℕ → Text
nuls zero = []
nuls (suc n) = 0 ∷ nuls n

abbrev pub payload : Inotify → Text
payload e = e.name ++ nuls e.padding

-- The bytes of an event, before those of what comes after it.
abbrev pub event_bytes : Inotify → Text → Text
event_bytes e rest =
    word32 e.wd
      (word32 e.mask (word32 e.cookie (word32 (length e.name + e.padding) (payload e ++ rest))))

-- The bytes of events, and bytes that come after the last.
abbrev pub buffer : List Inotify → Text → Text
buffer [] rest = rest
buffer (e ∷ es) rest = event_bytes e (buffer es rest)

abbrev pub has_no_nul : Text → Bool
has_no_nul [] = true
has_no_nul (c ∷ cs) = not (c == 0) && has_no_nul cs

-- The kernel's events: the length of the name's bytes is 32 bits wide, and the name has no NUL.
abbrev pub IsInotify : Inotify → Type 0
IsInotify e = (length e.name + e.padding < 4_294_967_296) × (has_no_nul e.name ≡ true)

abbrev pub any_named : Text → List Inotify → Bool
any_named name [] = false
any_named name (e ∷ es) = text_eq e.name name || any_named name es

drop_bytes-nil : (n : ℕ) → drop_bytes n [] ≡ []
unfolding drop_bytes
drop_bytes-nil zero = refl
drop_bytes-nil (suc n) = refl

drop_bytes_add : (m n : ℕ) (s : Text) → drop_bytes (m + n) s ≡ drop_bytes n (drop_bytes m s)
unfolding drop_bytes
drop_bytes_add zero n s = let same : 0 + n ≡ n = omega arith in ap (λ k. drop_bytes k s) same
drop_bytes_add (suc m) n [] =
    let more : suc m + n ≡ suc (m + n) = omega arith in
    ap (λ k. drop_bytes k []) more ∙ sym (drop_bytes-nil n)
drop_bytes_add (suc m) n (c ∷ cs) =
    let more : suc m + n ≡ suc (m + n) = omega arith in
    ap (λ k. drop_bytes k (c ∷ cs)) more ∙ drop_bytes_add m n cs

drop_bytes-append : (xs ys : Text) → drop_bytes (length xs) (xs ++ ys) ≡ ys
unfolding drop_bytes
drop_bytes-append [] ys = refl
drop_bytes-append (x ∷ xs) ys = drop_bytes-append xs ys

take-append : (xs ys : Text) → take (length xs) (xs ++ ys) ≡ xs
unfolding take
take-append [] ys = refl
take-append (x ∷ xs) ys = ap (λ zs. x ∷ zs) (take-append xs ys)

trim_nul-nuls : (n : ℕ) → trim_nul (nuls n) ≡ []
unfolding trim_nul nuls
trim_nul-nuls zero = refl
trim_nul-nuls (suc n) = refl

trim_nul-payload : (xs : Text) (n : ℕ) → has_no_nul xs ≡ true → trim_nul (xs ++ nuls n) ≡ xs
unfolding trim_nul
trim_nul-payload [] n h = trim_nul-nuls n
trim_nul-payload (x ∷ xs) n h =
    let other : (x == 0) ≡ false = ground arith in
    rw other (ap (λ zs. x ∷ zs) (trim_nul-payload xs n (ground arith)))

length-nuls : (n : ℕ) → length (nuls n) ≡ n
unfolding nuls
length-nuls zero = refl
length-nuls (suc n) = ap suc (length-nuls n)

length-payload : (e : Inotify) → length (payload e) ≡ length e.name + e.padding
length-payload e =
    length-append e.name (nuls e.padding) ∙ ap (λ n. length e.name + n) (length-nuls e.padding)

number-word32 : (n : ℕ) (rest : Text) → n < 4_294_967_296 → number (word32 n rest) ≡ n
number-word32 n rest h = omega arith

name_length-event :
    (e : Inotify) (rest : Text)
    → IsInotify e
    → name_length (event_bytes e rest) ≡ length e.name + e.padding
unfolding drop_bytes
name_length-event e rest h = number-word32 (length e.name + e.padding) (payload e ++ rest) h.0

body : (e : Inotify) (rest : Text) → drop_bytes header (event_bytes e rest) ≡ payload e ++ rest
unfolding drop_bytes
body e rest = refl

after_event :
    (e : Inotify) (rest : Text)
    → drop_bytes (header + (length e.name + e.padding)) (event_bytes e rest) ≡ rest
after_event e rest =
    drop_bytes_add header (length e.name + e.padding) (event_bytes e rest)
    ∙ ap (drop_bytes (length e.name + e.padding)) (body e rest)
    ∙ ap (λ n. drop_bytes n (payload e ++ rest)) (sym (length-payload e))
    ∙ drop_bytes-append (payload e) rest

name_of :
    (e : Inotify) (rest : Text)
    → IsInotify e
    → trim_nul (take (length e.name + e.padding) (drop_bytes header (event_bytes e rest))) ≡ e.name
name_of e rest h =
    ap (λ s. trim_nul (take (length e.name + e.padding) s)) (body e rest)
    ∙ ap (λ n. trim_nul (take n (payload e ++ rest))) (sym (length-payload e))
    ∙ ap trim_nul (take-append (payload e) rest)
    ∙ trim_nul-payload e.name e.padding h.1

length-event :
    (e : Inotify) (rest : Text)
    → length (event_bytes e rest) ≡ header + (length e.name + e.padding) + length rest
length-event e rest = omega (arith, length-append (payload e) rest, length-payload e)

-- The empty name of an event without one is not the name that is looked for.
no_name :
    (t : Text) (padding : ℕ) (name : Text)
    → name ≢ []
    → (ltb 0 (length t + padding) && text_eq t name) ≡ text_eq t name
unfolding text_eq
no_name [] padding [] n = absurd (n refl)
no_name [] padding (c ∷ cs) n = ground arith
no_name (x ∷ xs) padding name n =
    let some_bytes : ltb 0 (length (x ∷ xs) + padding) ≡ true = ground arith in rw some_bytes refl

-- A round of the loop, of a buffer and a name of these lengths.
abbrev round : ℕ → ℕ → Text → Text → Bool → Bool
round l len found name rest =
    if ltb l header
    then false
    else if ltb l (header + len)
    then false
    else (ltb 0 len && text_eq found name) || rest

round-whole :
    (l len m : ℕ) (found name : Text) (rest : Bool)
    → l ≡ header + len + m
    → round l len found name rest ≡ ((ltb 0 len && text_eq found name) || rest)
round-whole l len m found name rest e =
    let no_short : ltb l header ≡ false = ground arith in
    let no_cut : ltb l (header + len) ≡ false = ground arith in rw no_short (rw no_cut refl)

-- The loop at a whole event.
mentions_from-event :
    (fuel : ℕ) (e : Inotify) (rest name : Text)
    → IsInotify e
    → name ≢ []
    → mentions_from (suc fuel) (event_bytes e rest) name
      ≡ (text_eq e.name name || mentions_from fuel rest name)
unfolding mentions_from
mentions_from-event fuel e rest name h n =
    let b = event_bytes e rest in
    let len = length e.name + e.padding in
    ap
      (λ k.
        round (length b) k (trim_nul (take k (drop_bytes header b))) name
          (mentions_from fuel (drop_bytes (header + k) b) name))
      (name_length-event e rest h)
    ∙ ap (λ t. round (length b) len t name (mentions_from fuel (drop_bytes (header + len) b) name))
        (name_of e rest h)
    ∙ ap (λ t. round (length b) len e.name name (mentions_from fuel t name)) (after_event e rest)
    ∙ round-whole (length b) len (length rest) e.name name (mentions_from fuel rest name)
        (length-event e rest)
    ∙ ap (λ x. x || mentions_from fuel rest name) (no_name e.name e.padding name n)

mentions_from-tail :
    (fuel : ℕ) (rest name : Text) → length rest < header → mentions_from fuel rest name ≡ false
unfolding mentions_from
mentions_from-tail zero rest name h = refl
mentions_from-tail (suc fuel) rest name h =
    let short : ltb (length rest) header ≡ true = ground arith in rw short refl

mentions_from-buffer :
    (fuel : ℕ) (es : List Inotify) (rest name : Text)
    → All IsInotify es
    → length rest < header
    → name ≢ []
    → length (buffer es rest) ≤ fuel
    → mentions_from fuel (buffer es rest) name ≡ any_named name es
mentions_from-buffer fuel [] rest name h short n enough = mentions_from-tail fuel rest name short
mentions_from-buffer zero (e ∷ es) rest name h short n enough = absurd (omega arith)
mentions_from-buffer (suc fuel) (e ∷ es) rest name h short n enough =
    mentions_from-event fuel e (buffer es rest) name h.0 n
    ∙ ap (λ x. text_eq e.name name || x)
        (mentions_from-buffer fuel es rest name h.1 short n
          (omega (arith, length-event e (buffer es rest))))

-- `mentions` finds a name in a buffer of whole inotify events, with fewer bytes than a header after
-- the last, just when one of the events has that name, wherever it stands and however it is padded;
-- the name is not empty.
pub mentions-buffer :
    (es : List Inotify) (rest name : Text)
    → All IsInotify es
    → length rest < header
    → name ≢ []
    → mentions (buffer es rest) name ≡ any_named name es
unfolding mentions
mentions-buffer es rest name h short n =
    mentions_from-buffer (length (buffer es rest)) es rest name h short n (omega arith)
