-- ===== src/Window/Pids.antt =====
-- internal/window/window.go: the PID file that `writeState` writes is the one that `readPIDs`
-- reads.
use retrosaver.Prelude.{
  ℕ, ◌<◌, ◌≡◌, ◌∙◌, refl, sym, ap, subst, true, false, List, [], ◌∷◌, ◌++◌, append_assoc, some, map,
  arith, if◌then◌else◌, All, Text, Fits64, le64, ◌==◌,
}
use retrosaver.Chars.{trim_space, trim_left, trim_right, is_digit, split, join, itoa}
use retrosaver.Chars.Numbers.{
  Digits, itoa-Digits, trim_space-Digits, trim_left-digits, trim_right-digits, atoi-itoa,
}
use retrosaver.Chars.Trim.{trim_right-append, OneLine-digits, split-line, split-last}
use retrosaver.Window.{
  Files, pids_in, or_no_pids, read_pids, write_state, clear_state_for, cleared_if_first,
  clear_state,
}

-- A process that a module runs in.
abbrev pub Plausible : ℕ → Type 0
Plausible pid = Fits64 pid × (1 < pid)

join-line :
    (l k : Text) (ls : List Text) → join (10 ∷ []) (l ∷ k ∷ ls) ≡ l ++ 10 ∷ join (10 ∷ []) (k ∷ ls)
unfolding join
join-line l k ls = append_assoc l (10 ∷ []) (join (10 ∷ []) (k ∷ ls))

-- Lines of digits, joined, begin with a digit.
join-first :
    (l : Text) (ls : List Text)
    → Digits l
    → (c : ℕ) × (cs : Text) × (join (10 ∷ []) (l ∷ ls) ≡ c ∷ cs) × (is_digit c ≡ true)
unfolding join
join-first l [] (c, cs, eq, all) = (c, cs, eq, all.0)
join-first l (k ∷ ls) (c, cs, eq, all) =
    (c, cs ++ (10 ∷ []) ++ join (10 ∷ []) (k ∷ ls), rw eq refl, all.0)

trim_right-join :
    (l : Text) (ls : List Text)
    → Digits l
    → All Digits ls
    → trim_right (join (10 ∷ []) (l ∷ ls) ++ 10 ∷ []) ≡ join (10 ∷ []) (l ∷ ls)
unfolding join
trim_right-join l [] (c, cs, eq, all) h = rw eq (trim_right-digits (c ∷ cs) all)
trim_right-join l (k ∷ ls) d h =
    let body = join (10 ∷ []) (k ∷ ls) in
    let (c, cs, eq, _) = join-first k ls h.0 in
    let kept =
      trim_right-append (10 ∷ []) (body ++ 10 ∷ []) c cs (trim_right-join k ls h.0 h.1 ∙ eq) in
    ap (λ b. trim_right (b ++ 10 ∷ [])) (join-line l k ls)
    ∙ ap trim_right (append_assoc l (10 ∷ body) (10 ∷ []))
    ∙ trim_right-append l (10 ∷ body ++ 10 ∷ []) 10 (c ∷ cs) kept
    ∙ ap (λ b. l ++ 10 ∷ b) (sym eq)
    ∙ sym (join-line l k ls)

split-join :
    (l : Text) (ls : List Text)
    → Digits l
    → All Digits ls
    → split 10 (join (10 ∷ []) (l ∷ ls)) ≡ l ∷ ls
unfolding join split
split-join l [] (c, cs, eq, all) h =
    split-last l (OneLine-digits l (subst (All (λ d. is_digit d ≡ true)) (sym eq) all))
split-join l (k ∷ ls) (c, cs, eq, all) h =
    ap (split 10) (join-line l k ls)
    ∙ split-line l (join (10 ∷ []) (k ∷ ls))
        (OneLine-digits l (subst (All (λ d. is_digit d ≡ true)) (sym eq) all))
    ∙ ap (λ ks. l ∷ ks) (split-join k ls h.0 h.1)

pids_in-itoa : (pids : List ℕ) → All Plausible pids → pids_in (map itoa pids) ≡ some pids
unfolding pids_in
pids_in-itoa [] h = refl
pids_in-itoa (p ∷ ps) h =
    let fits = h.0.0 in
    let above : le64 p 1 ≡ false = above_one p h.0 in
    rw (trim_space-Digits (itoa p) (itoa-Digits p fits))
      (rw (atoi-itoa p fits) (rw (pids_in-itoa ps h.1) (rw above refl)))
  where
    above_one : (p : ℕ) → Plausible p → le64 p 1 ≡ false
    above_one p h = ground arith

itoa-lines : (pids : List ℕ) → All Plausible pids → All Digits (map itoa pids)
itoa-lines [] h = tt
itoa-lines (p ∷ ps) h = (itoa-Digits p h.0.0, itoa-lines ps h.1)

-- `readPIDs` reads the PIDs that `writeState` has written, in their order, when there is at least
-- one and each is an int64 above 1.
pub read_pids-write_state :
    (p : ℕ) (ps : List ℕ) (names : List Text) (unclutter : ℕ) (files : Files)
    → All Plausible (p ∷ ps)
    → read_pids (write_state (p ∷ ps) names unclutter files).pids ≡ p ∷ ps
unfolding read_pids write_state trim_space
read_pids-write_state p ps names unclutter files h =
    let lines = itoa-lines ps h.1 in
    let first = itoa-Digits p h.0.0 in
    let (c, cs, eq, digit) = join-first (itoa p) (map itoa ps) first in
    let begun : trim_left (join (10 ∷ []) (itoa p ∷ map itoa ps) ++ 10 ∷ [])
        ≡ join (10 ∷ []) (itoa p ∷ map itoa ps) ++ 10 ∷ [] =
      ap (λ j. trim_left (j ++ 10 ∷ [])) eq
      ∙ trim_left-digits c (cs ++ 10 ∷ []) digit
      ∙ ap (λ j. j ++ 10 ∷ []) (sym eq) in
    ap (λ s. or_no_pids (pids_in (split 10 (trim_right s)))) begun
    ∙ ap (λ s. or_no_pids (pids_in (split 10 s)))
        (trim_right-join (itoa p) (map itoa ps) first lines)
    ∙ ap (λ ls. or_no_pids (pids_in ls)) (split-join (itoa p) (map itoa ps) first lines)
    ∙ ap or_no_pids (pids_in-itoa (p ∷ ps) h)

-- After the PIDs of one saver's modules (int64s above 1) are written, `clearStateFor` removes the
-- runtime files when it is given the first of them, and leaves the files as they are for every
-- other PID.
pub clear_state_for-write_state :
    (pid p : ℕ) (ps : List ℕ) (names : List Text) (unclutter : ℕ) (files : Files)
    → All Plausible (p ∷ ps)
    → clear_state_for pid (write_state (p ∷ ps) names unclutter files)
      ≡ (if p == pid then clear_state files else write_state (p ∷ ps) names unclutter files)
unfolding clear_state_for
clear_state_for-write_state pid p ps names unclutter files h =
    ap (λ pids. cleared_if_first pid pids (write_state (p ∷ ps) names unclutter files))
      (read_pids-write_state p ps names unclutter files h)
