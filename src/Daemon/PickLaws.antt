-- ===== src/Daemon/PickLaws.antt =====
-- `pick` and `pickSet` of internal/daemon/daemon.go, over a launcher that keeps to its selection.
use retrosaver.Prelude.{
  ℕ, zero, suc, ◌+◌, ◌≤◌, ◌<◌, ◌≡◌, ◌≢◌, ◌⊎◌, inl, inr, refl, sym, ap, subst, true, List, [], ◌∷◌,
  ◌++◌, Option, none, some, arith, Bool-cases, if◌then◌else◌, if-both, ◌&&◌, length, length-append,
  Member, Text, text_eq, text_eq_iff, contains, contains→Member, Member→contains, Distinct,
}
use retrosaver.Daemon.{World, Machine, Call}
use retrosaver.Daemon.Pick.{
  Draw, is_nil, after, ask, or_else, or_else_from, pick_next, repeat_one, start_over, pick,
  pick_more, pick_set,
}

-- The launcher's Pick returns a module of the selection that the avoid list does not name, and
-- fails only if that list names the whole selection.
pub record IsLawful (w : World) (include exclude pool : List Text) : Type 0 where
  pub hit :
      (h : List Call) (avoid : List Text) (x : Text)
      → w.pick h include exclude avoid ≡ some x
      → Member x pool × (¬ Member x avoid)
  pub miss :
      (h : List Call) (avoid : List Text)
      → w.pick h include exclude avoid ≡ none
      → (x : Text) → Member x pool
      → Member x avoid

pub Member-append_left : (x : Text) (xs ys : List Text) → Member x xs → Member x (xs ++ ys)
Member-append_left x [] ys m = elim m [ ]
Member-append_left x (y ∷ xs) ys m = ground (arith, Member-append_left x xs ys)

pub Member-append_right : (x : Text) (xs ys : List Text) → Member x ys → Member x (xs ++ ys)
Member-append_right x [] ys m = m
Member-append_right x (y ∷ xs) ys m = inr (Member-append_right x xs ys m)

pub Member-append : (x : Text) (xs ys : List Text) → Member x (xs ++ ys) → Member x xs ⊎ Member x ys
Member-append x [] ys m = inr m
Member-append x (y ∷ xs) ys m = ground (arith, Member-append x xs ys)

Distinct-concat :
    (xs : List Text) (x : Text) → Distinct xs → ¬ Member x xs → Distinct (xs ++ x ∷ [])
Distinct-concat [] x d n = (λ m. m, tt)
Distinct-concat (y ∷ xs) x d n =
    (λ m. ground (arith, Member-append y xs (x ∷ []) m), Distinct-concat xs x d.1 (λ m. n (inr m)))

-- The list without one occurrence of a name.
remove : Text → List Text → List Text
remove x [] = []
remove x (y ∷ ys) = let rest = remove x ys in if text_eq x y then ys else y ∷ rest

length-remove : (x : Text) (ys : List Text) → Member x ys → length (remove x ys) + 1 ≡ length ys
unfolding remove
length-remove x [] m = elim m [ ]
length-remove x (y ∷ ys) m = elim (Bool-cases (text_eq x y)) [
  | inl e ↦ rw e (omega arith)
  | inr e ↦
      let later : Member x ys = ground (arith, text_eq_iff x y) in
      rw e (omega (arith, length-remove x ys later))
]

Member-remove : (x z : Text) (ys : List Text) → z ≢ x → Member z ys → Member z (remove x ys)
unfolding remove
Member-remove x z [] n m = m
Member-remove x z (y ∷ ys) n m = elim (Bool-cases (text_eq x y)) [
  | inl e ↦ rw e (ground (arith, text_eq_iff x y))
  | inr e ↦ rw e (ground (arith, Member-remove x z ys n))
]

-- Fewer names than the pool has leave one of the pool out.
left_out :
    (pool names : List Text)
    → Distinct pool
    → length names < length pool
    → (x : Text) × Member x pool × (¬ Member x names)
left_out [] names d h = absurd (omega arith)
left_out (p ∷ pool) names d h = elim (Bool-cases (contains names p)) [
  | inr e ↦ (p, inl refl, λ m. ground (arith, Member→contains names p m))
  | inl e ↦
      let m = contains→Member names p e in
      let (x, in_pool, out) =
        left_out pool (remove p names) d.1 (omega (arith, length-remove p names m)) in
      (
        x,
        inr in_pool,
        λ k.
            out (Member-remove p x names (λ same. d.0 (subst (λ z. Member z pool) same in_pool)) k),
      )
]

module _ (w : World) (pool : List Text) where
  abbrev pub LawfulAt : Machine → Type 0
  LawfulAt m = IsLawful w m.include m.exclude pool

  -- The module that a draw gives, in the pool and not to be avoided.
  abbrev pub Drawn : List Text → Draw Text → Type 0
  Drawn also d = (x : Text) × (d.result ≡ some x) × Member x pool × (¬ Member x also)

  or_else-Drawn :
      (also avoid : List Text) (o : Option Text) (m : Machine) (next : Machine → Draw Text)
      → LawfulAt m
      → (ask w m avoid).result ≡ o
      → ((x : Text) → Member x also → Member x avoid)
      → (((x : Text) → Member x pool → Member x avoid)
          → Drawn also (next (after m (ask w m avoid))))
      → Drawn also (or_else_from w o m (ask w m avoid) next)
  or_else-Drawn also avoid none m next law e sub k = k (law.miss m.history avoid e)
  or_else-Drawn also avoid (some x) m next law e sub k =
      let (found, out) = law.hit m.history avoid x e in (x, e, found, λ a. out (sub x a))

  ask-Drawn :
      (also avoid : List Text) (o : Option Text) (m : Machine) (y : Text)
      → LawfulAt m
      → (ask w m avoid).result ≡ o
      → ((x : Text) → Member x also → Member x avoid)
      → Member y pool
      → ¬ Member y avoid
      → Drawn also (ask w m avoid)
  ask-Drawn also avoid none m y law e sub p n = absurd (n (law.miss m.history avoid e y p))
  ask-Drawn also avoid (some x) m y law e sub p n =
      let (found, out) = law.hit m.history avoid x e in (x, e, found, λ a. out (sub x a))

  repeat_one-Drawn :
      (also : List Text) (m : Machine) (y : Text)
      → LawfulAt m
      → Member y pool
      → ¬ Member y also
      → Drawn also (repeat_one w also m)
  repeat_one-Drawn [] m y law p n = ask-Drawn [] [] (ask w m []).result m y law refl (λ x k. k) p n
  repeat_one-Drawn (a ∷ also) m y law p n =
      or_else-Drawn (a ∷ also) (a ∷ also) (ask w m (a ∷ also)).result m (λ m'. ask w m' []) law refl
        (λ x k. k) (λ all. absurd (n (all y p)))

  -- While the selection has a module that is not to be avoided, `pick` gives such a module,
  -- whatever has been shown before.
  pub pick-Drawn :
      (also : List Text) (m : Machine) (y : Text)
      → LawfulAt m
      → Member y pool
      → ¬ Member y also
      → Drawn also (pick w also m)
  unfolding pick
  pick-Drawn also m y law p n =
      let m' = record m { used = m.current_names } in
      if-both (Drawn also) (is_nil m.used && is_nil also) (ask w m (m.used ++ also))
        (or_else w m (ask w m (m.used ++ also)) (start_over w also))
        (λ nothing_shown.
          ask-Drawn also (m.used ++ also) (ask w m (m.used ++ also)).result m y law refl into p
            (λ k. both_nil m.used also nothing_shown k))
        λ some_shown.
          or_else-Drawn also (m.used ++ also) (ask w m (m.used ++ also)).result m
            (start_over w also) law refl into λ all. over (after m (ask w m (m.used ++ also))) law
    where
      into : (x : Text) → Member x also → Member x (m.used ++ also)
      into x = Member-append_right x m.used also

      both_nil : (xs ys : List Text) → (is_nil xs && is_nil ys) ≡ true → Member y (xs ++ ys) → ⊥
      both_nil [] [] h k = k
      both_nil [] (z ∷ ys) h k = cc
      both_nil (z ∷ xs) ys h k = cc

      over : (n' : Machine) → LawfulAt n' → Drawn also (start_over w also n')
      over n' law' =
          let n'' = record n' { used = n'.current_names } in
          or_else-Drawn also (n''.used ++ also) (ask w n'' (n''.used ++ also)).result n''
            (λ k. repeat_one w also (record k { used = [] })) law' refl
            (λ x. Member-append_right x n''.used also)
            λ all.
              repeat_one-Drawn also
                (record (after n'' (ask w n'' (n''.used ++ also))) { used = [] }) y law' p n

  -- The names that a set's draw gives: as many as asked for, all of the pool, no two alike.
  abbrev pub DrawnSet : ℕ → Draw (List Text) → Type 0
  DrawnSet k d =
      (names : List Text) × (d.result ≡ some names)
      × (length names ≡ k)
      × Distinct names
      × ((x : Text) → Member x names → Member x pool)

  pick_more-DrawnSet :
      (n : ℕ) (names : List Text) (m : Machine)
      → LawfulAt m
      → Distinct pool
      → Distinct names
      → ((x : Text) → Member x names → Member x pool)
      → length names + n ≤ length pool
      → DrawnSet (length names + n) (pick_more w n names m)
  unfolding pick_more
  pick_more-DrawnSet zero names m law dp dn sub fits = (names, refl, omega arith, dn, sub)
  pick_more-DrawnSet (suc n) names m law dp dn sub fits =
      let (y, in_pool, out) = left_out pool names dp (omega arith) in
      let d = pick w names m in
      let (x, e, found, fresh) = pick-Drawn names m y law in_pool out in
      let longer = length-append names (x ∷ []) in
      let rest =
        pick_more-DrawnSet n (names ++ x ∷ []) (after m d) law dp (Distinct-concat names x dn fresh)
          (with_last x found) (omega (arith, longer)) in
      subst (DrawnSet (length names + suc n)) (sym (ap (pick_next w (pick_more w n) names m d) e)) (
        subst (λ k. DrawnSet k (pick_more w n (names ++ x ∷ []) (after m d)))
          (omega (arith, longer)) rest)
    where
      with_last :
          (x : Text) → Member x pool → (z : Text) → Member z (names ++ x ∷ []) → Member z pool
      with_last x found z k = ground (arith, Member-append z names (x ∷ []) k, sub z)

  -- With MONITORS=different, while the selection has at least as many modules as there are
  -- monitors, every monitor gets a module of its own: `pickSet` gives as many names as asked for,
  -- all different and all selectable.
  pub pick_set-Distinct :
      (n : ℕ) (m : Machine)
      → LawfulAt m
      → Distinct pool
      → n ≤ length pool
      → DrawnSet n (pick_set w n m)
  unfolding pick_set
  pick_set-Distinct n m law dp fits =
      subst (λ k. DrawnSet k (pick_more w n [] m)) (omega arith)
        (pick_more-DrawnSet n [] m law dp tt (λ x k. absurd k) (omega arith))
