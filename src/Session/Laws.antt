-- ===== src/Session/Laws.antt =====
-- internal/session/session.go: what the saved idle delay survives, and what the lock's reading
-- says.
use retrosaver.Prelude.{
  ℕ, ◌<◌, ◌≡◌, ◌⊎◌, inl, inr, refl, ap, subst, Bool, true, false, [], ◌∷◌, ◌++◌, Option, none, some,
  arith, Bool-cases, Option-cases, Text, word, ◌∙◌, lt64, Fits64,
}
use retrosaver.Chars.{atoi, itoa, trim_space}
use retrosaver.Chars.Numbers.{atoi-itoa, atoi-bound, trim_space-itoa}
use retrosaver.Session.{
  Answers, idle_delay, save_idle_delay, restore_idle_delay, saved_value, set_idle_delay,
  not_negative, default_idle_delay, write_saved,
}

-- Whatever the system answers, `SaveIdleDelay` leaves a file that is there as it is.
pub save_idle_delay-keeps :
    (a : Answers) (saved : Text) → (save_idle_delay a (some saved)).1 ≡ some saved
unfolding save_idle_delay
save_idle_delay-keeps a saved = ground arith

not_negative_lem : (n : ℕ) → Fits64 n → not_negative (some n) ≡ some n
not_negative_lem n h = ground arith

not_below_zero : (n : ℕ) → Fits64 n → lt64 n 0 ≡ false
not_below_zero n h = ground arith

pub set_idle_delay_lem : (n : ℕ) → Fits64 n → set_idle_delay n ≡ some (itoa n)
set_idle_delay_lem n h = rw (not_below_zero n h) refl

-- The written line is read as the number.
pub saved_value-itoa : (n : ℕ) → Fits64 n → saved_value (some (itoa n ++ 10 ∷ [])) ≡ some n
saved_value-itoa n h = rw (trim_space-itoa n h) (rw (atoi-itoa n h) (not_negative_lem n h))

write_saved_lem :
    (a : Answers) (t : Text) → (write_saved a t).0 ≡ true → (write_saved a t).1 ≡ some t
write_saved_lem a t h = ground arith

-- A success without a saved file has written the session's delay.
pub save_idle_delay-written :
    (a : Answers) (n : ℕ)
    → idle_delay a.gsettings_get ≡ some n
    → (save_idle_delay a none).0 ≡ true
    → (save_idle_delay a none).1 ≡ some (itoa n ++ 10 ∷ [])
unfolding save_idle_delay
save_idle_delay-written a n e ok = elim (Bool-cases a.config_dir) [
  | inr d ↦ absurd (ground arith)
  | inl d ↦ elim (Bool-cases a.mkdir_ok) [
    | inr k ↦ absurd (ground arith)
    | inl k ↦
        let same : save_idle_delay a none ≡ write_saved a (itoa n ++ 10 ∷ []) =
          rw d (rw k (rw e refl)) in
        ap (λ (r : Bool × Option Text). r.1) same
        ∙ write_saved_lem a (itoa n ++ 10 ∷ [])
            (subst (λ (r : Bool × Option Text). r.0 ≡ true) same ok)
  ]
]

-- Without a reading of the delay nothing is saved.
pub save_idle_delay-unread :
    (a : Answers) (file : Option Text)
    → idle_delay a.gsettings_get ≡ none
    → (save_idle_delay a file).0 ≡ false
unfolding save_idle_delay
save_idle_delay-unread a file e = ground arith

-- The restore reads back the line that was saved.
pub restore-line :
    (n : ℕ) → Fits64 n → restore_idle_delay (some (itoa n ++ 10 ∷ [])) ≡ some (itoa n)
unfolding restore_idle_delay
restore-line n h = rw (saved_value-itoa n h) (set_idle_delay_lem n h)

-- When `SaveIdleDelay` succeeds without a saved file and the session's delay is `n`, the restore
-- sets the delay to `n`.
pub save-restore :
    (a : Answers) (n : ℕ)
    → Fits64 n
    → idle_delay a.gsettings_get ≡ some n
    → (save_idle_delay a none).0 ≡ true
    → restore_idle_delay (save_idle_delay a none).1 ≡ some (itoa n)
unfolding restore_idle_delay
save-restore a n h e ok =
    rw (save_idle_delay-written a n e ok) (rw (saved_value-itoa n h) (set_idle_delay_lem n h))

not_negative-bound :
    (o : Option ℕ) (n : ℕ) → ((k : ℕ) → o ≡ some k → k < word) → not_negative o ≡ some n → Fits64 n
not_negative-bound none n b h = cc
not_negative-bound (some k) n b h = ground (arith, b k refl)

saved_value-bound : (file : Option Text) (n : ℕ) → saved_value file ≡ some n → Fits64 n
saved_value-bound none n h = cc
saved_value-bound (some t) n h =
    not_negative-bound (atoi (trim_space t)) n (atoi-bound (trim_space t)) h

-- Whatever the file holds, and without one, the restore sets the delay to a value of an int64 that
-- is not negative, and to 300 if there is no file or no such number in it.
pub restore_idle_delay_lem :
    (file : Option Text)
    → ((n : ℕ) × Fits64 n × (saved_value file ≡ some n) × (restore_idle_delay file ≡ some (itoa n)))
      ⊎ ((saved_value file ≡ none) × (restore_idle_delay file ≡ some (itoa default_idle_delay)))
unfolding restore_idle_delay
restore_idle_delay_lem file = elim (Option-cases (saved_value file)) [
  | inl none_saved ↦ inr (none_saved, rw none_saved refl)
  | inr (n, e) ↦ let h = saved_value-bound file n e in inl (n, h, e, rw e (set_idle_delay_lem n h))
]
