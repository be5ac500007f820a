-- ===== src/Command/Install/Laws.antt =====
-- cmd/retrosaver/main.go: what becomes of the user's idle delay over `setup`, `stop` and
-- `teardown`.
use retrosaver.Prelude.{
  ℕ, ◌≡◌, ◌∙◌, refl, sym, ap, subst, Bool, true, false, not, List, [], ◌∷◌, ◌++◌, Option, none,
  some, arith, Bool-cases, Option-cases, inl, inr, if◌then◌else◌, if-both, Text, Fits64,
}
use retrosaver.Chars.{itoa}
use retrosaver.Session.{
  idle_delay, save_idle_delay, restore_idle_delay, default_idle_delay, clear_saved_idle_delay,
  set_idle_delay,
}
use retrosaver.Session.Laws.{
  save_idle_delay-keeps, save_idle_delay-written, save_idle_delay-unread, restore-line,
}
use retrosaver.Command.Settings.{Stat, exists, not_exist, stat_failed}
use retrosaver.Command.Install.{
  Desktop, Host, preflight, cmd_setup, cmd_teardown, cmd_stop, install_config, configured,
  save_delay, saving_answers, read_saved, apply_delay, and_next, enable_unit, restore_delay,
  stop_running,
}

-- The saved delay of a desktop, with the one line that `SaveIdleDelay` writes.
abbrev pub Saves : ℕ → Desktop → Type 0
Saves n d = d.saved ≡ some (itoa n ++ 10 ∷ [])

install_config-saved :
    (h : Host) (d : Desktop) (s : Stat) → (install_config h d s).1.saved ≡ d.saved
install_config-saved h d exists = refl
install_config-saved h d stat_failed = refl
install_config-saved h d not_exist = ground arith

install_config-delay :
    (h : Host) (d : Desktop) (s : Stat) → (install_config h d s).1.delay ≡ d.delay
install_config-delay h d exists = refl
install_config-delay h d stat_failed = refl
install_config-delay h d not_exist = ground arith

save_delay-keeps :
    (h : Host) (d : Desktop) (t : Text) → d.saved ≡ some t → (save_delay h d).1.saved ≡ some t
save_delay-keeps h d t e =
    subst (λ o. (save_idle_delay (saving_answers h d) o).1 ≡ some t) (sym e)
      (save_idle_delay-keeps (saving_answers h d) t)

and_next-saved :
    (o : Option Text) (r : Bool × Desktop) (next : Desktop → Bool × Desktop)
    → r.1.saved ≡ o
    → ((d : Desktop) → d.saved ≡ o → (next d).1.saved ≡ o)
    → (and_next r next).1.saved ≡ o
and_next-saved o (false, d) next e k = e
and_next-saved o (true, d) next e k = k d e

apply_delay-saved :
    (h : Host) (d : Desktop) (v : Option Text) → (apply_delay h d v).1.saved ≡ d.saved
apply_delay-saved h d none = refl
apply_delay-saved h d (some v) = ground arith

enable_unit-saved : (h : Host) (d : Desktop) → (enable_unit h d).1.saved ≡ d.saved
enable_unit-saved h d = ground arith

-- The steps of `setup` after the delay is saved.
take_over-saved :
    (o : Option Text) (h : Host) (d : Desktop)
    → d.saved ≡ o
    → (and_next (apply_delay h d (set_idle_delay 0)) (enable_unit h)).1.saved ≡ o
take_over-saved o h d e =
    and_next-saved o (apply_delay h d (set_idle_delay 0)) (enable_unit h)
      (apply_delay-saved h d (set_idle_delay 0) ∙ e) (λ d' e'. enable_unit-saved h d' ∙ e')

configured-keeps :
    (h : Host) (r : Option Bool × Desktop) (t : Text)
    → r.1.saved ≡ some t
    → (configured h r).1.saved ≡ some t
configured-keeps h (none, d) t e = e
configured-keeps h (some b, d) t e =
    and_next-saved (some t) (save_delay h d)
      (λ d1. and_next (apply_delay h d1 (set_idle_delay 0)) (enable_unit h))
      (save_delay-keeps h d t e) (take_over-saved (some t) h)

cmd_setup-keeps :
    (h : Host) (d : Desktop) (t : Text) → d.saved ≡ some t → (cmd_setup h d).1.saved ≡ some t
unfolding cmd_setup
cmd_setup-keeps h d t e =
    let P = λ (r : Bool × Desktop). r.1.saved ≡ some t in
    let installed = install_config h d h.stat in
    if-both P (not (preflight h d)) (false, d)
      (if not h.config_path then (false, d) else configured h installed) (λ _. e)
      λ _.
        if-both P (not h.config_path) (false, d) (configured h installed) (λ _. e)
          λ _. configured-keeps h installed t (install_config-saved h d h.stat ∙ e)

cmd_stop-saved : (k b : Bool) (h : Host) (d : Desktop) → (cmd_stop k b h d).1.saved ≡ d.saved
unfolding cmd_stop
cmd_stop-saved k b h d =
    and_next-saved d.saved (stop_running h d)
      (λ d1. if k then (true, d1) else if b then (true, d1) else restore_delay h d1) (ground arith)
      (λ d' e. ground (arith, apply_delay-saved h d' (restore_idle_delay (read_saved h d'.saved))))

and_next_lem :
    (r : Bool × Desktop) (next : Desktop → Bool × Desktop) → (and_next r next).0 ≡ true → r.0 ≡ true
and_next_lem (false, d) next h = cc
and_next_lem (true, d) next h = refl

save_delay-Saves :
    (n : ℕ) (h : Host) (d : Desktop)
    → d.saved ≡ none
    → idle_delay (some (h.gsettings_print d.delay)) ≡ some n
    → (save_delay h d).0 ≡ true
    → Saves n (save_delay h d).1
save_delay-Saves n h d e p ok = elim (Bool-cases h.gsettings_get_ok) [
  | inl read ↦
      let a = saving_answers h d in
      let known : idle_delay a.gsettings_get ≡ some n = rw read p in
      subst (λ o. (save_idle_delay a o).1 ≡ some (itoa n ++ 10 ∷ [])) (sym e)
        (save_idle_delay-written a n known (subst (λ o. (save_idle_delay a o).0 ≡ true) e ok))
  | inr unread ↦
      let a = saving_answers h d in
      let unknown : idle_delay a.gsettings_get ≡ none = rw unread refl in
      absurd (true-ne-false (sym ok ∙ save_idle_delay-unread a d.saved unknown))
]
  where
    true-ne-false : ¬ (true ≡ false)
    true-ne-false h = cc

configured-Saves :
    (n : ℕ) (h : Host) (r : Option Bool × Desktop)
    → r.1.saved ≡ none
    → idle_delay (some (h.gsettings_print r.1.delay)) ≡ some n
    → (configured h r).0 ≡ true
    → Saves n (configured h r).1
configured-Saves n h (none, d) e p ok = cc
configured-Saves n h (some b, d) e p ok =
    let next = λ (d1 : Desktop). and_next (apply_delay h d1 (set_idle_delay 0)) (enable_unit h) in
    and_next-saved (some (itoa n ++ 10 ∷ [])) (save_delay h d) next
      (save_delay-Saves n h d e p (and_next_lem (save_delay h d) next ok))
      (take_over-saved (some (itoa n ++ 10 ∷ [])) h)

cmd_setup-Saves :
    (n : ℕ) (h : Host) (d : Desktop)
    → d.saved ≡ none
    → idle_delay (some (h.gsettings_print d.delay)) ≡ some n
    → (cmd_setup h d).0 ≡ true
    → Saves n (cmd_setup h d).1
unfolding cmd_setup
cmd_setup-Saves n h d e p ok =
    let installed = install_config h d h.stat in
    let P = λ (r : Bool × Desktop). r.0 ≡ true → Saves n r.1 in
    if-both P (not (preflight h d)) (false, d)
      (if not h.config_path then (false, d) else configured h installed) (λ _ k. cc)
      (λ _.
        if-both P (not h.config_path) (false, d) (configured h installed) (λ _ k. cc)
          λ _ k.
            configured-Saves n h installed (install_config-saved h d h.stat ∙ e)
              (ap (λ v. idle_delay (some (h.gsettings_print v))) (install_config-delay h d h.stat)
                ∙ p)
              k)
      ok

-- A later run of the program: `setup` again, or `stop` with its flag and the answer on the daemon.
pub data Command : Type 0 where
  set_up : Host → Command
  stopped : Bool → Bool → Host → Command

abbrev pub perform : Command → Desktop → Desktop
perform (set_up h) d = (cmd_setup h d).1
perform (stopped k b h) d = (cmd_stop k b h d).1

abbrev pub perform_all : List Command → Desktop → Desktop
perform_all [] d = d
perform_all (c ∷ cs) d = perform_all cs (perform c d)

perform_all-Saves :
    (n : ℕ) (cs : List Command) (d : Desktop) → Saves n d → Saves n (perform_all cs d)
perform_all-Saves n [] d e = e
perform_all-Saves n (set_up h ∷ cs) d e =
    perform_all-Saves n cs (cmd_setup h d).1 (cmd_setup-keeps h d (itoa n ++ 10 ∷ []) e)
perform_all-Saves n (stopped k b h ∷ cs) d e =
    perform_all-Saves n cs (cmd_stop k b h d).1 (cmd_stop-saved k b h d ∙ e)

apply_delay-sets :
    (h : Host) (d : Desktop) (v : Text)
    → (apply_delay h d (some v)).0 ≡ true
    → (apply_delay h d (some v)).1.delay ≡ v
apply_delay-sets h d v ok = ground arith

restore_delay-restores :
    (h : Host) (d : Desktop) (v : Text)
    → restore_idle_delay (read_saved h d.saved) ≡ some v
    → (restore_delay h d).0 ≡ true
    → (restore_delay h d).1.delay ≡ v
restore_delay-restores h d v value ok = elim (Bool-cases h.config_path) [
  | inl here ↦
      let same : restore_delay h d ≡ apply_delay h d (some v) =
        rw here (ap (apply_delay h d) value) in
      ap (λ (r : Bool × Desktop). r.1.delay) same
      ∙ apply_delay-sets h d v (sym (ap (λ (r : Bool × Desktop). r.0) same) ∙ ok)
  | inr lost ↦ absurd (ground arith)
]

clear_saved-clears :
    (dir_ok remove_ok : Bool) (file : Option Text)
    → (clear_saved_idle_delay dir_ok remove_ok file).0 ≡ true
    → (clear_saved_idle_delay dir_ok remove_ok file).1 ≡ none
unfolding clear_saved_idle_delay
clear_saved-clears dir_ok remove_ok none h = refl
clear_saved-clears dir_ok remove_ok (some saved) h = ground arith

read_saved-readable : (h : Host) (o : Option Text) → h.saved_readable ≡ true → read_saved h o ≡ o
read_saved-readable h o e = ground arith

read_saved-none : (h : Host) → read_saved h none ≡ none
read_saved-none h = ground arith

-- What `teardown` hands to the restore.
abbrev torn_down : Host → Desktop → Desktop
torn_down h d = (stop_running h (if h.systemctl_disable then record d { enabled = false } else d)).1

torn_down-keeps :
    (h : Host) (d : Desktop) → ((torn_down h d).saved ≡ d.saved) × ((torn_down h d).delay ≡ d.delay)
torn_down-keeps h d = ground arith

cmd_teardown-restores :
    (h : Host) (d : Desktop) (v : Text)
    → restore_idle_delay (read_saved h d.saved) ≡ some v
    → (cmd_teardown h d).0 ≡ true
    → ((cmd_teardown h d).1.delay ≡ v) × ((cmd_teardown h d).1.saved ≡ none)
unfolding cmd_teardown
cmd_teardown-restores h d v value ok =
    let stopped = torn_down h d in
    let restored = restore_delay h stopped in
    (
      restore_delay-restores h stopped v
          (ap (λ o. restore_idle_delay (read_saved h o)) (torn_down-keeps h d).0 ∙ value)
          (ground arith),
      clear_saved-clears h.config_path h.remove_ok restored.1.saved (ground arith),
    )

-- The user's idle delay survives: if a first `setup` succeeds where no delay is saved, and the
-- delay that `gsettings get` prints is `n`, then whatever further runs of `setup` and of `stop`
-- come after it, successful or not, a `teardown` that succeeds, and can read the saved delay, sets
-- the delay to `n` and removes the saved one.
pub setup-teardown :
    (n : ℕ) (h k : Host) (d : Desktop) (cs : List Command)
    → Fits64 n
    → d.saved ≡ none
    → idle_delay (some (h.gsettings_print d.delay)) ≡ some n
    → (cmd_setup h d).0 ≡ true
    → k.saved_readable ≡ true
    → (cmd_teardown k (perform_all cs (cmd_setup h d).1)).0 ≡ true
    → ((cmd_teardown k (perform_all cs (cmd_setup h d).1)).1.delay ≡ itoa n)
      × ((cmd_teardown k (perform_all cs (cmd_setup h d).1)).1.saved ≡ none)
setup-teardown n h k d cs f e p ok readable done =
    let saves = perform_all-Saves n cs (cmd_setup h d).1 (cmd_setup-Saves n h d e p ok) in
    cmd_teardown-restores k (perform_all cs (cmd_setup h d).1) (itoa n)
      (ap restore_idle_delay
          (ap (read_saved k) saves ∙ read_saved-readable k (some (itoa n ++ 10 ∷ [])) readable)
        ∙ restore-line n f)
      done

restore_delay-refused :
    (h : Host) (d : Desktop) → h.gsettings_set_ok ≡ false → restore_delay h d ≡ (false, d)
restore_delay-refused h d e = elim (Option-cases (restore_idle_delay (read_saved h d.saved))) [
  | inl nothing ↦ rw nothing (ground arith)
  | inr (v, value) ↦ rw value (ground arith)
]

clear_saved-removes : (file : Option Text) → (clear_saved_idle_delay true true file).1 ≡ none
unfolding clear_saved_idle_delay
clear_saved-removes none = refl
clear_saved-removes (some saved) = refl

cmd_teardown-refused :
    (h : Host) (d : Desktop)
    → h.gsettings_set_ok ≡ false
    → h.config_path ≡ true
    → h.remove_ok ≡ true
    → ((cmd_teardown h d).0 ≡ false)
      × ((cmd_teardown h d).1.delay ≡ d.delay)
      × ((cmd_teardown h d).1.saved ≡ none)
unfolding cmd_teardown
cmd_teardown-refused h d refused here removable =
    let restored = restore_delay-refused h (torn_down h d) refused in
    (
      ground (arith, ap (λ (r : Bool × Desktop). r.0) restored),
      ap (λ (r : Bool × Desktop). r.1.delay) restored ∙ (torn_down-keeps h d).1,
      subst
          (λ b.
            (clear_saved_idle_delay b h.remove_ok (restore_delay h (torn_down h d)).1.saved).1
            ≡ none)
          (sym here)
          (subst
            (λ b.
              (clear_saved_idle_delay true b (restore_delay h (torn_down h d)).1.saved).1 ≡ none)
            (sym removable) (clear_saved-removes (restore_delay h (torn_down h d)).1.saved)),
    )

restore-default : restore_idle_delay none ≡ some (itoa default_idle_delay)
unfolding restore_idle_delay
restore-default = refl

-- `teardown` removes the saved delay also when it could not be restored: if `gsettings set` fails,
-- and the file can be removed, the run is an error that leaves the delay as it was and forgets the
-- one that was saved, so that the next `teardown` that succeeds sets the default.
pub teardown-forgets :
    (h k : Host) (d : Desktop)
    → h.gsettings_set_ok ≡ false
    → h.config_path ≡ true
    → h.remove_ok ≡ true
    → (cmd_teardown k (cmd_teardown h d).1).0 ≡ true
    → ((cmd_teardown h d).0 ≡ false)
      × ((cmd_teardown h d).1.delay ≡ d.delay)
      × ((cmd_teardown h d).1.saved ≡ none)
      × ((cmd_teardown k (cmd_teardown h d).1).1.delay ≡ itoa default_idle_delay)
teardown-forgets h k d refused here removable done =
    let (failed, left, gone) = cmd_teardown-refused h d refused here removable in
    (
      failed,
      left,
      gone,
      (cmd_teardown-restores k (cmd_teardown h d).1 (itoa default_idle_delay)
          (ap restore_idle_delay (ap (read_saved k) gone ∙ read_saved-none k) ∙ restore-default)
          done).0,
    )
