-- ===== src/Daemon/Zero.antt =====
-- internal/daemon/daemon.go over internal/idle/idle.go: a config with SAVER_DELAY=0, which the
-- parser accepts.
use retrosaver.Prelude.{
  ℕ, add64, ◌≡◌, ◌∙◌, refl, sym, ap, Bool, true, false, List, [], ◌∷◌, Option, some, arith,
  if◌then◌else◌, if-both, codes, none, text_eq,
}
use retrosaver.Config.{Config, Duration, defaults, lock_enabled, blank_enabled}
use retrosaver.Config.Parse.{
  holds, load, parse, parse_lines, scan_line, parse_line, set_key, unquote, seconds,
}
use retrosaver.Chars.{
  split, trim_space, trim_right, trim_left, is_space, has_prefix, cut, atoi, digits,
}
use retrosaver.Signals.{add_idle_watch}
use retrosaver.Signals.Laws.{refused-small}
use retrosaver.Daemon.{
  World, Machine, Call, LaunchResult, WatchKind, saver_watch, lock_watch, blank_watch,
}
use retrosaver.Daemon.Watches.{arm, rearm, add_idle, then_add, remove_watches, call}
use retrosaver.Daemon.Stages.{reload, reloaded, same_config, apply_config, reset, or_fatal}
use retrosaver.Daemon.Run.{
  Event, Verdict, failed, run, new_machine, handle, reload_asked, owned_run, armed_run,
}
use retrosaver.Daemon.Schedule.{then_add-failed}

-- The parser accepts a zero delay.
load-zero : load (holds (codes "SAVER_DELAY=0")) ≡ (record defaults { saver_delay = 0 }, none)
unfolding load parse parse_lines scan_line parse_line set_key unquote seconds text_eq split
    trim_space trim_right trim_left is_space has_prefix cut atoi digits
load-zero = refl

module _ (w : World) (bus : List Call → ℕ → Option ℕ)
    (real : (h : List Call) (d : Duration) → w.add_idle_watch h d ≡ add_idle_watch (bus h) d) where
  add_idle-zero :
      (k : WatchKind) (d : Duration) (m : Machine) → d ≡ 0 → (add_idle w d k m).1 ≡ false
  unfolding add_idle
  add_idle-zero k d m z =
      let refused = refused-small (bus m.history) d (omega arith) in
      rw (real m.history d ∙ refused) refl

  arm-zero : (m : Machine) → m.cfg.saver_delay ≡ 0 → (arm w m).1 ≡ false
  unfolding arm
  arm-zero m z =
      let c = m.cfg in
      let lock_at = add64 c.saver_delay c.lock_after in
      let first = add_idle w c.saver_delay saver_watch (record m { watches = [] }) in
      then_add-failed w (blank_enabled c) (add64 lock_at c.blank_after) blank_watch
        (then_add w (lock_enabled c) lock_at lock_watch first)
        (then_add-failed w (lock_enabled c) lock_at lock_watch first
          (add_idle-zero saver_watch c.saver_delay (record m { watches = [] }) z))

  armed_run-failed :
      (watching : Bool) (pending : Option LaunchResult) (es : List Event) (r : Machine × Bool)
      → r.1 ≡ false
      → (armed_run w watching pending es r).1 ≡ failed
  armed_run-failed watching pending es (m, ok) e = rw e refl

  or_fatal-failed : (r : Machine × Bool) → r.1 ≡ false → (or_fatal w r).fatal ≡ true
  or_fatal-failed (m, ok) e = rw e refl

  run-zero :
      (c : Config) (pending : Option LaunchResult) (es : List Event)
      → c.saver_delay ≡ 0
      → (run w c pending es).1 ≡ failed
  unfolding run
  run-zero c pending es z =
      let owning = Call.set_idle_delay 0 ∷ Call.connect ∷ [] in
      let start = new_machine c (Call.watch_locks ∷ owning) in
      let P = λ (r : Machine × Verdict). r.1 ≡ failed in
      if-both P (w.connect [])
        (if w.set_idle_delay (Call.connect ∷ []) 0
          then owned_run w c pending es owning
          else (new_machine c (Call.close_monitor ∷ owning), failed))
        (new_machine c (Call.connect ∷ []), failed)
        (λ _.
          if-both P (w.set_idle_delay (Call.connect ∷ []) 0) (owned_run w c pending es owning)
            (new_machine c (Call.close_monitor ∷ owning), failed)
            (λ _.
              armed_run-failed (w.watch_locks owning) pending es (arm w start) (arm-zero start z))
            λ _. refl)
        λ _. refl

  cfg-reset : (m : Machine) → (reset w m).cfg ≡ m.cfg
  unfolding reset
  cfg-reset m = ground arith

  rearm-zero : (m : Machine) → m.cfg.saver_delay ≡ 0 → (rearm w m).1 ≡ false
  unfolding rearm
  rearm-zero m z =
      arm-zero (record m { active_armed = false; history = remove_watches m.watches m.history }) z

  apply_config-zero :
      (c : Config) (m : Machine) → c.saver_delay ≡ 0 → (apply_config w c m).fatal ≡ true
  apply_config-zero c m z =
      let n = record (call (Call.set_filters c.include c.exclude) m) {
        cfg = c;
        include = c.include;
        exclude = c.exclude;
      } in
      or_fatal-failed (rearm w (reset w n))
        (rearm-zero (reset w n) (ap (λ (k : Config). k.saver_delay) (cfg-reset n) ∙ z))

  reload-zero :
      (c : Config) (m : Machine)
      → w.load_config m.history ≡ some c
      → same_config c m.cfg ≡ false
      → c.saver_delay ≡ 0
      → (handle w reload_asked m).fatal ≡ true
  unfolding handle reload
  reload-zero c m e changed z =
      let n = call Call.load_config m in
      ap (λ o. (reloaded w o n).fatal) e
      ∙ if-both (λ (r : Machine). r.fatal ≡ true) (same_config c m.cfg) n (apply_config w c n)
          (λ same. absurd (true-ne-false (sym same ∙ changed))) (λ _. apply_config-zero c n z)
    where
      true-ne-false : ¬ (true ≡ false)
      true-ne-false h = cc

  -- The config file `SAVER_DELAY=0` loads without an error, with a saver delay of zero; but with
  -- the program's idle monitor, a config whose SAVER_DELAY is 0 ends the daemon: `Run` fails
  -- at start, whatever events would come, and a reload of such a config, from another one, is fatal
  -- to a running daemon.
  pub zero_delay-fatal :
      (c : Config) (pending : Option LaunchResult) (es : List Event) (m : Machine)
      → c.saver_delay ≡ 0
      → w.load_config m.history ≡ some c
      → same_config c m.cfg ≡ false
      → (load (holds (codes "SAVER_DELAY=0")) ≡ (record defaults { saver_delay = 0 }, none))
        × ((run w c pending es).1 ≡ failed)
        × ((handle w reload_asked m).fatal ≡ true)
  zero_delay-fatal c pending es m z e changed =
      (load-zero, run-zero c pending es z, reload-zero c m e changed z)
