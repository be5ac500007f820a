-- ===== src/Daemon/Reach.antt =====
-- The machines that `Run` of internal/daemon/daemon.go can reach, whatever the order in which the
-- channels deliver.
use retrosaver.Prelude.{
  suc, ◌<◌, ◌≡◌, ◌≢◌, true, false, List, none, arith, is_some, length, word, Member,
}
use retrosaver.Config.{Config}
use retrosaver.Daemon.{saver, World, Machine, Call}
use retrosaver.Daemon.Watches.{arm}
use retrosaver.Daemon.Run.{
  Event, module_done, reload_asked, fired, launched, copy_exit, lock_changed, new_machine, handle,
}
use retrosaver.Daemon.Screen.{screen, IsSound, screen-arm}
use retrosaver.Daemon.Sound.Parts.{handle_launch-IsSound}
use retrosaver.Daemon.Sound.Stages.{handle_watch-IsSound, reload-IsSound, on_lock_change-IsSound}
use retrosaver.Daemon.Sound.Exits.{on_module_exit-IsSound, on_copy_exit-IsSound}

-- What an event says of the machine that receives it. A launch result is that of a launch that was
-- started, with a saver unless it failed; a nil channel never fires; an exit is on a monitor that
-- the launch picked a module for.
abbrev pub Allowed : Event → Machine → Type 0
Allowed (launched r) m = Member r.origin m.launches × (r.error ≡ none → is_some r.saver ≡ true)
Allowed module_done m = is_some m.current_done ≡ true
Allowed (copy_exit e) m = (is_some m.current_exits ≡ true) × (e.monitor < length m.current_names)
Allowed _ m = Unit

module _ (w : World) where
  pub data Reach : Machine → Type 0 where
    start : (c : Config) (h : List Call) → Reach (arm w (new_machine c h)).0
    next :
        {m : Machine} (e : Event) → Reach m → suc m.gen < word → Allowed e m → Reach (handle w e m)

  pub handle-IsSound :
      (e : Event) (m : Machine)
      → suc m.gen < word
      → Allowed e m
      → IsSound (screen m)
      → IsSound (screen (handle w e m))
  unfolding handle
  handle-IsSound (launched r) m h a i = handle_launch-IsSound w r m a.0 a.1 i
  handle-IsSound module_done m h a i = on_module_exit-IsSound w m a i
  handle-IsSound (copy_exit e) m h a i = on_copy_exit-IsSound w e m (i.exits_current a.0, a.1) i
  handle-IsSound (fired id) m h a i = handle_watch-IsSound w id m h i
  handle-IsSound (lock_changed b) m h a i = on_lock_change-IsSound w b m h i
  handle-IsSound reload_asked m h a i = reload-IsSound w m h i
  handle-IsSound _ m h a i = i

  new_machine-IsSound : (c : Config) (h : List Call) → IsSound (screen (new_machine c h))
  new_machine-IsSound c h = ground arith

  pub Reach-IsSound : {m : Machine} → Reach m → IsSound (screen m)
  Reach-IsSound (start c h) = rw screen-arm (new_machine-IsSound c h)
  Reach-IsSound (next e r h a) = handle-IsSound e _ h a (Reach-IsSound r)

  -- In every machine that `Reach` admits (any order of its events, fewer than 2 ^ 64 resets, a
  -- saver with every launch result that has no error, exits only on monitors that a module was
  -- picked for), outside the saver stage nothing is on screen, no launch is in flight, and no
  -- channel of a module is listened to.
  pub Reach-quiet :
      {m : Machine}
      → Reach m
      → m.stage ≢ saver
      → (m.current ≡ none)
        × (m.cancel ≡ none)
        × (m.current_done ≡ none)
        × (m.current_exits ≡ none)
        × (m.dead ≡ false)
  Reach-quiet r s = ground (arith, Reach-IsSound r)

  -- In every machine that `Reach` admits no handler has called through a nil saver or written a
  -- name out of range: that is, as long as the exits come from monitors that a module was picked
  -- for, launch results without an error have a saver, and fewer than 2 ^ 64 resets have happened.
  pub Reach-no_panic : {m : Machine} → Reach m → m.panicked ≡ false
  Reach-no_panic r = (Reach-IsSound r).no_panic
