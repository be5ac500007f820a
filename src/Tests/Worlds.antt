-- ===== src/Tests/Worlds.antt =====
-- A desktop where every call succeeds, and machines on it.
use retrosaver.Prelude.{◌*◌, true, false, [], ◌∷◌, none, some, length, codes}
use retrosaver.Config.{defaults, second}
use retrosaver.Daemon.{World, Machine, LaunchResult, Launch}
use retrosaver.Daemon.Watches.{arm}
use retrosaver.Daemon.Run.{new_machine, handle, fired}

-- Watch ids are numbered by the calls before them; the session has been idle for five minutes.
abbrev pub calm : World
calm = record {
  connect = λ h. true;
  watch_locks = λ h. true;
  add_idle_watch = λ h d. some (length h);
  add_user_active_watch = λ h. some (length h);
  idletime = λ h. some (300 * second);
  locked = λ h. some false;
  set_idle_delay = λ h n. true;
  pick = λ h inc exc avoid. some (codes "flame");
  monitors = λ h. some 2;
  replace = λ h s i name. true;
  load_config = λ h. some defaults;
}

abbrev pub fresh : Machine
fresh = (arm calm (new_machine defaults [])).0

-- The saver watch, of id 0, has fired: a module is being launched.
abbrev pub starting : Machine
starting = handle calm (fired 0) fresh

abbrev pub first_launch : Launch
first_launch = record { context = 0; gen = 0; names = codes "flame" ∷ [] }

abbrev pub late_success : LaunchResult
late_success = record { origin = first_launch; saver = some 7; error = none }
