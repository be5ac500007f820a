-- ===== src/Window/Owns.antt =====
-- internal/window/window.go: the runtime files name a saver's processes from its launch to its
-- stop.
use retrosaver.Prelude.{
  ℕ, zero, suc, ◌≡◌, ◌∙◌, ==_iff, ◌||◌, refl, sym, ap, subst, Bool, true, false, List, [], ◌∷◌,
  ◌++◌, Option, none, some, arith, some-injective, if-both, ltb, ◌==◌, if◌then◌else◌, get_elem?,
  set, All, Text,
}
use retrosaver.Window.{
  Files, read_pids, write_state, clear_state, clear_state_for, cleared_if_first, first_pid,
}
use retrosaver.Window.Pids.{Plausible, read_pids-write_state}
use retrosaver.Window.Saver.{
  Child, Saver, System, child_pids, pids, modules, started, start_child, stop_child, stop, exited,
  report, child_exited, rewritten, in_place, replaced, replace, add_child, path_of, start_children,
  launched, launch,
}

abbrev pub AllPlausible : List Child → Type 0
AllPlausible = All (λ c. Plausible c.pid)

set-All :
    (cs : List Child) (i : ℕ) (c : Child)
    → AllPlausible cs
    → Plausible c.pid
    → AllPlausible (set cs i c)
set-All [] i c h k = tt
set-All (d ∷ cs) zero c h k = (k, h.1)
set-All (d ∷ cs) (suc i) c h k = (h.0, set-All cs i c h.1 k)

get-All :
    (cs : List Child) (i : ℕ) (c : Child)
    → AllPlausible cs
    → get_elem? cs i ≡ some c
    → Plausible c.pid
get-All [] i c h e = cc
get-All (d ∷ cs) zero c h e = ground arith
get-All (d ∷ cs) (suc i) c h e = get-All cs i c h.1 e

-- A change of a child that keeps its PID keeps the list of PIDs.
child_pids-set :
    (cs : List Child) (i : ℕ) (c d : Child)
    → get_elem? cs i ≡ some c
    → d.pid ≡ c.pid
    → child_pids (set cs i d) ≡ child_pids cs
child_pids-set [] i c d e h = cc
child_pids-set (b ∷ cs) zero c d e h =
    let at_first : c ≡ b = cc in
    ap (λ (n : ℕ). if ltb 0 n then n ∷ child_pids cs else child_pids cs)
      (h ∙ ap (λ (x : Child). x.pid) at_first)
child_pids-set (b ∷ cs) (suc i) c d e h = rw (child_pids-set cs i c d e h) refl

child_pids-All : (cs : List Child) → AllPlausible cs → All Plausible (child_pids cs)
child_pids-All [] h = tt
child_pids-All (c ∷ cs) h =
    if-both (All Plausible) (ltb 0 c.pid) (c.pid ∷ child_pids cs) (child_pids cs)
      (λ _. (h.0, child_pids-All cs h.1)) (λ _. child_pids-All cs h.1)

-- The runtime files name the saver's processes, of which there is one at least.
pub record Owns (s : Saver) (f : Files) : Type 0 where
  pub named : read_pids f.pids ≡ pids s
  pub plausible : AllPlausible s.children
  pub some_child : (c : Child) × (cs : List Child) × (s.children ≡ c ∷ cs)
  pub running : s.stopping ≡ false

child_pids-cons :
    (c : Child) (cs : List Child) → Plausible c.pid → child_pids (c ∷ cs) ≡ c.pid ∷ child_pids cs
child_pids-cons c cs h = let above : ltb 0 c.pid ≡ true = ground arith in rw above refl

set-some :
    (cs : List Child) (i : ℕ) (d : Child)
    → ((c : Child) × (ds : List Child) × (cs ≡ c ∷ ds))
    → (c : Child) × (ds : List Child) × (set cs i d ≡ c ∷ ds)
set-some cs zero d (c, ds, e) = (d, ds, ap (λ xs. set xs 0 d) e)
set-some cs (suc i) d (c, ds, e) = (c, set ds i d, ap (λ xs. set xs (suc i) d) e)

-- A change of one child that keeps its PID leaves the files naming the saver.
Owns-set :
    (s s' : Saver) (f : Files) (i : ℕ) (c d : Child)
    → Owns s f
    → get_elem? s.children i ≡ some c
    → d.pid ≡ c.pid
    → s'.children ≡ set s.children i d
    → s'.stopping ≡ s.stopping
    → Owns s' f
Owns-set s s' f i c d o at_i same e still = record {
  named = o.named ∙ sym (child_pids-set s.children i c d at_i same) ∙ ap child_pids (sym e);
  plausible = subst AllPlausible (sym e) (
      set-All s.children i d o.plausible
        (subst Plausible (sym same) (get-All s.children i c o.plausible at_i)));
  some_child =
      subst (λ xs. (b : Child) × (bs : List Child) × (xs ≡ b ∷ bs)) (sym e)
        (set-some s.children i d o.some_child);
  running = still ∙ o.running;
}

write_state-Owns :
    (s : Saver) (u : ℕ) (f : Files)
    → AllPlausible s.children
    → ((c : Child) × (cs : List Child) × (s.children ≡ c ∷ cs))
    → s.stopping ≡ false
    → Owns s (write_state (pids s) (modules s) u f)
write_state-Owns s u f h (c, cs, e) awake =
    let all = subst AllPlausible e h in
    let listed : pids s ≡ c.pid ∷ child_pids cs = ap child_pids e ∙ child_pids-cons c cs all.0 in
    record {
      named =
          ap (λ ps. read_pids (write_state ps (modules s) u f).pids) listed
          ∙ read_pids-write_state c.pid (child_pids cs) (modules s) u f
              (all.0, child_pids-All cs all.1)
          ∙ sym listed;
      plausible = h;
      some_child = (c, cs, e);
      running = awake;
    }

module _ (o : System) where
  exited-Owns :
      (i : ℕ) (c : Option Child) (s : Saver) (f : Files)
      → get_elem? s.children i ≡ c
      → Owns s f
      → Owns (exited o i c s) f
  exited-Owns i none s f e h = h
  exited-Owns i (some c) s f e h =
      if-both (λ (s' : Saver). Owns s' f) c.reaped s
        (record s {
          children = set s.children i (record c { reaped = true });
          done = true;
          reports = report o s c ++ s.reports;
        })
        (λ _. h) λ _. Owns-set s _ f i c (record c { reaped = true }) h e refl refl refl

  child_exited-Owns : (i : ℕ) (s : Saver) (f : Files) → Owns s f → Owns (child_exited o i s) f
  unfolding child_exited
  child_exited-Owns i s f h = exited-Owns i (get_elem? s.children i) s f refl h

  stop_child-pid : (c : Child) → (stop_child o c).1.pid ≡ c.pid
  unfolding stop_child
  stop_child-pid c = ground arith

  rewritten-Owns :
      (first : ℕ) (named : List ℕ) (s : Saver) (f : Files)
      → AllPlausible s.children
      → ((c : Child) × (cs : List Child) × (s.children ≡ c ∷ cs))
      → ((p : ℕ) × (ps : List ℕ) × (named ≡ p ∷ ps) × (p ≡ first))
      → s.stopping ≡ false
      → Owns s (rewritten o first named s f)
  rewritten-Owns first [] s f h k (p, ps, e, same) awake = cc
  rewritten-Owns first (q ∷ qs) s f h k (p, ps, e, same) awake =
      let equal : (q == first) ≡ true =
        let first_one : q ≡ first = cc in (==_iff q first).1 first_one in
      rw equal (write_state-Owns s s.unclutter f h k awake)

  listed_first :
      (s : Saver) (f : Files)
      → Owns s f
      → (p : ℕ) × (ps : List ℕ) × (read_pids f.pids ≡ p ∷ ps) × (p ≡ first_pid (pids s))
  listed_first s f h =
      let (c, cs, e) = h.some_child in
      let listed = ap child_pids e ∙ child_pids-cons c cs (subst AllPlausible e h.plausible).0 in
      (c.pid, child_pids cs, h.named ∙ listed, sym (ap first_pid listed))

  in_place-Owns :
      (i first : ℕ) (c : Option Child) (s : Saver) (f : Files)
      → ((d : Child) → c ≡ some d → Plausible d.pid)
      → first_pid (pids s) ≡ first
      → Owns s f
      → Owns (in_place o i first c s f).1.0 (in_place o i first c s f).1.1
  in_place-Owns i first none s f k same h = h
  in_place-Owns i first (some c) s f k same h =
      let s' = record s { children = set s.children i c } in
      let (p, ps, e, head) = listed_first s f h in
      rewritten-Owns first (read_pids f.pids) s' f (set-All s.children i c h.plausible (k c refl))
        (set-some s.children i c h.some_child) (p, ps, e, head ∙ same) h.running

  -- The PIDs that the operating system gives are those of processes.
  abbrev pub GivesPids : Type 0
  GivesPids = (path : Text) (window pid : ℕ) → o.start path window ≡ some pid → Plausible pid

  start_child-Plausible :
      GivesPids
      → (path : Text) (window monitor : ℕ) (d : Child) → start_child o path window monitor ≡ some d
      → Plausible d.pid
  unfolding start_child
  start_child-Plausible gives path window monitor d e = from (o.start path window) refl e
    where
      from :
          (r : Option ℕ)
          → o.start path window ≡ r
          → started o path window monitor r ≡ some d
          → Plausible d.pid
      from none k h = cc
      from (some pid) k h =
          let same : pid ≡ d.pid = ground arith in subst Plausible same (gives path window pid k)

  replaced-Owns :
      GivesPids
      → (i : ℕ) (path : Text) (c : Option Child) (window : Option ℕ) (s : Saver) (f : Files)
      → get_elem? s.children i ≡ c
      → Owns s f
      → Owns (replaced o i path c window s f).1.0 (replaced o i path c window s f).1.1
  replaced-Owns gives i path none window s f e h = h
  replaced-Owns gives i path (some old) none s f e h = h
  replaced-Owns gives i path (some old) (some window) s f e h =
      let leaving = record old { retired = true } in
      let stopped = (stop_child o leaving).1 in
      let s' = record s {
        children = set s.children i stopped;
        done = s.done || stopped.reaped;
        signalled = (stop_child o leaving).0 ++ s.signalled;
      } in
      in_place-Owns i (first_pid (pids s)) (start_child o path window i) s' f
        (start_child-Plausible gives path window i)
        (ap first_pid (child_pids-set s.children i old stopped e (stop_child-pid leaving)))
        (Owns-set s s' f i old stopped h e (stop_child-pid leaving) refl refl)

  replace-Owns :
      GivesPids
      → (i : ℕ) (path : Text) (s : Saver) (f : Files) → Owns s f
      → Owns (replace o i path s f).1.0 (replace o i path s f).1.1
  unfolding replace
  replace-Owns gives i path s f h =
      if-both (λ (r : Bool × (Saver × Files)). Owns r.1.0 r.1.1) s.stopping (false, (s, f))
        (replaced o i path (get_elem? s.children i) (get_elem? s.windows i) s f) (λ _. h)
        λ _. replaced-Owns gives i path (get_elem? s.children i) (get_elem? s.windows i) s f refl h

  add_child-All :
      (c : Option Child) (rest : Option (List Child)) (cs : List Child)
      → ((d : Child) → c ≡ some d → Plausible d.pid)
      → ((ds : List Child) → rest ≡ some ds → AllPlausible ds)
      → add_child o c rest ≡ some cs
      → AllPlausible cs
  add_child-All none rest cs h k e = cc
  add_child-All (some c) none cs h k e = cc
  add_child-All (some c) (some ds) cs h k e =
      let same : c ∷ ds ≡ cs = ground arith in subst AllPlausible same (h c refl, k ds refl)

  start_children-All :
      GivesPids
      → (paths : List Text) (i : ℕ) (windows : List ℕ) (cs : List Child)
      → start_children o paths i windows ≡ some cs
      → AllPlausible cs
  unfolding start_children
  start_children-All gives paths i [] cs e =
      let same : [] ≡ cs = ground arith in subst AllPlausible same tt
  start_children-All gives paths i (window ∷ windows) cs e =
      add_child-All (start_child o (path_of o paths i) window i)
        (start_children o paths (suc i) windows) cs
        (start_child-Plausible gives (path_of o paths i) window i)
        (start_children-All gives paths (suc i) windows) e

  add_child-some :
      (c : Option Child) (rest : Option (List Child)) (cs : List Child)
      → add_child o c rest ≡ some cs
      → (d : Child) × (ds : List Child) × (cs ≡ d ∷ ds)
  add_child-some none rest cs e = cc
  add_child-some (some c) none cs e = cc
  add_child-some (some c) (some ds) cs e = (c, ds, ground arith)

  abbrev started_saver : ℕ → List ℕ → List Child → Saver
  started_saver unclutter windows cs = record {
    children = cs;
    windows = windows;
    screen_open = true;
    done = false;
    stopping = false;
    unclutter = unclutter;
    unclutter_reaped = false;
    reports = [];
    signalled = [];
  }

  launched-Owns :
      GivesPids
      → (paths : List Text) (unclutter : ℕ) (awaited : Bool) (window : ℕ) (windows : List ℕ)
        (r : Option (List Child))
      → (s : Saver) (f g : Files) → start_children o paths 0 (window ∷ windows) ≡ r
      → launched o unclutter awaited (window ∷ windows) r g ≡ some (s, f)
      → Owns s f
  unfolding start_children
  launched-Owns gives paths unclutter awaited window windows none s f g e h = cc
  launched-Owns gives paths unclutter false window windows (some cs) s f g e h = cc
  launched-Owns gives paths unclutter true window windows (some cs) s f g e h =
      let s0 = started_saver unclutter (window ∷ windows) cs in
      let owns =
        write_state-Owns s0 unclutter g (start_children-All gives paths 0 (window ∷ windows) cs e)
          (add_child-some (start_child o (path_of o paths 0) window 0)
            (start_children o paths 1 windows) cs e)
          refl in
      let same : (s0, write_state (pids s0) (modules s0) unclutter g) ≡ (s, f) =
        some-injective (s0, write_state (pids s0) (modules s0) unclutter g) (s, f) h in
      subst (λ (r : Saver × Files). Owns r.0 r.1) same owns

  launch-Owns :
      GivesPids
      → (paths : List Text) (unclutter : ℕ) (awaited : Bool) (window : ℕ) (windows : List ℕ)
        (s : Saver) (f g : Files)
      → launch o paths (some (window ∷ windows)) unclutter awaited g ≡ some (s, f)
      → Owns s f
  unfolding launch
  launch-Owns gives [] unclutter awaited window windows s f g h = cc
  launch-Owns gives (p ∷ ps) unclutter awaited window windows s f g h =
      launched-Owns gives (p ∷ ps) unclutter awaited window windows
        (start_children o (p ∷ ps) 0 (window ∷ windows)) s f g refl h

  -- What happens to a running saver.
  pub data Op : Type 0 where
    exits : ℕ → Op
    replaces : ℕ → Text → Op

  abbrev pub act : Op → Saver × Files → Saver × Files
  act (exits i) (s, f) = (child_exited o i s, f)
  act (replaces i path) (s, f) = (replace o i path s f).1

  abbrev pub acts : List Op → Saver × Files → Saver × Files
  acts [] r = r
  acts (op ∷ ops) r = acts ops (act op r)

  acts-Owns :
      GivesPids
      → (ops : List Op) (s : Saver) (f : Files) → Owns s f
      → Owns (acts ops (s, f)).0 (acts ops (s, f)).1
  acts-Owns gives [] s f h = h
  acts-Owns gives (exits i ∷ ops) s f h =
      acts-Owns gives ops (child_exited o i s) f (child_exited-Owns i s f h)
  acts-Owns gives (replaces i path ∷ ops) s f h =
      let r = (replace o i path s f).1 in
      acts-Owns gives ops r.0 r.1 (replace-Owns gives i path s f h)

  cleared :
      (first : ℕ) (named : List ℕ) (f : Files)
      → ((p : ℕ) × (ps : List ℕ) × (named ≡ p ∷ ps) × (p ≡ first))
      → cleared_if_first first named f ≡ clear_state f
  cleared first [] f (p, ps, e, same) = cc
  cleared first (q ∷ qs) f (p, ps, e, same) =
      let equal : (q == first) ≡ true =
        let first_one : q ≡ first = cc in (==_iff q first).1 first_one in
      rw equal refl

  stop-Owns : (s : Saver) (f : Files) → Owns s f → (stop o s f).1 ≡ clear_state f
  unfolding stop clear_state_for
  stop-Owns s f h =
      rw h.running (cleared (first_pid (pids s)) (read_pids f.pids) f (listed_first s f h))

  stop-stopping : (s : Saver) (f : Files) → (stop o s f).0.stopping ≡ true
  unfolding stop
  stop-stopping s f =
      if-both (λ (r : Saver × Files). r.0.stopping ≡ true) s.stopping _ _ (λ h. h) λ _. refl

  stop-reports : (s : Saver) (f : Files) → (stop o s f).0.reports ≡ s.reports
  unfolding stop
  stop-reports s f =
      if-both (λ (r : Saver × Files). r.0.reports ≡ s.reports) s.stopping _ _ (λ _. refl) λ _. refl

  act-quiet :
      (op : Op) (s : Saver) (f : Files)
      → s.stopping ≡ true
      → ((act op (s, f)).0.stopping ≡ true)
        × ((act op (s, f)).0.reports ≡ s.reports)
        × ((act op (s, f)).1 ≡ f)
  unfolding child_exited replace
  act-quiet (exits i) s f h = from (get_elem? s.children i)
    where
      from :
          (c : Option Child)
          → ((exited o i c s).stopping ≡ true) × ((exited o i c s).reports ≡ s.reports) × (f ≡ f)
      from none = (h, refl, refl)
      from (some c) = ground arith
  act-quiet (replaces i path) s f h =
      if-both
        (λ (r : Bool × (Saver × Files)).
          (r.1.0.stopping ≡ true) × (r.1.0.reports ≡ s.reports) × (r.1.1 ≡ f))
        s.stopping _ _ (λ _. (h, refl, refl)) λ no. cc

  acts-quiet :
      (ops : List Op) (s : Saver) (f : Files)
      → s.stopping ≡ true
      → ((acts ops (s, f)).0.reports ≡ s.reports) × ((acts ops (s, f)).1 ≡ f)
  acts-quiet [] s f h = (refl, refl)
  acts-quiet (op ∷ ops) s f h =
      let (still, reports, files) = act-quiet op s f h in
      let r = act op (s, f) in
      let (later, kept) = acts-quiet ops r.0 r.1 still in (later ∙ reports, kept ∙ files)

  -- As long as every write and every removal of the runtime files succeeds, a saver that is launched
  -- on one monitor at least is named by them through any exits and replacements of its modules;
  -- `Stop` then clears them, and what happens to the saver afterwards is neither reported nor
  -- written to the files. The PIDs that the system gives are those of processes.
  pub lifecycle :
      GivesPids
      → (paths : List Text) (unclutter : ℕ) (awaited : Bool) (window : ℕ) (windows : List ℕ)
        (s : Saver) (f g : Files)
      → launch o paths (some (window ∷ windows)) unclutter awaited g ≡ some (s, f)
      → (ops later : List Op)
      → let now = acts ops (s, f) in
        let ended = stop o now.0 now.1 in
        (read_pids now.1.pids ≡ pids now.0)
        × (ended.1 ≡ clear_state now.1)
        × ((acts later ended).0.reports ≡ now.0.reports)
        × ((acts later ended).1 ≡ clear_state now.1)
  lifecycle gives paths unclutter awaited window windows s f g h ops later =
      let now = acts ops (s, f) in
      let owns =
        acts-Owns gives ops s f
          (launch-Owns gives paths unclutter awaited window windows s f g h) in
      let files = stop-Owns now.0 now.1 owns in
      let ended = stop o now.0 now.1 in
      let (quiet, kept) = acts-quiet later ended.0 ended.1 (stop-stopping now.0 now.1) in
      (owns.named, files, quiet ∙ stop-reports now.0 now.1, kept ∙ files)
