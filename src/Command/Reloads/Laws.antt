-- ===== src/Command/Reloads/Laws.antt =====
-- cmd/retrosaver/main.go and internal/watch/watch.go: no edit of the config file is lost on its way
-- to the daemon.
use retrosaver.Prelude.{
  ℕ, zero, suc, ◌≡◌, ◌⊎◌, inl, inr, refl, sym, ◌∙◌, Bool, true, false, ◌||◌, List, [], ◌∷◌, ◌++◌,
  arith, Bool-cases, length, Text, ◌==◌,
}
use retrosaver.Watch.{mentions, mentions_from, step}
use retrosaver.Command.Reloads.{
  Chain, Change, edited, other_file, reads, receives, settles, forwards, hangs_up, hup_forwards,
  reloads, read_fails, cancels, reading, reloading, change, changes, started,
}

module _ (name : Text) where
  -- No failure of the reader and no cancellation, and the kernel reports each edit under the file's
  -- name.
  abbrev pub IsReported : List Change → Type 0
  IsReported [] = Unit
  IsReported (edited text buf ∷ es) = (mentions buf name ≡ true) × IsReported es
  IsReported (read_fails ∷ es) = ⊥
  IsReported (cancels ∷ es) = ⊥
  IsReported (_ ∷ es) = IsReported es

  any_mentions : List Text → Bool
  any_mentions [] = false
  any_mentions (buf ∷ bufs) = mentions buf name || any_mentions bufs

  -- A reload is on its way, behind the kernel.
  abbrev on_its_way : Chain → Bool
  on_its_way c = c.reader.queued || c.watch.timer || c.watch.pending || c.triggers.pending

  -- The watch and the triggers run, and an edit that is not read is on its way.
  record IsLive (c : Chain) : Type 0 where
    reads_on : c.reader.stopped ≡ false
    watch_open : c.watch.closed ≡ false
    watching : c.triggers.watching ≡ true
    not_stopped : c.triggers.stopped ≡ false
    noted : (c.loaded ≡ c.content) ⊎ ((any_mentions c.kernel || on_its_way c) ≡ true)

  any_mentions-append :
      (bufs : List Text) (buf : Text)
      → any_mentions (bufs ++ buf ∷ []) ≡ (any_mentions bufs || mentions buf name)
  unfolding any_mentions
  any_mentions-append [] buf = ground arith
  any_mentions-append (b ∷ bufs) buf = rw (any_mentions-append bufs buf) (ground arith)

  mentions-bytes : (buf : Text) → mentions buf name ≡ true → (length buf == 0) ≡ false
  unfolding mentions mentions_from
  mentions-bytes [] h = cc
  mentions-bytes (c ∷ cs) h = ground arith

  read-noted :
      (buf : Text) (bufs : List Text) (c : Chain)
      → c.reader.stopped ≡ false
      → ((mentions buf name || any_mentions bufs) || on_its_way c) ≡ true
      → (any_mentions bufs || on_its_way (reading name (buf ∷ bufs) c)) ≡ true
  read-noted buf bufs c live h = ground (arith, mentions-bytes buf)

  reading-IsLive :
      (bufs : List Text) (c : Chain) → c.kernel ≡ bufs → IsLive c → IsLive (reading name bufs c)
  unfolding any_mentions
  reading-IsLive [] c k l = l
  reading-IsLive (buf ∷ bufs) c k l = record {
    reads_on = ground (arith, l.reads_on);
    watch_open = l.watch_open;
    watching = l.watching;
    not_stopped = l.not_stopped;
    noted = elim l.noted [
      | inl e ↦ inl e
      | inr e ↦ inr (read-noted buf bufs c l.reads_on (rw k at e))
    ];
  }

  change-IsLive :
      (e : Change) (es : List Change) (c : Chain)
      → IsReported (e ∷ es)
      → IsLive c
      → IsLive (change name e c)
  unfolding change step any_mentions
  change-IsLive (edited text buf) es c r l = record {
    reads_on = l.reads_on;
    watch_open = l.watch_open;
    watching = l.watching;
    not_stopped = l.not_stopped;
    noted = inr (rw (any_mentions-append c.kernel buf) (rw (r.0) (ground arith)));
  }
  change-IsLive (other_file buf) es c r l = record {
    reads_on = l.reads_on;
    watch_open = l.watch_open;
    watching = l.watching;
    not_stopped = l.not_stopped;
    noted = elim l.noted [
      | inl e ↦ inl e
      | inr e ↦ inr (rw (any_mentions-append c.kernel buf) (ground arith))
    ];
  }
  change-IsLive reads es c r l = reading-IsLive c.kernel c refl l
  change-IsLive receives es c r l = record {
    reads_on = ground (arith, l.reads_on, l.watch_open, l.watching, l.not_stopped, l.noted);
    watch_open = ground (arith, l.reads_on, l.watch_open, l.watching, l.not_stopped, l.noted);
    watching = ground (arith, l.reads_on, l.watch_open, l.watching, l.not_stopped, l.noted);
    not_stopped = ground (arith, l.reads_on, l.watch_open, l.watching, l.not_stopped, l.noted);
    noted = ground (arith, l.reads_on, l.watch_open, l.watching, l.not_stopped, l.noted);
  }
  change-IsLive settles es c r l = record {
    reads_on = l.reads_on;
    watch_open = ground (arith, l.watch_open);
    watching = l.watching;
    not_stopped = l.not_stopped;
    noted = ground (arith, l.noted);
  }
  change-IsLive forwards es c r l = record {
    reads_on = ground (arith, l.reads_on, l.watch_open, l.watching, l.not_stopped, l.noted);
    watch_open = ground (arith, l.reads_on, l.watch_open, l.watching, l.not_stopped, l.noted);
    watching = ground (arith, l.reads_on, l.watch_open, l.watching, l.not_stopped, l.noted);
    not_stopped = ground (arith, l.reads_on, l.watch_open, l.watching, l.not_stopped, l.noted);
    noted = ground (arith, l.reads_on, l.watch_open, l.watching, l.not_stopped, l.noted);
  }
  change-IsLive hangs_up es c r l = record {
    reads_on = l.reads_on;
    watch_open = l.watch_open;
    watching = l.watching;
    not_stopped = l.not_stopped;
    noted = l.noted;
  }
  change-IsLive hup_forwards es c r l = record {
    reads_on = ground (arith, l.reads_on, l.watch_open, l.watching, l.not_stopped, l.noted);
    watch_open = ground (arith, l.reads_on, l.watch_open, l.watching, l.not_stopped, l.noted);
    watching = ground (arith, l.reads_on, l.watch_open, l.watching, l.not_stopped, l.noted);
    not_stopped = ground (arith, l.reads_on, l.watch_open, l.watching, l.not_stopped, l.noted);
    noted = ground (arith, l.reads_on, l.watch_open, l.watching, l.not_stopped, l.noted);
  }
  change-IsLive reloads es c r l = record {
    reads_on = ground (arith, l.reads_on, l.watch_open, l.watching, l.not_stopped, l.noted);
    watch_open = ground (arith, l.reads_on, l.watch_open, l.watching, l.not_stopped, l.noted);
    watching = ground (arith, l.reads_on, l.watch_open, l.watching, l.not_stopped, l.noted);
    not_stopped = ground (arith, l.reads_on, l.watch_open, l.watching, l.not_stopped, l.noted);
    noted = ground (arith, l.reads_on, l.watch_open, l.watching, l.not_stopped, l.noted);
  }
  change-IsLive read_fails es c r l = absurd r
  change-IsLive cancels es c r l = absurd r

  changes-IsLive :
      (es : List Change) (c : Chain) → IsReported es → IsLive c → IsLive (changes name es c)
  unfolding changes
  changes-IsLive [] c r l = l
  changes-IsLive (e ∷ es) c r l =
      changes-IsLive es (change name e c) (later e es r) (change-IsLive e es c r l)
    where
      later : (e : Change) (es : List Change) → IsReported (e ∷ es) → IsReported es
      later (edited text buf) es r = r.1
      later read_fails es r = absurd r
      later cancels es r = absurd r
      later _ es r = r

  started-IsLive : (text : Text) → IsLive (started text)
  started-IsLive text = record {
    reads_on = refl;
    watch_open = refl;
    watching = refl;
    not_stopped = refl;
    noted = inl refl;
  }

-- What is left to do for what the kernel has reported in `n` batches.
unfoldable pub rest : ℕ → List Change
rest zero = receives ∷ settles ∷ forwards ∷ reloads ∷ []
rest (suc n) = reads ∷ rest n

reloading-loads :
    (c : Chain)
    → (c.loaded ≡ c.content) ⊎ (c.triggers.pending ≡ true)
    → (reloading c).loaded ≡ c.content
reloading-loads c (inl e) = elim (Bool-cases c.triggers.pending) [
  | inl p ↦ rw p refl
  | inr p ↦ rw p e
]
reloading-loads c (inr p) = rw p refl

module _ (name : Text) where
  -- What is on its way reaches the daemon's channel.
  three_steps :
      (c : Chain)
      → IsLive name c
      → on_its_way name c ≡ true
      → (change name forwards (change name settles (change name receives c))).triggers.pending
        ≡ true
  unfolding change step
  three_steps c l h = ground (arith, l.reads_on, l.watch_open, l.watching, l.not_stopped)

  untouched :
      (c : Chain)
      → ((change name forwards (change name settles (change name receives c))).loaded ≡ c.loaded)
        × ((change name forwards (change name settles (change name receives c))).content
            ≡ c.content)
  unfolding change step
  untouched c = ground arith

  rest-loads :
      (bufs : List Text) (c : Chain)
      → c.kernel ≡ bufs
      → IsLive name c
      → (changes name (rest (length bufs)) c).loaded ≡ c.content
  unfolding rest changes change any_mentions
  rest-loads [] c k l =
      let c' = change name forwards (change name settles (change name receives c)) in
      let (same_loaded, same_content) = untouched c in
      reloading-loads c' (elim l.noted [
        | inl e ↦ inl (same_loaded ∙ e ∙ sym same_content)
        | inr e ↦ inr (three_steps c l (rw k at e))
      ])
      ∙ same_content
  rest-loads (buf ∷ bufs) c k l =
      rw k (
        rest-loads bufs (reading name (buf ∷ bufs) c) refl (reading-IsLive name (buf ∷ bufs) c k l))

  -- No edit of the config file is lost: from the start of the watch, when the daemon has read what
  -- the file holds, and whatever happens but a failure of the reader and a cancellation, the daemon
  -- has loaded what the file holds once what is left to do is done. Edits, reads, timers, SIGHUPs
  -- and reloads come in any order; the kernel reports each edit by an event with the file's name.
  pub changes-loaded :
      (text : Text) (es : List Change)
      → IsReported name es
      → (changes name
          (rest (length (changes name es (started text)).kernel))
          (changes name es (started text))).loaded
        ≡ (changes name es (started text)).content
  changes-loaded text es r =
      let c = changes name es (started text) in
      rest-loads c.kernel c refl
        (changes-IsLive name es (started text) r (started-IsLive name text))
