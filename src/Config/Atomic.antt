-- ===== src/Config/Atomic.antt =====
-- internal/config/write.go: at no moment does `Set` leave a config file that is half written.
use retrosaver.Prelude.{
  ℕ, ◌≡◌, ◌⊎◌, inl, inr, refl, Bool, true, false, not, List, [], ◌∷◌, Option, none, some, if-both,
  if◌then◌else◌, All, Text,
}
use retrosaver.Config.{Config, defaults}
use retrosaver.Config.Parse.{
  Outcome, failed, parsed, ReadFile, missing, unreadable, holds, ParseError, parse,
}
use retrosaver.Config.Write.{
  SetError, UpdateError, render, checked, set_rendered, apply, default_file, set_config,
}
use retrosaver.Config.Edits.{Loads, set_config-Loads}
use retrosaver.Config.Disks.{
  File, Disk, Calls, Trail, then_trail, ending, renaming, closing, syncing, with_temp, setting_mode,
  temp_mode, writing, write_atomic, read_target, mode_of, write_result, set_file,
}

-- The file is the old one, or the new one whole.
abbrev pub OldOrNew : Option File → (File → Type 0) → Disk → Type 0
OldOrNew old IsNew d = (d.target ≡ old) ⊎ ((f : File) × (d.target ≡ some f) × IsNew f)

abbrev pub final : Disk → List Disk → Disk
final d [] = d
final d (x ∷ xs) = final x xs

-- At each moment the file is whole, and in the end there is no temporary file; a success leaves the
-- new file and an error the old one.
abbrev pub IsAtomic : Option File → (File → Type 0) → Disk → Trail → Type 0
IsAtomic old IsNew d (true, ds) =
    All (OldOrNew old IsNew) ds
    × ((final d ds).temp ≡ none)
    × ((f : File) × ((final d ds).target ≡ some f) × IsNew f)
IsAtomic old IsNew d (false, ds) =
    All (OldOrNew old IsNew) ds × ((final d ds).temp ≡ none) × ((final d ds).target ≡ old)

module _ (old : Option File) (IsNew : File → Type 0) where
  then_trail-IsAtomic :
      (d d' : Disk) (t : Trail)
      → OldOrNew old IsNew d'
      → IsAtomic old IsNew d' t
      → IsAtomic old IsNew d (then_trail d' t)
  then_trail-IsAtomic d d' (true, ds) h (all, gone, last) = ((h, all), gone, last)
  then_trail-IsAtomic d d' (false, ds) h (all, gone, last) = ((h, all), gone, last)

  ending-IsAtomic : (d : Disk) → d.target ≡ old → IsAtomic old IsNew d (ending false d)
  ending-IsAtomic d h = ((inl h, tt), refl, h)

  unchanged-IsAtomic :
      (d : Disk) → d.target ≡ old → d.temp ≡ none → IsAtomic old IsNew d (false, d ∷ [])
  unchanged-IsAtomic d h k = ((inl h, tt), k, h)

  -- A step that can fail.
  step-IsAtomic :
      (ok : Bool) (d : Disk) (t : Trail)
      → d.target ≡ old
      → IsAtomic old IsNew d t
      → IsAtomic old IsNew d (if ok then t else ending false d)
  step-IsAtomic ok d t h k =
      if-both (IsAtomic old IsNew d) ok t (ending false d) (λ _. k) λ _. ending-IsAtomic d h

  module _ (c : Calls) (content : Text) (mode : ℕ)
      (new : IsNew (record { bytes = content; mode = mode })) where
    renaming-IsAtomic :
        (d : Disk)
        → d.target ≡ old
        → IsAtomic old IsNew (with_temp d content mode) (renaming c (with_temp d content mode))
    renaming-IsAtomic d h =
        let f : File = record { bytes = content; mode = mode } in
        let d' : Disk = record { target = some f; temp = none } in
        let there : (g : File) × (some f ≡ some g) × IsNew g = (f, refl, new) in
        step-IsAtomic c.rename_ok (with_temp d content mode) (then_trail d' (ending true d')) h
          ((inr there, (inr there, tt)), refl, there)

    setting_mode-IsAtomic :
        (d : Disk) → d.target ≡ old → IsAtomic old IsNew d (setting_mode c content mode d)
    setting_mode-IsAtomic d h =
        let d' = with_temp d content mode in
        step-IsAtomic c.chmod_ok d (then_trail d' (syncing c d')) h (
          then_trail-IsAtomic d d' (syncing c d') (inl h) (
            step-IsAtomic c.sync_ok d' (closing c d') h
              (step-IsAtomic c.close_ok d' (renaming c d') h (renaming-IsAtomic d h))))

    writing-IsAtomic :
        (o : Option Text) (d : Disk)
        → d.target ≡ old
        → IsAtomic old IsNew d (writing c o content mode d)
    writing-IsAtomic none d h =
        let d' = with_temp d content temp_mode in
        then_trail-IsAtomic d d' (setting_mode c content mode d') (inl h)
          (setting_mode-IsAtomic d' h)
    writing-IsAtomic (some part) d h =
        let d' = with_temp d part temp_mode in
        then_trail-IsAtomic d d' (ending false d') (inl h) (ending-IsAtomic d' h)

    write_atomic-IsAtomic :
        (d : Disk)
        → d.target ≡ old
        → d.temp ≡ none
        → IsAtomic old IsNew d (write_atomic c content mode d)
    unfolding write_atomic
    write_atomic-IsAtomic d h k =
        let d' = with_temp d [] temp_mode in
        if-both (IsAtomic old IsNew d) (not c.mkdir_ok) (false, d ∷ []) _
          (λ _. unchanged-IsAtomic d h k)
          λ _.
            if-both (IsAtomic old IsNew d) (not c.create_ok) (false, d ∷ [])
              (then_trail d' (writing c c.cut content mode d')) (λ _. unchanged-IsAtomic d h k)
              λ _.
                then_trail-IsAtomic d d' (writing c c.cut content mode d') (inl h)
                  (writing-IsAtomic c.cut d' h)

-- The file that `Set` writes for updates: the text that it makes of the old one, which loads, and
-- the old mode.
abbrev pub IsSetFile : Calls → List (Text × Text) → Disk → File → Type 0
IsSetFile c updates d f =
    (set_config (read_target c d.target) updates ≡ parsed (some f.bytes))
    × Loads f.bytes
    × (f.mode ≡ mode_of c d.target)

checked-some : (edited : Text) (o : Outcome ParseError Config) → checked edited o ≡ parsed none → ⊥
checked-some edited (failed e) h = cc
checked-some edited (parsed cfg) h = cc

set_rendered-some :
    (file : ReadFile) (o : Outcome UpdateError (List (Text × Text)))
    → set_rendered file o ≡ parsed none
    → ⊥
set_rendered-some file (failed e) h = cc
set_rendered-some missing (parsed r) h =
    checked-some (apply default_file r) (parse (apply default_file r) defaults) h
set_rendered-some unreadable (parsed r) h = cc
set_rendered-some (holds content) (parsed r) h =
    checked-some (apply content r) (parse (apply content r) defaults) h

nothing_written :
    (file : ReadFile) (u : Text × Text) (us : List (Text × Text))
    → set_config file (u ∷ us) ≡ parsed none
    → ⊥
unfolding set_config
nothing_written file u us h = set_rendered-some file (render (u ∷ us)) h

-- `Set` of some updates changes the file at one moment: whatever fails and whenever it is
-- interrupted, the path holds the old file or the new one whole, which loads without an error and
-- has the mode that the old one is found to have, or 644. A success has left the new file, an error
-- the old one, and in the end there is no temporary file, if the removal of one does not fail. When
-- `Set` starts there is none.
pub set_file-IsAtomic :
    (c : Calls) (u : Text × Text) (us : List (Text × Text)) (d : Disk)
    → d.temp ≡ none
    → IsAtomic d.target (IsSetFile c (u ∷ us) d) d (set_file c (u ∷ us) d)
unfolding set_file
set_file-IsAtomic c u us d k = result (set_config (read_target c d.target) (u ∷ us)) refl
  where
    result :
        (o : Outcome SetError (Option Text))
        → set_config (read_target c d.target) (u ∷ us) ≡ o
        → IsAtomic d.target (IsSetFile c (u ∷ us) d) d (write_result c d o)
    result (failed e) h = unchanged-IsAtomic d.target (IsSetFile c (u ∷ us) d) d refl k
    result (parsed none) h = absurd (nothing_written (read_target c d.target) u us h)
    result (parsed (some text)) h =
        write_atomic-IsAtomic d.target (IsSetFile c (u ∷ us) d) c text (mode_of c d.target)
          (h, set_config-Loads (read_target c d.target) (u ∷ us) text h, refl) d refl k
