-- ===== src/Backends/HarmonyG2/Session/Atomic.antt =====
-- What a saving does to the session file and to the temporary file.
use smartenit_rescue.Prelude.Result.{err, ok, Result, raised, returned, attempted, Attempt, Text}
use smartenit_rescue.Prelude.Exec.{modify, finally, lift, Exec}
use smartenit_rescue.Prelude.Exec.Ends.{
  Keeps-Ends, Ends-weaken, Ends-finally, Ends-or_finish, Ends-bind, Ends, Ended,
}
use smartenit_rescue.Prelude.Exec.Keeps.{Keeps-finally, Keeps}
use smartenit_rescue.Prelude.Text.{codes}
use smartenit_rescue.Prelude.{
  inr, inl, ◌⊎◌, ◌∙◌, ap, ◌&&◌, not, ℕ, suc, ◌+◌, List, [], ◌∷◌, ◌++◌, Bool, true, false,
  if◌then◌else◌, ◌≡◌, refl, arith,
}
use smartenit_rescue.Backends.HarmonyG2.Session.Saving.{
  replace_session, commit, do_call, write_out, fill_temporary,
}
use smartenit_rescue.Backends.HarmonyG2.Session.Store.{
  close_parent, sync_parent, open_parent, fstat_file, validate_directory, checked_status,
  os_error_as, open_file, read_file, validate_parent, existing_file_status, catching, set_mode,
  write_file, flush_file, sync_file, close_file, parent_lstat, has_returned, file_lstat,
  remove_temporary, ask, replace_file, make_temporary, FileCall, Disk, Files, Entry,
}

unfoldable pub is_replacement : Entry → Bool
is_replacement (replace_file, b) = b
is_replacement _ = false

unfoldable pub is_creation : Entry → Bool
is_creation (make_temporary, b) = b
is_creation _ = false

unfoldable pub is_removal : Entry → Bool
is_removal (remove_temporary, b) = true
is_removal _ = false

-- The replacements and the creations that returned, and the removals that were tried.
unfoldable pub tally : (Entry → Bool) → List Entry → ℕ
tally p [] = 0
tally p (e ∷ l) = if p e then suc (tally p l) else tally p l

unfoldable pub bit : Bool → ℕ
bit true = 1
bit false = 0

-- The calls of a saving that commits, up to the replacement of the session file.
abbrev pub committing : Text → List Entry → List Entry
committing encoded l =
    (replace_file, true)
    ∷ (file_lstat, true)
    ∷ (parent_lstat, true)
    ∷ (close_file, true)
    ∷ (sync_file, true)
    ∷ (flush_file, true)
    ∷ (write_file encoded, true)
    ∷ (set_mode 0o600, true)
    ∷ (make_temporary, true)
    ∷ l

unfoldable pub is_neutral : FileCall → Bool
unfolding is_replacement is_creation is_removal
is_neutral c =
    not (is_replacement (c, true)) && (not (is_creation (c, true)) && not (is_removal (c, true)))

-- A call that is none of the three changes no tally.
record SameCounts (l l' : List Entry) : Type 0 where
  replacements : tally is_replacement l' ≡ tally is_replacement l
  removals : tally is_removal l' ≡ tally is_removal l
  creations : tally is_creation l' ≡ tally is_creation l

neutral-SameCounts :
    (c : FileCall) (b : Bool) (l : List Entry) → is_neutral c ≡ true → SameCounts l ((c, b) ∷ l)
unfolding is_neutral tally is_replacement is_creation is_removal
neutral-SameCounts parent_lstat b l h = record {
  replacements = refl;
  removals = refl;
  creations = refl;
}
neutral-SameCounts file_lstat b l h = record {
  replacements = refl;
  removals = refl;
  creations = refl;
}
neutral-SameCounts open_file b l h = record {
  replacements = refl;
  removals = refl;
  creations = refl;
}
neutral-SameCounts fstat_file b l h = record {
  replacements = refl;
  removals = refl;
  creations = refl;
}
neutral-SameCounts close_file b l h = record {
  replacements = refl;
  removals = refl;
  creations = refl;
}
neutral-SameCounts (read_file k) b l h = record {
  replacements = refl;
  removals = refl;
  creations = refl;
}
neutral-SameCounts (set_mode m) b l h = record {
  replacements = refl;
  removals = refl;
  creations = refl;
}
neutral-SameCounts make_temporary b l h = cc
neutral-SameCounts flush_file b l h = record {
  replacements = refl;
  removals = refl;
  creations = refl;
}
neutral-SameCounts sync_file b l h = record {
  replacements = refl;
  removals = refl;
  creations = refl;
}
neutral-SameCounts replace_file b l h = cc
neutral-SameCounts remove_temporary b l h = cc
neutral-SameCounts (write_file t) b l h = record {
  replacements = refl;
  removals = refl;
  creations = refl;
}
neutral-SameCounts open_parent b l h = record {
  replacements = refl;
  removals = refl;
  creations = refl;
}
neutral-SameCounts sync_parent b l h = record {
  replacements = refl;
  removals = refl;
  creations = refl;
}
neutral-SameCounts close_parent b l h = record {
  replacements = refl;
  removals = refl;
  creations = refl;
}

module _ (files : Files) (l0 : List Entry) where
  pub record Tallies (l : List Entry) (t : Bool) : Type 0 where
    pub replacements : tally is_replacement l ≡ tally is_replacement l0
    pub removals : tally is_removal l ≡ tally is_removal l0
    pub creations : tally is_creation l ≡ bit t + tally is_creation l0

  -- Nothing is committed, and these are the calls.
  pub record Stage (l : List Entry) (t : Bool) (s : Disk) : Type 0 where
    pub calls : s.calls ≡ l
    pub temporary : s.temporary ≡ t
    pub uncommitted : s.committed ≡ false

  pub record Failed (s : Disk) : Type 0 where
    pub tallies : Tallies s.calls s.temporary
    pub uncommitted : s.committed ≡ false

  pub record Done (encoded : Text) (s : Disk) : Type 0 where
    pub committed : s.committed ≡ true
    pub replacements : tally is_replacement s.calls ≡ suc (tally is_replacement l0)
    pub removals : tally is_removal s.calls ≡ tally is_removal l0
    pub creations : tally is_creation s.calls ≡ suc (tally is_creation l0)
    pub before : (after : List Entry) × (s.calls ≡ after ++ committing encoded l0)

  pub Stage-Failed : (l : List Entry) (t : Bool) (s : Disk) → Tallies l t → Stage l t s → Failed s
  Stage-Failed l t s k h = record {
    tallies = rw (h.calls, h.temporary) k;
    uncommitted = h.uncommitted;
  }

  ask-Stage :
      {A : Type 0} (c : FileCall) (answer : List Entry → Attempt A) (l : List Entry) (t : Bool)
      → Tallies ((c, false) ∷ l) t
      → Ends (Stage l t) (ask c answer) (λ _. Stage ((c, true) ∷ l) t) (λ _. Failed)
  unfolding ask has_returned
  ask-Stage {A} c answer l t k = record { at = λ s h. go (answer s.calls) s h }
    where
      go :
          (a : Attempt A) (s : Disk)
          → Stage l t s
          → Ended
              (λ _. Stage ((c, true) ∷ l) t)
              (λ _. Failed)
              (attempted a)
              (record s { calls = (c, has_returned a) ∷ s.calls })
      go (returned a) s h = record {
        calls = ap (λ x. (c, true) ∷ x) h.calls;
        temporary = h.temporary;
        uncommitted = h.uncommitted;
      }
      go (raised e) s h = Stage-Failed ((c, false) ∷ l) t _ k (record {
        calls = ap (λ x. (c, false) ∷ x) h.calls;
        temporary = h.temporary;
        uncommitted = h.uncommitted;
      })

  ask-Failed :
      {A : Type 0} (c : FileCall) (answer : List Entry → Attempt A)
      → is_neutral c ≡ true
      → Keeps Failed (ask c answer)
  unfolding ask
  ask-Failed c answer n = record {
    at = λ s h.
        let same = neutral-SameCounts c (has_returned (answer s.calls)) s.calls n in
        record {
          tallies = record {
            replacements = same.replacements ∙ h.tallies.replacements;
            removals = same.removals ∙ h.tallies.removals;
            creations = same.creations ∙ h.tallies.creations;
          };
          uncommitted = h.uncommitted;
        };
  }

  ask-Done :
      {A : Type 0} (encoded : Text) (c : FileCall) (answer : List Entry → Attempt A)
      → is_neutral c ≡ true
      → Keeps (Done encoded) (ask c answer)
  unfolding ask
  ask-Done encoded c answer n = record {
    at = λ s h.
        let same = neutral-SameCounts c (has_returned (answer s.calls)) s.calls n in
        let (after, e) = h.before in
        record {
          committed = h.committed;
          replacements = same.replacements ∙ h.replacements;
          removals = same.removals ∙ h.removals;
          creations = same.creations ∙ h.creations;
          before = (
            (c, has_returned (answer s.calls)) ∷ after,
            ap (λ x. (c, has_returned (answer s.calls)) ∷ x) e,
          );
        };
  }

  -- A list of calls whose last one counts for nothing.
  pub step-Tallies :
      (c : FileCall) (b : Bool) (l : List Entry) (t : Bool)
      → is_neutral c ≡ true
      → Tallies l t
      → Tallies ((c, b) ∷ l) t
  step-Tallies c b l t n h =
      let same = neutral-SameCounts c b l n in
      record {
        replacements = same.replacements ∙ h.replacements;
        removals = same.removals ∙ h.removals;
        creations = same.creations ∙ h.creations;
      }

  -- A neutral call of one stage.
  call-Stage :
      {A : Type 0} (c : FileCall) (answer : List Entry → Attempt A) (l : List Entry) (t : Bool)
      → is_neutral c ≡ true
      → Tallies l t
      → Ends (Stage l t) (ask c answer) (λ _. Stage ((c, true) ∷ l) t) (λ _. Failed)
  call-Stage c answer l t n k = ask-Stage c answer l t (step-Tallies c false l t n k)

  -- A check that changes nothing.
  lift-Stage :
      {A : Type 0} (r : Result A) (l : List Entry) (t : Bool)
      → Tallies l t
      → Ends (Stage l t) (lift r) (λ _. Stage l t) (λ _. Failed)
  lift-Stage (ok a) l t k = record { at = λ s h. h }
  lift-Stage (err e) l t k = record { at = λ s h. Stage-Failed l t s k h }

  catching-Ends :
      {A : Type 0} {P Q E : Disk → Type 0} (message : Text) (m : Exec Disk A)
      → Ends P m (λ _. Q) (λ _. E)
      → Ends P (catching (os_error_as message) m) (λ _. Q) (λ _. E)
  unfolding catching os_error_as
  catching-Ends {A} {P} {Q} {E} message m k = record { at = λ s h. go (m s).0 (m s).1 (k.at s h) }
    where
      go :
          (r : Result A) (s : Disk)
          → Ended (λ _. Q) (λ _. E) r s
          → Ended (λ _. Q) (λ _. E) (os_error_as message r) s
      go (ok a) s h = h
      go (err e) s h = h

  pub validate_parent-Stage :
      (l : List Entry) (t : Bool)
      → Tallies l t
      → Ends
          (Stage l t)
          (validate_parent files)
          (λ _. Stage ((parent_lstat, true) ∷ l) t)
          (λ _. Failed)
  unfolding validate_parent is_neutral
  validate_parent-Stage l t k =
      Ends-bind
        (catching (os_error_as (codes "local session parent directory is required"))
          (ask parent_lstat files.parent_status))
        _ (catching-Ends _ _ (call-Stage parent_lstat files.parent_status l t refl k))
        λ status.
          lift-Stage (validate_directory status) _ t (step-Tallies parent_lstat true l t refl k)

  pub existing_file_status-Stage :
      (l : List Entry) (t : Bool)
      → Tallies l t
      → Ends
          (Stage l t)
          (existing_file_status files)
          (λ _. Stage ((file_lstat, true) ∷ l) t)
          (λ _. Failed)
  unfolding existing_file_status is_neutral
  existing_file_status-Stage l t k =
      Ends-bind
        (catching (os_error_as (codes "cannot inspect local session file"))
          (ask file_lstat files.file_status))
        _ (catching-Ends _ _ (call-Stage file_lstat files.file_status l t refl k))
        λ status.
          lift-Stage (checked_status files status) _ t (step-Tallies file_lstat true l t refl k)

  -- The closing of the temporary file, whatever the block in it did.
  closing-Ends :
      {A : Type 0} (m : Exec Disk A) (l l' : List Entry)
      → Tallies l' true
      → Ends (Stage l true) m (λ _. Stage l' true) (λ _. Failed)
      → Ends
          (Stage l true)
          (finally m (do_call files close_file))
          (λ _. Stage ((close_file, true) ∷ l') true)
          (λ _. Failed)
  unfolding do_call is_neutral
  closing-Ends m l l' k km =
      Ends-finally m (do_call files close_file) km (call-Stage close_file _ l' true refl k)
        (ask-Failed close_file _ refl)

  write_out-Stage :
      (encoded : Text) (l : List Entry)
      → Tallies l true
      → Ends
          (Stage l true)
          (write_out files encoded)
          (λ _.
            Stage
              ((close_file, true)
                ∷ (sync_file, true)
                ∷ (flush_file, true)
                ∷ (write_file encoded, true)
                ∷ l)
              true)
          (λ _. Failed)
  unfolding write_out do_call is_neutral
  write_out-Stage encoded l k = closing-Ends _ l _ k2 (
      Ends-bind (do_call files (write_file encoded)) _
        (call-Stage (write_file encoded) _ l true refl k)
        λ _.
          Ends-bind (do_call files flush_file) _ (call-Stage flush_file _ _ true refl k1)
            λ _. call-Stage sync_file _ _ true refl k3)
    where
      k1 : Tallies ((write_file encoded, true) ∷ l) true
      k1 = step-Tallies (write_file encoded) true l true refl k

      k3 : Tallies ((flush_file, true) ∷ (write_file encoded, true) ∷ l) true
      k3 = step-Tallies flush_file true _ true refl k1

      k2 : Tallies ((sync_file, true) ∷ (flush_file, true) ∷ (write_file encoded, true) ∷ l) true
      k2 = step-Tallies sync_file true _ true refl k3

  fill_temporary-Stage :
      (encoded : Text) (l : List Entry)
      → Tallies l true
      → Ends
          (Stage l true)
          (fill_temporary files encoded)
          (λ _.
            Stage
              ((close_file, true)
                ∷ (sync_file, true)
                ∷ (flush_file, true)
                ∷ (write_file encoded, true)
                ∷ (set_mode 0o600, true)
                ∷ l)
              true)
          (λ _. Failed)
  unfolding fill_temporary do_call is_neutral
  fill_temporary-Stage encoded l k =
      Ends-or_finish (do_call files (set_mode 0o600)) (write_out files encoded)
        (do_call files close_file) (call-Stage (set_mode 0o600) _ l true refl k)
        (write_out-Stage encoded _ (step-Tallies (set_mode 0o600) true l true refl k))
        (ask-Failed close_file _ refl)

  -- The end of an action behind which the file may be replaced or not.
  unfoldable pub Finished : Text → Disk → Type 0
  Finished encoded s = Failed s ⊎ Done encoded s

  made-Tallies : (l : List Entry) → Tallies l false → Tallies ((make_temporary, true) ∷ l) true
  unfolding tally is_replacement is_creation is_removal bit
  made-Tallies l k = record {
    replacements = k.replacements;
    removals = k.removals;
    creations = omega (arith, k.creations);
  }

  unmade-Tallies : (l : List Entry) → Tallies l false → Tallies ((make_temporary, false) ∷ l) false
  unfolding tally is_replacement is_creation is_removal bit
  unmade-Tallies l k = record {
    replacements = k.replacements;
    removals = k.removals;
    creations = k.creations;
  }

  unreplaced-Tallies : (l : List Entry) → Tallies l true → Tallies ((replace_file, false) ∷ l) true
  unfolding tally is_replacement is_creation is_removal
  unreplaced-Tallies l k = record {
    replacements = k.replacements;
    removals = k.removals;
    creations = k.creations;
  }

  module _ (encoded : Text) where
    early :
        {A : Type 0} {P Q : Disk → Type 0} (m : Exec Disk A)
        → Ends P m (λ _. Q) (λ _. Failed)
        → Ends P m (λ _. Q) (λ _. Finished encoded)
    unfolding Finished
    early {Q = Q} m k = Ends-weaken Q (Finished encoded) (λ s h. h) (λ s h. inl h) m k

    late :
        {A : Type 0} (m : Exec Disk A)
        → Keeps (Done encoded) m
        → Ends (Done encoded) m (λ _. Done encoded) (λ _. Finished encoded)
    unfolding Finished
    late m k =
        Ends-weaken (Done encoded) (Finished encoded) (λ s h. h) (λ s h. inr h) m (Keeps-Ends m k)

    -- the calls before the replacement
    abbrev prepared : List Entry
    prepared =
        (file_lstat, true)
        ∷ (parent_lstat, true)
        ∷ (close_file, true)
        ∷ (sync_file, true)
        ∷ (flush_file, true)
        ∷ (write_file encoded, true)
        ∷ (set_mode 0o600, true)
        ∷ (make_temporary, true)
        ∷ l0

    marked-Done :
        (s : Disk)
        → Tallies prepared true
        → Stage ((replace_file, true) ∷ prepared) true s
        → Done encoded (record s { committed = true })
    unfolding tally is_replacement is_creation is_removal bit
    marked-Done s k h = record {
      committed = refl;
      replacements = rw h.calls (ap suc k.replacements);
      removals = rw h.calls k.removals;
      creations = rw h.calls (k.creations ∙ omega arith);
      before = ([], h.calls);
    }

    commit-Ends :
        Tallies prepared true
        → Ends (Stage prepared true) (commit files) (λ _. Done encoded) (λ _. Finished encoded)
    unfolding commit do_call is_neutral
    commit-Ends k =
        Ends-bind (do_call files replace_file) _
          (early _ (ask-Stage replace_file _ prepared true (unreplaced-Tallies prepared k)))
          λ _.
            Ends-bind {Q = λ _. Done encoded} (modify (λ (s : Disk). record s { committed = true }))
              _ (record { at = λ s h. marked-Done s k h })
              λ _.
                Ends-bind (do_call files open_parent) _
                  (late _ (ask-Done encoded open_parent _ refl))
                  λ _. late (finally (do_call files sync_parent) (do_call files close_parent)) (
                    Keeps-finally _ _ (ask-Done encoded sync_parent _ refl)
                      (ask-Done encoded close_parent _ refl))

    pub start-Tallies : Tallies l0 false
    unfolding bit
    start-Tallies = record { replacements = refl; removals = refl; creations = omega arith }

    pub replace_session-Ends :
        Ends
          (Stage l0 false)
          (replace_session files encoded)
          (λ _. Done encoded)
          (λ _. Finished encoded)
    unfolding replace_session do_call is_neutral
    replace_session-Ends =
        Ends-bind (do_call files make_temporary) _
          (early _ (ask-Stage make_temporary _ l0 false (unmade-Tallies l0 start-Tallies)))
          λ _.
            Ends-bind {Q = λ _. Stage ((make_temporary, true) ∷ l0) true}
              (modify (λ (s : Disk). record s { temporary = true })) _
              (record {
                at = λ s h. record {
                  calls = h.calls;
                  temporary = refl;
                  uncommitted = h.uncommitted;
                };
              })
              λ _.
                Ends-bind (fill_temporary files encoded) _
                  (early _ (fill_temporary-Stage encoded _ k0))
                  λ _.
                    Ends-bind (validate_parent files) _ (early _ (validate_parent-Stage _ true k4))
                      λ _.
                        Ends-bind (existing_file_status files) _
                          (early _ (existing_file_status-Stage _ true k5))
                          λ status. commit-Ends (step-Tallies file_lstat true _ true refl k5)
      where
        k0 : Tallies ((make_temporary, true) ∷ l0) true
        k0 = made-Tallies l0 start-Tallies

        k4 :
            Tallies
              ((close_file, true)
                ∷ (sync_file, true)
                ∷ (flush_file, true)
                ∷ (write_file encoded, true)
                ∷ (set_mode 0o600, true)
                ∷ (make_temporary, true)
                ∷ l0)
              true
        k4 = step-Tallies close_file true _ true refl (
            step-Tallies sync_file true _ true refl (
              step-Tallies flush_file true _ true refl (
                step-Tallies (write_file encoded) true _ true refl
                  (step-Tallies (set_mode 0o600) true _ true refl k0))))

        k5 :
            Tallies
              ((parent_lstat, true)
                ∷ (close_file, true)
                ∷ (sync_file, true)
                ∷ (flush_file, true)
                ∷ (write_file encoded, true)
                ∷ (set_mode 0o600, true)
                ∷ (make_temporary, true)
                ∷ l0)
              true
        k5 = step-Tallies parent_lstat true _ true refl k4
