-- ===== src/Backends/HarmonyG2/Session/Replacement.antt =====
-- The saving of a session, from its checks to its end.
use smartenit_rescue.Prelude.Result.{Error, err, ok, Attempt, Result, Text}
use smartenit_rescue.Prelude.Exec.{lift, Exec}
use smartenit_rescue.Prelude.Exec.Ends.{Ends-and, Ends-weaken, Ends-bind, Ends, Ended}
use smartenit_rescue.Prelude.Exec.Keeps.{Keeps-lift, Keeps-bind, Keeps}
use smartenit_rescue.Prelude.Text.{codes}
use smartenit_rescue.Prelude.{inr, inl, ◌⊎◌, ◌+◌, List, [], ◌∷◌, true, false, ◌≡◌, refl, arith}
use smartenit_rescue.Backends.HarmonyG2.Session.Outcome.{
  IsUndone, store-Outcome, Outcome, IsReplaced,
}
use smartenit_rescue.Backends.HarmonyG2.Session.Saving.{save, store, encoded_session}
use smartenit_rescue.Backends.HarmonyG2.Session.Atomic.{
  existing_file_status-Stage, validate_parent-Stage, Stage-Failed, step-Tallies, start-Tallies,
  Tallies, Stage, is_neutral, is_creation, is_removal, is_replacement, Failed, bit, tally,
}
use smartenit_rescue.Backends.HarmonyG2.Session.{LocalSession}
use smartenit_rescue.Backends.HarmonyG2.Session.Store.{
  validate_directory, checked_status, os_error_as, FileCall, parent_lstat, Disk, file_lstat, ask,
  existing_file_status, validate_parent, catching, Entry, Files,
}

module _ (files : Files) (session : LocalSession) (calls : List Entry) where
  -- the object, before it is called
  abbrev pub at_rest : Disk
  at_rest = record { calls = calls; temporary = false; committed = false }

  abbrev pub checked_calls : List Entry
  checked_calls = (file_lstat, true) ∷ (parent_lstat, true) ∷ calls

  -- The text of the session is stored behind the first checks.
  abbrev pub IsSaved : Disk → Type 0
  IsSaved s =
      (encoded : Text) × (encoded_session files session ≡ ok encoded)
      × IsReplaced encoded checked_calls s

  HasTidied : Disk → Type 0
  HasTidied s =
      (tally is_replacement s.calls ≡ tally is_replacement calls)
      × (tally is_removal s.calls + tally is_creation calls
          ≡ tally is_removal calls + tally is_creation s.calls)

  Stopped : Disk → Type 0
  Stopped s = HasTidied s ⊎ IsSaved s

  abbrev HasNone : Disk → Type 0
  HasNone s = s.temporary ≡ false

  Failed-Stopped : (s : Disk) → Failed files calls s × HasNone s → Stopped s
  unfolding Stopped HasTidied bit
  Failed-Stopped s (k, none_made) =
      let made = rw none_made at k.tallies.creations in
      inl (k.tallies.replacements, omega (arith, made, k.tallies.removals))

  ask-HasNone :
      {A : Type 0} (c : FileCall) (answer : List Entry → Attempt A) → Keeps HasNone (ask c answer)
  unfolding ask
  ask-HasNone c answer = record { at = λ s h. h }

  catching-HasNone :
      {A : Type 0} (f : Result A → Result A) (m : Exec Disk A)
      → Keeps HasNone m
      → Keeps HasNone (catching f m)
  unfolding catching
  catching-HasNone f m k = record { at = k.at }

  validate_parent-HasNone : Keeps HasNone (validate_parent files)
  unfolding validate_parent
  validate_parent-HasNone =
      Keeps-bind
        (catching (os_error_as (codes "local session parent directory is required"))
          (ask parent_lstat files.parent_status))
        _ (catching-HasNone _ _ (ask-HasNone _ _)) λ status. Keeps-lift (validate_directory status)

  existing_file_status-HasNone : Keeps HasNone (existing_file_status files)
  unfolding existing_file_status
  existing_file_status-HasNone =
      Keeps-bind
        (catching (os_error_as (codes "cannot inspect local session file"))
          (ask file_lstat files.file_status))
        _ (catching-HasNone _ _ (ask-HasNone _ _))
        λ status. Keeps-lift (checked_status files status)

  store-Ends :
      (encoded : Text)
      → Ends
          (λ s. (encoded_session files session ≡ ok encoded) × (s.calls ≡ checked_calls))
          (store files encoded)
          (λ _. IsSaved)
          (λ _. Stopped)
  unfolding Stopped HasTidied tally is_replacement is_removal is_creation
  store-Ends encoded = record {
    at = λ s h. go s h.0 h.1 (store files encoded s) (store-Outcome files encoded s);
  }
    where
      go :
          (s : Disk)
          → encoded_session files session ≡ ok encoded
          → s.calls ≡ checked_calls
          → (q : Result (Unit {0}) × Disk) → Outcome files encoded s.calls q
          → Ended (λ _. IsSaved) (λ _ d. HasTidied d ⊎ IsSaved d) q.0 q.1
      go s e same (ok u, d) (inl k) = absurd (k.failed refl)
      go s e same (ok u, d) (inr k) = (encoded, e, rw same at k)
      go s e same (err x, d) (inl k) =
          let undone : IsUndone checked_calls (err x) d = rw same at k in
          inl (undone.kept, undone.cleaned)
      go s e same (err x, d) (inr k) = inr (encoded, e, rw same at k)

  stopped : (e : Error) (s : Disk) → Stopped s → IsUndone calls (err e) s ⊎ IsSaved s
  unfolding Stopped HasTidied
  stopped e s (inl h) = inl (record { kept = h.0; cleaned = h.1; failed = λ q. cc })
  stopped e s (inr h) = inr h

  save-Ends :
      Ends
        (λ s. Stage files calls calls false s × HasNone s)
        (save files session)
        (λ _. IsSaved)
        (λ _. Stopped)
  unfolding save is_neutral
  save-Ends =
      Ends-bind (validate_parent files) _
        (Ends-weaken _ Stopped (λ s h. h) Failed-Stopped (validate_parent files)
          (Ends-and (validate_parent files) (validate_parent-Stage files calls calls false k0)
            validate_parent-HasNone))
        λ _.
          Ends-bind (existing_file_status files) _
            (Ends-weaken _ Stopped (λ s h. h) Failed-Stopped (existing_file_status files)
              (Ends-and (existing_file_status files)
                (existing_file_status-Stage files calls _ false k1) existing_file_status-HasNone))
            λ status.
              Ends-bind (lift (encoded_session files session)) _
                (encoding (encoded_session files session)) λ encoded. store-Ends encoded
    where
      k0 : Tallies files calls calls false
      k0 = start-Tallies files calls []

      k1 : Tallies files calls ((parent_lstat, true) ∷ calls) false
      k1 = step-Tallies files calls parent_lstat true calls false refl k0

      encoding :
          (r : Result Text)
          → Ends
              (λ s. Stage files calls checked_calls false s × HasNone s)
              (lift r)
              (λ encoded s. (r ≡ ok encoded) × (s.calls ≡ checked_calls))
              (λ _. Stopped)
      encoding (ok encoded) = record { at = λ s h. (refl, h.0.calls) }
      encoding (err e) = record {
        at = λ s h. Failed-Stopped s (
          Stage-Failed files calls checked_calls false s
              (step-Tallies files calls file_lstat true _ false refl k1) h.0,
          h.1,
        );
      }

  -- Whatever the calls of the operating system answer, a saving either raises and replaces nothing,
  -- and each temporary file that it made is removed, or its removal tried; or it replaces the file
  -- of the session once, behind its first checks, by a temporary file that holds the text of the
  -- session and was written, flushed, synchronised and closed, in this order, and is not removed.
  pub save-Outcome : let (r, s) = save files session at_rest in IsUndone calls r s ⊎ IsSaved s
  save-Outcome =
      go (save files session at_rest).0 (save files session at_rest).1
        (save-Ends.at at_rest (record { calls = refl; temporary = refl; uncommitted = refl }, refl))
    where
      go :
          (r : Result (Unit {0})) (s : Disk)
          → Ended (λ _. IsSaved) (λ _. Stopped) r s
          → IsUndone calls r s ⊎ IsSaved s
      go (ok _) s h = inr h
      go (err e) s h = stopped e s h
