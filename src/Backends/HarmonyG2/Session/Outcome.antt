-- ===== src/Backends/HarmonyG2/Session/Outcome.antt =====
-- The outcome of a saving.
use smartenit_rescue.Prelude.Result.{err, ok, Error, Result, Text}
use smartenit_rescue.Prelude.Exec.{finally}
use smartenit_rescue.Prelude.Exec.Ends.{Ended}
use smartenit_rescue.Prelude.Exec.Keeps.{finally_error, finally_state}
use smartenit_rescue.Prelude.{
  ◌⊎◌, inr, inl, ap, ◌≢◌, ◌&&◌, not, suc, ◌+◌, List, ◌∷◌, ◌++◌, Bool, true, false, ◌≡◌, refl, arith,
}
use smartenit_rescue.Backends.HarmonyG2.Session.Atomic.{
  replace_session-Ends, Finished, Done, Failed, bit, committing, is_creation, is_removal,
  is_replacement, tally,
}
use smartenit_rescue.Backends.HarmonyG2.Session.Saving.{
  replace_session, as_unsaved, store, do_call, clean_up,
}
use smartenit_rescue.Backends.HarmonyG2.Session.Store.{
  has_returned, remove_temporary, ask, catching, Disk, Entry, Files,
}

-- Nothing was replaced, the saving raised, and each temporary file that was made was removed, or
-- its removal tried.
pub record IsUndone (l : List Entry) (r : Result (Unit {0})) (s : Disk) : Type 0 where
  pub kept : tally is_replacement s.calls ≡ tally is_replacement l
  pub cleaned :
      tally is_removal s.calls + tally is_creation l
      ≡ tally is_removal l + tally is_creation s.calls
  pub failed : r ≢ ok tt

-- The file was replaced once, by a temporary file that was made, written, flushed, synchronised and closed,
-- with a check of the directory and of the old file in between, and that was not removed.
pub record IsReplaced (encoded : Text) (l : List Entry) (s : Disk) : Type 0 where
  pub once : tally is_replacement s.calls ≡ suc (tally is_replacement l)
  pub unremoved : tally is_removal s.calls ≡ tally is_removal l
  pub made_once : tally is_creation s.calls ≡ suc (tally is_creation l)
  pub in_order : (after : List Entry) × (s.calls ≡ after ++ committing encoded l)

module _ (files : Files) where
  -- what the last handler leaves behind an error
  tidied : Error → Disk → Bool → Result (Unit {0}) × Disk
  tidied e s t = finally (λ _. (err e, s)) (clean_up files t) s

  removed : Disk → List Entry
  removed s = (remove_temporary, has_returned (files.done s.calls remove_temporary)) ∷ s.calls

  tidied-calls : (e : Error) (s : Disk) → (tidied e s true).1.calls ≡ removed s
  unfolding tidied removed clean_up catching do_call ask
  tidied-calls e s =
      ap (λ (d : Disk). d.calls)
        (finally_state {A = Unit {0}} (λ _. (err e, s)) (clean_up files true) s)

  Failed-IsUndone :
      (l : List Entry) (e : Error) (s : Disk) (t : Bool)
      → s.temporary ≡ t
      → Failed files l s
      → IsUndone l (tidied e s t).0 (tidied e s t).1
  unfolding tidied clean_up bit tally is_replacement is_removal is_creation removed
  Failed-IsUndone l e s false h k =
      let made = rw h at k.tallies.creations in
      record {
        kept = k.tallies.replacements;
        cleaned = omega (arith, made, k.tallies.removals);
        failed = λ q. cc;
      }
  Failed-IsUndone l e s true h k =
      let made = rw h at k.tallies.creations in
      let calls = tidied-calls e s in
      record {
        kept = rw calls k.tallies.replacements;
        cleaned = rw calls (omega (arith, made, k.tallies.removals));
        failed = finally_error e (clean_up files true) s tt;
      }

  Done-IsReplaced :
      (encoded : Text) (l : List Entry) (s : Disk) → Done files l encoded s → IsReplaced encoded l s
  Done-IsReplaced encoded l s k = record {
    once = k.replacements;
    unremoved = k.removals;
    made_once = k.creations;
    in_order = k.before;
  }

  abbrev pub Outcome : Text → List Entry → Result (Unit {0}) × Disk → Type 0
  Outcome encoded l (r, s) = IsUndone l r s ⊎ IsReplaced encoded l s

  -- the last handler and what comes before it
  finish : Result (Unit {0}) → Disk → Result (Unit {0}) × Disk
  finish r s = finally (λ _. (r, s)) (λ s. clean_up files (not s.committed && s.temporary) s) s

  committed-Outcome :
      (encoded : Text) (l : List Entry) (r : Result (Unit {0})) (s : Disk)
      → Done files l encoded s
      → Outcome encoded l (finish r s)
  unfolding finish clean_up
  committed-Outcome encoded l r s k = go s.committed k.committed
    where
      go :
          (c : Bool)
          → c ≡ true
          → Outcome encoded l (finally (λ _. (r, s)) (clean_up files (not c && s.temporary)) s)
      go true e = inr (Done-IsReplaced encoded l s k)
      go false e = cc

  Failed-Outcome :
      (encoded : Text) (l : List Entry) (e : Error) (s : Disk)
      → Failed files l s
      → Outcome encoded l (finish (err e) s)
  unfolding finish tidied
  Failed-Outcome encoded l e s k = go s.committed k.uncommitted
    where
      go :
          (c : Bool)
          → c ≡ false
          → Outcome encoded l (finally (λ _. (err e, s)) (clean_up files (not c && s.temporary)) s)
      go true q = cc
      go false q = inl (Failed-IsUndone l e s s.temporary refl k)

  pub store-Outcome : (encoded : Text) (s : Disk) → Outcome encoded s.calls (store files encoded s)
  unfolding store finish catching Finished as_unsaved
  store-Outcome encoded s =
      go (replace_session files encoded start).0 (replace_session files encoded start).1 (
        (replace_session-Ends files s.calls encoded).at start
          (record { calls = refl; temporary = refl; uncommitted = refl }))
    where
      start : Disk
      start = record s { temporary = false; committed = false }

      go :
          (r : Result (Unit {0})) (d : Disk)
          → Ended (λ _. Done files s.calls encoded) (λ _. Finished files s.calls encoded) r d
          → Outcome encoded s.calls (finish (as_unsaved files r) d)
      go (ok _) d k = committed-Outcome encoded s.calls _ d k
      go (err e) d (inl k) = Failed-Outcome encoded s.calls _ d k
      go (err e) d (inr k) = committed-Outcome encoded s.calls _ d k
