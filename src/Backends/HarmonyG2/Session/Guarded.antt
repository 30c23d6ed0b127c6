-- ===== src/Backends/HarmonyG2/Session/Guarded.antt =====
-- What a saving checks before it changes anything.
use smartenit_rescue.Prelude.{
  ◌≤◌, Bool, true, false, ◌≡◌, ◌≢◌, ◌⊎◌, inl, inr, refl, List, ◌∷◌, Option, none, some, arith,
}
use smartenit_rescue.Prelude.Result.{Attempt, returned, raised, Result, ok, Result-cases}
use smartenit_rescue.Backends.HarmonyG2.Session.{LocalSession}
use smartenit_rescue.Backends.HarmonyG2.Session.Store.{
  Disk, Entry, Files, Status, parent_lstat, file_lstat, validate_parent, validate_directory,
  validate_file_status, existing_file_status, checked_status, ask, catching, os_error_as,
  has_returned,
}
use smartenit_rescue.Backends.HarmonyG2.Session.Saving.{save}
use smartenit_rescue.Backends.HarmonyG2.Session.Replacement.{at_rest}

-- A directory, not a link to one, that only its owner may use.
abbrev pub IsOwnDirectory : Attempt Status → Type 0
IsOwnDirectory answer =
    (status : Status) × (answer ≡ returned status)
    × (status.is_link ≡ false)
    × (status.is_directory ≡ true)
    × (status.mode ≡ 0o700)

-- No file, or a file, not a link to one, that is not too large and that only its owner may use.
abbrev pub IsOwnFile : Attempt (Option Status) → Type 0
IsOwnFile answer =
    (answer ≡ returned none)
    ⊎ ((status : Status) × (answer ≡ returned (some status))
        × (status.is_regular ≡ true)
        × (status.mode ≡ 0o600)
        × (status.size ≤ 32768))

validate_directory-IsOwnDirectory :
    (status : Status) (u : Unit {0})
    → validate_directory status ≡ ok u
    → IsOwnDirectory (returned status)
unfolding validate_directory
validate_directory-IsOwnDirectory status u h =
    (status, refl, ground (arith, h), ground (arith, h), ground (arith, h))

checked_status-IsOwnFile :
    (files : Files) (found o : Option Status)
    → checked_status files found ≡ ok o
    → IsOwnFile (returned found)
unfolding checked_status validate_file_status
checked_status-IsOwnFile files none o h = inl refl
checked_status-IsOwnFile files (some status) o h =
    inr (status, refl, ground (arith, h), ground (arith, h), ground (arith, h))

module _ (files : Files) (session : LocalSession) (calls : List Entry) where
  -- The saving only looked at the directory, and perhaps at the file.
  abbrev pub HasLooked : List Entry → Type 0
  HasLooked l =
      ((b : Bool) × (l ≡ (parent_lstat, b) ∷ calls))
      ⊎ ((b : Bool) × (l ≡ (file_lstat, b) ∷ (parent_lstat, true) ∷ calls))

  abbrev pub IsGuarded : Result (Unit {0}) × Disk → Type 0
  IsGuarded p =
      (IsOwnDirectory (files.parent_status calls)
        × IsOwnFile (files.file_status ((parent_lstat, true) ∷ calls)))
      ⊎ ((p.0 ≢ ok tt) × HasLooked p.1.calls)

  -- A saving goes on only if the directory of the session file is a real one of mode 0700, and the
  -- file, if there is one, is a regular one of mode 0600 and of 32768 bytes at most. Otherwise it
  -- raises, and has done nothing but look at them.
  pub save-IsGuarded : IsGuarded (save files session (at_rest files session calls))
  unfolding save validate_parent existing_file_status catching ask os_error_as has_returned
  save-IsGuarded = parent (files.parent_status calls) refl
    where
      file :
          (status : Status) (x : Attempt (Option Status))
          → files.parent_status calls ≡ returned status
          → files.file_status ((parent_lstat, true) ∷ calls) ≡ x
          → (u : Unit {0}) → validate_directory status ≡ ok u
          → IsGuarded (save files session (at_rest files session calls))
      file status (raised e) q k u v =
          inr (ground (arith, q, k, v), inr (false, ground (arith, q, k, v)))
      file status (returned found) q k u v = elim (Result-cases (checked_status files found)) [
        | inr (e, c) ↦ inr (ground (arith, q, k, v, c), inr (true, ground (arith, q, k, v, c)))
        | inl (o, c) ↦ inl (
          rw q (validate_directory-IsOwnDirectory status u v),
          rw k (checked_status-IsOwnFile files found o c),
        )
      ]

      parent :
          (x : Attempt Status)
          → files.parent_status calls ≡ x
          → IsGuarded (save files session (at_rest files session calls))
      parent (raised e) q = inr (ground (arith, q), inl (false, ground (arith, q)))
      parent (returned status) q = elim (Result-cases (validate_directory status)) [
        | inr (e, v) ↦ inr (ground (arith, q, v), inl (true, ground (arith, q, v)))
        | inl (u, v) ↦ file status (files.file_status ((parent_lstat, true) ∷ calls)) q refl u v
      ]
