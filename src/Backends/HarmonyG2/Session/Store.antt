-- ===== src/Backends/HarmonyG2/Session/Store.antt =====
-- backends/harmony_g2/session.py: the file of the session. The calls of the operating system are
-- arguments, and so are the texts of times and of JSON.
use R.{timeout_error, os_error}
use smartenit_rescue.Prelude.Value.{field_names, dict, str, Fields, Value}
use smartenit_rescue.Prelude.{
  length, not, contains, ltb, ◌&&◌, ◌+◌, ◌==◌, ◌%◌, ◌||◌, ◌===◌, all, ℕ, List, [], ◌∷◌, ◌++◌,
  Option, none, some, Bool, true, false, if◌then◌else◌,
}
use smartenit_rescue.Prelude.Result.{
  validation, or_raise, os_error, python, raised, attempted, returned, Error, raise_if, err, ok,
  Attempt, Text, Result,
}
use smartenit_rescue.Prelude.Datetime.{Datetime}
use smartenit_rescue.Prelude.Exec.{finally, lift, Exec, ◌>>=◌, ◌>>◌}
use smartenit_rescue.Prelude.Text.{starts_with, after_prefix, text_eq, codes}
use smartenit_rescue.Backends.HarmonyG2.Session.{make_session, item, token, LocalSession, aware_utc}
use mathlib.Core.List.{reverse}
use smartenit_rescue.Prelude.Result as R

pub data FileCall : Type 0 where
  parent_lstat file_lstat open_file fstat_file close_file : FileCall
  read_file set_mode : ℕ → FileCall
  make_temporary flush_file sync_file replace_file remove_temporary : FileCall
  write_file : Text → FileCall
  open_parent sync_parent close_parent : FileCall

-- A call, and whether it returned.
abbrev pub Entry : Type 0
Entry = FileCall × Bool

-- what is read of `os.stat_result`
pub record Status : Type 0 where
  pub is_link : Bool
  pub is_directory : Bool
  pub is_regular : Bool
  pub mode : ℕ
  pub size : ℕ
  pub device : ℕ
  pub inode : ℕ

-- What is outside, with answers that may depend on the calls before, newest first.
pub record Files : Type 0 where
  pub parent_status : List Entry → Attempt Status
  -- `none` is FileNotFoundError, here and in the opening
  pub file_status : List Entry → Attempt (Option Status)
  pub opened : List Entry → Attempt (Option (Unit {0}))
  pub opened_status : List Entry → Attempt Status
  pub content : List Entry → ℕ → Attempt Text
  pub done : List Entry → FileCall → Attempt (Unit {0})
  -- `none` is UnicodeDecodeError or JSONDecodeError
  pub loads : Text → Attempt (Option Value)
  pub dumps : Fields → Text
  -- `isoformat`, with or without microseconds, and `fromisoformat`
  pub isoformat : Datetime → Bool → Text
  pub fromisoformat : Text → Option Datetime

-- The calls, and the local variables of `save` that its last handler reads: is there a temporary
-- path, and is it committed?
pub record Disk : Type 0 where
  pub calls : List Entry
  pub temporary : Bool
  pub committed : Bool

unfoldable pub has_returned : {A : Type 0} → Attempt A → Bool
has_returned (returned a) = true
has_returned (raised e) = false

-- A call with its answer.
unfoldable pub ask : {A : Type 0} → FileCall → (List Entry → Attempt A) → Exec Disk A
unfolding has_returned
ask c answer s =
    (attempted (answer s.calls), record s { calls = (c, has_returned (answer s.calls)) ∷ s.calls })

-- `isinstance(error, OSError)`; TimeoutError is one too
unfoldable pub is_os_error : Error → Bool
is_os_error (python os_error) = true
is_os_error (python timeout_error) = true
is_os_error _ = false

-- `except OSError as error: raise _invalid(message)`
unfoldable pub os_error_as {ℓ} : {A : Type ℓ} → Text → Result A → Result A
os_error_as message (ok a) = ok a
os_error_as message (err e) = err (if is_os_error e then validation message else e)

unfoldable pub catching {ℓ} : {A : Type ℓ} → (Result A → Result A) → Exec Disk A → Exec Disk A
catching handle m s = let (r, s') = m s in (handle r, s')

abbrev pub max_session_bytes : ℕ
max_session_bytes = 32768

-- `_validate_file_status`
unfoldable pub validate_file_status : Status → Result (Unit {0})
validate_file_status status =
    R.◌>>◌
      (raise_if (not status.is_regular) (validation (codes "local session must be a regular file")))
      (R.◌>>◌
        (raise_if (not (status.mode == 0o600))
          (validation (codes "local session file must have mode 0600")))
        (raise_if (ltb max_session_bytes status.size)
          (validation (codes "local session file is too large"))))

-- the tests of `_validate_parent`
unfoldable pub validate_directory : Status → Result (Unit {0})
validate_directory status =
    R.◌>>◌
      (raise_if (status.is_link || not status.is_directory)
        (validation (codes "local session parent must be a real directory")))
      (raise_if (not (status.mode == 0o700))
        (validation (codes "local session parent directory must have mode 0700")))

-- `value.removesuffix(suffix)` and `value.endswith(suffix)`
without_suffix : Text → Text → Text
without_suffix suffix value = elim (after_prefix (reverse suffix) (reverse value)) [
  | none ↦ value
  | some rest ↦ reverse rest
]

module _ (files : Files) where
  -- `_format_expiry`
  unfoldable pub format_expiry : Datetime → Result Text
  unfolding without_suffix
  format_expiry value = R.◌>>=◌ (aware_utc value (codes "local session")) λ normalized. ok (
      without_suffix (codes "+00:00")
        (files.isoformat normalized (not (normalized.instant % 1000000 == 0)))
      ++ codes "Z")

  expiry_error : {A : Type 0} → Result A
  expiry_error = err (validation (codes "local session expiry must be canonical RFC 3339 UTC"))

  parsed_expiry : Text → Option Datetime → Result Datetime
  unfolding expiry_error
  parsed_expiry value none = expiry_error
  parsed_expiry value (some parsed) =
      R.◌>>=◌ (aware_utc parsed (codes "local session expiry")) λ normalized.
        R.◌>>=◌ (format_expiry normalized)
          λ printed. if printed === value then ok normalized else expiry_error

  -- `_expiry`
  unfoldable pub expiry : Value → Result Datetime
  unfolding parsed_expiry expiry_error
  expiry (str value) =
      if starts_with (codes "Z") (reverse value)
      then parsed_expiry value (files.fromisoformat value)
      else expiry_error
  expiry _ = expiry_error

  -- `_validate_parent`
  unfoldable pub validate_parent : Exec Disk (Unit {0})
  validate_parent = do
    status ←
        catching (os_error_as (codes "local session parent directory is required"))
          (ask parent_lstat files.parent_status)
    lift (validate_directory status)

  unfoldable pub checked_status : Option Status → Result (Option Status)
  checked_status none = ok none
  checked_status (some status) = R.◌>>=◌ (validate_file_status status) λ _. ok (some status)

  -- `_existing_file_status`
  unfoldable pub existing_file_status : Exec Disk (Option Status)
  unfolding checked_status
  existing_file_status = do
    status ←
        catching (os_error_as (codes "cannot inspect local session file"))
          (ask file_lstat files.file_status)
    lift (checked_status status)

  -- the test of the exact keys of a stored session
  unfoldable pub has_stored_fields : Fields → Bool
  has_stored_fields payload =
      let keys = codes "access_token" ∷ codes "expires_at" ∷ codes "refresh_token" ∷ [] in
      all (λ k. contains k (field_names payload)) keys
      && all (λ k. contains k keys) (field_names payload)

  -- `_parse_stored_session`
  unfoldable pub parse_stored_session : Value → Result LocalSession
  parse_stored_session (dict payload) =
      R.◌>>=◌
        (raise_if (not (has_stored_fields payload))
          (validation (codes "local session must contain the exact session fields")))
        λ _. R.◌>>=◌ (token (item (codes "access_token") payload) (codes "local session")) λ access.
          R.◌>>=◌ (token (item (codes "refresh_token") payload) (codes "local session")) λ refresh.
            R.◌>>=◌ (expiry (item (codes "expires_at") payload))
              λ at. make_session access refresh at
  parse_stored_session _ =
      err (validation (codes "local session must contain the exact session fields"))

  required {ℓ} : {A : Type ℓ} → Option A → Result A
  required none = err (validation (codes "local session file is required"))
  required (some a) = ok a

  -- the checks of `load` on the file that it opened
  inspect : Status → Exec Disk (Unit {0})
  inspect expected = do
    status ← ask fstat_file files.opened_status
    lift (validate_file_status status)
    lift (
        raise_if (not (status.device == expected.device && status.inode == expected.inode))
          (validation (codes "local session file changed while opening")))

  -- The `try` block of `load`: the file is closed by its `with` block, or at the end if that block
  -- was not entered.
  read_opened : Status → Exec Disk Text
  unfolding inspect
  read_opened expected s =
      let (r, s') = inspect expected s in
      let unreadable : Result Text → Result Text =
        os_error_as (codes "cannot read local session file") in
      elim r [
        | ok _ ↦
            catching unreadable
              (finally
                (ask (read_file (max_session_bytes + 1))
                  (λ calls. files.content calls (max_session_bytes + 1)))
                (ask close_file (λ calls. files.done calls close_file)))
              s'
        | err e ↦
            finally (lift (unreadable (err e)))
              (ask close_file (λ calls. files.done calls close_file)) s'
      ]

  decoded_session : Text → Result LocalSession
  decoded_session encoded =
      R.◌>>=◌
        (raise_if (ltb max_session_bytes (length encoded))
          (validation (codes "local session file is too large")))
        λ _. R.◌>>=◌ (attempted (files.loads encoded)) λ parsed.
          R.◌>>=◌ (or_raise parsed (validation (codes "local session file contains invalid JSON")))
            parse_stored_session

  -- `load`
  unfoldable pub load : Exec Disk LocalSession
  unfolding required read_opened decoded_session
  load = do
    validate_parent
    status ← existing_file_status
    expected ← lift (required status)
    found ←
        catching (os_error_as (codes "cannot read local session file")) (ask open_file files.opened)
    lift (required found)
    encoded ← read_opened expected
    lift (decoded_session encoded)
