-- ===== src/Backends/HarmonyG2/Session/Saving.antt =====
-- backends/harmony_g2/session.py: the replacement of the session file.
use smartenit_rescue.Prelude.Value.{dict_of}
use smartenit_rescue.Prelude.Result.{
  Error, ok, validation, err, timeout_error, os_error, python, Result, Text,
}
use smartenit_rescue.Prelude.{not, ◌&&◌, [], ◌∷◌, Bool, true, false, if◌then◌else◌}
use smartenit_rescue.Prelude.Exec.{or_finish, pure, lift, modify, finally, Exec, ◌>>=◌, ◌>>◌}
use smartenit_rescue.Prelude.Text.{codes}
use smartenit_rescue.Backends.HarmonyG2.Session.{str, LocalSession}
use smartenit_rescue.Backends.HarmonyG2.Session.Store.{
  is_os_error, format_expiry, close_parent, sync_parent, close_file, flush_file, sync_file,
  open_parent, existing_file_status, remove_temporary, write_file, replace_file, validate_parent,
  make_temporary, set_mode, ask, catching, Disk, FileCall, Files,
}
use smartenit_rescue.Prelude.Result as R

module _ (files : Files) where
  unfoldable pub do_call : FileCall → Exec Disk (Unit {0})
  do_call c = ask c (λ calls. files.done calls c)

  -- The text that is stored.
  unfoldable pub encoded_session : LocalSession → Result Text
  encoded_session session = R.◌>>=◌ (format_expiry files session.expires_at) λ expires_at. ok (
      files.dumps (
        dict_of (
          (codes "access_token", str session.access_token)
          ∷ (codes "expires_at", str expires_at)
          ∷ (codes "refresh_token", str session.refresh_token)
          ∷ [])))

  -- `with os.fdopen(...)`, which closes the file in any case
  unfoldable pub write_out : Text → Exec Disk (Unit {0})
  unfolding do_call
  write_out encoded =
      finally (do do_call (write_file encoded); do_call flush_file; do_call sync_file)
        (do_call close_file)

  -- The inner `try` block: if the mode cannot be set, the file is closed all the same.
  unfoldable pub fill_temporary : Text → Exec Disk (Unit {0})
  unfolding do_call write_out
  fill_temporary encoded =
      or_finish (do_call (set_mode 0o600)) (write_out encoded) (do_call close_file)

  -- the commit, and the making of it durable
  unfoldable pub commit : Exec Disk (Unit {0})
  unfolding do_call
  commit = do
    do_call replace_file
    modify (λ s. record s { committed = true })
    do_call open_parent
    finally (do_call sync_parent) (do_call close_parent)

  -- the outer `try` block
  unfoldable pub replace_session : Text → Exec Disk (Unit {0})
  unfolding do_call fill_temporary commit
  replace_session encoded = do
    do_call make_temporary
    modify (λ s. record s { temporary = true })
    fill_temporary encoded
    validate_parent files
    status ← existing_file_status files
    commit

  is_unsaved : Error → Bool
  is_unsaved (validation _) = true
  is_unsaved e = is_os_error e

  -- `except (OSError, ValidationError)`
  unfoldable pub as_unsaved : Result (Unit {0}) → Result (Unit {0})
  unfolding is_unsaved
  as_unsaved (ok _) = ok tt
  as_unsaved (err e) =
      err (if is_unsaved e then validation (codes "cannot save local session") else e)

  -- `except OSError: pass`
  unfoldable pub ignored : Result (Unit {0}) → Result (Unit {0})
  ignored (ok _) = ok tt
  ignored (err e) = if is_os_error e then ok tt else err e

  -- the last handler
  unfoldable pub clean_up : Bool → Exec Disk (Unit {0})
  unfolding ignored do_call
  clean_up true = catching ignored (do_call remove_temporary)
  clean_up false = pure tt

  -- the block of `save` behind its checks
  unfoldable pub store : Text → Exec Disk (Unit {0})
  unfolding clean_up replace_session
  store encoded = do
    modify (λ s. record s { temporary = false; committed = false })
    finally (catching as_unsaved (replace_session encoded))
        (λ s. clean_up (not s.committed && s.temporary) s)

  -- `save`, for a value that is a session
  unfoldable pub save : LocalSession → Exec Disk (Unit {0})
  unfolding store encoded_session
  save session = do
    validate_parent files
    status ← existing_file_status files
    encoded ← lift (encoded_session session)
    store encoded
