-- ===== src/Tests/SessionTests.antt =====
-- The file of the session at concrete inputs.
use smartenit_rescue.Prelude.Result.{validation, err, ok, os_error, raised, returned}
use smartenit_rescue.Prelude.Value.{dict, str, dict_of, Fields}
use smartenit_rescue.Prelude.Text.{codes, text_eq}
use smartenit_rescue.Prelude.{
  if◌then◌else◌, Bool, ℕ, ◌≡◌, ◌⊎◌, refl, true, false, none, some, List, [], ◌∷◌, Option,
}
use smartenit_rescue.Backends.HarmonyG2.Session.Outcome.{IsUndone}
use smartenit_rescue.Backends.HarmonyG2.Session.Saving.{save}
use smartenit_rescue.Backends.HarmonyG2.Session.Store.{
  parent_lstat, file_lstat, make_temporary, set_mode, close_file, remove_temporary, load,
  write_file, FileCall, Status, Files,
}
use smartenit_rescue.Backends.HarmonyG2.Session.Guarded.{IsGuarded, save-IsGuarded}
use smartenit_rescue.Backends.HarmonyG2.Session.Replacement.{save-Outcome, IsSaved, at_rest}
use smartenit_rescue.Tests.Fixtures.{clock}
use smartenit_rescue.Tests.GatewayTests.{session}

abbrev folder : Status
folder = record {
  is_link = false;
  is_directory = true;
  is_regular = false;
  mode = 0o700;
  size = 0;
  device = 1;
  inode = 1;
}

abbrev stored : Status
stored = record {
  is_link = false;
  is_directory = false;
  is_regular = true;
  mode = 0o600;
  size = 90;
  device = 1;
  inode = 2;
}

abbrev stored_fields : Fields
stored_fields = dict_of (
    (codes "access_token", str (codes "a1"))
    ∷ (codes "expires_at", str (codes "1970-01-01T00:00:00Z"))
    ∷ (codes "refresh_token", str (codes "r1"))
    ∷ [])

-- A disk on which every call returns.
abbrev files : Files
files = record {
  parent_status = λ _. returned folder;
  file_status = λ _. returned (some stored);
  opened = λ _. returned (some tt);
  opened_status = λ _. returned stored;
  content = λ _ _. returned (codes "{}");
  done = λ _ _. returned tt;
  loads = λ _. returned (some (dict stored_fields));
  dumps = λ _. codes "{}";
  isoformat = λ _ _. codes "1970-01-01T00:00:00+00:00";
  fromisoformat = λ _. some (clock 0);
}

-- The same, but the temporary file cannot be written.
abbrev full_disk : Files
full_disk = record files { done = λ _ c. if is_write c then raised os_error else returned tt }
  where
    is_write : FileCall → Bool
    is_write (write_file t) = true
    is_write _ = false

save-Outcome_example :
    let (r, s) = save full_disk session (at_rest full_disk session []) in
    IsUndone [] r s ⊎ IsSaved full_disk session [] s
save-Outcome_example = save-Outcome full_disk session []

save-IsGuarded_example :
    IsGuarded full_disk session [] (save full_disk session (at_rest full_disk session []))
save-IsGuarded_example = save-IsGuarded full_disk session []

saved : (save files session (at_rest files session [])).0 ≡ ok tt
unfolding save smartenit_rescue.Backends.HarmonyG2.Session.Store.validate_parent
    smartenit_rescue.Backends.HarmonyG2.Session.Store.catching
    smartenit_rescue.Backends.HarmonyG2.Session.Store.os_error_as
    smartenit_rescue.Backends.HarmonyG2.Session.Store.ask
    smartenit_rescue.Backends.HarmonyG2.Session.Store.validate_directory
    smartenit_rescue.Backends.HarmonyG2.Session.Store.existing_file_status
    smartenit_rescue.Backends.HarmonyG2.Session.Store.validate_file_status
    smartenit_rescue.Backends.HarmonyG2.Session.Store.format_expiry
    smartenit_rescue.Backends.HarmonyG2.Session.aware_utc
    smartenit_rescue.Backends.HarmonyG2.Session.Saving.as_unsaved
saved = refl

unsaved :
    (save full_disk session (at_rest full_disk session [])).0
    ≡ err (validation (codes "cannot save local session"))
unfolding save smartenit_rescue.Backends.HarmonyG2.Session.Store.validate_parent
    smartenit_rescue.Backends.HarmonyG2.Session.Store.catching
    smartenit_rescue.Backends.HarmonyG2.Session.Store.os_error_as
    smartenit_rescue.Backends.HarmonyG2.Session.Store.ask
    smartenit_rescue.Backends.HarmonyG2.Session.Store.validate_directory
    smartenit_rescue.Backends.HarmonyG2.Session.Store.existing_file_status
    smartenit_rescue.Backends.HarmonyG2.Session.Store.validate_file_status
    smartenit_rescue.Backends.HarmonyG2.Session.Store.format_expiry
    smartenit_rescue.Backends.HarmonyG2.Session.aware_utc
    smartenit_rescue.Backends.HarmonyG2.Session.Saving.as_unsaved
    smartenit_rescue.Backends.HarmonyG2.Session.Store.is_os_error
unsaved = refl

-- the calls of a saving on a full disk, newest first
undone_calls :
    (save full_disk session (at_rest full_disk session [])).1.calls
    ≡ (remove_temporary, true)
      ∷ (close_file, true)
      ∷ (write_file (codes "{}"), false)
      ∷ (set_mode 0o600, true)
      ∷ (make_temporary, true)
      ∷ (file_lstat, true)
      ∷ (parent_lstat, true)
      ∷ []
unfolding save smartenit_rescue.Backends.HarmonyG2.Session.Store.validate_parent
    smartenit_rescue.Backends.HarmonyG2.Session.Store.catching
    smartenit_rescue.Backends.HarmonyG2.Session.Store.os_error_as
    smartenit_rescue.Backends.HarmonyG2.Session.Store.ask
    smartenit_rescue.Backends.HarmonyG2.Session.Store.validate_directory
    smartenit_rescue.Backends.HarmonyG2.Session.Store.existing_file_status
    smartenit_rescue.Backends.HarmonyG2.Session.Store.validate_file_status
    smartenit_rescue.Backends.HarmonyG2.Session.Store.format_expiry
    smartenit_rescue.Backends.HarmonyG2.Session.aware_utc
undone_calls = refl

loaded :
    (load files (at_rest files session [])).0
    ≡ ok (record { access_token = codes "a1"; refresh_token = codes "r1"; expires_at = clock 0 })
unfolding load smartenit_rescue.Backends.HarmonyG2.Session.Store.validate_parent
    smartenit_rescue.Backends.HarmonyG2.Session.Store.catching
    smartenit_rescue.Backends.HarmonyG2.Session.Store.os_error_as
    smartenit_rescue.Backends.HarmonyG2.Session.Store.ask
    smartenit_rescue.Backends.HarmonyG2.Session.Store.validate_directory
    smartenit_rescue.Backends.HarmonyG2.Session.Store.existing_file_status
    smartenit_rescue.Backends.HarmonyG2.Session.Store.validate_file_status
    smartenit_rescue.Backends.HarmonyG2.Session.Store.parse_stored_session
    smartenit_rescue.Backends.HarmonyG2.Session.Store.has_stored_fields
    smartenit_rescue.Backends.HarmonyG2.Session.Store.expiry
    smartenit_rescue.Backends.HarmonyG2.Session.Store.checked_status
    smartenit_rescue.Backends.HarmonyG2.Session.Store.format_expiry
    smartenit_rescue.Backends.HarmonyG2.Session.Store.has_returned
    smartenit_rescue.Backends.HarmonyG2.Session.Store.is_os_error
    smartenit_rescue.Prelude.Value.field_names smartenit_rescue.Prelude.Text.text_beq
    smartenit_rescue.Backends.HarmonyG2.Session.token smartenit_rescue.Prelude.Value.get
    smartenit_rescue.Backends.HarmonyG2.Session.is_token smartenit_rescue.Prelude.Text.is_space
    smartenit_rescue.Backends.HarmonyG2.Session.aware_utc
    smartenit_rescue.Backends.HarmonyG2.Session.make_session
    smartenit_rescue.Prelude.Text.after_prefix
loaded = refl
