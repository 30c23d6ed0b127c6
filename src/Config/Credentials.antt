-- ===== src/Config/Credentials.antt =====
-- config.py: the credentials of the broker. The reading of a file as UTF-8 text is an argument,
-- `none` if it raises OSError or UnicodeError.
use smartenit_rescue.Prelude.Text.{is_blank, codes}
use smartenit_rescue.Prelude.Result.{
  raise_if, or_raise, Text, Result, ok, err, validation, ◌>>=◌, ◌>>◌,
}
use smartenit_rescue.Prelude.{◌&&◌, ◌||◌, [], ◌∷◌, ◌++◌, Option, none, some, if◌then◌else◌, ◌==◌}
use smartenit_rescue.Config.Settings.{MqttCredentials, MqttSettings}

-- `value` without one line ending
unfoldable pub without_ending : Text → Text
without_ending [] = []
without_ending (c ∷ []) = if c == 13 || c == 10 then [] else c ∷ []
without_ending (c ∷ d ∷ []) =
    if c == 13 && d == 10 then [] else if d == 13 || d == 10 then c ∷ [] else c ∷ d ∷ []
without_ending (c ∷ d ∷ e ∷ s) = c ∷ without_ending (d ∷ e ∷ s)

module _ (read_text : Text → Option Text) where
  -- `_read_credential`
  unfoldable pub read_credential : Text → Text → Result Text
  read_credential path field_name = do
    value ←
        or_raise (read_text path)
          (validation (field_name ++ codes ": could not read UTF-8 credential file"))
    raise_if (is_blank (without_ending value))
        (validation (field_name ++ codes ": credential must be nonblank"))
    ok (without_ending value)

  paired_credentials : Option Text → Option Text → Result (Option MqttCredentials)
  paired_credentials none none = ok none
  paired_credentials (some user_path) (some pass_path) = do
    username ← read_credential user_path (codes "mqtt.username_file")
    password ← read_credential pass_path (codes "mqtt.password_file")
    ok (some (record { username = username; password = password }))
  paired_credentials _ _ =
      err (validation (codes "mqtt: username_file and password_file must be configured together"))

  -- `load_credentials`
  unfoldable pub load_credentials : MqttSettings → Result (Option MqttCredentials)
  unfolding paired_credentials
  load_credentials settings = paired_credentials settings.username_file settings.password_file
