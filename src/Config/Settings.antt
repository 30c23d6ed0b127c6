-- ===== src/Config/Settings.antt =====
-- config.py: the typed settings. A path is the text that was given, a host a number of 32 bits.
use smartenit_rescue.Prelude.{ℕ, Bool, Option, List}
use smartenit_rescue.Prelude.Result.{Text}
use smartenit_rescue.Models.Identity.{DeviceId}

pub record RuntimeSettings : Type 0 where
  pub client_id : Text
  pub topic_prefix : Text
  pub discovery_prefix : Text
  pub home_assistant_status_topic : Text

pub record MqttSettings : Type 0 where
  pub host : Text
  pub port : ℕ
  pub keepalive_seconds : ℕ
  pub tls : Bool
  pub username_file : Option Text
  pub password_file : Option Text

pub record MqttCredentials : Type 0 where
  pub username : Text
  pub password : Text

pub record SimulatorDeviceSettings : Type 0 where
  pub device_id : DeviceId
  pub name : Text
  pub profile_id : Text
  pub initial_on : Bool

pub record HarmonyG2DeviceSettings : Type 0 where
  pub device_id : DeviceId
  pub name : Text
  pub profile_id : Text
  pub component_id : Text

pub record HarmonyG2Settings : Type 0 where
  pub host : ℕ
  pub certificate_sha256_file : Text
  pub session_file : Text
  pub devices : List HarmonyG2DeviceSettings

pub data BackendSettings : Type 0 where
  simulator : List SimulatorDeviceSettings → BackendSettings
  harmony_g2 : HarmonyG2Settings → BackendSettings

pub record AppConfig : Type 0 where
  pub runtime : RuntimeSettings
  pub mqtt : MqttSettings
  pub backend : BackendSettings
