-- ===== src/Config/Loading.antt =====
-- config.py: the reading of a whole document. The parser of TOML, the one of IPv4 addresses, the
-- joining of paths and the identities of the built-in profiles are arguments.
use smartenit_rescue.Prelude.{
  ℕ, Bool, true, false, not, ◌+◌, ◌^◌, ◌/◌, ◌&&◌, ◌||◌, Option, none, some, List, [], ◌∷◌, ◌++◌,
  any, contains, ◌===◌, ◌==◌, if◌then◌else◌,
}
use smartenit_rescue.Prelude.Value.{Value, Fields, field_names}
use smartenit_rescue.Prelude.Result.{Text, Result, ok, err, raise_if, ◌>>=◌, ◌>>◌}
use smartenit_rescue.Prelude.Text.{codes, text_eq}
use smartenit_rescue.Prelude.Decimal.{show}
use smartenit_rescue.Models.Identity.{DeviceId, device_eq}
use smartenit_rescue.Config.Settings.{
  RuntimeSettings, MqttSettings, SimulatorDeviceSettings, HarmonyG2DeviceSettings, BackendSettings,
  simulator, harmony_g2, AppConfig,
}
use smartenit_rescue.Config.Fields.{
  invalid, mapping, closed_mapping, required_value, nonblank_string, boolean, bounded_integer,
  topic_name, configured_id, raw_devices, known_profile_id,
}
use smartenit_rescue.Backends.HarmonyG2.Client.{is_safe_segment}

pub record Environment : Type 0 where
  -- the text of the path of the file
  pub source : Text
  -- an absolute path, from one that is relative to the file
  pub resolve : Text → Text
  pub parse_toml : Text → Option Value
  pub parse_ipv4 : Text → Option ℕ
  pub known_profiles : List Text

abbrev pub runtime_keys : List Text
runtime_keys =
    codes "client_id"
    ∷ codes "topic_prefix"
    ∷ codes "discovery_prefix"
    ∷ codes "home_assistant_status_topic"
    ∷ []

abbrev pub mqtt_keys : List Text
mqtt_keys = codes "host" ∷ codes "port" ∷ codes "keepalive_seconds" ∷ codes "tls" ∷ []

abbrev pub credential_keys : List Text
credential_keys = codes "username_file" ∷ codes "password_file" ∷ []

abbrev pub simulator_device_keys : List Text
simulator_device_keys =
    codes "device_id" ∷ codes "name" ∷ codes "profile_id" ∷ codes "initial_on" ∷ []

abbrev harmony_device_keys : List Text
harmony_device_keys =
    codes "device_id" ∷ codes "name" ∷ codes "profile_id" ∷ codes "component_id" ∷ []

abbrev harmony_keys : List Text
harmony_keys =
    codes "type"
    ∷ codes "host"
    ∷ codes "certificate_sha256_file"
    ∷ codes "session_file"
    ∷ codes "devices"
    ∷ []

abbrev pub device_location : ℕ → Text
device_location index = codes "backend.devices[" ++ (show index ++ codes "]")

-- `any(address in network for network in _RFC1918_NETWORKS)`
unfoldable pub is_private : ℕ → Bool
is_private address =
    (address / 2 ^ 24 == 10) || (address / 2 ^ 20 == 2753 || address / 2 ^ 16 == 49320)

module _ (env : Environment) where
  -- `_path`
  unfoldable pub path_of : Value → Text → Result Text
  path_of value location = do raw ← nonblank_string env.source value location; ok (env.resolve raw)

  -- `_nonblank_string(_required(...))`, and the same for the other checks
  abbrev pub named {ℓ} : {A : Type ℓ} → (Value → Text → Result A) → Fields → Text → Text → Result A
  named check item name location = do
    value ← required_value env.source item name location
    check value (location ++ (codes "." ++ name))

  -- `_runtime`
  unfoldable pub runtime_settings : Value → Result RuntimeSettings
  runtime_settings value = do
    item ← closed_mapping env.source value runtime_keys runtime_keys (codes "runtime")
    client_id ← named (nonblank_string env.source) item (codes "client_id") (codes "runtime")
    topic_prefix ← named (topic_name env.source) item (codes "topic_prefix") (codes "runtime")
    discovery_prefix ←
        named (topic_name env.source) item (codes "discovery_prefix") (codes "runtime")
    status_topic ←
        named (topic_name env.source) item (codes "home_assistant_status_topic") (codes "runtime")
    ok (record {
      client_id = client_id;
      topic_prefix = topic_prefix;
      discovery_prefix = discovery_prefix;
      home_assistant_status_topic = status_topic;
    })

  unfoldable pub port_number : Value → Text → Result ℕ
  port_number v = bounded_integer env.source v 1 65535 (codes "1 and 65535")

  -- the two paths of the credentials, or neither
  unfoldable pub credential_paths : Fields → Bool → Bool → Result (Option Text × Option Text)
  credential_paths item true true = do
    user_path ← named path_of item (codes "username_file") (codes "mqtt")
    pass_path ← named path_of item (codes "password_file") (codes "mqtt")
    ok (some user_path, some pass_path)
  credential_paths item false false = ok (none, none)
  credential_paths item _ _ = err (
      invalid env.source (codes "mqtt")
        (codes "username_file and password_file must be configured together"))

  -- `_mqtt`
  unfoldable pub mqtt_settings : Value → Result MqttSettings
  unfolding credential_paths port_number
  mqtt_settings value = do
    item ← closed_mapping env.source value mqtt_keys (mqtt_keys ++ credential_keys) (codes "mqtt")
    paths ←
        credential_paths item (contains (codes "username_file") (field_names item))
          (contains (codes "password_file") (field_names item))
    host ← named (nonblank_string env.source) item (codes "host") (codes "mqtt")
    port ← named port_number item (codes "port") (codes "mqtt")
    keepalive ← named port_number item (codes "keepalive_seconds") (codes "mqtt")
    tls ← named (boolean env.source) item (codes "tls") (codes "mqtt")
    ok (record {
      host = host;
      port = port;
      keepalive_seconds = keepalive;
      tls = tls;
      username_file = paths.0;
      password_file = paths.1;
    })

  -- The loop of `_simulator_backend`.
  unfoldable pub simulator_devices :
      ℕ → List DeviceId → List Value → Result (List SimulatorDeviceSettings)
  simulator_devices index seen [] = ok []
  simulator_devices index seen (raw ∷ rest) = do
    let location = device_location index
    item ← closed_mapping env.source raw simulator_device_keys simulator_device_keys location
    device_id ← named (λ v. configured_id env.source v true) item (codes "device_id") location
    raise_if (contains device_id seen)
        (invalid env.source (location ++ codes ".device_id") (codes "must not be duplicate"))
    name ← named (nonblank_string env.source) item (codes "name") location
    profile_id ← known_profile_id env.source env.known_profiles item location
    initial_on ← named (boolean env.source) item (codes "initial_on") location
    others ← simulator_devices (index + 1) (device_id ∷ seen) rest
    ok (
        record {
          device_id = device_id;
          name = name;
          profile_id = profile_id;
          initial_on = initial_on;
        }
        ∷ others)

  -- `_simulator_backend`
  unfoldable pub simulator_settings : Value → Result BackendSettings
  simulator_settings value = do
    backend ←
        closed_mapping env.source value (codes "type" ∷ codes "devices" ∷ [])
          (codes "type" ∷ codes "devices" ∷ []) (codes "backend")
    raw ← raw_devices env.source backend
    devices ← simulator_devices 0 [] raw
    ok (simulator devices)

  -- `_g2_host`
  unfoldable pub g2_host : Value → Text → Result ℕ
  g2_host value location = do
    raw ← nonblank_string env.source value location
    (elim (env.parse_ipv4 raw) [
      | none ↦ err (invalid env.source location (codes "must be an RFC 1918 IPv4 literal"))
      | some address ↦
          if is_private address
          then ok address
          else err (invalid env.source location (codes "must be an RFC 1918 IPv4 literal"))
    ])

  -- The loop of `_harmony_backend`; `bindings` are the pairs that were seen.
  unfoldable pub harmony_devices :
      ℕ
      → List DeviceId
      → List (DeviceId × Text)
      → List Value
      → Result (List HarmonyG2DeviceSettings)
  harmony_devices index seen bindings [] = ok []
  harmony_devices index seen bindings (raw ∷ rest) = do
    let location = device_location index
    item ← closed_mapping env.source raw harmony_device_keys harmony_device_keys location
    device_id ← named (λ v. configured_id env.source v false) item (codes "device_id") location
    raise_if (contains device_id seen)
        (invalid env.source (location ++ codes ".device_id") (codes "must not be duplicate"))
    component_id ← named (nonblank_string env.source) item (codes "component_id") location
    raise_if (not (is_safe_segment component_id)) (
        invalid env.source (location ++ codes ".component_id")
          (codes "must be a safe component identifier"))
    raise_if (any (λ (b : DeviceId × Text). b.0 === device_id && b.1 === component_id) bindings)
        (invalid env.source location (codes "must not duplicate a device binding"))
    name ← named (nonblank_string env.source) item (codes "name") location
    profile_id ← known_profile_id env.source env.known_profiles item location
    others ←
        harmony_devices (index + 1) (device_id ∷ seen) ((device_id, component_id) ∷ bindings) rest
    ok (
        record {
          device_id = device_id;
          name = name;
          profile_id = profile_id;
          component_id = component_id;
        }
        ∷ others)

  -- `_harmony_backend`
  unfoldable pub harmony_settings : Value → Result BackendSettings
  harmony_settings value = do
    backend ← closed_mapping env.source value harmony_keys harmony_keys (codes "backend")
    raw ← raw_devices env.source backend
    devices ← harmony_devices 0 [] [] raw
    host ← named g2_host backend (codes "host") (codes "backend")
    certificate ← named path_of backend (codes "certificate_sha256_file") (codes "backend")
    session ← named path_of backend (codes "session_file") (codes "backend")
    ok (
        harmony_g2 (record {
          host = host;
          certificate_sha256_file = certificate;
          session_file = session;
          devices = devices;
        }))

  -- `_backend`
  unfoldable pub backend_settings : Value → Result BackendSettings
  backend_settings value = do
    item ← mapping env.source value (codes "backend")
    backend_type ← named (nonblank_string env.source) item (codes "type") (codes "backend")
    if backend_type === codes "simulator"
        then simulator_settings (Value.dict item)
        else if backend_type === codes "harmony_g2"
        then harmony_settings (Value.dict item)
        else err (
            invalid env.source (codes "backend.type")
              (codes "contains an unsupported backend type"))

  read_document : Option Value → Result Value
  read_document none = err (invalid env.source (codes "$") (codes "invalid TOML"))
  read_document (some v) = ok v

  read_content : Option Text → Result Text
  read_content none =
      err (invalid env.source (codes "$") (codes "could not read UTF-8 configuration"))
  read_content (some t) = ok t

  -- `load_config`, from the text of the file, or `none` where it cannot be read
  unfoldable pub load_config : Option Text → Result AppConfig
  unfolding read_document read_content
  load_config content = do
    raw_toml ← read_content content
    raw ← read_document (env.parse_toml raw_toml)
    root ←
        closed_mapping env.source raw (codes "runtime" ∷ codes "mqtt" ∷ codes "backend" ∷ [])
          (codes "runtime" ∷ codes "mqtt" ∷ codes "backend" ∷ []) (codes "$")
    runtime_value ← required_value env.source root (codes "runtime") (codes "$")
    runtime ← runtime_settings runtime_value
    mqtt_value ← required_value env.source root (codes "mqtt") (codes "$")
    mqtt ← mqtt_settings mqtt_value
    backend_value ← required_value env.source root (codes "backend") (codes "$")
    backend ← backend_settings backend_value
    ok (record { runtime = runtime; mqtt = mqtt; backend = backend })
