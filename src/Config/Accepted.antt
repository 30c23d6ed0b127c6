-- ===== src/Config/Accepted.antt =====
-- What an accepted configuration guarantees to the rest of the program.
use smartenit_rescue.Prelude.Text.{codes, text_eq}
use smartenit_rescue.Prelude.Value.{field_names, Fields, Value}
use smartenit_rescue.Prelude.Number.{pos, negsuc}
use smartenit_rescue.Prelude.{
  none, true, false, contains, Bool, ◌++◌, Option, ℕ, some, ◌≡◌, ◌≤◌, arith,
}
use smartenit_rescue.Prelude.Result.{Text, Result, ok, >>=-eq-ok}
use smartenit_rescue.Config.Settings.{RuntimeSettings, MqttSettings}
use smartenit_rescue.Config.Fields.{
  boolean, topic_name, nonblank_string, closed_mapping, required_value, bounded_integer,
}
use smartenit_rescue.Config.Loading.{
  path_of, credential_keys, mqtt_keys, credential_paths, port_number, named, runtime_keys,
  Environment, runtime_settings, mqtt_settings,
}
use smartenit_rescue.Backends.Base.{CapabilityAddress}
use smartenit_rescue.Mqtt.Topics.{TopicLayout, command_topic, parse_command_topic}
use smartenit_rescue.Mqtt.Topics.RoundTrip.{IsPlain, IsAddress, parse_command_topic-command_topic}

topic_name-IsPlain :
    (source : Text) (v : Value) (location t : Text)
    → topic_name source v location ≡ ok t
    → IsPlain t
unfolding topic_name
topic_name-IsPlain source v location t h =
    let (s, _, f) = >>=-eq-ok (nonblank_string source v location) _ h in
    record { no_plus = ground (arith, f); no_hash = ground (arith, f); no_nul = ground (arith, f) }

-- The topics of settings, as the command line makes them.
abbrev pub layout_of : RuntimeSettings → TopicLayout
layout_of s = record {
  topic_prefix = s.topic_prefix;
  discovery_prefix = s.discovery_prefix;
  home_assistant_status_topic = s.home_assistant_status_topic;
}

module _ (env : Environment) where
  -- A topic prefix that was accepted is plain, so with accepted settings every command topic of a
  -- canonical address is read back as that address.
  pub command_topics_round_trip :
      (v : Value) (s : RuntimeSettings) (a : CapabilityAddress)
      → runtime_settings env v ≡ ok s
      → IsAddress a
      → parse_command_topic (layout_of s) (command_topic (layout_of s) a) ≡ ok (some a)
  unfolding runtime_settings
  command_topics_round_trip v s a h k =
      parse_command_topic-command_topic (layout_of s) a (plain h) k
    where
      plain : runtime_settings env v ≡ ok s → IsPlain s.topic_prefix
      plain h =
          let (item, _, h1) =
            >>=-eq-ok (closed_mapping env.source v runtime_keys runtime_keys (codes "runtime")) _
              h in
          let (c, _, h2) =
            >>=-eq-ok
              (named env (nonblank_string env.source) item (codes "client_id") (codes "runtime")) _
              h1 in
          let (p, e, h3) =
            >>=-eq-ok
              (named env (topic_name env.source) item (codes "topic_prefix") (codes "runtime")) _
              h2 in
          let (d, _, h4) =
            >>=-eq-ok
              (named env (topic_name env.source) item (codes "discovery_prefix") (codes "runtime"))
              _ h3 in
          let (t, _, h5) =
            >>=-eq-ok
              (named env (topic_name env.source) item (codes "home_assistant_status_topic")
                (codes "runtime"))
              _ h4 in
          let (w, _, f) =
            >>=-eq-ok (required_value env.source item (codes "topic_prefix") (codes "runtime")) _
              e in
          let same : p ≡ s.topic_prefix = ground (arith, h5) in
          rw⁻¹ same (topic_name-IsPlain env.source w _ p f)

bounded_integer_range :
    (source : Text) (v : Value) (lo hi : ℕ) (range location : Text) (n : ℕ)
    → bounded_integer source v lo hi range location ≡ ok n
    → (lo ≤ n) × (n ≤ hi)
unfolding bounded_integer
bounded_integer_range source (Value.int (pos m)) lo hi range location n h = ground (arith, h)
bounded_integer_range source (Value.int (negsuc m)) lo hi range location n h = cc
bounded_integer_range source Value.null lo hi range location n h = cc
bounded_integer_range source (Value.bool _) lo hi range location n h = cc
bounded_integer_range source (Value.float _) lo hi range location n h = cc
bounded_integer_range source (Value.str _) lo hi range location n h = cc
bounded_integer_range source (Value.list _) lo hi range location n h = cc
bounded_integer_range source (Value.dict _) lo hi range location n h = cc
bounded_integer_range source Value.other lo hi range location n h = cc

-- The two files of the credentials are there together, or neither is.
abbrev pub IsPair : Option Text → Option Text → Type 0
IsPair (some u) (some p) = Unit
IsPair none none = Unit
IsPair _ _ = ⊥

module _ (env : Environment) where
  named_value {ℓ} :
      {A : Type ℓ} (check : Value → Text → Result A) (item : Fields) (name location : Text) (a : A)
      → named env check item name location ≡ ok a
      → (w : Value) × (check w (location ++ (codes "." ++ name)) ≡ ok a)
  named_value check item name location a h =
      let (w, _, f) = >>=-eq-ok (required_value env.source item name location) _ h in (w, f)

  credential_paths-IsPair :
      (item : Fields) (u p : Bool) (paths : Option Text × Option Text)
      → credential_paths env item u p ≡ ok paths
      → IsPair paths.0 paths.1
  unfolding credential_paths
  credential_paths-IsPair item true true paths h =
      let (u, _, h1) =
        >>=-eq-ok (named env (path_of env) item (codes "username_file") (codes "mqtt")) _ h in
      let (p, _, h2) =
        >>=-eq-ok (named env (path_of env) item (codes "password_file") (codes "mqtt")) _ h1 in
      let same : (some u, some p) ≡ paths = ground (arith, h2) in rw⁻¹ same tt
  credential_paths-IsPair item false false paths h =
      let same : (none, none) ≡ paths = ground (arith, h) in rw⁻¹ same tt
  credential_paths-IsPair item true false paths h = cc
  credential_paths-IsPair item false true paths h = cc

  -- An accepted connection has a port and a keepalive from 1 to 65535, and both files of the
  -- credentials or neither.
  pub mqtt_settings_bounds :
      (v : Value) (m : MqttSettings)
      → mqtt_settings env v ≡ ok m
      → ((1 ≤ m.port) × (m.port ≤ 65535))
        × ((1 ≤ m.keepalive_seconds) × (m.keepalive_seconds ≤ 65535))
        × IsPair m.username_file m.password_file
  unfolding mqtt_settings port_number
  mqtt_settings_bounds v m h =
      let (item, _, h1) =
        >>=-eq-ok
          (closed_mapping env.source v mqtt_keys (mqtt_keys ++ credential_keys) (codes "mqtt")) _
          h in
      let (paths, e, h2) =
        >>=-eq-ok
          (credential_paths env item (contains (codes "username_file") (field_names item))
            (contains (codes "password_file") (field_names item)))
          _ h1 in
      let (host, _, h3) =
        >>=-eq-ok (named env (nonblank_string env.source) item (codes "host") (codes "mqtt")) _
          h2 in
      let (port, p, h4) =
        >>=-eq-ok (named env (port_number env) item (codes "port") (codes "mqtt")) _ h3 in
      let (keepalive, k, h5) =
        >>=-eq-ok (named env (port_number env) item (codes "keepalive_seconds") (codes "mqtt")) _
          h4 in
      let (tls, _, h6) =
        >>=-eq-ok (named env (boolean env.source) item (codes "tls") (codes "mqtt")) _ h5 in
      let (pv, pe) = named_value (port_number env) item (codes "port") (codes "mqtt") port p in
      let (kv, ke) =
        named_value (port_number env) item (codes "keepalive_seconds") (codes "mqtt") keepalive k in
      let same_port : port ≡ m.port = ground (arith, h6) in
      let same_keepalive : keepalive ≡ m.keepalive_seconds = ground (arith, h6) in
      let same_user : paths.0 ≡ m.username_file = ground (arith, h6) in
      let same_pass : paths.1 ≡ m.password_file = ground (arith, h6) in
      (
        rw⁻¹ same_port (bounded_integer_range env.source pv 1 65535 _ _ port pe),
        rw⁻¹ same_keepalive (bounded_integer_range env.source kv 1 65535 _ _ keepalive ke),
        rw⁻¹ (same_user, same_pass) (credential_paths-IsPair item _ _ paths e),
      )
