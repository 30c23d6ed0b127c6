-- ===== src/Tests/Fixtures.antt =====
-- Concrete inputs: one simulated device with a writable On/off at endpoint 1, and a quiet world.
use smartenit_rescue.Prelude.{ℕ, true, false, none, [], ◌∷◌}
use smartenit_rescue.Prelude.Number.{pos}
use smartenit_rescue.Prelude.Text.{codes}
use smartenit_rescue.Prelude.Datetime.{Datetime, utc}
use smartenit_rescue.Models.Capability.{on_off, synthetic}
use smartenit_rescue.Models.Identity.{DeviceId, EndpointId}
use smartenit_rescue.Models.State.{online, observed, bool, Observation, Command}
use smartenit_rescue.Models.Device.{DeviceAvailability}
use smartenit_rescue.Profiles.Model.{available, active, CapabilityProfile, DeviceProfile}
use smartenit_rescue.Backends.Base.{CapabilityAddress, observable, RuntimeDevice, Backend}
use smartenit_rescue.Backends.Simulator.{Simulator, simulator}
use smartenit_rescue.Mqtt.Events.{Message}
use smartenit_rescue.Mqtt.Topics.{TopicLayout}
use smartenit_rescue.Runtime.{World, Config, Runtime}

abbrev pub device : DeviceId
device = record { value = codes "0200000000000001" }

abbrev pub endpoint : EndpointId
endpoint = record { value = 1 }

abbrev pub address : CapabilityAddress
address = record { device_id = device; endpoint = endpoint; capability = on_off }

abbrev pub on_off_profile : CapabilityProfile
on_off_profile = record {
  capability = on_off;
  driver = codes "zigbee_on_off";
  cluster_id = pos 6;
  readback = available;
  writable = true;
  support_level = synthetic;
  unit = none;
  normalization = none;
}

abbrev pub profile : DeviceProfile
profile = record {
  schema_version = pos 1;
  profile_id = codes "example-switch";
  manufacturer = codes "Example";
  models = codes "Switch" ∷ [];
  match_rules = record {
    zigbee_manufacturer_ids = [];
    zigbee_model_ids = [];
    required_endpoint_clusters = (endpoint, pos 6 ∷ []) ∷ [];
    harmony_required_processors = [];
    harmony_required_components = [];
  };
  endpoints = (endpoint, record { endpoint = endpoint; capabilities = on_off_profile ∷ [] }) ∷ [];
  availability = record { device_class = active; stale_after_seconds = pos 300 };
  limitations = [];
  evidence = [];
}

abbrev pub runtime_device : RuntimeDevice
runtime_device = record {
  device = record {
    device_id = device;
    manufacturer = codes "Example";
    model = codes "Switch";
    endpoints = endpoint ∷ [];
  };
  name = codes "Lamp";
  profile = profile;
  capabilities = record { endpoint = endpoint; capability = on_off; mode = observable } ∷ [];
}

abbrev pub clock : ℕ → Datetime
clock n = record { instant = n; zone = utc }

abbrev pub first_observation : Observation
first_observation = record {
  value = bool false;
  source = codes "simulator";
  confidence = observed;
  observed_at = clock 0;
  sequence = 0;
}

abbrev pub is_up : DeviceAvailability
is_up = record {
  device_id = device;
  state = online;
  observed_at = clock 0;
  source = codes "simulator";
  detail = none;
}

abbrev pub sim : Simulator
sim = record {
  is_closed = false;
  observations = (address, first_observation) ∷ [];
  sequences = (address, 0) ∷ [];
  capabilities = (address, on_off_profile) ∷ [];
  availability = (device, is_up) ∷ [];
  devices = runtime_device ∷ [];
  ticks = 1;
}

abbrev pub topics : TopicLayout
topics = record {
  topic_prefix = codes "rescue";
  discovery_prefix = codes "homeassistant";
  home_assistant_status_topic = codes "homeassistant/status";
}

abbrev pub config : Config
config = record {
  topics = topics;
  home_assistant_status_topic = codes "homeassistant/status";
  devices = runtime_device ∷ [];
  capability_modes = (address, observable) ∷ [];
}

abbrev pub world : World
world = record {
  outcome = λ _ _. none;
  now = λ _. clock 7;
  request_id = λ _. codes "r1";
  has_delivery = true;
  codec = record { dumps = λ _. codes "{}"; iso_utc = λ _. codes "Z" };
  version = codes "1";
}

abbrev pub backend : Backend
backend = simulator clock

abbrev pub bridge : Runtime Simulator
bridge = record {
  is_connected = true;
  is_closed = false;
  published_availability = [];
  backend = sim;
  trace = [];
}

abbrev pub command_on : Command
command_on = record {
  request_id = codes "r1";
  device_id = device;
  endpoint = endpoint;
  capability = on_off;
  desired = bool true;
}

abbrev pub message_on : Message
message_on = record {
  topic = codes "rescue/0200000000000001/1/on_off/command";
  payload = codes "ON";
  qos = 1;
  retain = false;
}
