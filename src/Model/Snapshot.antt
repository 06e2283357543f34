-- ===== src/Model/Snapshot.antt =====
-- The snapshot of crates/xeneon-agent-core/src/model.rs that the daemon publishes. An `f64` is the
-- 64 bits that stand for it; `==` on it is that of IEEE 754.
use xeneon_edge_agents.Base.{
  ℕ, ◌*◌, ◌%◌, ◌^◌, String, Bool, true, false, ◌&&◌, ◌||◌, not, Option, none, some, List, [], ◌==◌,
  nat_eq, ltb, string_eq, option_eq,
}
use xeneon_edge_agents.Model.Kinds.{
  ConnectionState, SessionState, VoiceState, AgentBackend, AgentOrderMode, UsageKind,
  voice_state_eq, usage_kind_eq,
}
use xeneon_edge_agents.Model.Agent.{AgentView}

abbrev pub schema_version_supported : ℕ
schema_version_supported = 1

abbrev pub F64 : Type 0
F64 = ℕ

-- Not a number: all exponent bits are set and some bit of the fraction is.
abbrev is_nan : F64 → Bool
is_nan x = ltb (2047 * 2 ^ 52) (x % 2 ^ 63)

unfoldable pub f64_eq : F64 → F64 → Bool
f64_eq x y = not (is_nan x) && not (is_nan y) && (x == y || (x % 2 ^ 63 == 0 && y % 2 ^ 63 == 0))

pub record VoiceSnapshot : Type 0 where
  pub state : VoiceState
  pub owned : Bool

pub record AgentBackendSnapshot : Type 0 where
  pub mode : AgentBackend
  pub switchable : Bool

pub record AgentOrderSnapshot : Type 0 where
  pub available : Bool
  pub mode : AgentOrderMode

-- `AgentOrderSnapshot::default()`
abbrev pub no_order : AgentOrderSnapshot
no_order = record { available = false; mode = AgentOrderMode.grouped }

pub record UsageWindow : Type 0 where
  pub label : String
  pub utilization : F64
  pub reset_at_ms : Option ℕ

pub record ProviderUsage : Type 0 where
  pub id : String
  pub label : String
  pub kind : UsageKind
  pub available : Bool
  pub stale : Bool
  pub source : String
  pub status : String
  pub plan : Option String
  pub model : Option String
  pub primary : Option UsageWindow
  pub secondary : Option UsageWindow
  pub today_tokens : Option ℕ
  pub tokens_per_hour : Option ℕ
  pub last_updated_ms : Option ℕ

pub record AiUsageSnapshot : Type 0 where
  pub providers : List ProviderUsage

pub record MicroSnapshot : Type 0 where
  pub connected : Bool
  pub controlled : Bool
  pub slots : List String
  pub firmware : Option String
  pub battery : Option ℕ  -- u8
  pub charging : Bool
  pub layer : Option ℕ  -- u8
  pub profile : Option ℕ  -- u8
  pub last_updated_ms : Option ℕ

pub record SessionView : Type 0 where
  pub name : String
  pub state : SessionState
  pub version : Option String
  pub protocol : Option ℕ  -- u32
  pub last_sync_ms : Option ℕ
  pub message : Option String

pub record Metric : Type 0 where
  pub available : Bool
  pub value : Option F64
  pub unit : String

unfoldable pub metric_unavailable : String → Metric
metric_unavailable unit = record { available = false; value = none; unit = unit }

unfoldable pub metric_available : F64 → String → Metric
metric_available value unit = record { available = true; value = some value; unit = unit }

pub record HealthSnapshot : Type 0 where
  pub cpu : Metric
  pub cpu_temperature : Metric
  pub gpu : Metric
  pub gpu_temperature : Metric
  pub memory : Metric
  pub network_down : Metric
  pub network_up : Metric
  pub battery : Metric

-- `HealthSnapshot::default()`
unfoldable pub health_default : HealthSnapshot
unfolding metric_unavailable
health_default = record {
  cpu = metric_unavailable "%";
  cpu_temperature = metric_unavailable "°C";
  gpu = metric_unavailable "%";
  gpu_temperature = metric_unavailable "°C";
  memory = metric_unavailable "%";
  network_down = metric_unavailable "B/s";
  network_up = metric_unavailable "B/s";
  battery = metric_unavailable "%";
}

-- `MicroSnapshot::default()`
abbrev pub micro_default : MicroSnapshot
micro_default = record {
  connected = false;
  controlled = false;
  slots = [];
  firmware = none;
  battery = none;
  charging = false;
  layer = none;
  profile = none;
  last_updated_ms = none;
}

pub record PortalSnapshot : Type 0 where
  pub schema_version : ℕ  -- u32
  pub sequence : ℕ  -- u64
  pub daemon_epoch : String
  pub generated_at_ms : ℕ  -- u64
  pub connection : ConnectionState
  pub sessions : List SessionView
  pub agents : List AgentView
  pub agent_order : AgentOrderSnapshot
  pub backend : AgentBackendSnapshot
  pub voice : VoiceSnapshot
  pub usage : AiUsageSnapshot
  pub micro : MicroSnapshot
  pub health : HealthSnapshot

-- `PortalSnapshot::empty`
unfoldable pub empty_snapshot : String → PortalSnapshot
unfolding health_default
empty_snapshot epoch = record {
  schema_version = schema_version_supported;
  sequence = 0;
  daemon_epoch = epoch;
  generated_at_ms = 0;
  connection = ConnectionState.offline;
  sessions = [];
  agents = [];
  agent_order = no_order;
  backend = record { mode = AgentBackend.herdr; switchable = false };
  voice = record { state = VoiceState.unavailable; owned = false };
  usage = record { providers = [] };
  micro = micro_default;
  health = health_default;
}
