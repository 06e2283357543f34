-- ===== src/Model/Kinds.antt =====
-- The enums of crates/xeneon-agent-core/src/model.rs. Serde's spelling of the values is left out:
-- a daemon that holds a value has parsed it already, and an unknown spelling is `unknown`.
use xeneon_edge_agents.Base.{ℕ, String, Eq}

pub data AgentStatus : Type 0 where
  blocked done working idle unknown : AgentStatus

unfoldable pub attention_rank : AgentStatus → ℕ
attention_rank AgentStatus.blocked = 0
attention_rank AgentStatus.done = 1
attention_rank AgentStatus.working = 2
attention_rank AgentStatus.idle = 3
attention_rank AgentStatus.unknown = 4

pub data ConnectionState : Type 0 where
  connected degraded reconnecting offline : ConnectionState

pub data SessionState : Type 0 where
  connected stale incompatible offline : SessionState

pub data VoiceState : Type 0 where
  idle recording processing error unavailable : VoiceState

-- `open_agent` is the source's `Open`.
pub data ActionKind : Type 0 where
  open_agent zoom approve interrupt restore_focus chatgpt_desktop claude_desktop : ActionKind
  voice_start voice_stop voice_cancel order_grouped order_priority : ActionKind
  backend_herdr backend_t3code : ActionKind

pub data AgentBackend : Type 0 where
  herdr t3code : AgentBackend

unfoldable pub as_str : AgentBackend → String
as_str AgentBackend.herdr = "herdr"
as_str AgentBackend.t3code = "t3code"

pub data AgentOrderMode : Type 0 where
  grouped priority : AgentOrderMode

pub data UsageKind : Type 0 where
  quota local_budget : UsageKind

AgentStatus-discrete : Discrete AgentStatus
AgentStatus-discrete = hlevel

SessionState-discrete : Discrete SessionState
SessionState-discrete = hlevel

VoiceState-discrete : Discrete VoiceState
VoiceState-discrete = hlevel

ActionKind-discrete : Discrete ActionKind
ActionKind-discrete = hlevel

AgentBackend-discrete : Discrete AgentBackend
AgentBackend-discrete = hlevel

AgentOrderMode-discrete : Discrete AgentOrderMode
AgentOrderMode-discrete = hlevel

UsageKind-discrete : Discrete UsageKind
UsageKind-discrete = hlevel

instance unfoldable pub agent_status_eq : Eq AgentStatus
unfolding AgentStatus-discrete
agent_status_eq = record { dec = AgentStatus-discrete }

instance unfoldable pub session_state_eq : Eq SessionState
unfolding SessionState-discrete
session_state_eq = record { dec = SessionState-discrete }

instance unfoldable pub voice_state_eq : Eq VoiceState
unfolding VoiceState-discrete
voice_state_eq = record { dec = VoiceState-discrete }

instance unfoldable pub action_kind_eq : Eq ActionKind
unfolding ActionKind-discrete
action_kind_eq = record { dec = ActionKind-discrete }

instance unfoldable pub agent_backend_eq : Eq AgentBackend
unfolding AgentBackend-discrete
agent_backend_eq = record { dec = AgentBackend-discrete }

instance unfoldable pub agent_order_mode_eq : Eq AgentOrderMode
unfolding AgentOrderMode-discrete
agent_order_mode_eq = record { dec = AgentOrderMode-discrete }

instance unfoldable pub usage_kind_eq : Eq UsageKind
unfolding UsageKind-discrete
usage_kind_eq = record { dec = UsageKind-discrete }
