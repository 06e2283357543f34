-- ===== src/Runtime/State.antt =====
-- The daemon's state (crates/xeneon-agent-core/src/runtime.rs). The locks around its parts are
-- left out: a handler is a function on the parts that it holds the locks of.
use xeneon_edge_agents.Base.{ℕ, ◌+◌, ◌^◌, ◌-◌, min, String, Bool, true, false, Option, List}
use xeneon_edge_agents.Base.{◌&&◌, ◌==◌, if◌then◌else◌}
use xeneon_edge_agents.Base.Compare.{then_with, str_cmp}
use xeneon_edge_agents.Base.Sort.{sort_by}
use xeneon_edge_agents.Base.Map.{Map}
use xeneon_edge_agents.Model.{
  AgentStatus, AgentBackend, AgentOrderMode, AgentOrderSnapshot, AgentView, PortalSnapshot,
  ActionResult, schema_version_supported, sort_agents, agent_order_mode_eq,
}
use xeneon_edge_agents.Herdr.{HerdrTarget}
use xeneon_edge_agents.T3code.{T3codeTarget, session_name}
use Prim.Native.Nat.{compare, Ordering}

pub data AgentTarget : Type 0 where
  herdr : HerdrTarget → AgentTarget
  t3code : T3codeTarget → AgentTarget

unfoldable pub target_session : AgentTarget → String
target_session (AgentTarget.herdr t) = t.session
target_session (AgentTarget.t3code t) = session_name

unfoldable pub target_state_change_seq : AgentTarget → ℕ
target_state_change_seq (AgentTarget.herdr t) = t.state_change_seq
target_state_change_seq (AgentTarget.t3code t) = t.state_change_seq

unfoldable pub target_acknowledged : AgentTarget → Bool
target_acknowledged (AgentTarget.herdr t) = false
target_acknowledged (AgentTarget.t3code t) = t.acknowledged

pub record PersistedBackend : Type 0 where
  pub backend : AgentBackend
  pub t3code_order : AgentOrderMode

-- `since` is an `Instant`, in nanoseconds of the monotonic clock.
pub record ObservedAgent : Type 0 where
  pub status : AgentStatus
  pub state_change_seq : ℕ  -- u64
  pub since : ℕ
  pub review_ready : Bool

-- A client's `Uuid` is its text.
pub record RuntimeState : Type 0 where
  pub snapshot : PortalSnapshot
  pub backend : AgentBackend
  pub t3code_order : AgentOrderMode
  pub t3code_sequence : Option ℕ
  pub targets : Map AgentTarget
  pub observed : Map ObservedAgent
  pub focused_agents : Map (Option String)
  pub voice_error_latched : Bool
  pub voice_client_owner : Option String

abbrev pub u64_max : ℕ
u64_max = 2 ^ 64 - 1

-- `u64::saturating_add(1)`
abbrev pub next_sequence : ℕ → ℕ
next_sequence n = min (n + 1) u64_max

unfoldable pub source_cmp : AgentView → AgentView → Ordering
source_cmp left right =
    then_with (compare left.source_order right.source_order) (str_cmp left.id right.id)

unfoldable pub apply_agent_order : List AgentView → AgentOrderSnapshot → List AgentView
unfolding source_cmp
apply_agent_order agents order =
    if order.available && order.mode == AgentOrderMode.grouped
    then sort_by source_cmp agents
    else sort_agents agents

unfoldable pub action_ok : String → String → ActionResult
action_ok request_id message = record {
  schema_version = schema_version_supported;
  request_id = request_id;
  succeeded = true;
  code = "ok";
  message = message;
}

unfoldable pub action_error : String → String → String → ActionResult
action_error request_id code message = record {
  schema_version = schema_version_supported;
  request_id = request_id;
  succeeded = false;
  code = code;
  message = message;
}
