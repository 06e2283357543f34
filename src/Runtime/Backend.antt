-- ===== src/Runtime/Backend.antt =====
-- `process_backend_command` of crates/xeneon-agent-core/src/runtime.rs: the switch between agent
-- managers.
pub mod Switching
use xeneon_edge_agents.Base.{ℕ, String, Bool, true, not, none, [], ◌==◌, nat_eq, if◌then◌else◌}
use xeneon_edge_agents.Model.{
  ActionKind, ActionResult, AgentBackend, ConnectionState, PortalCommand, no_order,
  agent_backend_eq,
}
use xeneon_edge_agents.Runtime.State.{RuntimeState, PersistedBackend, action_ok, action_error}
use xeneon_edge_agents.Runtime.Services.{Services}
use xeneon_edge_agents.Runtime.Daemon.{Daemon, publish, try_send, touch, with_state}

-- The key that the switch puts in the queue of sessions to collect again.
abbrev pub backend_switch_invalidation : String
backend_switch_invalidation = "\0backend"

-- The mode that the action asks for; the caller hands over manager actions only.
abbrev pub requested_backend : ActionKind → AgentBackend
requested_backend ActionKind.backend_herdr = AgentBackend.herdr
requested_backend _ = AgentBackend.t3code

-- The state of a daemon that has switched to `mode` and has collected nothing yet.
unfoldable pub switch_backend : AgentBackend → ℕ → RuntimeState → RuntimeState
switch_backend mode now s = record s {
  backend = mode;
  targets = [];
  observed = [];
  focused_agents = [];
  t3code_sequence = none;
  snapshot = touch now (record (s.snapshot) {
    sessions = [];
    agents = [];
    agent_order = no_order;
    connection = ConnectionState.reconnecting;
    backend = record { mode = mode; switchable = true };
  });
}

module _ (S : Services) where
  unfoldable pub process_backend_command :
      PortalCommand → ℕ → Daemon → S.World → ActionResult × Daemon × S.World
  unfolding switch_backend
  process_backend_command command now d w =
      let mode = requested_backend command.action in
      let s = switch_backend mode now d.state in
      let persisted : PersistedBackend = record {
        backend = s.backend;
        t3code_order = s.t3code_order;
      } in
      if not (command.sequence == d.state.snapshot.sequence)
      then (
        action_error command.request_id "stale_snapshot"
            "the portal snapshot changed before the action",
        d,
        w,
      )
      else if d.state.backend == mode
      then (action_ok command.request_id "agent_backend_unchanged", d, w)
      else (
        action_ok command.request_id "agent_backend_updated",
        try_send backend_switch_invalidation (publish (with_state d s)),
        S.persist persisted w,
      )
