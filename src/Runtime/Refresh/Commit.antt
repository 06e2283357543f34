-- ===== src/Runtime/Refresh/Commit.antt =====
-- What a collection writes into the daemon's state (crates/xeneon-agent-core/src/runtime.rs,
-- `refresh_agents`, `refresh_herdr`, `refresh_t3code`).
pub mod Agreement
pub mod Reports
use xeneon_edge_agents.Base.{
  ℕ, String, Bool, true, false, not, ◌&&◌, Option, none, some, List, [], ◌∷◌, ◌==◌, string_eq,
  nat_eq, if◌then◌else◌, any, all, length, map, ltb,
}
use xeneon_edge_agents.Base.Map.{Map}
use xeneon_edge_agents.Model.{
  AgentBackend, AgentOrderMode, AgentOrderSnapshot, AgentView, ConnectionState, SessionState,
  SessionView, agent_backend_eq, agent_order_mode_eq, session_state_eq, no_order, sort_agents,
}
use xeneon_edge_agents.Herdr.{SessionDescriptor}
use xeneon_edge_agents.T3code.{T3codeObservation, T3codeTarget}
use xeneon_edge_agents.Runtime.State.{AgentTarget, RuntimeState, apply_agent_order}
use xeneon_edge_agents.Runtime.Services.{Services}
use xeneon_edge_agents.Runtime.Daemon.{Daemon, publish, touch, with_state}
use xeneon_edge_agents.Runtime.Observation.{Observed, apply_agent_observations}
use xeneon_edge_agents.Runtime.Refresh.Subscriptions.{Subscription, drain, retain_active}
use xeneon_edge_agents.Runtime.Refresh.Sessions.{
  Collected, nothing_collected, without_actions, collect_sessions,
}

-- The two clocks: `now_ms()` and `Instant::now()`.
pub record Now : Type 0 where
  pub ms : ℕ
  pub instant : ℕ

-- A roster that has met what the daemon remembers, in the order that is shown.
unfoldable pub commit_roster :
    ConnectionState
    → List SessionView
    → List AgentView
    → Map AgentTarget
    → AgentOrderSnapshot
    → Now
    → RuntimeState
    → RuntimeState
commit_roster connection sessions agents targets agent_order now s =
    let seen = apply_agent_observations agents targets s.observed s.focused_agents now.instant in
    record s {
      targets = targets;
      observed = seen.observed;
      focused_agents = seen.focused_agents;
      snapshot = touch now.ms (record (s.snapshot) {
        connection = connection;
        sessions = sessions;
        agents = apply_agent_order seen.agents agent_order;
        agent_order = agent_order;
      });
    }

abbrev pub t3code_targets : Map T3codeTarget → Map AgentTarget
t3code_targets [] = []
t3code_targets ((id, target) ∷ rest) = (id, AgentTarget.t3code target) ∷ t3code_targets rest

unfoldable pub t3code_connection : SessionState → ConnectionState
t3code_connection SessionState.connected = ConnectionState.connected
t3code_connection SessionState.offline = ConnectionState.offline
t3code_connection SessionState.stale = ConnectionState.reconnecting
t3code_connection SessionState.incompatible = ConnectionState.reconnecting

-- A stale session keeps the last roster visible without action targets.
unfoldable pub t3code_roster : T3codeObservation → RuntimeState → List AgentView × Map AgentTarget
t3code_roster o s =
    if o.session.state == SessionState.stale
    then (without_actions s.snapshot.agents, [])
    else (o.agents, t3code_targets o.targets)

unfoldable pub commit_t3code : T3codeObservation → Now → RuntimeState → RuntimeState
unfolding t3code_roster t3code_connection commit_roster
commit_t3code o now s =
    let (agents, targets) = t3code_roster o s in
    let agent_order : AgentOrderSnapshot = record {
      available = o.session.state == SessionState.connected;
      mode = s.t3code_order;
    } in
    let committed =
      commit_roster (t3code_connection o.session.state) (o.session ∷ []) agents targets agent_order
        now s in
    record committed { t3code_sequence = o.projection_sequence }

-- Discovery failed: everything stays visible and nothing can be acted on.
unfoldable pub commit_undiscovered : ℕ → RuntimeState → RuntimeState
commit_undiscovered now s = record s {
  targets = [];
  snapshot = touch now (record (s.snapshot) {
    connection = ConnectionState.offline;
    sessions =
        map {A = SessionView}
          (λ session. record session {
            state = SessionState.stale;
            message = some "Herdr discovery is unavailable";
          })
          s.snapshot.sessions;
    agents = sort_agents (without_actions s.snapshot.agents);
    agent_order = no_order;
  });
}

-- The sessions' common ordering, if all are connected and agree.
unfoldable pub common_order : List SessionDescriptor → Collected → AgentOrderSnapshot
common_order descriptors c = elim c.order_modes [
  | [] ↦ no_order
  | mode ∷ rest ↦
      if not (length descriptors == 0)
        && c.connected == length descriptors
        && length (mode ∷ rest) == c.connected
        && all (λ m. m == mode) (mode ∷ rest)
      then record { available = true; mode = mode }
      else no_order
]

unfoldable pub herdr_connection : List SessionDescriptor → Collected → ConnectionState
herdr_connection descriptors c =
    if length descriptors == 0
    then ConnectionState.offline
    else if c.connected == length descriptors
    then ConnectionState.connected
    else if ltb 0 c.connected
    then ConnectionState.degraded
    else ConnectionState.reconnecting

unfoldable pub commit_herdr : List SessionDescriptor → Collected → Now → RuntimeState → RuntimeState
unfolding common_order herdr_connection commit_roster
commit_herdr descriptors c now s =
    commit_roster (herdr_connection descriptors c) c.sessions c.agents c.targets
      (common_order descriptors c) now s

-- A commit that is dropped if another manager has been chosen in the meantime.
abbrev pub guarded : AgentBackend → (RuntimeState → RuntimeState) → Daemon → Daemon
guarded backend commit d =
    if d.state.backend == backend then publish (with_state d (commit d.state)) else d

-- Other handlers may run while a collection waits for Herdr or T3 Code. `seen` is the daemon as the
-- collection reads it at its start, and `d` the daemon whose state it locks at its end.
module _ (S : Services) where
  unfoldable pub refresh_t3code : Now → Daemon → Daemon → S.World → Daemon × S.World
  unfolding commit_t3code
  refresh_t3code now seen d w =
      let (o, w') = S.observe_t3code seen.state.snapshot.daemon_epoch now.ms w in
      (guarded AgentBackend.t3code (commit_t3code o now) d, w')

  unfoldable pub refresh_herdr :
      Now
      → Map (Subscription S)
      → Daemon
      → Daemon
      → S.World
      → Map (Subscription S) × Daemon × S.World
  unfolding commit_undiscovered commit_herdr collect_sessions retain_active
  refresh_herdr now subscriptions seen d w =
      let (found, w') = S.discover w in
      if not (seen.state.backend == AgentBackend.herdr) then (subscriptions, d, w) else elim found [
        | none ↦ (subscriptions, guarded AgentBackend.herdr (commit_undiscovered now.ms) d, w')
        | some descriptors ↦
            let (subscriptions', c, w'') =
              collect_sessions S seen.state.snapshot.daemon_epoch now.ms seen.state.snapshot.agents
                descriptors subscriptions nothing_collected w' in
            let active =
              λ (name : String). any (λ (e : SessionDescriptor). e.name == name) descriptors in
            let (kept, w''') = retain_active S active subscriptions' w'' in
            (kept, guarded AgentBackend.herdr (commit_herdr descriptors c now) d, w''')
      ]

  -- `chosen` is the manager that was read before the collection waited for its lock.
  unfoldable pub refresh_agents :
      Now
      → Map (Subscription S)
      → AgentBackend
      → Daemon
      → Daemon
      → S.World
      → Map (Subscription S) × Daemon × S.World
  unfolding refresh_herdr refresh_t3code drain
  refresh_agents now subscriptions chosen seen d w =
      let (drained, w') = drain S subscriptions w in
      let (d', w'') = refresh_t3code now seen d w' in
      elim chosen [
        | AgentBackend.herdr ↦ refresh_herdr now subscriptions seen d w
        | AgentBackend.t3code ↦ (drained, d', w'')
      ]
