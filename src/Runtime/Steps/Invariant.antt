-- ===== src/Runtime/Steps/Invariant.antt =====
-- What the state of crates/xeneon-agent-core/src/runtime.rs always satisfies between two handlers.
use xeneon_edge_agents.Base.{
  ℕ, ◌≡◌, inl, inr, String, true, Option-cases, Option, List, [], ◌∷◌, arith, string_eq,
}
use xeneon_edge_agents.Base.Map.{Map}
use xeneon_edge_agents.Model.{
  ActionResult, AgentBackend, AgentOrderMode, PortalCommand, VoiceState, agent_backend_eq,
}
use xeneon_edge_agents.Runtime.State.{PersistedBackend}
use xeneon_edge_agents.Runtime.Services.{Services}
use xeneon_edge_agents.Runtime.Daemon.{Daemon, publish, try_send, try_send_all}
use xeneon_edge_agents.Runtime.Collect.{
  store_health, store_micro, store_usage, acknowledge_review_ready,
}
use xeneon_edge_agents.Runtime.Voice.{
  cancel_voice_for_disconnected_client, refresh_voice, process_voice_command,
}
use xeneon_edge_agents.Runtime.Backend.{switch_backend, process_backend_command}
use xeneon_edge_agents.Runtime.Order.{requested_mode, set_t3code_order, process_agent_order_command}
use xeneon_edge_agents.Runtime.Order.Outcomes.{Ordered, order_herdr-Ordered}
use xeneon_edge_agents.Runtime.Command.{
  Route, route, dispatch, process_agent_command, process_restore, process_desktop, perform_t3code,
  perform_herdr, process_command,
}
use xeneon_edge_agents.Runtime.Command.Branches.{process_command-keeps}
use xeneon_edge_agents.Runtime.Steps.{Step, Reach, initial_daemon}
use xeneon_edge_agents.Runtime.Steps.Targets.{
  routes_to, collect_sessions-routes_to, t3code_roster-routes_to,
}
use xeneon_edge_agents.Runtime.Refresh.{
  Subscription, Now, refresh_agents, refresh_herdr, refresh_t3code, commit_t3code, commit_herdr,
  commit_undiscovered, commit_roster,
}

-- Clients were sent the present snapshot. It names the manager that is in charge, all targets are
-- that manager's, and a voice failure that is kept is shown.
pub record IsConsistent (d : Daemon) : Type 0 where
  pub shown : d.published ≡ d.state.snapshot
  pub named : d.state.snapshot.backend.mode ≡ d.state.backend
  pub routed : routes_to d.state.backend d.state.targets ≡ true
  pub latched : d.state.voice_error_latched ≡ true → d.state.snapshot.voice.state ≡ VoiceState.error

store_health-IsConsistent :
    (d : Daemon) (sample : _) (now : ℕ) → IsConsistent d → IsConsistent (store_health sample now d)
unfolding store_health
store_health-IsConsistent d sample now c = ground arith

store_micro-IsConsistent :
    (d : Daemon) (sample : _) (now : ℕ) → IsConsistent d → IsConsistent (store_micro sample now d)
unfolding store_micro
store_micro-IsConsistent d sample now c = ground arith

store_usage-IsConsistent :
    (d : Daemon) (sample : _) (now : ℕ) → IsConsistent d → IsConsistent (store_usage sample now d)
unfolding store_usage
store_usage-IsConsistent d sample now c = ground arith

acknowledge-IsConsistent :
    (id : String) (now : ℕ) (d : Daemon)
    → IsConsistent d
    → IsConsistent (acknowledge_review_ready id now d)
unfolding acknowledge_review_ready
acknowledge-IsConsistent id now d c = ground arith

try_send_all-IsConsistent :
    (names : List String) (d : Daemon) → IsConsistent d → IsConsistent (try_send_all names d)
unfolding try_send_all
try_send_all-IsConsistent [] d c = c
try_send_all-IsConsistent (name ∷ rest) d c =
    try_send_all-IsConsistent rest (try_send name d) (ground arith)

Ordered-IsConsistent :
    {command : PortalCommand} {mode : AgentOrderMode} {now : ℕ} {r : ActionResult} {d e : Daemon}
    → Ordered command mode now d r e
    → IsConsistent d
    → IsConsistent e
Ordered-IsConsistent {d = d} (Ordered.queued _ _ names _) c = try_send_all-IsConsistent names d c
Ordered-IsConsistent {d = d} (Ordered.hidden names) c =
    ground (arith, try_send_all-IsConsistent names d c)
Ordered-IsConsistent (Ordered.shown names) c = try_send_all-IsConsistent names _ (ground arith)

switch-IsConsistent :
    (mode : AgentBackend) (now : ℕ) (d : Daemon)
    → IsConsistent d
    → IsConsistent (publish (record d { state = switch_backend mode now d.state }))
unfolding switch_backend routes_to
switch-IsConsistent mode now d c = ground arith

module _ (S : Services) where
  refresh_voice-IsConsistent :
      (now : ℕ) (d : Daemon) (w : S.World)
      → IsConsistent d
      → IsConsistent (refresh_voice S now d w).0
  unfolding refresh_voice
  refresh_voice-IsConsistent now d w c = ground arith

  cancel_voice-IsConsistent :
      (client : String) (now : ℕ) (d : Daemon) (w : S.World)
      → IsConsistent d
      → IsConsistent (cancel_voice_for_disconnected_client S client now d w).0
  unfolding cancel_voice_for_disconnected_client
  cancel_voice-IsConsistent client now d w c = ground arith

  process_voice-IsConsistent :
      (command : PortalCommand) (client : String) (now : ℕ) (d : Daemon) (w : S.World)
      → IsConsistent d
      → IsConsistent (process_voice_command S command client now d w).1
  unfolding process_voice_command
  process_voice-IsConsistent command client now d w c = ground arith

  process_backend-IsConsistent :
      (command : PortalCommand) (now : ℕ) (d : Daemon) (w : S.World)
      → IsConsistent d
      → IsConsistent (process_backend_command S command now d w).1
  unfolding process_backend_command switch_backend routes_to
  process_backend-IsConsistent command now d w c = ground arith

  order-IsConsistent :
      (command : PortalCommand) (now : ℕ) (d : Daemon) (w : S.World)
      → IsConsistent d
      → IsConsistent (process_agent_order_command S command now d w).1
  unfolding process_agent_order_command set_t3code_order
  order-IsConsistent command now d w c = ground (
    arith,
    Ordered-IsConsistent (order_herdr-Ordered S command (requested_mode command.action) now d w) c,
  )

  refresh_herdr-IsConsistent :
      (now : Now) (subscriptions : Map (Subscription S)) (seen d : Daemon) (w : S.World)
      → IsConsistent d
      → IsConsistent (refresh_herdr S now subscriptions seen d w).1
  unfolding refresh_herdr commit_herdr commit_roster commit_undiscovered routes_to
  refresh_herdr-IsConsistent now subscriptions seen d w c = elim (Option-cases (S.discover w).0) [
    | inl failed ↦ ground arith
    | inr (ds, e) ↦ ground (
      arith,
      collect_sessions-routes_to S seen.state.snapshot.daemon_epoch now.ms
          seen.state.snapshot.agents ds subscriptions (S.discover w).1,
    )
  ]

  refresh_t3code-IsConsistent :
      (now : Now) (seen d : Daemon) (w : S.World)
      → IsConsistent d
      → IsConsistent (refresh_t3code S now seen d w).0
  unfolding refresh_t3code commit_t3code commit_roster
  refresh_t3code-IsConsistent now seen d w c = ground (
    arith,
    t3code_roster-routes_to (S.observe_t3code seen.state.snapshot.daemon_epoch now.ms w).0 d.state,
  )

  refresh-IsConsistent :
      (now : Now) (subscriptions : Map (Subscription S)) (chosen : AgentBackend) (seen d : Daemon)
      (w : S.World)
      → IsConsistent d
      → IsConsistent (refresh_agents S now subscriptions chosen seen d w).1
  unfolding refresh_agents
  refresh-IsConsistent now subscriptions AgentBackend.herdr seen d w c =
      refresh_herdr-IsConsistent now subscriptions seen d w c
  refresh-IsConsistent now subscriptions AgentBackend.t3code seen d w c =
      refresh_t3code-IsConsistent now seen d _ c

module _ (S : Services) (t3code_app_bin : Option String) where
  agent-IsConsistent :
      (command : PortalCommand) (now : ℕ) (d : Daemon) (w : S.World)
      → IsConsistent d
      → IsConsistent (process_agent_command S t3code_app_bin command now d w).1
  unfolding process_agent_command perform_t3code perform_herdr acknowledge_review_ready
  agent-IsConsistent command now d w c = ground arith

  dispatch-IsConsistent :
      (r : Route) (command : PortalCommand) (client : String) (now : ℕ) (d : Daemon) (w : S.World)
      → IsConsistent d
      → IsConsistent (dispatch S t3code_app_bin r command client now d w).1
  unfolding dispatch process_restore process_desktop
  dispatch-IsConsistent Route.restore command client now d w c = c
  dispatch-IsConsistent Route.chatgpt command client now d w c = c
  dispatch-IsConsistent Route.claude command client now d w c = c
  dispatch-IsConsistent Route.voice_action command client now d w c =
      process_voice-IsConsistent S command client now d w c
  dispatch-IsConsistent Route.ordering command client now d w c =
      order-IsConsistent S command now d w c
  dispatch-IsConsistent Route.manager command client now d w c =
      process_backend-IsConsistent S command now d w c
  dispatch-IsConsistent Route.agent_action command client now d w c =
      agent-IsConsistent command now d w c

  command-IsConsistent :
      (line client : String) (now : ℕ) (d : Daemon) (w : S.World)
      → IsConsistent d
      → IsConsistent (process_command S t3code_app_bin line client now d w).1
  command-IsConsistent line client now d w =
      process_command-keeps S t3code_app_bin IsConsistent line client now d w
        (λ command. dispatch-IsConsistent (route command.action) command client now d w)

  Step-IsConsistent : {d e : Daemon} → Step S t3code_app_bin d e → IsConsistent d → IsConsistent e
  Step-IsConsistent (Step.command line client now d w) c =
      command-IsConsistent line client now d w c
  Step-IsConsistent (Step.disconnect client now d w) c =
      cancel_voice-IsConsistent S client now d w c
  Step-IsConsistent (Step.collect now subscriptions chosen seen d w) c =
      refresh-IsConsistent S now subscriptions chosen seen d w c
  Step-IsConsistent (Step.event session d) c = ground arith
  Step-IsConsistent (Step.take_invalidations d) c = ground arith
  Step-IsConsistent (Step.poll_voice now d w) c = refresh_voice-IsConsistent S now d w c
  Step-IsConsistent (Step.poll_health sample now d) c = store_health-IsConsistent d sample now c
  Step-IsConsistent (Step.poll_micro sample now d) c = store_micro-IsConsistent d sample now c
  Step-IsConsistent (Step.poll_usage sample now d) c = store_usage-IsConsistent d sample now c

  Reach-IsConsistent : {d e : Daemon} → Reach S t3code_app_bin d e → IsConsistent d → IsConsistent e
  Reach-IsConsistent Reach.here c = c
  Reach-IsConsistent (Reach.next r s) c = Step-IsConsistent s (Reach-IsConsistent r c)

  -- Whatever runs after the start, in whatever order, and whatever Herdr, T3 Code and the desktop
  -- answer: clients were sent the present snapshot, it names the manager in charge, every target
  -- belongs to that manager (so a collection of one manager is never committed over the other,
  -- whichever state it started from), and a latched voice failure is shown as an error.
  pub started-IsConsistent :
      (epoch : String) (configured : AgentBackend) (persisted : Option PersistedBackend)
      (e : Daemon)
      → Reach S t3code_app_bin (initial_daemon epoch configured persisted) e
      → IsConsistent e
  unfolding initial_daemon routes_to
  started-IsConsistent epoch configured persisted e r = Reach-IsConsistent r (ground arith)
