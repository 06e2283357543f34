-- ===== src/Runtime/Steps/Progress.antt =====
-- How the handlers of crates/xeneon-agent-core/src/runtime.rs move the snapshot's sequence number.
use xeneon_edge_agents.Base.{ℕ, ◌≡◌, ap, ◌⊎◌, inl, inr, String, Option, arith}
use xeneon_edge_agents.Base.Map.{Map}
use xeneon_edge_agents.Model.{
  AgentBackend, AgentOrderMode, ActionResult, PortalCommand, agent_order_mode_eq,
}
use xeneon_edge_agents.Runtime.State.{next_sequence}
use xeneon_edge_agents.Runtime.Services.{Services}
use xeneon_edge_agents.Runtime.Daemon.{Daemon}
use xeneon_edge_agents.Runtime.Collect.{
  store_health, store_micro, store_usage, acknowledge_review_ready,
}
use xeneon_edge_agents.Runtime.Voice.{
  cancel_voice_for_disconnected_client, refresh_voice, process_voice_command,
}
use xeneon_edge_agents.Runtime.Backend.{process_backend_command}
use xeneon_edge_agents.Runtime.Order.{
  names, requested_mode, set_t3code_order, process_agent_order_command,
}
use xeneon_edge_agents.Runtime.Order.Outcomes.{Ordered, order_herdr-Ordered, try_send_all-state}
use xeneon_edge_agents.Runtime.Refresh.{
  Subscription, Now, refresh_agents, refresh_herdr, refresh_t3code, commit_t3code, commit_herdr,
  commit_undiscovered, commit_roster,
}
use xeneon_edge_agents.Runtime.Command.{
  Route, perform_t3code, perform_herdr, process_agent_command, process_restore, process_desktop,
  dispatch, route, process_command,
}
use xeneon_edge_agents.Runtime.Command.Branches.{process_command-keeps}

abbrev pub sequence_of : Daemon → ℕ
sequence_of d = d.state.snapshot.sequence

-- The daemon routes and shows the same roster.
pub record SameRoster (d e : Daemon) : Type 0 where
  pub backend : e.state.backend ≡ d.state.backend
  pub targets : e.state.targets ≡ d.state.targets
  pub agents : e.state.snapshot.agents ≡ d.state.snapshot.agents
  pub sessions : e.state.snapshot.sessions ≡ d.state.snapshot.sessions
  pub agent_order : e.state.snapshot.agent_order ≡ d.state.snapshot.agent_order
  pub sequence : sequence_of e ≡ sequence_of d

-- A handler keeps the roster and its number, or moves on to the next number.
abbrev pub Progress : Daemon → Daemon → Type 0
Progress d e = SameRoster d e ⊎ (sequence_of e ≡ next_sequence (sequence_of d))

pub stays : (d : Daemon) → SameRoster d d
stays d = ground arith

pub store_health-Progress :
    (d : Daemon) (sample : _) (now : ℕ) → Progress d (store_health sample now d)
unfolding store_health
store_health-Progress d sample now = ground arith

pub store_micro-Progress :
    (d : Daemon) (sample : _) (now : ℕ) → Progress d (store_micro sample now d)
unfolding store_micro
store_micro-Progress d sample now = ground arith

pub store_usage-Progress :
    (d : Daemon) (sample : _) (now : ℕ) → Progress d (store_usage sample now d)
unfolding store_usage
store_usage-Progress d sample now = ground arith

acknowledge-Progress :
    (id : String) (now : ℕ) (d : Daemon) → Progress d (acknowledge_review_ready id now d)
unfolding acknowledge_review_ready
acknowledge-Progress id now d = ground arith

Ordered-Progress :
    {command : PortalCommand} {mode : AgentOrderMode} {now : ℕ} {r : ActionResult} {d e : Daemon}
    → Ordered command mode now d r e
    → Progress d e
Ordered-Progress {d = d} (Ordered.queued _ _ names _) = ground (arith, try_send_all-state names d)
Ordered-Progress {d = d} (Ordered.hidden names) = ground (arith, try_send_all-state names d)
Ordered-Progress (Ordered.shown names) =
    inr (ap (λ s. s.snapshot.sequence) (try_send_all-state names _))

module _ (S : Services) where
  pub refresh_voice-Progress :
      (now : ℕ) (d : Daemon) (w : S.World) → Progress d (refresh_voice S now d w).0
  unfolding refresh_voice
  refresh_voice-Progress now d w = ground arith

  pub cancel_voice-Progress :
      (client : String) (now : ℕ) (d : Daemon) (w : S.World)
      → Progress d (cancel_voice_for_disconnected_client S client now d w).0
  unfolding cancel_voice_for_disconnected_client
  cancel_voice-Progress client now d w = ground arith

  process_voice-Progress :
      (command : PortalCommand) (client : String) (now : ℕ) (d : Daemon) (w : S.World)
      → Progress d (process_voice_command S command client now d w).1
  unfolding process_voice_command
  process_voice-Progress command client now d w = ground arith

  process_backend-Progress :
      (command : PortalCommand) (now : ℕ) (d : Daemon) (w : S.World)
      → Progress d (process_backend_command S command now d w).1
  unfolding process_backend_command
  process_backend-Progress command now d w = ground arith

  order-Progress :
      (command : PortalCommand) (now : ℕ) (d : Daemon) (w : S.World)
      → Progress d (process_agent_order_command S command now d w).1
  unfolding process_agent_order_command set_t3code_order
  order-Progress command now d w = ground (
    arith,
    Ordered-Progress (order_herdr-Ordered S command (requested_mode command.action) now d w),
  )

  refresh_herdr-Progress :
      (now : Now) (subscriptions : Map (Subscription S)) (seen d : Daemon) (w : S.World)
      → Progress d (refresh_herdr S now subscriptions seen d w).1
  unfolding refresh_herdr commit_herdr commit_roster commit_undiscovered
  refresh_herdr-Progress now subscriptions seen d w = ground arith

  refresh_t3code-Progress :
      (now : Now) (seen d : Daemon) (w : S.World) → Progress d (refresh_t3code S now seen d w).0
  unfolding refresh_t3code commit_t3code commit_roster
  refresh_t3code-Progress now seen d w = ground arith

  pub refresh-Progress :
      (now : Now) (subscriptions : Map (Subscription S)) (chosen : AgentBackend) (seen d : Daemon)
      (w : S.World)
      → Progress d (refresh_agents S now subscriptions chosen seen d w).1
  unfolding refresh_agents
  refresh-Progress now subscriptions AgentBackend.herdr seen d w =
      refresh_herdr-Progress now subscriptions seen d w
  refresh-Progress now subscriptions AgentBackend.t3code seen d w =
      refresh_t3code-Progress now seen d _

module _ (S : Services) (t3code_app_bin : Option String) where
  agent-Progress :
      (command : PortalCommand) (now : ℕ) (d : Daemon) (w : S.World)
      → Progress d (process_agent_command S t3code_app_bin command now d w).1
  unfolding process_agent_command perform_t3code perform_herdr
  agent-Progress command now d w = ground (arith, λ (id : String). acknowledge-Progress id now d)

  dispatch-Progress :
      (r : Route) (command : PortalCommand) (client : String) (now : ℕ) (d : Daemon) (w : S.World)
      → Progress d (dispatch S t3code_app_bin r command client now d w).1
  unfolding dispatch process_restore process_desktop
  dispatch-Progress Route.restore command client now d w = inl (stays d)
  dispatch-Progress Route.chatgpt command client now d w = inl (stays d)
  dispatch-Progress Route.claude command client now d w = inl (stays d)
  dispatch-Progress Route.voice_action command client now d w =
      process_voice-Progress S command client now d w
  dispatch-Progress Route.ordering command client now d w = order-Progress S command now d w
  dispatch-Progress Route.manager command client now d w =
      process_backend-Progress S command now d w
  dispatch-Progress Route.agent_action command client now d w = agent-Progress command now d w

  pub command-Progress :
      (line client : String) (now : ℕ) (d : Daemon) (w : S.World)
      → Progress d (process_command S t3code_app_bin line client now d w).1
  command-Progress line client now d w =
      process_command-keeps S t3code_app_bin (Progress d) line client now d w
        (λ command kept. dispatch-Progress (route command.action) command client now d w)
        (inl (stays d))
