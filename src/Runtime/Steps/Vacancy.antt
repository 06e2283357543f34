-- ===== src/Runtime/Steps/Vacancy.antt =====
-- Between a switch of managers and the next collection (crates/xeneon-agent-core/src/runtime.rs):
-- there is no target, so no agent command gets through.
use xeneon_edge_agents.Base.{ℕ, ◌≡◌, ◌≢◌, ap, ◌∙◌, String, Bool, true, false, Option, [], arith}
use xeneon_edge_agents.Base.Map.{lookup}
use xeneon_edge_agents.Model.{ActionResult, AgentOrderMode, PortalCommand}
use xeneon_edge_agents.Runtime.Services.{Services}
use xeneon_edge_agents.Runtime.State.{action_error}
use xeneon_edge_agents.Runtime.Daemon.{Daemon}
use xeneon_edge_agents.Runtime.Order.Outcomes.{try_send_all-state}
use xeneon_edge_agents.Runtime.Collect.{store_health, store_micro, store_usage}
use xeneon_edge_agents.Runtime.Voice.{
  cancel_voice_for_disconnected_client, refresh_voice, process_voice_command,
}
use xeneon_edge_agents.Runtime.Backend.{requested_backend, switch_backend, process_backend_command}
use xeneon_edge_agents.Runtime.Order.{requested_mode, set_t3code_order, process_agent_order_command}
use xeneon_edge_agents.Runtime.Order.Outcomes.{Ordered, order_herdr-Ordered}
use xeneon_edge_agents.Runtime.Command.{
  Route, route, dispatch, check_agent, process_agent_command, process_restore, process_desktop,
}
use xeneon_edge_agents.Runtime.Command.Branches.{process_command-keeps}
use xeneon_edge_agents.Runtime.Steps.{Step}

abbrev HasNoTargets : Daemon → Type 0
HasNoTargets d = d.state.targets ≡ []

Ordered-HasNoTargets :
    {command : PortalCommand} {mode : AgentOrderMode} {now : ℕ} {r : ActionResult} {d e : Daemon}
    → Ordered command mode now d r e
    → HasNoTargets d
    → HasNoTargets e
Ordered-HasNoTargets {d = d} (Ordered.queued _ _ names _) h =
    ap (λ s. s.targets) (try_send_all-state names d) ∙ h
Ordered-HasNoTargets {d = d} (Ordered.hidden names) h =
    ap (λ s. s.targets) (try_send_all-state names d) ∙ h
Ordered-HasNoTargets (Ordered.shown names) h = ap (λ s. s.targets) (try_send_all-state names _) ∙ h

module _ (S : Services) where
  order-HasNoTargets :
      (command : PortalCommand) (now : ℕ) (d : Daemon) (w : S.World)
      → HasNoTargets d
      → HasNoTargets (process_agent_order_command S command now d w).1
  unfolding process_agent_order_command set_t3code_order
  order-HasNoTargets command now d w h = ground (
    arith,
    Ordered-HasNoTargets (order_herdr-Ordered S command (requested_mode command.action) now d w) h,
  )

  backend-HasNoTargets :
      (command : PortalCommand) (now : ℕ) (d : Daemon) (w : S.World)
      → HasNoTargets d
      → HasNoTargets (process_backend_command S command now d w).1
  unfolding process_backend_command switch_backend
  backend-HasNoTargets command now d w h = ground arith

module _ (S : Services) (t3code_app_bin : Option String) where
  -- Without a target every agent command is refused and changes nothing.
  agent_command-refused :
      (command : PortalCommand) (now : ℕ) (d : Daemon) (w : S.World)
      → HasNoTargets d
      → let r = process_agent_command S t3code_app_bin command now d w in
        (r.0.succeeded ≡ false) × (r.1 ≡ d) × (r.2 ≡ w)
  unfolding process_agent_command check_agent action_error lookup
  agent_command-refused command now d w h = ground arith

  dispatch-HasNoTargets :
      (r : Route) (command : PortalCommand) (client : String) (now : ℕ) (d : Daemon) (w : S.World)
      → HasNoTargets d
      → HasNoTargets (dispatch S t3code_app_bin r command client now d w).1
  unfolding dispatch process_restore process_desktop process_voice_command
  dispatch-HasNoTargets Route.restore command client now d w h = h
  dispatch-HasNoTargets Route.chatgpt command client now d w h = h
  dispatch-HasNoTargets Route.claude command client now d w h = h
  dispatch-HasNoTargets Route.voice_action command client now d w h = ground arith
  dispatch-HasNoTargets Route.ordering command client now d w h =
      order-HasNoTargets S command now d w h
  dispatch-HasNoTargets Route.manager command client now d w h =
      backend-HasNoTargets S command now d w h
  dispatch-HasNoTargets Route.agent_action command client now d w h =
      ap (λ e. e.state.targets) (agent_command-refused command now d w h).1 ∙ h

  abbrev pub is_collection : {d e : Daemon} → Step S t3code_app_bin d e → Bool
  is_collection (Step.collect _ _ _ _ _ _) = true
  is_collection _ = false

  -- Runs without a collection.
  pub data Meanwhile (d : Daemon) : Daemon → Type 0 where
    here : Meanwhile d d
    next :
        {e f : Daemon}
        → Meanwhile d e
        → (s : Step S t3code_app_bin e f) → is_collection s ≡ false
        → Meanwhile d f

  Step-HasNoTargets :
      {d e : Daemon} (s : Step S t3code_app_bin d e)
      → is_collection s ≡ false
      → HasNoTargets d
      → HasNoTargets e
  unfolding store_health store_micro store_usage refresh_voice cancel_voice_for_disconnected_client
  Step-HasNoTargets (Step.command line client now d w) c h =
      process_command-keeps S t3code_app_bin HasNoTargets line client now d w
        (λ command. dispatch-HasNoTargets (route command.action) command client now d w) h
  Step-HasNoTargets (Step.disconnect client now d w) c h = ground arith
  Step-HasNoTargets (Step.collect now subscriptions chosen seen d w) c h = cc
  Step-HasNoTargets (Step.event session d) c h = ground arith
  Step-HasNoTargets (Step.take_invalidations d) c h = h
  Step-HasNoTargets (Step.poll_voice now d w) c h = ground arith
  Step-HasNoTargets (Step.poll_health sample now d) c h = h
  Step-HasNoTargets (Step.poll_micro sample now d) c h = ground arith
  Step-HasNoTargets (Step.poll_usage sample now d) c h = ground arith

  Meanwhile-HasNoTargets : {d e : Daemon} → Meanwhile d e → HasNoTargets d → HasNoTargets e
  Meanwhile-HasNoTargets Meanwhile.here h = h
  Meanwhile-HasNoTargets (Meanwhile.next r s c) h =
      Step-HasNoTargets s c (Meanwhile-HasNoTargets r h)

  switch-HasNoTargets :
      (command : PortalCommand) (now : ℕ) (d : Daemon) (w : S.World)
      → command.sequence ≡ d.state.snapshot.sequence
      → d.state.backend ≢ requested_backend command.action
      → HasNoTargets (process_backend_command S command now d w).1
  unfolding process_backend_command switch_backend
  switch-HasNoTargets command now d w current other = ground arith

  -- After a current manager command that asks for the other manager, and in any run of handlers
  -- other than a collection from there, every agent command is refused and changes neither the
  -- daemon nor the world outside.
  pub switch-refuses :
      (command : PortalCommand) (now : ℕ) (d : Daemon) (w : S.World)
      (current : command.sequence ≡ d.state.snapshot.sequence)
      (other : d.state.backend ≢ requested_backend command.action) {e : Daemon}
      (meanwhile : Meanwhile (process_backend_command S command now d w).1 e)
      (later : PortalCommand) (then_ : ℕ) (v : S.World)
      → let r = process_agent_command S t3code_app_bin later then_ e v in
        (r.0.succeeded ≡ false) × (r.1 ≡ e) × (r.2 ≡ v)
  switch-refuses command now d w current other {e = e} meanwhile later then_ v =
      agent_command-refused later then_ e v
        (Meanwhile-HasNoTargets meanwhile (switch-HasNoTargets command now d w current other))
