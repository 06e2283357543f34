-- ===== src/Runtime/Backend/Switching.antt =====
-- What a switch of managers leaves behind (crates/xeneon-agent-core/src/runtime.rs,
-- `process_backend_command` and the guards of `refresh_herdr` and `refresh_t3code`).
use xeneon_edge_agents.Base.{ℕ, ◌≡◌, ◌≢◌, refl, String, false, Option, nat_eq, ==_ne, arith}
use xeneon_edge_agents.Base.Map.{Map, lookup}
use xeneon_edge_agents.Model.{AgentBackend, PortalCommand, agent_backend_eq}
use xeneon_edge_agents.Runtime.State.{next_sequence, action_error}
use xeneon_edge_agents.Runtime.Services.{Services}
use xeneon_edge_agents.Runtime.Daemon.{Daemon}
use xeneon_edge_agents.Runtime.Refresh.{
  Subscription, Now, refresh_agents, refresh_herdr, refresh_t3code, guarded,
}
use xeneon_edge_agents.Runtime.Command.{process_agent_command, check_agent}
use xeneon_edge_agents.Runtime.Backend.{requested_backend, switch_backend, process_backend_command}

guarded_other :
    (backend : AgentBackend) (commit : _) (d : Daemon)
    → d.state.backend ≢ backend
    → guarded backend commit d ≡ d
guarded_other backend commit d other = rw (==_ne d.state.backend backend other) refl

module _ (S : Services) where
  -- A collection that was started for one manager changes nothing once the other one is in
  -- charge, whatever it has read.
  pub collection_of_other-dropped :
      (now : Now) (subscriptions : Map (Subscription S)) (chosen : AgentBackend) (seen d : Daemon)
      (w : S.World)
      → d.state.backend ≢ chosen
      → (refresh_agents S now subscriptions chosen seen d w).1 ≡ d
  unfolding refresh_agents refresh_herdr refresh_t3code
  collection_of_other-dropped now subscriptions AgentBackend.herdr seen d w other = ground arith
  collection_of_other-dropped now subscriptions AgentBackend.t3code seen d w other = ground arith

  -- A current manager command that asks for the other manager puts it in charge under the next
  -- sequence number and stores the choice with the unchanged T3 Code ordering; an agent command
  -- that comes next is refused and changes nothing.
  pub switch_lem :
      (command later : PortalCommand) (app_bin : Option String) (now then_ : ℕ) (d : Daemon)
      (w v : S.World)
      → command.sequence ≡ d.state.snapshot.sequence
      → d.state.backend ≢ requested_backend command.action
      → ((process_backend_command S command now d w).1.state.backend
          ≡ requested_backend command.action)
        × ((process_backend_command S command now d w).1.published.sequence
            ≡ next_sequence d.state.snapshot.sequence)
        × ((process_backend_command S command now d w).2
            ≡ S.persist
                (record {
                  backend = requested_backend command.action;
                  t3code_order = d.state.t3code_order;
                })
                w)
        × ((process_agent_command S app_bin later then_
              (process_backend_command S command now d w).1
              v).0.succeeded
            ≡ false)
        × ((process_agent_command S app_bin later then_
              (process_backend_command S command now d w).1
              v).1
            ≡ (process_backend_command S command now d w).1)
        × ((process_agent_command S app_bin later then_
              (process_backend_command S command now d w).1
              v).2
            ≡ v)
  unfolding process_backend_command switch_backend process_agent_command check_agent action_error
      lookup
  switch_lem command later app_bin now then_ d w v current other = ground arith
