-- ===== src/Runtime/Steps.antt =====
-- The daemon of crates/xeneon-agent-core/src/runtime.rs as a transition system. Each handler is
-- one step, and the steps come in any order. The world that a step meets is arbitrary: whatever
-- Herdr, T3 Code, the desktop and other processes do between two steps is allowed. So is any earlier
-- state that a collection started from.
pub mod Progress
pub mod Roster
pub mod Targets
pub mod Invariant
pub mod Vacancy
use xeneon_edge_agents.Base.{ℕ, String, Bool, true, false, Option, none, some, List, [], unwrap_or}
use xeneon_edge_agents.Base.Map.{Map}
use xeneon_edge_agents.Model.{
  AgentBackend, AgentOrderMode, AiUsageSnapshot, HealthSnapshot, MicroSnapshot, empty_snapshot,
}
use xeneon_edge_agents.Runtime.State.{RuntimeState, PersistedBackend}
use xeneon_edge_agents.Runtime.Services.{Services}
use xeneon_edge_agents.Runtime.Daemon.{Daemon, try_send}
use xeneon_edge_agents.Runtime.Collect.{store_health, store_micro, store_usage}
use xeneon_edge_agents.Runtime.Voice.{cancel_voice_for_disconnected_client, refresh_voice}
use xeneon_edge_agents.Runtime.Refresh.{Subscription, Now, refresh_agents}
use xeneon_edge_agents.Runtime.Command.{process_command}

-- The state that `new_with_state_path` builds: `persisted` is what the state file held, if it
-- could be read, and `configured` the manager of the configuration.
unfoldable pub initial_state : String → AgentBackend → Option PersistedBackend → RuntimeState
unfolding empty_snapshot
initial_state epoch configured persisted =
    let chosen =
      unwrap_or persisted
        (record { backend = configured; t3code_order = AgentOrderMode.grouped }) in
    record {
      snapshot = record (empty_snapshot epoch) {
        backend = record { mode = chosen.backend; switchable = true };
      };
      backend = chosen.backend;
      t3code_order = chosen.t3code_order;
      t3code_sequence = none;
      targets = [];
      observed = [];
      focused_agents = [];
      voice_error_latched = false;
      voice_client_owner = none;
    }

unfoldable pub initial_daemon : String → AgentBackend → Option PersistedBackend → Daemon
unfolding initial_state
initial_daemon epoch configured persisted =
    let s = initial_state epoch configured persisted in
    record { state = s; published = s.snapshot; invalidations = [] }

-- `channel.recv()` and the loop of `try_recv` empty the queue before a collection.
abbrev pub taken : Daemon → Daemon
taken d = record d { invalidations = [] }

module _ (S : Services) (t3code_app_bin : Option String) where
  pub data Step : Daemon → Daemon → Type 0 where
    command :
        (line client : String) (now : ℕ) (d : Daemon) (w : S.World)
        → Step d (process_command S t3code_app_bin line client now d w).1
    disconnect :
        (client : String) (now : ℕ) (d : Daemon) (w : S.World)
        → Step d (cancel_voice_for_disconnected_client S client now d w).0
    collect :
        (now : Now) (subscriptions : Map (Subscription S)) (chosen : AgentBackend) (seen d : Daemon)
        (w : S.World)
        → Step d (refresh_agents S now subscriptions chosen seen d w).1
    -- The subscription to a Herdr session's events reports one, or its own end.
    event : (session : String) (d : Daemon) → Step d (try_send session d)
    take_invalidations : (d : Daemon) → Step d (taken d)
    poll_voice : (now : ℕ) (d : Daemon) (w : S.World) → Step d (refresh_voice S now d w).0
    poll_health :
        (sample : HealthSnapshot) (now : ℕ) (d : Daemon) → Step d (store_health sample now d)
    poll_micro : (sample : MicroSnapshot) (now : ℕ) (d : Daemon) → Step d (store_micro sample now d)
    poll_usage :
        (sample : AiUsageSnapshot) (now : ℕ) (d : Daemon) → Step d (store_usage sample now d)

  pub data Reach (d : Daemon) : Daemon → Type 0 where
    here : Reach d d
    next : {e f : Daemon} → Reach d e → Step e f → Reach d f
