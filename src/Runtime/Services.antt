-- ===== src/Runtime/Services.antt =====
-- What the handlers of crates/xeneon-agent-core/src/runtime.rs call outside the daemon's state: the
-- Herdr, T3 Code, desktop and voice clients, the file of the chosen manager, and the parser of
-- JSON commands. `spawn_subscription` returns once the subscription is acknowledged, refused or
-- late. `World` is all that these reach. A failed call is `none`, `false` or `err`.
use xeneon_edge_agents.Base.{ℕ, String, Bool, true, Option, some, ◌≡◌, string_eq}
use xeneon_edge_agents.Base.{List, ◌≢◌, Result}
use xeneon_edge_agents.Model.{ActionKind, AgentOrderMode, PortalCommand, VoiceSnapshot}
use xeneon_edge_agents.Herdr.{SessionDescriptor, HerdrTarget, SessionObservation}
use xeneon_edge_agents.T3code.{T3codeObservation}
use xeneon_edge_agents.Voice.{VoiceActionError}
use xeneon_edge_agents.Desktop.{DesktopApp, DesktopAppOutcome}
use xeneon_edge_agents.Runtime.State.{PersistedBackend}

pub record Services : Type 1 where
  pub World : Type 0
  pub discover : World → Option (List SessionDescriptor) × World
  pub get_agent_order : SessionDescriptor → World → Option AgentOrderMode × World
  pub set_agent_order : SessionDescriptor → AgentOrderMode → World → Bool × World
  pub perform : HerdrTarget → ActionKind → Option String → World → Result (Unit {0}) String × World
  pub restore_focus : World → Bool × World
  pub focus_or_launch : DesktopApp → World → Option DesktopAppOutcome × World
  pub open_thread_url : String → World → Bool × World
  pub activate_herdr : String → String → World → Bool × World
  pub open_native : String → String → World → Bool × World
  pub thread_url : String → World → Option String × World
  pub voice_perform : ActionKind → World → Result VoiceSnapshot VoiceActionError × World
  pub voice_snapshot : World → VoiceSnapshot × World
  pub persist : PersistedBackend → World → World
  pub parse_command : String → Option PortalCommand
  pub observe_session :
      SessionDescriptor → String → ℕ → ℕ → World → Option SessionObservation × World
  pub observe_t3code : String → ℕ → World → T3codeObservation × World
  pub Handle : Type 0
  pub is_finished : Handle → World → Bool
  pub abort : Handle → World → World
  pub spawn_subscription :
      SessionDescriptor → List String → World → Handle × Result (Unit {0}) String × World

-- What Herdr promises of its ordering setting: each socket's server stores one mode, a successful
-- read returns it, reads change nothing, a successful write stores it, and a write that fails
-- leaves the other servers alone (its own server may have stored the mode or not).
pub record IsHerdr (S : Services) (stored : S.World → String → AgentOrderMode) : Type 0 where
  pub get_keeps :
      (d : SessionDescriptor) (w : S.World) (p : String)
      → stored (S.get_agent_order d w).1 p ≡ stored w p
  pub get_reads :
      (d : SessionDescriptor) (w : S.World) (m : AgentOrderMode)
      → (S.get_agent_order d w).0 ≡ some m
      → stored w d.socket_path ≡ m
  pub set_other :
      (d : SessionDescriptor) (m : AgentOrderMode) (w : S.World) (p : String)
      → d.socket_path ≢ p
      → stored (S.set_agent_order d m w).1 p ≡ stored w p
  pub set_stores :
      (d : SessionDescriptor) (m : AgentOrderMode) (w : S.World)
      → (S.set_agent_order d m w).0 ≡ true
      → stored (S.set_agent_order d m w).1 d.socket_path ≡ m
  pub discover_keeps : (w : S.World) (p : String) → stored (S.discover w).1 p ≡ stored w p
  pub persist_keeps :
      (b : PersistedBackend) (w : S.World) (p : String) → stored (S.persist b w) p ≡ stored w p
