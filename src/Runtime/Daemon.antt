-- ===== src/Runtime/Daemon.antt =====
-- The daemon that the handlers of crates/xeneon-agent-core/src/runtime.rs share: its state, the
-- snapshot that clients were last sent, and the queue of sessions to collect again.
use xeneon_edge_agents.Base.{ℕ, String, List, [], ◌∷◌, ◌++◌, length, ltb}
use xeneon_edge_agents.Base.{if◌then◌else◌}
use xeneon_edge_agents.Model.{PortalSnapshot}
use xeneon_edge_agents.Runtime.State.{RuntimeState, next_sequence}

-- `published` is the value of the watch channel, before its encoding as JSON.
pub record Daemon : Type 0 where
  pub state : RuntimeState
  pub published : PortalSnapshot
  pub invalidations : List String

abbrev pub channel_capacity : ℕ
channel_capacity = 64

abbrev pub publish : Daemon → Daemon
publish d = record d { published = d.state.snapshot }

-- `let _ = self.invalidations.try_send(name)`: a full channel drops the message.
abbrev pub try_send : String → Daemon → Daemon
try_send name d = record d {
  invalidations =
      if ltb (length d.invalidations) channel_capacity
      then d.invalidations ++ (name ∷ [])
      else d.invalidations;
}

unfoldable pub try_send_all : List String → Daemon → Daemon
try_send_all [] d = d
try_send_all (name ∷ rest) d = try_send_all rest (try_send name d)

-- `sequence.saturating_add(1)` and `generated_at_ms = now_ms()`.
abbrev pub touch : ℕ → PortalSnapshot → PortalSnapshot
touch now s = record s { sequence = next_sequence s.sequence; generated_at_ms = now }

abbrev pub with_state : Daemon → RuntimeState → Daemon
with_state d s = record d { state = s }
