-- ===== src/Herdr/Types.antt =====
-- The types of crates/xeneon-agent-core/src/herdr.rs that the runtime shares.
use xeneon_edge_agents.Base.{ℕ, String, Bool, Option, List}
use xeneon_edge_agents.Base.Map.{Map}
use xeneon_edge_agents.Model.{AgentOrderMode, AgentView, SessionView}

pub record SessionDescriptor : Type 0 where
  pub name : String
  pub running : Bool
  pub socket_path : String

pub record HerdrTarget : Type 0 where
  pub session : String
  pub socket_path : String
  pub pane_id : String
  pub terminal_id : String
  pub state_change_seq : ℕ  -- u64
  pub revision : ℕ  -- u64

pub record SessionObservation : Type 0 where
  pub session : SessionView
  pub agents : List AgentView
  pub targets : Map HerdrTarget
  pub pane_ids : List String
  pub agent_order : Option AgentOrderMode
