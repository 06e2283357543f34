-- ===== src/T3code/Types.antt =====
-- The types of crates/xeneon-agent-core/src/t3code.rs that the runtime shares.
use xeneon_edge_agents.Base.{ℕ, String, Bool, Option, List}
use xeneon_edge_agents.Base.Map.{Map}
use xeneon_edge_agents.Model.{AgentView, SessionView}

abbrev pub session_name : String
session_name = "t3code"

pub record T3codeTarget : Type 0 where
  pub thread_id : String
  pub state_change_seq : ℕ  -- u64
  pub acknowledged : Bool

pub record T3codeObservation : Type 0 where
  pub session : SessionView
  pub agents : List AgentView
  pub targets : Map T3codeTarget
  pub projection_sequence : Option ℕ
