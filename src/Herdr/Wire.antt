-- ===== src/Herdr/Wire.antt =====
-- The answers of Herdr that crates/xeneon-agent-core/src/herdr.rs reads, by serde.
use xeneon_edge_agents.Base.{ℕ, String, Bool, Option, List}
use xeneon_edge_agents.Base.Map.{Map}
use xeneon_edge_agents.Model.{AgentStatus}
use xeneon_edge_agents.Herdr.Json.{Json}

pub record Pong : Type 0 where
  pub version : String
  pub protocol : ℕ  -- u32

pub record HerdrWorkspaceWorktree : Type 0 where
  pub repo_name : String
  pub checkout_path : String
  pub is_linked_worktree : Bool

pub record HerdrWorkspace : Type 0 where
  pub workspace_id : String
  pub number : ℕ  -- u32
  pub label : String
  pub worktree : Option HerdrWorkspaceWorktree

pub record HerdrTab : Type 0 where
  pub tab_id : String
  pub label : String

pub record HerdrAgent : Type 0 where
  pub terminal_id : String
  pub agent : Option String
  pub display_agent : Option String
  pub name : Option String
  pub agent_status : AgentStatus
  pub workspace_id : String
  pub tab_id : String
  pub pane_id : String
  pub focused : Bool
  pub launch_pending : Bool
  pub state_change_seq : ℕ  -- u64
  pub cwd : Option String
  pub foreground_cwd : Option String
  pub revision : ℕ  -- u64
  pub extra : Map Json

pub record HerdrSnapshot : Type 0 where
  pub workspaces : List HerdrWorkspace
  pub tabs : List HerdrTab
  pub agents : List HerdrAgent
