-- ===== src/Model/Agent.antt =====
-- The agent card of crates/xeneon-agent-core/src/model.rs and the attention order of the cards.
use Prim.Native.Nat.{compare, Ordering}
use xeneon_edge_agents.Base.{
  ℕ, String, Bool, false, ◌&&◌, ◌||◌, Option, none, List, ◌==◌, if◌then◌else◌,
}
use xeneon_edge_agents.Base.Compare.{then_with, str_cmp}
use xeneon_edge_agents.Base.Sort.{sort_by}
use xeneon_edge_agents.Model.Kinds.{AgentStatus, ActionKind, attention_rank, agent_status_eq}

pub record ActionCapability : Type 0 where
  pub capability_id : String
  pub kind : ActionKind
  pub expires_at_ms : ℕ  -- u64
  pub expected_revision : ℕ  -- u64

-- `can_open` and `can_zoom` are the source's `open` and `zoom`.
pub record AgentActions : Type 0 where
  pub can_open : Bool
  pub can_zoom : Bool
  pub approve : Option ActionCapability
  pub interrupt : Option ActionCapability

-- `AgentActions::default()`
abbrev pub no_actions : AgentActions
no_actions = record { can_open = false; can_zoom = false; approve = none; interrupt = none }

pub record AgentView : Type 0 where
  pub id : String
  pub display_name : String
  pub agent : String
  pub status : AgentStatus
  pub review_ready : Bool
  pub launch_pending : Bool
  pub workspace : String
  pub repository : Option String
  pub worktree : Option String
  pub session : String
  pub focused : Bool
  pub observed_for_seconds : ℕ  -- u64
  pub state_change_seq : ℕ  -- u64
  pub source_order : ℕ  -- usize
  pub actions : AgentActions

unfoldable pub agent_attention_rank : AgentView → ℕ
unfolding attention_rank
agent_attention_rank a =
    if a.review_ready && (a.status == AgentStatus.done || a.status == AgentStatus.idle)
    then attention_rank AgentStatus.done
    else if a.status == AgentStatus.done
    then attention_rank AgentStatus.idle
    else attention_rank a.status

-- The comparison that `sort_agents` hands to `sort_by`.
unfoldable pub attention_cmp : AgentView → AgentView → Ordering
unfolding agent_attention_rank str_cmp
attention_cmp left right =
    then_with
      (then_with
        (then_with (compare (agent_attention_rank left) (agent_attention_rank right))
          (compare right.state_change_seq left.state_change_seq))
        (compare left.source_order right.source_order))
      (str_cmp left.id right.id)

unfoldable pub sort_agents : List AgentView → List AgentView
unfolding attention_cmp sort_by
sort_agents = sort_by attention_cmp
