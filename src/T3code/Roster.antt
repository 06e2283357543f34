-- ===== src/T3code/Roster.antt =====
-- `observation_from_rows` of crates/xeneon-agent-core/src/t3code.rs: the cards of a roster and what
-- opens them.
pub mod Reference
pub mod Routing
use xeneon_edge_agents.Base.{
  ℕ, suc, ◌+◌, String, Bool, true, false, Option, none, some, List, [], ◌∷◌, ◌++◌, ◌<>◌, leb,
  length, if◌then◌else◌,
}
use xeneon_edge_agents.Base.Map.{Map, insert}
use xeneon_edge_agents.Model.{AgentView, SessionState, SessionView}
use xeneon_edge_agents.T3code.Types.{T3codeTarget, T3codeObservation, session_name}
use xeneon_edge_agents.T3code.External.{External}
use xeneon_edge_agents.T3code.Rows.{ThreadRow}
use xeneon_edge_agents.T3code.Labels.{display_name, agent_kind, workspace_label, leaf_label}
use xeneon_edge_agents.T3code.Classify.{Classification, classify}

abbrev pub max_roster : ℕ
max_roster = 64

-- The agents and targets that the loop has gathered.
pub record Roster : Type 0 where
  pub agents : List AgentView
  pub targets : Map T3codeTarget

abbrev pub empty_roster : Roster
empty_roster = record { agents = []; targets = [] }

module _ (X : External) (epoch : String) where
  unfoldable pub opaque_agent_id : String → String
  opaque_agent_id thread = X.uuid_v5 (epoch <> "\0" <> session_name <> "\0" <> thread)

  unfoldable pub target_of : ThreadRow → Classification → T3codeTarget
  target_of row c = record {
    thread_id = row.thread_id;
    state_change_seq = c.state_change_seq;
    acknowledged = c.acknowledged;
  }

  unfoldable pub card_of : ThreadRow → Classification → ℕ → AgentView
  unfolding opaque_agent_id display_name agent_kind workspace_label leaf_label
  card_of row c position = record {
    id = opaque_agent_id row.thread_id;
    display_name = display_name row;
    agent = agent_kind row.provider_name;
    status = c.status;
    review_ready = false;
    launch_pending = c.launch_pending;
    workspace = workspace_label row;
    repository = leaf_label row.workspace_root;
    worktree = leaf_label row.worktree_path;
    session = session_name;
    focused = false;
    observed_for_seconds = 0;
    state_change_seq = c.state_change_seq;
    source_order = position;
    actions = record { can_open = true; can_zoom = false; approve = none; interrupt = none };
  }

  unfoldable pub add_row : ThreadRow → Classification → Roster → Roster
  unfolding opaque_agent_id target_of card_of insert
  add_row row c r = record {
    agents = r.agents ++ (card_of row c (length r.agents) ∷ []);
    targets = insert (opaque_agent_id row.thread_id) (target_of row c) r.targets;
  }

  -- The loop over the rows: `break` at a full roster, `continue` at a thread left out.
  unfoldable pub gather : ℕ → List ThreadRow → Roster → Roster
  unfolding classify add_row
  gather now [] r = r
  gather now (row ∷ rows) r =
      let rest = gather now rows in
      if leb max_roster (length r.agents)
      then r
      else elim (classify X row now) [ none ↦ rest r | some c ↦ rest (add_row row c r) ]

  unfoldable pub observation_from_rows :
      List ThreadRow → ℕ → Option ℕ → Option ℕ → T3codeObservation
  unfolding gather
  observation_from_rows rows now protocol sequence =
      let r = gather now rows empty_roster in
      record {
        session = record {
          name = session_name;
          state = SessionState.connected;
          version = none;
          protocol = protocol;
          last_sync_ms = some now;
          message = none;
        };
        agents = r.agents;
        targets = r.targets;
        projection_sequence = sequence;
      }
