-- ===== src/T3code/Rows.antt =====
-- The rows of crates/xeneon-agent-core/src/t3code.rs: what its two sources of metadata, the status
-- feed and the database, say of one thread. `i64` counts are the integers of Base.Integers.
use xeneon_edge_agents.Base.{
  ℕ, String, Bool, false, Option, none, some, List, map, ◌==◌, string_eq, option_eq, ◌&&◌, ◌||◌,
  if◌then◌else◌, is_none, unwrap_or, not,
}
use xeneon_edge_agents.Base.Integers.{ℤ, pos, is_zero}

pub record TurnRow : Type 0 where
  pub state : String
  pub requested_at : String
  pub started_at : Option String
  pub completed_at : Option String

pub record ThreadRow : Type 0 where
  pub thread_id : String
  pub title : String
  pub branch : Option String
  pub worktree_path : Option String
  pub pending_approval_count : ℤ
  pub pending_user_input_count : ℤ
  pub has_actionable_proposed_plan : Bool
  pub settled_at : Option String
  pub snoozed_until : Option String
  pub created_at : String
  pub session_status : Option String
  pub provider_name : Option String
  pub project_title : Option String
  pub workspace_root : Option String
  pub last_turn : Option TurnRow
  pub active_work : Bool
  pub visited_at : Option String

-- One thread of the status feed.
pub record StatusThread : Type 0 where
  pub thread_id : String
  pub title : String
  pub project_title : String
  pub workspace_root : String
  pub branch : Option String
  pub worktree_path : Option String
  pub provider : String
  pub status : String
  pub settled : Bool
  pub snoozed : Bool
  pub pending_input : Bool
  pub background_work : Bool
  pub updated_at : String
  pub latest_run_completed_at : Option String
  pub last_visited_at : Option String

pub record StatusSnapshot : Type 0 where
  pub schema_version : ℕ  -- u32
  pub environment_id : String
  pub generated_at_ms : ℕ  -- u64
  pub threads : List StatusThread

unfoldable pub feed_active : StatusThread → Bool
feed_active t =
    t.background_work
    || t.status == "working"
    || t.status == "running"
    || t.status == "preparing"
    || t.status == "starting"
    || t.status == "waiting"
    || t.status == "queued"

unfoldable pub feed_turn_state : String → String
feed_turn_state s =
    if s == "failed" || s == "error"
    then "error"
    else if s == "blocked"
    then "error"
    else if s == "working"
        || s == "running"
        || s == "preparing"
        || s == "starting"
        || s == "waiting"
    then "running"
    else if s == "completed" || s == "idle" || s == "done"
    then "completed"
    else if s == "interrupted" || s == "cancelled"
    then "interrupted"
    else if s == "queued"
    then "pending"
    else "unknown"

unfoldable pub feed_row : StatusThread → ThreadRow
unfolding feed_active feed_turn_state
feed_row t = record {
  thread_id = t.thread_id;
  title = t.title;
  branch = t.branch;
  worktree_path = t.worktree_path;
  pending_approval_count = pos 0;
  pending_user_input_count = if t.pending_input then pos 1 else pos 0;
  has_actionable_proposed_plan = false;
  settled_at = if t.settled then some t.updated_at else none;
  snoozed_until = if t.snoozed then some "2999-01-01T00:00:00Z" else none;
  created_at = t.updated_at;
  session_status = some "ready";
  provider_name = some t.provider;
  project_title = some t.project_title;
  workspace_root = some t.workspace_root;
  last_turn =
      if t.status == "idle" && is_none t.latest_run_completed_at
      then none
      else some (record {
        state = feed_turn_state t.status;
        requested_at = t.updated_at;
        started_at = none;
        completed_at = t.latest_run_completed_at;
      });
  active_work = feed_active t;
  visited_at = t.last_visited_at;
}

-- `StatusSnapshot::rows`
unfoldable pub rows : StatusSnapshot → List ThreadRow
unfolding feed_row
rows feed = map feed_row feed.threads

-- The columns of the query over the second schema, with the types that the code reads them as.
pub record ColumnsV2 : Type 0 where
  pub thread_id : String
  pub title : String
  pub branch : Option String
  pub worktree_path : Option String
  pub pending_requests : ℤ
  pub settled_at : Option String
  pub snoozed_until : Option String
  pub created_at : String
  pub provider : Option String
  pub project_title : Option String
  pub workspace_root : Option String
  pub state : Option String
  pub requested_at : Option String
  pub completed_at : Option String
  pub active_work : Bool
  pub visited_at : Option String
  pub settled_override : Option String

unfoldable pub turn_state_v2 : String → String
turn_state_v2 s =
    if s == "queued"
    then "pending"
    else if s == "preparing" || s == "starting" || s == "waiting"
    then "running"
    else if s == "failed"
    then "error"
    else if s == "cancelled"
    then "interrupted"
    else s

unfoldable pub row_v2 : ColumnsV2 → ThreadRow
unfolding turn_state_v2
row_v2 c = record {
  thread_id = c.thread_id;
  title = c.title;
  branch = c.branch;
  worktree_path = c.worktree_path;
  pending_approval_count = c.pending_requests;
  pending_user_input_count = pos 0;
  has_actionable_proposed_plan = false;
  settled_at = if c.settled_override == some "active" then none else c.settled_at;
  snoozed_until = c.snoozed_until;
  created_at = c.created_at;
  session_status = some (if c.active_work then "running" else "ready");
  provider_name = c.provider;
  project_title = c.project_title;
  workspace_root = c.workspace_root;
  last_turn = elim c.state [
    | none ↦ none
    | some state ↦ some (record {
      state = turn_state_v2 state;
      requested_at = unwrap_or c.requested_at "";
      started_at = none;
      completed_at = c.completed_at;
    })
  ];
  active_work = c.active_work;
  visited_at = c.visited_at;
}

-- The columns of the query over the first schema.
pub record ColumnsV1 : Type 0 where
  pub thread_id : String
  pub title : Option String
  pub branch : Option String
  pub worktree_path : Option String
  pub pending_approval_count : Option ℤ
  pub pending_user_input_count : Option ℤ
  pub has_actionable_proposed_plan : Option ℤ
  pub settled_at : Option String
  pub snoozed_until : Option String
  pub created_at : Option String
  pub status : Option String
  pub provider_name : Option String
  pub project_title : Option String
  pub workspace_root : Option String

unfoldable pub row_v1 : ColumnsV1 → ThreadRow
row_v1 c = record {
  thread_id = c.thread_id;
  title = unwrap_or c.title "";
  branch = c.branch;
  worktree_path = c.worktree_path;
  pending_approval_count = unwrap_or c.pending_approval_count (pos 0);
  pending_user_input_count = unwrap_or c.pending_user_input_count (pos 0);
  has_actionable_proposed_plan = not (is_zero (unwrap_or c.has_actionable_proposed_plan (pos 0)));
  settled_at = c.settled_at;
  snoozed_until = c.snoozed_until;
  created_at = unwrap_or c.created_at "";
  session_status = c.status;
  provider_name = c.provider_name;
  project_title = c.project_title;
  workspace_root = c.workspace_root;
  last_turn = none;
  active_work = false;
  visited_at = none;
}

-- The columns of the latest turn of a thread in the first schema.
pub record TurnColumns : Type 0 where
  pub state : Option String
  pub requested_at : Option String
  pub started_at : Option String
  pub completed_at : Option String

unfoldable pub turn_v1 : TurnColumns → TurnRow
turn_v1 c = record {
  state = unwrap_or c.state "";
  requested_at = unwrap_or c.requested_at "";
  started_at = c.started_at;
  completed_at = c.completed_at;
}
