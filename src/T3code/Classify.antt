-- ===== src/T3code/Classify.antt =====
-- `classify` of crates/xeneon-agent-core/src/t3code.rs: the state of a thread in the portal's words.
pub mod Attention
use xeneon_edge_agents.Base.{
  ℕ, suc, ◌+◌, ◌/◌, ◌^◌, String, Bool, true, false, Option, none, some, ◌==◌, string_eq, ◌&&◌, ◌||◌,
  not, if◌then◌else◌, is_some, is_none, unwrap_or, and_then, or_else, ltb, leb,
}
use xeneon_edge_agents.Base.Integers.{ℤ, pos, negsuc, is_zero, is_positive}
use xeneon_edge_agents.Base.Text.{trim}
use xeneon_edge_agents.Model.{AgentStatus}
use xeneon_edge_agents.T3code.Rows.{ThreadRow, TurnRow}
use xeneon_edge_agents.T3code.External.{External}

pub record Classification : Type 0 where
  pub status : AgentStatus
  pub launch_pending : Bool
  pub state_change_seq : ℕ  -- u64
  pub acknowledged : Bool

-- `u64::try_from(nanos / 1_000_000)`, where the division drops the fraction towards zero.
unfoldable pub millis_of_nanos : ℤ → Option ℕ
millis_of_nanos (pos n) =
    let millis = n / 1000000 in if ltb millis (2 ^ 64) then some millis else none
millis_of_nanos (negsuc n) = if ltb (suc n) 1000000 then some 0 else none

-- A classification as the code writes it in place.
abbrev pub classified : AgentStatus → Bool → ℕ → Bool → Classification
classified s pending seq ack = record {
  status = s;
  launch_pending = pending;
  state_change_seq = seq;
  acknowledged = ack;
}

abbrev pub session_status_of : ThreadRow → String
session_status_of row = unwrap_or row.session_status "stopped"

unfoldable pub is_live : ThreadRow → Bool
is_live row = session_status_of row == "running" || session_status_of row == "ready"

unfoldable pub needs_human : ThreadRow → Bool
needs_human row =
    is_positive row.pending_approval_count
    || is_positive row.pending_user_input_count
    || row.has_actionable_proposed_plan

abbrev pub turn_state_of : ThreadRow → Option String
turn_state_of row = and_then row.last_turn (λ turn. some turn.state)

module _ (X : External) where
  unfoldable pub timestamp_ms : String → Option ℕ
  unfolding trim millis_of_nanos
  timestamp_ms value = and_then (X.parse_rfc3339 (trim value)) millis_of_nanos

  unfoldable pub turn_started : ThreadRow → ℕ
  unfolding timestamp_ms
  turn_started row =
      unwrap_or
        (and_then row.last_turn (λ turn.
          or_else (and_then turn.started_at timestamp_ms) (timestamp_ms turn.requested_at)))
        (unwrap_or (timestamp_ms row.created_at) 0)

  unfoldable pub turn_finished : ThreadRow → ℕ
  unfolding timestamp_ms turn_started
  turn_finished row =
      unwrap_or (and_then row.last_turn (λ turn. and_then turn.completed_at timestamp_ms))
        (turn_started row)

  unfoldable pub settled_ms : ThreadRow → ℕ
  unfolding timestamp_ms turn_finished
  settled_ms row = unwrap_or (and_then row.settled_at timestamp_ms) (turn_finished row)

  unfoldable pub is_snoozed : ThreadRow → ℕ → Bool
  unfolding timestamp_ms
  is_snoozed row now =
      not row.active_work
      && is_zero row.pending_approval_count
      && is_zero row.pending_user_input_count
      && elim (and_then row.snoozed_until timestamp_ms) [
        | none ↦ false
        | some until ↦ ltb now until
      ]

  unfoldable pub is_visited : ThreadRow → Bool
  unfolding timestamp_ms turn_finished
  is_visited row = elim (and_then row.visited_at timestamp_ms) [
    | none ↦ false
    | some visited ↦ leb (turn_finished row) visited
  ]

  -- The `match` on the state of the session and the state of the last turn.
  unfoldable pub classify_turn : ThreadRow → String → Option String → Classification
  unfolding timestamp_ms turn_started turn_finished settled_ms is_visited
  classify_turn row session none =
      let created = unwrap_or (timestamp_ms row.created_at) 0 in
      if session == "running"
      then classified AgentStatus.working true created false
      else if session == "error"
      then classified AgentStatus.blocked false (turn_finished row) false
      else classified AgentStatus.idle false created (is_some row.settled_at)
  classify_turn row session (some turn) =
      let over = turn == "completed" || turn == "interrupted" in
      if (session == "running" && (turn == "running" || turn == "pending")) || turn == "running"
      then classified AgentStatus.working false (turn_started row) false
      else if session == "error" || turn == "error"
      then classified AgentStatus.blocked false (turn_finished row) false
      else if over && (is_some row.settled_at || is_visited row)
      then classified AgentStatus.idle false (settled_ms row) true
      else if over
      then classified AgentStatus.done false (turn_finished row) false
      else if session == "running"
      then classified AgentStatus.working false (turn_started row) false
      else classified AgentStatus.unknown false (turn_started row) false

  unfoldable pub classify : ThreadRow → ℕ → Option Classification
  unfolding is_snoozed is_live needs_human classify_turn turn_started
  classify row now =
      if is_snoozed row now
      then none
      else if not (is_live row) && (is_some row.settled_at || is_none row.last_turn)
      then none
      else if needs_human row
      then some (classified AgentStatus.blocked false (turn_started row) false)
      else if row.active_work
      then some (classified AgentStatus.working false (turn_started row) false)
      else some (classify_turn row (session_status_of row) (turn_state_of row))
