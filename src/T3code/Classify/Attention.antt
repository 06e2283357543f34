-- ===== src/T3code/Classify/Attention.antt =====
-- What the classification of a thread says of it.
use xeneon_edge_agents.Base.{
  ℕ, String, ◌≡◌, ==_eq, ◌⊎◌, inl, inr, refl, subst, Bool, true, false, not, Option, none, some,
  ◌&&◌, ◌||◌, ◌==◌, nat_eq, string_eq, option_eq, arith, is_some, is_none, if◌then◌else◌,
}
use xeneon_edge_agents.Base.Integers.{is_positive}
use xeneon_edge_agents.Model.{AgentStatus}
use xeneon_edge_agents.T3code.Rows.{ThreadRow, TurnRow}
use xeneon_edge_agents.T3code.External.{External}
use xeneon_edge_agents.T3code.Classify.{
  Classification, classify, classify_turn, needs_human, is_live, classified, is_snoozed, is_visited,
  turn_started, turn_finished, turn_state_of, session_status_of,
}

abbrev pub agree : Bool → Bool → Bool
agree a b = if a then b else not b

abbrev pub turn_is : String → ThreadRow → Bool
turn_is state row = elim row.last_turn [ none ↦ false | some turn ↦ turn.state == state ]

-- The thread's last turn has ended, by itself or by an interruption.
abbrev pub is_over : ThreadRow → Bool
is_over row = turn_is "completed" row || turn_is "interrupted" row

abbrev pub has_failed : ThreadRow → Bool
has_failed row = session_status_of row == "error" || turn_is "error" row

-- The last turn runs, or waits for a session that runs.
abbrev pub runs : ThreadRow → Bool
runs row = turn_is "running" row || (session_status_of row == "running" && turn_is "pending" row)

runs_not_failed : (s : String) → (s == "running") ≡ true → (s == "error") ≡ false
unfolding string_eq
runs_not_failed s h = rw (==_eq s "running" h) refl

module _ (X : External) where
  -- The turn is over and has been settled, or was visited since.
  abbrev pub is_seen : ThreadRow → Bool
  is_seen row = is_over row && (is_some row.settled_at || is_visited X row)

  -- What a card's status, and its marks, say of the thread. No thread fits two statuses.
  unfoldable pub explains : ThreadRow → Classification → Bool
  explains row c = elim c.status [
    | AgentStatus.blocked ↦
        (needs_human row || (not row.active_work && has_failed row && not (runs row)))
        && not c.launch_pending
        && not c.acknowledged
    | AgentStatus.working ↦
        not (needs_human row)
        && (row.active_work
            || runs row
            || (session_status_of row == "running" && not (has_failed row) && not (is_over row)))
        && not c.acknowledged
        && agree c.launch_pending (not row.active_work && is_none row.last_turn)
    | AgentStatus.done ↦
        not (needs_human row)
        && not row.active_work
        && not (has_failed row)
        && is_over row
        && not (is_seen row)
        && not c.launch_pending
        && not c.acknowledged
        && c.state_change_seq == turn_finished X row
    | AgentStatus.idle ↦
        not (needs_human row)
        && not row.active_work
        && not (has_failed row)
        && (is_seen row || (is_none row.last_turn && not (session_status_of row == "running")))
        && not c.launch_pending
        && agree c.acknowledged (is_some row.settled_at || is_seen row)
    | AgentStatus.unknown ↦
        not (needs_human row)
        && not row.active_work
        && not (has_failed row)
        && not (runs row)
        && not (is_over row)
        && is_some row.last_turn
        && not (session_status_of row == "running")
        && not c.launch_pending
        && not c.acknowledged
  ]

  turn-explains :
      (row : ThreadRow) (last : Option TurnRow)
      → row.last_turn ≡ last
      → needs_human row ≡ false
      → row.active_work ≡ false
      → explains row (classify_turn X row (session_status_of row) (turn_state_of row)) ≡ true
  unfolding explains classify_turn
  turn-explains row none e calm free = ground (arith, runs_not_failed (session_status_of row))
  turn-explains row (some turn) e calm free = ground arith

  -- The three ways to a card.
  classify-cases :
      (row : ThreadRow) (now : ℕ) (c : Classification)
      → classify X row now ≡ some c
      → ((needs_human row ≡ true)
          × (classified AgentStatus.blocked false (turn_started X row) false ≡ c))
        ⊎ ((needs_human row ≡ false)
            × (row.active_work ≡ true)
            × (classified AgentStatus.working false (turn_started X row) false ≡ c))
        ⊎ ((needs_human row ≡ false)
            × (row.active_work ≡ false)
            × (classify_turn X row (session_status_of row) (turn_state_of row) ≡ c))
  unfolding classify
  classify-cases row now c h = ground arith

  pub classify-explains :
      (row : ThreadRow) (now : ℕ) (c : Classification)
      → classify X row now ≡ some c
      → explains row c ≡ true
  unfolding explains
  classify-explains row now c h = elim (classify-cases row now c h) [
    | inl (asks, e) ↦ subst (λ k. explains row k ≡ true) e (ground arith)
    | inr (inl (calm, busy, e)) ↦ subst (λ k. explains row k ≡ true) e (ground arith)
    | inr (inr (calm, free, e)) ↦
        subst (λ k. explains row k ≡ true) e (turn-explains row row.last_turn refl calm free)
  ]

  pub waiting-blocked :
      (row : ThreadRow) (now : ℕ)
      → (is_positive row.pending_approval_count || is_positive row.pending_user_input_count) ≡ true
      → (is_live row || (is_none row.settled_at && is_some row.last_turn)) ≡ true
      → classify X row now ≡ some (classified AgentStatus.blocked false (turn_started X row) false)
  unfolding classify is_snoozed needs_human
  waiting-blocked row now asks shown = ground arith
