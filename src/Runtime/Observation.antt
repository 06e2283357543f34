-- ===== src/Runtime/Observation.antt =====
-- How a collected roster meets what the daemon remembers (crates/xeneon-agent-core/src/runtime.rs,
-- `apply_agent_observations`): review badges, focus acknowledgements, time in a state.
-- A `HashSet` of texts is a list that is only asked `contains`.
pub mod Cards
pub mod Focus
pub mod Badges
use xeneon_edge_agents.Base.{
  ℕ, ◌-◌, ◌/◌, String, Bool, true, false, ◌&&◌, ◌||◌, Option, none, some, List, [], ◌∷◌, ◌==◌,
  string_eq, nat_eq, option_eq, if◌then◌else◌, any, and_then,
}
use xeneon_edge_agents.Base.Map.{Map, lookup, insert, retain}
use xeneon_edge_agents.Model.{AgentStatus, AgentView, agent_status_eq}
use xeneon_edge_agents.Runtime.State.{
  AgentTarget, ObservedAgent, target_session, target_state_change_seq, target_acknowledged,
}

abbrev pub contains : List String → String → Bool
contains xs a = any (λ x. x == a) xs

abbrev pub connected_sessions : Map AgentTarget → List String
connected_sessions [] = []
connected_sessions ((id, target) ∷ rest) = target_session target ∷ connected_sessions rest

-- `current_focus` before the loop over the agents: no focus in any connected session.
unfoldable pub no_focus : List String → Map (Option String)
no_focus [] = []
no_focus (session ∷ rest) = insert session none (no_focus rest)

unfoldable pub mark_focus :
    Map AgentTarget → List AgentView → Map (Option String) → Map (Option String)
mark_focus targets [] focus = focus
mark_focus targets (agent ∷ rest) focus = mark_focus targets rest (elim (lookup agent.id targets) [
  | none ↦ focus
  | some target ↦
      if agent.focused then insert (target_session target) (some agent.id) focus else focus
])

unfoldable pub current_focus : Map AgentTarget → List AgentView → Map (Option String)
unfolding no_focus mark_focus
current_focus targets agents = mark_focus targets agents (no_focus (connected_sessions targets))

-- The agent that one session's focus change acknowledges, if any.
unfoldable pub focus_change : Option (Option String) → Option String → Option String
focus_change none current = none
focus_change (some previous) current = if previous == current then none else current

-- The loop over `current_focus`: the acknowledged agents, and the new focus history.
unfoldable pub acknowledge_focus :
    Map (Option String) → Map (Option String) → List String × Map (Option String)
unfolding focus_change
acknowledge_focus [] focused = ([], focused)
acknowledge_focus ((session, current) ∷ rest) focused =
    let (acknowledged, focused') = acknowledge_focus rest (insert session current focused) in
    (
      elim (focus_change (lookup session focused) current) [
        | none ↦ acknowledged
        | some id ↦ id ∷ acknowledged
      ],
      focused',
    )

unfoldable pub next_review_ready : Option AgentStatus → Bool → AgentStatus → Bool
next_review_ready previous_status previous_review_ready AgentStatus.done = true
next_review_ready none previous_review_ready AgentStatus.idle = previous_review_ready
next_review_ready (some previous) previous_review_ready AgentStatus.idle =
    previous_review_ready || previous == AgentStatus.working
next_review_ready previous_status previous_review_ready _ = false

-- `Duration::as_secs` of `now.duration_since(since)`, which is zero for a later `since`.
abbrev pub seconds_since : ℕ → ℕ → ℕ
seconds_since now since = (now - since) / 1_000_000_000

unfoldable pub state_unchanged : Option ObservedAgent → AgentStatus → ℕ → Bool
state_unchanged none status seq = false
state_unchanged (some value) status seq = value.status == status && value.state_change_seq == seq

abbrev pub was_review_ready : Option ObservedAgent → Bool
was_review_ready none = false
was_review_ready (some value) = value.review_ready

abbrev pub previous_status : Option ObservedAgent → Option AgentStatus
previous_status none = none
previous_status (some value) = some value.status

abbrev since_or : Option ObservedAgent → ℕ → ℕ
since_or none now = now
since_or (some value) now = value.since

-- The record that the loop stores for a card with a target.
unfoldable pub observe_target :
    List String → ℕ → AgentView → AgentTarget → Option ObservedAgent → ObservedAgent
unfolding state_unchanged next_review_ready
observe_target acknowledged now agent target previous =
    let seq = target_state_change_seq target in
    let unchanged = state_unchanged previous agent.status seq in
    record {
      status = agent.status;
      state_change_seq = seq;
      since = if unchanged then since_or previous now else now;
      review_ready =
          if contains acknowledged agent.id || target_acknowledged target
          then false
          else if unchanged
          then was_review_ready previous
          else next_review_ready (previous_status previous) (was_review_ready previous)
              agent.status;
    }

abbrev show_observed : ℕ → AgentView → ObservedAgent → AgentView
show_observed now agent value = record agent {
  review_ready = value.review_ready;
  observed_for_seconds = seconds_since now value.since;
}

-- The body of the loop over the agents.
unfoldable pub observe_agent :
    Map AgentTarget
    → List String
    → ℕ
    → AgentView
    → Map ObservedAgent
    → AgentView × Map ObservedAgent
observe_agent targets acknowledged now agent observed = elim (lookup agent.id targets) [
  | none ↦ elim (lookup agent.id observed) [
    | none ↦ (agent, observed)
    | some previous ↦ (show_observed now agent previous, observed)
  ]
  | some target ↦
      let value = observe_target acknowledged now agent target (lookup agent.id observed) in
      (show_observed now agent value, insert agent.id value observed)
]

unfoldable pub observe_agents :
    Map AgentTarget
    → List String
    → ℕ
    → List AgentView
    → Map ObservedAgent
    → List AgentView × Map ObservedAgent
observe_agents targets acknowledged now [] observed = ([], observed)
observe_agents targets acknowledged now (agent ∷ rest) observed =
    let (agent', observed') = observe_agent targets acknowledged now agent observed in
    let (rest', observed'') = observe_agents targets acknowledged now rest observed' in
    (agent' ∷ rest', observed'')

abbrev pub has_id : List AgentView → String → Bool
has_id agents id = any (λ (agent : AgentView). agent.id == id) agents

pub record Observed : Type 0 where
  pub agents : List AgentView
  pub observed : Map ObservedAgent
  pub focused_agents : Map (Option String)

unfoldable pub apply_agent_observations :
    List AgentView → Map AgentTarget → Map ObservedAgent → Map (Option String) → ℕ → Observed
apply_agent_observations agents targets observed focused_agents now =
    let (acknowledged, focused) = acknowledge_focus (current_focus targets agents) focused_agents in
    let (agents', observed') = observe_agents targets acknowledged now agents observed in
    record {
      agents = agents';
      observed = retain (has_id agents') observed';
      focused_agents = retain (contains (connected_sessions targets)) focused;
    }
