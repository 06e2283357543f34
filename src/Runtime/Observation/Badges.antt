-- ===== src/Runtime/Observation/Badges.antt =====
-- The review badges that `apply_agent_observations` of crates/xeneon-agent-core/src/runtime.rs
-- leaves on the cards.
use xeneon_edge_agents.Base.{
  ℕ, ◌≡◌, ◌≢◌, refl, ◌∙◌, ◌⊎◌, inl, inr, String, Bool, true, false, Option, none, some, List, [],
  ◌∷◌, ◌==◌, string_eq, Bool-cases, Option-cases, if◌then◌else◌, arith,
}
use xeneon_edge_agents.Base.Map.{Map, lookup, insert, retain, lookup-retain}
use xeneon_edge_agents.Model.{AgentStatus, AgentView, agent_status_eq}
use xeneon_edge_agents.Runtime.State.{
  AgentTarget, ObservedAgent, target_state_change_seq, target_acknowledged,
}
use xeneon_edge_agents.Runtime.Observation.{
  contains, observe_target, observe_agent, observe_agents, show_observed, has_id, Observed,
  apply_agent_observations, acknowledge_focus, current_focus, next_review_ready, state_unchanged,
}
use xeneon_edge_agents.Runtime.Observation.Cards.{
  find_id, HasUniqueIds, observe_agents_at, observe_agent_stale, observe_agent_target,
}
use xeneon_edge_agents.Runtime.Observation.Focus.{
  acknowledge_focus-moved, current_focus-HasUniqueKeys,
}

has_id_of_find_id :
    (agents : List AgentView) (j : String) (a : AgentView)
    → find_id j agents ≡ some a
    → has_id agents j ≡ true
has_id_of_find_id [] j a f = cc
has_id_of_find_id (b ∷ rest) j a f = ground (arith, has_id_of_find_id rest j a)

-- A badge fits where the remembered status is one that a human may still have to review.
abbrev pub is_reviewable : AgentStatus → Bool
is_reviewable AgentStatus.done = true
is_reviewable AgentStatus.idle = true
is_reviewable _ = false

abbrev pub badge_fits : ObservedAgent → Bool
badge_fits o = if o.review_ready then is_reviewable o.status else true

abbrev pub AllFit : Map ObservedAgent → Type 0
AllFit [] = Unit
AllFit ((k, o) ∷ m) = (badge_fits o ≡ true) × AllFit m

abbrev entry_fits : Option ObservedAgent → Bool
entry_fits none = true
entry_fits (some o) = badge_fits o

lookup-fits : (m : Map ObservedAgent) (j : String) → AllFit m → entry_fits (lookup j m) ≡ true
unfolding lookup
lookup-fits [] j k = refl
lookup-fits ((i, o) ∷ m) j k = elim (Bool-cases (i == j)) [
  | inl e ↦ rw e k.0
  | inr e ↦ rw e (lookup-fits m j k.1)
]

observe_target-fits :
    (acknowledged : List String) (now : ℕ) (a : AgentView) (t : AgentTarget)
    (previous : Option ObservedAgent)
    → entry_fits previous ≡ true
    → badge_fits (observe_target acknowledged now a t previous) ≡ true
unfolding observe_target state_unchanged next_review_ready
observe_target-fits acknowledged now a t none k = ground arith
observe_target-fits acknowledged now a t (some p) k = ground arith

no_badge :
    (o : ObservedAgent)
    → (o.status ≡ AgentStatus.blocked)
      ⊎ (o.status ≡ AgentStatus.working)
      ⊎ (o.status ≡ AgentStatus.unknown)
    → badge_fits o ≡ true
    → o.review_ready ≡ false
no_badge o s k = ground arith

insert-AllFit :
    (j : String) (o : ObservedAgent) (m : Map ObservedAgent)
    → badge_fits o ≡ true
    → AllFit m
    → AllFit (insert j o m)
unfolding insert
insert-AllFit j o [] b k = (b, tt)
insert-AllFit j o ((i, w) ∷ m) b k = elim (Bool-cases (i == j)) [
  | inl e ↦ rw e (b, k.1)
  | inr e ↦ rw e (k.0, insert-AllFit j o m b k.1)
]

retain-AllFit : (p : String → Bool) (m : Map ObservedAgent) → AllFit m → AllFit (retain p m)
unfolding retain
retain-AllFit p [] k = k
retain-AllFit p ((i, w) ∷ m) k = elim (Bool-cases (p i)) [
  | inl e ↦ rw e (k.0, retain-AllFit p m k.1)
  | inr e ↦ rw e (retain-AllFit p m k.1)
]

module _ (targets : Map AgentTarget) (acknowledged : List String) (now : ℕ) where
  observe_agent-AllFit :
      (a : AgentView) (m : Map ObservedAgent)
      → AllFit m
      → AllFit (observe_agent targets acknowledged now a m).1
  observe_agent-AllFit a m k = elim (Option-cases (lookup a.id targets)) [
    | inl e ↦ rw (observe_agent_stale targets acknowledged now a m e) k
    | inr (t, e) ↦ rw (observe_agent_target targets acknowledged now a t m e) (
        insert-AllFit a.id _ m (observe_target-fits acknowledged now a t _ (lookup-fits m a.id k))
          k)
  ]

  observe_agents-AllFit :
      (agents : List AgentView) (m : Map ObservedAgent)
      → AllFit m
      → AllFit (observe_agents targets acknowledged now agents m).1
  unfolding observe_agents
  observe_agents-AllFit [] m k = k
  observe_agents-AllFit (a ∷ rest) m k = observe_agents-AllFit rest _ (observe_agent-AllFit a m k)

module _ (agents : List AgentView) (targets : Map AgentTarget) (observed : Map ObservedAgent)
    (focused : Map (Option String)) (now : ℕ) where
  abbrev result : Observed
  result = apply_agent_observations agents targets observed focused now

  abbrev acknowledged_ids : List String
  acknowledged_ids = (acknowledge_focus (current_focus targets agents) focused).0

  apply_at :
      (j : String) (a : AgentView) (t : AgentTarget)
      → HasUniqueIds agents
      → find_id j agents ≡ some a
      → lookup j targets ≡ some t
      → let v = observe_target acknowledged_ids now a t (lookup j observed) in
        (find_id j result.agents ≡ some (show_observed now a v))
        × (lookup j result.observed ≡ some v)
  unfolding apply_agent_observations
  apply_at j a t u f e =
      let at = observe_agents_at targets acknowledged_ids now agents observed j a t u f e in
      (at.0, lookup-retain _ j _ ∙ ground (arith, at.1, has_id_of_find_id _ j _ at.0))

  -- With unique ids, what is remembered of a card with a target is in step with the card: its
  -- status, its target's change number, and the badge that the card shows.
  pub observed-tracks :
      (j : String) (a : AgentView) (t : AgentTarget)
      → HasUniqueIds agents
      → find_id j agents ≡ some a
      → lookup j targets ≡ some t
      → (c : AgentView) × (o : ObservedAgent) × (find_id j result.agents ≡ some c)
        × (lookup j result.observed ≡ some o)
        × (c.status ≡ a.status)
        × (o.status ≡ a.status)
        × (o.state_change_seq ≡ target_state_change_seq t)
        × (c.review_ready ≡ o.review_ready)
  unfolding observe_target
  observed-tracks j a t u f e =
      let v = observe_target acknowledged_ids now a t (lookup j observed) in
      let at = apply_at j a t u f e in
      (show_observed now a v, v, at.0, at.1, refl, refl, refl, refl)

  -- A card that was remembered as working and is now idle or done shows a review badge, unless
  -- its manager or a focus change acknowledges it.
  pub finished-review_ready :
      (j : String) (a : AgentView) (t : AgentTarget) (p : ObservedAgent)
      → HasUniqueIds agents
      → find_id j agents ≡ some a
      → lookup j targets ≡ some t
      → lookup j observed ≡ some p
      → p.status ≡ AgentStatus.working
      → (a.status ≡ AgentStatus.idle) ⊎ (a.status ≡ AgentStatus.done)
      → target_acknowledged t ≡ false
      → contains acknowledged_ids a.id ≡ false
      → (c : AgentView) × (find_id j result.agents ≡ some c) × (c.review_ready ≡ true)
  unfolding observe_target state_unchanged next_review_ready
  finished-review_ready j a t p u f e q w s k h =
      let v = observe_target acknowledged_ids now a t (lookup j observed) in
      (show_observed now a v, (apply_at j a t u f e).0, ground arith)

  -- A card that its manager acknowledges shows no badge.
  pub acknowledged-review_ready :
      (j : String) (a : AgentView) (t : AgentTarget)
      → HasUniqueIds agents
      → find_id j agents ≡ some a
      → lookup j targets ≡ some t
      → target_acknowledged t ≡ true
      → (c : AgentView) × (find_id j result.agents ≡ some c) × (c.review_ready ≡ false)
  unfolding observe_target
  acknowledged-review_ready j a t u f e k =
      let v = observe_target acknowledged_ids now a t (lookup j observed) in
      (show_observed now a v, (apply_at j a t u f e).0, ground arith)

  -- A card that a session's focus has moved to, from a focus that was known and another, shows no
  -- badge.
  pub focused-review_ready :
      (j : String) (a : AgentView) (t : AgentTarget) (session : String) (previous : Option String)
      → HasUniqueIds agents
      → find_id j agents ≡ some a
      → lookup j targets ≡ some t
      → lookup session (current_focus targets agents) ≡ some (some a.id)
      → lookup session focused ≡ some previous
      → previous ≢ some a.id
      → (c : AgentView) × (find_id j result.agents ≡ some c) × (c.review_ready ≡ false)
  unfolding observe_target
  focused-review_ready j a t session previous u f e m p d =
      let v = observe_target acknowledged_ids now a t (lookup j observed) in
      let moved =
        acknowledge_focus-moved (current_focus targets agents) focused session a.id previous
          (current_focus-HasUniqueKeys targets agents) m p d in
      (show_observed now a v, (apply_at j a t u f e).0, ground arith)

  -- Where the remembered badges fit their statuses, a card with a target that is blocked, working
  -- or unknown shows no badge.
  pub active-review_ready :
      (j : String) (a : AgentView) (t : AgentTarget)
      → HasUniqueIds agents
      → AllFit observed
      → find_id j agents ≡ some a
      → lookup j targets ≡ some t
      → (a.status ≡ AgentStatus.blocked)
        ⊎ (a.status ≡ AgentStatus.working)
        ⊎ (a.status ≡ AgentStatus.unknown)
      → (c : AgentView) × (find_id j result.agents ≡ some c) × (c.review_ready ≡ false)
  unfolding observe_target
  active-review_ready j a t u k f e s =
      let v = observe_target acknowledged_ids now a t (lookup j observed) in
      (
        show_observed now a v,
        (apply_at j a t u f e).0,
        no_badge v s (observe_target-fits acknowledged_ids now a t _ (lookup-fits observed j k)),
      )

  -- Badges that fit their statuses still do after an observation.
  pub apply-AllFit : AllFit observed → AllFit result.observed
  unfolding apply_agent_observations
  apply-AllFit k =
      retain-AllFit _ _ (observe_agents-AllFit targets acknowledged_ids now agents observed k)
