-- ===== src/Runtime/Observation/Cards.antt =====
-- The loop of `apply_agent_observations` (crates/xeneon-agent-core/src/runtime.rs) card by card.
use xeneon_edge_agents.Base.{
  ℕ, ◌≡◌, ◌≢◌, refl, ap₂, ◌∙◌, inl, inr, String, false, Option, none, some, List, [], ◌∷◌, ◌==◌,
  string_eq, map, arith, All, Option-cases, ==_ne, ==_self, find,
}
use xeneon_edge_agents.Base.Map.{Map, lookup, insert, lookup-insert}
use xeneon_edge_agents.Model.{AgentView, agent_status_eq}
use xeneon_edge_agents.Runtime.State.{AgentTarget, ObservedAgent}
use xeneon_edge_agents.Runtime.Observation.{
  observe_target, observe_agent, observe_agents, show_observed, has_id,
}

abbrev pub find_id : String → List AgentView → Option AgentView
find_id j = find (λ (a : AgentView). a.id == j)

-- No two cards have one id.
abbrev pub HasUniqueIds : List AgentView → Type 0
HasUniqueIds [] = Unit
HasUniqueIds (a ∷ rest) = (has_id rest a.id ≡ false) × HasUniqueIds rest

module _ (targets : Map AgentTarget) (acknowledged : List String) (now : ℕ) where
  -- What the body of the loop stores for a card with a target.
  abbrev pub stored : AgentView → AgentTarget → Map ObservedAgent → ObservedAgent
  stored a t observed = observe_target acknowledged now a t (lookup a.id observed)

  pub observe_agent_target :
      (a : AgentView) (t : AgentTarget) (observed : Map ObservedAgent)
      → lookup a.id targets ≡ some t
      → observe_agent targets acknowledged now a observed
        ≡ (show_observed now a (stored a t observed), insert a.id (stored a t observed) observed)
  unfolding observe_agent
  observe_agent_target a t observed e = rw (e, observe_agent)

  pub observe_agent_stale :
      (a : AgentView) (observed : Map ObservedAgent)
      → lookup a.id targets ≡ none
      → (observe_agent targets acknowledged now a observed).1 ≡ observed
  unfolding observe_agent
  observe_agent_stale a observed e = ground arith

  -- The body of the loop changes what is remembered of its own card alone.
  lookup-observe_agent_ne :
      (a : AgentView) (observed : Map ObservedAgent) (j : String)
      → a.id ≢ j
      → lookup j (observe_agent targets acknowledged now a observed).1 ≡ lookup j observed
  lookup-observe_agent_ne a observed j h = elim (Option-cases (lookup a.id targets)) [
    | inl e ↦ rw (observe_agent_stale a observed e)
    | inr (t, e) ↦ rw (observe_agent_target a t observed e, lookup-insert, ==_ne a.id j h)
  ]

  pub observe_agent-id :
      (a : AgentView) (observed : Map ObservedAgent)
      → (observe_agent targets acknowledged now a observed).0.id ≡ a.id
  unfolding observe_agent
  observe_agent-id a observed = ground arith

  -- The loop keeps what is remembered of an id that no card has.
  lookup-observe_agents_absent :
      (agents : List AgentView) (observed : Map ObservedAgent) (j : String)
      → has_id agents j ≡ false
      → lookup j (observe_agents targets acknowledged now agents observed).1 ≡ lookup j observed
  unfolding observe_agents
  lookup-observe_agents_absent [] observed j h = refl
  lookup-observe_agents_absent (a ∷ rest) observed j h =
      lookup-observe_agents_absent rest _ j (ground arith)
      ∙ lookup-observe_agent_ne a observed j (ground arith)

  -- The body of the loop reads of the memory its own card's entry alone.
  observe_agent_local :
      (a : AgentView) (m n : Map ObservedAgent)
      → lookup a.id m ≡ lookup a.id n
      → (observe_agent targets acknowledged now a m).0
        ≡ (observe_agent targets acknowledged now a n).0
  unfolding observe_agent
  observe_agent_local a m n e = ground arith

  -- So a step on one card leaves the entries of the cards that follow it.
  entries_after :
      (a : AgentView) (rest : List AgentView) (m n : Map ObservedAgent)
      → has_id rest a.id ≡ false
      → All (λ (b : AgentView). lookup b.id m ≡ lookup b.id n) rest
      → All
          (λ (b : AgentView).
            lookup b.id (observe_agent targets acknowledged now a m).1 ≡ lookup b.id n)
          rest
  entries_after a [] m n h s = tt
  entries_after a (b ∷ rest) m n h s = (
    lookup-observe_agent_ne a m b.id (ground arith) ∙ s.0,
    entries_after a rest m n (ground arith) s.1,
  )

  -- With unique ids the loop shows each card as its body alone does, on the memory before the loop.
  observe_agents-map_from :
      (agents : List AgentView) (m n : Map ObservedAgent)
      → HasUniqueIds agents
      → All (λ (a : AgentView). lookup a.id m ≡ lookup a.id n) agents
      → (observe_agents targets acknowledged now agents m).0
        ≡ map (λ a. (observe_agent targets acknowledged now a n).0) agents
  unfolding observe_agents
  observe_agents-map_from [] m n u s = refl
  observe_agents-map_from (a ∷ rest) m n u s =
      ap₂ ◌∷◌ (observe_agent_local a m n s.0)
        (observe_agents-map_from rest _ n u.1 (entries_after a rest m n u.0 s.1))

  entries_same :
      (agents : List AgentView) (m : Map ObservedAgent)
      → All (λ (a : AgentView). lookup a.id m ≡ lookup a.id m) agents
  entries_same [] m = tt
  entries_same (a ∷ rest) m = (refl, entries_same rest m)

  pub observe_agents-map :
      (agents : List AgentView) (m : Map ObservedAgent)
      → HasUniqueIds agents
      → (observe_agents targets acknowledged now agents m).0
        ≡ map (λ a. (observe_agent targets acknowledged now a m).0) agents
  observe_agents-map agents m u = observe_agents-map_from agents m m u (entries_same agents m)

  -- The first card after the whole loop.
  observe_agents_first :
      (b : AgentView) (rest : List AgentView) (observed : Map ObservedAgent) (t : AgentTarget)
      → has_id rest b.id ≡ false
      → lookup b.id targets ≡ some t
      → let r = observe_agents targets acknowledged now (b ∷ rest) observed in
        let v = stored b t observed in
        (find_id b.id r.0 ≡ some (show_observed now b v)) × (lookup b.id r.1 ≡ some v)
  unfolding observe_agents
  observe_agents_first b rest observed t h e = rw (observe_agent_target b t observed e) (
    rw (==_self b.id),
    lookup-observe_agents_absent rest _ b.id h
        ∙ lookup-insert b.id b.id (stored b t observed) observed
        ∙ rw (==_self b.id),
  )

  -- One card after the whole loop: what is shown for id `j` and what is remembered of it.
  pub observe_agents_at :
      (agents : List AgentView) (observed : Map ObservedAgent) (j : String) (a : AgentView)
      (t : AgentTarget)
      → HasUniqueIds agents
      → find_id j agents ≡ some a
      → lookup j targets ≡ some t
      → let r = observe_agents targets acknowledged now agents observed in
        let v = observe_target acknowledged now a t (lookup j observed) in
        (find_id j r.0 ≡ some (show_observed now a v)) × (lookup j r.1 ≡ some v)
  unfolding observe_agents
  observe_agents_at [] observed j a t u f e = cc
  observe_agents_at (b ∷ rest) observed j a t u f e = elim (string_eq.dec b.id j) [
    | yes same ↦ ground (arith, observe_agents_first b rest observed t)
    | no differ ↦ ground (
      arith,
      observe_agents_at rest (observe_agent targets acknowledged now b observed).1 j a t,
      observe_agent-id b observed,
      lookup-observe_agent_ne b observed j,
    )
  ]
