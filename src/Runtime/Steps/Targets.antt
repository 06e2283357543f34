-- ===== src/Runtime/Steps/Targets.antt =====
-- Which manager the targets of a collection belong to (crates/xeneon-agent-core/src/runtime.rs).
use xeneon_edge_agents.Base.{
  ℕ, ◌≡◌, refl, inl, inr, String, Bool, true, false, Option-cases, List, [], ◌∷◌, arith, string_eq,
}
use xeneon_edge_agents.Base.Map.{Map, insert, extend}
use xeneon_edge_agents.Model.{AgentBackend, AgentView, session_state_eq}
use xeneon_edge_agents.Herdr.{HerdrTarget, SessionDescriptor, SessionObservation}
use xeneon_edge_agents.T3code.{T3codeTarget, T3codeObservation}
use xeneon_edge_agents.Runtime.State.{AgentTarget, RuntimeState}
use xeneon_edge_agents.Runtime.Services.{Services}
use xeneon_edge_agents.Runtime.Refresh.{
  Subscription, Collected, nothing_collected, herdr_targets, accept, accept_stale,
  accept_unavailable, update_subscription, reconcile, follow, collect_session, collect_sessions,
  t3code_targets, t3code_roster,
}

-- Whether every target is one of the manager.
unfoldable pub routes_to : AgentBackend → Map AgentTarget → Bool
routes_to backend [] = true
routes_to AgentBackend.herdr ((id, AgentTarget.herdr t) ∷ rest) = routes_to AgentBackend.herdr rest
routes_to AgentBackend.t3code ((id, AgentTarget.t3code t) ∷ rest) =
    routes_to AgentBackend.t3code rest
routes_to _ _ = false

insert-herdr :
    (id : String) (t : HerdrTarget) (m : Map AgentTarget)
    → routes_to AgentBackend.herdr m ≡ true
    → routes_to AgentBackend.herdr (insert id (AgentTarget.herdr t) m) ≡ true
unfolding insert routes_to
insert-herdr id t [] h = refl
insert-herdr id t ((j, AgentTarget.herdr u) ∷ rest) h = ground (arith, insert-herdr id t rest h)
insert-herdr id t ((j, AgentTarget.t3code u) ∷ rest) h = ground arith

extend-herdr :
    (new : Map HerdrTarget) (m : Map AgentTarget)
    → routes_to AgentBackend.herdr m ≡ true
    → routes_to AgentBackend.herdr (extend (herdr_targets new) m) ≡ true
unfolding extend
extend-herdr [] m h = h
extend-herdr ((id, t) ∷ rest) m h =
    extend-herdr rest (insert id (AgentTarget.herdr t) m) (insert-herdr id t m h)

t3code_targets-routes_to :
    (m : Map T3codeTarget) → routes_to AgentBackend.t3code (t3code_targets m) ≡ true
unfolding routes_to
t3code_targets-routes_to [] = refl
t3code_targets-routes_to ((id, t) ∷ rest) = t3code_targets-routes_to rest

pub t3code_roster-routes_to :
    (o : T3codeObservation) (s : RuntimeState)
    → routes_to AgentBackend.t3code (t3code_roster o s).1 ≡ true
unfolding t3code_roster routes_to
t3code_roster-routes_to o s = ground (arith, t3code_targets-routes_to o.targets)

abbrev AllHerdr : Collected → Type 0
AllHerdr c = routes_to AgentBackend.herdr c.targets ≡ true

module _ (S : Services) (epoch : String) (now : ℕ) (previous : List AgentView) where
  abbrev Subscriptions : Type 0
  Subscriptions = Map (Subscription S)

  reconcile-AllHerdr :
      (d : SessionDescriptor) (o : SessionObservation) (subscriptions : Subscriptions)
      (c : Collected) (w : S.World)
      → AllHerdr c
      → AllHerdr (reconcile S epoch now previous d o subscriptions c w).1
  unfolding reconcile accept accept_stale
  reconcile-AllHerdr d o subscriptions c w h =
      elim (Option-cases (S.observe_session d epoch c.source_offset now w).0) [
        | inl failed ↦ ground arith
        | inr (again, e) ↦ ground (arith, extend-herdr again.targets c.targets h)
      ]

  follow-AllHerdr :
      (d : SessionDescriptor) (o : SessionObservation) (subscriptions : Subscriptions)
      (c : Collected) (w : S.World)
      → AllHerdr c
      → AllHerdr (follow S epoch now previous d o subscriptions c w).1
  unfolding follow accept accept_stale
  follow-AllHerdr d o subscriptions c w h = ground (
    arith,
    extend-herdr o.targets c.targets h,
    reconcile-AllHerdr d o (update_subscription S subscriptions d o.pane_ids w).1 c
        (update_subscription S subscriptions d o.pane_ids w).2 h,
  )

  collect_session-AllHerdr :
      (d : SessionDescriptor) (subscriptions : Subscriptions) (c : Collected) (w : S.World)
      → AllHerdr c
      → AllHerdr (collect_session S epoch now previous d subscriptions c w).1
  unfolding collect_session accept_unavailable
  collect_session-AllHerdr d subscriptions c w h =
      elim (Option-cases (S.observe_session d epoch c.source_offset now w).0) [
        | inl failed ↦ ground arith
        | inr (o, e) ↦ ground (
          arith,
          follow-AllHerdr d o subscriptions c (S.observe_session d epoch c.source_offset now w).1 h,
        )
      ]

  collect_all-AllHerdr :
      (ds : List SessionDescriptor) (subscriptions : Subscriptions) (c : Collected) (w : S.World)
      → AllHerdr c
      → AllHerdr (collect_sessions S epoch now previous ds subscriptions c w).1
  unfolding collect_sessions
  collect_all-AllHerdr [] subscriptions c w h = h
  collect_all-AllHerdr (d ∷ rest) subscriptions c w h =
      collect_all-AllHerdr rest _ _ _ (collect_session-AllHerdr d subscriptions c w h)

  pub collect_sessions-routes_to :
      (ds : List SessionDescriptor) (subscriptions : Subscriptions) (w : S.World)
      → routes_to AgentBackend.herdr
          (collect_sessions S epoch now previous ds subscriptions nothing_collected w).1.targets
        ≡ true
  unfolding routes_to
  collect_sessions-routes_to ds subscriptions w =
      collect_all-AllHerdr ds subscriptions nothing_collected w refl
