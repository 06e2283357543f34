-- ===== src/Runtime/Refresh/Commit/Agreement.antt =====
-- When a collection of Herdr sessions offers the ordering to clients, and in which order it shows
-- the cards (crates/xeneon-agent-core/src/runtime.rs, `refresh_herdr` and `apply_agent_order`).
use xeneon_edge_agents.Base.{
  ◌≡◌, ◌∙◌, sym, All-imp, ◌≢◌, inl, inr, true, List, [], ◌∷◌, ◌==◌, nat_eq, ==_eq, all, All, arith,
  length, Bool-cases, String, ℕ, subst,
}
use xeneon_edge_agents.Base.Map.{Map}
use xeneon_edge_agents.Runtime.Services.{Services}
use xeneon_edge_agents.Model.{AgentOrderMode, AgentView, agent_order_mode_eq, session_state_eq}
use xeneon_edge_agents.Herdr.{SessionDescriptor}
use xeneon_edge_agents.Runtime.Refresh.{
  Subscription, Collected, nothing_collected, collect_sessions,
}
use xeneon_edge_agents.Runtime.Refresh.Commit.{common_order}
use xeneon_edge_agents.Runtime.Refresh.Commit.Reports.{Agreed, Reports-Agreed, collect_all-Ran}

all_same :
    (m : AgentOrderMode) (modes : List AgentOrderMode)
    → all (λ x. x == m) modes ≡ true
    → All (λ x. x ≡ m) modes
all_same m [] h = tt
all_same m (x ∷ rest) h = elim (Bool-cases (x == m)) [
  | inl same ↦ (==_eq x m same, all_same m rest (ground arith))
  | inr differs ↦ ground arith
]

abbrev with_modes : Collected → List AgentOrderMode → Collected
with_modes c modes = record c { order_modes = modes }

shown_mode :
    (descriptors : List SessionDescriptor) (c : Collected) (m : AgentOrderMode)
    (rest : List AgentOrderMode)
    → (common_order descriptors (with_modes c (m ∷ rest))).available ≡ true
    → (common_order descriptors (with_modes c (m ∷ rest))).mode ≡ m
unfolding common_order
shown_mode descriptors c m rest offered = ground arith

agrees :
    (descriptors : List SessionDescriptor) (c : Collected) (modes : List AgentOrderMode)
    → (common_order descriptors (with_modes c modes)).available ≡ true
    → (descriptors ≢ [])
      × (c.connected ≡ length descriptors)
      × (length modes ≡ length descriptors)
      × All (λ m. m ≡ (common_order descriptors (with_modes c modes)).mode) modes
unfolding common_order
agrees descriptors c [] offered = ground arith
agrees descriptors c (m ∷ rest) offered = elim (Bool-cases (all (λ x. x == m) (m ∷ rest))) [
  | inl same ↦ (
    ground arith,
    ground arith,
    ground arith,
    All-imp (λ x e. e ∙ sym (shown_mode descriptors c m rest offered)) (m ∷ rest)
        (all_same m (m ∷ rest) same),
  )
  | inr differ ↦ ground arith
]

module _ (S : Services) (epoch : String) (now : ℕ) (previous : List AgentView) where
  -- Where the loop over the discovered Herdr sessions ends with an ordering to offer, there is a
  -- session, and the sessions that are shown are one by one those that were discovered, each as a
  -- compatible Herdr answered for it, in an answer that reported the ordering that is offered.
  pub common_order-agrees :
      (descriptors : List SessionDescriptor) (subscriptions : Map (Subscription S)) (w : S.World)
      → let c =
          (collect_sessions S epoch now previous descriptors subscriptions nothing_collected w).1 in
        (common_order descriptors c).available ≡ true
        → (descriptors ≢ [])
          × Agreed S epoch now previous (common_order descriptors c).mode descriptors c.sessions
  common_order-agrees descriptors subscriptions w offered =
      let c =
        (collect_sessions S epoch now previous descriptors subscriptions nothing_collected w).1 in
      let (some_session, connected, orderings, same) = agrees descriptors c c.order_modes offered in
      let (ms, ss, modes, sessions, reports) =
        (collect_all-Ran S epoch now previous descriptors subscriptions nothing_collected
            w).complete
          (omega (arith, connected)) (omega (arith, orderings)) in
      (
        some_session,
        subst (Agreed S epoch now previous (common_order descriptors c).mode descriptors)
            (sym sessions)
            (Reports-Agreed S epoch now previous reports
              (subst (All (λ m. m ≡ (common_order descriptors c).mode)) modes same)),
      )
