-- ===== src/Runtime/Order/Rollback.antt =====
-- The writes of the ordering command (crates/xeneon-agent-core/src/runtime.rs,
-- `process_agent_order_command`) and their compensation against Herdr's promises.
use xeneon_edge_agents.Base.{
  ℕ, ◌≡◌, sym, ap, subst, ◌∙◌, inl, inr, String, Bool, true, false, not, some, List, [], ◌∷◌, ◌==◌,
  string_eq, nat_eq, any, All, All-imp, arith, Bool-cases,
}
use xeneon_edge_agents.Model.{
  ActionResult, AgentOrderMode, PortalCommand, agent_order_mode_eq, agent_backend_eq,
}
use xeneon_edge_agents.Herdr.{SessionDescriptor}
use xeneon_edge_agents.Runtime.State.{action_ok, action_error}
use xeneon_edge_agents.Runtime.Services.{Services, IsHerdr}
use xeneon_edge_agents.Runtime.Daemon.{Daemon}
use xeneon_edge_agents.Runtime.Order.{
  PriorMode, Preflight, SetOutcome, preflight, set_all, compensate, verify, roll_back, commit_order,
  set_herdr_order, order_herdr,
}
use xeneon_edge_agents.Runtime.Order.Loops.{SetOutcome-cases, Preflight-cases, true_not_false}
use xeneon_edge_agents.Runtime.Order.Loops

module _ (S : Services) (stored : S.World → String → AgentOrderMode) (H : IsHerdr S stored) where
  abbrev pub Holds : S.World → PriorMode → Type 0
  Holds = Loops.Holds S stored H

  abbrev pub Stores : AgentOrderMode → S.World → PriorMode → Type 0
  Stores = Loops.Stores S stored H

  pub order_herdr_verified :
      (command : PortalCommand) (mode : AgentOrderMode) (now : ℕ) (d : Daemon) (w : S.World)
      (first : SessionDescriptor) (rest : List SessionDescriptor) (priors : List PriorMode)
      → (S.discover w).0 ≡ some (first ∷ rest)
      → (preflight S (first ∷ rest) (S.discover w).1).0 ≡ Preflight.verified priors
      → order_herdr S command mode now d w
        ≡ set_herdr_order S command d.state.snapshot.agent_order.mode mode now
            (first ∷ rest)
            priors
            d
            (preflight S (first ∷ rest) (S.discover w).1).1
  unfolding order_herdr
  order_herdr_verified command mode now d w first rest priors f v = ground arith

  module _ (command : PortalCommand) (authoritative mode : AgentOrderMode) (now : ℕ)
      (ds : List SessionDescriptor) (priors : List PriorMode) (d : Daemon) (w : S.World) where
    abbrev outcome : ActionResult × Daemon × S.World
    outcome = set_herdr_order S command authoritative mode now ds priors d w

    pub set_herdr_order-Stores :
        outcome.0.succeeded ≡ true → All (Holds w) priors → All (Stores mode outcome.2) priors
    unfolding set_herdr_order roll_back commit_order action_error
    set_herdr_order-Stores e h =
        let finished : (set_all S mode priors [] w).0 ≡ SetOutcome.all_set = ground arith in
        let same : outcome.2 ≡ (set_all S mode priors [] w).1 = ground arith in
        subst (λ v. All (Stores mode v) priors) (sym same)
          (Loops.set_all-Stores S stored H mode priors [] w finished
            (All-imp (λ p k. inl k) priors h))

    drifted : Bool
    drifted = any (λ (p : PriorMode). not (p.1 == authoritative)) priors

    set_herdr_order_drifted : drifted ≡ true → outcome.2 ≡ w
    unfolding set_herdr_order drifted
    set_herdr_order_drifted e = ground arith

    set_herdr_order_failed :
        (attempted : List PriorMode)
        → drifted ≡ false
        → (set_all S mode priors [] w).0 ≡ SetOutcome.failed attempted
        → outcome ≡ roll_back S command now priors attempted d (set_all S mode priors [] w).1
    unfolding set_herdr_order drifted
    set_herdr_order_failed attempted e f = ground arith

    set_herdr_order_done :
        drifted ≡ false
        → (set_all S mode priors [] w).0 ≡ SetOutcome.all_set
        → outcome.0.succeeded ≡ true
    unfolding set_herdr_order drifted commit_order action_ok
    set_herdr_order_done e f = ground arith

    roll_back-Holds :
        (attempted : List PriorMode) (v : S.World)
        → (roll_back S command now priors attempted d v).1.state.snapshot.agent_order.available
          ≡ true
        → All (Holds (roll_back S command now priors attempted d v).2) priors
    unfolding roll_back
    roll_back-Holds attempted v a =
        let u = (compensate S attempted v).1 in
        let checked : (verify S priors u).0 ≡ true = ground arith in
        Loops.Holds-moved S stored H (verify S priors u).1 u priors
          (λ p. sym (Loops.verify_keeps S stored H priors u p))
          (Loops.verify-Holds S stored H priors u checked)

    pub set_herdr_order-restores :
        outcome.0.succeeded ≡ false
        → outcome.1.state.snapshot.agent_order.available ≡ true
        → All (Holds w) priors
        → All (Holds outcome.2) priors
    set_herdr_order-restores e a h = elim (Bool-cases drifted) [
      | inl moved ↦ subst (λ v. All (Holds v) priors) (sym (set_herdr_order_drifted moved)) h
      | inr still ↦ elim (SetOutcome-cases (set_all S mode priors [] w).0) [
        | inl done ↦ absurd (true_not_false (sym (set_herdr_order_done still done) ∙ e))
        | inr (attempted, f) ↦
            let same = set_herdr_order_failed attempted still f in
            subst (λ r. All (Holds r.2) priors) (sym same)
              (roll_back-Holds attempted _
                (ap (λ r. r.1.state.snapshot.agent_order.available) (sym same) ∙ a))
      ]
    ]
