-- ===== src/Runtime/Order/Atomic.antt =====
-- The ordering command of crates/xeneon-agent-core/src/runtime.rs against Herdr's promises: what
-- the sessions store after it.
use xeneon_edge_agents.Base.{
  ℕ, ◌≡◌, sym, ap, subst, ◌∙◌, ◌⊎◌, inl, inr, String, true, false, none, some, List, [], ◌∷◌,
  string_eq, nat_eq, map, All, arith, Option-cases,
}
use xeneon_edge_agents.Model.{
  ActionResult, AgentBackend, AgentOrderMode, PortalCommand, agent_order_mode_eq, agent_backend_eq,
}
use xeneon_edge_agents.Herdr.{SessionDescriptor}
use xeneon_edge_agents.Runtime.State.{action_error}
use xeneon_edge_agents.Runtime.Services.{Services, IsHerdr}
use xeneon_edge_agents.Runtime.Daemon.{Daemon}
use xeneon_edge_agents.Runtime.Order.{
  PriorMode, Preflight, preflight, order_herdr, requested_mode, process_agent_order_command,
}
use xeneon_edge_agents.Runtime.Order.Loops.{SetOutcome-cases, Preflight-cases, true_not_false}
use xeneon_edge_agents.Runtime.Order.Loops
use xeneon_edge_agents.Runtime.Order.Rollback

module _ (S : Services) (stored : S.World → String → AgentOrderMode) (H : IsHerdr S stored) where
  abbrev Holds : S.World → PriorMode → Type 0
  Holds = Loops.Holds S stored H

  abbrev Stores : AgentOrderMode → S.World → PriorMode → Type 0
  Stores = Loops.Stores S stored H

  priors-Stores :
      (mode : AgentOrderMode) (w : S.World) (priors : List PriorMode)
      → All (Stores mode w) priors
      → All
          (λ (e : SessionDescriptor). stored w e.socket_path ≡ mode)
          (map (λ (p : PriorMode). p.0) priors)
  priors-Stores mode w [] h = tt
  priors-Stores mode w (p ∷ ps) h = (h.0, priors-Stores mode w ps h.1)

  priors-same :
      (w w' : S.World) (priors : List PriorMode)
      → All (Holds w) priors
      → All (Holds w') priors
      → All
          (λ (e : SessionDescriptor). stored w' e.socket_path ≡ stored w e.socket_path)
          (map (λ (p : PriorMode). p.0) priors)
  priors-same w w' [] h k = tt
  priors-same w w' (p ∷ ps) h k = (k.0 ∙ sym h.0, priors-same w w' ps h.1 k.1)

  -- The Herdr half of the command, as its two theorems need it.
  module _ (command : PortalCommand) (mode : AgentOrderMode) (now : ℕ) (d : Daemon)
      (w : S.World) where
    abbrev ended : ActionResult × Daemon × S.World
    ended = order_herdr S command mode now d w

    abbrev AllStore : S.World → List SessionDescriptor → Type 0
    AllStore v ds = All (λ (e : SessionDescriptor). stored v e.socket_path ≡ mode) ds

    abbrev AllSame : S.World → List SessionDescriptor → Type 0
    AllSame v ds =
        All (λ (e : SessionDescriptor). stored v e.socket_path ≡ stored w e.socket_path) ds

    undiscovered : (S.discover w).0 ≡ none → ended.0.succeeded ≡ false
    unfolding order_herdr action_error
    undiscovered f = ground arith

    nothing_running : (S.discover w).0 ≡ some [] → ended.0.succeeded ≡ false
    unfolding order_herdr action_error
    nothing_running f = ground arith

    not_verified :
        (first e : SessionDescriptor) (rest : List SessionDescriptor)
        → (S.discover w).0 ≡ some (first ∷ rest)
        → (preflight S (first ∷ rest) (S.discover w).1).0 ≡ Preflight.unverified e
        → (ended.0.succeeded ≡ false) × (ended.2 ≡ (preflight S (first ∷ rest) (S.discover w).1).1)
    unfolding order_herdr action_error
    not_verified first e rest f v = ground arith

    order_herdr-AllStore_found :
        (ds : List SessionDescriptor)
        → (S.discover w).0 ≡ some ds
        → ended.0.succeeded ≡ true
        → AllStore ended.2 ds
    order_herdr-AllStore_found [] f e = tt
    order_herdr-AllStore_found (first ∷ rest) f e =
        elim (Preflight-cases (preflight S (first ∷ rest) (S.discover w).1).0) [
          | inl (priors, v) ↦
              let same =
                Rollback.order_herdr_verified S stored H command mode now d w first rest priors f
                  v in
              let read =
                Loops.preflight_reads S stored H (first ∷ rest) (S.discover w).1 priors v in
              let u = (preflight S (first ∷ rest) (S.discover w).1).1 in
              let held =
                Loops.Holds-moved S stored H u (S.discover w).1 priors
                  (λ p. sym (Loops.preflight_keeps S stored H (first ∷ rest) (S.discover w).1 p))
                  read.0 in
              subst (AllStore ended.2) read.1 (
                priors-Stores mode ended.2 priors (
                  subst (λ r. All (Stores mode r.2) priors) (sym same)
                    (Rollback.set_herdr_order-Stores S stored H command _ mode now (first ∷ rest)
                      priors d u (ap (λ r. r.0.succeeded) (sym same) ∙ e) held)))
          | inr (x, v) ↦ absurd (true_not_false (sym e ∙ (not_verified first x rest f v).0))
        ]

    order_herdr-AllStore :
        ended.0.succeeded ≡ true
        → (ds : List SessionDescriptor) × ((S.discover w).0 ≡ some ds) × AllStore ended.2 ds
    order_herdr-AllStore e = elim (Option-cases (S.discover w).0) [
      | inl f ↦ absurd (true_not_false (sym e ∙ undiscovered f))
      | inr (ds, f) ↦ (ds, f, order_herdr-AllStore_found ds f e)
    ]

    kept_until_verified :
        (ds : List SessionDescriptor) (p : String)
        → stored (preflight S ds (S.discover w).1).1 p ≡ stored w p
    kept_until_verified ds p =
        Loops.preflight_keeps S stored H ds (S.discover w).1 p ∙ H.discover_keeps w p

    all_kept :
        (v : S.World) (ds : List SessionDescriptor)
        → ((p : String) → stored v p ≡ stored w p)
        → AllSame v ds
    all_kept v [] k = tt
    all_kept v (e ∷ rest) k = (k e.socket_path, all_kept v rest k)

    order_herdr-AllSame :
        (ds : List SessionDescriptor)
        → (S.discover w).0 ≡ some ds
        → ended.0.succeeded ≡ false
        → ended.1.state.snapshot.agent_order.available ≡ true
        → AllSame ended.2 ds
    order_herdr-AllSame [] f e a = tt
    order_herdr-AllSame (first ∷ rest) f e a =
        elim (Preflight-cases (preflight S (first ∷ rest) (S.discover w).1).0) [
          | inl (priors, v) ↦
              let same =
                Rollback.order_herdr_verified S stored H command mode now d w first rest priors f
                  v in
              let read =
                Loops.preflight_reads S stored H (first ∷ rest) (S.discover w).1 priors v in
              let u = (preflight S (first ∷ rest) (S.discover w).1).1 in
              let held =
                Loops.Holds-moved S stored H u (S.discover w).1 priors
                  (λ p. sym (Loops.preflight_keeps S stored H (first ∷ rest) (S.discover w).1 p))
                  read.0 in
              let held_before =
                Loops.Holds-moved S stored H w (S.discover w).1 priors (H.discover_keeps w)
                  read.0 in
              subst (AllSame ended.2) read.1 (
                priors-same w ended.2 priors held_before (
                  subst (λ r. All (Holds r.2) priors) (sym same)
                    (Rollback.set_herdr_order-restores S stored H command _ mode now (first ∷ rest)
                      priors d u (ap (λ r. r.0.succeeded) (sym same) ∙ e)
                      (ap (λ r. r.1.state.snapshot.agent_order.available) (sym same) ∙ a) held)))
          | inr (x, v) ↦ all_kept ended.2 (first ∷ rest) (λ p.
              ap (λ q. stored q p) (not_verified first x rest f v).1
              ∙ kept_until_verified (first ∷ rest) p)
        ]

  module _ (command : PortalCommand) (now : ℕ) (d : Daemon) (w : S.World) where
    abbrev after : ActionResult × Daemon × S.World
    after = process_agent_order_command S command now d w

    abbrev wanted : AgentOrderMode
    wanted = requested_mode command.action

    ran :
        d.state.backend ≡ AgentBackend.herdr
        → (after ≡ order_herdr S command wanted now d w)
          ⊎ ((after.0.succeeded ≡ false) × (after.2 ≡ w))
    unfolding process_agent_order_command action_error
    ran b = ground arith

    -- In Herdr mode, an ordering command that reports success has left every session that it
    -- discovered storing the mode that was asked for.
    pub order-synchronizes :
        d.state.backend ≡ AgentBackend.herdr
        → after.0.succeeded ≡ true
        → (ds : List SessionDescriptor) × ((S.discover w).0 ≡ some ds)
          × All (λ (e : SessionDescriptor). stored after.2 e.socket_path ≡ wanted) ds
    order-synchronizes b e = elim (ran b) [
      | inl same ↦
          let done =
            order_herdr-AllStore command wanted now d w (ap (λ r. r.0.succeeded) (sym same) ∙ e) in
          (
            done.0,
            done.1,
            subst (λ r. AllStore command wanted now d w r.2 done.0) (sym same) done.2,
          )
      | inr refused ↦ absurd (true_not_false (sym e ∙ refused.0))
    ]

    -- In Herdr mode, where an ordering command reports an error and the daemon still shows an
    -- ordering afterwards, every session that it discovered stores the mode that it stored before.
    pub order-restores :
        (ds : List SessionDescriptor)
        → d.state.backend ≡ AgentBackend.herdr
        → (S.discover w).0 ≡ some ds
        → after.0.succeeded ≡ false
        → after.1.state.snapshot.agent_order.available ≡ true
        → All (λ (e : SessionDescriptor). stored after.2 e.socket_path ≡ stored w e.socket_path) ds
    order-restores ds b f e a = elim (ran b) [
      | inl same ↦
          subst (λ r. AllSame command wanted now d w r.2 ds) (sym same)
            (order_herdr-AllSame command wanted now d w ds f
              (ap (λ r. r.0.succeeded) (sym same) ∙ e)
              (ap (λ r. r.1.state.snapshot.agent_order.available) (sym same) ∙ a))
      | inr refused ↦
          all_kept command wanted now d w after.2 ds (λ p. ap (λ v. stored v p) refused.1)
    ]
