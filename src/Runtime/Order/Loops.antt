-- ===== src/Runtime/Order/Loops.antt =====
-- The loops of `process_agent_order_command` (crates/xeneon-agent-core/src/runtime.rs) against
-- Herdr's promises: what the sessions store after each.
use xeneon_edge_agents.Base.{
  ◌≡◌, ◌≢◌, refl, sym, ap, subst, ◌∙◌, ◌⊎◌, inl, inr, String, true, false, List, [], ◌∷◌, string_eq,
  nat_eq, map, All, All-imp, arith,
}
use xeneon_edge_agents.Model.{AgentOrderMode, agent_order_mode_eq, agent_backend_eq}
use xeneon_edge_agents.Herdr.{SessionDescriptor}
use xeneon_edge_agents.Runtime.Services.{Services, IsHerdr}
use xeneon_edge_agents.Runtime.Order.{PriorMode, Preflight, SetOutcome, preflight, set_all, verify}

pub SetOutcome-cases :
    (o : SetOutcome)
    → (o ≡ SetOutcome.all_set) ⊎ ((attempted : List PriorMode) × (o ≡ SetOutcome.failed attempted))
SetOutcome-cases SetOutcome.all_set = inl refl
SetOutcome-cases (SetOutcome.failed attempted) = inr (attempted, refl)

pub Preflight-cases :
    (o : Preflight)
    → ((priors : List PriorMode) × (o ≡ Preflight.verified priors))
      ⊎ ((d : SessionDescriptor) × (o ≡ Preflight.unverified d))
Preflight-cases (Preflight.verified priors) = inl (priors, refl)
Preflight-cases (Preflight.unverified d) = inr (d, refl)

pub true_not_false : true ≡ false → ⊥
true_not_false e = ground arith

module _ (S : Services) (stored : S.World → String → AgentOrderMode) (H : IsHerdr S stored) where
  -- What the loops say of a session and its mode.
  abbrev pub Holds : S.World → PriorMode → Type 0
  Holds w p = stored w p.0.socket_path ≡ p.1

  abbrev pub HoldsOr : AgentOrderMode → S.World → PriorMode → Type 0
  HoldsOr mode w p = (stored w p.0.socket_path ≡ p.1) ⊎ (stored w p.0.socket_path ≡ mode)

  abbrev pub Stores : AgentOrderMode → S.World → PriorMode → Type 0
  Stores mode w p = stored w p.0.socket_path ≡ mode

  pub preflight_keeps :
      (ds : List SessionDescriptor) (w : S.World) (p : String)
      → stored (preflight S ds w).1 p ≡ stored w p
  unfolding preflight
  preflight_keeps [] w p = refl
  preflight_keeps (d ∷ rest) w p =
      ground (arith, preflight_keeps rest (S.get_agent_order d w).1 p, H.get_keeps d w p)

  pub Holds-moved :
      (w w' : S.World) (ps : List PriorMode)
      → ((p : String) → stored w' p ≡ stored w p)
      → All (Holds w') ps
      → All (Holds w) ps
  Holds-moved w w' ps same = All-imp (λ p h. sym (same p.0.socket_path) ∙ h) ps

  pub preflight_reads :
      (ds : List SessionDescriptor) (w : S.World) (priors : List PriorMode)
      → (preflight S ds w).0 ≡ Preflight.verified priors
      → All (Holds w) priors × (map (λ (p : PriorMode). p.0) priors ≡ ds)
  unfolding preflight
  preflight_reads [] w [] e = (tt, refl)
  preflight_reads [] w (p ∷ ps) e = cc
  preflight_reads (d ∷ rest) w [] e = ground arith
  preflight_reads (d ∷ rest) w ((c, m) ∷ ps) e =
      let w' = (S.get_agent_order d w).1 in
      let ih = preflight_reads rest w' ps (ground arith) in
      let here : d ≡ c = ground arith in
      let read : stored w d.socket_path ≡ m = H.get_reads d w m (ground arith) in
      ((ground arith, Holds-moved w w' ps (H.get_keeps d w) ih.0), ground (arith, ih.1))

  -- A write to one session as the other sessions see it.
  set_to :
      (d : SessionDescriptor) (mode : AgentOrderMode) (w : S.World) (p : String)
      → (S.set_agent_order d mode w).0 ≡ true
      → (stored (S.set_agent_order d mode w).1 p ≡ mode)
        ⊎ (stored (S.set_agent_order d mode w).1 p ≡ stored w p)
  set_to d mode w p e = elim (string_eq.dec d.socket_path p) [
    | yes same ↦
        inl (ap (stored (S.set_agent_order d mode w).1) (sym same) ∙ H.set_stores d mode w e)
    | no differ ↦ inr (H.set_other d mode w p differ)
  ]

  set_all_keeps :
      (mode : AgentOrderMode) (priors attempted : List PriorMode) (w : S.World) (p : String)
      → (set_all S mode priors attempted w).0 ≡ SetOutcome.all_set
      → stored w p ≡ mode
      → stored (set_all S mode priors attempted w).1 p ≡ mode
  unfolding set_all
  set_all_keeps mode [] attempted w p e h = h
  set_all_keeps mode ((d, prior) ∷ rest) attempted w p e h = ground (
    arith,
    set_all_keeps mode rest attempted w p,
    set_all_keeps mode rest ((d, prior) ∷ attempted) (S.set_agent_order d mode w).1 p,
    set_to d mode w p,
  )

  HoldsOr-after :
      (d : SessionDescriptor) (mode : AgentOrderMode) (w : S.World) (ps : List PriorMode)
      → (S.set_agent_order d mode w).0 ≡ true
      → All (HoldsOr mode w) ps
      → All (HoldsOr mode (S.set_agent_order d mode w).1) ps
  HoldsOr-after d mode w ps e = All-imp step ps
    where
      step : (p : PriorMode) → HoldsOr mode w p → HoldsOr mode (S.set_agent_order d mode w).1 p
      step p h = ground (arith, set_to d mode w p.0.socket_path)

  set_all_skip :
      (mode : AgentOrderMode) (d : SessionDescriptor) (prior : AgentOrderMode)
      (rest attempted : List PriorMode) (w : S.World)
      → prior ≡ mode
      → set_all S mode ((d, prior) ∷ rest) attempted w ≡ set_all S mode rest attempted w
  unfolding set_all
  set_all_skip mode d prior rest attempted w same = ground arith

  set_all_set :
      (mode : AgentOrderMode) (d : SessionDescriptor) (prior : AgentOrderMode)
      (rest attempted : List PriorMode) (w : S.World)
      → prior ≢ mode
      → (S.set_agent_order d mode w).0 ≡ true
      → set_all S mode ((d, prior) ∷ rest) attempted w
        ≡ set_all S mode rest ((d, prior) ∷ attempted) (S.set_agent_order d mode w).1
  unfolding set_all
  set_all_set mode d prior rest attempted w differ done = ground arith

  set_all_done :
      (mode : AgentOrderMode) (d : SessionDescriptor) (prior : AgentOrderMode)
      (rest attempted : List PriorMode) (w : S.World)
      → prior ≢ mode
      → (set_all S mode ((d, prior) ∷ rest) attempted w).0 ≡ SetOutcome.all_set
      → (S.set_agent_order d mode w).0 ≡ true
  unfolding set_all
  set_all_done mode d prior rest attempted w differ e = ground arith

  -- A second loop that ends without a failure leaves every session with the new mode.
  pub set_all-Stores :
      (mode : AgentOrderMode) (priors attempted : List PriorMode) (w : S.World)
      → (set_all S mode priors attempted w).0 ≡ SetOutcome.all_set
      → All (HoldsOr mode w) priors
      → All (Stores mode (set_all S mode priors attempted w).1) priors
  unfolding set_all
  set_all-Stores mode [] attempted w e h = tt
  set_all-Stores mode ((d, prior) ∷ rest) attempted w e h =
      elim (agent_order_mode_eq.dec prior mode) [
        | yes same ↦
            let step = set_all_skip mode d prior rest attempted w same in
            let e' = ap (λ r. r.0) (sym step) ∙ e in
            subst (λ r. All (Stores mode r.1) ((d, prior) ∷ rest)) (sym step)
              (
                set_all_keeps mode rest attempted w d.socket_path e' (ground (arith, h.0)),
                set_all-Stores mode rest attempted w e' h.1,
              )
        | no differ ↦
            let done = set_all_done mode d prior rest attempted w differ e in
            let step = set_all_set mode d prior rest attempted w differ done in
            let w' = (S.set_agent_order d mode w).1 in
            let e' = ap (λ r. r.0) (sym step) ∙ e in
            subst (λ r. All (Stores mode r.1) ((d, prior) ∷ rest)) (sym step)
              (
                set_all_keeps mode rest ((d, prior) ∷ attempted) w' d.socket_path e'
                    (H.set_stores d mode w done),
                set_all-Stores mode rest ((d, prior) ∷ attempted) w' e'
                    (HoldsOr-after d mode w rest done h.1),
              )
      ]

  pub verify_keeps :
      (ps : List PriorMode) (w : S.World) (p : String) → stored (verify S ps w).1 p ≡ stored w p
  unfolding verify
  verify_keeps [] w p = refl
  verify_keeps ((d, m) ∷ rest) w p =
      ground (arith, verify_keeps rest (S.get_agent_order d w).1 p, H.get_keeps d w p)

  -- A verification that succeeds finds every session with its mode before the change.
  pub verify-Holds :
      (ps : List PriorMode) (w : S.World) → (verify S ps w).0 ≡ true → All (Holds w) ps
  unfolding verify
  verify-Holds [] w e = tt
  verify-Holds ((d, m) ∷ rest) w e =
      let w' = (S.get_agent_order d w).1 in
      (
        ground (arith, H.get_reads d w m),
        Holds-moved w w' rest (H.get_keeps d w) (verify-Holds rest w' (ground arith)),
      )
