-- ===== src/Herdr/Observe/Cards.antt =====
-- What an observation of a Herdr session holds: numbered cards of that session, each with the
-- target that its actions go to.
use mathlib.Core.Option.{none-ne-some, some-injective}
use mathlib.Core.List.{append-nil, append_assoc}
use xeneon_edge_agents.Base.{
  ℕ, suc, ◌≡◌, ◌⊎◌, inl, inr, refl, sym, ap, subst, ◌∙◌, String, true, false, Option, none, some,
  List, [], ◌∷◌, ◌++◌, map, All, Bool-cases, ==_eq, nat_eq,
}
use xeneon_edge_agents.Base.Map.{Map, insert}
use xeneon_edge_agents.Base.Routes.{Routes, insert-Routes, insert-Routes_self}
use xeneon_edge_agents.Model.{AgentOrderMode, AgentView, SessionState}
use xeneon_edge_agents.Model.Numbering.{IsNumbered}
use xeneon_edge_agents.Herdr.Types.{HerdrTarget, SessionDescriptor, SessionObservation}
use xeneon_edge_agents.Herdr.Wire.{HerdrAgent, HerdrSnapshot, HerdrWorkspace, Pong}
use xeneon_edge_agents.Herdr.Client.{HerdrHost, get_agent_order}
use xeneon_edge_agents.Herdr.Observe.{
  Gathered, gather, gathered_of, card_of, target_of, opaque_agent_id, incompatible, connected,
  observed, is_supported, observe_session, ask_for, workspace_map, tab_map,
  supported_herdr_protocol,
}

module _ {World : Type 0} (H : HerdrHost World) (d : SessionDescriptor) (epoch : String) where
  -- The id of the card that a target stands for.
  abbrev pub id_of : HerdrTarget → String
  id_of t = opaque_agent_id H d epoch t.terminal_id

  -- A card of this session whose target is a terminal of this session that has the card's id.
  abbrev pub IsRouted : Map HerdrTarget → AgentView → Type 0
  IsRouted m a = (a.session ≡ d.name) × Routes id_of m a.id

  module _ (workspaces : Map HerdrWorkspace) (tabs : Map String) where
    cards : ℕ → List HerdrAgent → List AgentView
    cards n [] = []
    cards n (raw ∷ others) = card_of H d epoch raw workspaces tabs n ∷ cards (suc n) others

    targets_onto : List HerdrAgent → Map HerdrTarget → Map HerdrTarget
    targets_onto [] m = m
    targets_onto (raw ∷ others) m =
        targets_onto others
          (insert (opaque_agent_id H d epoch raw.terminal_id) (target_of H d epoch raw) m)

    gather-reference :
        (n : ℕ) (raws : List HerdrAgent) (g : Gathered)
        → ((gather H d epoch workspaces tabs n raws g).agents ≡ g.agents ++ cards n raws)
          × ((gather H d epoch workspaces tabs n raws g).targets ≡ targets_onto raws g.targets)
          × ((gather H d epoch workspaces tabs n raws g).pane_ids
              ≡ g.pane_ids ++ map (λ raw. raw.pane_id) raws)
    unfolding gather cards targets_onto
    gather-reference n [] g = (sym (append-nil g.agents), refl, sym (append-nil g.pane_ids))
    gather-reference n (raw ∷ others) g =
        let card = card_of H d epoch raw workspaces tabs n in
        let ih = gather-reference (suc n) others (record {
          agents = g.agents ++ (card ∷ []);
          targets =
              insert (opaque_agent_id H d epoch raw.terminal_id) (target_of H d epoch raw)
                g.targets;
          pane_ids = g.pane_ids ++ (raw.pane_id ∷ []);
        }) in
        (
          ih.0 ∙ append_assoc g.agents (card ∷ []) (cards (suc n) others),
          ih.1,
          ih.2 ∙ append_assoc g.pane_ids (raw.pane_id ∷ []) (map (λ r. r.pane_id) others),
        )

    cards-IsNumbered : (n : ℕ) (raws : List HerdrAgent) → IsNumbered n (cards n raws)
    unfolding cards card_of
    cards-IsNumbered n [] = tt
    cards-IsNumbered n (raw ∷ others) = (refl, cards-IsNumbered (suc n) others)

    targets_onto-Routes :
        (raws : List HerdrAgent) (m : Map HerdrTarget) (id : String)
        → Routes id_of m id
        → Routes id_of (targets_onto raws m) id
    unfolding targets_onto target_of
    targets_onto-Routes [] m id h = h
    targets_onto-Routes (raw ∷ others) m id h =
        let t = target_of H d epoch raw in
        targets_onto-Routes others (insert (id_of t) t m) id (insert-Routes id_of t m id h)

    cards-IsRouted :
        (n : ℕ) (raws : List HerdrAgent) (m : Map HerdrTarget)
        → All (IsRouted (targets_onto raws m)) (cards n raws)
    unfolding cards targets_onto card_of target_of
    cards-IsRouted n [] m = tt
    cards-IsRouted n (raw ∷ others) m =
        let t = target_of H d epoch raw in
        let m' = insert (id_of t) t m in
        (
          (refl, targets_onto-Routes others m' (id_of t) (insert-Routes_self id_of t m)),
          cards-IsRouted (suc n) others m',
        )

  -- What an observation promises: it is of a session of the supported protocol, with numbered and
  -- routed cards; or of another protocol, with none.
  abbrev pub IsSound : ℕ → SessionObservation → Type 0
  IsSound offset o =
      ((o.session.state ≡ SessionState.connected)
        × (o.session.protocol ≡ some supported_herdr_protocol)
        × IsNumbered offset o.agents
        × All (IsRouted o.targets) o.agents)
      ⊎ ((o.session.state ≡ SessionState.incompatible) × (o.agents ≡ []) × (o.targets ≡ []))

  gathered-IsSound :
      (s : HerdrSnapshot) (offset : ℕ)
      → IsNumbered offset (gathered_of H d epoch s offset).agents
        × All
            (IsRouted (gathered_of H d epoch s offset).targets)
            (gathered_of H d epoch s offset).agents
  unfolding gathered_of
  gathered-IsSound s offset =
      let workspaces = workspace_map s.workspaces [] in
      let tabs = tab_map s.tabs [] in
      let all =
        gather-reference workspaces tabs offset s.agents
          (record { agents = []; targets = []; pane_ids = [] }) in
      rw (all.0, all.1)
        (
          cards-IsNumbered workspaces tabs offset s.agents,
          cards-IsRouted workspaces tabs offset s.agents [],
        )

  incompatible-IsSound :
      (offset now : ℕ) (pong : Pong) → IsSound offset (incompatible H d epoch pong now)
  unfolding incompatible
  incompatible-IsSound offset now pong = inr (refl, refl, refl)

  connected-IsSound :
      (offset now : ℕ) (pong : Pong) (s : HerdrSnapshot) (order : Option AgentOrderMode)
      → is_supported pong ≡ true
      → IsSound offset (connected H d epoch pong (gathered_of H d epoch s offset) order now)
  unfolding connected
  connected-IsSound offset now pong s order e =
      let sound = gathered-IsSound s offset in
      inl (refl, ap some (==_eq pong.protocol supported_herdr_protocol e), sound.0, sound.1)

  observed-incompatible :
      (offset now : ℕ) (pong : Pong) (response : Option HerdrSnapshot)
      (order : Option AgentOrderMode)
      → is_supported pong ≡ false
      → observed H d epoch offset now (some pong) response order
        ≡ some (incompatible H d epoch pong now)
  unfolding observed
  observed-incompatible offset now pong none order e = rw e refl
  observed-incompatible offset now pong (some s) order e = rw e refl

  observed-connected :
      (offset now : ℕ) (pong : Pong) (s : HerdrSnapshot) (order : Option AgentOrderMode)
      → is_supported pong ≡ true
      → observed H d epoch offset now (some pong) (some s) order
        ≡ some (connected H d epoch pong (gathered_of H d epoch s offset) order now)
  unfolding observed
  observed-connected offset now pong s order e = rw e refl

  observed-none :
      (offset now : ℕ) (pong : Pong) (order : Option AgentOrderMode)
      → is_supported pong ≡ true
      → observed H d epoch offset now (some pong) none order ≡ none
  unfolding observed
  observed-none offset now pong order e = rw e refl

  observed-IsSound :
      (offset now : ℕ) (ping : Option Pong) (response : Option HerdrSnapshot)
      (order : Option AgentOrderMode) (o : SessionObservation)
      → observed H d epoch offset now ping response order ≡ some o
      → IsSound offset o
  unfolding observed
  observed-IsSound offset now none response order o h = absurd (none-ne-some o h)
  observed-IsSound offset now (some pong) response order o h =
      elim (Bool-cases (is_supported pong)) [
        | inl e ↦ supported response e h
        | inr e ↦
            subst (IsSound offset)
              (some-injective (incompatible H d epoch pong now) o
                (sym (observed-incompatible offset now pong response order e) ∙ h))
              (incompatible-IsSound offset now pong)
      ]
    where
      supported :
          (response : Option HerdrSnapshot)
          → is_supported pong ≡ true
          → observed H d epoch offset now (some pong) response order ≡ some o
          → IsSound offset o
      supported none e k = absurd (none-ne-some o (sym (observed-none offset now pong order e) ∙ k))
      supported (some s) e k =
          subst (IsSound offset)
            (some-injective (connected H d epoch pong (gathered_of H d epoch s offset) order now) o
              (sym (observed-connected offset now pong s order e) ∙ k))
            (connected-IsSound offset now pong s order e)

  -- An observation of a Herdr session that succeeds is of the supported protocol, and then its
  -- cards are of this session, numbered from the offset, and each has a target whose terminal has
  -- the card's id; or it is marked incompatible and has no cards and no targets.
  pub observe_session-IsSound :
      (offset now : ℕ) (w : World) (o : SessionObservation)
      → (observe_session H d epoch offset now w).0 ≡ some o
      → IsSound offset o
  unfolding observe_session
  observe_session-IsSound offset now w o h =
      let (ping, w₁) = ask_for H d epoch "ping" H.parse_pong w in
      let (response, w₂) = ask_for H d epoch "session.snapshot" H.parse_snapshot w₁ in
      observed-IsSound offset now ping response (get_agent_order H d w₂).0 o h
