-- ===== src/Runtime/Refresh/Commit/Reports.antt =====
-- What the loop over the Herdr sessions (crates/xeneon-agent-core/src/runtime.rs, `refresh_herdr`)
-- collects: where every session was accepted and reported an ordering, the sessions that are shown
-- are those that were observed.
use mathlib.Core.List.{append-nil, append_assoc}
use xeneon_edge_agents.Base.{
  ◌≡◌, ◌∙◌, sym, ◌≢◌, inl, inr, true, List, [], ◌∷◌, ◌==◌, nat_eq, All, arith, length,
  length-append, ap, Bool-cases, Option-cases, Result-cases, some, String, ℕ, suc, ◌+◌, ◌≤◌, ◌++◌,
  subst, refl, false,
}
use xeneon_edge_agents.Base.Map.{Map}
use xeneon_edge_agents.Runtime.Services.{Services}
use xeneon_edge_agents.Model.{
  AgentOrderMode, AgentView, SessionState, SessionView, agent_order_mode_eq, session_state_eq,
}
use xeneon_edge_agents.Herdr.{SessionDescriptor, SessionObservation}
use xeneon_edge_agents.Runtime.Refresh.{
  Subscription, Collected, accept, accept_stale, accept_unavailable, update_subscription, reconcile,
  follow, collect_session, collect_sessions,
}

module _ (S : Services) (epoch : String) (now : ℕ) (previous : List AgentView) where
  -- The session was observed under an ordering, by a compatible Herdr, and is shown so.
  pub record Reported (mode : AgentOrderMode) (d : SessionDescriptor) (shown : SessionView)
      : Type 0 where
    pub observation : SessionObservation
    pub offset : ℕ
    pub world : S.World
    pub observed : (S.observe_session d epoch offset now world).0 ≡ some observation
    pub compatible : observation.session.state ≢ SessionState.incompatible
    pub is_shown : observation.session ≡ shown
    pub ordering : observation.agent_order ≡ some mode

  -- Each session is shown as it was observed, under its ordering in the list.
  pub data Reports : List AgentOrderMode → List SessionDescriptor → List SessionView → Type 0 where
    no_session : Reports [] [] []
    session :
        {m : AgentOrderMode} {d : SessionDescriptor} {s : SessionView} {ms : List AgentOrderMode}
        {ds : List SessionDescriptor} {ss : List SessionView}
        → Reported m d s
        → Reports ms ds ss
        → Reports (m ∷ ms) (d ∷ ds) (s ∷ ss)

  -- The sessions that were discovered are those that are shown, and all report one ordering.
  pub data Agreed (m : AgentOrderMode) : List SessionDescriptor → List SessionView → Type 0 where
    nobody : Agreed m [] []
    one_more :
        {d : SessionDescriptor} {s : SessionView} {ds : List SessionDescriptor}
        {ss : List SessionView}
        → Reported m d s
        → Agreed m ds ss
        → Agreed m (d ∷ ds) (s ∷ ss)

  pub Reports-Agreed :
      {m : AgentOrderMode} {ms : List AgentOrderMode} {ds : List SessionDescriptor}
      {ss : List SessionView}
      → Reports ms ds ss
      → All (λ x. x ≡ m) ms
      → Agreed m ds ss
  Reports-Agreed Reports.no_session h = Agreed.nobody
  Reports-Agreed (Reports.session {d = d} {s = s} r rest) h =
      Agreed.one_more (subst (λ x. Reported x d s) h.0 r) (Reports-Agreed rest h.1)

  -- What one session adds to the loop's variables.
  data Grows (d : SessionDescriptor) (c : Collected) : Collected → Type 0 where
    unconnected :
        {e : Collected} → e.connected ≡ c.connected → e.order_modes ≡ c.order_modes → Grows d c e
    unordered :
        {e : Collected}
        → e.connected ≡ suc c.connected
        → e.order_modes ≡ c.order_modes
        → Grows d c e
    reported :
        {e : Collected} {m : AgentOrderMode} {s : SessionView}
        → e.connected ≡ suc c.connected
        → e.order_modes ≡ c.order_modes ++ (m ∷ [])
        → e.sessions ≡ c.sessions ++ (s ∷ [])
        → Reported m d s
        → Grows d c e

  accept-Grows :
      (d : SessionDescriptor) (o : SessionObservation) (c : Collected) (offset : ℕ) (v : S.World)
      → (S.observe_session d epoch offset now v).0 ≡ some o
      → (o.session.state == SessionState.incompatible) ≡ false
      → Grows d c (accept o c)
  unfolding accept
  accept-Grows d o c offset v seen fits = elim (Option-cases o.agent_order) [
    | inl absent ↦ Grows.unordered (omega arith) (rw absent refl)
    | inr (m, present) ↦ Grows.reported (omega arith) (rw present refl) refl (record {
      observation = o;
      offset = offset;
      world = v;
      observed = seen;
      compatible = λ e. ground (arith, e, fits);
      is_shown = refl;
      ordering = present;
    })
  ]

  abbrev pub Subscriptions : Type 0
  Subscriptions = Map (Subscription S)

  reconcile-Grows :
      (d : SessionDescriptor) (o : SessionObservation) (subscriptions : Subscriptions)
      (c : Collected) (w : S.World)
      → Grows d c (reconcile S epoch now previous d o subscriptions c w).1
  unfolding reconcile accept_stale
  reconcile-Grows d o subscriptions c w =
      elim (Option-cases (S.observe_session d epoch c.source_offset now w).0) [
        | inl failed ↦ rw (failed, reconcile) (Grows.unconnected refl refl)
        | inr (again, e) ↦ elim (Bool-cases (again.session.state == SessionState.incompatible)) [
          | inl differs ↦ rw (e, differs, reconcile) (Grows.unconnected refl refl)
          | inr fits ↦ rw (e, fits, reconcile) (accept-Grows d again c c.source_offset w e fits)
        ]
      ]

  follow-Grows :
      (d : SessionDescriptor) (o : SessionObservation) (subscriptions : Subscriptions)
      (c : Collected) (w v : S.World)
      → (S.observe_session d epoch c.source_offset now v).0 ≡ some o
      → (o.session.state == SessionState.incompatible) ≡ false
      → Grows d c (follow S epoch now previous d o subscriptions c w).1
  unfolding follow accept_stale
  follow-Grows d o subscriptions c w v seen fits =
      elim (Result-cases (update_subscription S subscriptions d o.pane_ids w).0) [
        | inl (true, e) ↦ rw (e, follow) (reconcile-Grows d o _ c _)
        | inl (false, e) ↦ rw (e, follow) (accept-Grows d o c c.source_offset v seen fits)
        | inr (message, e) ↦ rw (e, follow) (Grows.unconnected refl refl)
      ]

  collect_session-Grows :
      (d : SessionDescriptor) (subscriptions : Subscriptions) (c : Collected) (w : S.World)
      → Grows d c (collect_session S epoch now previous d subscriptions c w).1
  unfolding collect_session accept_unavailable
  collect_session-Grows d subscriptions c w =
      elim (Option-cases (S.observe_session d epoch c.source_offset now w).0) [
        | inl failed ↦ rw (failed, collect_session) (Grows.unconnected refl refl)
        | inr (o, e) ↦ elim (Bool-cases (o.session.state == SessionState.incompatible)) [
          | inl differs ↦ rw (e, differs, collect_session) (Grows.unconnected refl refl)
          | inr fits ↦ rw (e, fits, collect_session) (follow-Grows d o subscriptions c _ w e fits)
        ]
      ]

  -- What the loop over the sessions adds to its variables.
  pub record Ran (ds : List SessionDescriptor) (c e : Collected) : Type 0 where
    pub at_most : e.connected ≤ c.connected + length ds
    pub orderings : length e.order_modes + c.connected ≤ length c.order_modes + e.connected
    pub complete :
        e.connected ≡ c.connected + length ds
        → length e.order_modes ≡ length c.order_modes + length ds
        → (ms : List AgentOrderMode) × (ss : List SessionView) × (e.order_modes
            ≡ c.order_modes ++ ms)
          × (e.sessions ≡ c.sessions ++ ss)
          × Reports ms ds ss

  Grows-Ran :
      {d : SessionDescriptor} {ds : List SessionDescriptor} {c f e : Collected}
      → Grows d c f
      → Ran ds f e
      → Ran (d ∷ ds) c e
  Grows-Ran {ds = ds} {c = c} {f = f} {e = e} (Grows.unconnected n o) r = record {
    at_most = ground (arith, r.at_most, n);
    orderings = ground (arith, r.orderings, n, ap length o);
    complete = λ all every. absurd (ground (arith, r.at_most, n, all));
  }
  Grows-Ran {ds = ds} {c = c} {f = f} {e = e} (Grows.unordered n o) r = record {
    at_most = ground (arith, r.at_most, n);
    orderings = ground (arith, r.orderings, n, ap length o);
    complete = λ all every. absurd (ground (arith, r.orderings, n, ap length o, all, every));
  }
  Grows-Ran {ds = ds} {c = c} {f = f} {e = e} (Grows.reported {m = m} {s = s} n o shown p) r =
      let longer : length f.order_modes ≡ length c.order_modes + 1 =
        ap length o ∙ length-append c.order_modes (m ∷ []) in
      record {
        at_most = ground (arith, r.at_most, n);
        orderings = ground (arith, r.orderings, n, longer);
        complete = λ all every.
            let (ms, ss, modes, sessions, reports) =
              r.complete (ground (arith, all, n)) (ground (arith, every, longer)) in
            (
              m ∷ ms,
              s ∷ ss,
              modes ∙ ap (λ l. l ++ ms) o ∙ append_assoc c.order_modes (m ∷ []) ms,
              sessions ∙ ap (λ l. l ++ ss) shown ∙ append_assoc c.sessions (s ∷ []) ss,
              Reports.session p reports,
            );
      }

  pub collect_all-Ran :
      (ds : List SessionDescriptor) (subscriptions : Subscriptions) (c : Collected) (w : S.World)
      → Ran ds c (collect_sessions S epoch now previous ds subscriptions c w).1
  unfolding collect_sessions
  collect_all-Ran [] subscriptions c w = record {
    at_most = omega arith;
    orderings = omega arith;
    complete = λ all every.
        ([], [], sym (append-nil c.order_modes), sym (append-nil c.sessions), Reports.no_session);
  }
  collect_all-Ran (d ∷ rest) subscriptions c w =
      Grows-Ran (collect_session-Grows d subscriptions c w) (collect_all-Ran rest _ _ _)
