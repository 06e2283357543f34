-- ===== src/Runtime/Refresh/Sessions.antt =====
-- The loop over the Herdr sessions in `refresh_herdr` of crates/xeneon-agent-core/src/runtime.rs.
use xeneon_edge_agents.Base.{
  ℕ, ◌+◌, suc, String, true, false, none, some, List, [], ◌∷◌, ◌++◌, ◌==◌, string_eq, if◌then◌else◌,
  ok, err, map, filter, length,
}
use xeneon_edge_agents.Base.Map.{Map, extend}
use xeneon_edge_agents.Model.{
  AgentOrderMode, AgentView, SessionState, SessionView, no_actions, session_state_eq,
}
use xeneon_edge_agents.Herdr.{SessionDescriptor, HerdrTarget, SessionObservation}
use xeneon_edge_agents.Runtime.State.{AgentTarget}
use xeneon_edge_agents.Runtime.Services.{Services}
use xeneon_edge_agents.Runtime.Refresh.Subscriptions.{
  Subscription, drop_subscription, update_subscription,
}

-- The loop's variables.
pub record Collected : Type 0 where
  pub sessions : List SessionView
  pub agents : List AgentView
  pub targets : Map AgentTarget
  pub connected : ℕ
  pub order_modes : List AgentOrderMode
  pub source_offset : ℕ

abbrev pub nothing_collected : Collected
nothing_collected = record {
  sessions = [];
  agents = [];
  targets = [];
  connected = 0;
  order_modes = [];
  source_offset = 0;
}

abbrev pub without_actions : List AgentView → List AgentView
without_actions = map {A = AgentView} (λ agent. record agent { actions = no_actions })

abbrev pub push_session : SessionView → Collected → Collected
push_session session c = record c { sessions = c.sessions ++ (session ∷ []) }

abbrev pub herdr_targets : Map HerdrTarget → Map AgentTarget
herdr_targets [] = []
herdr_targets ((id, target) ∷ rest) = (id, AgentTarget.herdr target) ∷ herdr_targets rest

-- A session that was observed and is subscribed to.
unfoldable pub accept : SessionObservation → Collected → Collected
accept o c = record {
  sessions = c.sessions ++ (o.session ∷ []);
  agents = c.agents ++ o.agents;
  targets = extend (herdr_targets o.targets) c.targets;
  connected = c.connected + 1;
  order_modes = elim o.agent_order [
    | none ↦ c.order_modes
    | some mode ↦ c.order_modes ++ (mode ∷ [])
  ];
  source_offset = c.source_offset + length o.agents;
}

-- A session that was observed and cannot be followed: its cards are shown without actions.
unfoldable pub accept_stale :
    String → SessionObservation → SessionDescriptor → Collected → Collected
accept_stale message o d c =
    let session : SessionView = record {
      name = d.name;
      state = SessionState.stale;
      version = o.session.version;
      protocol = o.session.protocol;
      last_sync_ms = o.session.last_sync_ms;
      message = some message;
    } in
    record c {
      sessions = c.sessions ++ (session ∷ []);
      agents = c.agents ++ without_actions o.agents;
      source_offset = c.source_offset + length o.agents;
    }

-- The cards that a session had, without actions and numbered from `offset`.
unfoldable pub renumber : ℕ → List AgentView → List AgentView
renumber offset [] = []
renumber offset (agent ∷ rest) =
    record agent { actions = no_actions; source_order = offset } ∷ renumber (suc offset) rest

-- A session that could not be observed: the cards that it had last are shown without actions.
unfoldable pub accept_unavailable : List AgentView → SessionDescriptor → Collected → Collected
unfolding renumber
accept_unavailable previous d c =
    let session : SessionView = record {
      name = d.name;
      state = SessionState.stale;
      version = none;
      protocol = none;
      last_sync_ms = none;
      message = some "Herdr session snapshot is unavailable";
    } in
    let stale =
      renumber c.source_offset (filter (λ (a : AgentView). a.session == d.name) previous) in
    record c {
      sessions = c.sessions ++ (session ∷ []);
      agents = c.agents ++ stale;
      source_offset = c.source_offset + length stale;
    }

module _ (S : Services) (epoch : String) (now : ℕ) (previous : List AgentView) where
  abbrev Subscriptions : Type 0
  Subscriptions = Map (Subscription S)

  -- After a new subscription the session is observed once more.
  unfoldable pub reconcile :
      SessionDescriptor
      → SessionObservation
      → Subscriptions
      → Collected
      → S.World
      → Subscriptions × Collected × S.World
  unfolding drop_subscription accept accept_stale
  reconcile d observation subscriptions c w =
      let (again, w') = S.observe_session d epoch c.source_offset now w in
      let (kept, w'') = drop_subscription S d.name subscriptions w' in
      elim again [
        | none ↦ (
          kept,
          accept_stale "Herdr post-subscription reconciliation failed" observation d c,
          w'',
        )
        | some reconciled ↦
            if reconciled.session.state == SessionState.incompatible
            then (kept, push_session reconciled.session c, w'')
            else (subscriptions, accept reconciled c, w')
      ]

  unfoldable pub follow :
      SessionDescriptor
      → SessionObservation
      → Subscriptions
      → Collected
      → S.World
      → Subscriptions × Collected × S.World
  unfolding update_subscription reconcile
  follow d observation subscriptions c w =
      let (updated, subscriptions', w') =
        update_subscription S subscriptions d observation.pane_ids w in
      elim updated [
        | err message ↦ (
          subscriptions',
          accept_stale "Herdr event subscription is unavailable" observation d c,
          w',
        )
        | ok true ↦ reconcile d observation subscriptions' c w'
        | ok false ↦ (subscriptions', accept observation c, w')
      ]

  unfoldable pub collect_session :
      SessionDescriptor → Subscriptions → Collected → S.World → Subscriptions × Collected × S.World
  unfolding follow accept_unavailable
  collect_session d subscriptions c w =
      let (observed, w') = S.observe_session d epoch c.source_offset now w in
      let (kept, w'') = drop_subscription S d.name subscriptions w' in
      elim observed [
        | none ↦ (kept, accept_unavailable previous d c, w'')
        | some observation ↦
            if observation.session.state == SessionState.incompatible
            then (kept, push_session observation.session c, w'')
            else follow d observation subscriptions c w'
      ]

  unfoldable pub collect_sessions :
      List SessionDescriptor
      → Subscriptions
      → Collected
      → S.World
      → Subscriptions × Collected × S.World
  unfolding collect_session
  collect_sessions [] subscriptions c w = (subscriptions, c, w)
  collect_sessions (d ∷ rest) subscriptions c w =
      let (subscriptions', c', w') = collect_session d subscriptions c w in
      collect_sessions rest subscriptions' c' w'
