-- ===== src/T3code/Observe/Evidence.antt =====
-- When an observation of T3 Code claims to be connected, and what it holds when it does not.
use xeneon_edge_agents.Base.{
  ℕ, ◌≡◌, ◌≤◌, ◌≢◌, ap, ◌⊎◌, inl, inr, refl, sym, subst, ◌∙◌, String, false, Option, none, some,
  List, [], length, arith, and_then, Option-cases, Bool-cases, is_some, nat_eq, string_eq,
}
use xeneon_edge_agents.Model.{SessionState}
use xeneon_edge_agents.T3code.Types.{T3codeObservation, session_name}
use xeneon_edge_agents.T3code.External.{External, Machine, Database}
use xeneon_edge_agents.T3code.Rows.{ThreadRow, StatusSnapshot, rows}
use xeneon_edge_agents.T3code.Roster.{max_roster, observation_from_rows}
use xeneon_edge_agents.T3code.Roster.Routing.{observation-bounded}
use xeneon_edge_agents.T3code.Source.{
  T3codeClient, Liveness, liveness, read_status_feed, read_projection_sequence, read_threads,
  supported_runtime_version,
}
use xeneon_edge_agents.T3code.Observe.Feed.{IsFresh, read_status_feed-IsFresh}
use xeneon_edge_agents.T3code.Observe.{
  unsupported_message, failed_observation, open_state, observe_feed, observe_state, observe,
}

module _ (X : External) (M : Machine) (client : T3codeClient) where
  -- What stands behind a connected session: such a feed, or a server that runs in the supported
  -- version and the rows of its database.
  abbrev pub IsEvidence : ℕ → Type 0
  IsEvidence now =
      ((feed : StatusSnapshot) × (read_status_feed X M client now ≡ some feed)
        × IsFresh M client now feed)
      ⊎ ((db : Database) × (threads : List ThreadRow) × (liveness X M client
            ≡ Liveness.running supported_runtime_version)
          × (open_state X M client ≡ some db)
          × (read_threads db ≡ some threads))

  -- An observation that names its session and time and is bounded; it is connected with evidence, or
  -- it has another state and no cards.
  pub record IsSound (now : ℕ) (o : T3codeObservation) : Type 0 where
    pub named : o.session.name ≡ session_name
    pub dated : o.session.last_sync_ms ≡ some now
    pub bounded : length o.agents ≤ max_roster
    pub grounded :
        ((o.session.state ≡ SessionState.connected) × IsEvidence now)
        ⊎ ((o.session.state ≢ SessionState.connected) × (o.agents ≡ []) × (o.targets ≡ []))

  -- An observation with evidence, made from rows; or one that failed.
  abbrev IsOutcome : String → ℕ → T3codeObservation → Type 0
  IsOutcome epoch now o =
      (IsEvidence now
        × (threads : List ThreadRow) × (protocol : Option ℕ) × (sequence : Option ℕ)
        × (observation_from_rows X epoch threads now protocol sequence ≡ o))
      ⊎ ((kind : SessionState) × (protocol : Option ℕ) × (message : String) × (sequence : Option ℕ)
          × (kind ≢ SessionState.connected)
          × (failed_observation kind protocol now message sequence ≡ o))

  liveness-running :
      (version : ℕ)
      → liveness X M client ≡ Liveness.running version
      → version ≡ supported_runtime_version
  unfolding liveness
  liveness-running version h = ground arith

  feed-IsOutcome :
      (epoch : String) (now : ℕ) → IsOutcome epoch now (observe_feed X M client epoch now)
  unfolding observe_feed
  feed-IsOutcome epoch now = elim (Option-cases (read_status_feed X M client now)) [
    | inl e ↦ inr (
      SessionState.stale,
      some 1,
      "T3 metadata feed is unavailable",
      none,
      (λ p. cc),
      rw (e, observe_feed) refl,
    )
    | inr (feed, e) ↦ inl (
      inl (feed, e, read_status_feed-IsFresh X M client now feed e),
      rows feed,
      some 1,
      some feed.generated_at_ms,
      rw (e, observe_feed) refl,
    )
  ]

  state-IsOutcome :
      (epoch : String) (now : ℕ)
      → liveness X M client ≡ Liveness.running supported_runtime_version
      → (protocol : Option ℕ) → IsOutcome epoch now (observe_state X M client epoch now protocol)
  unfolding observe_state
  state-IsOutcome epoch now live protocol = elim (Option-cases (open_state X M client)) [
    | inl e ↦ inr (
      SessionState.stale,
      protocol,
      "T3 Code state is unavailable",
      none,
      (λ p. cc),
      rw (e, observe_state) refl,
    )
    | inr (db, e) ↦ elim (Option-cases (read_threads db)) [
      | inl f ↦ inr (
        SessionState.incompatible,
        protocol,
        "T3 Code state schema is unsupported",
        and_then (read_projection_sequence db) (λ found. found),
        (λ p. cc),
        rw (e, f, observe_state) refl,
      )
      | inr (threads, f) ↦ inl (
        inr (db, threads, live, e, f),
        threads,
        protocol,
        and_then (read_projection_sequence db) (λ found. found),
        rw (e, f, observe_state) refl,
      )
    ]
  ]

  observe-running :
      (epoch : String) (now version : ℕ)
      → liveness X M client ≡ Liveness.running version
      → is_some client.status_file ≡ false
      → observe X M client epoch now ≡ observe_state X M client epoch now (some version)
  unfolding observe
  observe-running epoch now version e f = rw (f, e) refl

  live-IsOutcome :
      (epoch : String) (now : ℕ) (l : Liveness)
      → liveness X M client ≡ l
      → is_some client.status_file ≡ false
      → IsOutcome epoch now (observe X M client epoch now)
  unfolding observe
  live-IsOutcome epoch now Liveness.missing e f =
      rw (f, e)
        (inr (SessionState.offline, none, "T3 Code server is not running", none, (λ p. cc), refl))
  live-IsOutcome epoch now Liveness.stopped e f =
      rw (f, e)
        (inr (
          SessionState.offline,
          some supported_runtime_version,
          "T3 Code server process has exited",
          none,
          (λ p. cc),
          refl,
        ))
  live-IsOutcome epoch now (Liveness.unsupported version) e f =
      rw (f, e)
        (inr (
          SessionState.incompatible,
          some version,
          unsupported_message version,
          none,
          (λ p. cc),
          refl,
        ))
  live-IsOutcome epoch now (Liveness.running version) e f =
      subst (IsOutcome epoch now) (sym (observe-running epoch now version e f)) (
        state-IsOutcome epoch now (e ∙ ap Liveness.running (liveness-running version e))
          (some version))

  observe-IsOutcome :
      (epoch : String) (now : ℕ) → IsOutcome epoch now (observe X M client epoch now)
  unfolding observe
  observe-IsOutcome epoch now = elim (Bool-cases (is_some client.status_file)) [
    | inl e ↦ rw e (feed-IsOutcome epoch now)
    | inr e ↦ live-IsOutcome epoch now (liveness X M client) refl e
  ]

  from_rows-IsSound :
      (epoch : String) (threads : List ThreadRow) (now : ℕ) (protocol sequence : Option ℕ)
      → IsEvidence now
      → IsSound now (observation_from_rows X epoch threads now protocol sequence)
  unfolding observation_from_rows
  from_rows-IsSound epoch threads now protocol sequence proof = record {
    named = refl;
    dated = refl;
    bounded = (observation-bounded X epoch threads now protocol sequence).0;
    grounded = inl (refl, proof);
  }

  -- Every observation of T3 Code names its session and its time and has at most 64 cards. Either
  -- it is connected, and then there is a feed in the supported schema that has at most 64 threads,
  -- names the environment of the user's data and is less than ten seconds off, or a server that
  -- runs in the supported version with a database that could be read; or it has another state and
  -- no cards and no targets.
  pub observe-IsSound : (epoch : String) (now : ℕ) → IsSound now (observe X M client epoch now)
  unfolding failed_observation
  observe-IsSound epoch now = elim (observe-IsOutcome epoch now) [
    | inl (proof, threads, protocol, sequence, e) ↦
        subst (IsSound now) e (from_rows-IsSound epoch threads now protocol sequence proof)
    | inr (kind, protocol, message, sequence, differs, e) ↦ subst (IsSound now) e (record {
      named = refl;
      dated = refl;
      bounded = omega arith;
      grounded = inr (differs, refl, refl);
    })
  ]
