-- ===== src/T3code/Observe.antt =====
-- `T3codeClient::observe` of crates/xeneon-agent-core/src/t3code.rs: failures are states of the
-- session, with no cards.
pub mod Feed
pub mod Evidence
use xeneon_edge_agents.Base.{
  ℕ, String, Bool, true, false, Option, none, some, List, [], ◌<>◌, and_then, is_some,
  if◌then◌else◌,
}
use xeneon_edge_agents.Base.Text.{decimal}
use xeneon_edge_agents.Model.{SessionState}
use xeneon_edge_agents.T3code.Types.{T3codeObservation, session_name}
use xeneon_edge_agents.T3code.External.{External, Machine, Database}
use xeneon_edge_agents.T3code.Rows.{rows}
use xeneon_edge_agents.T3code.Roster.{observation_from_rows}
use xeneon_edge_agents.T3code.Source.{
  T3codeClient, Liveness, liveness, read_status_feed, read_projection_sequence, read_threads,
  database_path, supported_runtime_version,
}

-- An observation without cards.
unfoldable pub failed_observation :
    SessionState → Option ℕ → ℕ → String → Option ℕ → T3codeObservation
failed_observation state protocol now message sequence = record {
  session = record {
    name = session_name;
    state = state;
    version = none;
    protocol = protocol;
    last_sync_ms = some now;
    message = some message;
  };
  agents = [];
  targets = [];
  projection_sequence = sequence;
}

unfoldable pub unsupported_message : ℕ → String
unfolding decimal
unsupported_message version =
    "T3 Code runtime descriptor "
    <> decimal version
    <> " is unsupported; expected "
    <> decimal supported_runtime_version

module _ (X : External) (M : Machine) (client : T3codeClient) where
  -- `open`: the file of the database, for reading.
  unfoldable pub open_state : Option Database
  unfolding database_path
  open_state = M.open_database (database_path X M client)

  unfoldable pub observe_feed : String → ℕ → T3codeObservation
  unfolding rows read_status_feed observation_from_rows failed_observation
  observe_feed epoch now = elim (read_status_feed X M client now) [
    | some feed ↦ observation_from_rows X epoch (rows feed) now (some 1) (some feed.generated_at_ms)
    | none ↦
        failed_observation SessionState.stale (some 1) now "T3 metadata feed is unavailable" none
  ]

  unfoldable pub observe_state : String → ℕ → Option ℕ → T3codeObservation
  unfolding open_state read_projection_sequence read_threads observation_from_rows
      failed_observation
  observe_state epoch now protocol = elim open_state [
    | none ↦ failed_observation SessionState.stale protocol now "T3 Code state is unavailable" none
    | some db ↦
        let sequence = and_then (read_projection_sequence db) (λ found. found) in
        elim (read_threads db) [
          | none ↦
              failed_observation SessionState.incompatible protocol now
                "T3 Code state schema is unsupported" sequence
          | some threads ↦ observation_from_rows X epoch threads now protocol sequence
        ]
  ]

  unfoldable pub observe : String → ℕ → T3codeObservation
  unfolding observe_feed observe_state liveness failed_observation unsupported_message
  observe epoch now =
      if is_some client.status_file then observe_feed epoch now else elim (liveness X M client) [
        | Liveness.running version ↦ observe_state epoch now (some version)
        | Liveness.missing ↦
            failed_observation SessionState.offline none now "T3 Code server is not running" none
        | Liveness.stopped ↦
            failed_observation SessionState.offline (some supported_runtime_version) now
              "T3 Code server process has exited" none
        | Liveness.unsupported version ↦
            failed_observation SessionState.incompatible (some version) now
              (unsupported_message version) none
      ]

  -- The signal of a change between two observations.
  unfoldable pub projection_sequence : ℕ → Option (Option ℕ)
  unfolding read_status_feed open_state read_projection_sequence
  projection_sequence now =
      if is_some client.status_file
      then some (and_then (read_status_feed X M client now) (λ feed. some feed.generated_at_ms))
      else and_then open_state read_projection_sequence
