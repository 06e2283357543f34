-- ===== src/T3code/Source.antt =====
-- The two sources of crates/xeneon-agent-core/src/t3code.rs: `read_status_feed` and the reading of
-- the database, whose queries are operations of `Database`.
use xeneon_edge_agents.Base.{
  ℕ, ◌-◌, ◌+◌, ◌<>◌, String, Bool, false, Option, none, some, List, [], ◌∷◌, map, length, not, leb,
  ltb, ◌==◌, nat_eq, string_eq, ◌&&◌, ◌||◌, if◌then◌else◌, and_then, is_none,
}
use xeneon_edge_agents.Base.Integers.{ℤ, pos, negsuc, is_positive}
use xeneon_edge_agents.Base.Text.{trim, is_empty, decimal}
use xeneon_edge_agents.Base.Chars.{ends_with_char}
use xeneon_edge_agents.T3code.External.{Database, External, Machine}
use xeneon_edge_agents.T3code.Rows.{ThreadRow, StatusSnapshot, row_v1, row_v2, turn_v1}
use xeneon_edge_agents.T3code.Roster.{max_roster}

pub record T3codeClient : Type 0 where
  pub userdata : String
  pub expected_comm : Option String
  pub status_file : Option String

-- `u64::abs_diff`
abbrev pub abs_diff : ℕ → ℕ → ℕ
abs_diff a b = (a - b) + (b - a)

-- `Path::join` with a relative second path.
unfoldable pub join : String → String → String
join base name =
    if is_empty base || ends_with_char 47 base then base <> name else base <> "/" <> name

abbrev pub supported_runtime_version : ℕ
supported_runtime_version = 1

abbrev pub max_feed_len : ℕ
max_feed_len = 4194304

-- A `u64` of an `i64`.
unfoldable pub to_u64 : ℤ → Option ℕ
to_u64 (pos n) = some n
to_u64 (negsuc n) = none

unfoldable pub read_projection_sequence : Database → Option (Option ℕ)
unfolding to_u64
read_projection_sequence db = and_then db.has_v2_table (λ v2.
    if v2
    then and_then db.last_sequence_v2 (λ found. elim found [
      | none ↦ some none
      | some value ↦ elim (to_u64 value) [ none ↦ none | some n ↦ some (some n) ]
    ])
    else and_then db.last_sequence_v1 (λ found. some (and_then found to_u64)))

unfoldable pub read_v2_threads : Database → Option (List ThreadRow)
unfolding read_projection_sequence row_v2
read_v2_threads db = and_then (read_projection_sequence db) (λ sequence.
    if is_none sequence
    then none
    else and_then db.threads_v2 (λ columns. some (map row_v2 columns)))

-- The second loop of `read_threads`: the latest turn of each thread.
unfoldable pub read_turns : Database → List ThreadRow → Option (List ThreadRow)
unfolding turn_v1
read_turns db [] = some []
read_turns db (row ∷ rows) =
    let rest = read_turns db rows in
    and_then (db.latest_turn row.thread_id) (λ found. and_then rest (λ others. some (
      record row { last_turn = elim found [ none ↦ none | some columns ↦ some (turn_v1 columns) ] }
      ∷ others)))

unfoldable pub read_threads : Database → Option (List ThreadRow)
unfolding read_v2_threads read_turns row_v1
read_threads db = and_then db.has_v2_table (λ v2.
    if v2
    then read_v2_threads db
    else and_then db.threads_v1 (λ columns. read_turns db (map row_v1 columns)))

pub data Liveness : Type 0 where
  missing : Liveness
  unsupported : ℕ → Liveness
  stopped : Liveness
  running : ℕ → Liveness

module _ (X : External) (M : Machine) where
  unfoldable pub feed_is_valid : StatusSnapshot → String → ℕ → Bool
  unfolding trim
  feed_is_valid feed environment now =
      feed.schema_version == 1
      && leb (length feed.threads) max_roster
      && feed.environment_id == trim environment
      && ltb (abs_diff now feed.generated_at_ms) 10000

  unfoldable pub read_status_feed : T3codeClient → ℕ → Option StatusSnapshot
  unfolding feed_is_valid join
  read_status_feed client now = and_then client.status_file (λ path.
      and_then (M.file_len path) (λ len.
        if not (leb len max_feed_len)
        then none
        else and_then (M.read_prefix (max_feed_len + 1) path) (λ contents.
          and_then (X.parse_feed contents) (λ feed.
            and_then (M.read_to_string (join client.userdata "environment-id"))
              (λ environment. if feed_is_valid feed environment now then some feed else none)))))

  unfoldable pub database_path : T3codeClient → String
  unfolding join
  database_path client =
      let current = join client.userdata "statev2.sqlite" in
      if M.exists current then current else join client.userdata "state.sqlite"

  unfoldable pub runtime_path : T3codeClient → String
  unfolding join
  runtime_path client = join client.userdata "server-runtime.json"

  unfoldable pub process_alive : ℤ → Option String → Bool
  unfolding trim join decimal
  process_alive (pos pid) expected =
      let process = join "/proc" (decimal pid) in
      if not (is_positive (pos pid)) then false else elim expected [
        | none ↦ M.is_dir process
        | some name ↦ elim (M.read_to_string (join process "comm")) [
          | none ↦ false
          | some comm ↦ trim comm == name
        ]
      ]
  process_alive (negsuc n) expected = false

  unfoldable pub liveness : T3codeClient → Liveness
  unfolding runtime_path process_alive
  liveness client = elim (and_then (M.read_to_string (runtime_path client)) X.parse_runtime) [
    | none ↦ Liveness.missing
    | some runtime ↦
        if not (runtime.version == supported_runtime_version)
        then Liveness.unsupported runtime.version
        else if process_alive runtime.pid client.expected_comm
        then Liveness.running runtime.version
        else Liveness.stopped
  ]
