-- ===== src/T3code/External.antt =====
-- What crates/xeneon-agent-core/src/t3code.rs takes from elsewhere: the RFC 3339 parser, version 5
-- Uuids, the parsers of JSON, the files of T3 Code and the answers of its database.
use xeneon_edge_agents.Base.{ℕ, String, Bool, Option, List}
use xeneon_edge_agents.Base.Integers.{ℤ}
use xeneon_edge_agents.T3code.Rows.{StatusSnapshot, ColumnsV1, ColumnsV2, TurnColumns}

pub record ServerRuntime : Type 0 where
  pub version : ℕ  -- u32
  pub pid : ℤ

-- A query that fails answers `none`; one that finds no row, where it may, `some none`.
pub record Database : Type 0 where
  pub has_v2_table : Option Bool
  pub last_sequence_v2 : Option (Option ℤ)
  pub last_sequence_v1 : Option (Option ℤ)
  pub threads_v2 : Option (List ColumnsV2)
  pub threads_v1 : Option (List ColumnsV1)
  pub latest_turn : String → Option (Option TurnColumns)

pub record External : Type 0 where
  -- `OffsetDateTime::parse` with the format RFC 3339, as nanoseconds since 1970.
  pub parse_rfc3339 : String → Option ℤ
  -- `Uuid::new_v5` in the namespace of object identifiers, printed.
  pub uuid_v5 : String → String
  pub parse_runtime : String → Option ServerRuntime
  -- The member `origin` of a JSON object, when it is a text.
  pub parse_origin : String → Option String
  pub parse_feed : String → Option StatusSnapshot

-- The machine as one observation sees it.
pub record Machine : Type 0 where
  pub read_to_string : String → Option String
  pub file_len : String → Option ℕ
  -- At most that many bytes of a file.
  pub read_prefix : ℕ → String → Option String
  pub exists : String → Bool
  pub is_dir : String → Bool
  pub open_database : String → Option Database
