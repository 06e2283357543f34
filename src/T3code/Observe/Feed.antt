-- ===== src/T3code/Observe/Feed.antt =====
-- What `read_status_feed` of crates/xeneon-agent-core/src/t3code.rs demands of a status feed.
use xeneon_edge_agents.Base.{
  ℕ, ◌≡◌, ◌≤◌, ◌<◌, refl, subst, String, false, Option, none, some, length, Bool, true, ==_eq,
  and_then-some, if◌then◌else◌, not, leb, ◌+◌, arith, and_then, nat_eq, string_eq,
}
use xeneon_edge_agents.Base.Text.{trim}
use xeneon_edge_agents.T3code.External.{External, Machine}
use xeneon_edge_agents.T3code.Rows.{StatusSnapshot}
use xeneon_edge_agents.T3code.Roster.{max_roster}
use xeneon_edge_agents.T3code.Source.{
  T3codeClient, join, max_feed_len, read_status_feed, abs_diff, feed_is_valid,
}

module _ (M : Machine) (client : T3codeClient) where
  -- A feed in the supported schema, of at most 64 threads and less than ten seconds off, that
  -- names the environment of the user's data.
  abbrev pub IsFresh : ℕ → StatusSnapshot → Type 0
  IsFresh now feed =
      (feed.schema_version ≡ 1)
      × (length feed.threads ≤ max_roster)
      × (abs_diff now feed.generated_at_ms < 10000)
      × ((environment : String) × (M.read_to_string (join client.userdata "environment-id")
            ≡ some environment)
          × (feed.environment_id ≡ trim environment))

passes :
    (valid : Bool) (feed other : StatusSnapshot)
    → (if valid then some feed else none) ≡ some other
    → (valid ≡ true) × (feed ≡ other)
passes true feed other h = (refl, cc)
passes false feed other h = cc

within :
    (long : Bool) (o : Option StatusSnapshot) (feed : StatusSnapshot)
    → (if long then none else o) ≡ some feed
    → o ≡ some feed
within true o feed h = cc
within false o feed h = h

module _ (X : External) (M : Machine) (client : T3codeClient) where
  feed_is_valid-IsFresh :
      (now : ℕ) (feed : StatusSnapshot) (environment : String)
      → M.read_to_string (join client.userdata "environment-id") ≡ some environment
      → feed_is_valid X M feed environment now ≡ true
      → IsFresh M client now feed
  unfolding feed_is_valid
  feed_is_valid-IsFresh now feed environment found valid = (
    ground (arith, valid),
    ground (arith, valid),
    ground (arith, valid),
    (environment, found, ==_eq feed.environment_id (trim environment) (ground (arith, valid))),
  )

  pub read_status_feed-IsFresh :
      (now : ℕ) (feed : StatusSnapshot)
      → read_status_feed X M client now ≡ some feed
      → IsFresh M client now feed
  unfolding read_status_feed
  read_status_feed-IsFresh now feed h =
      let file = join client.userdata "environment-id" in
      let tested : StatusSnapshot → String → Option StatusSnapshot = λ parsed environment.
        if feed_is_valid X M parsed environment now then some parsed else none in
      let placed : StatusSnapshot → Option StatusSnapshot =
        λ parsed. and_then (M.read_to_string file) (tested parsed) in
      let parsing : String → Option StatusSnapshot =
        λ contents. and_then (X.parse_feed contents) placed in
      let reading : String → Option StatusSnapshot =
        λ path. and_then (M.read_prefix (max_feed_len + 1) path) parsing in
      let (path, named, h₁) = and_then-some client.status_file _ feed h in
      let (len, measured, h₂) = and_then-some (M.file_len path) _ feed h₁ in
      let (contents, readable, h₃) =
        and_then-some (M.read_prefix (max_feed_len + 1) path) parsing feed
          (within (not (leb len max_feed_len)) (reading path) feed h₂) in
      let (parsed, parses, h₄) = and_then-some (X.parse_feed contents) placed feed h₃ in
      let (environment, found, h₅) =
        and_then-some (M.read_to_string file) (tested parsed) feed h₄ in
      let (valid, same) = passes (feed_is_valid X M parsed environment now) parsed feed h₅ in
      subst (IsFresh M client now) same (feed_is_valid-IsFresh now parsed environment found valid)
