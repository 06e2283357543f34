-- ===== src/Tests/Adapters.antt =====
-- The T3 Code adapter on a status feed with two threads.
use xeneon_edge_agents.Base.{
  ◌≡◌, refl, String, Bool, true, false, none, some, [], ◌∷◌, string_eq, nat_eq, ok,
}
use xeneon_edge_agents.Base.Integers.{pos}
use xeneon_edge_agents.Model.{AgentStatus}
use xeneon_edge_agents.T3code.External.{External, Machine}
use xeneon_edge_agents.T3code.Rows.{StatusSnapshot, StatusThread, feed_row, rows}
use xeneon_edge_agents.T3code.Classify.{Classification, classify, classified}
use xeneon_edge_agents.T3code.Classify.Attention.{explains, classify-explains}
use xeneon_edge_agents.T3code.Roster.{observation_from_rows}
use xeneon_edge_agents.T3code.Roster.Reference.{
  take, shown, cards, targets_onto, observation-reference,
}
use xeneon_edge_agents.T3code.Roster.Routing.{OpensOnly, IsRouted, observation-IsRouted}
use xeneon_edge_agents.T3code.Source.{T3codeClient}
use xeneon_edge_agents.T3code.Observe.{observe}
use xeneon_edge_agents.T3code.Observe.Evidence.{IsSound, observe-IsSound}
use xeneon_edge_agents.T3code.Url.{thread_url_of, is_target}
use xeneon_edge_agents.T3code.Url.Loopback.{IsLocal, IsSegmentOf, thread_url-IsLocal}
use xeneon_edge_agents.Base.{◌<>◌, All}

abbrev thread : String → Bool → StatusThread
thread id asks = record {
  thread_id = id;
  title = " Fix the build ";
  project_title = "portal";
  workspace_root = "/work/portal";
  branch = some "main";
  worktree_path = none;
  provider = "codex";
  status = "completed";
  settled = false;
  snoozed = asks;
  pending_input = asks;
  background_work = false;
  updated_at = "at";
  latest_run_completed_at = some "at";
  last_visited_at = none;
}

abbrev feed : StatusSnapshot
feed = record {
  schema_version = 1;
  environment_id = "env";
  generated_at_ms = 5;
  threads = thread "a" false ∷ thread "b" true ∷ [];
}

-- Every time is the fifth millisecond, and a Uuid is its name.
abbrev external : External
external = record {
  parse_rfc3339 = λ _. some (pos 5000000);
  uuid_v5 = λ name. name;
  parse_runtime = λ _. none;
  parse_origin = λ _. none;
  parse_feed = λ _. some feed;
}

abbrev machine : Machine
machine = record {
  read_to_string = λ _. some "env";
  file_len = λ _. some 100;
  read_prefix = λ _ _. some "feed";
  exists = λ _. false;
  is_dir = λ _. false;
  open_database = λ _. none;
}

abbrev client : T3codeClient
client = record { userdata = "/t3"; expected_comm = none; status_file = some "/feed" }

abbrev done : Classification
done = classified AgentStatus.done false 5 false

classified_done : classify external (feed_row (thread "a" false)) 9 ≡ some done
unfolding classify feed_row string_eq
classified_done = refl

classify-explains_example : explains external (feed_row (thread "a" false)) done ≡ true
classify-explains_example =
    classify-explains external (feed_row (thread "a" false)) 9 done classified_done

observation-reference_example :
    ((observation_from_rows external "e" (rows feed) 9 none none).agents
      ≡ cards external "e" 0 (take 64 (shown external 9 (rows feed))))
    × ((observation_from_rows external "e" (rows feed) 9 none none).targets
        ≡ targets_onto external "e" (take 64 (shown external 9 (rows feed))) [])
observation-reference_example = observation-reference external "e" (rows feed) 9 none none

observation-IsRouted_example :
    All OpensOnly (observation_from_rows external "e" (rows feed) 9 none none).agents
    × All
        (IsRouted external "e" (observation_from_rows external "e" (rows feed) 9 none none).targets)
        (observation_from_rows external "e" (rows feed) 9 none none).agents
observation-IsRouted_example = observation-IsRouted external "e" (rows feed) 9 none none

observe-IsSound_example : IsSound external machine client 9 (observe external machine client "e" 9)
observe-IsSound_example = observe-IsSound external machine client "e" 9

url_made : thread_url_of "http://localhost:8080" "env" "a b" ≡ ok "http://localhost:8080/env/a%20b"
unfolding thread_url_of nat_eq string_eq
url_made = refl

thread_url-IsLocal_example :
    IsLocal "http://localhost:8080"
    × (is_target "env" "a b" ≡ true)
    × (e : String) × (t : String) × (Path String "http://localhost:8080/env/a%20b"
        ("http://localhost:8080" <> "/" <> e <> "/" <> t))
    × IsSegmentOf "env" e
    × IsSegmentOf "a b" t
thread_url-IsLocal_example =
    thread_url-IsLocal "http://localhost:8080" "env" "a b" "http://localhost:8080/env/a%20b"
      url_made
