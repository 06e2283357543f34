-- ===== src/Desktop/Processes.antt =====
-- The table of processes of crates/xeneon-agent-core/src/desktop.rs: which window hosts a client of a
-- Herdr session.
use xeneon_edge_agents.Base.{
  ℕ, zero, suc, String, Bool, true, false, Option, none, some, List, [], ◌∷◌, not, ◌&&◌, ◌||◌, ◌==◌,
  string_eq, option_eq, if◌then◌else◌, any, is_some, or_else,
}
use xeneon_edge_agents.Base.Integers.{ℤ, pos, le_int, int_eq}
use xeneon_edge_agents.Base.Text.{is_empty}
use xeneon_edge_agents.Base.Chars.{strip_prefix}
use xeneon_edge_agents.Base.Paths.{file_name}

pub record ProcessInfo : Type 0 where
  pub parent : ℤ  -- i32
  pub command : List String
  pub environment : List String

-- The processes by their ids, which differ.
abbrev pub Table : Type 0
Table = List (ℤ × ProcessInfo)

unfoldable pub find_process : ℤ → Table → Option ProcessInfo
find_process pid [] = none
find_process pid ((other, process) ∷ others) =
    if other == pid then some process else find_process pid others

-- The loop of `is_descendant` with the rounds that are left, as the source bounds it.
unfoldable pub climb : ℕ → ℤ → List ℤ → ℤ → Table → Bool
unfolding find_process le_int
climb zero current visited ancestor table = false
climb (suc rounds) current visited ancestor table =
    if current == ancestor
    then true
    else if any (λ seen. seen == current) visited
    then false
    else elim (find_process current table) [
      | none ↦ false
      | some process ↦
          let higher = climb rounds process.parent (current ∷ visited) ancestor table in
          if le_int process.parent (pos 1) then false else higher
    ]

unfoldable pub is_descendant : ℤ → ℤ → Table → Bool
unfolding climb
is_descendant pid ancestor table = climb 32 pid [] ancestor table

pub data HerdrClientSession : Type 0 where
  default_session : HerdrClientSession
  named_session : String → HerdrClientSession

abbrev pub session_of : Option String → HerdrClientSession
session_of none = HerdrClientSession.default_session
session_of (some name) = HerdrClientSession.named_session name

-- The options of a command line after its program; any other argument hosts no session.
unfoldable pub read_options : List String → Option String → Option HerdrClientSession
unfolding strip_prefix
read_options [] named = some (session_of named)
read_options (argument ∷ []) named =
    if argument == "--handoff"
    then some (session_of named)
    else if argument == "--session"
    then none
    else elim (strip_prefix "--session=" argument) [
      | none ↦ none
      | some name ↦ if is_empty name || is_some named then none else some (session_of (some name))
    ]
read_options (argument ∷ next ∷ others) named =
    let handed = read_options (next ∷ others) named in
    let skipped = read_options others (some next) in
    if argument == "--handoff"
    then handed
    else if argument == "--session"
    then (if is_empty next || is_some named then none else skipped)
    else elim (strip_prefix "--session=" argument) [
      | none ↦ none
      | some name ↦
          let following = read_options (next ∷ others) (some name) in
          if is_empty name || is_some named then none else following
    ]

-- The arguments `session attach NAME`, and nothing more.
abbrev pub attached : List String → Option String
attached (session ∷ attach ∷ name ∷ []) =
    if session == "session" && attach == "attach" && not (is_empty name) then some name else none
attached _ = none

unfoldable pub interactive_herdr_session : List String → Option HerdrClientSession
unfolding file_name read_options
interactive_herdr_session [] = none
interactive_herdr_session (program ∷ arguments) =
    if not (file_name program == some "herdr") then none else elim (attached arguments) [
      | some name ↦ some (HerdrClientSession.named_session name)
      | none ↦ read_options arguments none
    ]

-- `find_map` of a prefix over the environment.
unfoldable pub environment_value : String → List String → Option String
unfolding strip_prefix
environment_value prefix [] = none
environment_value prefix (entry ∷ others) =
    or_else (strip_prefix prefix entry) (environment_value prefix others)

abbrev differs : Option String → String → Bool
differs none expected = false
differs (some value) expected = not (value == expected)

unfoldable pub command_matches_session : List String → List String → String → String → Bool
unfolding interactive_herdr_session environment_value
command_matches_session command environment session socket_path =
    let environment_session = environment_value "HERDR_SESSION=" environment in
    let environment_socket = environment_value "HERDR_SOCKET_PATH=" environment in
    elim (interactive_herdr_session command) [
      | none ↦ false
      | some found ↦ elim found [
        | HerdrClientSession.named_session value ↦
            not (differs environment_session value) && value == session
        | HerdrClientSession.default_session ↦
            if differs environment_session session || differs environment_socket socket_path
            then false
            else if is_some environment_session || is_some environment_socket
            then true
            else session == "default"
      ]
    ]

unfoldable pub client_hosts_session_in : ℤ → String → String → Table → Bool
unfolding is_descendant command_matches_session
client_hosts_session_in client_pid session socket_path table =
    any
      (λ (pid, process).
        is_descendant pid client_pid table
        && command_matches_session process.command process.environment session socket_path)
      table
