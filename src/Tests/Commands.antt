-- ===== src/Tests/Commands.antt =====
-- Commands to the daemon with two cards.
use xeneon_edge_agents.Protocol.{command_capability_matches}
use xeneon_edge_agents.Base.Map.{lookup}
use xeneon_edge_agents.Runtime.Command.{check_agent}
use xeneon_edge_agents.Base.{string_eq}
use xeneon_edge_agents.Runtime.Command.{route}
use xeneon_edge_agents.Base.Text.{is_whitespace}
use xeneon_edge_agents.Base.{nat_eq}
use mathlib.Core.Logic.{◌↔◌, ◌⊎◌}
use xeneon_edge_agents.Base.{◌≡◌, refl, string_eq, true, false, none, some, [], ok, err, arith}
use xeneon_edge_agents.Base.{◌∷◌, false}
use xeneon_edge_agents.Model.{
  ActionKind, AgentBackend, AgentView, PortalCommand, VoiceSnapshot, VoiceState, AgentOrderMode,
}
use xeneon_edge_agents.Model.{AgentStatus}
use xeneon_edge_agents.T3code.{T3codeTarget}
use xeneon_edge_agents.Protocol.{validate_command}
use xeneon_edge_agents.Protocol.Laws.{IsWellFormed, validate_command_iff}
use xeneon_edge_agents.Runtime.State.{AgentTarget}
use xeneon_edge_agents.Voice.{VoiceActionError}
use xeneon_edge_agents.Runtime.Daemon.{Daemon}
use xeneon_edge_agents.Runtime.Refresh.{refresh_agents}
use xeneon_edge_agents.Runtime.Backend.{process_backend_command}
use xeneon_edge_agents.Runtime.Backend.Switching.{collection_of_other-dropped, switch_lem}
use xeneon_edge_agents.Runtime.Voice.{process_voice_command, cancel_voice_for_disconnected_client}
use xeneon_edge_agents.Runtime.Voice.Ownership.{start-disconnect}
use xeneon_edge_agents.Runtime.Command.{process_agent_command, process_parsed, process_command}
use xeneon_edge_agents.Runtime.Command.Safety.{
  IsAllowed, is_t3code, agent_command-guarded, stale-refused, malformed-refused,
  t3code_command-keeps,
}
use xeneon_edge_agents.Runtime.Command.Answers.{IsAnswer, request_of, process_command-IsAnswer}
use xeneon_edge_agents.Tests.Demo.{card, demo, demo_daemon, request}

abbrev before : Daemon
before = demo_daemon 1 AgentBackend.herdr none

abbrev zoom_a : PortalCommand
zoom_a = request ActionKind.zoom 1 (some "a")

abbrev zoom_stale : PortalCommand
zoom_stale = request ActionKind.zoom 0 (some "a")

abbrev to_t3code : PortalCommand
to_t3code = request ActionKind.backend_t3code 1 none

abbrev start : PortalCommand
start = request ActionKind.voice_start 1 none

agent_command-guarded_example :
    (((process_agent_command demo none zoom_a 5 before []).0.succeeded ≡ false)
      × ((process_agent_command demo none zoom_a 5 before []).1 ≡ before)
      × ((process_agent_command demo none zoom_a 5 before []).2 ≡ []))
    ⊎ ((a : AgentView) × (t : AgentTarget) × IsAllowed zoom_a before a t
        × ((is_t3code t ≡ false) ⊎ (zoom_a.action ≡ ActionKind.open_agent)))
agent_command-guarded_example = agent_command-guarded demo none zoom_a 5 before []

stale-refused_example :
    ((process_parsed demo none zoom_stale "c" 5 before []).0.code ≡ "stale_snapshot")
    × ((process_parsed demo none zoom_stale "c" 5 before []).0.succeeded ≡ false)
    × ((process_parsed demo none zoom_stale "c" 5 before []).1 ≡ before)
    × ((process_parsed demo none zoom_stale "c" 5 before []).2 ≡ [])
unfolding validate_command nat_eq is_whitespace route
stale-refused_example =
    stale-refused demo none zoom_stale "c" 5 before [] {u = tt} refl refl (ground arith)

malformed-refused_example :
    ((process_command demo none "bad" "c" 5 before []).0.code ≡ "invalid_command")
    × ((process_command demo none "bad" "c" 5 before []).0.request_id ≡ "r")
    × ((process_command demo none "bad" "c" 5 before []).0.succeeded ≡ false)
    × ((process_command demo none "bad" "c" 5 before []).1 ≡ before)
    × ((process_command demo none "bad" "c" 5 before []).2 ≡ [])
unfolding string_eq
malformed-refused_example =
    malformed-refused demo none "bad" "c" (request ActionKind.zoom 1 none) 5 before [] refl
      (λ wf. ground (arith, wf.agent))

process_command-IsAnswer_example :
    IsAnswer
      (request_of (demo.parse_command "zoom"))
      (process_command demo none "zoom" "c" 5 before []).0
process_command-IsAnswer_example = process_command-IsAnswer demo none "zoom" "c" 5 before []

validate_command_iff_example : (validate_command zoom_a ≡ ok tt) ↔ IsWellFormed zoom_a
validate_command_iff_example = validate_command_iff zoom_a

collection_of_other-dropped_example :
    (refresh_agents demo (record { ms = 5; instant = 5 }) [] AgentBackend.t3code before before []).1
    ≡ before
collection_of_other-dropped_example =
    collection_of_other-dropped demo (record { ms = 5; instant = 5 }) [] AgentBackend.t3code before
      before [] (ground arith)

switch_lem_example :
    ((process_backend_command demo to_t3code 5 before []).1.state.backend ≡ AgentBackend.t3code)
    × ((process_backend_command demo to_t3code 5 before []).1.published.sequence ≡ 2)
    × ((process_backend_command demo to_t3code 5 before []).2
        ≡ demo.persist
            (record { backend = AgentBackend.t3code; t3code_order = AgentOrderMode.grouped })
            [])
    × ((process_agent_command demo none zoom_a 6
          (process_backend_command demo to_t3code 5 before []).1
          []).0.succeeded
        ≡ false)
    × ((process_agent_command demo none zoom_a 6
          (process_backend_command demo to_t3code 5 before []).1
          []).1
        ≡ (process_backend_command demo to_t3code 5 before []).1)
    × ((process_agent_command demo none zoom_a 6
          (process_backend_command demo to_t3code 5 before []).1
          []).2
        ≡ [])
switch_lem_example = switch_lem demo to_t3code zoom_a none 5 6 before [] [] refl (ground arith)

start-disconnect_example :
    let e = (process_voice_command demo start "c" 5 before []).1 in
    let f = (cancel_voice_for_disconnected_client demo "c" 6 e []).0 in
    (e.state.voice_client_owner ≡ some "c")
    × (f.state.voice_client_owner ≡ none)
    × (((cancelled : VoiceSnapshot) × ((demo.voice_perform ActionKind.voice_cancel []).0
            ≡ ok cancelled)
          × (f.published.voice ≡ cancelled)
          × (f.state.voice_error_latched ≡ false))
        ⊎ ((error : VoiceActionError) × ((demo.voice_perform ActionKind.voice_cancel []).0
              ≡ err error)
            × (f.published.voice.state ≡ VoiceState.error)
            × (f.state.voice_error_latched ≡ true)))
start-disconnect_example =
    start-disconnect demo start "c" 5 6 before [] []
      (record { state = VoiceState.recording; owned = true }) refl refl

abbrev thread : T3codeTarget
thread = record { thread_id = "t"; state_change_seq = 2; acknowledged = false }

abbrev before_t3code : Daemon
before_t3code =
    let d = demo_daemon 1 AgentBackend.t3code none in
    record d { state = record (d.state) { targets = ("a", AgentTarget.t3code thread) ∷ [] } }

t3code_command-keeps_example :
    (process_agent_command demo none
      (request ActionKind.open_agent 1 (some "a"))
      5
      before_t3code
      []).1
    ≡ before_t3code
unfolding check_agent nat_eq string_eq lookup command_capability_matches
t3code_command-keeps_example =
    t3code_command-keeps demo none (request ActionKind.open_agent 1 (some "a")) 5 before_t3code []
      (card "a" AgentStatus.working false 0) thread refl
