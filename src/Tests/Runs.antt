-- ===== src/Tests/Runs.antt =====
-- A run of the daemon: a sample of its health, then a switch of managers.
use xeneon_edge_agents.Protocol.{command_capability_matches}
use xeneon_edge_agents.Base.Map.{lookup}
use xeneon_edge_agents.Base.{string_eq}
use xeneon_edge_agents.Base.{nat_eq}
use xeneon_edge_agents.Base.{◌≡◌, ◌≤◌, refl, [], false, none, some, arith}
use xeneon_edge_agents.Model.{ActionKind, AgentBackend, AgentStatus, health_default}
use xeneon_edge_agents.Runtime.State.{u64_max}
use xeneon_edge_agents.Runtime.Daemon.{Daemon}
use xeneon_edge_agents.Runtime.Collect.{store_health}
use xeneon_edge_agents.Runtime.Command.{Checked, check_agent, process_agent_command}
use xeneon_edge_agents.Runtime.Steps.{Step, Reach, initial_daemon}
use xeneon_edge_agents.Runtime.Steps.Progress.{SameRoster, sequence_of}
use xeneon_edge_agents.Runtime.Steps.Roster.{Reach-sequence, sequence-SameRoster, allowed-was_shown}
use xeneon_edge_agents.Runtime.Steps.Invariant.{IsConsistent, started-IsConsistent}
use xeneon_edge_agents.Runtime.Steps.Vacancy.{Meanwhile, switch-refuses}
use xeneon_edge_agents.Runtime.Backend.{process_backend_command}
use xeneon_edge_agents.Tests.Demo.{demo, demo_daemon, request, card, pane}

abbrev before : Daemon
before = demo_daemon 1 AgentBackend.herdr none

abbrev sampled : Daemon → Daemon
sampled d = store_health health_default 5 d

sampling : (d : Daemon) → Reach demo none d (sampled d)
sampling d = Reach.next Reach.here (Step.poll_health health_default 5 d)

Reach-sequence_example :
    (sequence_of before ≤ sequence_of (sampled before)) × (sequence_of (sampled before) ≤ u64_max)
Reach-sequence_example = Reach-sequence demo none (sampling before) (ground arith)

sequence-SameRoster_example : SameRoster before (sampled before)
unfolding store_health
sequence-SameRoster_example = sequence-SameRoster demo none (sampling before) (ground arith) refl

allowed-was_shown_example :
    check_agent (request ActionKind.zoom 1 (some "a")) before
    ≡ Checked.allowed (card "a" AgentStatus.working false 0) (pane 1)
unfolding check_agent nat_eq store_health string_eq lookup command_capability_matches
allowed-was_shown_example =
    allowed-was_shown demo none (sampling before) (ground arith)
      (request ActionKind.zoom 1 (some "a")) refl (card "a" AgentStatus.working false 0) (pane 1)
      refl

started-IsConsistent_example : IsConsistent (sampled (initial_daemon "e" AgentBackend.herdr none))
started-IsConsistent_example =
    started-IsConsistent demo none "e" AgentBackend.herdr none
      (sampled (initial_daemon "e" AgentBackend.herdr none))
      (sampling (initial_daemon "e" AgentBackend.herdr none))

-- The switch to T3 Code, then a sample of health.
abbrev switched : Daemon
switched = (process_backend_command demo (request ActionKind.backend_t3code 1 none) 5 before []).1

unsampled : Meanwhile demo none switched (sampled switched)
unsampled = Meanwhile.next Meanwhile.here (Step.poll_health health_default 5 switched) refl

switch-refuses_example :
    let r =
      process_agent_command demo none
        (request ActionKind.zoom 2 (some "a"))
        6
        (sampled switched)
        [] in
    (r.0.succeeded ≡ false) × (r.1 ≡ sampled switched) × (r.2 ≡ [])
switch-refuses_example =
    switch-refuses demo none (request ActionKind.backend_t3code 1 none) 5 before [] refl
      (ground arith) unsampled (request ActionKind.zoom 2 (some "a")) 6 []
