-- ===== src/Tests/Demo.antt =====
-- Services whose world is what each Herdr socket stores, and a daemon with two cards.
use xeneon_edge_agents.Base.{
  ℕ, refl, String, Bool, true, false, ◌&&◌, Option, none, some, List, [], ◌∷◌, ◌==◌, string_eq,
  ==_ne, ==_self, if◌then◌else◌, unwrap_or, Result, ok, arith,
}
use xeneon_edge_agents.Base.Map.{Map, lookup, insert, lookup-insert}
use xeneon_edge_agents.Model.{
  ActionKind, AgentActions, AgentBackend, AgentOrderMode, AgentStatus, AgentView, ConnectionState,
  PortalCommand, SessionState, SessionView, VoiceSnapshot, VoiceState, agent_order_mode_eq,
  empty_snapshot,
}
use xeneon_edge_agents.Herdr.{SessionDescriptor}
use xeneon_edge_agents.Runtime.State.{AgentTarget, RuntimeState}
use xeneon_edge_agents.Runtime.Services.{Services, IsHerdr}
use xeneon_edge_agents.Desktop.{DesktopAppOutcome}
use xeneon_edge_agents.Voice.{VoiceActionError}
use xeneon_edge_agents.Runtime.Daemon.{Daemon}

abbrev pub World : Type 0
World = Map AgentOrderMode

unfoldable pub stores : World → String → AgentOrderMode
unfolding lookup
stores w path = unwrap_or (lookup path w) AgentOrderMode.grouped

abbrev pub left_session : SessionDescriptor
left_session = record { name = "left"; running = true; socket_path = "/left" }

abbrev pub right_session : SessionDescriptor
right_session = record { name = "right"; running = true; socket_path = "/right" }

abbrev pub session_view : SessionState → SessionView
session_view state = record {
  name = "left";
  state = state;
  version = none;
  protocol = none;
  last_sync_ms = none;
  message = none;
}

-- The server of the socket `/right` refuses the priority order.
unfoldable pub set_order : SessionDescriptor → AgentOrderMode → World → Bool × World
unfolding insert
set_order d mode w =
    if d.socket_path == "/right" && mode == AgentOrderMode.priority
    then (false, w)
    else (true, insert d.socket_path mode w)

abbrev pub idle_voice : VoiceSnapshot
idle_voice = record { state = VoiceState.idle; owned = false }

abbrev pub recording : VoiceSnapshot
recording = record { state = VoiceState.recording; owned = true }

abbrev pub voice : ActionKind → Result VoiceSnapshot VoiceActionError
voice ActionKind.voice_start = ok recording
voice _ = ok idle_voice

-- A command, whatever the line is.
abbrev pub request : ActionKind → ℕ → Option String → PortalCommand
request action sequence agent_id = record {
  schema_version = 1;
  request_id = "r";
  sequence = sequence;
  agent_id = agent_id;
  action = action;
  capability_id = none;
}

abbrev pub parse : String → Option PortalCommand
parse line =
    if line == "zoom"
    then some (request ActionKind.zoom 1 (some "a"))
    else if line == "bad"
    then some (request ActionKind.zoom 1 none)
    else none

abbrev pub demo_with : List SessionDescriptor → Services
demo_with sessions = record {
  World = World;
  discover = λ w. (some sessions, w);
  get_agent_order = λ d w. (some (stores w d.socket_path), w);
  set_agent_order = set_order;
  perform = λ t action capability w. (ok tt, w);
  restore_focus = λ w. (true, w);
  focus_or_launch = λ app w. (some DesktopAppOutcome.focused, w);
  open_thread_url = λ url w. (true, w);
  activate_herdr = λ session path w. (true, w);
  open_native = λ bin thread w. (true, w);
  thread_url = λ thread w. (some thread, w);
  voice_perform = λ action w. (voice action, w);
  voice_snapshot = λ w. (idle_voice, w);
  persist = λ b w. w;
  parse_command = parse;
  observe_session = λ d epoch offset now w. (none, w);
  observe_t3code = λ epoch now w. (
    record {
      session = session_view SessionState.offline;
      agents = [];
      targets = [];
      projection_sequence = none;
    },
    w,
  );
  Handle = Unit;
  is_finished = λ h w. false;
  abort = λ h w. w;
  spawn_subscription = λ d panes w. (tt, ok tt, w);
}

abbrev pub demo : Services
demo = demo_with (left_session ∷ right_session ∷ [])

abbrev pub demo_left : Services
demo_left = demo_with (left_session ∷ [])

pub demo-IsHerdr : (sessions : List SessionDescriptor) → IsHerdr (demo_with sessions) stores
unfolding stores set_order
demo-IsHerdr sessions = record {
  get_keeps = λ d w p. refl;
  get_reads = λ d w m e. ground (arith, e);
  set_other = λ d m w p differ.
      ground (arith, lookup-insert d.socket_path p m w, ==_ne d.socket_path p differ);
  set_stores = λ d m w done.
      ground (arith, lookup-insert d.socket_path d.socket_path m w, ==_self d.socket_path, done);
  discover_keeps = λ w p. refl;
  persist_keeps = λ b w p. refl;
}

abbrev pub all_actions : AgentActions
all_actions = record { can_open = true; can_zoom = true; approve = none; interrupt = none }

abbrev pub card : String → AgentStatus → Bool → ℕ → AgentView
card id status focused order = record {
  id = id;
  display_name = id;
  agent = "claude";
  status = status;
  review_ready = false;
  launch_pending = false;
  workspace = "w";
  repository = none;
  worktree = none;
  session = "left";
  focused = focused;
  observed_for_seconds = 0;
  state_change_seq = 0;
  source_order = order;
  actions = all_actions;
}

abbrev pub pane : ℕ → AgentTarget
pane seq = AgentTarget.herdr (record {
  session = "left";
  socket_path = "/left";
  pane_id = "p";
  terminal_id = "t";
  state_change_seq = seq;
  revision = 0;
})

abbrev pub demo_state : ℕ → AgentBackend → Option String → RuntimeState
demo_state sequence backend owner = record {
  snapshot = record (empty_snapshot "e") {
    sequence = sequence;
    connection = ConnectionState.connected;
    agents = card "a" AgentStatus.working false 0 ∷ card "b" AgentStatus.idle true 1 ∷ [];
    agent_order = record { available = true; mode = AgentOrderMode.grouped };
    backend = record { mode = backend; switchable = true };
  };
  backend = backend;
  t3code_order = AgentOrderMode.grouped;
  t3code_sequence = none;
  targets = ("a", pane 1) ∷ ("b", pane 2) ∷ [];
  observed = [];
  focused_agents = [];
  voice_error_latched = false;
  voice_client_owner = owner;
}

abbrev pub demo_daemon : ℕ → AgentBackend → Option String → Daemon
demo_daemon sequence backend owner =
    let s = demo_state sequence backend owner in
    record { state = s; published = s.snapshot; invalidations = [] }
