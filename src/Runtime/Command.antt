-- ===== src/Runtime/Command.antt =====
-- `process_command` of crates/xeneon-agent-core/src/runtime.rs: from a line of a client to the
-- result that is sent back.
pub mod Branches
pub mod Safety
pub mod Answers
use text.Mathlib.Text.{find?}
use xeneon_edge_agents.Base.{
  ℕ, String, Bool, true, false, not, ◌<>◌, ◌||◌, Option, none, some, List, [], ◌∷◌, ◌==◌, string_eq,
  nat_eq, if◌then◌else◌, Result, ok, err, find, and_then, is_some,
}
use xeneon_edge_agents.Base.Map.{lookup}
use xeneon_edge_agents.Base.Text.{decimal}
use xeneon_edge_agents.Model.{ActionKind, ActionResult, AgentView, PortalCommand, action_kind_eq}
use xeneon_edge_agents.Protocol.{CommandError, validate_command, command_capability_matches}
use xeneon_edge_agents.Herdr.{HerdrTarget}
use xeneon_edge_agents.T3code.{T3codeTarget}
use xeneon_edge_agents.Runtime.State.{AgentTarget, action_ok, action_error}
use xeneon_edge_agents.Runtime.Services.{Services}
use xeneon_edge_agents.Desktop.{DesktopApp, DesktopAppOutcome}
use xeneon_edge_agents.Runtime.Daemon.{Daemon, try_send}
use xeneon_edge_agents.Runtime.Order.{process_agent_order_command}
use xeneon_edge_agents.Runtime.Backend.{process_backend_command}
use xeneon_edge_agents.Runtime.Voice.{process_voice_command}
use xeneon_edge_agents.Runtime.Collect.{acknowledge_review_ready}

-- The `Display` of `CommandError` in crates/xeneon-agent-core/src/protocol.rs.
unfoldable pub command_error_message : CommandError → String
command_error_message (CommandError.unsupported_schema v) =
    "unsupported portal schema version " <> decimal v
command_error_message CommandError.missing_request_id = "request_id is required"
command_error_message CommandError.missing_agent_id = "agent_id is required for this action"
command_error_message CommandError.unexpected_agent_id = "agent_id is not accepted for this action"
command_error_message CommandError.missing_capability =
    "capability_id is required for guarded actions"
command_error_message CommandError.unexpected_capability =
    "capability_id is not accepted for this action"

-- `str::contains`
abbrev mentions : String → String → Bool
mentions message part = is_some (find? message part)

-- The code and the message that a failed Herdr action is reported with.
unfoldable pub herdr_error : String → String → ActionResult
herdr_error request_id message =
    if mentions message "protocol"
    then action_error request_id "unsupported_protocol" "Herdr protocol is unsupported"
    else if mentions message "state" || mentions message "capability"
    then action_error request_id "agent_state_changed" "agent state changed before the action"
    else action_error request_id "command_error" "agent action failed"

-- Whether the card offers the action.
unfoldable pub action_enabled : ActionKind → AgentView → Bool
action_enabled ActionKind.open_agent agent = agent.actions.can_open
action_enabled ActionKind.zoom agent = agent.actions.can_zoom
action_enabled _ agent = true

-- Where a command goes.
pub data Route : Type 0 where
  restore chatgpt claude voice_action ordering manager agent_action : Route

unfoldable pub route : ActionKind → Route
route ActionKind.restore_focus = Route.restore
route ActionKind.chatgpt_desktop = Route.chatgpt
route ActionKind.claude_desktop = Route.claude
route ActionKind.voice_start = Route.voice_action
route ActionKind.voice_stop = Route.voice_action
route ActionKind.voice_cancel = Route.voice_action
route ActionKind.order_grouped = Route.ordering
route ActionKind.order_priority = Route.ordering
route ActionKind.backend_herdr = Route.manager
route ActionKind.backend_t3code = Route.manager
route _ = Route.agent_action

-- What the checks of an agent action find: a card and its target, or the reported error.
pub data Checked : Type 0 where
  rejected : ActionResult → Checked
  allowed : AgentView → AgentTarget → Checked

unfoldable pub check_agent : PortalCommand → Daemon → Checked
unfolding action_enabled
check_agent command d =
    let agent =
      and_then command.agent_id
        (λ id. find (λ (a : AgentView). a.id == id) d.state.snapshot.agents) in
    let target = and_then command.agent_id (λ id. lookup id d.state.targets) in
    let error =
      λ (code message : String). Checked.rejected (action_error command.request_id code message) in
    if not (command.sequence == d.state.snapshot.sequence)
    then error "stale_snapshot" "the portal snapshot changed before the action"
    else elim agent [
      | none ↦ error "target_unavailable" "agent is no longer available"
      | some a ↦ elim target [
        | none ↦ error "session_disconnected" "agent session is disconnected"
        | some t ↦
            if not (action_enabled command.action a)
            then error "target_unavailable" "action is not available for the current agent"
            else if not (command_capability_matches command a)
            then error "capability_expired"
                "guarded action does not match the current agent capability"
            else Checked.allowed a t
      ]
    ]

-- `t3code_app_bin` is the configured `t3code.app_bin`.
module _ (S : Services) (t3code_app_bin : Option String) where
  unfoldable pub open_thread : T3codeTarget → S.World → Bool × S.World
  open_thread target w =
      let (url, w') = S.thread_url target.thread_id w in
      elim t3code_app_bin [
        | some bin ↦ S.open_native bin target.thread_id w
        | none ↦ elim url [ none ↦ (false, w') | some u ↦ S.open_thread_url u w' ]
      ]

  unfoldable pub perform_t3code :
      PortalCommand → T3codeTarget → Daemon → S.World → ActionResult × Daemon × S.World
  unfolding open_thread
  perform_t3code command target d w =
      let (opened, w') = open_thread target w in
      if not (command.action == ActionKind.open_agent)
      then (
        action_error command.request_id "target_unavailable"
            "action is not available for T3 Code threads",
        d,
        w,
      )
      else if opened
      then (action_ok command.request_id "thread_open_requested", d, w')
      else (
        action_error command.request_id "target_unavailable" "T3 Code window is not available",
        d,
        w',
      )

  unfoldable pub perform_herdr :
      PortalCommand
      → AgentView
      → HerdrTarget
      → ℕ
      → Daemon
      → S.World
      → ActionResult × Daemon × S.World
  unfolding acknowledge_review_ready herdr_error
  perform_herdr command agent target now d w =
      let (performed, w') = S.perform target command.action command.capability_id w in
      let (activated, w'') = S.activate_herdr target.session target.socket_path w' in
      let acknowledged =
        if command.action == ActionKind.open_agent
        then acknowledge_review_ready agent.id now d
        else d in
      let d' = try_send target.session acknowledged in
      elim performed [
        | err message ↦ (herdr_error command.request_id message, d, w')
        | ok _ ↦
            if command.action == ActionKind.open_agent || command.action == ActionKind.zoom
            then (
              if activated
                  then action_ok command.request_id "action_completed"
                  else action_error command.request_id "target_unavailable"
                      "agent focused, but its Herdr window was not activated",
              d',
              w'',
            )
            else (action_ok command.request_id "action_completed", d', w')
      ]

  unfoldable pub process_agent_command :
      PortalCommand → ℕ → Daemon → S.World → ActionResult × Daemon × S.World
  unfolding check_agent perform_t3code perform_herdr
  process_agent_command command now d w = elim (check_agent command d) [
    | Checked.rejected result ↦ (result, d, w)
    | Checked.allowed agent (AgentTarget.t3code target) ↦ perform_t3code command target d w
    | Checked.allowed agent (AgentTarget.herdr target) ↦ perform_herdr command agent target now d w
  ]

  unfoldable pub process_restore :
      PortalCommand → Daemon → S.World → ActionResult × Daemon × S.World
  process_restore command d w =
      let (restored, w') = S.restore_focus w in
      (
        if restored
            then action_ok command.request_id "focus_restored"
            else action_error command.request_id "target_unavailable" "focus restoration failed",
        d,
        w',
      )

  unfoldable pub process_desktop :
      PortalCommand → DesktopApp → Daemon → S.World → ActionResult × Daemon × S.World
  process_desktop command app d w =
      let (outcome, w') = S.focus_or_launch app w in
      (
        elim outcome [
          | none ↦
              action_error command.request_id "target_unavailable"
                "desktop app could not be focused or launched"
          | some DesktopAppOutcome.focused ↦ action_ok command.request_id "desktop_app_focused"
          | some DesktopAppOutcome.launched_and_focused ↦
              action_ok command.request_id "desktop_app_launched"
        ],
        d,
        w',
      )

  unfoldable pub dispatch :
      Route → PortalCommand → String → ℕ → Daemon → S.World → ActionResult × Daemon × S.World
  unfolding process_restore process_desktop process_voice_command process_agent_order_command
      process_backend_command process_agent_command
  dispatch Route.restore command client now d w = process_restore command d w
  dispatch Route.chatgpt command client now d w = process_desktop command DesktopApp.chat_gpt d w
  dispatch Route.claude command client now d w = process_desktop command DesktopApp.claude d w
  dispatch Route.voice_action command client now d w =
      process_voice_command S command client now d w
  dispatch Route.ordering command client now d w = process_agent_order_command S command now d w
  dispatch Route.manager command client now d w = process_backend_command S command now d w
  dispatch Route.agent_action command client now d w = process_agent_command command now d w

  unfoldable pub process_parsed :
      PortalCommand → String → ℕ → Daemon → S.World → ActionResult × Daemon × S.World
  unfolding dispatch route validate_command command_error_message
  process_parsed command client now d w = elim (validate_command command) [
    | err e ↦ (action_error command.request_id "invalid_command" (command_error_message e), d, w)
    | ok _ ↦ dispatch (route command.action) command client now d w
  ]

  unfoldable pub process_command :
      String → String → ℕ → Daemon → S.World → ActionResult × Daemon × S.World
  unfolding process_parsed
  process_command line client now d w = elim (S.parse_command line) [
    | none ↦ (action_error "" "invalid_command" "command is not valid JSON", d, w)
    | some command ↦ process_parsed command client now d w
  ]
