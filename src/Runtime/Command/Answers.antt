-- ===== src/Runtime/Command/Answers.antt =====
-- The results that the daemon sends back (crates/xeneon-agent-core/src/runtime.rs, `process_command`).
use xeneon_edge_agents.Base.{
  ℕ, ◌≡◌, ◌⊎◌, inl, inr, String, true, false, Option, none, some, string_eq, arith, Option-cases,
  Result-cases,
}
use xeneon_edge_agents.Model.{ActionResult, AgentOrderMode, PortalCommand, schema_version_supported}
use xeneon_edge_agents.Protocol.{validate_command}
use xeneon_edge_agents.Runtime.State.{action_ok, action_error}
use xeneon_edge_agents.Runtime.Services.{Services}
use xeneon_edge_agents.Desktop.{DesktopApp}
use xeneon_edge_agents.Voice.{VoiceActionError}
use xeneon_edge_agents.Runtime.Daemon.{Daemon}
use xeneon_edge_agents.Runtime.Voice.{voice_action_error, process_voice_command}
use xeneon_edge_agents.Runtime.Backend.{process_backend_command}
use xeneon_edge_agents.Runtime.Order.{requested_mode, set_t3code_order, process_agent_order_command}
use xeneon_edge_agents.Runtime.Order.Outcomes.{IsRefusal, Ordered, order_herdr-Ordered}
use xeneon_edge_agents.Runtime.Command.{
  Route, route, dispatch, check_agent, herdr_error, perform_t3code, perform_herdr,
  process_agent_command, process_restore, process_desktop, process_parsed, process_command,
}
use xeneon_edge_agents.Runtime.Command.Branches.{
  process_parsed_valid, process_parsed_invalid, process_command_read, process_command_unread,
}

-- A result of the supported schema version under a request id. A success has the code `ok`, and a
-- failure one of the codes of failures.
pub record IsAnswer (request_id : String) (r : ActionResult) : Type 0 where
  pub version : r.schema_version ≡ schema_version_supported
  pub echoes : r.request_id ≡ request_id
  pub coded : ((r.succeeded ≡ true) × (r.code ≡ "ok")) ⊎ ((r.succeeded ≡ false) × IsRefusal r.code)

Ordered-IsAnswer :
    {command : PortalCommand} {mode : AgentOrderMode} {now : ℕ} {d e : Daemon} {r : ActionResult}
    → Ordered command mode now d r e
    → IsAnswer command.request_id r
unfolding action_ok action_error
Ordered-IsAnswer (Ordered.queued code message names refused) = ground arith
Ordered-IsAnswer (Ordered.hidden names) = ground arith
Ordered-IsAnswer (Ordered.shown names) = ground arith

herdr_error-IsAnswer : (id message : String) → IsAnswer id (herdr_error id message)
unfolding herdr_error action_error
herdr_error-IsAnswer id message = ground arith

voice_error-IsAnswer : (id : String) (e : VoiceActionError) → IsAnswer id (voice_action_error id e)
unfolding voice_action_error action_error
voice_error-IsAnswer id e = ground arith

module _ (S : Services) where
  voice-IsAnswer :
      (command : PortalCommand) (client : String) (now : ℕ) (d : Daemon) (w : S.World)
      → IsAnswer command.request_id (process_voice_command S command client now d w).0
  unfolding process_voice_command voice_action_error action_ok action_error
  voice-IsAnswer command client now d w = ground arith

  backend-IsAnswer :
      (command : PortalCommand) (now : ℕ) (d : Daemon) (w : S.World)
      → IsAnswer command.request_id (process_backend_command S command now d w).0
  unfolding process_backend_command action_ok action_error
  backend-IsAnswer command now d w = ground arith

  order-IsAnswer :
      (command : PortalCommand) (now : ℕ) (d : Daemon) (w : S.World)
      → IsAnswer command.request_id (process_agent_order_command S command now d w).0
  unfolding process_agent_order_command set_t3code_order action_ok action_error
  order-IsAnswer command now d w = ground (
    arith,
    Ordered-IsAnswer (order_herdr-Ordered S command (requested_mode command.action) now d w),
  )

abbrev pub request_of : Option PortalCommand → String
request_of none = ""
request_of (some command) = command.request_id

module _ (S : Services) (t3code_app_bin : Option String) where
  agent-IsAnswer :
      (command : PortalCommand) (now : ℕ) (d : Daemon) (w : S.World)
      → IsAnswer command.request_id (process_agent_command S t3code_app_bin command now d w).0
  unfolding process_agent_command check_agent perform_t3code perform_herdr herdr_error action_ok
      action_error
  agent-IsAnswer command now d w = ground arith

  desktop-IsAnswer :
      (command : PortalCommand) (app : DesktopApp) (d : Daemon) (w : S.World)
      → IsAnswer command.request_id (process_desktop S t3code_app_bin command app d w).0
  unfolding process_desktop action_ok action_error
  desktop-IsAnswer command app d w = ground arith

  restore-IsAnswer :
      (command : PortalCommand) (d : Daemon) (w : S.World)
      → IsAnswer command.request_id (process_restore S t3code_app_bin command d w).0
  unfolding process_restore action_ok action_error
  restore-IsAnswer command d w = ground arith

  dispatch-IsAnswer :
      (r : Route) (command : PortalCommand) (client : String) (now : ℕ) (d : Daemon) (w : S.World)
      → IsAnswer command.request_id (dispatch S t3code_app_bin r command client now d w).0
  unfolding dispatch
  dispatch-IsAnswer Route.restore command client now d w = restore-IsAnswer command d w
  dispatch-IsAnswer Route.chatgpt command client now d w =
      desktop-IsAnswer command DesktopApp.chat_gpt d w
  dispatch-IsAnswer Route.claude command client now d w =
      desktop-IsAnswer command DesktopApp.claude d w
  dispatch-IsAnswer Route.voice_action command client now d w =
      voice-IsAnswer S command client now d w
  dispatch-IsAnswer Route.ordering command client now d w = order-IsAnswer S command now d w
  dispatch-IsAnswer Route.manager command client now d w = backend-IsAnswer S command now d w
  dispatch-IsAnswer Route.agent_action command client now d w = agent-IsAnswer command now d w

  parsed-IsAnswer :
      (command : PortalCommand) (client : String) (now : ℕ) (d : Daemon) (w : S.World)
      → IsAnswer command.request_id (process_parsed S t3code_app_bin command client now d w).0
  unfolding action_error
  parsed-IsAnswer command client now d w = elim (Result-cases (validate_command command)) [
    | inl (_, valid) ↦
        rw (process_parsed_valid S t3code_app_bin command client now d w valid)
          (dispatch-IsAnswer (route command.action) command client now d w)
    | inr (e, invalid) ↦
        rw (process_parsed_invalid S t3code_app_bin command client now d w invalid) (ground arith)
  ]

  -- Every line of a client is answered by a result of the supported schema version, under the
  -- command's request id (or an empty one, if the line is no command), that is either a
  -- success with the code `ok` or a failure with one of the eleven codes of failures. It is so whatever Herdr, T3 Code, the desktop and the voice
  -- client answer.
  pub process_command-IsAnswer :
      (line client : String) (now : ℕ) (d : Daemon) (w : S.World)
      → IsAnswer
          (request_of (S.parse_command line))
          (process_command S t3code_app_bin line client now d w).0
  unfolding action_error
  process_command-IsAnswer line client now d w = elim (Option-cases (S.parse_command line)) [
    | inl unread ↦
        rw (process_command_unread S t3code_app_bin line client now d w unread, unread)
          (ground arith)
    | inr (command, read) ↦
        rw (process_command_read S t3code_app_bin line client now d w read, read)
          (parsed-IsAnswer command client now d w)
  ]
