-- ===== src/Runtime/Command/Branches.antt =====
-- The ways through `process_command` of crates/xeneon-agent-core/src/runtime.rs.
use xeneon_edge_agents.Base.{
  ℕ, ◌≡◌, refl, inl, inr, Option-cases, Result-cases, String, Option, none, some, ok, err,
}
use xeneon_edge_agents.Model.{PortalCommand}
use xeneon_edge_agents.Protocol.{CommandError, validate_command}
use xeneon_edge_agents.Runtime.State.{action_error}
use xeneon_edge_agents.Runtime.Services.{Services}
use xeneon_edge_agents.Runtime.Daemon.{Daemon}
use xeneon_edge_agents.Runtime.Command.{
  command_error_message, route, dispatch, process_parsed, process_command,
}

module _ (S : Services) (t3code_app_bin : Option String) where
  pub process_parsed_valid :
      (command : PortalCommand) (client : String) (now : ℕ) (d : Daemon) (w : S.World)
      {u : Unit {0}} (valid : validate_command command ≡ ok u)
      → process_parsed S t3code_app_bin command client now d w
        ≡ dispatch S t3code_app_bin (route command.action) command client now d w
  unfolding process_parsed
  process_parsed_valid command client now d w valid = rw (process_parsed, valid) refl

  pub process_parsed_invalid :
      (command : PortalCommand) (client : String) (now : ℕ) (d : Daemon) (w : S.World)
      {e : CommandError} (invalid : validate_command command ≡ err e)
      → process_parsed S t3code_app_bin command client now d w
        ≡ (action_error command.request_id "invalid_command" (command_error_message e), d, w)
  unfolding process_parsed
  process_parsed_invalid command client now d w invalid = rw (process_parsed, invalid) refl

  pub process_command_read :
      (line client : String) (now : ℕ) (d : Daemon) (w : S.World) {command : PortalCommand}
      (read : S.parse_command line ≡ some command)
      → process_command S t3code_app_bin line client now d w
        ≡ process_parsed S t3code_app_bin command client now d w
  unfolding process_command
  process_command_read line client now d w read = rw (process_command, read) refl

  pub process_command_unread :
      (line client : String) (now : ℕ) (d : Daemon) (w : S.World)
      (unread : S.parse_command line ≡ none)
      → process_command S t3code_app_bin line client now d w
        ≡ (action_error "" "invalid_command" "command is not valid JSON", d, w)
  unfolding process_command
  process_command_unread line client now d w unread = rw (process_command, unread) refl

  -- What holds of a daemon and after every dispatched command holds after every line.
  pub process_command-keeps :
      (P : Daemon → Type 0) (line client : String) (now : ℕ) (d : Daemon) (w : S.World)
      → ((command : PortalCommand)
          → P d
          → P (dispatch S t3code_app_bin (route command.action) command client now d w).1)
      → P d
      → P (process_command S t3code_app_bin line client now d w).1
  process_command-keeps P line client now d w keeps p = elim (Option-cases (S.parse_command line)) [
    | inl unread ↦ rw (process_command_unread line client now d w unread) p
    | inr (command, read) ↦
        rw (process_command_read line client now d w read)
          (elim (Result-cases (validate_command command)) [
            | inl (_, valid) ↦
                rw (process_parsed_valid command client now d w valid) (keeps command p)
            | inr (e, invalid) ↦ rw (process_parsed_invalid command client now d w invalid) p
          ])
  ]
