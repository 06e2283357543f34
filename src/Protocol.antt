-- ===== src/Protocol.antt =====
-- crates/xeneon-agent-core/src/protocol.rs: which commands the daemon accepts.
pub mod Laws
use xeneon_edge_agents.Base.{
  ℕ, String, Bool, true, false, not, Option, none, some, ◌==◌, nat_eq, string_eq, Result, ok, err,
  ◌>>◌, ◌>>=◌, bail_if, is_some, is_none, if◌then◌else◌,
}
use xeneon_edge_agents.Base.Text.{is_empty, trim}
use xeneon_edge_agents.Model.{
  ActionKind, ActionCapability, AgentView, PortalCommand, schema_version_supported,
}

pub data CommandError : Type 0 where
  unsupported_schema : ℕ → CommandError
  missing_request_id missing_agent_id unexpected_agent_id : CommandError
  missing_capability unexpected_capability : CommandError

-- The three arms of the `match`.
takes_nothing : PortalCommand → Result (Unit {0}) CommandError
takes_nothing c = do
  bail_if (is_some c.agent_id) CommandError.unexpected_agent_id
  bail_if (is_some c.capability_id) CommandError.unexpected_capability

takes_agent : PortalCommand → Result (Unit {0}) CommandError
takes_agent c = do
  bail_if (is_none c.agent_id) CommandError.missing_agent_id
  bail_if (is_some c.capability_id) CommandError.unexpected_capability

takes_capability : PortalCommand → Result (Unit {0}) CommandError
takes_capability c = do
  bail_if (is_none c.agent_id) CommandError.missing_agent_id
  bail_if (is_none c.capability_id) CommandError.missing_capability

validate_arguments : ActionKind → PortalCommand → Result (Unit {0}) CommandError
unfolding takes_nothing takes_agent takes_capability
validate_arguments ActionKind.open_agent c = takes_agent c
validate_arguments ActionKind.zoom c = takes_agent c
validate_arguments ActionKind.approve c = takes_capability c
validate_arguments ActionKind.interrupt c = takes_capability c
validate_arguments _ c = takes_nothing c

unfoldable pub validate_command : PortalCommand → Result (Unit {0}) CommandError
unfolding validate_arguments trim
validate_command c = do
  bail_if (not (c.schema_version == schema_version_supported))
      (CommandError.unsupported_schema c.schema_version)
  bail_if (is_empty (trim c.request_id)) CommandError.missing_request_id
  validate_arguments c.action c

supplied_matches : Option ActionCapability → Option String → Bool
supplied_matches (some capability) (some supplied) = capability.capability_id == supplied
supplied_matches _ _ = false

capability_matches : ActionKind → PortalCommand → AgentView → Bool
unfolding supplied_matches
capability_matches ActionKind.approve c agent =
    supplied_matches agent.actions.approve c.capability_id
capability_matches ActionKind.interrupt c agent =
    supplied_matches agent.actions.interrupt c.capability_id
capability_matches _ c agent = true

unfoldable pub command_capability_matches : PortalCommand → AgentView → Bool
unfolding capability_matches
command_capability_matches c agent = capability_matches c.action c agent
