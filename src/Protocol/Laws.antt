-- ===== src/Protocol/Laws.antt =====
-- What `validate_command` and `command_capability_matches` of
-- crates/xeneon-agent-core/src/protocol.rs decide.
use xeneon_edge_agents.Base.{◌≡◌, ◌↔◌, Bool, true, false, arith, ok, is_some, nat_eq, string_eq}
use xeneon_edge_agents.Base.Text.{is_blank, trim-is_empty}
use xeneon_edge_agents.Model.{ActionKind, PortalCommand, schema_version_supported}
use xeneon_edge_agents.Protocol.{validate_command}

-- The protocol's table: which actions name an agent, and which carry a capability.
abbrev pub names_agent : ActionKind → Bool
names_agent ActionKind.open_agent = true
names_agent ActionKind.zoom = true
names_agent ActionKind.approve = true
names_agent ActionKind.interrupt = true
names_agent _ = false

abbrev pub is_guarded : ActionKind → Bool
is_guarded ActionKind.approve = true
is_guarded ActionKind.interrupt = true
is_guarded _ = false

pub record IsWellFormed (c : PortalCommand) : Type 0 where
  pub schema : c.schema_version ≡ schema_version_supported
  pub identified : is_blank c.request_id ≡ false
  pub agent : is_some c.agent_id ≡ names_agent c.action
  pub capability : is_some c.capability_id ≡ is_guarded c.action

-- A command is accepted exactly when it is well formed: the supported schema version, a request id
-- that is not blank, an agent id exactly for the agent actions, and a capability exactly for the
-- guarded ones.
pub validate_command_iff : (c : PortalCommand) → (validate_command c ≡ ok tt) ↔ IsWellFormed c
unfolding validate_command
validate_command_iff c = (
  λ h. ground (arith, trim-is_empty c.request_id),
  λ w. ground (arith, trim-is_empty c.request_id),
)
