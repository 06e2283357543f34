-- ===== src/Herdr/Actions.antt =====
-- `actions_from_extra` of crates/xeneon-agent-core/src/herdr.rs: the guarded actions of an agent.
pub mod Latest
use xeneon_edge_agents.Base.{
  ℕ, String, Bool, true, false, Option, none, some, ◌==◌, string_eq, if◌then◌else◌, and_then,
  unwrap_or,
}
use xeneon_edge_agents.Base.Map.{Map, lookup}
use xeneon_edge_agents.Model.{ActionCapability, ActionKind, AgentActions, no_actions}
use xeneon_edge_agents.Herdr.Json.{Json, Values, get, as_str, as_u64, as_array}

-- The two actions that an entry may stand for.
unfoldable pub guarded_kind : String → Option ActionKind
guarded_kind kind =
    if kind == "approve"
    then some ActionKind.approve
    else if kind == "interrupt"
    then some ActionKind.interrupt
    else none

-- The capability of one entry; `continue` is `none`.
unfoldable pub capability_of : ℕ → Json → Option ActionCapability
unfolding get as_str as_u64 guarded_kind
capability_of revision entry = and_then (and_then (get "action" entry) as_str) (λ kind.
    and_then (and_then (get "capability_id" entry) as_str) (λ capability.
      and_then (guarded_kind kind) (λ action. some (record {
        capability_id = capability;
        kind = action;
        expires_at_ms = unwrap_or (and_then (get "expires_at_unix_ms" entry) as_u64) 0;
        expected_revision = unwrap_or (and_then (get "revision" entry) as_u64) revision;
      }))))

unfoldable pub add_capability : ActionCapability → AgentActions → AgentActions
add_capability c actions = elim c.kind [
  | ActionKind.approve ↦ record actions { approve = some c }
  | ActionKind.interrupt ↦ record actions { interrupt = some c }
  | _ ↦ actions
]

-- The loop over the entries.
unfoldable pub add_entries : ℕ → Values → AgentActions → AgentActions
unfolding capability_of add_capability
add_entries revision Values.no_values actions = actions
add_entries revision (Values.value entry others) actions =
    let rest = add_entries revision others in
    elim (capability_of revision entry) [
      | none ↦ rest actions
      | some c ↦ rest (add_capability c actions)
    ]

unfoldable pub actions_from_extra : Map Json → ℕ → AgentActions
unfolding add_entries as_array
actions_from_extra extra revision = elim (and_then (lookup "actions" extra) as_array) [
  | none ↦ no_actions
  | some values ↦ add_entries revision values no_actions
]
