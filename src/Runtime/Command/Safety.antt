-- ===== src/Runtime/Command/Safety.antt =====
-- When a command of crates/xeneon-agent-core/src/runtime.rs may act.
use xeneon_edge_agents.Base.{
  ℕ, ◌≡◌, ◌≢◌, ◌⊎◌, refl, inl, inr, String, Bool, true, false, Option, some, ◌==◌, nat_eq,
  string_eq, ==_eq, arith, find, and_then, Bool-cases, Result-cases, ok,
}
use xeneon_edge_agents.Base.Map.{lookup}
use xeneon_edge_agents.Model.{
  ActionKind, ActionResult, AgentView, PortalCommand, action_kind_eq, agent_backend_eq,
}
use xeneon_edge_agents.Protocol.{validate_command, command_capability_matches}
use xeneon_edge_agents.Protocol.Laws.{IsWellFormed, validate_command_iff}
use xeneon_edge_agents.Runtime.Command.Branches.{
  process_parsed_valid, process_parsed_invalid, process_command_read,
}
use xeneon_edge_agents.T3code.{T3codeTarget}
use xeneon_edge_agents.Runtime.State.{AgentTarget, action_error}
use xeneon_edge_agents.Runtime.Services.{Services}
use xeneon_edge_agents.Runtime.Daemon.{Daemon}
use xeneon_edge_agents.Runtime.Backend.{process_backend_command}
use xeneon_edge_agents.Runtime.Order.{process_agent_order_command}
use xeneon_edge_agents.Runtime.Command.{
  Route, route, dispatch, Checked, check_agent, action_enabled, perform_t3code,
  process_agent_command, process_parsed, process_command,
}

-- What an agent command must satisfy before anything is done.
pub record IsAllowed (command : PortalCommand) (d : Daemon) (a : AgentView) (t : AgentTarget)
    : Type 0 where
  pub current : command.sequence ≡ d.state.snapshot.sequence
  pub card :
      and_then command.agent_id (λ id. find (λ (a : AgentView). a.id == id) d.state.snapshot.agents)
      ≡ some a
  pub target : and_then command.agent_id (λ id. lookup id d.state.targets) ≡ some t
  pub enabled : action_enabled command.action a ≡ true
  pub capability : command_capability_matches command a ≡ true

-- An agent command passes the checks with a card and a target exactly when it carries the present
-- sequence number, names that card and that target, the card offers the action, and a guarded
-- action names the card's present capability.
pub check_agent_lem :
    (command : PortalCommand) (d : Daemon) (a : AgentView) (t : AgentTarget)
    → (check_agent command d ≡ Checked.allowed a t → IsAllowed command d a t)
      × (IsAllowed command d a t → check_agent command d ≡ Checked.allowed a t)
unfolding check_agent
check_agent_lem command d a t = ground arith

abbrev pub is_t3code : AgentTarget → Bool
is_t3code (AgentTarget.herdr t) = false
is_t3code (AgentTarget.t3code t) = true

pub Checked-cases :
    (c : Checked)
    → ((r : ActionResult) × (c ≡ Checked.rejected r))
      ⊎ ((a : AgentView) × (t : AgentTarget) × (c ≡ Checked.allowed a t))
Checked-cases (Checked.rejected r) = inl (r, refl)
Checked-cases (Checked.allowed a t) = inr (a, t, refl)

check_agent_failed :
    (command : PortalCommand) (d : Daemon) (r : ActionResult)
    → check_agent command d ≡ Checked.rejected r
    → r.succeeded ≡ false
unfolding check_agent action_error
check_agent_failed command d r refused = ground arith

-- The routes whose commands speak of the roster of a snapshot.
abbrev pub is_sequenced : Route → Bool
is_sequenced Route.agent_action = true
is_sequenced Route.ordering = true
is_sequenced Route.manager = true
is_sequenced _ = false

module _ (S : Services) (t3code_app_bin : Option String) where
  acted :
      (command : PortalCommand) (now : ℕ) (d : Daemon) (w : S.World) (a : AgentView)
      (t : AgentTarget)
      → check_agent command d ≡ Checked.allowed a t
      → (((process_agent_command S t3code_app_bin command now d w).0.succeeded ≡ false)
          × ((process_agent_command S t3code_app_bin command now d w).1 ≡ d)
          × ((process_agent_command S t3code_app_bin command now d w).2 ≡ w))
        ⊎ ((a : AgentView) × (t : AgentTarget) × IsAllowed command d a t
            × ((is_t3code t ≡ false) ⊎ (command.action ≡ ActionKind.open_agent)))
  unfolding process_agent_command perform_t3code action_error
  acted command now d w a (AgentTarget.herdr t) allowed = inr (
    a,
    AgentTarget.herdr t,
    (check_agent_lem command d a (AgentTarget.herdr t)).0 allowed,
    inl refl,
  )
  acted command now d w a (AgentTarget.t3code t) allowed =
      elim (Bool-cases (command.action == ActionKind.open_agent)) [
        | inl opens ↦ inr (
          a,
          AgentTarget.t3code t,
          (check_agent_lem command d a (AgentTarget.t3code t)).0 allowed,
          inr (==_eq command.action ActionKind.open_agent opens),
        )
        | inr other ↦ inl (ground arith)
      ]

  -- An agent command has one of two ends. Either it is refused and changes neither the daemon nor
  -- the world outside, or its checks held on a card and a target: it carries the present sequence
  -- number, the card offers the action, a guarded action names the card's present capability, and
  -- a target in T3 Code is only ever opened.
  pub agent_command-guarded :
      (command : PortalCommand) (now : ℕ) (d : Daemon) (w : S.World)
      → (((process_agent_command S t3code_app_bin command now d w).0.succeeded ≡ false)
          × ((process_agent_command S t3code_app_bin command now d w).1 ≡ d)
          × ((process_agent_command S t3code_app_bin command now d w).2 ≡ w))
        ⊎ ((a : AgentView) × (t : AgentTarget) × IsAllowed command d a t
            × ((is_t3code t ≡ false) ⊎ (command.action ≡ ActionKind.open_agent)))
  unfolding process_agent_command perform_t3code
  agent_command-guarded command now d w = elim (Checked-cases (check_agent command d)) [
    | inl (result, refused) ↦ inl (ground (arith, check_agent_failed command d result refused))
    | inr (a, t, allowed) ↦ acted command now d w a t allowed
  ]

  stale-dispatch :
      (r : Route) (command : PortalCommand) (client : String) (now : ℕ) (d : Daemon) (w : S.World)
      → is_sequenced r ≡ true
      → command.sequence ≢ d.state.snapshot.sequence
      → ((dispatch S t3code_app_bin r command client now d w).0.code ≡ "stale_snapshot")
        × ((dispatch S t3code_app_bin r command client now d w).0.succeeded ≡ false)
        × ((dispatch S t3code_app_bin r command client now d w).1 ≡ d)
        × ((dispatch S t3code_app_bin r command client now d w).2 ≡ w)
  unfolding dispatch process_agent_command check_agent process_backend_command
      process_agent_order_command action_error
  stale-dispatch Route.agent_action command client now d w sequenced moved = ground arith
  stale-dispatch Route.ordering command client now d w sequenced moved = ground arith
  stale-dispatch Route.manager command client now d w sequenced moved = ground arith
  stale-dispatch Route.restore command client now d w sequenced moved = ground arith
  stale-dispatch Route.chatgpt command client now d w sequenced moved = ground arith
  stale-dispatch Route.claude command client now d w sequenced moved = ground arith
  stale-dispatch Route.voice_action command client now d w sequenced moved = ground arith

  -- A valid agent, ordering or manager command with another sequence number than the present one
  -- is answered `stale_snapshot`, and changes neither the daemon nor the world outside.
  pub stale-refused :
      (command : PortalCommand) (client : String) (now : ℕ) (d : Daemon) (w : S.World)
      → {u : Unit {0}} → validate_command command ≡ ok u
      → is_sequenced (route command.action) ≡ true
      → command.sequence ≢ d.state.snapshot.sequence
      → ((process_parsed S t3code_app_bin command client now d w).0.code ≡ "stale_snapshot")
        × ((process_parsed S t3code_app_bin command client now d w).0.succeeded ≡ false)
        × ((process_parsed S t3code_app_bin command client now d w).1 ≡ d)
        × ((process_parsed S t3code_app_bin command client now d w).2 ≡ w)
  stale-refused command client now d w valid sequenced moved =
      rw (process_parsed_valid S t3code_app_bin command client now d w valid)
        (stale-dispatch (route command.action) command client now d w sequenced moved)

  -- A command that is not well formed is answered `invalid_command` under its own request id, and
  -- changes neither the daemon nor the world outside.
  pub malformed-refused :
      (line client : String) (command : PortalCommand) (now : ℕ) (d : Daemon) (w : S.World)
      → S.parse_command line ≡ some command
      → ¬ IsWellFormed command
      → ((process_command S t3code_app_bin line client now d w).0.code ≡ "invalid_command")
        × ((process_command S t3code_app_bin line client now d w).0.request_id ≡ command.request_id)
        × ((process_command S t3code_app_bin line client now d w).0.succeeded ≡ false)
        × ((process_command S t3code_app_bin line client now d w).1 ≡ d)
        × ((process_command S t3code_app_bin line client now d w).2 ≡ w)
  unfolding action_error
  malformed-refused line client command now d w read malformed =
      rw (process_command_read S t3code_app_bin line client now d w read)
        (elim (Result-cases (validate_command command)) [
          | inl (_, valid) ↦ absurd (malformed ((validate_command_iff command).0 valid))
          | inr (e, invalid) ↦
              rw (process_parsed_invalid S t3code_app_bin command client now d w invalid)
                (refl, refl, refl, refl, refl)
        ])

  -- An agent command on a T3 Code target leaves the daemon as it is, whether the thread was opened or
  -- not: the card keeps its review badge, and no collection is asked for.
  pub t3code_command-keeps :
      (command : PortalCommand) (now : ℕ) (d : Daemon) (w : S.World) (a : AgentView)
      (t : T3codeTarget)
      → check_agent command d ≡ Checked.allowed a (AgentTarget.t3code t)
      → (process_agent_command S t3code_app_bin command now d w).1 ≡ d
  unfolding process_agent_command perform_t3code
  t3code_command-keeps command now d w a t allowed = ground arith
