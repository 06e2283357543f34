-- ===== src/Runtime/Order.antt =====
-- `process_agent_order_command` of crates/xeneon-agent-core/src/runtime.rs: all Herdr sessions get
-- the ordering, or all are put back.

mod Loops
mod Rollback
pub mod Atomic
pub mod Outcomes
use xeneon_edge_agents.Base.{
  ℕ, String, Bool, true, false, not, ◌&&◌, ◌||◌, Option, none, some, List, [], ◌∷◌, ◌++◌, ◌==◌,
  nat_eq, if◌then◌else◌, map, any,
}
use xeneon_edge_agents.Model.{
  ActionKind, ActionResult, AgentBackend, AgentOrderMode, AgentOrderSnapshot, PortalCommand,
  PortalSnapshot, no_order, agent_order_mode_eq, agent_backend_eq,
}
use xeneon_edge_agents.Herdr.{SessionDescriptor}
use xeneon_edge_agents.Runtime.State.{
  RuntimeState, PersistedBackend, action_ok, action_error, apply_agent_order,
}
use xeneon_edge_agents.Runtime.Services.{Services}
use xeneon_edge_agents.Runtime.Daemon.{Daemon, publish, try_send, try_send_all, touch, with_state}

abbrev pub PriorMode : Type 0
PriorMode = SessionDescriptor × AgentOrderMode

pub data Preflight : Type 0 where
  verified : List PriorMode → Preflight
  unverified : SessionDescriptor → Preflight

pub data SetOutcome : Type 0 where
  all_set : SetOutcome
  failed : List PriorMode → SetOutcome

-- The order snapshot that a finished command shows, and the roster in that order.
abbrev pub show_order : AgentOrderMode → ℕ → RuntimeState → RuntimeState
show_order mode now s =
    let ordering : AgentOrderSnapshot = record { available = true; mode = mode } in
    let shown = record (s.snapshot) {
      agent_order = ordering;
      agents = apply_agent_order s.snapshot.agents ordering;
    } in
    record s { snapshot = touch now shown }

abbrev pub hide_order : ℕ → RuntimeState → RuntimeState
hide_order now s = record s {
  snapshot = touch now (record (s.snapshot) { agent_order = no_order });
}

abbrev pub names : List SessionDescriptor → List String
names = map (λ (d : SessionDescriptor). d.name)

-- The mode that the action asks for; the callers hand over ordering actions only.
abbrev pub requested_mode : ActionKind → AgentOrderMode
requested_mode ActionKind.order_grouped = AgentOrderMode.grouped
requested_mode _ = AgentOrderMode.priority

module _ (S : Services) where
  -- The first loop: every session's mode before the change.
  unfoldable pub preflight : List SessionDescriptor → S.World → Preflight × S.World
  preflight [] w = (Preflight.verified [], w)
  preflight (d ∷ rest) w =
      let (mode, w') = S.get_agent_order d w in
      let (more, w'') = preflight rest w' in
      elim mode [
        | none ↦ (Preflight.unverified d, w')
        | some prior ↦ elim more [
          | Preflight.verified priors ↦ (Preflight.verified ((d, prior) ∷ priors), w'')
          | Preflight.unverified e ↦ (Preflight.unverified e, w'')
        ]
      ]

  -- The second loop, up to its first failure. `attempted` is kept in reverse, as it is undone.
  unfoldable pub set_all :
      AgentOrderMode → List PriorMode → List PriorMode → S.World → SetOutcome × S.World
  set_all mode [] attempted w = (SetOutcome.all_set, w)
  set_all mode ((d, prior) ∷ rest) attempted w =
      let (done, w') = S.set_agent_order d mode w in
      let skipped = set_all mode rest attempted w in
      let set = set_all mode rest ((d, prior) ∷ attempted) w' in
      if prior == mode
      then skipped
      else if done
      then set
      else (SetOutcome.failed ((d, prior) ∷ attempted), w')

  -- Every attempted session is written back, whatever the earlier writes returned.
  unfoldable pub compensate : List PriorMode → S.World → Bool × S.World
  compensate [] w = (true, w)
  compensate ((d, prior) ∷ rest) w =
      let (done, w') = S.set_agent_order d prior w in
      let (others, w'') = compensate rest w' in (done && others, w'')

  -- Every session is read again and compared with its mode before the change.
  unfoldable pub verify : List PriorMode → S.World → Bool × S.World
  verify [] w = (true, w)
  verify ((d, prior) ∷ rest) w =
      let (actual, w') = S.get_agent_order d w in
      let (others, w'') = verify rest w' in
      (elim actual [ none ↦ false | some mode ↦ mode == prior ] && others, w'')

  -- The commit on a T3 Code roster, whose order is the daemon's own setting.
  unfoldable pub set_t3code_order :
      PortalCommand → AgentOrderMode → ℕ → Daemon → S.World → ActionResult × Daemon × S.World
  set_t3code_order command mode now d w =
      let s = show_order mode now (record (d.state) { t3code_order = mode }) in
      let persisted : PersistedBackend = record {
        backend = s.backend;
        t3code_order = s.t3code_order;
      } in
      (
        action_ok command.request_id "agent_order_updated",
        publish (with_state d s),
        S.persist persisted w,
      )

  -- After a write that failed: put back, check, and hide the order if that did not work.
  unfoldable pub roll_back :
      PortalCommand
      → ℕ
      → List PriorMode
      → List PriorMode
      → Daemon
      → S.World
      → ActionResult × Daemon × S.World
  roll_back command now prior_modes attempted d w =
      let (written, w') = compensate attempted w in
      let (checked, w'') = verify prior_modes w' in
      let d' = try_send_all (names (map (λ (p : PriorMode). p.0) prior_modes)) d in
      (
        action_error command.request_id "target_unavailable"
            "Herdr could not synchronize agent ordering",
        (if written && checked then d' else publish (with_state d' (hide_order now d'.state))),
        w'',
      )

  unfoldable pub commit_order :
      PortalCommand
      → AgentOrderMode
      → ℕ
      → List SessionDescriptor
      → Daemon
      → S.World
      → ActionResult × Daemon × S.World
  commit_order command mode now descriptors d w = (
    action_ok command.request_id "agent_order_updated",
    try_send_all (names descriptors) (publish (with_state d (show_order mode now d.state))),
    w,
  )

  -- From the checked modes on.
  unfoldable pub set_herdr_order :
      PortalCommand
      → AgentOrderMode
      → AgentOrderMode
      → ℕ
      → List SessionDescriptor
      → List PriorMode
      → Daemon
      → S.World
      → ActionResult × Daemon × S.World
  set_herdr_order command authoritative mode now descriptors prior_modes d w =
      if any (λ (p : PriorMode). not (p.1 == authoritative)) prior_modes
      then (
        action_error command.request_id "stale_snapshot" "Herdr ordering changed before the action",
        try_send_all (names (map (λ (p : PriorMode). p.0) prior_modes)) d,
        w,
      )
      else let (outcome, w') = set_all mode prior_modes [] w in
        elim outcome [
          | SetOutcome.all_set ↦ commit_order command mode now descriptors d w'
          | SetOutcome.failed attempted ↦ roll_back command now prior_modes attempted d w'
        ]

  unfoldable pub order_herdr :
      PortalCommand → AgentOrderMode → ℕ → Daemon → S.World → ActionResult × Daemon × S.World
  order_herdr command mode now d w =
      let authoritative = d.state.snapshot.agent_order.mode in
      let (found, w') = S.discover w in
      elim found [
        | none ↦ (
          action_error command.request_id "session_disconnected"
              "Herdr agent ordering is unavailable",
          d,
          w',
        )
        | some [] ↦ (
          action_error command.request_id "session_disconnected"
              "no running Herdr session can change agent ordering",
          d,
          w',
        )
        | some (first ∷ rest) ↦
            let (checked, w'') = preflight (first ∷ rest) w' in
            elim checked [
              | Preflight.unverified e ↦ (
                action_error command.request_id "target_unavailable"
                    "Herdr could not verify agent ordering",
                try_send e.name d,
                w'',
              )
              | Preflight.verified priors ↦
                  set_herdr_order command authoritative mode now (first ∷ rest) priors d w''
            ]
      ]

  unfoldable pub process_agent_order_command :
      PortalCommand → ℕ → Daemon → S.World → ActionResult × Daemon × S.World
  process_agent_order_command command now d w =
      let mode = requested_mode command.action in
      if not (command.sequence == d.state.snapshot.sequence)
        || not d.state.snapshot.agent_order.available
      then (
        action_error command.request_id "stale_snapshot"
            "the authoritative agent ordering changed before the action",
        d,
        w,
      )
      else if d.state.backend == AgentBackend.t3code
      then set_t3code_order command mode now d w
      else order_herdr command mode now d w
