-- ===== src/Runtime/Order/Outcomes.antt =====
-- What an ordering command may do to the daemon (crates/xeneon-agent-core/src/runtime.rs,
-- `process_agent_order_command`).
use xeneon_edge_agents.Base.{
  ℕ, ◌≡◌, refl, ◌⊎◌, inl, inr, String, Bool, true, false, not, Option, none, some, List, [], ◌∷◌,
  arith, Bool-cases, ◌&&◌, map, any, if◌then◌else◌, ◌==◌, string_eq,
}
use xeneon_edge_agents.Model.{ActionResult, AgentOrderMode, PortalCommand, agent_order_mode_eq}
use xeneon_edge_agents.Herdr.{SessionDescriptor}
use xeneon_edge_agents.Runtime.State.{action_error, action_ok}
use xeneon_edge_agents.Runtime.Services.{Services}
use xeneon_edge_agents.Runtime.Daemon.{Daemon, publish, with_state, try_send, try_send_all}
use xeneon_edge_agents.Runtime.Order.{
  PriorMode, names, show_order, hide_order, Preflight, SetOutcome, preflight, set_all, compensate,
  verify, roll_back, commit_order, set_herdr_order, order_herdr,
}

pub try_send_all-state : (names : List String) (d : Daemon) → (try_send_all names d).state ≡ d.state
unfolding try_send_all
try_send_all-state [] d = refl
try_send_all-state (name ∷ rest) d = try_send_all-state rest (try_send name d)

-- The codes of a failure.
abbrev pub IsRefusal : String → Type 0
IsRefusal code =
    (code ≡ "invalid_command")
    ⊎ (code ≡ "stale_snapshot")
    ⊎ (code ≡ "target_unavailable")
    ⊎ (code ≡ "session_disconnected")
    ⊎ (code ≡ "capability_expired")
    ⊎ (code ≡ "unsupported_protocol")
    ⊎ (code ≡ "agent_state_changed")
    ⊎ (code ≡ "command_error")
    ⊎ (code ≡ "voice_unavailable")
    ⊎ (code ≡ "voice_busy")
    ⊎ (code ≡ "voice_not_owned")

-- The answer and the daemon: sessions are queued for collection, and the ordering is as it was,
-- hidden, or set.
pub data Ordered (command : PortalCommand) (mode : AgentOrderMode) (now : ℕ) (d : Daemon)
    : ActionResult → Daemon → Type 0 where
  queued :
      (code message : String) (names : List String)
      → IsRefusal code
      → Ordered command mode now d
          (action_error command.request_id code message)
          (try_send_all names d)
  hidden :
      (names : List String)
      → Ordered command mode now d
          (action_error command.request_id "target_unavailable"
            "Herdr could not synchronize agent ordering")
          (publish
            (with_state (try_send_all names d) (hide_order now (try_send_all names d).state)))
  shown :
      (names : List String)
      → Ordered command mode now d
          (action_ok command.request_id "agent_order_updated")
          (try_send_all names (publish (with_state d (show_order mode now d.state))))

abbrev Ends :
    {W : Type 0} → PortalCommand → AgentOrderMode → ℕ → Daemon → ActionResult × Daemon × W → Type 0
Ends command mode now d r = Ordered command mode now d r.0 r.1

abbrev ends : {W : Type 0} → ActionResult × Daemon × W → ActionResult × Daemon × W
ends r = r

module _ (S : Services) where
  roll_back-Ordered :
      (command : PortalCommand) (mode : AgentOrderMode) (now : ℕ)
      (priors attempted : List PriorMode) (d : Daemon) (w : S.World)
      → Ends command mode now d (roll_back S command now priors attempted d w)
  unfolding roll_back
  roll_back-Ordered command mode now priors attempted d w =
      elim (Bool-cases
        ((compensate S attempted w).0 && (verify S priors (compensate S attempted w).1).0)) [
          | inl restored ↦ rw restored (Ordered.queued "target_unavailable" _ _ (ground arith))
          | inr broken ↦ rw broken (Ordered.hidden _)
        ]

  commit_order-Ordered :
      (command : PortalCommand) (mode : AgentOrderMode) (now : ℕ) (ds : List SessionDescriptor)
      (d : Daemon) (w : S.World)
      → Ends command mode now d (commit_order S command mode now ds d w)
  unfolding commit_order
  commit_order-Ordered command mode now ds d w = Ordered.shown (names ds)

  set_herdr_order-Ordered :
      (command : PortalCommand) (authoritative mode : AgentOrderMode) (now : ℕ)
      (ds : List SessionDescriptor) (priors : List PriorMode) (d : Daemon) (w : S.World)
      → Ends command mode now d (set_herdr_order S command authoritative mode now ds priors d w)
  unfolding set_herdr_order action_error try_send_all
  set_herdr_order-Ordered command authoritative mode now ds priors d w =
      drift (any (λ (p : PriorMode). not (p.1 == authoritative)) priors)
        (set_all S mode priors [] w).0
    where
      drift :
          (b : Bool) (o : SetOutcome)
          → Ends command mode now d (
              ends {W = S.World} (
                if b
                then (
                  action_error command.request_id "stale_snapshot"
                      "Herdr ordering changed before the action",
                  try_send_all (names (map (λ (p : PriorMode). p.0) priors)) d,
                  w,
                )
                else elim o [
                  | SetOutcome.all_set ↦
                      commit_order S command mode now ds d (set_all S mode priors [] w).1
                  | SetOutcome.failed attempted ↦
                      roll_back S command now priors attempted d (set_all S mode priors [] w).1
                ]))
      drift true o =
          Ordered.queued "stale_snapshot" _ (names (map (λ (p : PriorMode). p.0) priors))
            (ground arith)
      drift false SetOutcome.all_set = commit_order-Ordered command mode now ds d _
      drift false (SetOutcome.failed attempted) =
          roll_back-Ordered command mode now priors attempted d _

  pub order_herdr-Ordered :
      (command : PortalCommand) (mode : AgentOrderMode) (now : ℕ) (d : Daemon) (w : S.World)
      → Ends command mode now d (order_herdr S command mode now d w)
  unfolding order_herdr action_error try_send_all
  order_herdr-Ordered command mode now d w = over (S.discover w).0
    where
      checked :
          (first : SessionDescriptor) (rest : List SessionDescriptor) (p : Preflight)
          → Ends command mode now d (
              ends {W = S.World} (elim p [
                | Preflight.unverified e ↦ (
                  action_error command.request_id "target_unavailable"
                      "Herdr could not verify agent ordering",
                  try_send e.name d,
                  (preflight S (first ∷ rest) (S.discover w).1).1,
                )
                | Preflight.verified priors ↦
                    set_herdr_order S command d.state.snapshot.agent_order.mode mode now
                      (first ∷ rest)
                      priors
                      d
                      (preflight S (first ∷ rest) (S.discover w).1).1
              ]))
      checked first rest (Preflight.unverified f) =
          Ordered.queued "target_unavailable" _ (f.name ∷ []) (ground arith)
      checked first rest (Preflight.verified priors) =
          set_herdr_order-Ordered command _ mode now (first ∷ rest) priors d _

      over :
          (found : Option (List SessionDescriptor))
          → Ends command mode now d (
              ends {W = S.World} (elim found [
                | none ↦ (
                  action_error command.request_id "session_disconnected"
                      "Herdr agent ordering is unavailable",
                  d,
                  (S.discover w).1,
                )
                | some [] ↦ (
                  action_error command.request_id "session_disconnected"
                      "no running Herdr session can change agent ordering",
                  d,
                  (S.discover w).1,
                )
                | some (first ∷ rest) ↦ elim (preflight S (first ∷ rest) (S.discover w).1).0 [
                  | Preflight.unverified e ↦ (
                    action_error command.request_id "target_unavailable"
                        "Herdr could not verify agent ordering",
                    try_send e.name d,
                    (preflight S (first ∷ rest) (S.discover w).1).1,
                  )
                  | Preflight.verified priors ↦
                      set_herdr_order S command d.state.snapshot.agent_order.mode mode now
                        (first ∷ rest)
                        priors
                        d
                        (preflight S (first ∷ rest) (S.discover w).1).1
                ]
              ]))
      over none = Ordered.queued "session_disconnected" _ [] (ground arith)
      over (some []) = Ordered.queued "session_disconnected" _ [] (ground arith)
      over (some (first ∷ rest)) =
          checked first rest (preflight S (first ∷ rest) (S.discover w).1).0
