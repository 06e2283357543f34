-- ===== src/Desktop/Controller.antt =====
-- The controller of crates/xeneon-agent-core/src/desktop.rs: the remembered window, the launches in
-- flight, and the wait for a launched window.
pub mod Waiting
use xeneon_edge_agents.Base.{
  ℕ, zero, suc, ◌+◌, ◌-◌, String, Bool, true, false, Option, none, some, List, [], ◌∷◌, not, ◌&&◌,
  ◌||◌, ◌==◌, string_eq, option_eq, leb, ltb, if◌then◌else◌, find, any, or_else, and_then, is_some,
  Result, ok, err, is_ok,
}
use xeneon_edge_agents.Base.Integers.{ℤ, int_eq}
use xeneon_edge_agents.Base.Text.{is_empty}
use text.Mathlib.Text.{starts_with}
use xeneon_edge_agents.Desktop.{
  DesktopApp, DesktopAppOutcome, DesktopAppSpec, HyprClient, HyprMonitor, desktop_app_eq,
  desktop_app_spec,
}
use xeneon_edge_agents.Desktop.Selection.{select_desktop_candidate, focus_expression}

-- The compositor, the launcher and the clock. A query that fails answers `none`.
pub record Compositor : Type 1 where
  pub World : Type 0
  pub clients : World → Option (List HyprClient) × World
  pub monitors : World → Option (List HyprMonitor) × World
  pub active_window : World → Option HyprClient × World
  -- `hyprctl dispatch` of an expression.
  pub dispatch : String → World → Bool × World
  -- `launch_desktop` of a desktop id.
  pub launch : String → World → Bool × World
  pub clock : World → ℕ
  -- `sleep` for a number of milliseconds.
  pub sleep : ℕ → World → World

pub record Controller : Type 0 where
  pub edge_output : Option String
  pub remembered_window : Option String
  pub launching_since : DesktopApp → Option ℕ

abbrev pub launch_poll_interval : ℕ
launch_poll_interval = 100

abbrev pub launch_observation_timeout : ℕ
launch_observation_timeout = 12000

abbrev pub launch_coalesce_for : ℕ
launch_coalesce_for = 20000

abbrev pub set_launch : DesktopApp → Option ℕ → Controller → Controller
set_launch app since d = record d {
  launching_since = λ a. if a == app then since else d.launching_since a;
}

-- What a call returns: a value or an error, the controller and the world.
abbrev pub Outcome {ℓ κ} : Type ℓ → Type κ → Type (ℓ ⊔ κ)
Outcome A W = Result A (Unit {0}) × Controller × W

abbrev pub is_portal_preview_class : String → Bool
is_portal_preview_class class = starts_with class "org.xeneon-edge.agent-portal-preview"

abbrev pub is_in_flight : Option ℕ → ℕ → Bool
is_in_flight none now = false
is_in_flight (some started) now = ltb (now - started) launch_coalesce_for

module _ (C : Compositor) where
  unfoldable pub dispatch_focus : String → C.World → Bool × C.World
  unfolding focus_expression
  dispatch_focus address w = elim (focus_expression address) [
    | err _ ↦ (false, w)
    | ok expression ↦ C.dispatch expression w
  ]

  unfoldable pub remember_non_edge_focus : Controller → C.World → Controller × C.World
  remember_non_edge_focus d w =
      let (active, w₁) = C.active_window w in
      let (monitors, w₂) = C.monitors w₁ in
      elim active [
        | none ↦ (d, w₁)
        | some window ↦ elim monitors [
          | none ↦ (d, w₂)
          | some known ↦
              elim (or_else (find (λ m. m.id == window.monitor) known)
                (find (λ m. m.focused) known)) [
                  | none ↦ (d, w₂)
                  | some monitor ↦
                      if d.edge_output == some monitor.name
                      then (d, w₂)
                      else if is_empty window.address || is_portal_preview_class window.class
                      then (d, w₂)
                      else (record d { remembered_window = some window.address }, w₂)
                ]
        ]
      ]

  unfoldable pub restore_focus : Controller → C.World → Bool × C.World
  unfolding dispatch_focus
  restore_focus d w = elim d.remembered_window [
    | none ↦ (false, w)
    | some address ↦
        let (clients, w₁) = C.clients w in
        let (monitors, w₂) = C.monitors w₁ in
        elim clients [
          | none ↦ (false, w₁)
          | some windows ↦
              if not (is_some monitors) || not (any (λ c. c.address == address) windows)
              then (false, w₂)
              else dispatch_focus address w₂
        ]
  ]

  -- The end of a call that focuses a window.
  unfoldable pub focus_window :
      HyprClient → DesktopAppOutcome → Controller → C.World → Outcome DesktopAppOutcome C.World
  unfolding dispatch_focus
  focus_window window outcome d w =
      let (focused, w') = dispatch_focus window.address w in
      (if focused then ok outcome else err tt, d, w')

  -- A round of `wait_for_launched_client` on the selection, and on the windows that the compositor
  -- lists: a result, or `none` to go on.
  unfoldable pub candidate_round :
      DesktopApp
      → ℕ
      → Controller
      → C.World
      → Result (Option HyprClient) String
      → Option (Outcome DesktopAppOutcome C.World)
  unfolding focus_window
  candidate_round app deadline d w (err _) = some (err tt, set_launch app none d, w)
  candidate_round app deadline d w (ok (some window)) =
      some (focus_window window DesktopAppOutcome.launched_and_focused (set_launch app none d) w)
  candidate_round app deadline d w (ok none) =
      if ltb (C.clock w) deadline then none else some (err tt, set_launch app none d, w)

  unfoldable pub wait_round :
      DesktopApp
      → ℕ
      → Controller
      → C.World
      → Option (List HyprClient)
      → Option (Outcome DesktopAppOutcome C.World)
  unfolding candidate_round select_desktop_candidate
  wait_round app deadline d w none = some (err tt, set_launch app none d, w)
  wait_round app deadline d w (some windows) =
      candidate_round app deadline d w (select_desktop_candidate windows (desktop_app_spec app))

  -- The loop on fuel; `none` is a loop that ran out of it.
  unfoldable pub wait_loop :
      ℕ → DesktopApp → ℕ → Controller → C.World → Option (Outcome DesktopAppOutcome C.World)
  unfolding wait_round
  wait_loop zero app deadline d w = none
  wait_loop (suc fuel) app deadline d w =
      let (clients, w₁) = C.clients w in
      let rest = wait_loop fuel app deadline d (C.sleep launch_poll_interval w₁) in
      or_else (wait_round app deadline d w₁ clients) rest

  unfoldable pub wait_for_launched_client :
      ℕ → DesktopApp → Controller → C.World → Option (Outcome DesktopAppOutcome C.World)
  unfolding wait_loop
  wait_for_launched_client fuel app d w =
      wait_loop fuel app (C.clock w + launch_observation_timeout) d w

  -- No window is mapped: launch, unless a launch is in flight, and wait.
  unfoldable pub launch_and_wait :
      ℕ → DesktopApp → Controller → C.World → Option (Outcome DesktopAppOutcome C.World)
  unfolding wait_for_launched_client
  launch_and_wait fuel app d w =
      let now = C.clock w in
      let (launched, w₁) = C.launch (desktop_app_spec app).desktop_id w in
      let marked = set_launch app (some now) d in
      if is_in_flight (d.launching_since app) now
      then wait_for_launched_client fuel app d w
      else if launched
      then wait_for_launched_client fuel app marked w₁
      else some (err tt, set_launch app none marked, w₁)

  -- `focus_or_launch` on the selection, and on the windows that the compositor lists.
  unfoldable pub focus_candidate :
      ℕ
      → DesktopApp
      → Controller
      → C.World
      → Result (Option HyprClient) String
      → Option (Outcome DesktopAppOutcome C.World)
  unfolding focus_window launch_and_wait
  focus_candidate fuel app d w (err _) = some (err tt, d, w)
  focus_candidate fuel app d w (ok (some window)) =
      some (focus_window window DesktopAppOutcome.focused (set_launch app none d) w)
  focus_candidate fuel app d w (ok none) = launch_and_wait fuel app d w

  unfoldable pub focus_listed :
      ℕ
      → DesktopApp
      → Controller
      → C.World
      → Option (List HyprClient)
      → Option (Outcome DesktopAppOutcome C.World)
  unfolding focus_candidate select_desktop_candidate
  focus_listed fuel app d w none = some (err tt, d, w)
  focus_listed fuel app d w (some windows) =
      focus_candidate fuel app d w (select_desktop_candidate windows (desktop_app_spec app))

  unfoldable pub focus_or_launch :
      ℕ → DesktopApp → Controller → C.World → Option (Outcome DesktopAppOutcome C.World)
  unfolding focus_listed
  focus_or_launch fuel app d w =
      let (clients, w₁) = C.clients w in focus_listed fuel app d w₁ clients

  unfoldable pub focus_existing : DesktopApp → C.World → Bool × C.World
  unfolding dispatch_focus select_desktop_candidate
  focus_existing app w =
      let (clients, w₁) = C.clients w in
      elim clients [
        | none ↦ (false, w₁)
        | some windows ↦ elim (select_desktop_candidate windows (desktop_app_spec app)) [
          | err _ ↦ (false, w₁)
          | ok candidate ↦ elim candidate [
            | some window ↦ dispatch_focus window.address w₁
            | none ↦ (false, w₁)
          ]
        ]
      ]
