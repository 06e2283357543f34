-- ===== src/Desktop/Controller/Waiting.antt =====
-- The wait for a launched window ends, and no launch stays marked after it.
use xeneon_edge_agents.Base.{
  ℕ, zero, suc, ◌+◌, ◌*◌, ◌≤◌, ◌<◌, ◌≡◌, ◌⊎◌, inl, inr, refl, Option, none, some, List, ==_self,
  ltb, Result, ok, err, arith, Bool-cases, ltb→lt, String,
}
use xeneon_edge_agents.Desktop.{
  DesktopApp, DesktopAppOutcome, HyprClient, desktop_app_eq, desktop_app_spec,
}
use xeneon_edge_agents.Desktop.Selection.{select_desktop_candidate}
use xeneon_edge_agents.Desktop.Controller.{
  Compositor, Controller, Outcome, set_launch, focus_window, candidate_round, wait_round, wait_loop,
  wait_for_launched_client, launch_and_wait, focus_candidate, focus_listed, focus_or_launch,
  is_in_flight, launch_poll_interval, launch_observation_timeout,
}

-- The clock never goes back, and a sleep lasts at least as long as it is asked to.
pub record IsClocked (C : Compositor) : Type 0 where
  pub clients_keep : (w : C.World) → C.clock w ≤ C.clock (C.clients w).1
  pub sleep_lasts : (n : ℕ) (w : C.World) → C.clock w + n ≤ C.clock (C.sleep n w)

module _ (C : Compositor) (app : DesktopApp) where
  abbrev IsCleared : Outcome DesktopAppOutcome C.World → Type 0
  IsCleared r = r.1.launching_since app ≡ none

  set_launch-cleared : (d : Controller) → (set_launch app none d).launching_since app ≡ none
  set_launch-cleared d = rw (==_self app) refl

  -- A round ends the wait with no launch marked, or the deadline has not passed.
  IsRound : ℕ → C.World → Option (Outcome DesktopAppOutcome C.World) → Type 0
  IsRound deadline w round =
      ((r : Outcome DesktopAppOutcome C.World) × (round ≡ some r) × IsCleared r)
      ⊎ ((round ≡ none) × (C.clock w < deadline))

  candidate_round-IsRound :
      (deadline : ℕ) (d : Controller) (w : C.World) (selected : Result (Option HyprClient) String)
      → IsRound deadline w (candidate_round C app deadline d w selected)
  unfolding candidate_round focus_window IsRound
  candidate_round-IsRound deadline d w (err _) =
      inl ((err tt, set_launch app none d, w), refl, set_launch-cleared d)
  candidate_round-IsRound deadline d w (ok (some window)) = inl (
    focus_window C window DesktopAppOutcome.launched_and_focused (set_launch app none d) w,
    refl,
    set_launch-cleared d,
  )
  candidate_round-IsRound deadline d w (ok none) = elim (Bool-cases (ltb (C.clock w) deadline)) [
    | inl e ↦ inr (rw e refl, ltb→lt (C.clock w) deadline e)
    | inr e ↦ inl ((err tt, set_launch app none d, w), rw e refl, set_launch-cleared d)
  ]

  wait_round-IsRound :
      (deadline : ℕ) (d : Controller) (w : C.World) (answer : Option (List HyprClient))
      → IsRound deadline w (wait_round C app deadline d w answer)
  unfolding wait_round IsRound
  wait_round-IsRound deadline d w none =
      inl ((err tt, set_launch app none d, w), refl, set_launch-cleared d)
  wait_round-IsRound deadline d w (some windows) =
      candidate_round-IsRound deadline d w (select_desktop_candidate windows (desktop_app_spec app))

  module _ (K : IsClocked C) where
    wait_loop-returns :
        (k deadline : ℕ) (d : Controller) (w : C.World)
        → deadline ≤ C.clock w + 100 * k
        → (r : Outcome DesktopAppOutcome C.World) × (wait_loop C (suc k) app deadline d w ≡ some r)
          × IsCleared r
    unfolding wait_loop IsRound
    wait_loop-returns zero deadline d w h =
        let (answer, w₁) = C.clients w in
        elim (wait_round-IsRound deadline d w₁ answer) [
          | inl (r, e, cleared) ↦ (r, rw (e, wait_loop) refl, cleared)
          | inr (e, early) ↦ absurd (omega (arith, h, early, K.clients_keep w))
        ]
    wait_loop-returns (suc k) deadline d w h =
        let (answer, w₁) = C.clients w in
        elim (wait_round-IsRound deadline d w₁ answer) [
          | inl (r, e, cleared) ↦ (r, rw (e, wait_loop) refl, cleared)
          | inr (e, early) ↦
              let (r, same, cleared) =
                wait_loop-returns k deadline d (C.sleep launch_poll_interval w₁)
                  (omega (arith, h, K.clients_keep w, K.sleep_lasts 100 w₁)) in
              (r, rw (e, wait_loop) same, cleared)
        ]

    wait-returns :
        (k : ℕ) (d : Controller) (w : C.World)
        → 120 ≤ k
        → (r : Outcome DesktopAppOutcome C.World) × (wait_for_launched_client C (suc k) app d w
            ≡ some r)
          × IsCleared r
    unfolding wait_for_launched_client
    wait-returns k d w h =
        wait_loop-returns k (C.clock w + launch_observation_timeout) d w (omega (arith, h))

    launch_and_wait-returns :
        (k : ℕ) (d : Controller) (w : C.World)
        → 120 ≤ k
        → (r : Outcome DesktopAppOutcome C.World) × (launch_and_wait C (suc k) app d w ≡ some r)
          × IsCleared r
    unfolding launch_and_wait
    launch_and_wait-returns k d w h =
        let now = C.clock w in
        let (launched, w₁) = C.launch (desktop_app_spec app).desktop_id w in
        let marked = set_launch app (some now) d in
        elim (Bool-cases (is_in_flight (d.launching_since app) now)) [
          | inl e ↦ rw (e, launch_and_wait) (wait-returns k d w h)
          | inr e ↦ elim (Bool-cases launched) [
            | inl f ↦ rw (e, f, launch_and_wait) (wait-returns k marked w₁ h)
            | inr f ↦ (
              (err tt, set_launch app none marked, w₁),
              rw (e, f, launch_and_wait) refl,
              set_launch-cleared marked,
            )
          ]
        ]

    focus_candidate-returns :
        (k : ℕ) (d : Controller) (w : C.World) (selected : Result (Option HyprClient) String)
        → 120 ≤ k
        → (r : Outcome DesktopAppOutcome C.World) × (focus_candidate C (suc k) app d w selected
            ≡ some r)
          × (IsCleared r ⊎ ((r.0 ≡ err tt) × (r.1 ≡ d)))
    unfolding focus_candidate focus_window
    focus_candidate-returns k d w (err _) h = ((err tt, d, w), refl, inr (refl, refl))
    focus_candidate-returns k d w (ok (some window)) h = (
      focus_window C window DesktopAppOutcome.focused (set_launch app none d) w,
      refl,
      inl (set_launch-cleared d),
    )
    focus_candidate-returns k d w (ok none) h =
        let (r, same, cleared) = launch_and_wait-returns k d w h in (r, same, inl cleared)

    focus_listed-returns :
        (k : ℕ) (d : Controller) (w : C.World) (answer : Option (List HyprClient))
        → 120 ≤ k
        → (r : Outcome DesktopAppOutcome C.World) × (focus_listed C (suc k) app d w answer ≡ some r)
          × (IsCleared r ⊎ ((r.0 ≡ err tt) × (r.1 ≡ d)))
    unfolding focus_listed
    focus_listed-returns k d w none h = ((err tt, d, w), refl, inr (refl, refl))
    focus_listed-returns k d w (some windows) h =
        focus_candidate-returns k d w (select_desktop_candidate windows (desktop_app_spec app)) h

    -- Where the clock never goes back and a sleep lasts as long as it is asked to, focusing or
    -- launching a desktop application ends: 121 rounds of the wait are enough fuel. Afterwards no
    -- launch of the application is marked, or the call has failed and left the controller as it
    -- was.
    pub focus_or_launch-returns :
        (k : ℕ) (d : Controller) (w : C.World)
        → 120 ≤ k
        → (r : Outcome DesktopAppOutcome C.World) × (focus_or_launch C (suc k) app d w ≡ some r)
          × ((r.1.launching_since app ≡ none) ⊎ ((r.0 ≡ err tt) × (r.1 ≡ d)))
    unfolding focus_or_launch
    focus_or_launch-returns k d w h =
        let (answer, w₁) = C.clients w in focus_listed-returns k d w₁ answer h
