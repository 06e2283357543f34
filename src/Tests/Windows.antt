-- ===== src/Tests/Windows.antt =====
-- A desktop on which an application never maps a window, and one with two windows.
use xeneon_edge_agents.Base.{string_eq}
use xeneon_edge_agents.Base.{option_eq}
use xeneon_edge_agents.Base.Integers.{int_eq}
use xeneon_edge_agents.Base.{nat_eq}
use xeneon_edge_agents.Base.{
  ℕ, ◌+◌, ◌≤◌, ◌≡◌, refl, ◌⊎◌, String, true, false, none, some, List, [], ◌∷◌, ok, err, All, arith,
}
use mathlib.Core.List.{Mem}
use xeneon_edge_agents.Base.Integers.{ℤ, pos}
use xeneon_edge_agents.Base.Chars.{to_ascii_lowercase}
use xeneon_edge_agents.Desktop.Processes.{Table, ProcessInfo}
use xeneon_edge_agents.Desktop.Sessions.{hosting_clients, is_hinted, select_herdr_candidate}
use xeneon_edge_agents.Desktop.Sessions.Hosting.{IsHost, select_herdr_candidate-IsHost}
use xeneon_edge_agents.Desktop.{DesktopApp, DesktopAppOutcome, HyprClient}
use xeneon_edge_agents.Desktop.Controller.{Compositor, Controller, Outcome, focus_or_launch}
use xeneon_edge_agents.Desktop.Controller.Waiting.{IsClocked, focus_or_launch-returns}

-- The world is the clock.
abbrev empty_desktop : Compositor
empty_desktop = record {
  World = ℕ;
  clients = λ w. (some [], w);
  monitors = λ w. (some [], w);
  active_window = λ w. (none, w);
  dispatch = λ e w. (true, w);
  launch = λ id w. (true, w);
  clock = λ w. w;
  sleep = λ n w. w + n;
}

abbrev controller : Controller
controller = record { edge_output = none; remembered_window = none; launching_since = λ _. none }

empty_desktop-IsClocked : IsClocked empty_desktop
empty_desktop-IsClocked = record {
  clients_keep = λ w. omega arith;
  sleep_lasts = λ n w. omega arith;
}

enough : 120 ≤ 120
enough = omega arith

focus_or_launch-returns_example :
    (r : Outcome DesktopAppOutcome ℕ) × (focus_or_launch empty_desktop 121 DesktopApp.claude
        controller 5
      ≡ some r)
    × ((r.1.launching_since DesktopApp.claude ≡ none) ⊎ ((r.0 ≡ err tt) × (r.1 ≡ controller)))
focus_or_launch-returns_example =
    focus_or_launch-returns empty_desktop DesktopApp.claude empty_desktop-IsClocked 120 controller 5
      enough

abbrev window : String → ℤ → HyprClient
window address pid = record {
  address = address;
  class = "foot";
  initial_class = "foot";
  title = "";
  initial_title = "";
  pid = pid;
  monitor = pos 0;
  floating = false;
  focus_history_id = some (pos 0);
}

abbrev process : ℤ → List String → ProcessInfo
process parent command = record { parent = parent; command = command; environment = [] }

-- The second window runs a shell, which runs the client of the session `work`.
abbrev processes : Table
processes =
    (pos 10, process (pos 1) ("foot" ∷ []))
    ∷ (pos 20, process (pos 1) ("foot" ∷ []))
    ∷ (pos 21, process (pos 20) ("sh" ∷ []))
    ∷ (pos 22, process (pos 21) ("/usr/bin/herdr" ∷ "--session" ∷ "work" ∷ []))
    ∷ []

abbrev windows : List HyprClient
windows = window "0xa" (pos 10) ∷ window "0xb" (pos 20) ∷ []

work_window :
    select_herdr_candidate windows processes "work" "/run/work.sock" "herdr"
    ≡ ok (window "0xb" (pos 20))
unfolding select_herdr_candidate nat_eq int_eq option_eq string_eq
work_window = refl

no_window :
    select_herdr_candidate windows processes "default" "/run/herdr.sock" "herdr"
    ≡ err "no compositor window hosts Herdr session default"
unfolding select_herdr_candidate nat_eq int_eq option_eq string_eq
no_window = refl

select_herdr_candidate-IsHost_example :
    let c = window "0xb" (pos 20) in
    let hinted = is_hinted (to_ascii_lowercase "herdr") in
    Mem c windows
    × IsHost processes "work" "/run/work.sock" c
    × ((hinted c ≡ true)
        ⊎ All (λ d. hinted d ≡ false) (hosting_clients windows processes "work" "/run/work.sock"))
select_herdr_candidate-IsHost_example =
    select_herdr_candidate-IsHost windows processes "work" "/run/work.sock" "herdr"
      (window "0xb" (pos 20)) work_window
