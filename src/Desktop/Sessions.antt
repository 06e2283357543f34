-- ===== src/Desktop/Sessions.antt =====
-- `select_herdr_candidate` of crates/xeneon-agent-core/src/desktop.rs: the window of a Herdr session.
pub mod Hosting
use text.Mathlib.Text.{starts_with}
use xeneon_edge_agents.Base.{
  String, Bool, false, Option, none, some, List, [], ◌∷◌, ◌<>◌, ◌||◌, ◌==◌, nat_eq, option_eq,
  if◌then◌else◌, any, filter, length, is_none, Result, ok, err,
}
use xeneon_edge_agents.Base.Text.{decimal}
use xeneon_edge_agents.Base.Integers.{ℤ, int_eq}
use xeneon_edge_agents.Base.Chars.{to_ascii_lowercase}
use xeneon_edge_agents.Desktop.{HyprClient}
use xeneon_edge_agents.Desktop.Selection.{best_history, narrow}
use xeneon_edge_agents.Desktop.Processes.{Table, client_hosts_session_in}
use xeneon_edge_agents.Desktop.Controller.{Compositor, dispatch_focus}

-- `str::contains`
unfoldable pub contains : String → String → Bool
contains String.[] needle = starts_with "" needle
contains (String.◌∷◌ c s) needle = starts_with (String.◌∷◌ c s) needle || contains s needle

unfoldable pub is_hinted : String → HyprClient → Bool
unfolding to_ascii_lowercase contains
is_hinted hint c =
    contains (to_ascii_lowercase c.class) hint
    || contains (to_ascii_lowercase c.initial_class) hint
    || contains (to_ascii_lowercase c.title) hint
    || contains (to_ascii_lowercase c.initial_title) hint

abbrev pub only : List HyprClient → String → Result HyprClient String
only (c ∷ []) message = ok c
only _ message = err message

-- The windows with the least history number.
abbrev pub most_recent_at : String → List HyprClient → Option ℤ → Result HyprClient String
most_recent_at session candidates none =
    err ("Herdr session " <> session <> " has no usable focus history")
most_recent_at session candidates (some best) =
    let recent = filter (λ c. c.focus_history_id == some best) candidates in
    only recent (
      "Herdr session "
      <> session
      <> " has "
      <> decimal (length recent)
      <> " equally recent compositor windows")

-- The only candidate, or the most recent of several.
unfoldable pub most_recent : String → List HyprClient → Result HyprClient String
unfolding best_history decimal
most_recent session (c ∷ []) = ok c
most_recent session candidates =
    if any (λ c. is_none c.focus_history_id) candidates
    then err ("Herdr session " <> session <> " has compositor windows without focus history")
    else most_recent_at session candidates (best_history candidates)

unfoldable pub hosting_clients : List HyprClient → Table → String → String → List HyprClient
unfolding client_hosts_session_in
hosting_clients clients processes session socket_path =
    filter (λ c. client_hosts_session_in c.pid session socket_path processes) clients

unfoldable pub select_herdr_candidate :
    List HyprClient → Table → String → String → String → Result HyprClient String
unfolding hosting_clients to_ascii_lowercase is_hinted most_recent
select_herdr_candidate clients processes session socket_path identity_hint =
    let hosting = hosting_clients clients processes session socket_path in
    if length hosting == 0
    then err ("no compositor window hosts Herdr session " <> session)
    else most_recent session (narrow (is_hinted (to_ascii_lowercase identity_hint)) hosting)

module _ (C : Compositor) where
  -- `activate_herdr`, with the table that was read and the configured window class.
  unfoldable pub activate_herdr : Table → String → String → String → C.World → Bool × C.World
  unfolding select_herdr_candidate dispatch_focus
  activate_herdr processes herdr_class session socket_path w =
      let (clients, w₁) = C.clients w in
      let (monitors, w₂) = C.monitors w₁ in
      elim clients [
        | none ↦ (false, w₁)
        | some windows ↦
            if is_none monitors
            then (false, w₂)
            else elim (select_herdr_candidate windows processes session socket_path herdr_class) [
              | err _ ↦ (false, w₂)
              | ok window ↦ dispatch_focus C window.address w₂
            ]
      ]
