-- ===== src/Tests/Observing.antt =====
-- Collected rosters: badges, orders and subscriptions.
use xeneon_edge_agents.Base.Map.{remove}
use xeneon_edge_agents.Model.{session_state_eq}
use xeneon_edge_agents.Model.{agent_order_mode_eq}
use xeneon_edge_agents.Base.{nat_eq}
use xeneon_edge_agents.Runtime.State.{target_session}
use xeneon_edge_agents.Base.Map.{insert}
use xeneon_edge_agents.Runtime.Observation.{current_focus}
use xeneon_edge_agents.Runtime.Observation.{acknowledge_focus}
use xeneon_edge_agents.Runtime.State.{target_acknowledged}
use xeneon_edge_agents.Base.{string_eq}
use mathlib.Core.List.{Perm, Nodup, Nodup-cons, Pairwise, mem-singleton, not-mem-nil}
use mathlib.Core.List.Perm
use mathlib.Core.Logic.{◌⊎◌}
use xeneon_edge_agents.Base.{
  ◌≡◌, ◌≢◌, refl, ap, ◌==◌, string_eq, String-set, inl, inr, String, Bool, true, false, none, some,
  List, [], ◌∷◌, arith, map,
}
use xeneon_edge_agents.Base.Map.{Map, lookup}
use xeneon_edge_agents.Model.{AgentStatus, AgentView, AgentOrderMode, sort_agents}
use xeneon_edge_agents.Model.Order.{IsRanked, sort_agents_lem, sort_agents_of_perm}
use xeneon_edge_agents.Runtime.State.{AgentTarget, ObservedAgent, target_state_change_seq}
use xeneon_edge_agents.Runtime.Observation.{apply_agent_observations}
use xeneon_edge_agents.Runtime.Observation.Cards.{find_id}
use xeneon_edge_agents.Runtime.Observation.Badges.{
  AllFit, observed-tracks, finished-review_ready, acknowledged-review_ready, focused-review_ready,
  active-review_ready, apply-AllFit,
}
use xeneon_edge_agents.Runtime.Refresh.{Collected, update_subscription, common_order}
use xeneon_edge_agents.Runtime.Refresh.Commit.Agreement.{common_order-agrees}
use xeneon_edge_agents.Runtime.Refresh.Commit.Reports.{Agreed}
use xeneon_edge_agents.Runtime.Refresh.{collect_sessions, nothing_collected}
use xeneon_edge_agents.Runtime.Services.{Services}
use xeneon_edge_agents.Herdr.{SessionDescriptor}
use xeneon_edge_agents.Model.{SessionState}
use xeneon_edge_agents.Runtime.Refresh.Subscriptions.Renewal.{Outcome, update_subscription_lem}
use xeneon_edge_agents.Tests.Demo.{demo, card, pane, left_session, right_session, session_view}

abbrev roster : List AgentView
roster = card "a" AgentStatus.idle false 0 ∷ card "b" AgentStatus.working true 1 ∷ []

abbrev routes : Map AgentTarget
routes = ("a", pane 2) ∷ ("b", pane 3) ∷ []

abbrev worked : ObservedAgent
worked = record {
  status = AgentStatus.working;
  state_change_seq = 1;
  since = 0;
  review_ready = false;
}

abbrev remembered : Map ObservedAgent
remembered = ("a", worked) ∷ []

observed-tracks_example :
    (c : AgentView) × (o : ObservedAgent) × (find_id "a"
        (apply_agent_observations roster routes remembered [] 9).agents
      ≡ some c)
    × (lookup "a" (apply_agent_observations roster routes remembered [] 9).observed ≡ some o)
    × (c.status ≡ AgentStatus.idle)
    × (o.status ≡ AgentStatus.idle)
    × (o.state_change_seq ≡ 2)
    × (c.review_ready ≡ o.review_ready)
unfolding string_eq lookup target_state_change_seq
observed-tracks_example =
    observed-tracks roster routes remembered [] 9 "a" (card "a" AgentStatus.idle false 0) (pane 2)
      (refl, (refl, tt)) refl refl

finished-review_ready_example :
    (c : AgentView) × (find_id "a" (apply_agent_observations roster routes remembered [] 9).agents
      ≡ some c)
    × (c.review_ready ≡ true)
unfolding string_eq lookup target_acknowledged acknowledge_focus current_focus insert target_session
finished-review_ready_example =
    finished-review_ready roster routes remembered [] 9 "a" (card "a" AgentStatus.idle false 0)
      (pane 2) worked (refl, (refl, tt)) refl refl refl refl (inl refl) refl refl

abbrev thread : AgentTarget
thread = AgentTarget.t3code (record { thread_id = "t"; state_change_seq = 2; acknowledged = true })

acknowledged-review_ready_example :
    (c : AgentView) × (find_id "a"
        (apply_agent_observations roster (("a", thread) ∷ []) remembered [] 9).agents
      ≡ some c)
    × (c.review_ready ≡ false)
unfolding string_eq lookup target_acknowledged
acknowledged-review_ready_example =
    acknowledged-review_ready roster (("a", thread) ∷ []) remembered [] 9 "a"
      (card "a" AgentStatus.idle false 0) thread (refl, (refl, tt)) refl refl refl

focused-review_ready_example :
    (c : AgentView) × (find_id "b"
        (apply_agent_observations roster routes remembered (("left", none) ∷ []) 9).agents
      ≡ some c)
    × (c.review_ready ≡ false)
unfolding string_eq lookup current_focus insert target_session
focused-review_ready_example =
    focused-review_ready roster routes remembered (("left", none) ∷ []) 9 "b"
      (card "b" AgentStatus.working true 1) (pane 3) "left" none (refl, (refl, tt)) refl refl refl
      refl (ground arith)

active-review_ready_example :
    (c : AgentView) × (find_id "b" (apply_agent_observations roster routes remembered [] 9).agents
      ≡ some c)
    × (c.review_ready ≡ false)
unfolding string_eq lookup
active-review_ready_example =
    active-review_ready roster routes remembered [] 9 "b" (card "b" AgentStatus.working true 1)
      (pane 3) (refl, (refl, tt)) (refl, tt) refl refl (inr (inl refl))

apply-AllFit_example : AllFit (apply_agent_observations roster routes remembered [] 9).observed
apply-AllFit_example = apply-AllFit roster routes remembered [] 9 (refl, tt)

sort_agents_lem_example : IsRanked (sort_agents roster) × Perm (sort_agents roster) roster
sort_agents_lem_example = sort_agents_lem roster

abbrev swapped : List AgentView
swapped = card "b" AgentStatus.working true 1 ∷ card "a" AgentStatus.idle false 0 ∷ []

abbrev is_a : String → Bool
unfolding string_eq
is_a id = id == "a"

a_not_b : ◌≢◌ {A = String} "a" "b"
unfolding string_eq is_a
a_not_b e = ground (arith, ap is_a e)

distinct_ids : Nodup (map (λ (a : AgentView). a.id) roster)
distinct_ids =
    Nodup-cons.1
      (λ m. a_not_b ((mem-singleton String-set).0 m), Nodup-cons.1 (not-mem-nil, Pairwise.nil))

sort_agents_of_perm_example : sort_agents roster ≡ sort_agents swapped
sort_agents_of_perm_example =
    sort_agents_of_perm
      (Perm.swap (card "b" AgentStatus.working true 1) (card "a" AgentStatus.idle false 0) [])
      distinct_ids

-- Both sessions answer, and report the ordering by priority.
abbrev observing : Services
observing = record demo {
  observe_session = λ d epoch offset now w. (
    some (record {
      session = session_view SessionState.connected;
      agents = [];
      targets = [];
      pane_ids = d.name ∷ [];
      agent_order = some AgentOrderMode.priority;
    }),
    w,
  );
}

abbrev both : List SessionDescriptor
both = left_session ∷ right_session ∷ []

abbrev collected : Collected
collected = (collect_sessions observing "e" 5 [] both [] nothing_collected []).1

offered : (common_order both collected).available ≡ true
unfolding common_order collect_sessions session_state_eq lookup insert remove string_eq nat_eq
    agent_order_mode_eq
offered = refl

common_order-agrees_example :
    (both ≢ [])
    × Agreed observing "e" 5 [] (common_order both collected).mode both collected.sessions
common_order-agrees_example = common_order-agrees observing "e" 5 [] both [] [] offered

update_subscription_lem_example :
    let r = update_subscription demo [] left_session ("p" ∷ "o" ∷ "p" ∷ []) [] in
    ((left_session.name ≢ "left") × (lookup "left" r.1 ≡ none))
    ⊎ ((left_session.name ≡ "left")
        × Outcome demo [] left_session ("p" ∷ "o" ∷ "p" ∷ []) [] "left" r)
unfolding lookup
update_subscription_lem_example =
    update_subscription_lem demo [] left_session ("p" ∷ "o" ∷ "p" ∷ []) [] "left"
