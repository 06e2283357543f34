-- ===== src/Runtime/Observation/Focus.antt =====
-- Which cards a change of focus acknowledges (crates/xeneon-agent-core/src/runtime.rs, the first
-- half of `apply_agent_observations`).
use xeneon_edge_agents.Base.{
  ◌≡◌, ◌≢◌, refl, String, Bool, true, false, Option, none, some, List, [], ◌∷◌, string_eq,
  option_eq, if◌then◌else◌, arith,
}
use xeneon_edge_agents.Base.Map.{Map, lookup, insert, lookup-insert}
use xeneon_edge_agents.Model.{AgentView}
use xeneon_edge_agents.Runtime.State.{AgentTarget, target_session}
use xeneon_edge_agents.Runtime.Observation.{
  contains, no_focus, mark_focus, current_focus, focus_change, acknowledge_focus,
}

abbrev Focus : Type 0
Focus = Map (Option String)

-- No session is listed twice.
abbrev HasUniqueKeys : Focus → Type 0
HasUniqueKeys [] = Unit
HasUniqueKeys ((k, v) ∷ m) = (lookup k m ≡ none) × HasUniqueKeys m

insert-HasUniqueKeys :
    (k : String) (v : Option String) (m : Focus) → HasUniqueKeys m → HasUniqueKeys (insert k v m)
unfolding insert
insert-HasUniqueKeys k v [] u = (unfold lookup in refl, tt)
insert-HasUniqueKeys k v ((j, w) ∷ m) u =
    ground (arith, insert-HasUniqueKeys k v m u.1, lookup-insert k j v m)

no_focus-HasUniqueKeys : (sessions : List String) → HasUniqueKeys (no_focus sessions)
unfolding no_focus
no_focus-HasUniqueKeys [] = tt
no_focus-HasUniqueKeys (s ∷ rest) = insert-HasUniqueKeys s none _ (no_focus-HasUniqueKeys rest)

mark_focus-HasUniqueKeys :
    (targets : Map AgentTarget) (agents : List AgentView) (m : Focus)
    → HasUniqueKeys m
    → HasUniqueKeys (mark_focus targets agents m)
unfolding mark_focus
mark_focus-HasUniqueKeys targets [] m u = u
mark_focus-HasUniqueKeys targets (a ∷ rest) m u =
    mark_focus-HasUniqueKeys targets rest _ (marked (lookup a.id targets) a.focused)
  where
    marked :
        (o : Option AgentTarget) (b : Bool)
        → HasUniqueKeys (elim o [
          | none ↦ m
          | some target ↦ if b then insert (target_session target) (some a.id) m else m
        ])
    marked none b = u
    marked (some t) true = insert-HasUniqueKeys (target_session t) (some a.id) m u
    marked (some t) false = u

pub current_focus-HasUniqueKeys :
    (targets : Map AgentTarget) (agents : List AgentView)
    → HasUniqueKeys (current_focus targets agents)
unfolding current_focus
current_focus-HasUniqueKeys targets agents =
    mark_focus-HasUniqueKeys targets agents _ (no_focus-HasUniqueKeys _)

-- A session whose focus moved to `id` acknowledges `id`.
pub acknowledge_focus-moved :
    (current focused : Focus) (session id : String) (previous : Option String)
    → HasUniqueKeys current
    → lookup session current ≡ some (some id)
    → lookup session focused ≡ some previous
    → previous ≢ some id
    → contains (acknowledge_focus current focused).0 id ≡ true
unfolding acknowledge_focus lookup focus_change
acknowledge_focus-moved [] focused session id previous u c f d = cc
acknowledge_focus-moved ((k, v) ∷ rest) focused session id previous u c f d =
    elim (string_eq.dec k session) [
      | yes same ↦ ground arith
      | no differ ↦ ground (
        arith,
        acknowledge_focus-moved rest (insert k v focused) session id previous,
        lookup-insert k session v focused,
      )
    ]

-- The new history holds the current focus of every session that it lists.
lookup-acknowledge_focus :
    (current focused : Focus) (session : String)
    → HasUniqueKeys current
    → lookup session (acknowledge_focus current focused).1
      ≡ elim (lookup session current) [ none ↦ lookup session focused | some c ↦ some c ]
unfolding acknowledge_focus lookup focus_change
lookup-acknowledge_focus [] focused session u = refl
lookup-acknowledge_focus ((k, v) ∷ rest) focused session u = ground (
  arith,
  lookup-acknowledge_focus rest (insert k v focused) session u.1,
  lookup-insert k session v focused,
)
