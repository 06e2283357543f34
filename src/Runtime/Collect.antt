-- ===== src/Runtime/Collect.antt =====
-- The handlers of crates/xeneon-agent-core/src/runtime.rs that store a sample (health, device,
-- usage) and the acknowledgement of a review badge.
use xeneon_edge_agents.Base.{
  ℕ, String, false, none, some, List, [], ◌∷◌, ◌==◌, string_eq, if◌then◌else◌, find,
}
use xeneon_edge_agents.Base.Map.{Map, lookup, insert}
use xeneon_edge_agents.Model.{
  AgentView, AiUsageSnapshot, HealthSnapshot, MicroSnapshot, micro_same, usage_same,
}
use xeneon_edge_agents.Runtime.State.{ObservedAgent}
use xeneon_edge_agents.Runtime.Daemon.{Daemon, publish, touch, with_state}

-- The `health_tick` arm of `collect_auxiliary_loop`.
unfoldable pub store_health : HealthSnapshot → ℕ → Daemon → Daemon
store_health sample now d = publish (
    with_state d (record (d.state) {
      snapshot = record (d.state.snapshot) { generated_at_ms = now; health = sample };
    }))

-- The `micro_tick` arm of `collect_auxiliary_loop`.
unfoldable pub store_micro : MicroSnapshot → ℕ → Daemon → Daemon
store_micro sample now d =
    if micro_same d.state.snapshot.micro sample
    then d
    else publish (
        with_state d (record (d.state) {
          snapshot = record (d.state.snapshot) { generated_at_ms = now; micro = sample };
        }))

-- The rest of a round of `collect_usage_loop` after its sample.
unfoldable pub store_usage : AiUsageSnapshot → ℕ → Daemon → Daemon
store_usage sample now d =
    if usage_same d.state.snapshot.usage sample
    then d
    else publish (
        with_state d (record (d.state) {
          snapshot = record (d.state.snapshot) { generated_at_ms = now; usage = sample };
        }))

-- `iter_mut().find(…)` and the write to the card that it finds: the first card of that id.
unfoldable pub clear_badge : String → List AgentView → List AgentView
clear_badge id [] = []
clear_badge id (agent ∷ rest) =
    let others = clear_badge id rest in
    if agent.id == id then record agent { review_ready = false } ∷ rest else agent ∷ others

unfoldable pub clear_observed : String → Map ObservedAgent → Map ObservedAgent
clear_observed id observed = elim (lookup id observed) [
  | none ↦ observed
  | some value ↦ insert id (record value { review_ready = false }) observed
]

unfoldable pub acknowledge_review_ready : String → ℕ → Daemon → Daemon
unfolding clear_badge clear_observed
acknowledge_review_ready id now d =
    elim (find (λ (agent : AgentView). agent.id == id) d.state.snapshot.agents) [
      | none ↦ d
      | some agent ↦
          if agent.review_ready
          then publish (
              with_state d (record (d.state) {
                snapshot =
                    touch now (record (d.state.snapshot) {
                      agents = clear_badge id d.state.snapshot.agents;
                    });
                observed = clear_observed id d.state.observed;
              }))
          else d
    ]
