-- ===== src/Runtime/Steps/Roster.antt =====
-- What a sequence number of crates/xeneon-agent-core/src/runtime.rs stands for, over all runs of
-- the daemon.
use xeneon_edge_agents.Base.{
  ◌≤◌, ◌<◌, ◌≡◌, ◌≢◌, false, sym, ◌∙◌, inl, inr, String, Bool-cases, Option, arith, ◌==◌, nat_eq,
  ==_eq,
}
use xeneon_edge_agents.Model.{PortalCommand, AgentView}
use xeneon_edge_agents.Runtime.State.{AgentTarget, u64_max}
use xeneon_edge_agents.Runtime.Services.{Services}
use xeneon_edge_agents.Runtime.Daemon.{Daemon}
use xeneon_edge_agents.Runtime.Command.{Checked, check_agent}
use xeneon_edge_agents.Runtime.Steps.{Step, Reach}
use xeneon_edge_agents.Runtime.Steps.Progress.{
  SameRoster, Progress, sequence_of, stays, store_health-Progress, store_micro-Progress,
  store_usage-Progress, cancel_voice-Progress, refresh_voice-Progress, refresh-Progress,
  command-Progress,
}

SameRoster-trans : (a b c : Daemon) → SameRoster a b → SameRoster b c → SameRoster a c
SameRoster-trans a b c p q = record {
  backend = q.backend ∙ p.backend;
  targets = q.targets ∙ p.targets;
  agents = q.agents ∙ p.agents;
  sessions = q.sessions ∙ p.sessions;
  agent_order = q.agent_order ∙ p.agent_order;
  sequence = q.sequence ∙ p.sequence;
}

-- The last step of a run that ends with the number it began with.
joined :
    (d x e : Daemon)
    → sequence_of d < u64_max
    → sequence_of e ≡ sequence_of d
    → (sequence_of d ≤ sequence_of x) × (sequence_of x ≤ u64_max)
    → Progress x e
    → (sequence_of x ≡ sequence_of d → SameRoster d x)
    → SameRoster d e
joined d x e m same between (inl kept) before =
    SameRoster-trans d x e (before (ground (arith, kept.sequence))) kept
joined d x e m same between (inr moved) before = ground (arith, moved)

check_agent-SameRoster :
    (command : PortalCommand) (d e : Daemon)
    → SameRoster d e
    → check_agent command e ≡ check_agent command d
unfolding check_agent
check_agent-SameRoster command d e same = λ i. check_agent command (record d {
  state = record (d.state) {
    targets = same.targets i;
    snapshot = record (d.state.snapshot) { sequence = same.sequence i; agents = same.agents i };
  };
})

stale_lem :
    (command : PortalCommand) (d : Daemon) (a : AgentView) (t : AgentTarget)
    → (command.sequence == sequence_of d) ≡ false
    → check_agent command d ≢ Checked.allowed a t
unfolding check_agent
stale_lem command d a t moved = ground arith

module _ (S : Services) (t3code_app_bin : Option String) where
  -- A step keeps the roster and its number, or moves on to the next number.
  Step-Progress : {d e : Daemon} → Step S t3code_app_bin d e → Progress d e
  Step-Progress (Step.command line client now d w) =
      command-Progress S t3code_app_bin line client now d w
  Step-Progress (Step.disconnect client now d w) = cancel_voice-Progress S client now d w
  Step-Progress (Step.collect now subscriptions chosen seen d w) =
      refresh-Progress S now subscriptions chosen seen d w
  Step-Progress (Step.event session d) = ground arith
  Step-Progress (Step.take_invalidations d) = ground arith
  Step-Progress (Step.poll_voice now d w) = refresh_voice-Progress S now d w
  Step-Progress (Step.poll_health sample now d) = store_health-Progress d sample now
  Step-Progress (Step.poll_micro sample now d) = store_micro-Progress d sample now
  Step-Progress (Step.poll_usage sample now d) = store_usage-Progress d sample now

  sequence_bounded :
      (d e : Daemon)
      → Progress d e
      → sequence_of d ≤ u64_max
      → (sequence_of d ≤ sequence_of e) × (sequence_of e ≤ u64_max)
  sequence_bounded d e (inl same) m = ground (arith, same.sequence)
  sequence_bounded d e (inr moved) m = ground (arith, moved)

  -- From a daemon whose sequence number fits 64 bits, the number never goes down, and always
  -- fits 64 bits.
  pub Reach-sequence :
      {d e : Daemon}
      → Reach S t3code_app_bin d e
      → sequence_of d ≤ u64_max
      → (sequence_of d ≤ sequence_of e) × (sequence_of e ≤ u64_max)
  Reach-sequence Reach.here m = ground arith
  Reach-sequence {d} {e} (Reach.next {e = x} r s) m =
      ground (arith, Reach-sequence r m, sequence_bounded x e (Step-Progress s))

  -- In any run of the daemon from `d`, in whatever order its handlers run and whatever Herdr, T3
  -- Code and the desktop do meanwhile: as long as the sequence number has not moved and has not
  -- reached the largest 64-bit number, the roster is the one of `d`, with the same manager, the same
  -- targets, the same cards and sessions and the same ordering.
  pub sequence-SameRoster :
      {d e : Daemon}
      → Reach S t3code_app_bin d e
      → sequence_of d < u64_max
      → sequence_of e ≡ sequence_of d
      → SameRoster d e
  sequence-SameRoster Reach.here m same = stays _
  sequence-SameRoster {d} {e} (Reach.next {e = x} r s) m same =
      joined d x e m same (Reach-sequence r (ground arith)) (Step-Progress s)
        (sequence-SameRoster r m)

  -- An agent command that carries the sequence number of a snapshot is allowed by any later state of
  -- the daemon only on the card and the target that this snapshot's state itself would have allowed,
  -- unless the number had reached the largest 64-bit one.
  pub allowed-was_shown :
      {d e : Daemon} (r : Reach S t3code_app_bin d e) (m : sequence_of d < u64_max)
      (command : PortalCommand) (seen : command.sequence ≡ sequence_of d) (a : AgentView)
      (t : AgentTarget) (allowed : check_agent command e ≡ Checked.allowed a t)
      → check_agent command d ≡ Checked.allowed a t
  allowed-was_shown {d} {e} r m command seen a t allowed =
      elim (Bool-cases (command.sequence == sequence_of e)) [
        | inl current ↦
            sym (
              check_agent-SameRoster command d e (
                sequence-SameRoster r m
                  (sym (==_eq command.sequence (sequence_of e) current) ∙ seen)))
            ∙ allowed
        | inr moved ↦ absurd (stale_lem command e a t moved allowed)
      ]
