-- ===== src/Model/Order.antt =====
-- What `sort_agents` of crates/xeneon-agent-core/src/model.rs guarantees.
use Prim.Native.Nat.{Ordering}
use mathlib.Core.List.{Perm, Nodup, Pairwise-map}
use mathlib.Core.List.Pairwise
use mathlib.Core.HLevel.{¬_prop}
use xeneon_edge_agents.Base.{
  ◌<◌, ◌≡◌, ◌≢◌, ◌⊎◌, true, List, [], ◌∷◌, map, arith, All, All-imp, String-set,
}
use xeneon_edge_agents.Base.Compare.{
  IsLawful, compare-IsLawful, on-IsLawful, then_with-IsLawful, flip-IsLawful, str_cmp,
  str_cmp-IsLawful, eq_of_str_cmp, is_le,
}
use xeneon_edge_agents.Base.Sort.{
  sort_by, IsSorted, sort_by-perm, sort_by-IsSorted, sort_by_of_perm,
}
use xeneon_edge_agents.Model.Agent.{AgentView, agent_attention_rank, attention_cmp, sort_agents}

pub attention_cmp-IsLawful : IsLawful attention_cmp
unfolding attention_cmp
attention_cmp-IsLawful =
    then_with-IsLawful
      (then_with-IsLawful
        (then_with-IsLawful (on-IsLawful agent_attention_rank compare-IsLawful)
          (flip-IsLawful (on-IsLawful (λ (a : AgentView). a.state_change_seq) compare-IsLawful)))
        (on-IsLawful (λ (a : AgentView). a.source_order) compare-IsLawful))
      (on-IsLawful (λ (a : AgentView). a.id) str_cmp-IsLawful)

-- The attention order in words: by rank, then the newer change first, then by source order, then
-- by id.
abbrev pub Precedes : AgentView → AgentView → Type 0
Precedes a b =
    (agent_attention_rank a < agent_attention_rank b)
    ⊎ ((agent_attention_rank a ≡ agent_attention_rank b)
        × ((b.state_change_seq < a.state_change_seq)
            ⊎ ((a.state_change_seq ≡ b.state_change_seq)
                × ((a.source_order < b.source_order)
                    ⊎ ((a.source_order ≡ b.source_order) × (str_cmp a.id b.id ≢ Ordering.gt))))))

abbrev pub IsRanked : List AgentView → Type 0
IsRanked [] = Unit
IsRanked (a ∷ rest) = All (Precedes a) rest × IsRanked rest

Precedes-of_le : (a b : AgentView) → is_le (attention_cmp a b) ≡ true → Precedes a b
unfolding attention_cmp
Precedes-of_le a b h = ground arith

IsRanked-of_IsSorted : (xs : List AgentView) → IsSorted attention_cmp xs → IsRanked xs
IsRanked-of_IsSorted [] s = tt
IsRanked-of_IsSorted (x ∷ xs) s = (All-imp (Precedes-of_le x) xs s.0, IsRanked-of_IsSorted xs s.1)

-- The sorted roster holds the same cards, and every card stands before the cards that it precedes
-- in the attention order: by attention rank, newer change, source order and id.
pub sort_agents_lem : (xs : List AgentView) → IsRanked (sort_agents xs) × Perm (sort_agents xs) xs
unfolding sort_agents
sort_agents_lem xs = (
  IsRanked-of_IsSorted (sort_by attention_cmp xs) (sort_by-IsSorted attention_cmp-IsLawful xs),
  sort_by-perm attention_cmp xs,
)

AgentView-set : IsSet AgentView
AgentView-set = hlevel String-set

attention_cmp-ne-eq : (a b : AgentView) → a.id ≢ b.id → attention_cmp a b ≢ Ordering.eq
unfolding attention_cmp
attention_cmp-ne-eq a b h e = h (eq_of_str_cmp a.id b.id (ground arith))

-- Two collections of the same cards, with no id twice, are displayed in the same order, whatever
-- the order in which they were collected.
pub sort_agents_of_perm :
    {xs ys : List AgentView}
    → Perm xs ys
    → Nodup (map (λ (a : AgentView). a.id) xs)
    → sort_agents xs ≡ sort_agents ys
unfolding sort_agents
sort_agents_of_perm p d = sort_by_of_perm attention_cmp-IsLawful AgentView-set p (
    Pairwise.imp attention_cmp-ne-eq
      ((Pairwise-map {R = ◌≢◌} (λ a b. ¬_prop) (λ (a : AgentView). a.id)).0 d))
