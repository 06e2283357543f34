-- ===== src/Model/Numbering.antt =====
-- Cards that are numbered by their place, as the adapters hand them to the daemon.
use xeneon_edge_agents.Base.{ℕ, suc, ◌≡◌, List, [], ◌∷◌}
use xeneon_edge_agents.Model.Agent.{AgentView}

-- Each card's `source_order` is its position, counted from `n`.
abbrev pub IsNumbered : ℕ → List AgentView → Type 0
IsNumbered n [] = Unit
IsNumbered n (a ∷ rest) = (a.source_order ≡ n) × IsNumbered (suc n) rest
