-- ===== src/Base/Routes.antt =====
-- Maps whose values know their keys: an id is routed when its value has it as its key.
use Prim.Native.String.{String}
use mathlib.Core.Path.{◌≡◌, refl, ◌∙◌}
use mathlib.Core.Logic.{inl, inr}
use mathlib.Core.Option.{some}
use xeneon_edge_agents.Base.Tests.{Bool-cases}
use xeneon_edge_agents.Base.Equality.{◌==◌, string_eq, ==_self, ==_eq}
use xeneon_edge_agents.Base.Map.{Map, insert, lookup, lookup-insert}

module _ {ℓ} {V : Type ℓ} (key : V → String) where
  abbrev pub Routes : Map V → String → Type ℓ
  Routes m id = (t : V) × (lookup id m ≡ some t) × (key t ≡ id)

  pub insert-Routes :
      (t : V) (m : Map V) (id : String) → Routes m id → Routes (insert (key t) t m) id
  insert-Routes t m id (old, found, same) =
      let stored = lookup-insert (key t) id t m in
      elim (Bool-cases (key t == id)) [
        | inl e ↦ (t, stored ∙ rw e refl, ==_eq (key t) id e)
        | inr e ↦ (old, stored ∙ rw e found, same)
      ]

  pub insert-Routes_self : (t : V) (m : Map V) → Routes (insert (key t) t m) (key t)
  insert-Routes_self t m = (t, lookup-insert (key t) (key t) t m ∙ rw (==_self (key t)) refl, refl)
