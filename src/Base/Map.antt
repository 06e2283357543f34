-- ===== src/Base/Map.antt =====
-- `HashMap` with text keys, as an association list: every operation goes by `lookup`, and the
-- iteration order, which Rust leaves open, is that of the list.
use Prim.Native.String.{String}
use mathlib.Core.Path.{◌≡◌, refl, ap}
use mathlib.Core.Bool.{Bool, true, false}
use mathlib.Core.Option.{Option, none, some}
use mathlib.Core.List.{List, [], ◌∷◌}
use native.Mathlib.Omega.{arith}
use xeneon_edge_agents.Base.Tests.{if◌then◌else◌}
use xeneon_edge_agents.Base.Equality.{◌==◌, string_eq}

abbrev pub Map {ℓ} : Type ℓ → Type ℓ
Map V = List (String × V)

module _ {ℓ} {V : Type ℓ} where
  -- `HashMap::get`: the value of the first entry of the key.
  unfoldable pub lookup : String → Map V → Option V
  lookup wanted [] = none
  lookup wanted ((key, value) ∷ others) = if key == wanted then some value else lookup wanted others

  unfoldable pub remove : String → Map V → Map V
  remove k [] = []
  remove k ((j, w) ∷ m) = let rest = remove k m in if j == k then rest else (j, w) ∷ rest

  -- `HashMap::insert`: in the place of the first entry of the key, or else at the end.
  unfoldable pub insert : String → V → Map V → Map V
  insert key new [] = (key, new) ∷ []
  insert key new ((other, old) ∷ others) =
      let inserted = insert key new others in
      if other == key then (key, new) ∷ others else (other, old) ∷ inserted

  -- `HashMap::retain` with a test on the key.
  unfoldable pub retain : (String → Bool) → Map V → Map V
  retain p [] = []
  retain p ((j, w) ∷ m) = let rest = retain p m in if p j then (j, w) ∷ rest else rest

  -- `HashMap::extend`
  unfoldable pub extend : Map V → Map V → Map V
  unfolding insert
  extend [] m = m
  extend ((k, v) ∷ new) m = extend new (insert k v m)

  unfoldable pub contains_key : String → Map V → Bool
  unfolding lookup
  contains_key k m = elim (lookup k m) [ none ↦ false | some _ ↦ true ]

  pub lookup-insert :
      (key wanted : String) (new : V) (entries : Map V)
      → lookup wanted (insert key new entries)
        ≡ (if key == wanted then some new else lookup wanted entries)
  unfolding insert lookup
  lookup-insert key wanted new [] = refl
  lookup-insert key wanted new ((other, old) ∷ others) =
      ground (arith, lookup-insert key wanted new others)

  pub lookup-remove :
      (k j : String) (m : Map V) → lookup j (remove k m) ≡ (if k == j then none else lookup j m)
  unfolding lookup remove
  lookup-remove k j [] = ground arith
  lookup-remove k j ((i, w) ∷ m) = ground (arith, lookup-remove k j m)

  retain_step :
      (p : String → Bool) (j i : String) (w : V) (m : Map V)
      → lookup j (retain p m) ≡ (if p j then lookup j m else none)
      → (b : Bool) → p i ≡ b
      → lookup j (if b then (i, w) ∷ retain p m else retain p m)
        ≡ (if p j then lookup j ((i, w) ∷ m) else none)
  unfolding lookup
  retain_step p j i w m ih true e = elim (string_eq.dec i j) [
    | yes same ↦ ground (arith, ap p same)
    | no differ ↦ ground arith
  ]
  retain_step p j i w m ih false e = elim (string_eq.dec i j) [
    | yes same ↦ ground (arith, ap p same)
    | no differ ↦ ground arith
  ]

  pub lookup-retain :
      (p : String → Bool) (j : String) (m : Map V)
      → lookup j (retain p m) ≡ (if p j then lookup j m else none)
  unfolding lookup retain
  lookup-retain p j [] = ground arith
  lookup-retain p j ((i, w) ∷ m) = retain_step p j i w m (lookup-retain p j m) (p i) refl
