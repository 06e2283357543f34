-- ===== src/Base/Integers.antt =====
-- The signed integers that the program reads: `i64` counts and process ids, and `i128` times.
use Prim.Native.Nat.{ℕ, zero, suc}
use mathlib.Core.Path.{ap}
use mathlib.Core.Bool.{Bool, true, false}
use xeneon_edge_agents.Base.Tests.{leb}
use xeneon_edge_agents.Base.Equality.{Eq, nat_eq}

-- `negsuc n` is −(n + 1).
pub data ℤ : Type 0 where
  pos : ℕ → ℤ
  negsuc : ℕ → ℤ

abbrev pub is_zero : ℤ → Bool
is_zero (pos zero) = true
is_zero _ = false

-- `value > 0`
abbrev pub is_positive : ℤ → Bool
is_positive (pos (suc n)) = true
is_positive _ = false

-- `≤` of signed integers.
unfoldable pub le_int : ℤ → ℤ → Bool
le_int (pos a) (pos b) = leb a b
le_int (pos a) (negsuc b) = false
le_int (negsuc a) (pos b) = true
le_int (negsuc a) (negsuc b) = leb b a

abbrev magnitude : ℤ → ℕ
magnitude (pos n) = n
magnitude (negsuc n) = n

ℤ-discrete : Discrete ℤ
ℤ-discrete (pos a) (pos b) = elim (nat_eq.dec a b) [
  | yes p ↦ yes (ap pos p)
  | no n ↦ no (λ p. n (ap magnitude p))
]
ℤ-discrete (pos a) (negsuc b) = no (λ p. cc)
ℤ-discrete (negsuc a) (pos b) = no (λ p. cc)
ℤ-discrete (negsuc a) (negsuc b) = elim (nat_eq.dec a b) [
  | yes p ↦ yes (ap negsuc p)
  | no n ↦ no (λ p. n (ap magnitude p))
]

instance unfoldable pub int_eq : Eq ℤ
unfolding ℤ-discrete
int_eq = record { dec = ℤ-discrete }
