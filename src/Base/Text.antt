-- ===== src/Base/Text.antt =====
-- The operations on `str` that the program calls: `trim` strips Unicode white space.
use Prim.Native.Char.{Char, code}
use Prim.Native.Nat.{ℕ, zero, suc, ◌/◌, ◌%◌}
use Prim.Native.String.{String}
use mathlib.Core.Path.{◌≡◌, refl}
use mathlib.Core.Bool.{Bool, true, false, ◌&&◌, ◌||◌}
use mathlib.Core.Option.{none, some}
use text.Mathlib.Text.{char_at?}
use native.Mathlib.Omega.{arith}
use xeneon_edge_agents.Base.Tests.{leb, if◌then◌else◌}
use xeneon_edge_agents.Base.Equality.{◌==◌, nat_eq}

abbrev pub is_empty : String → Bool
is_empty String.[] = true
is_empty (String.◌∷◌ c s) = false

-- `char::is_whitespace`, the property White_Space of Unicode.
unfoldable pub is_whitespace : ℕ → Bool
is_whitespace c =
    (leb 9 c && leb c 13)
    || c == 32
    || c == 133
    || c == 160
    || c == 5760
    || (leb 8192 c && leb c 8202)
    || c == 8232
    || c == 8233
    || c == 8239
    || c == 8287
    || c == 12288

unfoldable pub trim_start : String → String
trim_start String.[] = String.[]
trim_start (String.◌∷◌ c s) =
    let rest = trim_start s in if is_whitespace (code c) then rest else String.◌∷◌ c s

unfoldable pub trim_end : String → String
trim_end String.[] = String.[]
trim_end (String.◌∷◌ c s) =
    let rest = trim_end s in
    if is_empty rest && is_whitespace (code c) then String.[] else String.◌∷◌ c rest

unfoldable pub trim : String → String
unfolding trim_start trim_end
trim s = trim_end (trim_start s)

-- Every character is white space.
abbrev pub is_blank : String → Bool
is_blank String.[] = true
is_blank (String.◌∷◌ c s) = is_whitespace (code c) && is_blank s

trim_end-is_empty : (s : String) → is_empty (trim_end s) ≡ is_blank s
unfolding trim_end
trim_end-is_empty String.[] = refl
trim_end-is_empty (String.◌∷◌ c s) = ground (arith, trim_end-is_empty s)

trim_start-is_blank : (s : String) → is_blank (trim_start s) ≡ is_blank s
unfolding trim_start
trim_start-is_blank String.[] = refl
trim_start-is_blank (String.◌∷◌ c s) = ground (arith, trim_start-is_blank s)

pub trim-is_empty : (s : String) → is_empty (trim s) ≡ is_blank s
unfolding trim
trim-is_empty s = ground (arith, trim_end-is_empty (trim_start s), trim_start-is_blank s)

-- The decimal digits of a number, most significant first, before `rest`. A number has no more
-- digits than its value, so `suc n` rounds are enough for `n`.
digits_onto : ℕ → ℕ → String → String
digits_onto zero n rest = rest
digits_onto (suc fuel) n rest =
    let shown = String.◌∷◌ (digit (n % 10)) rest in
    let more = digits_onto fuel (n / 10) shown in if n / 10 == 0 then shown else more
  where
    digit : ℕ → Char
    digit d = elim (char_at? "0123456789" d) [ none ↦ "0" | some c ↦ c ]

unfoldable pub decimal : ℕ → String
unfolding digits_onto
decimal n = digits_onto (suc n) n String.[]
