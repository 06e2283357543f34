-- ===== src/Base/Chars.antt =====
-- The methods of `char` and the iterators over `chars` and `bytes` that the program calls.
use Prim.Native.Char.{Char, code, char, nul}
use Prim.Native.Nat.{ℕ, zero, suc, ◌+◌, ◌/◌, ◌%◌, ◌<◌, ◌≤◌, compare, Ordering}
use Prim.Native.String.{String}
use mathlib.Core.Path.{◌≡◌, refl}
use mathlib.Core.Bool.{Bool, true, false, ◌&&◌, ◌||◌}
use mathlib.Core.Option.{Option, none, some}
use mathlib.Core.List.{List, [], ◌∷◌, ◌++◌}
use native.Mathlib.Omega.{arith}
use xeneon_edge_agents.Base.Tests.{leb, ltb, if◌then◌else◌}
use xeneon_edge_agents.Base.Equality.{◌==◌, nat_eq}
use xeneon_edge_agents.Base.Lists.{length}

char_below : (n : ℕ) (o : Ordering) → compare n 55296 ≡ o → Char
char_below n Ordering.lt e = char n (rw e tt)
char_below n _ e = nul

-- `char::from` for a number below the surrogates; the program calls it on bytes only.
unfoldable pub chr : ℕ → Char
unfolding char_below
chr n = char_below n (compare n 55296) refl

code-char_below :
    (n : ℕ) (o : Ordering) (e : compare n 55296 ≡ o) → n < 256 → code (char_below n o e) ≡ n
unfolding char_below
code-char_below n Ordering.lt e h = refl
code-char_below n Ordering.eq e h = ground arith
code-char_below n Ordering.gt e h = ground arith

pub code-chr : (n : ℕ) → n < 256 → code (chr n) ≡ n
unfolding chr
code-chr n h = code-char_below n (compare n 55296) refl h

-- `char::is_control`
unfoldable pub is_control : ℕ → Bool
is_control c = ltb c 32 || (leb 127 c && leb c 159)

unfoldable pub is_ascii_alphanumeric : ℕ → Bool
is_ascii_alphanumeric c =
    (leb 48 c && leb c 57) || (leb 65 c && leb c 90) || (leb 97 c && leb c 122)

-- `str::to_ascii_lowercase`
unfoldable pub to_ascii_lowercase : String → String
unfolding chr
to_ascii_lowercase String.[] = String.[]
to_ascii_lowercase (String.◌∷◌ c s) =
    String.◌∷◌ (if leb 65 (code c) && leb (code c) 90 then chr (code c + 32) else c)
      (to_ascii_lowercase s)

unfoldable pub filter_chars : (ℕ → Bool) → String → String
filter_chars p String.[] = String.[]
filter_chars p (String.◌∷◌ c s) =
    let rest = filter_chars p s in if p (code c) then String.◌∷◌ c rest else rest

unfoldable pub take_chars : ℕ → String → String
take_chars zero s = String.[]
take_chars (suc n) String.[] = String.[]
take_chars (suc n) (String.◌∷◌ c s) = String.◌∷◌ c (take_chars n s)

-- `chars().count()`
unfoldable pub char_count : String → ℕ
char_count String.[] = 0
char_count (String.◌∷◌ c s) = suc (char_count s)

unfoldable pub all_chars : (ℕ → Bool) → String → Bool
all_chars p String.[] = true
all_chars p (String.◌∷◌ c s) = p (code c) && all_chars p s

-- `str::strip_prefix`
unfoldable pub strip_prefix : String → String → Option String
strip_prefix String.[] s = some s
strip_prefix (String.◌∷◌ p ps) String.[] = none
strip_prefix (String.◌∷◌ p ps) (String.◌∷◌ c s) =
    let rest = strip_prefix ps s in if code p == code c then rest else none

-- `ends_with` a character.
unfoldable pub ends_with_char : ℕ → String → Bool
ends_with_char n String.[] = false
ends_with_char n (String.◌∷◌ c String.[]) = code c == n
ends_with_char n (String.◌∷◌ c (String.◌∷◌ d s)) = ends_with_char n (String.◌∷◌ d s)

-- The bytes of one character in UTF-8.
unfoldable pub utf8 : ℕ → List ℕ
utf8 c =
    if ltb c 128
    then c ∷ []
    else if ltb c 2048
    then (192 + c / 64) ∷ (128 + c % 64) ∷ []
    else if ltb c 65536
    then (224 + c / 4096) ∷ (128 + c / 64 % 64) ∷ (128 + c % 64) ∷ []
    else (240 + c / 262144) ∷ (128 + c / 4096 % 64) ∷ (128 + c / 64 % 64) ∷ (128 + c % 64) ∷ []

-- `str::bytes`
unfoldable pub bytes : String → List ℕ
unfolding utf8
bytes String.[] = []
bytes (String.◌∷◌ c s) = utf8 (code c) ++ bytes s

-- `str::len`
unfoldable pub byte_len : String → ℕ
unfolding bytes
byte_len s = length (bytes s)

pub char_count-take_chars : (n : ℕ) (s : String) → char_count (take_chars n s) ≤ n
unfolding char_count take_chars
char_count-take_chars zero s = omega arith
char_count-take_chars (suc n) String.[] = omega arith
char_count-take_chars (suc n) (String.◌∷◌ c s) = omega (arith, char_count-take_chars n s)

pub take_chars_of_count : (n : ℕ) (s : String) → char_count s ≤ n → take_chars n s ≡ s
unfolding char_count take_chars
take_chars_of_count zero String.[] h = refl
take_chars_of_count zero (String.◌∷◌ c s) h = ground arith
take_chars_of_count (suc n) String.[] h = refl
take_chars_of_count (suc n) (String.◌∷◌ c s) h = rw (take_chars_of_count n s (omega arith)) refl

module _ (p : ℕ → Bool) where
  pub all_chars-take_chars :
      (n : ℕ) (s : String) → all_chars p s ≡ true → all_chars p (take_chars n s) ≡ true
  unfolding all_chars take_chars
  all_chars-take_chars zero s h = refl
  all_chars-take_chars (suc n) String.[] h = refl
  all_chars-take_chars (suc n) (String.◌∷◌ c s) h = ground (arith, all_chars-take_chars n s)

  pub all_chars-filter_chars : (s : String) → all_chars p (filter_chars p s) ≡ true
  unfolding all_chars filter_chars
  all_chars-filter_chars String.[] = refl
  all_chars-filter_chars (String.◌∷◌ c s) = ground (arith, all_chars-filter_chars s)

  pub filter_chars_of_all : (s : String) → all_chars p s ≡ true → filter_chars p s ≡ s
  unfolding all_chars filter_chars
  filter_chars_of_all String.[] h = refl
  filter_chars_of_all (String.◌∷◌ c s) h = ground (arith, filter_chars_of_all s)
