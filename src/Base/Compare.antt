-- ===== src/Base/Compare.antt =====
-- Comparisons as Rust's `cmp`: `Ordering`, `then_with`, and the laws that make a sort meaningful.
use Prim.Native.Char.{code}
use Prim.Native.Nat.{compare, Ordering}
use Prim.Native.Nat.Ordering.{lt, eq, gt}
use Prim.Native.String.{String}
use mathlib.Core.Path.{◌≡◌, refl, ap₂}
use mathlib.Core.Bool.{Bool, true, false}
use native.Mathlib.Omega.{arith}
use text.Mathlib.TextEquality.{codes_equal}

abbrev pub then_with : Ordering → Ordering → Ordering
then_with eq second = second
then_with first _ = first

abbrev pub reversed : Ordering → Ordering
reversed lt = gt
reversed eq = eq
reversed gt = lt

-- Not greater: the test of a stable sort.
abbrev pub is_le : Ordering → Bool
is_le gt = false
is_le _ = true

-- A total preorder, given by its three-way comparison.
pub record IsLawful {ℓ} {K : Type ℓ} (cmp : K → K → Ordering) : Type ℓ where
  pub swap : (a b : K) → cmp b a ≡ reversed (cmp a b)
  pub lt_trans : (a b c : K) → cmp a b ≡ lt → cmp b c ≡ lt → cmp a c ≡ lt
  pub eq_left : (a b c : K) → cmp a b ≡ eq → cmp a c ≡ cmp b c

pub compare-IsLawful : IsLawful compare
compare-IsLawful = ground arith

module _ {ℓ κ} {A : Type ℓ} {K : Type κ} where
  -- Comparison by a key.
  abbrev pub on : (A → K) → (K → K → Ordering) → A → A → Ordering
  on key cmp a b = cmp (key a) (key b)

  pub on-IsLawful : (key : A → K) {cmp : K → K → Ordering} → IsLawful cmp → IsLawful (on key cmp)
  on-IsLawful key l = record {
    swap = λ a b. l.swap (key a) (key b);
    lt_trans = λ a b c. l.lt_trans (key a) (key b) (key c);
    eq_left = λ a b c. l.eq_left (key a) (key b) (key c);
  }

module _ {ℓ} {A : Type ℓ} {f g : A → A → Ordering} (F : IsLawful f) (G : IsLawful g) where
  pub then_with-IsLawful : IsLawful (λ a b. then_with (f a b) (g a b))
  then_with-IsLawful = record {
    swap = λ a b. ground (arith, F.swap a b, G.swap a b);
    lt_trans = λ a b c. ground (
      arith,
      F.swap a b,
      F.swap b c,
      F.swap a c,
      F.lt_trans a b c,
      F.eq_left a b c,
      F.eq_left c b a,
      G.lt_trans a b c,
    );
    eq_left = λ a b c. ground (arith, F.eq_left a b c, G.eq_left a b c);
  }

module _ {ℓ} {A : Type ℓ} {f : A → A → Ordering} (F : IsLawful f) where
  -- The comparison with its arguments exchanged, as `right.cmp(&left)`.
  pub flip-IsLawful : IsLawful (λ a b. f b a)
  flip-IsLawful = record {
    swap = λ a b. F.swap b a;
    lt_trans = λ a b c p q. F.lt_trans c b a q p;
    eq_left = λ a b c. ground (arith, F.swap a b, F.eq_left a b c, F.swap a c, F.swap b c);
  }

  pub cmp_self : (a : A) → f a a ≡ eq
  cmp_self a = ground (arith, F.swap a a)

  pub le_trans : (a b c : A) → is_le (f a b) ≡ true → is_le (f b c) ≡ true → is_le (f a c) ≡ true
  le_trans a b c = ground (
    arith,
    F.lt_trans a b c,
    F.eq_left a b c,
    F.eq_left c b a,
    F.swap a b,
    F.swap b c,
    F.swap a c,
  )

  pub le_total : (a b : A) → is_le (f a b) ≡ false → is_le (f b a) ≡ true
  le_total a b = ground (arith, F.swap a b)

-- `str::cmp`: UTF-8 keeps the order of the code points, so bytes compare as characters do.
unfoldable pub str_cmp : String → String → Ordering
str_cmp String.[] String.[] = eq
str_cmp String.[] (String.◌∷◌ d t) = lt
str_cmp (String.◌∷◌ c s) String.[] = gt
str_cmp (String.◌∷◌ c s) (String.◌∷◌ d t) = then_with (compare (code c) (code d)) (str_cmp s t)

str_cmp-swap : (s t : String) → str_cmp t s ≡ reversed (str_cmp s t)
unfolding str_cmp
str_cmp-swap String.[] String.[] = refl
str_cmp-swap String.[] (String.◌∷◌ d t) = refl
str_cmp-swap (String.◌∷◌ c s) String.[] = refl
str_cmp-swap (String.◌∷◌ c s) (String.◌∷◌ d t) = ground (arith, str_cmp-swap s t)

-- Texts that compare as equal are one text.
pub eq_of_str_cmp : (s t : String) → str_cmp s t ≡ eq → s ≡ t
unfolding str_cmp
eq_of_str_cmp String.[] String.[] h = refl
eq_of_str_cmp String.[] (String.◌∷◌ d t) h = cc
eq_of_str_cmp (String.◌∷◌ c s) String.[] h = cc
eq_of_str_cmp (String.◌∷◌ c s) (String.◌∷◌ d t) h =
    ap₂ String.◌∷◌ (codes_equal c d (ground arith)) (eq_of_str_cmp s t (ground arith))

str_cmp-lt_trans : (s t u : String) → str_cmp s t ≡ lt → str_cmp t u ≡ lt → str_cmp s u ≡ lt
unfolding str_cmp
str_cmp-lt_trans String.[] String.[] u p q = cc
str_cmp-lt_trans String.[] (String.◌∷◌ d t) String.[] p q = cc
str_cmp-lt_trans String.[] (String.◌∷◌ d t) (String.◌∷◌ e u) p q = refl
str_cmp-lt_trans (String.◌∷◌ c s) String.[] u p q = cc
str_cmp-lt_trans (String.◌∷◌ c s) (String.◌∷◌ d t) String.[] p q = cc
str_cmp-lt_trans (String.◌∷◌ c s) (String.◌∷◌ d t) (String.◌∷◌ e u) p q =
    ground (arith, str_cmp-lt_trans s t u)

pub str_cmp-IsLawful : IsLawful str_cmp
str_cmp-IsLawful = record {
  swap = str_cmp-swap;
  lt_trans = str_cmp-lt_trans;
  eq_left = λ s t u h. rw (eq_of_str_cmp s t h);
}
