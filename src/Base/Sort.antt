-- ===== src/Base/Sort.antt =====
-- `slice::sort_by`: a stable sort under a three-way comparison.
use Prim.Native.Nat.{Ordering}
use mathlib.Core.Path.{◌≡◌, refl, ap, ◌∙◌}
use mathlib.Core.Logic.{inl, inr, ◌≢◌, ∥∥₁_elim}
use mathlib.Core.HLevel.{¬_prop}
use mathlib.Core.Bool.{true}
use mathlib.Core.List.{List, [], ◌∷◌, Perm, Permᴰ, Pairwise, mem-cons_self}
use mathlib.Core.List.Perm
use native.Mathlib.Omega.{arith}
use xeneon_edge_agents.Base.Tests.{if◌then◌else◌, Bool-cases}
use xeneon_edge_agents.Base.Lists.{All}
use xeneon_edge_agents.Base.Compare.{IsLawful, is_le, le_trans, le_total}

module _ {ℓ} {A : Type ℓ} where
  -- Before the first item that is not smaller, so equal items keep their order.
  unfoldable pub insert_sorted : (A → A → Ordering) → A → List A → List A
  insert_sorted cmp x [] = x ∷ []
  insert_sorted cmp x (y ∷ ys) =
      let rest = insert_sorted cmp x ys in if is_le (cmp x y) then x ∷ y ∷ ys else y ∷ rest

  unfoldable pub sort_by : (A → A → Ordering) → List A → List A
  unfolding insert_sorted
  sort_by cmp [] = []
  sort_by cmp (x ∷ xs) = insert_sorted cmp x (sort_by cmp xs)

  -- Every item is below all that follow it.
  abbrev pub IsSorted : (A → A → Ordering) → List A → Type ℓ
  IsSorted cmp [] = Unit
  IsSorted cmp (x ∷ xs) = All (λ y. is_le (cmp x y) ≡ true) xs × IsSorted cmp xs

module _ {ℓ} {A : Type ℓ} (cmp : A → A → Ordering) where
  insert_sorted-perm : (x : A) (xs : List A) → Perm (insert_sorted cmp x xs) (x ∷ xs)
  unfolding insert_sorted
  insert_sorted-perm x [] = Perm.rfl
  insert_sorted-perm x (y ∷ ys) = elim (Bool-cases (is_le (cmp x y))) [
    | inl e ↦ rw e Perm.rfl
    | inr e ↦ rw e (Perm.trans (Perm.cons y (insert_sorted-perm x ys)) (Perm.swap x y ys))
  ]

  pub sort_by-perm : (xs : List A) → Perm (sort_by cmp xs) xs
  unfolding sort_by
  sort_by-perm [] = Perm.rfl
  sort_by-perm (x ∷ xs) =
      Perm.trans (insert_sorted-perm x (sort_by cmp xs)) (Perm.cons x (sort_by-perm xs))

  -- What holds of every item holds of every item of the sorted list.
  insert_sorted-All {κ} :
      (P : A → Type κ) (x : A) (xs : List A) → P x → All P xs → All P (insert_sorted cmp x xs)
  unfolding insert_sorted
  insert_sorted-All P x [] px h = (px, tt)
  insert_sorted-All P x (y ∷ ys) px h = elim (Bool-cases (is_le (cmp x y))) [
    | inl e ↦ rw e (px, h)
    | inr e ↦ rw e (h.0, insert_sorted-All P x ys px h.1)
  ]

  pub sort_by-All {κ} : (P : A → Type κ) (xs : List A) → All P xs → All P (sort_by cmp xs)
  unfolding sort_by
  sort_by-All P [] h = h
  sort_by-All P (x ∷ xs) h = insert_sorted-All P x (sort_by cmp xs) h.0 (sort_by-All P xs h.1)

  -- A sorted list comes back as it is.
  pub sort_by_of_IsSorted : (xs : List A) → IsSorted cmp xs → sort_by cmp xs ≡ xs
  unfolding sort_by insert_sorted
  sort_by_of_IsSorted [] h = refl
  sort_by_of_IsSorted (x ∷ []) h = refl
  sort_by_of_IsSorted (x ∷ y ∷ ys) h = rw (sort_by_of_IsSorted (y ∷ ys) h.1) (ground (arith, h.0.0))

module _ {ℓ} {A : Type ℓ} {cmp : A → A → Ordering} (L : IsLawful cmp) where
  below-All :
      (x y : A) (ys : List A)
      → is_le (cmp x y) ≡ true
      → All (λ z. is_le (cmp y z) ≡ true) ys
      → All (λ z. is_le (cmp x z) ≡ true) ys
  below-All x y [] p h = tt
  below-All x y (z ∷ zs) p h = (le_trans L x y z p h.0, below-All x y zs p h.1)

  insert_sorted-IsSorted :
      (x : A) (xs : List A) → IsSorted cmp xs → IsSorted cmp (insert_sorted cmp x xs)
  unfolding insert_sorted
  insert_sorted-IsSorted x [] s = (tt, tt)
  insert_sorted-IsSorted x (y ∷ ys) s = elim (Bool-cases (is_le (cmp x y))) [
    | inl e ↦ rw e ((e, below-All x y ys e s.0), s)
    | inr e ↦ rw e (
      insert_sorted-All cmp (λ z. is_le (cmp y z) ≡ true) x ys (le_total L x y e) s.0,
      insert_sorted-IsSorted x ys s.1,
    )
  ]

  pub sort_by-IsSorted : (xs : List A) → IsSorted cmp (sort_by cmp xs)
  unfolding sort_by
  sort_by-IsSorted [] = tt
  sort_by-IsSorted (x ∷ xs) = insert_sorted-IsSorted x (sort_by cmp xs) (sort_by-IsSorted xs)

module _ {ℓ} {A : Type ℓ} {cmp : A → A → Ordering} (L : IsLawful cmp) where
  -- Items that the comparison tells apart can be inserted in either order.
  insert_sorted_comm :
      (x y : A) (zs : List A)
      → cmp x y ≢ Ordering.eq
      → insert_sorted cmp x (insert_sorted cmp y zs) ≡ insert_sorted cmp y (insert_sorted cmp x zs)
  unfolding insert_sorted
  insert_sorted_comm x y [] h = ground (arith, L.swap x y)
  insert_sorted_comm x y (z ∷ zs) h = ground (
    arith,
    insert_sorted_comm x y zs h,
    L.swap x y,
    L.swap y z,
    L.swap x z,
    le_trans L x y z,
    le_trans L y x z,
  )

  -- The comparison tells any two items of different positions apart.
  abbrev pub AreDistinct : List A → Type ℓ
  AreDistinct xs = Pairwise (λ x y. cmp x y ≢ Ordering.eq) xs

  swapped_apart : (x y : A) → cmp x y ≢ Ordering.eq → cmp y x ≢ Ordering.eq
  swapped_apart x y h e = h (ground (arith, L.swap x y))

  sort_by-permᴰ : {xs ys : List A} → Permᴰ xs ys → AreDistinct xs → sort_by cmp xs ≡ sort_by cmp ys
  unfolding sort_by
  sort_by-permᴰ Permᴰ.nil d = refl
  sort_by-permᴰ (Permᴰ.cons {b = b} e p) (Pairwise.cons _ d) =
      rw e (ap (insert_sorted cmp b) (sort_by-permᴰ p d))
  sort_by-permᴰ (Permᴰ.swap {a = a} {b = b} {l = l} e f) (Pairwise.cons apart _) =
      insert_sorted_comm a b (sort_by cmp l) (apart b mem-cons_self)
      ∙ (λ i. insert_sorted cmp (f i) (insert_sorted cmp (e i) (sort_by cmp l)))
  sort_by-permᴰ (Permᴰ.trans p q) d =
      sort_by-permᴰ p d ∙ sort_by-permᴰ q (Perm.pairwise (λ x y. ¬_prop) swapped_apart ∣ p ∣₁ d)

  -- The sorted list is a function of the items, whatever order they came in.
  pub sort_by_of_perm :
      IsSet A → {xs ys : List A} → Perm xs ys → AreDistinct xs → sort_by cmp xs ≡ sort_by cmp ys
  sort_by_of_perm s p d =
      let lists : IsSet (List A) = hlevel s in ∥∥₁_elim p (lists _ _) (λ q. sort_by-permᴰ q d)
