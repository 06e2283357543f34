-- ===== src/Runtime/Refresh/Subscriptions/Panes.antt =====
-- The panes of a subscription: the list that `update_subscription` of
-- crates/xeneon-agent-core/src/runtime.rs makes with `sort` and `dedup`.
use Prim.Native.Nat.{Ordering}
use xeneon_edge_agents.Base.{
  ◌≡◌, refl, sym, ◌∙◌, ap, inl, inr, String, Bool, true, false, ◌||◌, List, [], ◌∷◌, ◌==◌,
  string_eq, ==_eq, ==_self, arith, Bool-cases, any, All, All-imp,
}
use xeneon_edge_agents.Base.Compare.{str_cmp, str_cmp-IsLawful, eq_of_str_cmp, is_le}
use xeneon_edge_agents.Base.Sort.{sort_by, insert_sorted, IsSorted, sort_by-IsSorted}
use xeneon_edge_agents.Runtime.Refresh.Subscriptions.{dedup}

abbrev pub contains : List String → String → Bool
contains xs p = any (λ x. x == p) xs

-- Every text is below all that follow it, so none stands twice.
abbrev pub IsAscending : List String → Type 0
IsAscending [] = Unit
IsAscending (x ∷ xs) = All (λ y. str_cmp x y ≡ Ordering.lt) xs × IsAscending xs

-- Each list holds the texts of the other.
abbrev pub IsSameSet : List String → List String → Type 0
IsSameSet xs ys = All (λ p. contains ys p ≡ true) xs × All (λ p. contains xs p ≡ true) ys

-- The panes asked for: each once, and sorted.
abbrev pub IsPaneList : List String → List String → Type 0
IsPaneList asked panes = IsAscending panes × IsSameSet asked panes

contains-insert_sorted :
    (x : String) (xs : List String) (p : String)
    → contains (insert_sorted str_cmp x xs) p ≡ ((x == p) || contains xs p)
unfolding insert_sorted
contains-insert_sorted x [] p = refl
contains-insert_sorted x (y ∷ ys) p = ground (arith, contains-insert_sorted x ys p)

contains-sort_by : (xs : List String) (p : String) → contains (sort_by str_cmp xs) p ≡ contains xs p
unfolding sort_by
contains-sort_by [] p = refl
contains-sort_by (x ∷ xs) p =
    contains-insert_sorted x (sort_by str_cmp xs) p
    ∙ ap (λ b. (x == p) || b) (contains-sort_by xs p)

contains_twice :
    (x : String) (xs : List String) (p : String) → contains (x ∷ x ∷ xs) p ≡ contains (x ∷ xs) p
contains_twice x xs p = ground arith

contains-dedup : (xs : List String) (p : String) → contains (dedup xs) p ≡ contains xs p
unfolding dedup
contains-dedup [] p = refl
contains-dedup (x ∷ []) p = refl
contains-dedup (x ∷ y ∷ rest) p = elim (Bool-cases (x == y)) [
  | inl same ↦
      rw same (contains-dedup (y ∷ rest) p ∙ rw⁻¹ (==_eq x y same) (sym (contains_twice x rest p)))
  | inr differs ↦ rw differs (ap (λ b. (x == p) || b) (contains-dedup (y ∷ rest) p))
]

dedup-All {κ} : (P : String → Type κ) (xs : List String) → All P xs → All P (dedup xs)
unfolding dedup
dedup-All P [] h = h
dedup-All P (x ∷ []) h = h
dedup-All P (x ∷ y ∷ rest) h = elim (Bool-cases (x == y)) [
  | inl same ↦ rw same (dedup-All P (y ∷ rest) h.1)
  | inr differs ↦ rw differs (h.0, dedup-All P (y ∷ rest) h.1)
]

below :
    (x y z : String)
    → str_cmp x y ≡ Ordering.lt
    → is_le (str_cmp y z) ≡ true
    → str_cmp x z ≡ Ordering.lt
below x y z = ground (
  arith,
  str_cmp-IsLawful.lt_trans x y z,
  str_cmp-IsLawful.eq_left y z x,
  str_cmp-IsLawful.swap x y,
  str_cmp-IsLawful.swap x z,
)

equal : (x y : String) → str_cmp x y ≡ Ordering.eq → (x == y) ≡ true
equal x y e = rw (eq_of_str_cmp x y e) (==_self y)

apart : (x y : String) → (x == y) ≡ false → is_le (str_cmp x y) ≡ true → str_cmp x y ≡ Ordering.lt
apart x y differs le = ground (arith, equal x y, differs, le)

dedup-IsAscending : (xs : List String) → IsSorted str_cmp xs → IsAscending (dedup xs)
unfolding dedup
dedup-IsAscending [] s = tt
dedup-IsAscending (x ∷ []) s = (tt, tt)
dedup-IsAscending (x ∷ y ∷ rest) s = elim (Bool-cases (x == y)) [
  | inl same ↦ rw same (dedup-IsAscending (y ∷ rest) s.1)
  | inr differs ↦
      let first = apart x y differs s.0.0 in
      rw differs (
        dedup-All (λ z. str_cmp x z ≡ Ordering.lt) (y ∷ rest)
            (first, All-imp (λ z. below x y z first) rest s.1.0),
        dedup-IsAscending (y ∷ rest) s.1,
      )
]

contains_self : (xs : List String) → All (λ p. contains xs p ≡ true) xs
contains_self [] = tt
contains_self (x ∷ xs) =
    (rw (==_self x) refl, All-imp (λ p h. ground (arith, h)) xs (contains_self xs))

pub sorted_panes-IsPaneList :
    (asked : List String) → IsPaneList asked (dedup (sort_by str_cmp asked))
sorted_panes-IsPaneList asked =
    let panes = dedup (sort_by str_cmp asked) in
    let same : (p : String) → contains panes p ≡ contains asked p =
      λ p. contains-dedup (sort_by str_cmp asked) p ∙ contains-sort_by asked p in
    (
      dedup-IsAscending (sort_by str_cmp asked) (sort_by-IsSorted str_cmp-IsLawful asked),
      (
        All-imp (λ p h. same p ∙ h) asked (contains_self asked),
        All-imp (λ p h. sym (same p) ∙ h) panes (contains_self panes),
      ),
    )
