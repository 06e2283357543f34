-- ===== src/T3code/Roster/Reference.antt =====
-- The roster by its description: the cards are those of the first 64 threads that are shown, in
-- their order, and the targets are what opens them.
use mathlib.Core.List.{append-nil, append_assoc}
use xeneon_edge_agents.Base.{
  ℕ, zero, suc, ◌+◌, ◌≡◌, refl, ap, sym, ◌∙◌, String, true, false, Option, none, some, List, [],
  ◌∷◌, ◌++◌, length, leb, arith, length-append, Option-cases, inl, inr, string_eq,
}
use xeneon_edge_agents.Base.Map.{Map, insert}
use xeneon_edge_agents.Model.{AgentView}
use xeneon_edge_agents.T3code.Types.{T3codeTarget}
use xeneon_edge_agents.T3code.External.{External}
use xeneon_edge_agents.T3code.Rows.{ThreadRow}
use xeneon_edge_agents.T3code.Classify.{Classification, classify}
use xeneon_edge_agents.T3code.Roster.{
  Roster, empty_roster, max_roster, opaque_agent_id, target_of, card_of, add_row, gather,
  observation_from_rows,
}

abbrev pub take {ℓ} : {A : Type ℓ} → ℕ → List A → List A
take zero xs = []
take (suc n) [] = []
take (suc n) (x ∷ xs) = x ∷ take n xs

module _ (X : External) where
  -- The threads that are shown, with their classification.
  unfoldable pub shown : ℕ → List ThreadRow → List (ThreadRow × Classification)
  shown now [] = []
  shown now (row ∷ rows) =
      let rest = shown now rows in
      elim (classify X row now) [ none ↦ rest | some c ↦ (row, c) ∷ rest ]

module _ (X : External) (epoch : String) where
  -- Their cards, numbered from a position on.
  unfoldable pub cards : ℕ → List (ThreadRow × Classification) → List AgentView
  cards n [] = []
  cards n ((row, c) ∷ others) = card_of X epoch row c n ∷ cards (suc n) others

  unfoldable pub targets_onto :
      List (ThreadRow × Classification) → Map T3codeTarget → Map T3codeTarget
  targets_onto [] m = m
  targets_onto ((row, c) ∷ others) m =
      targets_onto others
        (insert (opaque_agent_id X epoch row.thread_id) (target_of X epoch row c) m)

  gather_full :
      (now : ℕ) (rows : List ThreadRow) (r : Roster)
      → leb max_roster (length r.agents) ≡ true
      → gather X epoch now rows r ≡ r
  unfolding gather
  gather_full now [] r h = refl
  gather_full now (row ∷ rows) r h = rw h refl

  gather_hidden :
      (now : ℕ) (row : ThreadRow) (rows : List ThreadRow) (r : Roster)
      → leb max_roster (length r.agents) ≡ false
      → classify X row now ≡ none
      → gather X epoch now (row ∷ rows) r ≡ gather X epoch now rows r
  unfolding gather
  gather_hidden now row rows r h e = rw (h, e) refl

  gather_shown :
      (now : ℕ) (row : ThreadRow) (rows : List ThreadRow) (r : Roster) (c : Classification)
      → leb max_roster (length r.agents) ≡ false
      → classify X row now ≡ some c
      → gather X epoch now (row ∷ rows) r ≡ gather X epoch now rows (add_row X epoch row c r)
  unfolding gather
  gather_shown now row rows r c h e = rw (h, e) refl

  shown_hidden :
      (now : ℕ) (row : ThreadRow) (rows : List ThreadRow)
      → classify X row now ≡ none
      → shown X now (row ∷ rows) ≡ shown X now rows
  unfolding shown
  shown_hidden now row rows e = rw (e, shown) refl

  shown_shown :
      (now : ℕ) (row : ThreadRow) (rows : List ThreadRow) (c : Classification)
      → classify X row now ≡ some c
      → shown X now (row ∷ rows) ≡ (row, c) ∷ shown X now rows
  unfolding shown
  shown_shown now row rows c e = rw (e, shown) refl

  count :
      (row : ThreadRow) (c : Classification) (r : Roster) (left : ℕ)
      → length r.agents + suc left ≡ max_roster
      → length (add_row X epoch row c r).agents + left ≡ max_roster
  unfolding add_row
  count row c r left h =
      omega (arith, length-append r.agents (card_of X epoch row c (length r.agents) ∷ []))

  -- One card more, at the end, numbered by the cards before it.
  cards_after :
      (row : ThreadRow) (c : Classification) (r : Roster)
      (others : List (ThreadRow × Classification))
      → (add_row X epoch row c r).agents ++ cards (length (add_row X epoch row c r).agents) others
        ≡ r.agents ++ cards (length r.agents) ((row, c) ∷ others)
  unfolding add_row cards
  cards_after row c r others =
      let card = card_of X epoch row c (length r.agents) in
      ap (λ n. (r.agents ++ (card ∷ [])) ++ cards n others)
        (omega (arith, length-append r.agents (card ∷ [])))
      ∙ append_assoc r.agents (card ∷ []) (cards (suc (length r.agents)) others)

  gather_none :
      (now : ℕ) (r : Roster) (left : ℕ)
      → ((gather X epoch now [] r).agents
          ≡ r.agents ++ cards (length r.agents) (take (suc left) (shown X now [])))
        × ((gather X epoch now [] r).targets
            ≡ targets_onto (take (suc left) (shown X now [])) r.targets)
  unfolding gather shown cards targets_onto
  gather_none now r left = (sym (append-nil r.agents), refl)

  gather-reference :
      (now : ℕ) (rows : List ThreadRow) (r : Roster) (left : ℕ)
      → length r.agents + left ≡ max_roster
      → ((gather X epoch now rows r).agents
          ≡ r.agents ++ cards (length r.agents) (take left (shown X now rows)))
        × ((gather X epoch now rows r).targets
            ≡ targets_onto (take left (shown X now rows)) r.targets)
  unfolding cards targets_onto insert add_row
  gather-reference now rows r zero h =
      rw (gather_full now rows r (ground arith)) (sym (append-nil r.agents), refl)
  gather-reference now [] r (suc left) h = gather_none now r left
  gather-reference now (row ∷ rows) r (suc left) h = elim (Option-cases (classify X row now)) [
    | inl e ↦
        rw (gather_hidden now row rows r (ground arith) e, shown_hidden now row rows e)
          (gather-reference now rows r (suc left) h)
    | inr (c, e) ↦
        let ih = gather-reference now rows (add_row X epoch row c r) left (count row c r left h) in
        rw (gather_shown now row rows r c (ground arith) e, shown_shown now row rows c e)
          (ih.0 ∙ cards_after row c r (take left (shown X now rows)), ih.1)
  ]

  -- The loop over the rows of T3 Code gives the cards of the first 64 threads that are shown, in
  -- their order and numbered by it, and the targets of just these threads.
  pub observation-reference :
      (rows : List ThreadRow) (now : ℕ) (protocol sequence : Option ℕ)
      → ((observation_from_rows X epoch rows now protocol sequence).agents
          ≡ cards 0 (take max_roster (shown X now rows)))
        × ((observation_from_rows X epoch rows now protocol sequence).targets
            ≡ targets_onto (take max_roster (shown X now rows)) [])
  unfolding observation_from_rows
  observation-reference rows now protocol sequence =
      gather-reference now rows empty_roster max_roster refl
