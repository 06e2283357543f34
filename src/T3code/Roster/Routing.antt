-- ===== src/T3code/Roster/Routing.antt =====
-- The roster is bounded, its cards are numbered by their place, and each can be opened, and only
-- opened, on a thread whose id is the card's.
use xeneon_edge_agents.Base.{
  ℕ, zero, suc, ◌≤◌, ◌≡◌, refl, ap, String, true, false, Option, none, List, [], ◌∷◌, length, arith,
  All, string_eq,
}
use xeneon_edge_agents.Base.Map.{Map, insert}
use xeneon_edge_agents.Base.Routes.{Routes, insert-Routes, insert-Routes_self}
use xeneon_edge_agents.Model.{AgentView}
use xeneon_edge_agents.Model.Numbering.{IsNumbered}
use xeneon_edge_agents.T3code.Types.{T3codeTarget, session_name}
use xeneon_edge_agents.T3code.External.{External}
use xeneon_edge_agents.T3code.Rows.{ThreadRow}
use xeneon_edge_agents.T3code.Classify.{Classification}
use xeneon_edge_agents.T3code.Roster.{
  max_roster, opaque_agent_id, target_of, card_of, observation_from_rows,
}
use xeneon_edge_agents.T3code.Roster.Reference.{
  take, shown, cards, targets_onto, observation-reference,
}

-- A card that can be opened and nothing else.
abbrev pub OpensOnly : AgentView → Type 0
OpensOnly a =
    (a.session ≡ session_name)
    × (a.actions.can_open ≡ true)
    × (a.actions.can_zoom ≡ false)
    × (a.actions.approve ≡ none)
    × (a.actions.interrupt ≡ none)

length-take {ℓ} : {A : Type ℓ} (n : ℕ) (xs : List A) → length (take n xs) ≤ n
length-take zero xs = omega arith
length-take (suc n) [] = omega arith
length-take (suc n) (x ∷ xs) = omega (arith, length-take n xs)

module _ (X : External) (epoch : String) where
  -- The id of the card that a target opens.
  abbrev pub id_of : T3codeTarget → String
  id_of t = opaque_agent_id X epoch t.thread_id

  -- A card is routed when its target's thread has the card's id.
  abbrev pub IsRouted : Map T3codeTarget → AgentView → Type 0
  IsRouted m a = Routes id_of m a.id

  length-cards :
      (n : ℕ) (xs : List (ThreadRow × Classification)) → length (cards X epoch n xs) ≡ length xs
  unfolding cards
  length-cards n [] = refl
  length-cards n (x ∷ xs) = ap suc (length-cards (suc n) xs)

  cards-IsNumbered :
      (n : ℕ) (xs : List (ThreadRow × Classification)) → IsNumbered n (cards X epoch n xs)
  unfolding cards card_of
  cards-IsNumbered n [] = tt
  cards-IsNumbered n (x ∷ xs) = (refl, cards-IsNumbered (suc n) xs)

  cards-OpensOnly :
      (n : ℕ) (xs : List (ThreadRow × Classification)) → All OpensOnly (cards X epoch n xs)
  unfolding cards card_of
  cards-OpensOnly n [] = tt
  cards-OpensOnly n (x ∷ xs) = ((refl, refl, refl, refl, refl), cards-OpensOnly (suc n) xs)

  targets_onto-Routes :
      (xs : List (ThreadRow × Classification)) (m : Map T3codeTarget) (id : String)
      → Routes id_of m id
      → Routes id_of (targets_onto X epoch xs m) id
  unfolding targets_onto target_of
  targets_onto-Routes [] m id h = h
  targets_onto-Routes ((row, c) ∷ xs) m id h =
      let t = target_of X epoch row c in
      targets_onto-Routes xs (insert (id_of t) t m) id (insert-Routes id_of t m id h)

  cards-IsRouted :
      (n : ℕ) (xs : List (ThreadRow × Classification)) (m : Map T3codeTarget)
      → All (IsRouted (targets_onto X epoch xs m)) (cards X epoch n xs)
  unfolding cards targets_onto card_of target_of
  cards-IsRouted n [] m = tt
  cards-IsRouted n ((row, c) ∷ xs) m =
      let t = target_of X epoch row c in
      let m' = insert (id_of t) t m in
      (
        targets_onto-Routes xs m' (id_of t) (insert-Routes_self id_of t m),
        cards-IsRouted (suc n) xs m',
      )

  pub observation-bounded :
      (rows : List ThreadRow) (now : ℕ) (protocol sequence : Option ℕ)
      → (length (observation_from_rows X epoch rows now protocol sequence).agents ≤ max_roster)
        × IsNumbered 0 (observation_from_rows X epoch rows now protocol sequence).agents
  observation-bounded rows now protocol sequence =
      let first = take max_roster (shown X now rows) in
      rw (observation-reference X epoch rows now protocol sequence).0 (
        omega (arith, length-cards 0 first, length-take max_roster (shown X now rows)),
        cards-IsNumbered 0 first,
      )

  -- Every card of a T3 Code roster can be opened and offers no other action, and its id is that of
  -- a target whose thread has this id.
  pub observation-IsRouted :
      (rows : List ThreadRow) (now : ℕ) (protocol sequence : Option ℕ)
      → All OpensOnly (observation_from_rows X epoch rows now protocol sequence).agents
        × All
            (IsRouted (observation_from_rows X epoch rows now protocol sequence).targets)
            (observation_from_rows X epoch rows now protocol sequence).agents
  observation-IsRouted rows now protocol sequence =
      let first = take max_roster (shown X now rows) in
      let reference = observation-reference X epoch rows now protocol sequence in
      rw (reference.0, reference.1) (cards-OpensOnly 0 first, cards-IsRouted 0 first [])
