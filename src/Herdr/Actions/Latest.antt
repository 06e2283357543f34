-- ===== src/Herdr/Actions/Latest.antt =====
-- The guarded actions of a card are the last entries of their kinds.
use xeneon_edge_agents.Base.{
  ℕ, ◌≡◌, refl, sym, ap, ◌∙◌, Option, none, some, ◌==◌, if◌then◌else◌, and_then, or_else, arith,
  Option-cases, inl, inr,
}
use xeneon_edge_agents.Base.Map.{Map, lookup}
use xeneon_edge_agents.Model.{
  ActionCapability, ActionKind, AgentActions, action_kind_eq, no_actions,
}
use xeneon_edge_agents.Herdr.Json.{Json, Values, as_array}
use xeneon_edge_agents.Herdr.Actions.{
  capability_of, add_capability, add_entries, actions_from_extra,
}

-- The capability of the last entry of a kind.
unfoldable pub latest : ℕ → ActionKind → Values → Option ActionCapability
latest revision kind Values.no_values = none
latest revision kind (Values.value entry others) =
    or_else (latest revision kind others) (elim (capability_of revision entry) [
      | none ↦ none
      | some c ↦ if c.kind == kind then some c else none
    ])

-- The entries of a card, if they are an array.
unfoldable pub entries_of : Map Json → Values
entries_of extra = elim (and_then (lookup "actions" extra) as_array) [
  | none ↦ Values.no_values
  | some values ↦ values
]

or_else_assoc {ℓ} :
    {A : Type ℓ} (a b c : Option A) → or_else (or_else a b) c ≡ or_else a (or_else b c)
or_else_assoc none b c = refl
or_else_assoc (some x) b c = refl

add_capability-latest :
    (c : ActionCapability) (a : AgentActions)
    → ((add_capability c a).approve
        ≡ or_else (if c.kind == ActionKind.approve then some c else none) a.approve)
      × ((add_capability c a).interrupt
          ≡ or_else (if c.kind == ActionKind.interrupt then some c else none) a.interrupt)
unfolding add_capability
add_capability-latest c a = ground arith

module _ (revision : ℕ) (entry : Json) (others : Values) where
  add_entries-none :
      (a : AgentActions)
      → capability_of revision entry ≡ none
      → add_entries revision (Values.value entry others) a ≡ add_entries revision others a
  unfolding add_entries
  add_entries-none a e = rw (e, add_entries) refl

  add_entries-some :
      (a : AgentActions) (c : ActionCapability)
      → capability_of revision entry ≡ some c
      → add_entries revision (Values.value entry others) a
        ≡ add_entries revision others (add_capability c a)
  unfolding add_entries
  add_entries-some a c e = rw (e, add_entries) refl

  latest-none :
      (kind : ActionKind)
      → capability_of revision entry ≡ none
      → latest revision kind (Values.value entry others)
        ≡ or_else (latest revision kind others) none
  unfolding latest
  latest-none kind e = rw (e, latest) refl

  latest-some :
      (kind : ActionKind) (c : ActionCapability)
      → capability_of revision entry ≡ some c
      → latest revision kind (Values.value entry others)
        ≡ or_else (latest revision kind others) (if c.kind == kind then some c else none)
  unfolding latest
  latest-some kind c e = rw (e, latest) refl

no_values-latest :
    (revision : ℕ) (a : AgentActions)
    → ((add_entries revision Values.no_values a).approve
        ≡ or_else (latest revision ActionKind.approve Values.no_values) a.approve)
      × ((add_entries revision Values.no_values a).interrupt
          ≡ or_else (latest revision ActionKind.interrupt Values.no_values) a.interrupt)
unfolding add_entries latest
no_values-latest revision a = (refl, refl)

add_entries-latest :
    (revision : ℕ) (values : Values) (a : AgentActions)
    → ((add_entries revision values a).approve
        ≡ or_else (latest revision ActionKind.approve values) a.approve)
      × ((add_entries revision values a).interrupt
          ≡ or_else (latest revision ActionKind.interrupt values) a.interrupt)
add_entries-latest revision Values.no_values a = no_values-latest revision a
add_entries-latest revision (Values.value entry others) a =
    elim (Option-cases (capability_of revision entry)) [
      | inl e ↦
          let ih = add_entries-latest revision others a in
          rw
            (
              add_entries-none revision entry others a e,
              latest-none revision entry others ActionKind.approve e,
              latest-none revision entry others ActionKind.interrupt e,
            )
            (
              ih.0 ∙ sym (or_else_assoc (latest revision ActionKind.approve others) none a.approve),
              ih.1
                  ∙ sym (
                      or_else_assoc (latest revision ActionKind.interrupt others) none a.interrupt),
            )
      | inr (c, e) ↦
          let ih = add_entries-latest revision others (add_capability c a) in
          let own = add_capability-latest c a in
          rw
            (
              add_entries-some revision entry others a c e,
              latest-some revision entry others ActionKind.approve c e,
              latest-some revision entry others ActionKind.interrupt c e,
            )
            (
              ih.0
                  ∙ ap (or_else (latest revision ActionKind.approve others)) own.0
                  ∙ sym (or_else_assoc (latest revision ActionKind.approve others) _ a.approve),
              ih.1
                  ∙ ap (or_else (latest revision ActionKind.interrupt others)) own.1
                  ∙ sym (or_else_assoc (latest revision ActionKind.interrupt others) _ a.interrupt),
            )
    ]

or_else-none {ℓ} : {A : Type ℓ} (o : Option A) → or_else o none ≡ o
or_else-none none = refl
or_else-none (some x) = refl

-- A capability that is found has the kind that was looked for.
latest-kind :
    (revision : ℕ) (kind : ActionKind) (values : Values) (c : ActionCapability)
    → latest revision kind values ≡ some c
    → c.kind ≡ kind
unfolding latest
latest-kind revision kind Values.no_values c h = cc
latest-kind revision kind (Values.value entry others) c h =
    elim (Option-cases (capability_of revision entry)) [
      | inl e ↦
          ground
            (arith, latest-none revision entry others kind e, latest-kind revision kind others c)
      | inr (k, e) ↦
          ground
            (arith, latest-some revision entry others kind k e, latest-kind revision kind others c)
    ]

actions-entries :
    (extra : Map Json) (revision : ℕ)
    → actions_from_extra extra revision ≡ add_entries revision (entries_of extra) no_actions
unfolding actions_from_extra entries_of
actions-entries extra revision = go (and_then (lookup "actions" extra) as_array)
  where
    go :
        (found : Option Values)
        → (elim found [ none ↦ no_actions | some values ↦ add_entries revision values no_actions ])
          ≡ add_entries revision
              (elim found [ none ↦ Values.no_values | some values ↦ values ])
              no_actions
    go none = refl
    go (some _) = refl

-- The approval and the interruption that a Herdr card offers are those of the last well-formed
-- entries of their kinds.
pub actions_from_extra-latest :
    (extra : Map Json) (revision : ℕ)
    → ((actions_from_extra extra revision).approve
        ≡ latest revision ActionKind.approve (entries_of extra))
      × ((actions_from_extra extra revision).interrupt
          ≡ latest revision ActionKind.interrupt (entries_of extra))
actions_from_extra-latest extra revision =
    let entries = entries_of extra in
    let both = add_entries-latest revision entries no_actions in
    rw (actions-entries extra revision) (
      both.0 ∙ or_else-none (latest revision ActionKind.approve entries),
      both.1 ∙ or_else-none (latest revision ActionKind.interrupt entries),
    )

-- The capability that a card offers is of the action that it is offered for.
pub actions_from_extra-kind :
    (extra : Map Json) (revision : ℕ) (c : ActionCapability)
    → (((actions_from_extra extra revision).approve ≡ some c) → c.kind ≡ ActionKind.approve)
      × (((actions_from_extra extra revision).interrupt ≡ some c) → c.kind ≡ ActionKind.interrupt)
actions_from_extra-kind extra revision c =
    let entries = entries_of extra in
    let both = actions_from_extra-latest extra revision in
    (
      (λ h. latest-kind revision ActionKind.approve entries c (sym both.0 ∙ h)),
      (λ h. latest-kind revision ActionKind.interrupt entries c (sym both.1 ∙ h)),
    )
