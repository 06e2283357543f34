-- ===== src/Runtime/Refresh/Subscriptions/Renewal.antt =====
-- Which panes a session's subscription covers after `update_subscription` of
-- crates/xeneon-agent-core/src/runtime.rs.
use xeneon_edge_agents.Base.{
  ◌≡◌, sym, Result, ◌≢◌, ◌⊎◌, refl, ap₂, subst, inl, inr, String, Bool, true, false, none, some,
  List, [], ◌∷◌, ◌==◌, string_eq, ==_eq, ==_ne, ==_self, arith, Bool-cases, Option-cases,
  Result-cases, ok, err,
}
use xeneon_edge_agents.Base.Compare.{str_cmp}
use xeneon_edge_agents.Base.Sort.{sort_by}
use xeneon_edge_agents.Base.Map.{Map, lookup, remove, lookup-insert, lookup-remove}
use xeneon_edge_agents.Herdr.{SessionDescriptor}
use xeneon_edge_agents.Runtime.Services.{Services}
use xeneon_edge_agents.Runtime.Refresh.Subscriptions.Panes.{IsPaneList, sorted_panes-IsPaneList}
use xeneon_edge_agents.Runtime.Refresh.Subscriptions.{
  Subscription, same_texts, is_current, dedup, abort_previous, drop_subscription,
  update_subscription,
}

same_texts-eq : (xs ys : List String) → same_texts xs ys ≡ true → xs ≡ ys
same_texts-eq [] [] h = refl
same_texts-eq [] (y ∷ ys) h = ground arith
same_texts-eq (x ∷ xs) [] h = ground arith
same_texts-eq (x ∷ xs) (y ∷ ys) h = elim (Bool-cases (x == y)) [
  | inl same ↦ ap₂ ◌∷◌ (==_eq x y same) (same_texts-eq xs ys (ground arith))
  | inr differ ↦ ground arith
]

module _ (S : Services) where
  abbrev sorted_panes : List String → List String
  sorted_panes panes = dedup (sort_by str_cmp panes)

  abbrev new_subscription :
      Map (Subscription S) → SessionDescriptor → List String → S.World → Subscription S
  new_subscription subscriptions d panes w = record {
    pane_ids = sorted_panes panes;
    handle =
        (S.spawn_subscription d (sorted_panes panes)
          (drop_subscription S d.name subscriptions w).1).0;
  }

  update_of_other :
      (subscriptions : Map (Subscription S)) (d : SessionDescriptor) (panes : List String)
      (w : S.World) (name : String)
      → d.name ≢ name
      → lookup name (update_subscription S subscriptions d panes w).1 ≡ lookup name subscriptions
  unfolding update_subscription drop_subscription
  update_of_other subscriptions d panes w name other = ground (
    arith,
    lookup-remove d.name name subscriptions,
    lookup-insert d.name name (new_subscription subscriptions d panes w)
        (remove d.name subscriptions),
    ==_ne d.name name other,
  )

  -- The own subscription afterwards. One that stays runs, covers the panes, and nothing else has
  -- happened. A new one has replaced the old one, which was aborted, and was acknowledged. One that
  -- is not acknowledged is aborted as well, and there is none.
  abbrev pub Outcome :
      Map (Subscription S)
      → SessionDescriptor
      → List String
      → S.World
      → String
      → Result Bool String × Map (Subscription S) × S.World
      → Type 0
  Outcome subscriptions d asked w name r =
      ((s : Subscription S) × (r ≡ (ok false, subscriptions, w))
        × (lookup name subscriptions ≡ some s)
        × (S.is_finished s.handle w ≡ false)
        × IsPaneList asked s.pane_ids)
      ⊎ ((panes : List String) × (s : Subscription S) × IsPaneList asked panes
          × (s.pane_ids ≡ panes)
          × (let spawned =
                S.spawn_subscription d panes (abort_previous S (lookup name subscriptions) w) in
              (s.handle ≡ spawned.0)
              × (((r.0 ≡ ok true)
                    × (spawned.1 ≡ ok tt)
                    × (lookup name r.1 ≡ some s)
                    × (r.2 ≡ spawned.2))
                  ⊎ ((message : String) × (r.0 ≡ err message)
                      × (spawned.1 ≡ err message)
                      × (lookup name r.1 ≡ none)
                      × (r.2 ≡ S.abort s.handle spawned.2)))))

  stays :
      (subscriptions : Map (Subscription S)) (d : SessionDescriptor) (asked : List String)
      (w : S.World)
      → is_current S (lookup d.name subscriptions) (sorted_panes asked) w ≡ true
      → Outcome subscriptions d asked w d.name (update_subscription S subscriptions d asked w)
  unfolding update_subscription
  stays subscriptions d asked w current = elim (Option-cases (lookup d.name subscriptions)) [
    | inl absent ↦ ground arith
    | inr (s, present) ↦ inl (
      s,
      rw (update_subscription, current) refl,
      present,
      ground arith,
      subst (IsPaneList asked) (sym (same_texts-eq s.pane_ids (sorted_panes asked) (ground arith)))
          (sorted_panes-IsPaneList asked),
    )
  ]

  renews :
      (subscriptions : Map (Subscription S)) (d : SessionDescriptor) (asked : List String)
      (w : S.World)
      → is_current S (lookup d.name subscriptions) (sorted_panes asked) w ≡ false
      → Outcome subscriptions d asked w d.name (update_subscription S subscriptions d asked w)
  unfolding update_subscription drop_subscription
  renews subscriptions d asked w renewal =
      let s = new_subscription subscriptions d asked w in
      inr (
        sorted_panes asked,
        s,
        sorted_panes-IsPaneList asked,
        refl,
        (
          refl,
          elim (Result-cases
              (S.spawn_subscription d (sorted_panes asked)
                (drop_subscription S d.name subscriptions w).1).1) [
                  | inl (_, ready) ↦ inl (
                    ground (arith, renewal, ready),
                    ready,
                    ground (
                      arith,
                      renewal,
                      ready,
                      lookup-insert d.name d.name s (remove d.name subscriptions),
                      ==_self d.name,
                    ),
                    ground (arith, renewal, ready),
                  )
                  | inr (message, refused) ↦ inr (
                    message,
                    ground (arith, renewal, refused),
                    refused,
                    ground (
                      arith,
                      renewal,
                      refused,
                      lookup-remove d.name d.name subscriptions,
                      ==_self d.name,
                    ),
                    ground (arith, renewal, refused),
                  )
                ],
        ),
      )

  -- `update_subscription` leaves the other sessions' subscriptions alone. A subscription of the
  -- session that it keeps is not finished, and then nothing has happened. Otherwise the old one
  -- was aborted and one was started; it is the session's where it was acknowledged, and where it
  -- was refused it is aborted and the session has none. The subscription that is kept or started
  -- covers the panes asked for: those and no others, in ascending order, so each once.
  pub update_subscription_lem :
      (subscriptions : Map (Subscription S)) (d : SessionDescriptor) (asked : List String)
      (w : S.World) (name : String)
      → let r = update_subscription S subscriptions d asked w in
        ((d.name ≢ name) × (lookup name r.1 ≡ lookup name subscriptions))
        ⊎ ((d.name ≡ name) × Outcome subscriptions d asked w name r)
  update_subscription_lem subscriptions d asked w name = elim (string_eq.dec d.name name) [
    | no other ↦ inl (other, update_of_other subscriptions d asked w name other)
    | yes own ↦ inr (
      own,
      subst (λ n. Outcome subscriptions d asked w n (update_subscription S subscriptions d asked w))
          own
          (elim (Bool-cases (is_current S (lookup d.name subscriptions) (sorted_panes asked) w)) [
            | inl current ↦ stays subscriptions d asked w current
            | inr renewal ↦ renews subscriptions d asked w renewal
          ]),
    )
  ]
