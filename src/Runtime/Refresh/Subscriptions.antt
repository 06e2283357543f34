-- ===== src/Runtime/Refresh/Subscriptions.antt =====
-- `update_subscription` of crates/xeneon-agent-core/src/runtime.rs and the abort of subscriptions.
pub mod Panes
pub mod Renewal
use xeneon_edge_agents.Base.{
  ℕ, String, Bool, true, false, not, ◌&&◌, Option, none, some, List, [], ◌∷◌, ◌==◌, string_eq,
  if◌then◌else◌, Result, ok, err,
}
use xeneon_edge_agents.Base.Compare.{str_cmp}
use xeneon_edge_agents.Base.Sort.{sort_by}
use xeneon_edge_agents.Base.Map.{Map, lookup, insert, remove}
use xeneon_edge_agents.Herdr.{SessionDescriptor}
use xeneon_edge_agents.Runtime.Services.{Services}

-- `Vec::dedup`: of equal neighbours the first stays.
unfoldable pub dedup : List String → List String
dedup [] = []
dedup (x ∷ []) = x ∷ []
dedup (x ∷ y ∷ rest) = let tail = dedup (y ∷ rest) in if x == y then tail else x ∷ tail

abbrev pub same_texts : List String → List String → Bool
same_texts [] [] = true
same_texts (x ∷ xs) (y ∷ ys) = x == y && same_texts xs ys
same_texts _ _ = false

module _ (S : Services) where
  pub record Subscription : Type 0 where
    pub pane_ids : List String
    pub handle : S.Handle

  abbrev pub abort_previous : Option Subscription → S.World → S.World
  abort_previous none w = w
  abort_previous (some previous) w = S.abort previous.handle w

  -- `if let Some(s) = subscriptions.remove(name) { s.handle.abort(); }`
  unfoldable pub drop_subscription :
      String → Map Subscription → S.World → Map Subscription × S.World
  drop_subscription name subscriptions w =
      (remove name subscriptions, abort_previous (lookup name subscriptions) w)

  abbrev pub is_current : Option Subscription → List String → S.World → Bool
  is_current none pane_ids w = false
  is_current (some s) pane_ids w = same_texts s.pane_ids pane_ids && not (S.is_finished s.handle w)

  unfoldable pub update_subscription :
      Map Subscription
      → SessionDescriptor
      → List String
      → S.World
      → Result Bool String × Map Subscription × S.World
  unfolding drop_subscription dedup sort_by str_cmp
  update_subscription subscriptions d raw_pane_ids w =
      let pane_ids = dedup (sort_by str_cmp raw_pane_ids) in
      let (kept, w') = drop_subscription d.name subscriptions w in
      let (handle, ready, w'') = S.spawn_subscription d pane_ids w' in
      let subscription : Subscription = record { pane_ids = pane_ids; handle = handle } in
      if is_current (lookup d.name subscriptions) pane_ids w
      then (ok false, subscriptions, w)
      else elim ready [
        | ok _ ↦ (ok true, insert d.name subscription kept, w'')
        | err message ↦ (err message, kept, S.abort handle w'')
      ]

  -- `for (_, subscription) in subscriptions.drain()`
  unfoldable pub drain : Map Subscription → S.World → Map Subscription × S.World
  drain [] w = ([], w)
  drain ((name, s) ∷ rest) w = drain rest (S.abort s.handle w)

  -- `subscriptions.retain(…)` with the abort of what is not kept.
  unfoldable pub retain_active :
      (String → Bool) → Map Subscription → S.World → Map Subscription × S.World
  retain_active active [] w = ([], w)
  retain_active active ((name, s) ∷ rest) w =
      let (kept, w') = retain_active active rest (if active name then w else S.abort s.handle w) in
      (if active name then (name, s) ∷ kept else kept, w')
