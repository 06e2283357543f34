-- ===== src/Desktop/Sessions/Hosting.antt =====
-- The window that `select_herdr_candidate` of crates/xeneon-agent-core/src/desktop.rs selects.
use mathlib.Core.List.{Mem, mem-cons_self, mem-cons_of_mem}
use xeneon_edge_agents.Base.{
  ◌≡◌, refl, ◌⊎◌, inl, inr, String, Bool, true, false, Option, none, some, List, [], ◌∷◌, ◌==◌,
  nat_eq, Bool-cases, option_eq, filter, any, is_none, Result, ok, err, ok_injective, subst, All,
  All-filter, All-imp, ◌&&◌, ◌||◌, if◌then◌else◌,
}
use xeneon_edge_agents.Base.Integers.{ℤ, int_eq}
use xeneon_edge_agents.Base.Chars.{to_ascii_lowercase}
use xeneon_edge_agents.Desktop.{HyprClient}
use xeneon_edge_agents.Desktop.Selection.{best_history, narrow}
use xeneon_edge_agents.Desktop.Processes.{
  Table, ProcessInfo, client_hosts_session_in, command_matches_session, is_descendant,
}
use xeneon_edge_agents.Desktop.Sessions.{
  hosting_clients, is_hinted, most_recent, most_recent_at, only, select_herdr_candidate,
}

module _ {ℓ} {A : Type ℓ} where
  All-Mem : (xs : List A) → All (λ x. Mem x xs) xs
  All-Mem [] = tt
  All-Mem (x ∷ xs) = (mem-cons_self, All-imp (λ y h. mem-cons_of_mem x h) xs (All-Mem xs))

  All-hold : (p : A → Bool) (xs : List A) → All (λ x. p x ≡ true) (filter p xs)
  All-hold p [] = tt
  All-hold p (x ∷ xs) = elim (Bool-cases (p x)) [
    | inl e ↦ rw e (e, All-hold p xs)
    | inr e ↦ rw e (All-hold p xs)
  ]

  kept-empty :
      (kept : Bool) (x : A) (xs : List A)
      → (if kept then x ∷ xs else xs) ≡ []
      → (kept ≡ false) × (xs ≡ [])
  kept-empty true x xs h = cc
  kept-empty false x xs h = (refl, h)

  filter-empty : (p : A → Bool) (xs : List A) → filter p xs ≡ [] → All (λ x. p x ≡ false) xs
  filter-empty p [] h = tt
  filter-empty p (x ∷ xs) h =
      let (e, k) = kept-empty (p x) x (filter p xs) h in (e, filter-empty p xs k)

  -- What is narrowed passes the test, or nothing did.
  All-narrow :
      (p : A → Bool) (xs : List A) → All (λ x. p x ≡ true) (narrow p xs) ⊎ All (λ x. p x ≡ false) xs
  All-narrow p xs = go (filter p xs) refl (All-hold p xs)
    where
      go :
          (ys : List A)
          → filter p xs ≡ ys
          → All (λ x. p x ≡ true) ys
          → All (λ x. p x ≡ true) (narrow p xs) ⊎ All (λ x. p x ≡ false) xs
      go [] e k = inr (filter-empty p xs e)
      go (y ∷ ys) e k = inl (rw e k)

  All-of_narrow {κ} : (P : A → Type κ) (p : A → Bool) (xs : List A) → All P xs → All P (narrow p xs)
  All-of_narrow P p xs h = go (filter p xs) refl (All-filter P p xs h)
    where
      go : (ys : List A) → filter p xs ≡ ys → All P ys → All P (narrow p xs)
      go [] e k = rw e h
      go (y ∷ ys) e k = rw e k

  any-found : (p : A → Bool) (xs : List A) → any p xs ≡ true → (x : A) × Mem x xs × (p x ≡ true)
  any-found p [] h = cc
  any-found p (x ∷ xs) h = go (p x) refl h (any-found p xs)
    where
      go :
          (b : Bool)
          → p x ≡ b
          → (b || any p xs) ≡ true
          → (any p xs ≡ true → (y : A) × Mem y xs × (p y ≡ true))
          → (y : A) × Mem y (x ∷ xs) × (p y ≡ true)
      go true e k f = (x, mem-cons_self, e)
      go false e k f = let (y, m, t) = f k in (y, mem-cons_of_mem x m, t)

both-true : (a b : Bool) → (a && b) ≡ true → (a ≡ true) × (b ≡ true)
both-true true b h = (refl, h)
both-true false b h = cc

passed-test {ℓ κ} :
    {A : Type ℓ} {E : Type κ} (failed : Bool) (e : E) (r : Result A E) (a : A)
    → (if failed then err e else r) ≡ ok a
    → r ≡ ok a
passed-test true e r a h = cc
passed-test false e r a h = h

module _ {κ} (P : HyprClient → Type κ) where
  All-only :
      (cs : List HyprClient) (message : String) (c : HyprClient)
      → only cs message ≡ ok c
      → All P cs
      → P c
  All-only [] message c h k = cc
  All-only (d ∷ []) message c h k = subst P (ok_injective h) k.0
  All-only (d ∷ e ∷ es) message c h k = cc

  All-most_recent_at :
      (session : String) (cs : List HyprClient) (best : Option ℤ) (c : HyprClient)
      → most_recent_at session cs best ≡ ok c
      → All P cs
      → P c
  All-most_recent_at session cs none c h k = cc
  All-most_recent_at session cs (some best) c h k =
      All-only _ _ c h (All-filter P (λ d. d.focus_history_id == some best) cs k)

  All-most_recent :
      (session : String) (cs : List HyprClient) (c : HyprClient)
      → most_recent session cs ≡ ok c
      → All P cs
      → P c
  unfolding most_recent
  All-most_recent session [] c h k = cc
  All-most_recent session (d ∷ []) c h k = subst P (ok_injective h) k.0
  All-most_recent session (d ∷ e ∷ es) c h k =
      All-most_recent_at session (d ∷ e ∷ es) (best_history (d ∷ e ∷ es)) c
        (passed-test (any (λ x. is_none x.focus_history_id) (d ∷ e ∷ es)) _ _ c h) k

-- A process of the table that descends from the client's and runs the session.
pub IsHost : Table → String → String → HyprClient → Type 0
unfolding is_descendant command_matches_session
IsHost table session socket_path c =
    (p : ℤ × ProcessInfo) × Mem p table
    × (is_descendant p.0 c.pid table ≡ true)
    × (command_matches_session p.1.command p.1.environment session socket_path ≡ true)

hosts-IsHost :
    (table : Table) (session socket_path : String) (c : HyprClient)
    → client_hosts_session_in c.pid session socket_path table ≡ true
    → IsHost table session socket_path c
unfolding client_hosts_session_in IsHost
hosts-IsHost table session socket_path c h =
    let (p, m, k) = any-found _ table h in
    let (descends, matches) = both-true _ _ k in (p, m, descends, matches)

module _ (clients : List HyprClient) (table : Table) (session socket_path hint : String)
    (c : HyprClient) where
  -- A window that is selected for a Herdr session is one of the compositor's, and a process that
  -- descends from the window's runs an interactive client of this session; where some hosting
  -- window shows the configured hint, the selected one does.
  pub select_herdr_candidate-IsHost :
      select_herdr_candidate clients table session socket_path hint ≡ ok c
      → Mem c clients
        × IsHost table session socket_path c
        × ((is_hinted (to_ascii_lowercase hint) c ≡ true)
            ⊎ All
                (λ d. is_hinted (to_ascii_lowercase hint) d ≡ false)
                (hosting_clients clients table session socket_path))
  unfolding select_herdr_candidate hosting_clients
  select_herdr_candidate-IsHost h =
      let hosting = hosting_clients clients table session socket_path in
      let hinted = is_hinted (to_ascii_lowercase hint) in
      let chosen = passed-test _ _ _ _ h in
      (
        All-most_recent (λ d. Mem d clients) session _ c chosen
            (All-of_narrow (λ d. Mem d clients) hinted hosting
              (All-filter _ _ clients (All-Mem clients))),
        hosts-IsHost table session socket_path c (
            All-most_recent (λ d. client_hosts_session_in d.pid session socket_path table ≡ true)
              session _ c chosen (All-of_narrow _ hinted hosting (All-hold _ clients))),
        elim (All-narrow hinted hosting) [
          | inl all ↦ inl (All-most_recent (λ d. hinted d ≡ true) session _ c chosen all)
          | inr none_hinted ↦ inr none_hinted
        ],
      )
