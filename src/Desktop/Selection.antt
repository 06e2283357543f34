-- ===== src/Desktop/Selection.antt =====
-- `select_desktop_candidate` of crates/xeneon-agent-core/src/desktop.rs: the one window to focus, or
-- a refusal to guess.
use xeneon_edge_agents.Base.{
  ℕ, String, Bool, Option, none, some, List, [], ◌∷◌, ◌<>◌, not, ◌&&◌, ◌||◌, ◌==◌, nat_eq,
  string_eq, option_eq, leb, if◌then◌else◌, any, filter, length, is_none, Result, ok, err,
}
use xeneon_edge_agents.Base.Integers.{ℤ, le_int, int_eq}
use xeneon_edge_agents.Base.Text.{is_empty}
use xeneon_edge_agents.Base.Chars.{to_ascii_lowercase, strip_prefix, all_chars}
use xeneon_edge_agents.Desktop.{HyprClient, DesktopAppSpec}

-- `str::eq_ignore_ascii_case`
unfoldable pub eq_ignore_ascii_case : String → String → Bool
unfolding to_ascii_lowercase
eq_ignore_ascii_case s t = to_ascii_lowercase s == to_ascii_lowercase t

unfoldable pub desktop_candidates : List HyprClient → DesktopAppSpec → List HyprClient
unfolding eq_ignore_ascii_case
desktop_candidates clients spec =
    filter
      (λ c.
        eq_ignore_ascii_case c.class spec.class || eq_ignore_ascii_case c.initial_class spec.class)
      clients

abbrev pub first {ℓ} : {A : Type ℓ} → List A → Option A
first [] = none
first (x ∷ xs) = some x

abbrev unless_empty {ℓ} : {A : Type ℓ} → List A → List A → List A
unless_empty [] xs = xs
unless_empty (k ∷ ks) xs = k ∷ ks

-- Those that pass a test, unless none does.
abbrev pub narrow {ℓ} : {A : Type ℓ} → (A → Bool) → List A → List A
narrow p xs = unless_empty (filter p xs) xs

-- The least history number.
unfoldable pub best_history : List HyprClient → Option ℤ
unfolding le_int
best_history [] = none
best_history (c ∷ cs) =
    let rest = best_history cs in
    elim c.focus_history_id [
      | none ↦ rest
      | some n ↦ elim rest [ none ↦ some n | some m ↦ if le_int n m then some n else some m ]
    ]

-- The last checks, on the focus history.
unfoldable pub select_recent : List HyprClient → DesktopAppSpec → Result (Option HyprClient) String
unfolding best_history
select_recent candidates spec =
    let ambiguous =
      "ambiguous " <> spec.class
      <> " desktop clients after title, tiling, and focus-history checks" in
    if any (λ c. is_none c.focus_history_id) candidates
    then err "desktop candidates lack complete focus history"
    else elim (best_history candidates) [
      | none ↦ err ambiguous
      | some best ↦
          let recent = filter (λ c. c.focus_history_id == some best) candidates in
          if length recent == 1 then ok (first recent) else err ambiguous
    ]

unfoldable pub select_desktop_candidate :
    List HyprClient → DesktopAppSpec → Result (Option HyprClient) String
unfolding desktop_candidates eq_ignore_ascii_case select_recent
select_desktop_candidate clients spec =
    let candidates = desktop_candidates clients spec in
    let titled = narrow (λ c. eq_ignore_ascii_case c.initial_title spec.main_title) candidates in
    let tiled = narrow (λ c. not c.floating) titled in
    if leb (length candidates) 1
    then ok (first candidates)
    else if length titled == 1
    then ok (first titled)
    else if length tiled == 1
    then ok (first tiled)
    else select_recent tiled spec

abbrev is_hex_digit : ℕ → Bool
is_hex_digit c = (leb 48 c && leb c 57) || (leb 65 c && leb c 70) || (leb 97 c && leb c 102)

unfoldable pub focus_expression : String → Result String String
unfolding strip_prefix all_chars
focus_expression address = elim (strip_prefix "0x" address) [
  | none ↦ err "Hyprland window address lacks 0x prefix"
  | some hex ↦
      if is_empty hex || not (all_chars is_hex_digit hex)
      then err "Hyprland window address is not hexadecimal"
      else ok ("hl.dsp.focus({ window = \"address:" <> address <> "\" })")
]
