-- ===== src/Config/Guards.antt =====
-- The chain of guards of `Config::validate` (crates/xeneon-agent-core/src/config.rs) as one test.
use xeneon_edge_agents.Base.{
  ◌≡◌, ◌↔◌, refl, String, Bool, true, false, Option, not, ◌&&◌, ◌||◌, ◌==◌, nat_eq, string_eq,
  option_eq, is_some, Result, ok, err, ◌>>◌, bail_if,
}
use xeneon_edge_agents.Base.Text.{is_empty, trim}
use xeneon_edge_agents.Config.{
  Config, ScreenConfig, validate, is_given_blank, is_given_empty, identity_fields,
  intervals_too_short,
}

-- A chain of guards passes exactly where none of its tests holds.
guard_first : (a : Bool) (e : String) → (bail_if a e ≡ ok tt) ↔ (a ≡ false)
guard_first true e = (λ h. cc, λ h. cc)
guard_first false e = (λ h. refl, λ h. refl)

guard_next :
    (m : Result (Unit {0}) String) (a b : Bool) (e : String)
    → (m ≡ ok tt) ↔ (a ≡ false)
    → ((m >> bail_if b e) ≡ ok tt) ↔ ((b || a) ≡ false)
guard_next (ok tt) a true e h = (λ p. cc, λ p. cc)
guard_next (ok tt) a false e h = (λ p. h.0 refl, λ p. refl)
guard_next (err x) a true e h = (λ p. cc, λ p. cc)
guard_next (err x) a false e h = (λ p. cc, λ p. h.1 p)

-- The guards on the screen, and all of them, the last one first.
infixr 20 ◌or◌
abbrev pub ◌or◌ : Bool → Bool → Bool
a or b = a || b

abbrev pub identity_guards : ScreenConfig → Option String → Bool
identity_guards s edge =
    (identity_fields s == 4 && not (edge == s.connector))
    or (is_some edge && identity_fields s == 0)
    or is_given_blank edge
    or (not (identity_fields s == 0) && not (identity_fields s == 4))
    or is_given_blank s.touch_device
    or is_given_blank s.model
    or is_given_blank s.serial
    or is_given_blank s.connector

abbrev pub guards : Config → Bool
guards c =
    is_given_empty c.t3code.home
    or intervals_too_short c
    or is_empty (trim c.desktop.herdr_class)
    or is_empty c.voxtype_bin
    or is_empty c.herdr_bin
    or identity_guards c.screen c.desktop.edge_output

pub validate-guards : (c : Config) → (validate c ≡ ok tt) ↔ (guards c ≡ false)
unfolding validate
validate-guards c = guard_next _ _ _ _ (
    guard_next _ _ _ _ (
      guard_next _ _ _ _ (
        guard_next _ _ _ _ (
          guard_next _ _ _ _ (
            guard_next _ _ _ _ (
              guard_next _ _ _ _ (
                guard_next _ _ _ _ (
                  guard_next _ _ _ _ (
                    guard_next _ _ _ _
                      (guard_next _ _ _ _ (guard_next _ _ _ _ (guard_first _ _))))))))))))

pub or-false : (a b : Bool) → (a or b) ≡ false → (a ≡ false) × (b ≡ false)
or-false true b h = cc
or-false false b h = (refl, h)

pub false-or : (a b : Bool) → a ≡ false → b ≡ false → (a or b) ≡ false
false-or true b h k = cc
false-or false b h k = k
