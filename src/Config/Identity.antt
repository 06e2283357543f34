-- ===== src/Config/Identity.antt =====
-- The guards on the screen (crates/xeneon-agent-core/src/config.rs) and what they mean.
use mathlib.Core.Option.{none-ne-some, some-injective}
use xeneon_edge_agents.Base.{
  ℕ, ◌≤◌, ◌≡◌, ◌⊎◌, inl, inr, refl, sym, ap₂, subst, ◌∙◌, String, false, Option, none, some, not,
  ◌&&◌, ◌==◌, ==_eq, ==_self, nat_eq, string_eq, option_eq, is_some, arith, Bool-cases,
}
use xeneon_edge_agents.Base.Text.{is_blank, trim-is_empty}
use xeneon_edge_agents.Config.{
  ScreenConfig, screen_default, is_given_blank, identity_fields, count_given,
}
use xeneon_edge_agents.Config.Valid.{IsIdentity}
use xeneon_edge_agents.Config.Guards.{identity_guards, or-false}

count_given-le : (o : Option String) → count_given o ≤ 1
count_given-le none = omega arith
count_given-le (some t) = omega arith

none_of_count : (o : Option String) → count_given o ≡ 0 → o ≡ none
none_of_count none h = refl
none_of_count (some t) h = ground arith

some_of_count : (o : Option String) → count_given o ≡ 1 → (t : String) × (o ≡ some t)
some_of_count none h = ground arith
some_of_count (some t) h = (t, refl)

screen-path :
    (s t : ScreenConfig)
    → s.connector ≡ t.connector
    → s.serial ≡ t.serial
    → s.model ≡ t.model
    → s.touch_device ≡ t.touch_device
    → s ≡ t
screen-path s t p q r u =
    λ i. record { connector = p i; serial = q i; model = r i; touch_device = u i }

-- A text that is given is not blank where its guard passes.
given-shown :
    (o : Option String) (t : String) → o ≡ some t → is_given_blank o ≡ false → is_blank t ≡ false
unfolding is_given_blank
given-shown none t e h = absurd (none-ne-some t e)
given-shown (some u) t e h =
    subst (λ x. is_blank x ≡ false) (some-injective u t e) (sym (trim-is_empty u) ∙ h)

-- All four fields of the screen, or none.
fields-cases :
    (s : ScreenConfig)
    → (not (identity_fields s == 0) && not (identity_fields s == 4)) ≡ false
    → (identity_fields s ≡ 0) ⊎ (identity_fields s ≡ 4)
fields-cases s h = elim (Bool-cases (identity_fields s == 0)) [
  | inl e ↦ inl (==_eq (identity_fields s) 0 e)
  | inr e ↦ inr (==_eq (identity_fields s) 4 (ground arith))
]

unnamed : (s : ScreenConfig) → identity_fields s ≡ 0 → s ≡ screen_default
unfolding identity_fields
unnamed s h =
    screen-path s screen_default (none_of_count s.connector (omega (arith, h)))
      (none_of_count s.serial (omega (arith, h))) (none_of_count s.model (omega (arith, h)))
      (none_of_count s.touch_device (omega (arith, h)))

given :
    (s : ScreenConfig)
    → identity_fields s ≡ 4
    → (count_given s.connector ≡ 1)
      × (count_given s.serial ≡ 1)
      × (count_given s.model ≡ 1)
      × (count_given s.touch_device ≡ 1)
unfolding identity_fields
given s h =
    let a = count_given-le s.connector in
    let b = count_given-le s.serial in
    let c = count_given-le s.model in
    let d = count_given-le s.touch_device in (omega arith, omega arith, omega arith, omega arith)

edge_absent :
    (edge : Option String) (n : ℕ) → (is_some edge && n == 0) ≡ false → n ≡ 0 → edge ≡ none
edge_absent none n h e = refl
edge_absent (some t) n h e = ground arith

edge_matches :
    (edge connector : Option String) (n : ℕ)
    → (n == 4 && not (edge == connector)) ≡ false
    → n ≡ 4
    → edge ≡ connector
edge_matches edge connector n h e = ==_eq edge connector (ground arith)

pub guards-IsIdentity :
    (s : ScreenConfig) (edge : Option String) → identity_guards s edge ≡ false → IsIdentity s edge
guards-IsIdentity s edge h =
    let fields = identity_fields s in
    let (matching, h₁) = or-false (fields == 4 && not (edge == s.connector)) _ h in
    let (required, h₂) = or-false (is_some edge && fields == 0) _ h₁ in
    let (edge_shown, h₃) = or-false (is_given_blank edge) _ h₂ in
    let (together, h₄) = or-false _ _ h₃ in
    let (touch, h₅) = or-false _ _ h₄ in
    let (model, h₆) = or-false _ _ h₅ in
    let (serial, connector) = or-false _ _ h₆ in
    elim (fields-cases s together) [
      | inl e ↦ inl (unnamed s e, edge_absent edge fields required e)
      | inr e ↦
          let (one, two, three, four) = given s e in
          let (a, is_a) = some_of_count s.connector one in
          let (b, is_b) = some_of_count s.serial two in
          let (c, is_c) = some_of_count s.model three in
          let (d, is_d) = some_of_count s.touch_device four in
          inr (record {
            connector = a;
            serial = b;
            model = c;
            touch_device = d;
            is_screen =
                screen-path s
                  (record {
                    connector = some a;
                    serial = some b;
                    model = some c;
                    touch_device = some d;
                  })
                  is_a is_b is_c is_d;
            is_edge = edge_matches edge s.connector fields matching e ∙ is_a;
            connector_shown = given-shown s.connector a is_a connector;
            serial_shown = given-shown s.serial b is_b serial;
            model_shown = given-shown s.model c is_c model;
            touch_device_shown = given-shown s.touch_device d is_d touch;
          })
    ]

unnamed-guards : identity_guards screen_default none ≡ false
unfolding is_given_blank identity_fields nat_eq
unnamed-guards = refl

commissioned-guards :
    (a b c d : String)
    → is_blank a ≡ false
    → is_blank b ≡ false
    → is_blank c ≡ false
    → is_blank d ≡ false
    → identity_guards
        (record { connector = some a; serial = some b; model = some c; touch_device = some d })
        (some a)
      ≡ false
unfolding is_given_blank identity_fields nat_eq
commissioned-guards a b c d p q r u =
    rw
      (
        trim-is_empty a ∙ p,
        trim-is_empty b ∙ q,
        trim-is_empty c ∙ r,
        trim-is_empty d ∙ u,
        ==_self (some a),
      )
      refl

pub identity-guards :
    (s : ScreenConfig) (edge : Option String) → IsIdentity s edge → identity_guards s edge ≡ false
identity-guards s edge (inl (p, q)) = ap₂ identity_guards p q ∙ unnamed-guards
identity-guards s edge (inr k) =
    ap₂ identity_guards k.is_screen k.is_edge
    ∙ commissioned-guards k.connector k.serial k.model k.touch_device k.connector_shown
        k.serial_shown k.model_shown k.touch_device_shown
