-- ===== src/Config/Connector.antt =====
-- The connector that the environment names goes into a valid configuration and keeps it valid; the
-- daemon's intervals are those that a valid configuration names.
use Prim.Native.Char.{code}
use xeneon_edge_agents.Base.{
  ℕ, ◌≡◌, ◌≢◌, inl, inr, refl, sym, ap, subst, ◌∙◌, String, true, false, some, not, ◌||◌, is_none,
  ok, then-ok, bail_if-ok, ok_injective, arith, nat_eq,
}
use xeneon_edge_agents.Base.Text.{is_empty, is_blank, is_whitespace}
use xeneon_edge_agents.Base.Chars.{all_chars, is_ascii_alphanumeric}
use xeneon_edge_agents.Config.{
  Config, Output, ScreenConfig, apply_runtime_output, is_output_char, herdr_refresh_interval,
  health_refresh_interval, voice_refresh_interval, usage_refresh_interval, micro_refresh_interval,
  t3code_refresh_interval,
}
use xeneon_edge_agents.Config.Valid.{IsValid, IsIdentity}

-- The screen with another connector.
abbrev reconnect : String → ScreenConfig → ScreenConfig
reconnect o s = record s { connector = some o }

true_not_false : true ≢ false
true_not_false p = cc

output_char-shown : (c : ℕ) → is_output_char c ≡ true → is_whitespace c ≡ false
unfolding is_output_char is_whitespace is_ascii_alphanumeric
output_char-shown c h = ground arith

output-shown :
    (o : String) → is_empty o ≡ false → all_chars is_output_char o ≡ true → is_blank o ≡ false
unfolding all_chars
output-shown String.[] h k = cc
output-shown (String.◌∷◌ c s) h k = ground (arith, output_char-shown (code c))

-- What an output that is taken has passed.
named-ok :
    (o : String) (c c' : Config)
    → apply_runtime_output (Output.named o) c ≡ ok c'
    → (is_blank o ≡ false)
      × (is_none c.screen.serial ≡ false)
      × (record c {
        screen = record (c.screen) { connector = some o };
        desktop = record (c.desktop) { edge_output = some o };
      }
          ≡ c')
unfolding apply_runtime_output
named-ok o c c' h =
    let (tests, made) = then-ok _ _ c' h in
    let (safe, known) = then-ok _ _ tt tests in
    let unsafe = bail_if-ok (is_empty o || not (all_chars is_output_char o)) _ safe in
    let missing =
      bail_if-ok
        (is_none c.screen.serial || is_none c.screen.model || is_none c.screen.touch_device) _
        known in
    (output-shown o (ground arith) (ground arith), ground arith, ok_injective made)

pub named-IsValid :
    (o : String) (c c' : Config)
    → IsValid c
    → apply_runtime_output (Output.named o) c ≡ ok c'
    → IsValid c' × (c'.screen.connector ≡ some o) × (c'.desktop.edge_output ≡ some o)
named-IsValid o c c' valid h =
    let (shown, given, made) = named-ok o c c' h in
    subst (λ x. IsValid x × (x.screen.connector ≡ some o) × (x.desktop.edge_output ≡ some o)) made
      (
        record {
          identity = identity shown given valid.identity;
          herdr_bin = valid.herdr_bin;
          voxtype_bin = valid.voxtype_bin;
          herdr_class = valid.herdr_class;
          intervals = valid.intervals;
          home = valid.home;
        },
        refl,
        refl,
      )
  where
    identity :
        is_blank o ≡ false
        → is_none c.screen.serial ≡ false
        → IsIdentity c.screen c.desktop.edge_output
        → IsIdentity (record (c.screen) { connector = some o }) (some o)
    identity shown given (inl (p, q)) =
        absurd (true_not_false (sym (ap (λ s. is_none s.serial) p) ∙ given))
    identity shown given (inr k) = inr (record {
      connector = o;
      serial = k.serial;
      model = k.model;
      touch_device = k.touch_device;
      is_screen = ap (reconnect o) k.is_screen;
      is_edge = refl;
      connector_shown = shown;
      serial_shown = k.serial_shown;
      model_shown = k.model_shown;
      touch_device_shown = k.touch_device_shown;
    })

-- No configured interval of a valid configuration is replaced by its minimum.
pub valid-intervals :
    (c : Config)
    → IsValid c
    → (herdr_refresh_interval c ≡ c.herdr_refresh_ms)
      × (health_refresh_interval c ≡ c.health_refresh_ms)
      × (voice_refresh_interval c ≡ c.voice_refresh_ms)
      × (usage_refresh_interval c ≡ c.usage_refresh_ms)
      × (micro_refresh_interval c ≡ c.micro_refresh_ms)
      × (t3code_refresh_interval c ≡ c.t3code.refresh_ms)
unfolding herdr_refresh_interval health_refresh_interval voice_refresh_interval
    usage_refresh_interval micro_refresh_interval t3code_refresh_interval
valid-intervals c valid = let bounds = valid.intervals in ground arith
