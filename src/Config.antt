-- ===== src/Config.antt =====
-- crates/xeneon-agent-core/src/config.rs: the configuration of the daemon and its validation. A
-- path is its text; TOML is a parameter.
pub mod Valid
pub mod Guards
pub mod Identity
pub mod Validity
pub mod Connector
use Prim.Native.Char.{code}
use xeneon_edge_agents.Base.{
  ℕ, suc, ◌+◌, String, Bool, true, false, Option, none, some, not, ◌&&◌, ◌||◌, ◌==◌, nat_eq,
  string_eq, option_eq, leb, ltb, if◌then◌else◌, is_some, is_none, or_else, and_then, ◌<>◌, Result,
  ok, err, ◌>>=◌, ◌>>◌, bail_if,
}
use xeneon_edge_agents.Base.Text.{is_empty, trim}
use xeneon_edge_agents.Base.Chars.{is_ascii_alphanumeric, all_chars}
use xeneon_edge_agents.Model.{AgentBackend}

pub record ScreenConfig : Type 0 where
  pub connector : Option String
  pub serial : Option String
  pub model : Option String
  pub touch_device : Option String

pub record DesktopConfig : Type 0 where
  pub edge_output : Option String
  pub herdr_class : String

pub record T3codeConfig : Type 0 where
  pub app_bin : Option String
  pub status_file : Option String
  pub home : Option String
  pub refresh_ms : ℕ  -- u64

pub record Config : Type 0 where
  pub agent_backend : AgentBackend
  pub herdr_bin : String
  pub voxtype_bin : String
  pub herdr_refresh_ms : ℕ  -- u64
  pub health_refresh_ms : ℕ  -- u64
  pub voice_refresh_ms : ℕ  -- u64
  pub usage_refresh_ms : ℕ  -- u64
  pub micro_refresh_ms : ℕ  -- u64
  pub screen : ScreenConfig
  pub desktop : DesktopConfig
  pub t3code : T3codeConfig

abbrev pub t3code_default : T3codeConfig
t3code_default = record { app_bin = none; status_file = none; home = none; refresh_ms = 1000 }

abbrev pub screen_default : ScreenConfig
screen_default = record { connector = none; serial = none; model = none; touch_device = none }

abbrev pub desktop_default : DesktopConfig
desktop_default = record { edge_output = none; herdr_class = "herdr" }

-- `Config::default()`
abbrev pub config_default : Config
config_default = record {
  agent_backend = AgentBackend.herdr;
  herdr_bin = "herdr";
  voxtype_bin = "voxtype";
  herdr_refresh_ms = 5000;
  health_refresh_ms = 1000;
  voice_refresh_ms = 250;
  usage_refresh_ms = 30000;
  micro_refresh_ms = 5000;
  screen = screen_default;
  desktop = desktop_default;
  t3code = t3code_default;
}

-- `u64::max`
abbrev pub max : ℕ → ℕ → ℕ
max a b = if leb b a then a else b

-- The intervals in milliseconds.
unfoldable pub herdr_refresh_interval : Config → ℕ
herdr_refresh_interval c = max c.herdr_refresh_ms 250

unfoldable pub health_refresh_interval : Config → ℕ
health_refresh_interval c = max c.health_refresh_ms 250

unfoldable pub voice_refresh_interval : Config → ℕ
voice_refresh_interval c = max c.voice_refresh_ms 250

unfoldable pub usage_refresh_interval : Config → ℕ
usage_refresh_interval c = max c.usage_refresh_ms 5000

unfoldable pub micro_refresh_interval : Config → ℕ
micro_refresh_interval c = max c.micro_refresh_ms 1000

unfoldable pub t3code_refresh_interval : Config → ℕ
t3code_refresh_interval c = max c.t3code.refresh_ms 250

-- `value.is_some_and(|value| value.trim().is_empty())`
unfoldable pub is_given_blank : Option String → Bool
unfolding trim
is_given_blank none = false
is_given_blank (some value) = is_empty (trim value)

abbrev pub count_given : Option String → ℕ
count_given none = 0
count_given (some _) = 1

unfoldable pub identity_fields : ScreenConfig → ℕ
identity_fields s =
    count_given s.connector
    + count_given s.serial
    + count_given s.model
    + count_given s.touch_device

abbrev pub is_given_empty : Option String → Bool
is_given_empty none = false
is_given_empty (some value) = is_empty value

unfoldable pub intervals_too_short : Config → Bool
intervals_too_short c =
    ltb c.herdr_refresh_ms 250
    || ltb c.health_refresh_ms 250
    || ltb c.voice_refresh_ms 250
    || ltb c.usage_refresh_ms 5000
    || ltb c.micro_refresh_ms 1000
    || ltb c.t3code.refresh_ms 250

-- The chain of guards; a guard that holds ends it with its message.
unfoldable pub validate : Config → Result (Unit {0}) String
unfolding is_given_blank identity_fields intervals_too_short trim
validate c =
    let fields = identity_fields c.screen in
    bail_if (is_given_blank c.screen.connector) "screen.connector must not be empty"
    >> bail_if (is_given_blank c.screen.serial) "screen.serial must not be empty"
    >> bail_if (is_given_blank c.screen.model) "screen.model must not be empty"
    >> bail_if (is_given_blank c.screen.touch_device) "screen.touch_device must not be empty"
    >> bail_if (not (fields == 0) && not (fields == 4))
        "screen identity must configure connector, serial, model, and touch_device together"
    >> bail_if (is_given_blank c.desktop.edge_output) "desktop.edge_output must not be empty"
    >> bail_if (is_some c.desktop.edge_output && fields == 0)
        "desktop.edge_output requires a complete screen identity"
    >> bail_if (fields == 4 && not (c.desktop.edge_output == c.screen.connector))
        "desktop.edge_output must match screen.connector"
    >> bail_if (is_empty c.herdr_bin) "herdr_bin must not be empty"
    >> bail_if (is_empty c.voxtype_bin) "voxtype_bin must not be empty"
    >> bail_if (is_empty (trim c.desktop.herdr_class)) "desktop.herdr_class must not be empty"
    >> bail_if (intervals_too_short c) "refresh intervals are below their safe minimum"
    >> bail_if (is_given_empty c.t3code.home) "t3code.home must not be empty"

unfoldable pub is_output_char : ℕ → Bool
unfolding is_ascii_alphanumeric
is_output_char c = is_ascii_alphanumeric c || c == 95 || c == 46 || c == 58 || c == 45

-- The connector named by the environment: unset, not Unicode, or a text.
pub data Output : Type 0 where
  unset not_unicode : Output
  named : String → Output

unfoldable pub apply_runtime_output : Output → Config → Result Config String
unfolding is_output_char all_chars
apply_runtime_output Output.unset c = ok c
apply_runtime_output Output.not_unicode c = err "XENEON_EDGE_OUTPUT must be valid UTF-8"
apply_runtime_output (Output.named output) c =
    bail_if (is_empty output || not (all_chars is_output_char output))
      "XENEON_EDGE_OUTPUT is not a safe connector name"
    >> bail_if (is_none c.screen.serial || is_none c.screen.model || is_none c.screen.touch_device)
        "XENEON_EDGE_OUTPUT requires a commissioned screen identity"
    >> ok (record c {
      screen = record (c.screen) { connector = some output };
      desktop = record (c.desktop) { edge_output = some output };
    })

-- What `load` reads: the default path, the file at a path (`none` where there is none), and TOML.
pub record ConfigFiles : Type 0 where
  pub default_path : Option String
  pub exists : String → Bool
  pub read_to_string : String → Option String
  pub parse_toml : String → Option Config

unfoldable pub load : ConfigFiles → Option String → Output → Result Config String
unfolding apply_runtime_output
load F path output =
    let chosen = or_else path F.default_path in
    let read : Result Config String = elim chosen [
      | none ↦ ok config_default
      | some p ↦ if not (F.exists p) then ok config_default else elim (F.read_to_string p) [
        | none ↦ err ("reading config " <> p)
        | some contents ↦ elim (F.parse_toml contents) [
          | none ↦ err ("parsing config " <> p)
          | some config ↦ ok config
        ]
      ]
    ] in
    read >>= apply_runtime_output output
