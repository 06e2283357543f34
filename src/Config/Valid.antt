-- ===== src/Config/Valid.antt =====
-- What a valid configuration is (crates/xeneon-agent-core/src/config.rs), by a description that does
-- not follow the guards.
use xeneon_edge_agents.Base.{
  ◌≤◌, ◌≡◌, ◌⊎◌, String, false, Option, none, some, nat_eq, string_eq, option_eq,
}
use xeneon_edge_agents.Base.Text.{is_empty, is_blank}
use xeneon_edge_agents.Config.{Config, ScreenConfig, screen_default, is_given_empty}

-- A screen that is named in full, by texts that are not blank; its connector is the edge output.
pub record IsCommissioned (s : ScreenConfig) (edge : Option String) : Type 0 where
  pub connector : String
  pub serial : String
  pub model : String
  pub touch_device : String
  pub is_screen : s ≡ record {
    connector = some connector;
    serial = some serial;
    model = some model;
    touch_device = some touch_device;
  }
  pub is_edge : edge ≡ some connector
  pub connector_shown : is_blank connector ≡ false
  pub serial_shown : is_blank serial ≡ false
  pub model_shown : is_blank model ≡ false
  pub touch_device_shown : is_blank touch_device ≡ false

-- The screen is named in full or not at all.
abbrev pub IsIdentity : ScreenConfig → Option String → Type 0
IsIdentity s edge = ((s ≡ screen_default) × (edge ≡ none)) ⊎ IsCommissioned s edge

pub record IsValid (c : Config) : Type 0 where
  pub identity : IsIdentity c.screen c.desktop.edge_output
  pub herdr_bin : is_empty c.herdr_bin ≡ false
  pub voxtype_bin : is_empty c.voxtype_bin ≡ false
  pub herdr_class : is_blank c.desktop.herdr_class ≡ false
  pub intervals :
      (250 ≤ c.herdr_refresh_ms)
      × (250 ≤ c.health_refresh_ms)
      × (250 ≤ c.voice_refresh_ms)
      × (5000 ≤ c.usage_refresh_ms)
      × (1000 ≤ c.micro_refresh_ms)
      × (250 ≤ c.t3code.refresh_ms)
  pub home : is_given_empty c.t3code.home ≡ false
