-- ===== src/Desktop.antt =====
-- crates/xeneon-agent-core/src/desktop.rs: the windows of the desktop applications, which the daemon
-- focuses, or launches and then waits for. Instants are milliseconds.
pub mod Selection
pub mod Controller
pub mod Processes
pub mod Sessions
use xeneon_edge_agents.Base.{
  ℕ, zero, suc, ◌+◌, ◌-◌, String, Bool, true, false, Option, none, some, List, [], ◌∷◌, ◌<>◌, not,
  ◌&&◌, ◌||◌, ◌==◌, Eq, nat_eq, string_eq, option_eq, leb, ltb, if◌then◌else◌, find, any, all,
  filter, length, is_none, is_some, or_else, and_then, Result, ok, err,
}
use xeneon_edge_agents.Base.Text.{is_empty}
use xeneon_edge_agents.Base.Integers.{ℤ}
use xeneon_edge_agents.Base.Chars.{to_ascii_lowercase, strip_prefix, all_chars}

pub data DesktopApp : Type 0 where
  chat_gpt claude t3code : DesktopApp

pub data DesktopAppOutcome : Type 0 where
  focused launched_and_focused : DesktopAppOutcome

DesktopApp-discrete : Discrete DesktopApp
DesktopApp-discrete = hlevel

instance unfoldable pub desktop_app_eq : Eq DesktopApp
unfolding DesktopApp-discrete
desktop_app_eq = record { dec = DesktopApp-discrete }

pub record DesktopAppSpec : Type 0 where
  pub desktop_id : String
  pub class : String
  pub main_title : String

pub record HyprClient : Type 0 where
  pub address : String
  pub class : String
  pub initial_class : String
  pub title : String
  pub initial_title : String
  pub pid : ℤ  -- i32
  pub monitor : ℤ  -- i64
  pub floating : Bool
  pub focus_history_id : Option ℤ  -- i64

pub record HyprMonitor : Type 0 where
  pub id : ℤ  -- i64
  pub name : String
  pub focused : Bool

abbrev pub desktop_app_spec : DesktopApp → DesktopAppSpec
desktop_app_spec DesktopApp.chat_gpt = record {
  desktop_id = "chatgpt.desktop";
  class = "chatgpt";
  main_title = "ChatGPT";
}
desktop_app_spec DesktopApp.claude = record {
  desktop_id = "com.anthropic.Claude.desktop";
  class = "com.anthropic.Claude";
  main_title = "Claude";
}
desktop_app_spec DesktopApp.t3code = record {
  desktop_id = "t3code.desktop";
  class = "t3code";
  main_title = "T3 Code";
}
