-- ===== src/Model/Wire.antt =====
-- The messages of crates/xeneon-agent-core/src/model.rs between the portal and the daemon, and the
-- derived `PartialEq` of the snapshot's parts that the collectors compare.
use xeneon_edge_agents.Base.{
  ℕ, String, Bool, true, false, ◌&&◌, Option, none, some, List, [], ◌∷◌, ◌==◌, nat_eq, string_eq,
  option_eq, Eq,
}
use xeneon_edge_agents.Model.Kinds.{ActionKind, voice_state_eq, usage_kind_eq}
use xeneon_edge_agents.Model.Snapshot.{
  VoiceSnapshot, UsageWindow, ProviderUsage, AiUsageSnapshot, MicroSnapshot, PortalSnapshot, f64_eq,
}
use mathlib.Core.Bool.{Bool-discrete}

pub record PortalCommand : Type 0 where
  pub schema_version : ℕ  -- u32
  pub request_id : String
  pub sequence : ℕ  -- u64
  pub agent_id : Option String
  pub action : ActionKind
  pub capability_id : Option String

-- `succeeded` is the source's `ok`.
pub record ActionResult : Type 0 where
  pub schema_version : ℕ  -- u32
  pub request_id : String
  pub succeeded : Bool
  pub code : String
  pub message : String

pub data ServerMessage : Type 0 where
  snapshot : PortalSnapshot → ServerMessage
  action_result : ActionResult → ServerMessage
  notice : ℕ → String → String → String → ServerMessage

instance unfoldable pub bool_eq : Eq Bool
bool_eq = record { dec = Bool-discrete }

abbrev list_eq {ℓ} : {A : Type ℓ} → (A → A → Bool) → List A → List A → Bool
list_eq eq [] [] = true
list_eq eq (x ∷ xs) (y ∷ ys) = eq x y && list_eq eq xs ys
list_eq eq _ _ = false

abbrev opt_eq {ℓ} : {A : Type ℓ} → (A → A → Bool) → Option A → Option A → Bool
opt_eq eq none none = true
opt_eq eq (some x) (some y) = eq x y
opt_eq eq _ _ = false

unfoldable pub voice_same : VoiceSnapshot → VoiceSnapshot → Bool
unfolding bool_eq
voice_same a b = a.state == b.state && a.owned == b.owned

window_same : UsageWindow → UsageWindow → Bool
window_same a b =
    a.label == b.label && f64_eq a.utilization b.utilization && a.reset_at_ms == b.reset_at_ms

provider_same : ProviderUsage → ProviderUsage → Bool
unfolding window_same bool_eq
provider_same a b =
    a.id == b.id
    && a.label == b.label
    && a.kind == b.kind
    && a.available == b.available
    && a.stale == b.stale
    && a.source == b.source
    && a.status == b.status
    && a.plan == b.plan
    && a.model == b.model
    && opt_eq window_same a.primary b.primary
    && opt_eq window_same a.secondary b.secondary
    && a.today_tokens == b.today_tokens
    && a.tokens_per_hour == b.tokens_per_hour
    && a.last_updated_ms == b.last_updated_ms

unfoldable pub usage_same : AiUsageSnapshot → AiUsageSnapshot → Bool
unfolding provider_same
usage_same a b = list_eq provider_same a.providers b.providers

unfoldable pub micro_same : MicroSnapshot → MicroSnapshot → Bool
unfolding bool_eq
micro_same a b =
    a.connected == b.connected
    && a.controlled == b.controlled
    && list_eq (λ s t. s == t) a.slots b.slots
    && a.firmware == b.firmware
    && a.battery == b.battery
    && a.charging == b.charging
    && a.layer == b.layer
    && a.profile == b.profile
    && a.last_updated_ms == b.last_updated_ms
