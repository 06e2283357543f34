-- ===== src/Micro.antt =====
-- crates/xeneon-agent-core/src/micro.rs: what a message of the device's service, and the file of its
-- controller, say of the device.
pub mod Bounds
use Prim.Native.Char.{code}
use xeneon_edge_agents.Base.{
  ℕ, zero, suc, ◌+◌, ◌-◌, ◌%◌, ◌^◌, min, String, Bool, true, false, Option, none, some, List, [],
  ◌∷◌, not, ◌&&◌, ◌||◌, ◌==◌, nat_eq, string_eq, leb, ltb, if◌then◌else◌, and_then, unwrap_or,
}
use xeneon_edge_agents.Base.Text.{is_empty, trim}
use xeneon_edge_agents.Base.Chars.{take_chars, byte_len}
use xeneon_edge_agents.Model.{MicroSnapshot, micro_default}
use xeneon_edge_agents.Herdr.Json.{Json, Values, get, as_str, as_u64, as_array, as_bool, is_object}

-- `trim_start_matches` of a character.
unfoldable pub trim_start_matches : ℕ → String → String
trim_start_matches d String.[] = String.[]
trim_start_matches d (String.◌∷◌ c s) =
    let rest = trim_start_matches d s in if code c == d then rest else String.◌∷◌ c s

-- `u8::try_from` of a `u64`.
abbrev pub to_u8 : ℕ → Option ℕ
to_u8 n = if ltb n 256 then some n else none

unfoldable pub text_at : String → Json → Option String
unfolding get as_str
text_at key v = and_then (get key v) as_str

unfoldable pub number_at : String → Json → Option ℕ
unfolding get as_u64
number_at key v = and_then (get key v) as_u64

abbrev pub is_text : Option String → String → Bool
is_text none expected = false
is_text (some s) expected = s == expected

unfoldable pub firmware_of : Json → Option String
unfolding text_at trim trim_start_matches take_chars
firmware_of result = and_then (text_at "version" result) (λ version.
    let firmware = take_chars 32 (trim_start_matches 118 (trim version)) in
    if is_empty firmware then none else some firmware)

unfoldable pub status_of_result : Json → ℕ → Option MicroSnapshot
unfolding firmware_of number_at get as_bool
status_of_result result now = and_then (firmware_of result) (λ firmware. some (record {
  connected = true;
  controlled = false;
  slots = [];
  firmware = some firmware;
  battery = and_then (number_at "battery" result) (λ battery. some (min battery 100 % 2 ^ 8));
  charging = unwrap_or (and_then (get "is_charging" result) as_bool) false;
  layer = and_then (number_at "layer_index" result) to_u8;
  profile = and_then (number_at "profile_index" result) to_u8;
  last_updated_ms = some now;
}))

unfoldable pub status_from_message : Json → ℕ → Option MicroSnapshot
unfolding text_at get is_object status_of_result
status_from_message value now =
    if not (is_text (text_at "event" value) "device_message")
    then none
    else and_then (get "message" value) (λ message.
      if not (is_text (text_at "method" message) "device.status")
      then none
      else and_then (get "result" message)
          (λ result. if not (is_object result) then none else status_of_result result now))

-- `sample_stream`: the first line that is a status. A line that is no JSON is passed over; `none` is
-- a stream that ends before.
unfoldable pub first_status : List (Option Json) → ℕ → Option MicroSnapshot
unfolding status_from_message
first_status [] now = none
first_status (none ∷ lines) now = first_status lines now
first_status (some value ∷ lines) now =
    let rest = first_status lines now in
    elim (status_from_message value now) [ none ↦ rest | some snapshot ↦ some snapshot ]

-- The slots: of the first six entries, the texts of at most 128 bytes.
unfoldable pub slots_of : ℕ → Values → List String
unfolding as_str byte_len
slots_of zero entries = []
slots_of (suc left) Values.no_values = []
slots_of (suc left) (Values.value entry others) =
    let rest = slots_of left others in
    elim (as_str entry) [
      | none ↦ rest
      | some id ↦ if leb (byte_len id) 128 then id ∷ rest else rest
    ]

unfoldable pub is_controller : Json → ℕ → Bool
unfolding get as_bool text_at number_at
is_controller status now =
    elim (and_then (get "controlled" status) as_bool) [ some b ↦ b | none ↦ false ]
    && is_text (text_at "backend" status) "t3code"
    && elim (number_at "updated_at_ms" status) [
      | none ↦ false
      | some updated ↦ ltb ((now - updated) + (updated - now)) 15000
    ]

-- `sample_with_timeout`, from what the service's stream gave (`none` where it failed), and from the
-- controller's file (`none` where it is missing, longer than 4096 bytes or no JSON).
unfoldable pub sample : Option MicroSnapshot → Option Json → ℕ → MicroSnapshot
unfolding is_controller slots_of get as_array
sample streamed status now =
    let base = unwrap_or streamed micro_default in
    if not base.connected then base else elim status [
      | none ↦ base
      | some s ↦ if not (is_controller s now) then base else record base {
        controlled = true;
        slots = elim (and_then (get "slots" s) as_array) [
          | none ↦ []
          | some entries ↦ slots_of 6 entries
        ];
      }
    ]
