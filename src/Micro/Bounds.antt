-- ===== src/Micro/Bounds.antt =====
-- What a sample of the device may hold.
use xeneon_edge_agents.Base.{
  ℕ, zero, suc, ◌≤◌, ◌<◌, inl, inr, String, Bool, true, false, Option, none, some, List, [], ◌∷◌,
  not, leb, ltb, length, All, arith, if◌then◌else◌, and_then, Bool-cases, min, leb→le, ltb→lt,
  unwrap_or, ◌%◌, ◌^◌,
}
use xeneon_edge_agents.Base.Text.{is_empty, trim}
use xeneon_edge_agents.Base.Chars.{byte_len, char_count, take_chars, char_count-take_chars}
use xeneon_edge_agents.Model.{MicroSnapshot, micro_default}
use xeneon_edge_agents.Herdr.Json.{Json, Values, as_bool, as_str, as_array, get, is_object}
use xeneon_edge_agents.Micro.{
  firmware_of, status_of_result, status_from_message, first_status, slots_of, is_controller, sample,
  number_at, is_text, text_at, to_u8, trim_start_matches,
}

-- The value, if there is one.
abbrev pub listed {ℓ} : {A : Type ℓ} → Option A → List A
listed none = []
listed (some a) = a ∷ []

-- Every value stays within its bounds.
pub record IsBounded (m : MicroSnapshot) : Type 0 where
  pub slots_few : length m.slots ≤ 6
  pub slots_short : All (λ s. byte_len s ≤ 128) m.slots
  pub battery_percent : All (λ b. b ≤ 100) (listed m.battery)
  pub layer_byte : All (λ n. n < 256) (listed m.layer)
  pub profile_byte : All (λ n. n < 256) (listed m.profile)
  pub firmware_short : All (λ s. char_count s ≤ 32) (listed m.firmware)

length-slots_of : (n : ℕ) (entries : Values) → length (slots_of n entries) ≤ n
unfolding slots_of
length-slots_of zero entries = omega arith
length-slots_of (suc n) Values.no_values = omega arith
length-slots_of (suc n) (Values.value entry others) = ground (arith, length-slots_of n others)

slots_of-short : (n : ℕ) (entries : Values) → All (λ s. byte_len s ≤ 128) (slots_of n entries)
unfolding slots_of
slots_of-short zero entries = tt
slots_of-short (suc n) Values.no_values = tt
slots_of-short (suc n) (Values.value entry others) =
    step (as_str entry) (slots_of n others) (slots_of-short n others)
  where
    step :
        (text : Option String) (rest : List String)
        → All (λ s. byte_len s ≤ 128) rest
        → All
            (λ s. byte_len s ≤ 128)
            (elim text [
              | none ↦ rest
              | some id ↦ if leb (byte_len id) 128 then id ∷ rest else rest
            ])
    step none rest h = h
    step (some id) rest h = elim (Bool-cases (leb (byte_len id) 128)) [
      | inl e ↦ rw e (leb→le (byte_len id) 128 e, h)
      | inr e ↦ rw e h
    ]

firmware_of-short : (result : Json) → All (λ s. char_count s ≤ 32) (listed (firmware_of result))
unfolding firmware_of
firmware_of-short result = go (text_at "version" result)
  where
    go :
        (version : Option String)
        → All
            (λ s. char_count s ≤ 32)
            (listed (
              and_then version (λ v.
                let firmware = take_chars 32 (trim_start_matches 118 (trim v)) in
                if is_empty firmware then none else some firmware)))
    go none = tt
    go (some v) =
        let stripped = trim_start_matches 118 (trim v) in
        elim (Bool-cases (is_empty (take_chars 32 stripped))) [
          | inl e ↦ rw e tt
          | inr e ↦ rw e (char_count-take_chars 32 stripped, tt)
        ]

percent : (b : Option ℕ) → All (λ n. n ≤ 100) (listed (and_then b (λ n. some (min n 100 % 2 ^ 8))))
percent none = tt
percent (some n) = (omega arith, tt)

byte : (b : Option ℕ) → All (λ n. n < 256) (listed (and_then b to_u8))
byte none = tt
byte (some n) = elim (Bool-cases (ltb n 256)) [
  | inl e ↦ rw e (ltb→lt n 256 e, tt)
  | inr e ↦ rw e tt
]

-- A status, if there is one, is bounded.
abbrev AllBounded : Option MicroSnapshot → Type 0
AllBounded m = All IsBounded (listed m)

status_of_result-AllBounded : (result : Json) (now : ℕ) → AllBounded (status_of_result result now)
unfolding status_of_result
status_of_result-AllBounded result now = go (firmware_of result) (firmware_of-short result)
  where
    go :
        (firmware : Option String)
        → All (λ s. char_count s ≤ 32) (listed firmware)
        → All IsBounded (
            listed (
              and_then firmware (λ f. some (record {
                connected = true;
                controlled = false;
                slots = [];
                firmware = some f;
                battery = and_then (number_at "battery" result) (λ b. some (min b 100 % 2 ^ 8));
                charging = unwrap_or (and_then (get "is_charging" result) as_bool) false;
                layer = and_then (number_at "layer_index" result) to_u8;
                profile = and_then (number_at "profile_index" result) to_u8;
                last_updated_ms = some now;
              }))))
    go none h = tt
    go (some f) h = (
      record {
        slots_few = omega arith;
        slots_short = tt;
        battery_percent = percent (number_at "battery" result);
        layer_byte = byte (number_at "layer_index" result);
        profile_byte = byte (number_at "profile_index" result);
        firmware_short = h;
      },
      tt,
    )

guard-AllBounded :
    (b : Bool) (m : Option MicroSnapshot) → AllBounded m → AllBounded (if b then none else m)
guard-AllBounded true m h = tt
guard-AllBounded false m h = h

then-AllBounded {ℓ} :
    {A : Type ℓ} (o : Option A) (f : A → Option MicroSnapshot)
    → ((a : A) → AllBounded (f a))
    → AllBounded (and_then o f)
then-AllBounded none f h = tt
then-AllBounded (some a) f h = h a

status_from_message-AllBounded :
    (value : Json) (now : ℕ) → AllBounded (status_from_message value now)
unfolding status_from_message
status_from_message-AllBounded value now =
    guard-AllBounded (not (is_text (text_at "event" value) "device_message")) _ (
      then-AllBounded (get "message" value) _ (λ message.
        guard-AllBounded (not (is_text (text_at "method" message) "device.status")) _ (
          then-AllBounded (get "result" message) _ (λ result.
            guard-AllBounded (not (is_object result)) _ (status_of_result-AllBounded result now)))))

first_status-AllBounded :
    (lines : List (Option Json)) (now : ℕ) → AllBounded (first_status lines now)
unfolding first_status
first_status-AllBounded [] now = tt
first_status-AllBounded (none ∷ lines) now = first_status-AllBounded lines now
first_status-AllBounded (some line ∷ lines) now =
    step (status_from_message line now) (status_from_message-AllBounded line now)
      (first_status lines now) (first_status-AllBounded lines now)
  where
    step :
        (found : Option MicroSnapshot)
        → AllBounded found
        → (rest : Option MicroSnapshot) → AllBounded rest
        → AllBounded (elim found [ none ↦ rest | some snapshot ↦ some snapshot ])
    step none h rest k = k
    step (some m) h rest k = h

default-IsBounded : IsBounded micro_default
default-IsBounded = record {
  slots_few = omega arith;
  slots_short = tt;
  battery_percent = tt;
  layer_byte = tt;
  profile_byte = tt;
  firmware_short = tt;
}

base-IsBounded : (m : Option MicroSnapshot) → AllBounded m → IsBounded (unwrap_or m micro_default)
base-IsBounded none h = default-IsBounded
base-IsBounded (some m) h = h.0

-- The slots of a controller's file put into a bounded sample.
with_slots :
    (base : MicroSnapshot) (entries : Option Values)
    → IsBounded base
    → IsBounded (record base {
      controlled = true;
      slots = elim entries [ none ↦ [] | some given ↦ slots_of 6 given ];
    })
with_slots base none h = record {
  slots_few = omega arith;
  slots_short = tt;
  battery_percent = h.battery_percent;
  layer_byte = h.layer_byte;
  profile_byte = h.profile_byte;
  firmware_short = h.firmware_short;
}
with_slots base (some given) h = record {
  slots_few = length-slots_of 6 given;
  slots_short = slots_of-short 6 given;
  battery_percent = h.battery_percent;
  layer_byte = h.layer_byte;
  profile_byte = h.profile_byte;
  firmware_short = h.firmware_short;
}

kept-IsBounded :
    (b : Bool) (m n : MicroSnapshot) → IsBounded m → IsBounded n → IsBounded (if b then m else n)
kept-IsBounded true m n h k = h
kept-IsBounded false m n h k = k

pub sample-IsBounded :
    (lines : List (Option Json)) (status : Option Json) (now : ℕ)
    → IsBounded (sample (first_status lines now) status now)
unfolding sample
sample-IsBounded lines status now = go status
  where
    base : MicroSnapshot
    base = unwrap_or (first_status lines now) micro_default

    bounded : IsBounded base
    bounded = base-IsBounded (first_status lines now) (first_status-AllBounded lines now)

    go : (status : Option Json) → IsBounded (sample (first_status lines now) status now)
    go none = kept-IsBounded (not base.connected) base base bounded bounded
    go (some s) = kept-IsBounded (not base.connected) base _ bounded (
        kept-IsBounded (not (is_controller s now)) base _ bounded
          (with_slots base (and_then (get "slots" s) as_array) bounded))
