-- ===== src/Herdr/Json.antt =====
-- `serde_json::Value`, as far as crates/xeneon-agent-core/src/herdr.rs reads and writes it.
use xeneon_edge_agents.Base.{
  ℕ, String, Bool, true, false, Option, none, some, ◌==◌, string_eq, if◌then◌else◌, unwrap_or,
}

-- `number` is a `u64`, `other` the text of any other number. The keys of an object differ.
mutual
  pub data Json : Type 0 where
    null : Json
    boolean : Bool → Json
    number : ℕ → Json
    other text : String → Json
    array : Values → Json
    object : Members → Json

  pub data Values : Type 0 where
    no_values : Values
    value : Json → Values → Values

  pub data Members : Type 0 where
    no_members : Members
    member : String → Json → Members → Members

abbrev pub find_member : String → Members → Option Json
find_member key Members.no_members = none
find_member key (Members.member name v others) =
    if name == key then some v else find_member key others

-- `Value::get` with a text, and the operator `[]`, which answers `null` where `get` has nothing.
unfoldable pub get : String → Json → Option Json
get key (Json.object members) = find_member key members
get key _ = none

unfoldable pub index : String → Json → Json
unfolding get
index key v = unwrap_or (get key v) Json.null

unfoldable pub as_str : Json → Option String
as_str (Json.text s) = some s
as_str _ = none

unfoldable pub as_u64 : Json → Option ℕ
as_u64 (Json.number n) = some n
as_u64 _ = none

unfoldable pub as_array : Json → Option Values
as_array (Json.array values) = some values
as_array _ = none

unfoldable pub as_bool : Json → Option Bool
as_bool (Json.boolean b) = some b
as_bool _ = none

unfoldable pub is_object : Json → Bool
is_object (Json.object _) = true
is_object _ = false

-- `value[key]` is that text.
unfoldable pub is_text_at : String → String → Json → Bool
unfolding index as_str
is_text_at key expected v = elim (as_str (index key v)) [ some s ↦ s == expected | none ↦ false ]

-- The requests, as `json!` writes them.
abbrev pub single : String → Json → Json
single a x = Json.object (Members.member a x Members.no_members)

abbrev pub request_of : String → String → Json → Json
request_of id method params = Json.object (
    Members.member "id" (Json.text id) (
      Members.member "method" (Json.text method)
        (Members.member "params" params Members.no_members)))
