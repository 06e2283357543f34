-- ===== src/T3code/Url.antt =====
-- `thread_url` of crates/xeneon-agent-core/src/t3code.rs: the local page of a thread.
pub mod RoundTrip
pub mod Loopback
use Prim.Native.Char.{Char, code, nul}
use text.Mathlib.Text.{char_at?}
use xeneon_edge_agents.Base.{
  ℕ, suc, zero, ◌+◌, ◌*◌, ◌-◌, ◌/◌, ◌%◌, ◌^◌, String, Bool, true, false, Option, none, some, List,
  [], ◌∷◌, map, ◌<>◌, ◌==◌, string_eq, nat_eq, not, leb, ltb, ◌&&◌, ◌||◌, if◌then◌else◌, and_then,
  Result, ok, err, ◌>>=◌, ◌>>◌, bail_if, ok_or,
}
use xeneon_edge_agents.Base.Text.{is_empty, trim}
use xeneon_edge_agents.Base.Chars.{strip_prefix, chr, bytes, byte_len, is_ascii_alphanumeric}
use xeneon_edge_agents.T3code.External.{External, Machine}
use xeneon_edge_agents.T3code.Source.{T3codeClient, join, runtime_path}

-- The characters that stand for themselves in a URL.
unfoldable pub is_unreserved : ℕ → Bool
unfolding is_ascii_alphanumeric
is_unreserved b = is_ascii_alphanumeric b || b == 45 || b == 95 || b == 46 || b == 126

-- One digit as `{:X}` shows it.
unfoldable pub hex_digit : ℕ → Char
unfolding chr
hex_digit d = if ltb d 10 then chr (48 + d) else chr (55 + d)

-- One byte: itself, or `%{byte:02X}`, before `rest`.
unfoldable pub encode_byte : ℕ → String → String
unfolding is_unreserved hex_digit chr
encode_byte b rest =
    if is_unreserved b
    then String.◌∷◌ (chr b) rest
    else String.◌∷◌ "%" (String.◌∷◌ (hex_digit (b / 16)) (String.◌∷◌ (hex_digit (b % 16)) rest))

unfoldable pub encode_bytes : List ℕ → String
unfolding encode_byte
encode_bytes [] = String.[]
encode_bytes (b ∷ bs) = encode_byte b (encode_bytes bs)

unfoldable pub component : String → String
unfolding encode_bytes bytes
component value = encode_bytes (bytes value)

-- `str::rsplit_once` at a character: what stands before and after its last occurrence.
unfoldable pub rsplit_once : ℕ → String → Option (String × String)
rsplit_once d String.[] = none
rsplit_once d (String.◌∷◌ c s) = elim (rsplit_once d s) [
  | some (before, after) ↦ some (String.◌∷◌ c before, after)
  | none ↦ if code c == d then some (String.[], s) else none
]

abbrev is_digit : ℕ → Bool
is_digit c = leb 48 c && leb c 57

-- The number of a text of digits, `acc` being that of the digits before.
parse_digits : ℕ → String → Option ℕ
parse_digits acc String.[] = some acc
parse_digits acc (String.◌∷◌ c s) =
    let rest = parse_digits (10 * acc + (code c - 48)) s in if is_digit (code c) then rest else none

-- `str::parse::<u16>`: digits after at most one plus sign, below 2 ^ 16.
unfoldable pub parse_u16 : String → Option ℕ
unfolding parse_digits
parse_u16 String.[] = none
parse_u16 (String.◌∷◌ c s) =
    let digits = if code c == 43 then s else String.◌∷◌ c s in
    if is_empty digits
    then none
    else and_then (parse_digits 0 digits) (λ n. if ltb n (2 ^ 16) then some n else none)

abbrev pub is_loopback : String → Bool
is_loopback host = host == "127.0.0.1" || host == "localhost" || host == "[::1]"

unfoldable pub is_port : String → Bool
unfolding parse_u16
is_port port = elim (parse_u16 port) [ none ↦ false | some n ↦ not (n == 0) ]

unfoldable pub is_target : String → String → Bool
unfolding byte_len
is_target environment thread =
    not (is_empty environment)
    && not (is_empty thread)
    && leb (byte_len environment) 256
    && leb (byte_len thread) 256

unfoldable pub thread_url_of : String → String → String → Result String String
unfolding strip_prefix rsplit_once is_port is_target component
thread_url_of origin environment thread =
    ok_or (strip_prefix "http://" origin) "T3 local origin must use HTTP" >>= λ address.
    ok_or (rsplit_once 58 address) "T3 local origin has no port" >>= λ (host, port).
    bail_if (not (is_loopback host && is_port port)) "T3 local origin is not loopback"
    >> bail_if (not (is_target environment thread)) "invalid thread target"
    >> ok (origin <> "/" <> component environment <> "/" <> component thread)

-- `T3codeClient::thread_url`: the origin is read from the server's descriptor.
unfoldable pub thread_url : External → Machine → T3codeClient → String → Result String String
unfolding runtime_path join trim thread_url_of
thread_url X M client thread =
    ok_or (M.read_to_string (runtime_path X M client)) "the runtime descriptor cannot be read"
    >>= λ contents. ok_or (X.parse_origin contents) "T3 runtime has no origin" >>= λ origin.
        ok_or (M.read_to_string (join client.userdata "environment-id"))
          "the environment id cannot be read"
        >>= λ environment. thread_url_of origin (trim environment) thread
