-- ===== src/T3code/Url/RoundTrip.antt =====
-- Percent-encoding keeps the bytes of a text, in the unreserved characters and escapes only.
use Prim.Native.Char.{Char, code, char}
use xeneon_edge_agents.Base.{
  ℕ, ◌+◌, ◌*◌, ◌-◌, ◌/◌, ◌%◌, ◌<◌, ◌≡◌, refl, ap, String, Bool, true, false, Option, none, some,
  List, [], ◌∷◌, arith, All, All-append, Bool-cases, inl, inr, ◌==◌, ==_self, nat_eq, if◌then◌else◌,
  leb, ltb, ◌&&◌, ◌||◌, and_then,
}
use xeneon_edge_agents.Base.Chars.{chr, code-chr, bytes, utf8, is_ascii_alphanumeric, all_chars}
use xeneon_edge_agents.T3code.Url.{is_unreserved, hex_digit, encode_byte, encode_bytes, component}

-- The value of an upper-case hexadecimal digit, as RFC 3986 reads it.
unfoldable pub hex_value : ℕ → Option ℕ
hex_value c =
    if leb 48 c && leb c 57
    then some (c - 48)
    else if leb 65 c && leb c 70
    then some (c - 55)
    else none

-- Where a decoder stands: outside an escape, after its sign, or after its first digit.
pub data Position : Type 0 where
  outside sign : Position
  digit : ℕ → Position

-- Percent-decoding by RFC 3986: the bytes that a text of a URL stands for.
unfoldable pub decode : String → Position → Option (List ℕ)
unfolding hex_value is_unreserved
decode String.[] Position.outside = some []
decode String.[] _ = none
decode (String.◌∷◌ c s) Position.outside =
    let plain = decode s Position.outside in
    let escape = decode s Position.sign in
    if is_unreserved (code c)
    then and_then plain (λ bs. some (code c ∷ bs))
    else if code c == 37
    then escape
    else none
decode (String.◌∷◌ c s) Position.sign =
    and_then (hex_value (code c)) (λ high. decode s (Position.digit high))
decode (String.◌∷◌ c s) (Position.digit high) =
    let rest = decode s Position.outside in
    and_then (hex_value (code c)) (λ low. and_then rest (λ bs. some ((16 * high + low) ∷ bs)))

code-bound : (c : Char) → code c < 4194304
code-bound (char n h) = ground arith

utf8-bytes : (n : ℕ) → n < 4194304 → All (λ b. b < 256) (utf8 n)
unfolding utf8
utf8-bytes n h = ground arith

bytes-bound : (s : String) → All (λ b. b < 256) (bytes s)
unfolding bytes
bytes-bound String.[] = tt
bytes-bound (String.◌∷◌ c s) =
    All-append (λ b. b < 256) (utf8 (code c)) (bytes s) (utf8-bytes (code c) (code-bound c))
      (bytes-bound s)

hex_digit-code : (d : ℕ) → d < 16 → code (hex_digit d) ≡ (if ltb d 10 then 48 + d else 55 + d)
unfolding hex_digit
hex_digit-code d h = elim (Bool-cases (ltb d 10)) [
  | inl e ↦ rw e (code-chr (48 + d) (omega arith))
  | inr e ↦ rw e (code-chr (55 + d) (omega arith))
]

hex_value-hex_digit : (d : ℕ) → d < 16 → hex_value (code (hex_digit d)) ≡ some d
unfolding hex_value
hex_value-hex_digit d h = rw (hex_digit-code d h) (ground arith)

-- The two shapes of an encoded byte.
encode_byte-plain :
    (b : ℕ) (s : String) → is_unreserved b ≡ true → encode_byte b s ≡ String.◌∷◌ (chr b) s
unfolding encode_byte
encode_byte-plain b s h = rw h refl

encode_byte-escape :
    (b : ℕ) (s : String)
    → is_unreserved b ≡ false
    → encode_byte b s
      ≡ String.◌∷◌ "%" (String.◌∷◌ (hex_digit (b / 16)) (String.◌∷◌ (hex_digit (b % 16)) s))
unfolding encode_byte
encode_byte-escape b s h = rw h refl

decode-plain :
    (b : ℕ) (s : String) (bs : List ℕ)
    → b < 256
    → is_unreserved b ≡ true
    → decode s Position.outside ≡ some bs
    → decode (String.◌∷◌ (chr b) s) Position.outside ≡ some (b ∷ bs)
unfolding decode
decode-plain b s bs h plain e = rw (code-chr b h, plain, e) refl

sign-reserved : is_unreserved (code "%") ≡ false
unfolding is_unreserved is_ascii_alphanumeric nat_eq
sign-reserved = refl

decode-escape :
    (b : ℕ) (s : String) (bs : List ℕ)
    → b < 256
    → decode s Position.outside ≡ some bs
    → decode
        (String.◌∷◌ "%" (String.◌∷◌ (hex_digit (b / 16)) (String.◌∷◌ (hex_digit (b % 16)) s)))
        Position.outside
      ≡ some (b ∷ bs)
unfolding decode
decode-escape b s bs h e =
    rw
      (
        hex_value-hex_digit (b / 16) (omega arith),
        hex_value-hex_digit (b % 16) (omega arith),
        e,
        sign-reserved,
        ==_self {A = ℕ} 37,
      )
      (ap (λ n. some (n ∷ bs)) (omega arith))

decode-encode_byte :
    (b : ℕ) (s : String) (bs : List ℕ)
    → b < 256
    → decode s Position.outside ≡ some bs
    → decode (encode_byte b s) Position.outside ≡ some (b ∷ bs)
decode-encode_byte b s bs h e = elim (Bool-cases (is_unreserved b)) [
  | inl plain ↦ rw (encode_byte-plain b s plain) (decode-plain b s bs h plain e)
  | inr escape ↦ rw (encode_byte-escape b s escape) (decode-escape b s bs h e)
]

decode-encode_bytes :
    (bs : List ℕ) → All (λ b. b < 256) bs → decode (encode_bytes bs) Position.outside ≡ some bs
unfolding encode_bytes decode
decode-encode_bytes [] h = refl
decode-encode_bytes (b ∷ bs) h =
    decode-encode_byte b (encode_bytes bs) bs h.0 (decode-encode_bytes bs h.1)

pub decode-component : (s : String) → decode (component s) Position.outside ≡ some (bytes s)
unfolding component
decode-component s = decode-encode_bytes (bytes s) (bytes-bound s)

-- A character of an encoded text: unreserved, or of an escape. None ends or splits a path segment.
unfoldable pub is_segment_char : ℕ → Bool
unfolding is_unreserved
is_segment_char c = is_unreserved c || c == 37

hex_digit-is_segment_char : (d : ℕ) → d < 16 → is_segment_char (code (hex_digit d)) ≡ true
unfolding is_segment_char is_unreserved is_ascii_alphanumeric
hex_digit-is_segment_char d h = rw (hex_digit-code d h) (ground arith)

encode_byte-is_segment :
    (b : ℕ) (s : String)
    → b < 256
    → all_chars is_segment_char s ≡ true
    → all_chars is_segment_char (encode_byte b s) ≡ true
unfolding all_chars is_segment_char nat_eq
encode_byte-is_segment b s h rest = elim (Bool-cases (is_unreserved b)) [
  | inl plain ↦ rw (encode_byte-plain b s plain, code-chr b h, is_segment_char, plain) rest
  | inr escape ↦
      rw
        (
          encode_byte-escape b s escape,
          hex_digit-is_segment_char (b / 16) (omega arith),
          hex_digit-is_segment_char (b % 16) (omega arith),
        )
        rest
]

encode_bytes-is_segment :
    (bs : List ℕ) → All (λ b. b < 256) bs → all_chars is_segment_char (encode_bytes bs) ≡ true
unfolding encode_bytes all_chars
encode_bytes-is_segment [] h = refl
encode_bytes-is_segment (b ∷ bs) h =
    encode_byte-is_segment b (encode_bytes bs) h.0 (encode_bytes-is_segment bs h.1)

pub component-is_segment : (s : String) → all_chars is_segment_char (component s) ≡ true
unfolding component
component-is_segment s = encode_bytes-is_segment (bytes s) (bytes-bound s)
