-- ===== src/T3code/Url/Loopback.antt =====
-- A URL that the adapter makes is that of the local server, with two encoded segments.
use Prim.Native.Char.{Char, code}
use text.Mathlib.TextEquality.{Char-path}
use text.Mathlib.TextLemmas.{nil-append, cons-append}
use mathlib.Core.Option.{some-injective}
use xeneon_edge_agents.Base.{
  ◌≡◌, refl, ap, ap₂, sym, ◌∙◌, String, true, none, some, ◌<>◌, arith, Bool-cases, Option-cases,
  inl, inr, ◌==◌, string_eq, nat_eq, ◌&&◌, not, ok, ok_or-bind, bail_if-ok, then-ok, ok_injective,
  ==_eq,
}
use xeneon_edge_agents.Base.Chars.{strip_prefix, bytes, all_chars}
use xeneon_edge_agents.T3code.Url.{
  component, rsplit_once, is_loopback, is_port, is_target, thread_url_of,
}
use xeneon_edge_agents.T3code.Url.RoundTrip.{
  Position, decode, is_segment_char, decode-component, component-is_segment,
}

-- A path segment that stands for a text.
abbrev pub IsSegmentOf : String → String → Type 0
IsSegmentOf value segment =
    (decode segment Position.outside ≡ some (bytes value))
    × (all_chars is_segment_char segment ≡ true)

-- A page of a loopback server: its host is local and its port a number from 1 to 65535.
abbrev pub IsLocal : String → Type 0
IsLocal origin =
    (host : String) × (port : String) × (origin ≡ "http://" <> (host <> (String.◌∷◌ ":" port)))
    × (is_loopback host ≡ true)
    × (is_port port ≡ true)

pub strip_prefix-append : (p s rest : String) → strip_prefix p s ≡ some rest → s ≡ p <> rest
unfolding strip_prefix
strip_prefix-append String.[] s rest h = some-injective s rest h ∙ sym (nil-append rest)
strip_prefix-append (String.◌∷◌ p ps) String.[] rest h = cc
strip_prefix-append (String.◌∷◌ p ps) (String.◌∷◌ c s) rest h =
    elim (Bool-cases (code p == code c)) [
      | inl e ↦
          ap₂ String.◌∷◌ (Char-path c p (sym (==_eq (code p) (code c) e)))
            (strip_prefix-append ps s rest (ground arith))
          ∙ sym (cons-append p ps rest)
      | inr e ↦ ground arith
    ]

rsplit_here :
    (d c : Char) (s : String)
    → rsplit_once (code d) s ≡ none
    → (code c == code d) ≡ true
    → rsplit_once (code d) (String.◌∷◌ c s) ≡ some (String.[], s)
unfolding rsplit_once
rsplit_here d c s e same = rw (e, same) refl

rsplit_later :
    (d c : Char) (s before after : String)
    → rsplit_once (code d) s ≡ some (before, after)
    → rsplit_once (code d) (String.◌∷◌ c s) ≡ some (String.◌∷◌ c before, after)
unfolding rsplit_once
rsplit_later d c s before after e = rw e refl

pub rsplit_once-append :
    (d : Char) (s before after : String)
    → rsplit_once (code d) s ≡ some (before, after)
    → s ≡ before <> (String.◌∷◌ d after)
unfolding rsplit_once
rsplit_once-append d String.[] before after h = cc
rsplit_once-append d (String.◌∷◌ c s) before after h =
    elim (Option-cases (rsplit_once (code d) s)) [
      | inl e ↦ elim (Bool-cases (code c == code d)) [
        | inl same ↦
            let q =
              some-injective (String.[], s) (before, after) (sym (rsplit_here d c s e same) ∙ h) in
            ap₂ String.◌∷◌ (Char-path c d (==_eq (code c) (code d) same)) (ap (λ x. x.1) q)
            ∙ sym (nil-append (String.◌∷◌ d after))
            ∙ ap (λ x. x.0 <> (String.◌∷◌ d after)) q
        | inr differ ↦ ground arith
      ]
      | inr ((b, a), e) ↦
          let q =
            some-injective (String.◌∷◌ c b, a) (before, after)
              (sym (rsplit_later d c s b a e) ∙ h) in
          ap (λ x. String.◌∷◌ c x) (rsplit_once-append d s b a e)
          ∙ sym (cons-append c b (String.◌∷◌ d a))
          ∙ ap (λ x. x.0 <> (String.◌∷◌ d x.1)) q
    ]

-- A URL that is made for a thread is that of a loopback server with a port from 1 to 65535,
-- followed by two path segments of unreserved characters and escapes, which decode to the bytes of
-- the environment and of the thread id; both are given and at most 256 bytes long.
pub thread_url-IsLocal :
    (origin environment thread url : String)
    → thread_url_of origin environment thread ≡ ok url
    → IsLocal origin
      × (is_target environment thread ≡ true)
      × (e : String) × (t : String) × (url ≡ origin <> "/" <> e <> "/" <> t)
      × IsSegmentOf environment e
      × IsSegmentOf thread t
unfolding thread_url_of
thread_url-IsLocal origin environment thread url h =
    let (address, stripped, h₁) = ok_or-bind (strip_prefix "http://" origin) _ _ url h in
    let ((host, port), split, h₂) = ok_or-bind (rsplit_once 58 address) _ _ url h₁ in
    let (guards, made) = then-ok _ _ url h₂ in
    let (first, second) = then-ok _ _ tt guards in
    let local = bail_if-ok (not (is_loopback host && is_port port)) _ first in
    let target = bail_if-ok (not (is_target environment thread)) _ second in
    (
      (
        host,
        port,
        strip_prefix-append "http://" origin address stripped
            ∙ ap (λ x. "http://" <> x) (rsplit_once-append ":" address host port split),
        ground arith,
        ground arith,
      ),
      ground arith,
      component environment,
      component thread,
      sym (ok_injective made),
      (decode-component environment, component-is_segment environment),
      (decode-component thread, component-is_segment thread),
    )
