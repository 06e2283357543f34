-- ===== src/Config/Validity.antt =====
-- Which configurations pass the validation (crates/xeneon-agent-core/src/config.rs).
use xeneon_edge_agents.Base.{
  ◌≤◌, ◌≡◌, ◌↔◌, sym, ◌∙◌, false, nat_eq, string_eq, option_eq, ok, arith,
}
use xeneon_edge_agents.Base.Text.{is_empty, trim-is_empty}
use xeneon_edge_agents.Config.{Config, validate, intervals_too_short}
use xeneon_edge_agents.Config.Valid.{IsValid}
use xeneon_edge_agents.Config.Guards.{validate-guards, or-false, false-or}
use xeneon_edge_agents.Config.Identity.{guards-IsIdentity, identity-guards}

intervals_iff :
    (c : Config)
    → (intervals_too_short c ≡ false) ↔ (
        (250 ≤ c.herdr_refresh_ms)
        × (250 ≤ c.health_refresh_ms)
        × (250 ≤ c.voice_refresh_ms)
        × (5000 ≤ c.usage_refresh_ms)
        × (1000 ≤ c.micro_refresh_ms)
        × (250 ≤ c.t3code.refresh_ms))
unfolding intervals_too_short
intervals_iff c = (λ h. ground arith, λ h. ground arith)

-- A configuration passes the validation exactly where its screen is named in full by texts that
-- are not blank, with its connector as the edge output, or not at all and without an edge output,
-- its programs and its window class are given, its intervals are at least their minimum, and the
-- T3 home is not empty.
pub validate_iff : (c : Config) → (validate c ≡ ok tt) ↔ IsValid c
validate_iff c = (to, from)
  where
    to : validate c ≡ ok tt → IsValid c
    to h =
        let (home, h₁) = or-false _ _ ((validate-guards c).0 h) in
        let (intervals, h₂) = or-false _ _ h₁ in
        let (class, h₃) = or-false _ _ h₂ in
        let (voxtype, h₄) = or-false _ _ h₃ in
        let (herdr, identity) = or-false (is_empty c.herdr_bin) _ h₄ in
        record {
          identity = guards-IsIdentity c.screen c.desktop.edge_output identity;
          herdr_bin = herdr;
          voxtype_bin = voxtype;
          herdr_class = sym (trim-is_empty c.desktop.herdr_class) ∙ class;
          intervals = (intervals_iff c).0 intervals;
          home = home;
        }

    from : IsValid c → validate c ≡ ok tt
    from v = (validate-guards c).1 (
        false-or _ _ v.home (
          false-or _ _ ((intervals_iff c).1 v.intervals) (
            false-or _ _ (trim-is_empty c.desktop.herdr_class ∙ v.herdr_class) (
              false-or _ _ v.voxtype_bin (
                false-or _ _ v.herdr_bin
                  (identity-guards c.screen c.desktop.edge_output v.identity))))))
