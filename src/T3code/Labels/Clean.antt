-- ===== src/T3code/Labels/Clean.antt =====
-- The texts of a card are short, hold no control character and end in no white space.
use xeneon_edge_agents.Base.{ℕ, ◌≤◌, ◌≡◌, refl, String, Bool, true, not, arith}
use xeneon_edge_agents.Base.Text.{trim, trim_end}
use xeneon_edge_agents.Base.Chars.{
  is_control, filter_chars, take_chars, char_count, all_chars, char_count-take_chars,
  take_chars_of_count, all_chars-take_chars, all_chars-filter_chars, filter_chars_of_all,
}
use xeneon_edge_agents.T3code.Labels.{sanitize}

-- A text of at most `limit` characters without control characters or white space at its end.
abbrev pub IsClean : ℕ → String → Type 0
IsClean limit s =
    (char_count s ≤ limit) × (all_chars (λ c. not (is_control c)) s ≡ true) × (trim_end s ≡ s)

char_count-trim_end : (s : String) → char_count (trim_end s) ≤ char_count s
unfolding char_count trim_end
char_count-trim_end String.[] = omega arith
char_count-trim_end (String.◌∷◌ c s) = ground (arith, char_count-trim_end s)

all_chars-trim_end :
    (p : ℕ → Bool) (s : String) → all_chars p s ≡ true → all_chars p (trim_end s) ≡ true
unfolding all_chars trim_end
all_chars-trim_end p String.[] h = refl
all_chars-trim_end p (String.◌∷◌ c s) h = ground (arith, all_chars-trim_end p s)

trim_end_idem : (s : String) → trim_end (trim_end s) ≡ trim_end s
unfolding trim_end
trim_end_idem String.[] = refl
trim_end_idem (String.◌∷◌ c s) = ground (arith, trim_end_idem s)

sanitize-IsClean : (value : String) (limit : ℕ) → IsClean limit (sanitize value limit)
unfolding sanitize
sanitize-IsClean value limit =
    let visible = filter_chars (λ c. not (is_control c)) (trim value) in
    let short = take_chars limit visible in
    (
      omega (arith, char_count-trim_end short, char_count-take_chars limit visible),
      all_chars-trim_end (λ c. not (is_control c)) short
          (all_chars-take_chars (λ c. not (is_control c)) limit visible
            (all_chars-filter_chars (λ c. not (is_control c)) (trim value))),
      trim_end_idem short,
    )

sanitize_of_clean :
    (value : String) (limit : ℕ)
    → IsClean limit value
    → trim value ≡ value
    → sanitize value limit ≡ value
unfolding sanitize
sanitize_of_clean value limit (short, visible, ended) trimmed =
    rw
      (
        trimmed,
        filter_chars_of_all (λ c. not (is_control c)) value visible,
        take_chars_of_count limit value short,
      )
      ended
