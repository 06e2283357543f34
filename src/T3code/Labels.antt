-- ===== src/T3code/Labels.antt =====
-- The texts of a T3 Code card: `sanitize`, `path_leaf` and the labels made with them.
pub mod Clean
use Prim.Native.Char.{Char, code}
use xeneon_edge_agents.Base.{
  ℕ, String, Bool, true, false, Option, none, some, List, [], ◌∷◌, ◌==◌, string_eq, nat_eq, ◌&&◌,
  ◌||◌, ◌<>◌, if◌then◌else◌, not, unwrap_or, and_then, or_else, opt_filter,
}
use xeneon_edge_agents.Base.Text.{is_empty, trim, trim_end}
use xeneon_edge_agents.Base.Chars.{
  is_control, is_ascii_alphanumeric, to_ascii_lowercase, filter_chars, take_chars,
}
use xeneon_edge_agents.Base.Paths.{file_name}
use xeneon_edge_agents.T3code.Rows.{ThreadRow}

abbrev pub max_title_chars : ℕ
max_title_chars = 120

abbrev pub max_label_chars : ℕ
max_label_chars = 96

abbrev pub option_map : (String → String) → Option String → Option String
option_map f none = none
option_map f (some a) = some (f a)

unfoldable pub sanitize : String → ℕ → String
unfolding trim trim_end filter_chars take_chars is_control
sanitize value limit =
    trim_end (take_chars limit (filter_chars (λ c. not (is_control c)) (trim value)))

unfoldable pub path_leaf : String → Option String
unfolding file_name trim
path_leaf value = opt_filter (λ name. not (is_empty name)) (file_name (trim value))

unfoldable pub display_name : ThreadRow → String
unfolding sanitize
display_name row =
    let title = sanitize row.title max_title_chars in
    if is_empty title then "T3 Code thread" else title

unfoldable pub agent_kind : Option String → String
unfolding trim filter_chars take_chars to_ascii_lowercase is_ascii_alphanumeric
agent_kind none = "agent"
agent_kind (some provider) =
    let value = trim provider in
    let kind =
      to_ascii_lowercase
        (take_chars 24 (filter_chars (λ c. is_ascii_alphanumeric c || c == 45) value)) in
    if value == "claudeAgent"
    then "claude"
    else if is_empty value
    then "agent"
    else if is_empty kind
    then "agent"
    else kind

-- The leaf of a path as a label.
unfoldable pub leaf_label : Option String → Option String
unfolding path_leaf sanitize
leaf_label path = option_map (λ leaf. sanitize leaf max_label_chars) (and_then path path_leaf)

nonempty : Option String → Option String
nonempty = opt_filter (λ text. not (is_empty text))

unfoldable pub workspace_label : ThreadRow → String
unfolding leaf_label sanitize nonempty
workspace_label row =
    let title = nonempty (option_map (λ title. sanitize title max_label_chars) row.project_title) in
    let project = unwrap_or (or_else title (leaf_label row.workspace_root)) "T3 Code" in
    elim (nonempty (option_map (λ branch. sanitize branch 64) row.branch)) [
      | some branch ↦ project <> " · " <> branch
      | none ↦ project
    ]
