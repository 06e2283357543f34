-- ===== src/Base/Paths.antt =====
-- `std::path`: the last component of a path.
use Prim.Native.Char.{Char, code}
use Prim.Native.String.{String}
use mathlib.Core.Bool.{◌||◌, not}
use mathlib.Core.Option.{Option, none, some}
use mathlib.Core.List.{List, [], ◌∷◌}
use xeneon_edge_agents.Base.Tests.{if◌then◌else◌}
use xeneon_edge_agents.Base.Equality.{◌==◌, nat_eq, string_eq}
use xeneon_edge_agents.Base.Results.{or_else, opt_filter}
use xeneon_edge_agents.Base.Text.{is_empty}

-- The pieces of a path between its separators.
add_first : Char → List String → List String
add_first c [] = String.◌∷◌ c String.[] ∷ []
add_first c (piece ∷ pieces) = String.◌∷◌ c piece ∷ pieces

split_path : String → List String
unfolding add_first
split_path String.[] = String.[] ∷ []
split_path (String.◌∷◌ c s) =
    let rest = split_path s in if code c == 47 then String.[] ∷ rest else add_first c rest

-- The last component: empty pieces and `.` are none.
last_component : List String → Option String
last_component [] = none
last_component (piece ∷ pieces) =
    or_else (last_component pieces) (if is_empty piece || piece == "." then none else some piece)

-- `Path::file_name`: the last component, unless it is `..`.
unfoldable pub file_name : String → Option String
unfolding split_path last_component
file_name path = opt_filter (λ name. not (name == "..")) (last_component (split_path path))
