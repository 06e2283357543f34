-- ===== src/Herdr/Observe.antt =====
-- `observe_session` of crates/xeneon-agent-core/src/herdr.rs: the cards of one Herdr session.
pub mod Cards
use xeneon_edge_agents.Base.{
  ℕ, suc, ◌+◌, String, Bool, true, false, Option, none, some, List, [], ◌∷◌, ◌++◌, ◌<>◌, ◌==◌,
  nat_eq, string_eq, not, if◌then◌else◌, and_then, or_else, opt_filter, unwrap_or, Result, ok, err,
}
use xeneon_edge_agents.Base.Map.{Map, insert, lookup}
use xeneon_edge_agents.Base.Paths.{file_name}
use xeneon_edge_agents.Base.Text.{trim, is_empty, decimal}
use xeneon_edge_agents.Model.{AgentActions, AgentOrderMode, AgentView, SessionState}
use xeneon_edge_agents.Herdr.Types.{HerdrTarget, SessionDescriptor, SessionObservation}
use xeneon_edge_agents.Herdr.Json.{Json}
use xeneon_edge_agents.Herdr.Wire.{
  Pong, HerdrAgent, HerdrSnapshot, HerdrTab, HerdrWorkspace, HerdrWorkspaceWorktree,
}
use xeneon_edge_agents.Herdr.Actions.{actions_from_extra}
use xeneon_edge_agents.Herdr.Client.{HerdrHost, ask, get_agent_order, no_params}

abbrev pub supported_herdr_protocol : ℕ
supported_herdr_protocol = 20

unfoldable pub nonblank : Option String → Option String
unfolding trim
nonblank none = none
nonblank (some value) = let text = trim value in if is_empty text then none else some text

unfoldable pub display_name : HerdrAgent → Map String → String → String
unfolding nonblank lookup
display_name raw tabs agent_name =
    unwrap_or
      (or_else (nonblank (lookup raw.tab_id tabs))
        (or_else (nonblank raw.display_agent) (nonblank raw.name)))
      agent_name

unfoldable pub workspace_map : List HerdrWorkspace → Map HerdrWorkspace → Map HerdrWorkspace
unfolding insert
workspace_map [] m = m
workspace_map (ws ∷ others) m = workspace_map others (insert ws.workspace_id ws m)

unfoldable pub tab_map : List HerdrTab → Map String → Map String
unfolding insert
tab_map [] m = m
tab_map (tab ∷ others) m = tab_map others (insert tab.tab_id tab.label m)

abbrev worktree_of : Option HerdrWorkspace → Option HerdrWorkspaceWorktree
worktree_of none = none
worktree_of (some ws) = ws.worktree

unfoldable pub workspace_text : HerdrAgent → Option HerdrWorkspace → String
unfolding decimal
workspace_text raw none = raw.workspace_id
workspace_text raw (some ws) = decimal ws.number <> " · " <> ws.label

unfoldable pub repository_of : HerdrAgent → Option HerdrWorkspace → Option String
unfolding file_name
repository_of raw ws =
    or_else (and_then (worktree_of ws) (λ t. some t.repo_name))
      (and_then (or_else raw.foreground_cwd raw.cwd) file_name)

unfoldable pub linked_worktree_of : Option HerdrWorkspace → Option String
unfolding file_name
linked_worktree_of ws =
    and_then (opt_filter (λ t. t.is_linked_worktree) (worktree_of ws))
      (λ t. file_name t.checkout_path)

-- What the loop over the agents has gathered.
pub record Gathered : Type 0 where
  pub agents : List AgentView
  pub targets : Map HerdrTarget
  pub pane_ids : List String

abbrev pub is_supported : Pong → Bool
is_supported pong = pong.protocol == supported_herdr_protocol

module _ {World : Type 0} (H : HerdrHost World) (d : SessionDescriptor) (epoch : String) where
  unfoldable pub opaque_agent_id : String → String
  opaque_agent_id terminal_id = H.uuid_v5 (epoch <> "\0" <> d.name <> "\0" <> terminal_id)

  unfoldable pub target_of : HerdrAgent → HerdrTarget
  target_of raw = record {
    session = d.name;
    socket_path = d.socket_path;
    pane_id = raw.pane_id;
    terminal_id = raw.terminal_id;
    state_change_seq = raw.state_change_seq;
    revision = raw.revision;
  }

  unfoldable pub card_of : HerdrAgent → Map HerdrWorkspace → Map String → ℕ → AgentView
  unfolding opaque_agent_id display_name nonblank workspace_text repository_of linked_worktree_of
      actions_from_extra lookup
  card_of raw workspaces tabs position =
      let ws = lookup raw.workspace_id workspaces in
      let agent_name = unwrap_or (nonblank raw.agent) "agent" in
      record {
        id = opaque_agent_id raw.terminal_id;
        display_name = display_name raw tabs agent_name;
        agent = agent_name;
        status = raw.agent_status;
        review_ready = false;
        launch_pending = raw.launch_pending;
        workspace = workspace_text raw ws;
        repository = repository_of raw ws;
        worktree = linked_worktree_of ws;
        session = d.name;
        focused = raw.focused;
        observed_for_seconds = 0;
        state_change_seq = raw.state_change_seq;
        source_order = position;
        actions = record (actions_from_extra raw.extra raw.revision) {
          can_open = true;
          can_zoom = true;
        };
      }

  unfoldable pub gather :
      Map HerdrWorkspace → Map String → ℕ → List HerdrAgent → Gathered → Gathered
  unfolding opaque_agent_id target_of card_of insert
  gather workspaces tabs position [] g = g
  gather workspaces tabs position (raw ∷ others) g =
      gather workspaces tabs (suc position) others (record {
        agents = g.agents ++ (card_of raw workspaces tabs position ∷ []);
        targets = insert (opaque_agent_id raw.terminal_id) (target_of raw) g.targets;
        pane_ids = g.pane_ids ++ (raw.pane_id ∷ []);
      })

  unfoldable pub incompatible : Pong → ℕ → SessionObservation
  unfolding decimal
  incompatible pong now = record {
    session = record {
      name = d.name;
      state = SessionState.incompatible;
      version = some pong.version;
      protocol = some pong.protocol;
      last_sync_ms = some now;
      message = some (
          "Herdr protocol "
          <> decimal pong.protocol
          <> " is unsupported; expected "
          <> decimal supported_herdr_protocol);
    };
    agents = [];
    targets = [];
    pane_ids = [];
    agent_order = none;
  }

  unfoldable pub connected : Pong → Gathered → Option AgentOrderMode → ℕ → SessionObservation
  connected pong g order now = record {
    session = record {
      name = d.name;
      state = SessionState.connected;
      version = some pong.version;
      protocol = some pong.protocol;
      last_sync_ms = some now;
      message = none;
    };
    agents = g.agents;
    targets = g.targets;
    pane_ids = g.pane_ids;
    agent_order = order;
  }

  unfoldable pub gathered_of : HerdrSnapshot → ℕ → Gathered
  unfolding gather workspace_map tab_map
  gathered_of s offset =
      gather (workspace_map s.workspaces []) (tab_map s.tabs []) offset s.agents
        (record { agents = []; targets = []; pane_ids = [] })

  -- A typed `request`: it fails if the exchange does or the answer has another shape.
  unfoldable pub ask_for {ℓ} : {A : Type ℓ} → String → (Json → Option A) → World → Option A × World
  unfolding ask
  ask_for method parse w =
      let (answer, w') = ask H d.socket_path method no_params w in
      (elim answer [ err _ ↦ none | ok response ↦ parse response ], w')

  -- What the answers to the three requests make.
  unfoldable pub observed :
      ℕ → ℕ → Option Pong → Option HerdrSnapshot → Option AgentOrderMode → Option SessionObservation
  unfolding gathered_of incompatible connected
  observed offset now none response order = none
  observed offset now (some pong) none order =
      if not (is_supported pong) then some (incompatible pong now) else none
  observed offset now (some pong) (some s) order =
      if not (is_supported pong)
      then some (incompatible pong now)
      else some (connected pong (gathered_of s offset) order now)

  -- How many of the requests are made.
  abbrev pub last_world : Option Pong → Option HerdrSnapshot → World → World → World → World
  last_world none response w₁ w₂ w₃ = w₁
  last_world (some pong) none w₁ w₂ w₃ = if not (is_supported pong) then w₁ else w₂
  last_world (some pong) (some s) w₁ w₂ w₃ = if not (is_supported pong) then w₁ else w₃

  unfoldable pub observe_session : ℕ → ℕ → World → Option SessionObservation × World
  unfolding ask_for get_agent_order observed
  observe_session offset now w =
      let (ping, w₁) = ask_for "ping" H.parse_pong w in
      let (response, w₂) = ask_for "session.snapshot" H.parse_snapshot w₁ in
      let (order, w₃) = get_agent_order H d w₂ in
      (observed offset now ping response order, last_world ping response w₁ w₂ w₃)
