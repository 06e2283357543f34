-- ===== src/Herdr/Client.antt =====
-- The calls of crates/xeneon-agent-core/src/herdr.rs that ask a session for one thing.
pub mod Server
use xeneon_edge_agents.Base.{
  ℕ, String, Bool, true, false, Option, none, some, List, [], ◌∷◌, ◌<>◌, ◌==◌, string_eq, not, ◌&&◌,
  if◌then◌else◌, filter, and_then, is_some, Result, ok, err, ok_or, ◌>>=◌,
}
use xeneon_edge_agents.Model.{ActionKind, AgentOrderMode}
use xeneon_edge_agents.Herdr.Types.{HerdrTarget, SessionDescriptor}
use xeneon_edge_agents.Herdr.Json.{
  Json, Members, get, index, as_str, is_text_at, single, request_of,
}
use xeneon_edge_agents.Herdr.Wire.{Pong, HerdrSnapshot}

-- What the client reaches: the sockets of the sessions, the command that lists them, and what serde
-- and the Uuids make.
pub record HerdrHost (World : Type 0) : Type 0 where
  -- A fresh `request_id`.
  pub request_id : World → String × World
  -- One exchange on a socket; the error is the message of a failed one.
  pub request : String → Json → World → Result Json String × World
  pub show_json : Json → String
  pub parse_pong : Json → Option Pong
  pub parse_snapshot : Json → Option HerdrSnapshot
  pub session_list : World → Option (List SessionDescriptor) × World
  pub uuid_v5 : String → String

abbrev pub order_text : AgentOrderMode → String
order_text AgentOrderMode.grouped = "grouped"
order_text AgentOrderMode.priority = "priority"

unfoldable pub order_of_text : String → Option AgentOrderMode
order_of_text s =
    if s == "grouped"
    then some AgentOrderMode.grouped
    else if s == "priority"
    then some AgentOrderMode.priority
    else none

abbrev pub no_params : Json
no_params = Json.object Members.no_members

unfoldable pub order_accepted : AgentOrderMode → Json → Bool
unfolding get index is_text_at
order_accepted mode response =
    not (is_some (get "error" response))
    && is_text_at "type" "agent_order" (index "result" response)
    && is_text_at "order" (order_text mode) (index "result" response)

unfoldable pub order_of_response : Json → Option AgentOrderMode
unfolding get index is_text_at as_str order_of_text
order_of_response response =
    let result = index "result" response in
    if is_some (get "error" response)
    then none
    else if not (is_text_at "type" "agent_order" result)
    then none
    else and_then (as_str (index "order" result)) order_of_text

-- The method and the parameters of an action, or why there are none.
unfoldable pub payload_of : HerdrTarget → ActionKind → Option String → Result (String × Json) String
payload_of target ActionKind.open_agent capability =
    ok ("agent.focus", single "target" (Json.text target.pane_id))
payload_of target ActionKind.zoom capability = ok (
  "pane.zoom",
  Json.object (
      Members.member "pane_id" (Json.text target.pane_id)
        (Members.member "mode" (Json.text "toggle") Members.no_members)),
)
payload_of target ActionKind.approve capability = ok_or capability "missing capability" >>= λ c.
    ok ("agent.perform_action", single "capability_id" (Json.text c))
payload_of target ActionKind.interrupt capability = ok_or capability "missing capability" >>= λ c.
    ok ("agent.perform_action", single "capability_id" (Json.text c))
payload_of target ActionKind.restore_focus capability = err "action is owned by the desktop adapter"
payload_of target ActionKind.chatgpt_desktop capability =
    err "action is owned by the desktop adapter"
payload_of target ActionKind.claude_desktop capability =
    err "action is owned by the desktop adapter"
payload_of target ActionKind.voice_start capability = err "voice action is not a Herdr action"
payload_of target ActionKind.voice_stop capability = err "voice action is not a Herdr action"
payload_of target ActionKind.voice_cancel capability = err "voice action is not a Herdr action"
payload_of target ActionKind.order_grouped capability =
    err "agent ordering is not an agent-target action"
payload_of target ActionKind.order_priority capability =
    err "agent ordering is not an agent-target action"
payload_of target ActionKind.backend_herdr capability =
    err "agent manager selection is not an agent-target action"
payload_of target ActionKind.backend_t3code capability =
    err "agent manager selection is not an agent-target action"

module _ {World : Type 0} (H : HerdrHost World) where
  -- A request under a fresh id.
  unfoldable pub ask : String → String → Json → World → Result Json String × World
  ask socket method params w =
      let (id, w') = H.request_id w in H.request socket (request_of id method params) w'

  unfoldable pub discover : World → Option (List SessionDescriptor) × World
  discover w =
      let (listed, w') = H.session_list w in
      (and_then listed (λ sessions. some (filter (λ s. s.running) sessions)), w')

  unfoldable pub set_agent_order : SessionDescriptor → AgentOrderMode → World → Bool × World
  unfolding ask order_accepted
  set_agent_order d mode w =
      let params = single "order" (Json.text (order_text mode)) in
      let (answer, w') = ask d.socket_path "agent.order.set" params w in
      (elim answer [ err _ ↦ false | ok response ↦ order_accepted mode response ], w')

  -- `read_agent_order`
  unfoldable pub get_agent_order : SessionDescriptor → World → Option AgentOrderMode × World
  unfolding ask order_of_response
  get_agent_order d w =
      let (answer, w') = ask d.socket_path "agent.order.get" no_params w in
      (elim answer [ err _ ↦ none | ok response ↦ order_of_response response ], w')

  unfoldable pub perform :
      HerdrTarget → ActionKind → Option String → World → Result (Unit {0}) String × World
  unfolding payload_of ask get
  perform target action capability w = elim (payload_of target action capability) [
    | err e ↦ (err e, w)
    | ok (method, params) ↦
        let (answer, w') = ask target.socket_path method params w in
        (
          elim answer [
            | err e ↦ err e
            | ok response ↦ elim (get "error" response) [
              | some error ↦ err ("Herdr action failed: " <> H.show_json error)
              | none ↦ ok tt
            ]
          ],
          w',
        )
  ]
