-- ===== src/Tests/Servers.antt =====
-- A Herdr server that stores an ordering, and samples of the device and the configuration.
use xeneon_edge_agents.Base.Text.{is_whitespace}
use xeneon_edge_agents.Base.{
  ◌≡◌, ◌≢◌, ◌↔◌, refl, sym, ap, ◌∙◌, String, false, Option, none, some, [], ◌∷◌, ==_self, ==_ne,
  string_eq, nat_eq, option_eq, Result, ok, if◌then◌else◌, and_then, unwrap_or, ok_injective, subst,
}
use xeneon_edge_agents.Base.Map.{Map, insert, lookup, lookup-insert}
use xeneon_edge_agents.Model.{ActionKind, AgentOrderMode, AgentStatus}
use xeneon_edge_agents.Runtime.Services.{IsHerdr}
use xeneon_edge_agents.Herdr.{SessionObservation}
use xeneon_edge_agents.Herdr.Json.{Json, Members, Values, index, as_str, is_text_at, single}
use xeneon_edge_agents.Herdr.Wire.{HerdrAgent}
use xeneon_edge_agents.Herdr.Actions.{actions_from_extra}
use xeneon_edge_agents.Herdr.Actions.Latest.{latest, entries_of, actions_from_extra-latest}
use xeneon_edge_agents.Herdr.Client.{HerdrHost, order_text, order_of_text}
use xeneon_edge_agents.Herdr.Client.Server.{IsServer, with_herdr, client-IsHerdr}
use xeneon_edge_agents.Herdr.Observe.{observe_session, connected, gathered_of}
use xeneon_edge_agents.Herdr.Observe.Cards.{IsSound, observe_session-IsSound}
use xeneon_edge_agents.Config.{config_default, validate}
use xeneon_edge_agents.Config.Valid.{IsValid}
use xeneon_edge_agents.Config.Validity.{validate_iff}
use xeneon_edge_agents.Micro.{sample, first_status}
use xeneon_edge_agents.Micro.Bounds.{IsBounded, sample-IsBounded}
use xeneon_edge_agents.Tests.Demo.{World, stores, demo, left_session}

-- The ordering that a request asks for.
wanted : Json → Option AgentOrderMode
wanted r =
    if is_text_at "method" "agent.order.set" r
    then and_then (as_str (index "order" (index "params" r))) order_of_text
    else none

abbrev answer : AgentOrderMode → Json
answer m = single "result" (
    Json.object (
      Members.member "type" (Json.text "agent_order")
        (Members.member "order" (Json.text (order_text m)) Members.no_members)))

abbrev served : Option AgentOrderMode → String → World → Result Json String × World
served none socket w = (ok (answer (stores w socket)), w)
served (some m) socket w = (ok (answer m), insert socket m w)

abbrev one_agent : HerdrAgent
one_agent = record {
  terminal_id = "t1";
  agent = some "codex";
  display_agent = none;
  name = none;
  agent_status = AgentStatus.working;
  workspace_id = "w";
  tab_id = "tab";
  pane_id = "p1";
  focused = false;
  launch_pending = false;
  state_change_seq = 4;
  cwd = some "/work/portal";
  foreground_cwd = none;
  revision = 2;
  extra = [];
}

abbrev server : HerdrHost World
unfolding wanted
server = record {
  request_id = λ w. ("id", w);
  request = λ socket r w. served (wanted r) socket w;
  show_json = λ _. "{}";
  parse_pong = λ _. some (record { version = "1"; protocol = 20 });
  parse_snapshot = λ _. some (record { workspaces = []; tabs = []; agents = one_agent ∷ [] });
  session_list = λ w. (some (left_session ∷ []), w);
  uuid_v5 = λ name. name;
}

stores_other :
    (socket p : String) (m : AgentOrderMode) (w : World)
    → socket ≢ p
    → lookup p (insert socket m w) ≡ lookup p w
stores_other socket p m w h = lookup-insert socket p m w ∙ rw (==_ne socket p h) refl

stores_own :
    (socket : String) (m : AgentOrderMode) (w : World) → lookup socket (insert socket m w) ≡ some m
stores_own socket m w = lookup-insert socket socket m w ∙ rw (==_self socket) refl

served-other :
    (o : Option AgentOrderMode) (socket : String) (w : World) (p : String)
    → socket ≢ p
    → stores (served o socket w).1 p ≡ stores w p
unfolding stores
served-other none socket w p h = refl
served-other (some m) socket w p h =
    ap (λ o. unwrap_or o AgentOrderMode.grouped) (stores_other socket p m w h)

answer-order :
    (m : AgentOrderMode) → as_str (index "order" (index "result" (answer m))) ≡ some (order_text m)
unfolding index as_str string_eq
answer-order m = refl

served-names :
    (o : Option AgentOrderMode) (socket : String) (w : World) (a : Json)
    → (served o socket w).0 ≡ ok a
    → as_str (index "order" (index "result" a))
      ≡ some (order_text (stores (served o socket w).1 socket))
unfolding stores
served-names none socket w a h =
    subst (λ j. as_str (index "order" (index "result" j)) ≡ some (order_text (stores w socket)))
      (ok_injective h) (answer-order (stores w socket))
served-names (some m) socket w a h =
    subst
      (λ j.
        as_str (index "order" (index "result" j))
        ≡ some (order_text (stores (insert socket m w) socket)))
      (ok_injective h)
      (answer-order m
        ∙ ap (λ x. some (order_text (unwrap_or x AgentOrderMode.grouped)))
            (sym (stores_own socket m w)))

server-IsServer : IsServer server stores
unfolding server is_text_at string_eq
server-IsServer = record {
  id_keeps = λ w p. refl;
  list_keeps = λ w p. refl;
  other_keeps = λ socket r w p h. served-other (wanted r) socket w p h;
  question_keeps = λ socket id w p. refl;
  answer_names = λ socket r w a h clean typed. served-names (wanted r) socket w a h;
}

client-IsHerdr_example : IsHerdr (with_herdr demo server) stores
client-IsHerdr_example = client-IsHerdr demo server stores server-IsServer (λ b w p. refl)

abbrev seen : SessionObservation
seen =
    connected server left_session "e" (record { version = "1"; protocol = 20 })
      (gathered_of server left_session "e"
        (record { workspaces = []; tabs = []; agents = one_agent ∷ [] }) 3)
      (some AgentOrderMode.grouped) 9

observed_first : (observe_session server left_session "e" 3 9 []).0 ≡ some seen
unfolding observe_session server string_eq nat_eq stores
observed_first = refl

observe_session-IsSound_example : IsSound server left_session "e" 3 seen
observe_session-IsSound_example =
    observe_session-IsSound server left_session "e" 3 9 [] seen observed_first

abbrev entry : String → Json
entry id = Json.object (
    Members.member "action" (Json.text "approve")
      (Members.member "capability_id" (Json.text id) Members.no_members))

abbrev offered : Map Json
offered =
    ("actions", Json.array (Values.value (entry "x") (Values.value (entry "y") Values.no_values)))
    ∷ []

actions_from_extra-latest_example :
    ((actions_from_extra offered 2).approve ≡ latest 2 ActionKind.approve (entries_of offered))
    × ((actions_from_extra offered 2).interrupt
        ≡ latest 2 ActionKind.interrupt (entries_of offered))
actions_from_extra-latest_example = actions_from_extra-latest offered 2

validate_iff_example : (validate config_default ≡ ok tt) ↔ IsValid config_default
validate_iff_example = validate_iff config_default

default_passes : validate config_default ≡ ok tt
unfolding validate nat_eq is_whitespace
default_passes = refl

abbrev status_line : Json
status_line = Json.object (
    Members.member "event" (Json.text "device_message") (
      Members.member "message"
        (Json.object (
          Members.member "method" (Json.text "device.status") (
            Members.member "result"
              (Json.object (
                Members.member "version" (Json.text "v1.2")
                  (Members.member "battery" (Json.number 140) Members.no_members)))
              Members.no_members)))
        Members.no_members))

sample-IsBounded_example :
    IsBounded (sample (first_status (none ∷ some status_line ∷ []) 7) (some Json.null) 7)
sample-IsBounded_example = sample-IsBounded (none ∷ some status_line ∷ []) (some Json.null) 7
