-- ===== src/Herdr/Client/Server.antt =====
-- Over servers that store an ordering, the client of crates/xeneon-agent-core/src/herdr.rs is what
-- the daemon's handlers expect of it.
use mathlib.Core.Option.{some-injective}
use xeneon_edge_agents.Base.{
  ◌≡◌, ◌≢◌, refl, sym, ap, ◌∙◌, String, Bool, true, false, Option, none, some, string_eq, arith,
  Result, ok, err, and_then,
}
use xeneon_edge_agents.Model.{AgentOrderMode}
use xeneon_edge_agents.Herdr.Types.{SessionDescriptor}
use xeneon_edge_agents.Herdr.Json.{Json, get, index, as_str, is_text_at, request_of, single}
use xeneon_edge_agents.Herdr.Client.{
  HerdrHost, ask, discover, perform, set_agent_order, get_agent_order, order_accepted,
  order_of_response, order_of_text, order_text, no_params,
}
use xeneon_edge_agents.Herdr.Observe.{observe_session}
use xeneon_edge_agents.Runtime.Services.{Services, IsHerdr}
use xeneon_edge_agents.Runtime.State.{PersistedBackend}

-- Each server stores one ordering. It changes only when its own socket is asked, and a question
-- about the ordering does not change it. An answer of type `agent_order` without an error names
-- the ordering that is stored after it.
pub record IsServer {World : Type 0} (H : HerdrHost World)
    (stored : World → String → AgentOrderMode) : Type 0 where
  pub id_keeps : (w : World) (p : String) → stored (H.request_id w).1 p ≡ stored w p
  pub list_keeps : (w : World) (p : String) → stored (H.session_list w).1 p ≡ stored w p
  pub other_keeps :
      (socket : String) (r : Json) (w : World) (p : String)
      → socket ≢ p
      → stored (H.request socket r w).1 p ≡ stored w p
  pub question_keeps :
      (socket id : String) (w : World) (p : String)
      → stored (H.request socket (request_of id "agent.order.get" no_params) w).1 p ≡ stored w p
  pub answer_names :
      (socket : String) (r : Json) (w : World) (answer : Json)
      → (H.request socket r w).0 ≡ ok answer
      → get "error" answer ≡ none
      → is_text_at "type" "agent_order" (index "result" answer) ≡ true
      → as_str (index "order" (index "result" answer))
        ≡ some (order_text (stored (H.request socket r w).1 socket))

-- The services with the client's own calls in them.
abbrev pub with_herdr : (S : Services) → HerdrHost S.World → Services
with_herdr S H = record S {
  discover = discover H;
  get_agent_order = get_agent_order H;
  set_agent_order = set_agent_order H;
  perform = perform H;
  observe_session = λ d epoch offset now w. observe_session H d epoch offset now w;
}

-- The answer behind a reading of it that succeeded, and behind a test that held.
answer_of_reading {ℓ} :
    {A : Type ℓ} (answer : Result Json String) (read : Json → Option A) (a : A)
    → (elim answer [ err _ ↦ none | ok response ↦ read response ]) ≡ some a
    → (response : Json) × (answer ≡ ok response) × (read response ≡ some a)
answer_of_reading (err _) read a h = cc
answer_of_reading (ok response) read a h = (response, refl, h)

answer_of_test :
    (answer : Result Json String) (test : Json → Bool)
    → (elim answer [ err _ ↦ false | ok response ↦ test response ]) ≡ true
    → (response : Json) × (answer ≡ ok response) × (test response ≡ true)
answer_of_test (err _) test h = cc
answer_of_test (ok response) test h = (response, refl, h)

order_text-parsed : (m : AgentOrderMode) → order_of_text (order_text m) ≡ some m
unfolding order_of_text string_eq
order_text-parsed AgentOrderMode.grouped = refl
order_text-parsed AgentOrderMode.priority = refl

order_text-injective : (m n : AgentOrderMode) → order_of_text (order_text m) ≡ some n → m ≡ n
order_text-injective m n h = some-injective m n (sym (order_text-parsed m) ∙ h)

module _ {World : Type 0} (H : HerdrHost World) (stored : World → String → AgentOrderMode)
    (V : IsServer H stored) where
  -- The ordering of the server at the other end of a request.
  ask_other :
      (socket method : String) (params : Json) (w : World) (p : String)
      → socket ≢ p
      → stored (ask H socket method params w).1 p ≡ stored w p
  unfolding ask
  ask_other socket method params w p other =
      let (id, w') = H.request_id w in
      V.other_keeps socket (request_of id method params) w' p other ∙ V.id_keeps w p

  ask_order :
      (socket : String) (w : World) (p : String)
      → stored (ask H socket "agent.order.get" no_params w).1 p ≡ stored w p
  unfolding ask
  ask_order socket w p =
      let (id, w') = H.request_id w in V.question_keeps socket id w' p ∙ V.id_keeps w p

  ask_names :
      (socket method : String) (params : Json) (w : World) (answer : Json)
      → (ask H socket method params w).0 ≡ ok answer
      → get "error" answer ≡ none
      → is_text_at "type" "agent_order" (index "result" answer) ≡ true
      → as_str (index "order" (index "result" answer))
        ≡ some (order_text (stored (ask H socket method params w).1 socket))
  unfolding ask
  ask_names socket method params w answer =
      let (id, w') = H.request_id w in V.answer_names socket (request_of id method params) w' answer

  get_keeps :
      (d : SessionDescriptor) (w : World) (p : String)
      → stored (get_agent_order H d w).1 p ≡ stored w p
  unfolding get_agent_order
  get_keeps d w p = ask_order d.socket_path w p

  -- What a response says, by the two readings of it.
  response-mode :
      (response : Json) (m : AgentOrderMode)
      → order_of_response response ≡ some m
      → (get "error" response ≡ none)
        × (is_text_at "type" "agent_order" (index "result" response) ≡ true)
        × (and_then (as_str (index "order" (index "result" response))) order_of_text ≡ some m)
  unfolding order_of_response
  response-mode response m h = ground arith

  response-accepted :
      (response : Json) (m : AgentOrderMode)
      → order_accepted m response ≡ true
      → (get "error" response ≡ none)
        × (is_text_at "type" "agent_order" (index "result" response) ≡ true)
        × (as_str (index "order" (index "result" response)) ≡ some (order_text m))
  unfolding order_accepted
  response-accepted response m h = ground arith

  get_reads :
      (d : SessionDescriptor) (w : World) (m : AgentOrderMode)
      → (get_agent_order H d w).0 ≡ some m
      → stored w d.socket_path ≡ m
  unfolding get_agent_order
  get_reads d w m h =
      let (answer, w') = ask H d.socket_path "agent.order.get" no_params w in
      let (response, given, read) = answer_of_reading answer order_of_response m h in
      let (clean, typed, parsed) = response-mode response m read in
      let named =
        ask_names d.socket_path "agent.order.get" no_params w response given clean typed in
      sym (ask_order d.socket_path w d.socket_path)
      ∙ order_text-injective (stored w' d.socket_path) m
          (sym (ap (λ o. and_then o order_of_text) named) ∙ parsed)

  set_other :
      (d : SessionDescriptor) (m : AgentOrderMode) (w : World) (p : String)
      → d.socket_path ≢ p
      → stored (set_agent_order H d m w).1 p ≡ stored w p
  unfolding set_agent_order
  set_other d m w p other =
      ask_other d.socket_path "agent.order.set" (single "order" (Json.text (order_text m))) w p
        other

  set_stores :
      (d : SessionDescriptor) (m : AgentOrderMode) (w : World)
      → (set_agent_order H d m w).0 ≡ true
      → stored (set_agent_order H d m w).1 d.socket_path ≡ m
  unfolding set_agent_order
  set_stores d m w h =
      let params = single "order" (Json.text (order_text m)) in
      let (answer, w') = ask H d.socket_path "agent.order.set" params w in
      let (response, given, test) = answer_of_test answer (order_accepted m) h in
      let (clean, typed, named) = response-accepted response m test in
      let stands = ask_names d.socket_path "agent.order.set" params w response given clean typed in
      order_text-injective (stored w' d.socket_path) m
        (ap (λ o. and_then o order_of_text) (sym stands ∙ named) ∙ order_text-parsed m)

  discover_keeps : (w : World) (p : String) → stored (discover H w).1 p ≡ stored w p
  unfolding discover
  discover_keeps w p = V.list_keeps w p

-- Over Herdr servers that each store one ordering, change it only when their own socket is asked,
-- and name it in their answers, the client's calls keep every promise on the ordering that the
-- daemon's handlers rely on.
pub client-IsHerdr :
    (S : Services) (H : HerdrHost S.World) (stored : S.World → String → AgentOrderMode)
    → IsServer H stored
    → ((b : PersistedBackend) (w : S.World) (p : String) → stored (S.persist b w) p ≡ stored w p)
    → IsHerdr (with_herdr S H) stored
client-IsHerdr S H stored V persist_keeps = record {
  get_keeps = get_keeps H stored V;
  get_reads = get_reads H stored V;
  set_other = set_other H stored V;
  set_stores = set_stores H stored V;
  discover_keeps = discover_keeps H stored V;
  persist_keeps = persist_keeps;
}
