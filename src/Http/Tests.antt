-- ===== src/Http/Tests.antt =====
-- Requests to the HTTP API at concrete data.
use miss_raspberry_agent.Prelude.{
  if◌then◌else◌, pos, ◌≡◌, refl, true, false, none, some, [], ◌∷◌, ◌++◌, arith, Text, codes,
  text_eq, is_empty, ok, err,
}
use miss_raspberry_agent.Todo
use miss_raspberry_agent.Todo.Laws.{IsValid-new_store}
use miss_raspberry_agent.Messaging.{Request}
use miss_raspberry_agent.Tagging.{Tag, TagSet}
use miss_raspberry_agent.Tagging.Service.{Sets}
use miss_raspberry_agent.Napcat.Client.{new_client}
use miss_raspberry_agent.Health.{app_checks, check_health}
use miss_raspberry_agent.Http.{
  Api, HttpRequest, World, route, post_message, post_tag_set, post_tag, is_authorized, respond,
  alive, handle,
}
use miss_raspberry_agent.Http.Access.{Public, handle_unauthorized}
use miss_raspberry_agent.Http.Outcomes.{
  SendOutcome, RegisterOutcome, post_message_lem, post_tag_set_lem,
}
use miss_raspberry_agent.Http.TagAnswers.{TagOutcome, post_tag_lem}

abbrev urgent_tag : Tag
urgent_tag = record { name = codes "urgent"; description = []; apply_rule = codes "asks for help" }

abbrev moods_set : TagSet
moods_set = record { name = codes "moods"; prompt = codes "choose"; tags = urgent_tag ∷ [] }

abbrev hello : Request
hello = record {
  platform = codes "qq";
  target_id = codes "42";
  content = codes "hello";
  context = [];
}

-- An API whose decoders know one body each.
abbrev pub test_api : Api
test_api = record {
  bind_message = λ body. if is_empty body then err (codes "EOF") else ok hello;
  bind_tag_set = λ body. if is_empty body then err (codes "EOF") else ok moods_set;
  bind_tag = λ body.
      if is_empty body
      then err (codes "EOF")
      else ok (record { name = codes "moods"; text = codes "help!" });
  readiness_of =
      λ w. check_health w.queue app_checks (record { connected = true; client = new_client });
  tagger = some (λ set text. ok (record { name = codes "urgent"; reason = codes "asks" }));
  token = codes "secret";
  unrouted = λ req. respond 404 alive;
}

abbrev request_of : Text → Text → Text → HttpRequest
request_of method path token = record {
  method = method;
  path = path;
  authorization = codes "Bearer " ++ token;
  body = codes "{}";
  ctx = none;
}

abbrev pub messages_request : Text → HttpRequest
messages_request = request_of (codes "POST") (codes "/api/v1/agents/main/messages")

abbrev empty_world : World
empty_world = record { queue = some Todo.new_store; sets = some [] }

wrong_token :
    text_eq (messages_request (codes "wrong")).authorization (codes "Bearer " ++ test_api.token)
    ≡ false
unfolding text_eq
wrong_token = refl

handle_unauthorized_example :
    ((handle test_api (pos 9) (messages_request (codes "wrong")) empty_world).0 ≡ empty_world)
    × Public test_api
        (messages_request (codes "wrong"))
        (handle test_api (pos 9) (messages_request (codes "wrong")) empty_world).1
    × ((w' : World)
        → (handle test_api (pos 9) (messages_request (codes "wrong")) w').1
          ≡ (handle test_api (pos 9) (messages_request (codes "wrong")) empty_world).1)
handle_unauthorized_example =
    handle_unauthorized test_api (pos 9) (messages_request (codes "wrong")) empty_world wrong_token

messages_routed : route (messages_request (codes "secret")) ≡ post_message
unfolding route text_eq
messages_routed = refl

messages_authorized : is_authorized test_api.token (messages_request (codes "secret")) ≡ true
unfolding is_authorized text_eq
messages_authorized = refl

post_message_lem_example :
    SendOutcome test_api
      (pos 9)
      (messages_request (codes "secret"))
      Todo.new_store
      (some [])
      (handle test_api (pos 9) (messages_request (codes "secret")) empty_world)
post_message_lem_example =
    post_message_lem test_api (pos 9) (messages_request (codes "secret")) Todo.new_store (some [])
      messages_routed messages_authorized IsValid-new_store (omega arith)

abbrev tag_sets_request : HttpRequest
tag_sets_request =
    request_of (codes "POST") (codes "/api/v1/agents/tagger/tag-sets") (codes "secret")

tag_sets_routed : route tag_sets_request ≡ post_tag_set
unfolding route text_eq
tag_sets_routed = refl

tag_sets_authorized : is_authorized test_api.token tag_sets_request ≡ true
unfolding is_authorized text_eq
tag_sets_authorized = refl

post_tag_set_lem_example :
    RegisterOutcome test_api
      (pos 9)
      tag_sets_request
      (some Todo.new_store)
      []
      (handle test_api (pos 9) tag_sets_request empty_world)
post_tag_set_lem_example =
    post_tag_set_lem test_api (pos 9) tag_sets_request (some Todo.new_store) [] tag_sets_routed
      tag_sets_authorized

abbrev tag_request : HttpRequest
tag_request = request_of (codes "POST") (codes "/api/v1/agents/tagger/tag") (codes "secret")

abbrev mood_sets : Sets
mood_sets = (codes "moods", moods_set) ∷ []

tag_routed : route tag_request ≡ post_tag
unfolding route text_eq
tag_routed = refl

tag_authorized : is_authorized test_api.token tag_request ≡ true
unfolding is_authorized text_eq
tag_authorized = refl

post_tag_lem_example :
    (let world : World = record { queue = none; sets = some mood_sets } in
      ((handle test_api (pos 9) tag_request world).0 ≡ world)
      × TagOutcome test_api
          (pos 9)
          tag_request
          none
          mood_sets
          (handle test_api (pos 9) tag_request world).1)
post_tag_lem_example =
    post_tag_lem test_api (pos 9) tag_request none mood_sets tag_routed tag_authorized
