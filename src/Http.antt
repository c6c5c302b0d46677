-- ===== src/Http.antt =====
-- internal/adapter/http: the routes, the token check, and the handlers, from a request to a status and a
-- body. The bodies' JSON is given by the data that it encodes, and an error's text by the error.
pub mod Access
pub mod Outcomes
pub mod TagAnswers
pub mod Tests
use miss_raspberry_agent.Prelude.{
  if◌then◌else◌, length, ℤ, ℕ, Bool, true, false, ◌||◌, Option, none, some, ◌++◌, Text, codes,
  text_eq, Result, ok, err, Ctx,
}
use miss_raspberry_agent.Todo
use miss_raspberry_agent.Messaging.{
  Request, SubmitError, context_done, unsupported_platform, content_required, target_required,
  no_queue, target_not_positive, submit,
}
use miss_raspberry_agent.Tagging.{Tag, TagSet, Choice, RunError}
use miss_raspberry_agent.Tagging.Service
use miss_raspberry_agent.Tagging.Service.{
  Sets, ServiceError, set_name_required, prompt_required, no_tags, text_required, tag_name_required,
  rule_required, duplicate_name, not_found, register_set, Match, tag_text,
}
use miss_raspberry_agent.Health.{Report}

-- The requests' bodies; dto.SendMessageRequest has the fields of messaging's Message, and
-- dto.RegisterTagSetRequest those of a TagSet.
pub record TagRequest : Type 0 where
  pub name : Text
  pub text : Text

pub record TagItem : Type 0 where
  pub name : Text
  pub reason : Text

pub data Failure : Type 0 where
  unauthorized internal_error : Failure
  invalid_body : Text → Failure
  submit_failed : SubmitError → Failure
  tagging_failed : ServiceError → Failure

pub data Body : Type 0 where
  alive : Body
  readiness : Report → Body
  queued : Text → Body
  registered : Text → ℕ → Body
  tagged : Text → Option TagItem → Body
  failure : Failure → Body

pub record Response : Type 0 where
  pub status : ℕ
  pub body : Body

abbrev pub respond : ℕ → Body → Response
respond status body = record { status = status; body = body }

-- What the handlers work on: the todo queue and the tag sets
pub record World : Type 0 where
  pub queue : Option Todo.Store
  pub sets : Option Sets

pub record HttpRequest : Type 0 where
  pub method : Text
  pub path : Text
  pub authorization : Text
  pub body : Text
  pub ctx : Ctx

-- What the router is built with: the decoders of ShouldBindJSON, the readiness check, the tagger, the
-- API token, and what gin answers to a request without a route.
pub record Api : Type 0 where
  pub bind_message : Text → Result Text Request
  pub bind_tag_set : Text → Result Text TagSet
  pub bind_tag : Text → Result Text TagRequest
  pub readiness_of : World → Report × Bool
  pub tagger : Option (TagSet → Text → Result RunError Choice)
  pub token : Text
  pub unrouted : HttpRequest → Response

-- The switch of MessageHandler.Send on an error
unfoldable pub send_failure : SubmitError → Response
send_failure (unsupported_platform p) =
    respond 422 (failure (submit_failed (unsupported_platform p)))
send_failure content_required = respond 400 (failure (submit_failed content_required))
send_failure target_required = respond 400 (failure (submit_failed target_required))
send_failure (target_not_positive t) = respond 400 (failure (submit_failed (target_not_positive t)))
send_failure no_queue = respond 500 (failure internal_error)
send_failure (context_done e) = respond 500 (failure internal_error)

-- MessageHandler.Send
unfoldable pub send : Api → ℤ → HttpRequest → World → World × Response
unfolding send_failure
send api now req w = elim (api.bind_message req.body) [
  | err e ↦ (w, respond 400 (failure (invalid_body e)))
  | ok msg ↦
      let (queue, answer) = submit req.ctx now msg w.queue in
      (
        record w { queue = queue },
        elim answer [ err e ↦ send_failure e | ok id ↦ respond 202 (queued id) ],
      )
]

-- The errors that wrap ErrInvalidTagSet
unfoldable pub is_invalid_tag_set : ServiceError → Bool
is_invalid_tag_set set_name_required = true
is_invalid_tag_set prompt_required = true
is_invalid_tag_set no_tags = true
is_invalid_tag_set text_required = true
is_invalid_tag_set (tag_name_required i) = true
is_invalid_tag_set (rule_required name) = true
is_invalid_tag_set _ = false

unfoldable pub is_duplicate_name : ServiceError → Bool
is_duplicate_name (duplicate_name name) = true
is_duplicate_name _ = false

unfoldable pub is_not_found : ServiceError → Bool
is_not_found (not_found name) = true
is_not_found _ = false

-- TaggingHandler.RegisterSet; the copy of the tags has the same fields.
unfoldable pub register : Api → HttpRequest → World → World × Response
unfolding is_invalid_tag_set is_duplicate_name
register api req w = elim (api.bind_tag_set req.body) [
  | err e ↦ (w, respond 400 (failure (invalid_body e)))
  | ok set ↦
      let (sets, answer) = register_set req.ctx set w.sets in
      (
        record w { sets = sets },
        elim answer [
          | err e ↦
              if is_invalid_tag_set e || is_duplicate_name e
              then respond 400 (failure (tagging_failed e))
              else respond 500 (failure internal_error)
          | ok _ ↦ respond 200 (registered set.name (length set.tags))
        ],
      )
]

-- TaggingHandler.Tag
unfoldable pub tag : Api → HttpRequest → World → Response
unfolding is_invalid_tag_set is_not_found
tag api req w = elim (api.bind_tag req.body) [
  | err e ↦ respond 400 (failure (invalid_body e))
  | ok query ↦ elim (tag_text req.ctx api.tagger w.sets query.name query.text) [
    | err e ↦
        if is_not_found e
        then respond 404 (failure (tagging_failed e))
        else if is_invalid_tag_set e
        then respond 400 (failure (tagging_failed e))
        else respond 500 (failure internal_error)
    | ok match_found ↦ respond 200 (
        tagged query.name (elim match_found [
          | none ↦ none
          | some m ↦ some (record { name = m.tag.name; reason = m.reason })
        ]))
  ]
]

-- HealthHandler.Check
unfoldable pub check : Api → World → Response
check api w =
    let (report, healthy) = api.readiness_of w in
    respond (if healthy then 200 else 503) (readiness report)

-- TokenAuth
unfoldable pub is_authorized : Text → HttpRequest → Bool
is_authorized token req = text_eq req.authorization (codes "Bearer " ++ token)

pub data Route : Type 0 where
  get_liveness get_health post_message post_tag_set post_tag no_route : Route

-- The routes of NewRouter; gin finds one by the method and the whole path.
unfoldable pub route : HttpRequest → Route
route req =
    if text_eq req.method (codes "GET")
    then (if text_eq req.path (codes "/healthz")
        then get_liveness
        else if text_eq req.path (codes "/api/v1/health")
        then get_health
        else no_route)
    else if text_eq req.method (codes "POST")
    then (if text_eq req.path (codes "/api/v1/agents/main/messages")
        then post_message
        else if text_eq req.path (codes "/api/v1/agents/tagger/tag-sets")
        then post_tag_set
        else if text_eq req.path (codes "/api/v1/agents/tagger/tag")
        then post_tag
        else no_route)
    else no_route

-- The handler of a route behind the token check
unfoldable pub handle_api : Api → ℤ → Route → HttpRequest → World → World × Response
handle_api api now get_health req w = (w, check api w)
handle_api api now post_message req w = send api now req w
handle_api api now post_tag_set req w = register api req w
handle_api api now post_tag req w = (w, tag api req w)
handle_api api now _ req w = (w, api.unrouted req)

-- A route with what stands before its handler: the group /api/v1 has the token check.
unfoldable pub handle_route : Api → ℤ → Route → HttpRequest → World → World × Response
handle_route api now get_liveness req w = (w, respond 200 alive)
handle_route api now no_route req w = (w, api.unrouted req)
handle_route api now r req w =
    if is_authorized api.token req
    then handle_api api now r req w
    else (w, respond 401 (failure unauthorized))

-- What the router does with a request.
unfoldable pub handle : Api → ℤ → HttpRequest → World → World × Response
unfolding handle_route
handle api now req w = handle_route api now (route req) req w
