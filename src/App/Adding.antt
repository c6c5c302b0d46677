-- ===== src/App/Adding.antt =====
-- What a request and a message do to the queue: nothing, or they add an item.
use miss_raspberry_agent.Prelude.{
  if◌then◌else◌, Bool-cases, Option-cases, ℤ, pos, leb_ℤ, ◌≡◌, refl, sym, subst, inl, inr, Option,
  none, some, List, parse_int, text_eq, is_empty, trim_space, Result-cases, Ctx,
}
use miss_raspberry_agent.Todo
use miss_raspberry_agent.Todo.{Item}
use miss_raspberry_agent.Messaging.{Request, platform_qq, submit, submit_to, request_item}
use miss_raspberry_agent.Napcat.Incoming.{
  Segment, Message, handle_incoming_message, incoming_item, should_activate,
}
use miss_raspberry_agent.Http.{
  Api, HttpRequest, World, Route, get_liveness, get_health, post_message, post_tag_set, post_tag,
  no_route, route, is_authorized, handle, handle_route, handle_api, send, register, respond,
  failure, unauthorized,
}

pub data QueueStep (now : ℤ) (q q' : Todo.Store) : Type 0 where
  same : q' ≡ q → QueueStep now q q'
  grown : (item : Item) → q' ≡ (Todo.add now item q).0 → QueueStep now q q'

-- A queue stays, if there is one, and takes such a step.
abbrev pub Steps : ℤ → Option Todo.Store → Option Todo.Store → Type 0
Steps now none none = Unit
Steps now none (some q') = ⊥
Steps now (some q) none = ⊥
Steps now (some q) (some q') = QueueStep now q q'

stays : (now : ℤ) (queue : Option Todo.Store) → Steps now queue queue
stays now none = tt
stays now (some q) = same refl

submit_to-Steps :
    (now : ℤ) (msg : Request) (qq_id : ℤ) (queue : Option Todo.Store)
    → Steps now queue (submit_to now msg qq_id queue).0
unfolding submit_to
submit_to-Steps now msg qq_id none = tt
submit_to-Steps now msg qq_id (some s) = grown (request_item msg qq_id) refl

submit-Steps :
    (ctx : Ctx) (now : ℤ) (msg : Request) (queue : Option Todo.Store)
    → Steps now queue (submit ctx now msg queue).0
unfolding submit
submit-Steps (some e) now msg queue = stays now queue
submit-Steps none now msg queue = elim (Bool-cases (text_eq msg.platform platform_qq)) [
  | inr other ↦ rw (other, submit) (stays now queue)
  | inl qq ↦ elim (Bool-cases (is_empty (trim_space msg.content))) [
    | inl blank ↦ rw (qq, blank, submit) (stays now queue)
    | inr filled ↦ elim (Bool-cases (is_empty (trim_space msg.target_id))) [
      | inl no_target ↦ rw (qq, filled, no_target, submit) (stays now queue)
      | inr target ↦ elim (Option-cases (parse_int (trim_space msg.target_id))) [
        | inl unread ↦ rw (qq, filled, target, unread, submit) (stays now queue)
        | inr (qq_id, parsed) ↦ elim (Bool-cases (leb_ℤ qq_id (pos 0))) [
          | inl small ↦ rw (qq, filled, target, parsed, small, submit) (stays now queue)
          | inr positive ↦
              rw (qq, filled, target, parsed, positive, submit)
                (submit_to-Steps now msg qq_id queue)
        ]
      ]
    ]
  ]
]

module _ (api : Api) (now : ℤ) (req : HttpRequest) (w : World) where
  send-Steps : Steps now w.queue (send api now req w).0.queue
  unfolding send
  send-Steps = elim (Result-cases (api.bind_message req.body)) [
    | inl (e, bad) ↦ rw (bad, send) (stays now w.queue)
    | inr (msg, bound) ↦ rw (bound, send) (submit-Steps req.ctx now msg w.queue)
  ]

  queue-register : (register api req w).0.queue ≡ w.queue
  unfolding register
  queue-register = elim (Result-cases (api.bind_tag_set req.body)) [
    | inl (e, bad) ↦ rw (bad, register) refl
    | inr (set, bound) ↦ rw (bound, register) refl
  ]

  handle_api-Steps : (r : Route) → Steps now w.queue (handle_api api now r req w).0.queue
  unfolding handle_api
  handle_api-Steps post_message = send-Steps
  handle_api-Steps post_tag_set = subst (Steps now w.queue) (sym queue-register) (stays now w.queue)
  handle_api-Steps get_liveness = stays now w.queue
  handle_api-Steps get_health = stays now w.queue
  handle_api-Steps post_tag = stays now w.queue
  handle_api-Steps no_route = stays now w.queue

  behind_token-Steps :
      (r : Route)
      → Steps now w.queue
          (if is_authorized api.token req
            then handle_api api now r req w
            else (w, respond 401 (failure unauthorized))).0.queue
  behind_token-Steps r = elim (Bool-cases (is_authorized api.token req)) [
    | inl authorized ↦ rw authorized (handle_api-Steps r)
    | inr refused ↦ rw refused (stays now w.queue)
  ]

  handle_route-Steps : (r : Route) → Steps now w.queue (handle_route api now r req w).0.queue
  unfolding handle_route
  handle_route-Steps get_liveness = stays now w.queue
  handle_route-Steps no_route = stays now w.queue
  handle_route-Steps get_health = behind_token-Steps get_health
  handle_route-Steps post_message = behind_token-Steps post_message
  handle_route-Steps post_tag_set = behind_token-Steps post_tag_set
  handle_route-Steps post_tag = behind_token-Steps post_tag

  -- A request adds an item to the queue, or leaves it as it is.
  pub handle-Steps : Steps now w.queue (handle api now req w).0.queue
  unfolding handle
  handle-Steps = handle_route-Steps (route req)

pub incoming-Steps :
    {N : Type 0} (parse_message : N → List Segment) (now : ℤ) (msg : Message N)
    → (queue : Option Todo.Store)
    → Steps now queue (handle_incoming_message parse_message now msg queue).0
unfolding handle_incoming_message
incoming-Steps parse_message now msg none = elim (Bool-cases (should_activate parse_message msg)) [
  | inl active ↦ rw (active, handle_incoming_message) tt
  | inr dropped ↦ rw (dropped, handle_incoming_message) tt
]
incoming-Steps parse_message now msg (some s) =
    elim (Bool-cases (should_activate parse_message msg)) [
      | inl active ↦ rw (active, handle_incoming_message) (grown (incoming_item msg) refl)
      | inr dropped ↦ rw (dropped, handle_incoming_message) (same refl)
    ]
