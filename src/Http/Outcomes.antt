-- ===== src/Http/Outcomes.antt =====
-- What the status of an answer says of the queue and the tag sets.
use miss_raspberry_agent.Prelude.{
  if◌then◌else◌, Bool-cases, length, ℤ, max_int64, ◌<◌, ◌≡◌, refl, sym, subst, ◌⊎◌, inl, inr, true,
  ◌||◌, Option, some, arith, Text, Result-cases, Result, ok, err,
}
use miss_raspberry_agent.Todo
use miss_raspberry_agent.Todo.{Item}
use miss_raspberry_agent.Todo.Laws.{IsValid}
use miss_raspberry_agent.Messaging.{
  Request, SubmitError, submit, context_done, unsupported_platform, content_required,
  target_required, no_queue, target_not_positive,
}
use miss_raspberry_agent.Messaging.Laws.{Submitted, submit_lem}
use miss_raspberry_agent.Tagging.{TagSet}
use miss_raspberry_agent.Tagging.Service.{Sets, ServiceError, register_set}
use miss_raspberry_agent.Tagging.Laws.{Registered, register_set_lem}
use miss_raspberry_agent.Http.{
  Api, HttpRequest, World, Response, route, post_message, post_tag_set, is_authorized, respond,
  failure, handle, handle_api, send, register, queued, registered, send_failure, is_invalid_tag_set,
  is_duplicate_name, tagging_failed, internal_error,
}

abbrev pub IsRefusal : Response → Type 0
IsRefusal r = (r.status ≡ 400) ⊎ (r.status ≡ 422) ⊎ (r.status ≡ 500)

send_failure-IsRefusal : (e : SubmitError) → IsRefusal (send_failure e)
unfolding send_failure
send_failure-IsRefusal (unsupported_platform p) = inr (inl refl)
send_failure-IsRefusal content_required = inl refl
send_failure-IsRefusal target_required = inl refl
send_failure-IsRefusal (target_not_positive t) = inl refl
send_failure-IsRefusal no_queue = inr (inr refl)
send_failure-IsRefusal (context_done e) = inr (inr refl)

abbrev send_answer : Result SubmitError Text → Response
send_answer answer = elim answer [ err e ↦ send_failure e | ok id ↦ respond 202 (queued id) ]

module _ (api : Api) (now : ℤ) (req : HttpRequest) (s : Todo.Store) (sets : Option Sets) where
  -- The answer to a message: it is refused and nothing changes, or 202 with the id of its item.
  pub data SendOutcome : World × Response → Type 0 where
    refused : (r : Response) → IsRefusal r → SendOutcome (record { queue = some s; sets = sets }, r)
    accepted :
        (msg : Request) (id : Text) (queue : Option Todo.Store)
        → api.bind_message req.body ≡ ok msg
        → Submitted msg s (queue, ok id)
        → SendOutcome (record { queue = queue; sets = sets }, respond 202 (queued id))

  submit_outcome :
      (msg : Request) (a : Option Todo.Store × Result SubmitError Text)
      → api.bind_message req.body ≡ ok msg
      → Submitted msg s a
      → SendOutcome (record { queue = a.0; sets = sets }, send_answer a.1)
  submit_outcome msg (queue, err e) bound h =
      subst (λ q. SendOutcome (record { queue = q; sets = sets }, send_failure e)) (sym h)
        (refused (send_failure e) (send_failure-IsRefusal e))
  submit_outcome msg (queue, ok id) bound h = accepted msg id queue bound h

  -- An authorized POST of a message, on a valid queue with room in its counter: either the status is 400,
  -- 422 or 500 and nothing changes, or it is 202, and the answer's id, which was free, now names a queued
  -- item with the trimmed content and the positive target of the message in the body.
  pub post_message_lem :
      route req ≡ post_message
      → is_authorized api.token req ≡ true
      → IsValid s
      → s.next_id < max_int64
      → SendOutcome (handle api now req (record { queue = some s; sets = sets }))
  unfolding handle handle_api send
  post_message_lem posted authorized v room = elim (Result-cases (api.bind_message req.body)) [
    | inl (e, bad) ↦ rw (posted, authorized, bad, handle, send) (refused _ (inl refl))
    | inr (msg, bound) ↦
        let answer = submit req.ctx now msg (some s) in
        let handled : handle api now req (record { queue = some s; sets = sets })
            ≡ (record { queue = answer.0; sets = sets }, send_answer answer.1) =
          rw (posted, authorized, bound, handle, send) refl in
        subst SendOutcome (sym handled)
          (submit_outcome msg answer bound (submit_lem now msg s v room req.ctx))
  ]

abbrev register_answer : TagSet → Result ServiceError (Unit {0}) → Response
register_answer set answer = elim answer [
  | err e ↦
      if is_invalid_tag_set e || is_duplicate_name e
      then respond 400 (failure (tagging_failed e))
      else respond 500 (failure internal_error)
  | ok _ ↦ respond 200 (registered set.name (length set.tags))
]

register_answer-IsRefusal :
    (set : TagSet) (e : ServiceError) → IsRefusal (register_answer set (err e))
register_answer-IsRefusal set e = elim (Bool-cases (is_invalid_tag_set e || is_duplicate_name e)) [
  | inl wrong ↦ inl (ground (arith, wrong))
  | inr other ↦ inr (inr (ground (arith, other)))
]

module _ (api : Api) (now : ℤ) (req : HttpRequest) (queue : Option Todo.Store) (sets : Sets) where
  -- The answer to a tag set: it is refused and nothing changes, or 200, and it is stored.
  pub data RegisterOutcome : World × Response → Type 0 where
    rejected :
        (r : Response)
        → IsRefusal r
        → RegisterOutcome (record { queue = queue; sets = some sets }, r)
    stored :
        (set : TagSet) (sets' : Option Sets)
        → api.bind_tag_set req.body ≡ ok set
        → Registered set sets (sets', ok tt)
        → RegisterOutcome (
          record { queue = queue; sets = sets' },
          respond 200 (registered set.name (length set.tags)),
        )

  register_outcome :
      (set : TagSet) (a : Option Sets × Result ServiceError (Unit {0}))
      → api.bind_tag_set req.body ≡ ok set
      → Registered set sets a
      → RegisterOutcome (record { queue = queue; sets = a.0 }, register_answer set a.1)
  register_outcome set (sets', err e) bound h =
      subst (λ x. RegisterOutcome (record { queue = queue; sets = x }, register_answer set (err e)))
        (sym h) (rejected (register_answer set (err e)) (register_answer-IsRefusal set e))
  register_outcome set (sets', ok _) bound h = stored set sets' bound h

  -- An authorized POST of a tag set: either the status is 400, 422 or 500 and nothing changes, or it is
  -- 200 with the number of the tags, and under the trimmed name of the set in the body, which is not
  -- empty, there is a set of that name with the trimmed prompt, which is not empty, and the trimmed
  -- tags, in order, with names and rules and no name twice; what other names have is unchanged.
  pub post_tag_set_lem :
      route req ≡ post_tag_set
      → is_authorized api.token req ≡ true
      → RegisterOutcome (handle api now req (record { queue = queue; sets = some sets }))
  unfolding handle handle_api register
  post_tag_set_lem posted authorized = elim (Result-cases (api.bind_tag_set req.body)) [
    | inl (e, bad) ↦ rw (posted, authorized, bad, handle, register) (rejected _ (inl refl))
    | inr (set, bound) ↦
        let answer = register_set req.ctx set (some sets) in
        let handled : handle api now req (record { queue = queue; sets = some sets })
            ≡ (record { queue = queue; sets = answer.0 }, register_answer set answer.1) =
          rw (posted, authorized, bound, handle, register) refl in
        subst RegisterOutcome (sym handled)
          (register_outcome set answer bound (register_set_lem req.ctx set sets))
  ]
