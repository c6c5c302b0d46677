-- ===== src/Messaging/Laws.antt =====
-- What Submit does to the queue.
use miss_raspberry_agent.Prelude.{
  Bool-cases, Option-cases, ℤ, pos, ltb_ℤ, leb_ℤ, max_int64, ℕ_eq, ℤ_eq, ◌<◌, ◌≡◌, refl, ◌∙◌, inl,
  inr, true, false, Option, none, some, arith, parse_int, Text, text_eq, text_eq_iff, text_eq_inst,
  is_empty, trim_space, Result, ok, err, Ctx,
}
use miss_raspberry_agent.Prelude.Table
use miss_raspberry_agent.Todo
use miss_raspberry_agent.Todo.{Item}
use miss_raspberry_agent.Todo.Laws.{IsValid, add_lem}
use miss_raspberry_agent.Messaging.{
  Request, SubmitError, submit, submit_to, request_item, platform_qq,
}

-- What a reply of Submit says: an error has left the queue as it was, and an id is new in the queue and
-- now names an item with the request's trimmed content and its target, which is a positive number.
abbrev pub Submitted : Request → Todo.Store → Option Todo.Store × Result SubmitError Text → Type 0
Submitted msg s (queue, err e) = queue ≡ some s
Submitted msg s (none, ok id) = ⊥
Submitted msg s (some s', ok id) =
    (item : Item) × (Table.get id s.items ≡ none)
    × (Table.get id s'.items ≡ some item)
    × (item.content ≡ trim_space msg.content)
    × (is_empty item.content ≡ false)
    × (parse_int (trim_space msg.target_id) ≡ some item.target_id)
    × (ltb_ℤ (pos 0) item.target_id ≡ true)

module _ (now : ℤ) (msg : Request) (s : Todo.Store) (v : IsValid s)
    (room : s.next_id < max_int64) where
  submit_to-Submitted :
      (qq_id : ℤ)
      → is_empty (trim_space msg.content) ≡ false
      → parse_int (trim_space msg.target_id) ≡ some qq_id
      → leb_ℤ qq_id (pos 0) ≡ false
      → Submitted msg s (submit_to now msg qq_id (some s))
  unfolding submit_to request_item Todo.add Todo.stamped
  submit_to-Submitted qq_id filled parsed positive =
      let item = request_item msg qq_id in
      let (fresh, content, found) = add_lem now item s v room in
      let stored = Todo.add now item s in
      (
        stored.1,
        fresh,
        found stored.1.id ∙ rw ((text_eq_iff stored.1.id stored.1.id).1 refl) refl,
        refl,
        filled,
        parsed,
        ground arith,
      )

  -- On a valid queue with room in its counter, Submit either fails and leaves the queue as it was, or
  -- answers with an id that was free. Under that id the queue then has an item with the request's
  -- content, trimmed and not empty, whose target is the request's target id, a positive number.
  pub submit_lem : (ctx : Ctx) → Submitted msg s (submit ctx now msg (some s))
  unfolding submit
  submit_lem (some e) = refl
  submit_lem none = elim (Bool-cases (text_eq msg.platform platform_qq)) [
    | inr other ↦ rw (other, submit) refl
    | inl qq ↦ elim (Bool-cases (is_empty (trim_space msg.content))) [
      | inl blank ↦ rw (qq, blank, submit) refl
      | inr filled ↦ elim (Bool-cases (is_empty (trim_space msg.target_id))) [
        | inl no_target ↦ rw (qq, filled, no_target, submit) refl
        | inr target ↦ elim (Option-cases (parse_int (trim_space msg.target_id))) [
          | inl unread ↦ rw (qq, filled, target, unread, submit) refl
          | inr (qq_id, parsed) ↦ elim (Bool-cases (leb_ℤ qq_id (pos 0))) [
            | inl small ↦ rw (qq, filled, target, parsed, small, submit) refl
            | inr positive ↦
                rw (qq, filled, target, parsed, positive, submit)
                  (submit_to-Submitted qq_id filled parsed positive)
          ]
        ]
      ]
    ]
  ]

-- Submit accepts each request for the QQ platform that has content and whose target is a positive
-- number, while the context is open and there is a queue.
submit_accepts :
    (now : ℤ) (msg : Request) (s : Todo.Store) (qq_id : ℤ)
    → text_eq msg.platform platform_qq ≡ true
    → is_empty (trim_space msg.content) ≡ false
    → is_empty (trim_space msg.target_id) ≡ false
    → parse_int (trim_space msg.target_id) ≡ some qq_id
    → leb_ℤ qq_id (pos 0) ≡ false
    → (id : Text) × ((submit none now msg (some s)).1 ≡ ok id)
unfolding submit submit_to
submit_accepts now msg s qq_id qq filled target parsed positive = (
  (Todo.add now (request_item msg qq_id) s).1.id,
  rw (qq, filled, target, parsed, positive, submit) refl,
)
