-- ===== src/Llm/Strict.antt =====
-- What the patch adds, and that it changes nothing else.
use miss_raspberry_agent.Prelude.{
  if◌then◌else◌, Bool-cases, Option-cases, ◌≡◌, refl, sym, ap, ◌∙◌, subst, ◌⊎◌, inl, inr, true,
  false, Option, none, some, [], arith, Text, codes, text_eq, text_eq_iff, Result, ok,
}
use miss_raspberry_agent.Llm.{
  Json, string, array, object, Elements, no_elements, element, Members, no_members, member,
  get_member, put_member, has_member, add_content, patch_role, patch_object, patch_message,
  patch_messages, patch_payload, patch_missing_content,
}

get_member-put_member :
    (key k : Text) (v : Json) (ms : Members)
    → get_member k (put_member key v ms) ≡ (if text_eq key k then some v else get_member k ms)
unfolding get_member put_member
get_member-put_member key k v no_members = refl
get_member-put_member key k v (member j u rest) = ground (
  arith,
  get_member-put_member key k v rest,
  text_eq_iff key k,
  text_eq_iff j key,
  text_eq_iff j k,
)

put_member_twice :
    (key : Text) (v w : Json) (ms : Members)
    → put_member key w (put_member key v ms) ≡ put_member key w ms
unfolding put_member
put_member_twice key v w no_members = rw ((text_eq_iff key key).1 refl) refl
put_member_twice key v w (member j u rest) = elim (Bool-cases (text_eq j key)) [
  | inl this ↦ rw this (rw this refl)
  | inr other ↦ rw other (rw other (ap (member j u) (put_member_twice key v w rest)))
]

-- A strict provider accepts the message: with the role of a tool, or of an assistant who calls tools, it
-- has a content.
pub IsStrict : Json → Type 0
IsStrict m =
    (ms : Members)
    → m ≡ object ms
    → (get_member (codes "role") ms ≡ some (string (codes "tool")))
      ⊎ ((get_member (codes "role") ms ≡ some (string (codes "assistant")))
          × (has_member (codes "tool_calls") ms ≡ true))
    → has_member (codes "content") ms ≡ true

-- Nothing has changed, or a message without content has got an empty one.
pub data Filled : Json → Json → Type 0 where
  same : (m : Json) → Filled m m
  filled :
      (ms ms' : Members)
      → get_member (codes "content") ms ≡ none
      → get_member (codes "content") ms' ≡ some (string [])
      → ((key : Text)
          → text_eq (codes "content") key ≡ false
          → get_member key ms' ≡ get_member key ms)
      → Filled (object ms) (object ms')

-- Two lists of messages correspond, and the second is acceptable.
pub Patched : Elements → Elements → Type 0
Patched no_elements no_elements = Unit
Patched (element m ms) (element m' ms') = Filled m m' × IsStrict m' × Patched ms ms'
Patched _ _ = ⊥

add_content_kept :
    (ms : Members) {v : Json} → get_member (codes "content") ms ≡ some v → add_content ms ≡ ms
unfolding add_content
add_content_kept ms has = rw (has, add_content, has_member) refl

add_content_put :
    (ms : Members)
    → get_member (codes "content") ms ≡ none
    → add_content ms ≡ put_member (codes "content") (string []) ms
unfolding add_content
add_content_put ms lacks = rw (lacks, add_content, has_member) refl

add_content-Filled : (ms : Members) → Filled (object ms) (object (add_content ms))
add_content-Filled ms = elim (Option-cases (get_member (codes "content") ms)) [
  | inr (v, has) ↦
      subst (λ x. Filled (object ms) (object x)) (sym (add_content_kept ms has)) (same (object ms))
  | inl lacks ↦
      subst (λ x. Filled (object ms) (object x)) (sym (add_content_put ms lacks))
        (filled ms (put_member (codes "content") (string []) ms) lacks
          (get_member-put_member (codes "content") (codes "content") (string []) ms
            ∙ rw ((text_eq_iff (codes "content") (codes "content")).1 refl) refl)
          (λ key other. get_member-put_member (codes "content") key (string []) ms ∙ rw other refl))
]

has_member-add_content : (ms : Members) → has_member (codes "content") (add_content ms) ≡ true
has_member-add_content ms = elim (Option-cases (get_member (codes "content") ms)) [
  | inr (v, has) ↦ rw (add_content_kept ms has) (rw (has, has_member) refl)
  | inl lacks ↦ rw (add_content_put ms lacks) (
      rw (get_member-put_member (codes "content") (codes "content") (string []) ms, has_member)
        (rw ((text_eq_iff (codes "content") (codes "content")).1 refl) refl))
]

-- The messages that need a content
abbrev Needs : Members → Type 0
Needs ms =
    (get_member (codes "role") ms ≡ some (string (codes "tool")))
    ⊎ ((get_member (codes "role") ms ≡ some (string (codes "assistant")))
        × (has_member (codes "tool_calls") ms ≡ true))

assistant-ne-tool : text_eq (codes "tool") (codes "assistant") ≡ false
unfolding text_eq
assistant-ne-tool = refl

patch_role-needed :
    (ms : Members) → Needs ms → patch_role (get_member (codes "role") ms) ms ≡ add_content ms
unfolding patch_role
patch_role-needed ms (inl tool) =
    rw tool (rw assistant-ne-tool (rw ((text_eq_iff (codes "tool") (codes "tool")).1 refl) refl))
patch_role-needed ms (inr (assistant, calls)) =
    rw assistant (rw ((text_eq_iff (codes "assistant") (codes "assistant")).1 refl) (rw calls refl))

patch_role-cases :
    (o : Option Json) (ms : Members) → (patch_role o ms ≡ ms) ⊎ (patch_role o ms ≡ add_content ms)
unfolding patch_role
patch_role-cases (some (string role)) ms = elim (Bool-cases (text_eq role (codes "assistant"))) [
  | inl assistant ↦ elim (Bool-cases (has_member (codes "tool_calls") ms)) [
    | inl calls ↦ inr (rw (assistant, calls) refl)
    | inr no_calls ↦ inl (rw (assistant, no_calls) refl)
  ]
  | inr other ↦ elim (Bool-cases (text_eq role (codes "tool"))) [
    | inl tool ↦ inr (rw (other, tool) refl)
    | inr neither ↦ inl (rw (other, neither) refl)
  ]
]
patch_role-cases _ ms = inl refl

patch_object-Filled : (ms : Members) → Filled (object ms) (object (patch_object ms))
unfolding patch_object
patch_object-Filled ms = elim (patch_role-cases (get_member (codes "role") ms) ms) [
  | inl kept ↦ subst (λ x. Filled (object ms) (object x)) (sym kept) (same (object ms))
  | inr added ↦ subst (λ x. Filled (object ms) (object x)) (sym added) (add_content-Filled ms)
]

-- Of the members but content, the patch changes none.
get_member-patch_object :
    (key : Text) (ms : Members)
    → text_eq (codes "content") key ≡ false
    → get_member key (patch_object ms) ≡ get_member key ms
unfolding patch_object
get_member-patch_object key ms other = elim (patch_role-cases (get_member (codes "role") ms) ms) [
  | inl kept ↦ ap (get_member key) kept
  | inr added ↦ ap (get_member key) added ∙ elim (Option-cases (get_member (codes "content") ms)) [
    | inr (v, has) ↦ ap (get_member key) (add_content_kept ms has)
    | inl lacks ↦
        ap (get_member key) (add_content_put ms lacks)
        ∙ get_member-put_member (codes "content") key (string []) ms
        ∙ rw other refl
  ]
]

role-ne-content : text_eq (codes "content") (codes "role") ≡ false
unfolding text_eq
role-ne-content = refl

calls-ne-content : text_eq (codes "content") (codes "tool_calls") ≡ false
unfolding text_eq
calls-ne-content = refl

patch_object-Needs : (ms : Members) → Needs (patch_object ms) → Needs ms
patch_object-Needs ms (inl tool) =
    inl (sym (get_member-patch_object (codes "role") ms role-ne-content) ∙ tool)
patch_object-Needs ms (inr (assistant, calls)) = inr (
  sym (get_member-patch_object (codes "role") ms role-ne-content) ∙ assistant,
  rw (← get_member-patch_object (codes "tool_calls") ms calls-ne-content, has_member) calls,
)

patch_object_filled :
    (ms : Members) → Needs (patch_object ms) → has_member (codes "content") (patch_object ms) ≡ true
unfolding patch_object
patch_object_filled ms needs =
    rw (patch_role-needed ms (patch_object-Needs ms needs)) (has_member-add_content ms)

patch_object-IsStrict : (ms : Members) → IsStrict (object (patch_object ms))
unfolding IsStrict
patch_object-IsStrict ms ms' e needs =
    let same : patch_object ms ≡ ms' = cc in
    subst (λ x. has_member (codes "content") x ≡ true) same
      (patch_object_filled ms (subst Needs (sym same) needs))

patch_message-Filled : (m : Json) → Filled m (patch_message m)
unfolding patch_message
patch_message-Filled (object ms) = patch_object-Filled ms
patch_message-Filled m = same m

patch_message-IsStrict : (m : Json) → IsStrict (patch_message m)
unfolding patch_message IsStrict
patch_message-IsStrict (object ms) = patch_object-IsStrict ms
patch_message-IsStrict m = λ ms e needs. absurd cc

patch_messages-Patched : (ms : Elements) → Patched ms (patch_messages ms)
unfolding patch_messages Patched
patch_messages-Patched no_elements = tt
patch_messages-Patched (element m ms) =
    (patch_message-Filled m, patch_message-IsStrict m, patch_messages-Patched ms)

-- Where the body is decoded to an object with an array of messages, the encoder gets an object that has
-- another such array and is otherwise the same. Its messages correspond in order: each is unchanged or
-- has got an empty content that it lacked, with its other members as they were, and each object with
-- the role tool, or the role assistant and tool calls, has a content.
pub patch_missing_content_lem :
    {E : Type 0} (decode : Text → Result E (Option Members))
    (encode : Option Members → Result E Text) (raw_body : Text) (payload : Members)
    (messages : Elements)
    → decode raw_body ≡ ok (some payload)
    → get_member (codes "messages") payload ≡ some (array messages)
    → (payload' : Members) × (messages' : Elements) × (patch_missing_content decode encode raw_body
        ≡ encode (some payload'))
      × (get_member (codes "messages") payload' ≡ some (array messages'))
      × Patched messages messages'
      × ((key : Text)
          → text_eq (codes "messages") key ≡ false
          → get_member key payload' ≡ get_member key payload)
unfolding patch_missing_content patch_payload
patch_missing_content_lem decode encode raw_body payload messages decoded found =
    let key = codes "messages" in
    let patched = array (patch_messages messages) in
    (
      put_member key patched payload,
      patch_messages messages,
      rw (decoded, patch_missing_content) (rw (found, patch_payload) refl),
      get_member-put_member key key patched payload ∙ rw ((text_eq_iff key key).1 refl) refl,
      patch_messages-Patched messages,
      λ k other. get_member-put_member key k patched payload ∙ rw other refl,
    )
