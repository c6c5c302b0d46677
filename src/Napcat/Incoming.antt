-- ===== src/Napcat/Incoming.antt =====
-- internal/adapter/napcat/incoming.go: which QQ messages reach the todo queue.
use miss_raspberry_agent.Prelude.{
  if◌then◌else◌, Bool-cases, ℤ, pos, max_int64, ℕ_eq, ℤ_eq, ◌<◌, ◌≡◌, refl, ◌∙◌, ◌↔◌, ◌⊎◌, inl, inr,
  Bool, true, false, not, ◌&&◌, ◌||◌, Option, none, some, List, [], ◌∷◌, ◌++◌, arith, format_int,
  Text, codes, text_eq, text_eq_iff, text_eq_inst,
}
use miss_raspberry_agent.Prelude.Table
use miss_raspberry_agent.Prelude.Table.{Table}
use miss_raspberry_agent.Todo
use miss_raspberry_agent.Todo.{Item}
use miss_raspberry_agent.Todo.Laws.{IsValid, add_lem}

-- message.Segment of ZeroBot; its Data are the fields; a missing key reads as the empty string.
pub record Segment : Type 0 where
  pub type : Text
  pub fields : Table Text Text

-- The fields of zero.Event that are read; `native_message` is the raw message.
pub record Event (N : Type 0) : Type 0 where
  pub self_id : ℤ
  pub native_message : N
  pub message : List Segment

pub record Message (N : Type 0) : Type 0 where
  pub user_id : ℤ
  pub group_id : ℤ
  pub message_type : Text
  pub nick_name : Text
  pub content : Text
  pub raw_event : Option (Event N)

unfoldable pub qq_of : Segment → Text
qq_of seg = elim (Table.get (codes "qq") seg.fields) [ none ↦ [] | some qq ↦ qq ]

-- The loop of isBotMentioned
unfoldable pub mentions : Text → List Segment → Bool
unfolding qq_of
mentions self_id [] = false
mentions self_id (seg ∷ segs) =
    (text_eq seg.type (codes "at") && text_eq (qq_of seg) self_id) || mentions self_id segs

-- describeSource
unfoldable pub describe_source : {N : Type 0} → Message N → Text
describe_source msg =
    if text_eq msg.message_type (codes "group")
    then codes "群聊(群号="
      ++ format_int msg.group_id
      ++ codes ",发送者QQ="
      ++ format_int msg.user_id
      ++ codes ")"
    else codes "私聊(用户QQ=" ++ format_int msg.user_id ++ codes ")"

-- replyTargetID
unfoldable pub reply_target_id : {N : Type 0} → Message N → ℤ
reply_target_id msg = if text_eq msg.message_type (codes "group") then msg.group_id else msg.user_id

-- The item that HandleIncomingMessage adds.
unfoldable pub incoming_item : {N : Type 0} → Message N → Item
incoming_item msg = record {
  id = [];
  content = msg.content;
  context = [];
  source = describe_source msg;
  target_type = msg.message_type;
  target_id = reply_target_id msg;
  user_id = msg.user_id;
  created_at = pos 0;
}

-- `parse_message` is message.ParseMessage of ZeroBot.
module _ {N : Type 0} (parse_message : N → List Segment) where
  -- isBotMentioned
  unfoldable pub is_bot_mentioned : Message N → Bool
  unfolding mentions
  is_bot_mentioned msg = elim msg.raw_event [
    | none ↦ false
    | some event ↦ elim (parse_message event.native_message) [
      | [] ↦ mentions (format_int event.self_id) event.message
      | seg ∷ segs ↦ mentions (format_int event.self_id) (seg ∷ segs)
    ]
  ]

  -- shouldActivate
  unfoldable pub should_activate : Message N → Bool
  unfolding is_bot_mentioned
  should_activate msg =
      if not (text_eq msg.message_type (codes "group")) then true else is_bot_mentioned msg

  -- HandleIncomingMessage
  unfoldable pub handle_incoming_message :
      ℤ → Message N → Option Todo.Store → Option Todo.Store × Bool
  handle_incoming_message now msg queue =
      if not (should_activate msg) then (queue, false) else elim queue [
        | none ↦ (none, false)
        | some s ↦ (some (Todo.add now (incoming_item msg) s).0, true)
      ]

  -- What handling a message does to the queue: nothing where the message is dropped; where it is queued,
  -- an id that was free has an item with its content, and where to reply.
  abbrev pub Handled : Message N → Todo.Store → Option Todo.Store × Bool → Type 0
  Handled msg s (queue, false) = (queue ≡ some s) × (should_activate msg ≡ false)
  Handled msg s (none, true) = ⊥
  Handled msg s (some s', true) =
      (should_activate msg ≡ true)
      × ((id : Text) × (item : Item) × (Table.get id s.items ≡ none)
          × (Table.get id s'.items ≡ some item)
          × (item.content ≡ msg.content)
          × (item.target_type ≡ msg.message_type)
          × (item.target_id
              ≡ (if text_eq msg.message_type (codes "group") then msg.group_id else msg.user_id)))

  found_self :
      (now : ℤ) (msg : Message N) (s : Todo.Store) (v : IsValid s) (room : s.next_id < max_int64)
      → Table.get
          (Todo.add now (incoming_item msg) s).1.id
          (Todo.add now (incoming_item msg) s).0.items
        ≡ some (Todo.add now (incoming_item msg) s).1
  found_self now msg s v room =
      let stored = (Todo.add now (incoming_item msg) s).1 in
      (add_lem now (incoming_item msg) s v room).2 stored.id
      ∙ rw ((text_eq_iff stored.id stored.id).1 refl) refl

  -- With a valid queue that has room in its counter, a message is queued exactly if it activates the
  -- agent. It is then found under an id that was free, with its content, to be answered in its group or to its
  -- sender. A message that does not activate the agent leaves the queue as it was.
  pub handle_incoming_message_lem :
      (now : ℤ) (msg : Message N) (s : Todo.Store)
      → IsValid s
      → s.next_id < max_int64
      → Handled msg s (handle_incoming_message now msg (some s))
  unfolding handle_incoming_message incoming_item reply_target_id Todo.add Todo.stamped
  handle_incoming_message_lem now msg s v room =
      let (fresh, content, found) = add_lem now (incoming_item msg) s v room in
      let stored = Todo.add now (incoming_item msg) s in
      elim (Bool-cases (should_activate msg)) [
        | inl active ↦
            rw (active, handle_incoming_message)
              (
                active,
                (stored.1.id, stored.1, fresh, found_self now msg s v room, refl, refl, refl),
              )
        | inr passive ↦ rw (passive, handle_incoming_message) (refl, passive)
      ]

  -- A private message, that is one whose type is not "group", always activates the agent; a group message does so
  -- only if a segment of it is an "at" with the bot's own number.
  pub should_activate_iff :
      (msg : Message N)
      → (should_activate msg ≡ true)
        ↔ ((text_eq msg.message_type (codes "group") ≡ false) ⊎ (is_bot_mentioned msg ≡ true))
  unfolding should_activate
  should_activate_iff msg = ground arith
