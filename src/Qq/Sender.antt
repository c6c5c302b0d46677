-- ===== src/Qq/Sender.antt =====
-- internal/tool/qq/sender.go: the tool that queues a message for sending.
use miss_raspberry_agent.Prelude.{
  if◌then◌else◌, length, ℤ, pos, ◌≤◌, ◌<◌, ◌≡◌, refl, sym, subst, Bool, true, false, ◌||◌, Option,
  none, some, [], ◌∷◌, ◌++◌, arith, Text, codes, text_eq, text_eq_iff, is_empty,
}
use miss_raspberry_agent.Messaging.{Target, target_type_group, target_type_private}
use miss_raspberry_agent.Napcat.Client.{Client, send_message}

pub record QqMessageSenderInput : Type 0 where
  pub target_id : ℤ
  pub target_type : Text
  pub content : Text

-- QQMessageSenderOutput and the tool's errors; the output's message is "ok" or "send queue is full".
pub data Sent (E : Type 0) : Type 0 where
  accepted queue_full : Sent E
  unknown_target : Text → Sent E
  sender_failed : E → Sent E

-- The target that the switch of SendMessage makes
unfoldable pub sender_target : QqMessageSenderInput → Option Target
sender_target input =
    if is_empty input.target_type || text_eq input.target_type target_type_private
    then some (record { type = target_type_private; id = input.target_id })
    else if text_eq input.target_type target_type_group
    then some (record { type = target_type_group; id = input.target_id })
    else none

-- SendMessage; `send` is SendMessage of a Sender, where none is a panic, and `is_queue_full` tells its
-- errors apart.
unfoldable pub send_qq_message :
    {W E : Type 0}
    → (Target → Text → W → Option (W × Option E))
    → (E → Bool)
    → QqMessageSenderInput
    → W
    → Option (W × Sent E)
unfolding sender_target
send_qq_message send is_queue_full input w = elim (sender_target input) [
  | none ↦ some (w, unknown_target input.target_type)
  | some target ↦ elim (send target input.content w) [
    | none ↦ none
    | some (w', none) ↦ some (w', accepted)
    | some (w', some e) ↦ some (w', if is_queue_full e then queue_full else sender_failed e)
  ]
]

-- NapcatClient as the Sender: its only error is ErrQueueFull.
unfoldable pub napcat_send : Target → Text → Client → Option (Client × Option (Unit {0}))
napcat_send target content c = elim (send_message target content c) [
  | none ↦ none
  | some (c', sent) ↦ some (c', if sent then none else some tt)
]

unfoldable pub send_through_napcat :
    QqMessageSenderInput → Client → Option (Client × Sent (Unit {0}))
unfolding send_qq_message napcat_send
send_through_napcat = send_qq_message napcat_send (λ e. true)

-- What the tool does with a client that has not been stopped.
pub record Handled (input : QqMessageSenderInput) (c : Client)
    (r : Option (Client × Sent (Unit {0}))) : Type 0 where
  pub private_queued :
      is_empty input.target_type || text_eq input.target_type (codes "private") ≡ true
      → length c.outgoing < 100
      → r
        ≡ some (
          record c {
            outgoing =
                c.outgoing
                ++ record { user_id = input.target_id; group_id = pos 0; content = input.content }
                  ∷ [];
          },
          accepted,
        )
  pub group_queued :
      text_eq input.target_type (codes "group") ≡ true
      → length c.outgoing < 100
      → r
        ≡ some (
          record c {
            outgoing =
                c.outgoing
                ++ record { user_id = pos 0; group_id = input.target_id; content = input.content }
                  ∷ [];
          },
          accepted,
        )
  pub full :
      is_empty input.target_type
          || text_eq input.target_type (codes "private")
          || text_eq input.target_type (codes "group")
        ≡ true
      → 100 ≤ length c.outgoing
      → r ≡ some (c, queue_full)
  pub unknown :
      is_empty input.target_type ≡ false
      → text_eq input.target_type (codes "private") ≡ false
      → text_eq input.target_type (codes "group") ≡ false
      → r ≡ some (c, unknown_target input.target_type)

private-ne-group : text_eq target_type_private target_type_group ≡ false
unfolding text_eq
private-ne-group = refl

group-eq-group : text_eq target_type_group target_type_group ≡ true
unfolding text_eq
group-eq-group = refl

group_only :
    (t : Text)
    → text_eq t target_type_group ≡ true
    → (is_empty t ≡ false) × (text_eq t target_type_private ≡ false)
unfolding text_eq
group_only t h =
    subst (λ s. (is_empty s ≡ false) × (text_eq s target_type_private ≡ false))
      (sym ((text_eq_iff t target_type_group).0 h)) (refl, refl)

-- The tool for sending, over a QQ client that has not been stopped: with fewer than 100 messages in the
-- client's queue, a message to "private", or to no type, is queued at the end for the user, and one to
-- "group" for the group, and the tool answers ok; with 100 it answers that the queue is full and
-- nothing changes; any other type is an error, and nothing changes.
pub send_through_napcat_lem :
    (input : QqMessageSenderInput) (c : Client)
    → c.closed ≡ false
    → Handled input c (send_through_napcat input c)
unfolding send_through_napcat send_message sender_target
send_through_napcat_lem input c open_ = record {
  private_queued = λ p room. ground (arith, private-ne-group);
  group_queued = λ p room. ground (arith, group_only input.target_type p, group-eq-group);
  full = λ p room. ground arith;
  unknown = λ p q r. ground arith;
}
