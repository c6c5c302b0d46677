-- ===== src/Napcat/Client/Life.antt =====
-- The outgoing queue and the life cycle of the client.
use miss_raspberry_agent.Prelude.{
  ltb, if◌then◌else◌, Bool-cases, length, length-append, ◌≤◌, ◌≡◌, refl, inl, inr, Bool, true,
  false, none, some, [], ◌∷◌, ◌++◌, arith, Text,
}
use miss_raspberry_agent.Messaging.{Target}
use miss_raspberry_agent.Napcat.Client.{
  Client, outgoing_capacity, start, stop, enqueue, outgoing_to, send_message,
}

-- A client that Stop has not closed and whose outgoing channel is within its capacity.
pub record IsOpen (c : Client) : Type 0 where
  pub not_closed : c.closed ≡ false
  pub bounded : length c.outgoing ≤ outgoing_capacity

-- On an open client SendMessage does not panic and leaves the client open. Without an error the message
-- is the last one in the channel; with one, the channel was full and the client is as it was.
send_message_lem :
    (target : Target) (content : Text) (c : Client)
    → IsOpen c
    → (c' : Client) × (sent : Bool) × (send_message target content c ≡ some (c', sent))
      × IsOpen c'
      × (if sent
          then c'.outgoing ≡ c.outgoing ++ outgoing_to target content ∷ []
          else (c' ≡ c) × (length c.outgoing ≡ outgoing_capacity))
unfolding send_message enqueue
send_message_lem target content c h = elim (Bool-cases (ltb (length c.outgoing) 100)) [
  | inl below ↦ (
    record c { outgoing = c.outgoing ++ outgoing_to target content ∷ [] },
    true,
    ground (arith, h.not_closed),
    record {
      not_closed = h.not_closed;
      bounded = ground (arith, length-append c.outgoing (outgoing_to target content ∷ []));
    },
    refl,
  )
  | inr full ↦ (c, false, ground (arith, h.not_closed), h, (refl, ground (arith, h.bounded)))
]

-- Once a running client that is open has been stopped, every later SendMessage panics, and so does the
-- second Stop if the client is started again in between.
pub stop_lem :
    (c : Client) (target : Target) (content : Text)
    → IsOpen c
    → c.running ≡ true
    → (c' : Client) × (stop c ≡ some c')
      × (send_message target content c' ≡ none)
      × (stop (start c') ≡ none)
unfolding stop start send_message enqueue
stop_lem c target content h running =
    (record c { running = false; closed = true }, ground (arith, h.not_closed), refl, ground arith)
