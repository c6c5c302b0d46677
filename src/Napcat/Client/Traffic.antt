-- ===== src/Napcat/Client/Traffic.antt =====
-- The outgoing queue over time: callers of SendMessage and the loop of processOutgoing take turns.
use miss_raspberry_agent.Prelude.{
  ltb, if◌then◌else◌, Bool-cases, length, length-append, ◌≡◌, refl, sym, ap, ◌∙◌, inl, inr, Bool,
  false, Option, none, some, List, [], ◌∷◌, ◌++◌, arith, Text,
}
use mathlib.Core.List.{append_assoc}
use miss_raspberry_agent.Messaging.{Target}
use miss_raspberry_agent.Napcat.Directory.{MemberDirectory}
use miss_raspberry_agent.Napcat.Client.{
  Client, Outgoing, Call, outgoing_capacity, outgoing_to, send_message, enqueue, receive,
  process_message,
}
use miss_raspberry_agent.Napcat.Client.Life.{IsOpen}

pub data TrafficEvent : Type 0 where
  sends : Target → Text → TrafficEvent
  processes : TrafficEvent

-- The client, the messages that it has accepted and those that it has processed, the oldest first, and
-- the calls to the API, the newest first.
pub record Traffic : Type 0 where
  pub client : Client
  pub accepted : List Outgoing
  pub processed : List Outgoing
  pub calls : List Call

receive-none : (c : Client) → c.outgoing ≡ [] → receive c ≡ none
unfolding receive
receive-none c empty = ground (arith, empty)

module _ (answers : List Call → Call → Bool) where
  -- A turn; none is a panic.
  unfoldable pub run_event : TrafficEvent → Traffic → Option Traffic
  run_event (sends target content) t = elim (send_message target content t.client) [
    | none ↦ none
    | some (c, sent) ↦ some (record t {
      client = c;
      accepted = if sent then t.accepted ++ outgoing_to target content ∷ [] else t.accepted;
    })
  ]
  run_event processes t = elim (receive t.client) [
    | none ↦ some t
    | some (msg, c) ↦ some (record t {
      client = c;
      processed = t.processed ++ msg ∷ [];
      calls = process_message answers t.client.directory msg t.calls;
    })
  ]

  unfoldable pub run_events : List TrafficEvent → Traffic → Option Traffic
  run_events [] t = some t
  run_events (e ∷ es) t = elim (run_event e t) [ none ↦ none | some t' ↦ run_events es t' ]

  -- The calls for messages, processed one after the other
  pub process_all : MemberDirectory → List Outgoing → List Call → List Call
  process_all d [] calls = calls
  process_all d (msg ∷ msgs) calls = process_all d msgs (process_message answers d msg calls)

  process_all-append :
      (d : MemberDirectory) (xs : List Outgoing) (m : Outgoing) (calls : List Call)
      → process_all d (xs ++ m ∷ []) calls ≡ process_message answers d m (process_all d xs calls)
  unfolding process_all
  process_all-append d [] m calls = refl
  process_all-append d (x ∷ xs) m calls =
      process_all-append d xs m (process_message answers d x calls)

  -- What has been accepted has been processed in order, or waits in order within the capacity.
  pub record IsFifo (d : MemberDirectory) (t : Traffic) : Type 0 where
    pub is_open : IsOpen t.client
    pub directory : t.client.directory ≡ d
    pub order : t.accepted ≡ t.processed ++ t.client.outgoing
    pub delivered : t.calls ≡ process_all d t.processed []

  sent-IsFifo :
      (d : MemberDirectory) (target : Target) (content : Text) (t : Traffic)
      → IsFifo d t
      → (t' : Traffic) × (run_event (sends target content) t ≡ some t') × IsFifo d t'
  unfolding run_event send_message enqueue
  sent-IsFifo d target content t h =
      let msg = outgoing_to target content in
      let c = t.client in
      elim (Bool-cases (ltb (length c.outgoing) outgoing_capacity)) [
        | inl below ↦ (
          record t {
            client = record c { outgoing = c.outgoing ++ msg ∷ [] };
            accepted = t.accepted ++ msg ∷ [];
          },
          rw (h.is_open.not_closed, below, run_event) refl,
          record {
            is_open = record {
              not_closed = h.is_open.not_closed;
              bounded = ground (arith, length-append c.outgoing (msg ∷ []));
            };
            directory = h.directory;
            order =
                ap (λ xs. xs ++ msg ∷ []) h.order ∙ append_assoc t.processed c.outgoing (msg ∷ []);
            delivered = h.delivered;
          },
        )
        | inr full ↦ (t, rw (h.is_open.not_closed, full, run_event) refl, h)
      ]

  received-IsFifo :
      (d : MemberDirectory) (t : Traffic) (waiting : List Outgoing)
      → t.client.outgoing ≡ waiting
      → IsFifo d t
      → (t' : Traffic) × (run_event processes t ≡ some t') × IsFifo d t'
  unfolding run_event receive
  received-IsFifo d t [] waits h = (t, rw (receive-none t.client waits, run_event) refl, h)
  received-IsFifo d t (msg ∷ rest) waits h = (
    record t {
      client = record (t.client) { outgoing = rest };
      processed = t.processed ++ msg ∷ [];
      calls = process_message answers t.client.directory msg t.calls;
    },
    rw (waits, run_event, receive) refl,
    record {
      is_open = record {
        not_closed = h.is_open.not_closed;
        bounded = omega (arith, ap length waits, h.is_open.bounded);
      };
      directory = h.directory;
      order =
          h.order
          ∙ ap (λ xs. t.processed ++ xs) waits
          ∙ sym (append_assoc t.processed (msg ∷ []) rest);
      delivered = rw (h.directory, h.delivered, process_all-append d t.processed msg []) refl;
    },
  )

  run_events-IsFifo :
      (d : MemberDirectory) (es : List TrafficEvent) (t : Traffic)
      → IsFifo d t
      → (t' : Traffic) × (run_events es t ≡ some t') × IsFifo d t'
  unfolding run_events
  run_events-IsFifo d [] t h = (t, refl, h)
  run_events-IsFifo d (sends target content ∷ es) t h =
      let (next, ran, next_fifo) = sent-IsFifo d target content t h in
      let (last, ends, last_fifo) = run_events-IsFifo d es next next_fifo in
      (last, rw (ran, run_events) ends, last_fifo)
  run_events-IsFifo d (processes ∷ es) t h =
      let (next, ran, next_fifo) = received-IsFifo d t t.client.outgoing refl h in
      let (last, ends, last_fifo) = run_events-IsFifo d es next next_fifo in
      (last, rw (ran, run_events) ends, last_fifo)

  -- From an open client with an empty queue, however calls of SendMessage and turns of processOutgoing
  -- follow one another, nothing panics; at most 100 messages wait; the messages accepted are those
  -- processed and then those that wait, in the order of acceptance, so that none is lost, doubled or
  -- overtaken; and the calls to the API are those for the processed messages, one message after another.
  pub run_events_in_order :
      (es : List TrafficEvent) (c : Client)
      → c.closed ≡ false
      → c.outgoing ≡ []
      → (let idle : Traffic = record { client = c; accepted = []; processed = []; calls = [] } in
          (t : Traffic) × (run_events es idle ≡ some t) × IsFifo c.directory t)
  unfolding process_all
  run_events_in_order es c not_closed empty =
      run_events-IsFifo c.directory es
        (record { client = c; accepted = []; processed = []; calls = [] })
        (record {
          is_open = record { not_closed = not_closed; bounded = omega (arith, ap length empty) };
          directory = refl;
          order = sym empty;
          delivered = refl;
        })
