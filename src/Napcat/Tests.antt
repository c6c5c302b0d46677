-- ===== src/Napcat/Tests.antt =====
-- Runs of the QQ transport at concrete data.
use miss_raspberry_agent.Prelude.{
  ◌==◌, if◌then◌else◌, length, ℤ, pos, ltb_ℤ, ◌==ℤ◌, ℕ_eq, ℤ_eq, ◌≡◌, refl, ◌↔◌, ◌⊎◌, Bool, true,
  false, ◌&&◌, Option, none, some, List, [], ◌∷◌, arith, codes, text_eq, text_eq_inst,
}
use miss_raspberry_agent.Prelude.Table
use miss_raspberry_agent.Prelude.Table.{Table, IsMap}
use miss_raspberry_agent.Prelude.Sorting.{IsSorted}
use miss_raspberry_agent.Todo
use miss_raspberry_agent.Todo.Laws.{IsValid-new_store}
use miss_raspberry_agent.Messaging.{Target}
use miss_raspberry_agent.Napcat.Directory.{
  MemberDirectory, new_member_directory, has_id, is_friend, groups, replace, build_member_groups,
}
use miss_raspberry_agent.Napcat.Incoming.{
  Segment, Message, is_bot_mentioned, should_activate, handle_incoming_message, Handled,
  handle_incoming_message_lem, should_activate_iff,
}
use miss_raspberry_agent.Napcat.Client.{
  Client, new_client, start, stop, send_message, Call, send_private, sync_directory,
}
use miss_raspberry_agent.Napcat.Client.Sending.{ways, first_accepted, send_private_lem}
use miss_raspberry_agent.Napcat.Client.Sync.{named_in, sync_directory_lem}
use miss_raspberry_agent.Napcat.Client.Traffic.{
  Traffic, sends, processes, run_events, IsFifo, run_events_in_order,
}
use miss_raspberry_agent.Napcat.Client.Life.{IsOpen, stop_lem}

-- User 7 is in the groups 20 and 10.
abbrev two_groups : Table ℤ (List ℤ)
two_groups = (pos 20, pos 7 ∷ []) ∷ (pos 10, pos 8 ∷ pos 7 ∷ []) ∷ []

two_groups-IsMap : IsMap two_groups
unfolding Table.has_key
two_groups-IsMap = (refl, (refl, tt))

abbrev directory : MemberDirectory
directory = replace (pos 8 ∷ []) (build_member_groups two_groups) new_member_directory

-- The message parser here keeps the segments that it is given.
abbrev pub keep : List Segment → List Segment
keep segs = segs

abbrev pub hello : Message (List Segment)
hello = record {
  user_id = pos 7;
  group_id = pos 20;
  message_type = codes "private";
  nick_name = [];
  content = codes "hello";
  raw_event = none;
}

handle_incoming_message_lem_example :
    Handled keep hello Todo.new_store
      (handle_incoming_message keep (pos 5) hello (some Todo.new_store))
handle_incoming_message_lem_example =
    handle_incoming_message_lem keep (pos 5) hello Todo.new_store IsValid-new_store (omega arith)

should_activate_iff_example :
    (should_activate keep hello ≡ true)
    ↔ ((text_eq (codes "private") (codes "group") ≡ false) ⊎ (is_bot_mentioned keep hello ≡ true))
should_activate_iff_example = should_activate_iff keep hello

-- An API that accepts the third call only.
abbrev third : List Call → Call → Bool
third made call = length made == 2

send_private_lem_example :
    send_private third directory (pos 7) (codes "hi") []
    ≡ first_accepted third (ways directory (pos 7) (codes "hi")) []
send_private_lem_example = send_private_lem third (pos 7) (codes "hi") directory []

abbrev running_client : Client
running_client = record new_client { running = true }

running_client-IsOpen : IsOpen running_client
running_client-IsOpen = record { not_closed = refl; bounded = omega arith }

abbrev friend : Target
friend = record { type = codes "private"; id = pos 8 }

-- An API that accepts every call
abbrev willing : List Call → Call → Bool
willing made call = true

run_events_in_order_example :
    (t : Traffic) × (run_events willing
        (sends friend (codes "hi") ∷ processes ∷ sends friend (codes "yo") ∷ [])
        (record { client = new_client; accepted = []; processed = []; calls = [] })
      ≡ some t)
    × IsFifo willing new_client.directory t
run_events_in_order_example =
    run_events_in_order willing
      (sends friend (codes "hi") ∷ processes ∷ sends friend (codes "yo") ∷ []) new_client refl refl

stop_lem_example :
    (c' : Client) × (stop running_client ≡ some c')
    × (send_message friend (codes "hi") c' ≡ none)
    × (stop (start c') ≡ none)
stop_lem_example = stop_lem running_client friend (codes "hi") running_client-IsOpen refl

-- The API knows the members of group 20 only.
abbrev group_20 : ℤ → Option (List ℤ)
group_20 g = if g ==ℤ pos 20 then some (pos 7 ∷ []) else none

sync_directory_lem_example :
    (c' : Client) × (sync_directory
        (some (pos 8 ∷ []))
        (some (pos 10 ∷ pos 20 ∷ []))
        group_20
        new_client
      ≡ (c', true))
    × (c'.directory.loaded ≡ true)
    × (is_friend (pos 7) c'.directory ≡ has_id (pos 7) (pos 8 ∷ []))
    × (has_id (pos 20) (groups (pos 7) c'.directory) ≡ (
        has_id (pos 20) (pos 10 ∷ pos 20 ∷ [])
        && named_in group_20 (pos 20) (pos 7) (group_20 (pos 20))))
    × IsSorted ltb_ℤ (groups (pos 7) c'.directory)
sync_directory_lem_example =
    sync_directory_lem group_20 (pos 20) (pos 7) (pos 8 ∷ []) (pos 10 ∷ pos 20 ∷ []) new_client
