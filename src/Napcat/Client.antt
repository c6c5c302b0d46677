-- ===== src/Napcat/Client.antt =====
-- internal/adapter/napcat/napcat_client.go: the client's life cycle, its outgoing queue, the sending of one
-- message, and the sync of its directory. The result none is a panic.
pub mod Sending
pub mod Sync
pub mod Life
pub mod Traffic
use miss_raspberry_agent.Prelude.{
  ltb, if◌then◌else◌, length, ℤ, pos, ◌==ℤ◌, ℕ_eq, ℤ_eq, ℕ, Bool, true, false, not, ◌&&◌, Option,
  none, some, List, [], ◌∷◌, ◌++◌, Text, text_eq, text_eq_inst,
}
use miss_raspberry_agent.Prelude.Table
use miss_raspberry_agent.Prelude.Table.{Table}
use miss_raspberry_agent.Messaging.{Target, target_type_group}
use miss_raspberry_agent.Napcat.Directory.{
  MemberDirectory, new_member_directory, is_friend, groups, replace, build_member_groups,
}

-- The fields of Message that an outgoing message uses; 0 is an absent ID.
pub record Outgoing : Type 0 where
  pub user_id : ℤ
  pub group_id : ℤ
  pub content : Text

-- NapcatClient: its directory, the contents of the channel Outgoing, whether it runs, and whether the
-- channels `done` and Outgoing are closed; both are closed by Stop only.
pub record Client : Type 0 where
  pub directory : MemberDirectory
  pub outgoing : List Outgoing
  pub running : Bool
  pub closed : Bool

-- NewClient
abbrev pub new_client : Client
new_client = record {
  directory = new_member_directory;
  outgoing = [];
  running = false;
  closed = false;
}

abbrev pub outgoing_capacity : ℕ
outgoing_capacity = 100

-- Start, without the goroutines that it starts
unfoldable pub start : Client → Client
start c = if c.running then c else record c { running = true }

-- Stop; closing a closed channel panics.
unfoldable pub stop : Client → Option Client
stop c =
    if not c.running
    then some c
    else if c.closed
    then none
    else some (record c { running = false; closed = true })

-- enqueue; a send on a closed channel panics, also in a select.
unfoldable pub enqueue : Outgoing → Client → Option (Client × Bool)
enqueue msg c =
    if c.closed
    then none
    else if ltb (length c.outgoing) outgoing_capacity
    then some (record c { outgoing = c.outgoing ++ msg ∷ [] }, true)
    else some (c, false)

-- The message that SendMessage makes.
unfoldable pub outgoing_to : Target → Text → Outgoing
outgoing_to target content =
    if text_eq target.type target_type_group
    then record { user_id = pos 0; group_id = target.id; content = content }
    else record { user_id = target.id; group_id = pos 0; content = content }

-- SendMessage; the flag says that there is no error, and the error is always ErrQueueFull.
unfoldable pub send_message : Target → Text → Client → Option (Client × Bool)
unfolding outgoing_to enqueue
send_message target content c = enqueue (outgoing_to target content) c

-- A call of an action of the OneBot API that sends a message.
pub data Call : Type 0 where
  private_msg : ℤ → Text → Call
  temporary_msg : ℤ → ℤ → Text → Call
  group_msg : ℤ → Text → Call

-- TrySendToMemberViaGroups, for a `send` that changes a state
unfoldable pub try_send_to_member_via_groups :
    {S : Type 0} → (ℤ → S → S × Bool) → List ℤ → S → S × Option ℤ
try_send_to_member_via_groups send [] s = (s, none)
try_send_to_member_via_groups send (group_id ∷ group_ids) s =
    let (s', sent) = send group_id s in
    let rest = try_send_to_member_via_groups send group_ids s' in
    if sent then (s', some group_id) else rest

-- `answers` says whether the API accepts a call, after the calls that have been made, the newest first.
module _ (answers : List Call → Call → Bool) where
  -- callAction; a call that finds no bot counts as refused.
  unfoldable pub call_action : Call → List Call → List Call × Bool
  call_action call made = (call ∷ made, answers made call)

  -- sendPrivate
  unfoldable pub send_private : MemberDirectory → ℤ → Text → List Call → List Call × Bool
  unfolding call_action
  send_private d user_id content made =
      if d.loaded && is_friend user_id d
      then call_action (private_msg user_id content) made
      else let send = λ (group_id : ℤ). call_action (temporary_msg user_id group_id content) in
        let (made', sent) = try_send_to_member_via_groups send (groups user_id d) made in
        elim sent [
          | some _ ↦ (made', true)
          | none ↦ call_action (private_msg user_id content) made'
        ]

  -- What processOutgoing does with one message. SendGroupMessage returns nothing that is used.
  unfoldable pub process_message : MemberDirectory → Outgoing → List Call → List Call
  unfolding call_action send_private
  process_message d msg made =
      if not (msg.group_id ==ℤ pos 0)
      then (call_action (group_msg msg.group_id msg.content) made).0
      else (send_private d msg.user_id msg.content made).0

-- What a turn of processOutgoing's loop receives from Outgoing, if anything waits there
unfoldable pub receive : Client → Option (Outgoing × Client)
receive c = elim c.outgoing [ [] ↦ none | msg ∷ rest ↦ some (msg, record c { outgoing = rest }) ]

-- SyncDirectory, for a bot that is connected: what the API answers to get_friend_list, get_group_list
-- and, for a group, to get_group_member_list, with none for a failure.
unfoldable pub fetch_members : (ℤ → Option (List ℤ)) → List ℤ → Table ℤ (List ℤ) → Table ℤ (List ℤ)
fetch_members members [] group_members = group_members
fetch_members members (group_id ∷ group_ids) group_members = elim (members group_id) [
  | none ↦ fetch_members members group_ids group_members
  | some users ↦ fetch_members members group_ids (Table.put group_id users group_members)
]

unfoldable pub sync_directory :
    Option (List ℤ) → Option (List ℤ) → (ℤ → Option (List ℤ)) → Client → Client × Bool
sync_directory none group_ids members c = (c, false)
sync_directory (some friends) none members c = (c, false)
sync_directory (some friends) (some group_ids) members c =
    let index = build_member_groups (fetch_members members group_ids []) in
    (record c { directory = replace friends index c.directory }, true)

-- A round of groupSyncLoop: `done` is closed, or a tick comes and the API answers to SyncDirectory.
pub data Round : Type 0 where
  finished : Round
  tick : Option (List ℤ) → Option (List ℤ) → (ℤ → Option (List ℤ)) → Round

-- The second loop of groupSyncLoop
unfoldable pub refresh_directory : List Round → Client → Client
refresh_directory [] c = c
refresh_directory (finished ∷ rounds) c = c
refresh_directory (tick friends group_ids members ∷ rounds) c =
    refresh_directory rounds (sync_directory friends group_ids members c).0

-- groupSyncLoop
unfoldable pub group_sync_loop : List Round → Client → Client
group_sync_loop [] c = c
group_sync_loop (finished ∷ rounds) c = c
group_sync_loop (tick friends group_ids members ∷ rounds) c =
    let (c', loaded) = sync_directory friends group_ids members c in
    let retried = group_sync_loop rounds c' in
    if loaded then refresh_directory rounds c' else retried
