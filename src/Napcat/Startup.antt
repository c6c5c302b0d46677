-- ===== src/Napcat/Startup.antt =====
-- What Start of internal/adapter/napcat/napcat_client.go registers with ZeroBot, the connected bot, and
-- the configuration that NewClient completes.
use miss_raspberry_agent.Prelude.{
  if◌then◌else◌, is_some, ℤ, pos, ltb_ℤ, leb_ℤ, max_int64, ℕ_eq, ℤ_eq, ◌<◌, ◌≡◌, refl, ◌∙◌, Bool,
  true, false, Option, none, some, List, [], ◌∷◌, arith, Text, codes, text_eq, text_eq_iff,
  text_eq_inst,
}
use miss_raspberry_agent.Prelude.Table
use miss_raspberry_agent.Todo
use miss_raspberry_agent.Todo.Laws.{IsValid, add_lem}
use miss_raspberry_agent.Config.{NapcatConfig}
use miss_raspberry_agent.Napcat.Incoming.{
  Segment, Event, Message, handle_incoming_message, should_activate, incoming_item, reply_target_id,
}

-- The fields of zero.Event that the handler reads beside those of Event; `sender` is the sender's nickname.
pub record Received (N : Type 0) : Type 0 where
  pub event : Event N
  pub user_id : ℤ
  pub group_id : ℤ
  pub message_type : Text
  pub sender : Option Text

-- `message_string` is String of ZeroBot's Message.
module _ {N : Type 0} (message_string : List Segment → Text)
    (parse_message : N → List Segment) where
  -- The message that the handler makes of an event
  unfoldable pub message_of : Received N → Message N
  message_of r = record {
    user_id = r.user_id;
    group_id = r.group_id;
    message_type = r.message_type;
    nick_name = elim r.sender [ none ↦ [] | some name ↦ name ];
    content = message_string r.event.message;
    raw_event = some r.event;
  }

  -- The handler of Start
  unfoldable pub on_message : ℤ → Received N → Option Todo.Store → Option Todo.Store
  on_message now r queue = (handle_incoming_message parse_message now (message_of r) queue).0

  should_activate-private :
      (r : Received N)
      → text_eq r.message_type (codes "group") ≡ false
      → should_activate parse_message (message_of r) ≡ true
  unfolding should_activate message_of
  should_activate-private r chat = ground (arith, chat)

  on_message-add :
      (now : ℤ) (r : Received N) (s : Todo.Store)
      → text_eq r.message_type (codes "group") ≡ false
      → on_message now r (some s) ≡ some (Todo.add now (incoming_item (message_of r)) s).0
  unfolding on_message handle_incoming_message
  on_message-add now r s chat =
      let active : should_activate parse_message (message_of r) ≡ true =
        should_activate-private r chat in
      rw (active, on_message, handle_incoming_message) refl

  -- Every private message that comes in is queued: an id that was free has an item with the text of the
  -- message, to be answered to its sender, if the queue is valid and has room in its counter.
  on_message_private :
      (now : ℤ) (r : Received N) (s : Todo.Store)
      → text_eq r.message_type (codes "group") ≡ false
      → IsValid s
      → s.next_id < max_int64
      → (s' : Todo.Store) × (id : Text) × (item : Todo.Item) × (on_message now r (some s) ≡ some s')
        × (Table.get id s.items ≡ none)
        × (Table.get id s'.items ≡ some item)
        × (item.content ≡ message_string r.event.message)
        × (item.target_id ≡ r.user_id)
  unfolding message_of incoming_item reply_target_id Todo.add Todo.stamped
  on_message_private now r s chat v room =
      let item = incoming_item (message_of r) in
      let stored = Todo.add now item s in
      let (fresh, content, found) = add_lem now item s v room in
      (
        stored.0,
        stored.1.id,
        stored.1,
        on_message-add now r s chat,
        fresh,
        found stored.1.id ∙ rw ((text_eq_iff stored.1.id stored.1.id).1 refl) refl,
        refl,
        rw chat refl,
      )

-- RangeBot stops at the first bot, and bot returns it.
unfoldable pub bot : {B : Type 0} → List B → Option B
bot [] = none
bot (zb ∷ bots) = some zb

-- Connected
unfoldable pub connected : {B : Type 0} → List B → Bool
unfolding bot
connected bots = is_some (bot bots)

-- NapcatClientConfig; the interval is in nanoseconds.
pub record ClientConfig : Type 0 where
  pub web_socket_url : Text
  pub access_token : Text
  pub nick_name : List Text
  pub command_prefix : Text
  pub super_users : List ℤ
  pub directory_refresh_interval : ℤ

-- 30 minutes
abbrev pub default_directory_refresh_interval : ℤ
default_directory_refresh_interval = pos 1800000000000

-- DefaultConfig
unfoldable pub default_config : ClientConfig
default_config = record {
  web_socket_url = codes "ws://127.0.0.1:3001";
  access_token = [];
  nick_name = codes "bot" ∷ [];
  command_prefix = codes "/";
  super_users = [];
  directory_refresh_interval = default_directory_refresh_interval;
}

unfoldable pub with_interval : ClientConfig → ClientConfig
with_interval cfg =
    if leb_ℤ cfg.directory_refresh_interval (pos 0)
    then record cfg { directory_refresh_interval = default_directory_refresh_interval }
    else cfg

-- The configuration that NewClient keeps
unfoldable pub client_config : Option ClientConfig → ClientConfig
unfolding default_config with_interval
client_config none = with_interval default_config
client_config (some cfg) = with_interval cfg

-- The configuration that Run of internal/app/app.go gives to NewClient
unfoldable pub app_client_config : NapcatConfig → ClientConfig
app_client_config cfg = record {
  web_socket_url = cfg.web_socket_url;
  access_token = cfg.access_token;
  nick_name = codes "bot" ∷ [];
  command_prefix = codes "/";
  super_users = [];
  directory_refresh_interval = pos 0;
}

-- The refresh ticker of groupSyncLoop does not panic, which it would for an interval that is not positive.
refresh_interval_positive :
    (cfg : Option ClientConfig)
    → ltb_ℤ (pos 0) (client_config cfg).directory_refresh_interval ≡ true
unfolding client_config with_interval default_config
refresh_interval_positive none = refl
refresh_interval_positive (some cfg) = ground arith
