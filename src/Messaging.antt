-- ===== src/Messaging.antt =====
-- internal/messaging: chat targets, and the service that takes messages from outside into the queue.
pub mod Laws
mod Tests
use miss_raspberry_agent.Prelude.{
  if◌then◌else◌, ℤ, pos, leb_ℤ, not, Option, none, some, [], ◌++◌, parse_int, Text, codes, text_eq,
  is_empty, trim_space, Result, ok, err, Ctx, CtxError,
}
use miss_raspberry_agent.Todo
use miss_raspberry_agent.Todo.{Item}

-- TargetType is a string; only these two values are named.
pub record Target : Type 0 where
  pub type : Text
  pub id : ℤ

abbrev pub target_type_private : Text
target_type_private = codes "private"

abbrev pub target_type_group : Text
target_type_group = codes "group"

pub record HistoryMessage : Type 0 where
  pub message_id : ℤ
  pub message_seq : ℤ
  pub time : ℤ
  pub user_id : ℤ
  pub nick_name : Text
  pub content : Text

abbrev pub platform_qq : Text
platform_qq = codes "qq"

-- A request to the main agent; the source calls it Message.
pub record Request : Type 0 where
  pub platform : Text
  pub target_id : Text
  pub content : Text
  pub context : Text

pub data SubmitError : Type 0 where
  context_done : CtxError → SubmitError
  unsupported_platform : Text → SubmitError
  content_required target_required no_queue : SubmitError
  target_not_positive : Text → SubmitError

-- The item that Submit adds.
unfoldable pub request_item : Request → ℤ → Item
request_item msg qq_id = record {
  id = [];
  content = trim_space msg.content;
  context = trim_space msg.context;
  source = codes "API(平台=" ++ msg.platform ++ codes ",目标=" ++ trim_space msg.target_id ++ codes ")";
  target_type = target_type_private;
  target_id = qq_id;
  user_id = qq_id;
  created_at = pos 0;
}

-- The end of Submit, for a target that has been read as a number
unfoldable pub submit_to :
    ℤ → Request → ℤ → Option Todo.Store → Option Todo.Store × Result SubmitError Text
submit_to now msg qq_id none = (none, err no_queue)
submit_to now msg qq_id (some s) =
    let (s', item) = Todo.add now (request_item msg qq_id) s in (some s', ok item.id)

-- Submit
unfoldable pub submit :
    Ctx → ℤ → Request → Option Todo.Store → Option Todo.Store × Result SubmitError Text
submit (some e) now msg queue = (queue, err (context_done e))
submit none now msg queue =
    if not (text_eq msg.platform platform_qq)
    then (queue, err (unsupported_platform msg.platform))
    else if is_empty (trim_space msg.content)
    then (queue, err content_required)
    else if is_empty (trim_space msg.target_id)
    then (queue, err target_required)
    else elim (parse_int (trim_space msg.target_id)) [
      | none ↦ (queue, err (target_not_positive (trim_space msg.target_id)))
      | some qq_id ↦
          if leb_ℤ qq_id (pos 0)
          then (queue, err (target_not_positive (trim_space msg.target_id)))
          else submit_to now msg qq_id queue
    ]
