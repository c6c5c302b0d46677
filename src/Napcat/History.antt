-- ===== src/Napcat/History.antt =====
-- GetMessageHistory of internal/adapter/napcat/napcat_client.go: the call to the OneBot API, and the reading
-- of its answer with gjson.
use miss_raspberry_agent.Prelude.{
  if◌then◌else◌, ℤ, pos, ltb_ℤ, ◌==ℤ◌, ℕ_eq, ℤ_eq, not, Option, none, some, List, [], ◌∷◌, ◌++◌,
  map, format_int, Text, codes, text_eq, text_eq_inst, Result, ok, err,
}
use miss_raspberry_agent.Prelude.Table
use miss_raspberry_agent.Prelude.Table.{Table}
use miss_raspberry_agent.Napcat.Gjson.{Gjson, number, text, ActionCall, ApiResponse}
use miss_raspberry_agent.Messaging.{Target, HistoryMessage, target_type_private}

pub data HistoryError : Type 0 where
  no_bot : HistoryError
  action_failed : Text → ℤ → Text → Text → HistoryError

-- The action and the parameters that GetMessageHistory calls
unfoldable pub history_call : Target → ℤ → ℤ → ActionCall
history_call target before_seq count =
    if text_eq target.type target_type_private
    then (let params =
          (codes "user_id", text (format_int target.id)) ∷ (codes "count", number count) ∷ [] in
        record {
          action = codes "get_friend_msg_history";
          params =
              if ltb_ℤ (pos 0) before_seq
              then Table.put (codes "message_seq") (text (format_int before_seq)) params
              else params;
        })
    else (let params = (codes "group_id", number target.id) ∷ (codes "count", number count) ∷ [] in
        record {
          action = codes "get_group_msg_history";
          params =
              if ltb_ℤ (pos 0) before_seq
              then Table.put (codes "message_id") (number before_seq)
                  (Table.put (codes "message_seq") (number before_seq) params)
              else params;
        })

module _ {J : Type 0} (gjson : Gjson J) where
  -- The loop of extractText
  unfoldable pub text_of_segments : List J → Text
  text_of_segments [] = []
  text_of_segments (seg ∷ segs) =
      let rest = text_of_segments segs in
      if text_eq (gjson.string (gjson.get (codes "type") seg)) (codes "text")
      then gjson.string (gjson.get (codes "data.text") seg) ++ rest
      else rest

  -- extractText
  unfoldable pub extract_text : J → Text
  unfolding text_of_segments
  extract_text item =
      let message = gjson.get (codes "message") item in
      if gjson.is_string message
      then gjson.string message
      else text_of_segments (gjson.array message)

  -- The body of ParseHistoryResponse's loop
  unfoldable pub history_message : J → HistoryMessage
  history_message item =
      let seq = gjson.int (gjson.get (codes "message_seq") item) in
      record {
        message_id = gjson.int (gjson.get (codes "message_id") item);
        message_seq =
            if seq ==ℤ pos 0 then gjson.int (gjson.get (codes "message_id") item) else seq;
        time = gjson.int (gjson.get (codes "time") item);
        user_id = gjson.int (gjson.get (codes "user_id") item);
        nick_name = gjson.string (gjson.get (codes "sender.nickname") item);
        content = extract_text item;
      }

  -- ParseHistoryResponse
  unfoldable pub parse_history_response : J → List HistoryMessage
  parse_history_response body =
      let messages = gjson.get (codes "messages") body in
      map history_message (gjson.array (if gjson.exists messages then messages else body))

  -- GetMessageHistory; the bot, if one is connected, answers the calls and may change a state.
  unfoldable pub request_history :
      {W : Type 0}
      → Option (ActionCall → W → W × ApiResponse J)
      → W
      → Target
      → ℤ
      → ℤ
      → W × Result HistoryError (List HistoryMessage)
  request_history none w target before_seq count = (w, err no_bot)
  request_history (some bot) w target before_seq count =
      let call = history_call target before_seq count in
      let (w', rsp) = bot call w in
      if not (rsp.ret_code ==ℤ pos 0)
      then (w', err (action_failed call.action rsp.ret_code rsp.message rsp.wording))
      else (w', ok (parse_history_response rsp.data_of))
