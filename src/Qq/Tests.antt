-- ===== src/Qq/Tests.antt =====
-- The tools for QQ messages at concrete data.
use miss_raspberry_agent.Prelude.{
  if◌then◌else◌, Bool-cases, All, ℤ, pos, ltb_ℤ, leb_ℤ, ◌==ℤ◌, ◌≤◌, ◌≡◌, refl, inl, inr, false,
  none, some, List, [], ◌∷◌, arith, codes, text_eq, Result, ok,
}
use miss_raspberry_agent.Messaging.{Target, HistoryMessage}
use miss_raspberry_agent.Qq.Sender.{QqMessageSenderInput}
use miss_raspberry_agent.Prelude.Sorting.{sort_by, insert_by}
use miss_raspberry_agent.Qq.Getter.{
  GetterError, QqMessageGetterInput, QqHistoryMessage, get_message_history, validate_getter_input,
  fetch_raw, fetch_in_time_range, fetch_from, turn_page, add_page, oldest_of, has_seen,
  select_range, in_range, build_history_output, output_messages, sort_history_newest_first,
}
use miss_raspberry_agent.Qq.Getter.Fetching.{get_message_history_ends}
use miss_raspberry_agent.Qq.Getter.Log.{IsLog, from_seq, first_n}
use miss_raspberry_agent.Qq.Getter.Complete.{Pages, get_message_history_complete}
use miss_raspberry_agent.Qq.Getter.Window.{
  NewestFirst, Fits, count_output, get_message_history_in_range,
}

abbrev early : HistoryMessage
early = record {
  message_id = pos 7;
  message_seq = pos 3;
  time = pos 100;
  user_id = pos 1;
  nick_name = [];
  content = codes "hi";
}

abbrev late : HistoryMessage
late = record {
  message_id = pos 8;
  message_seq = pos 4;
  time = pos 200;
  user_id = pos 1;
  nick_name = [];
  content = codes "yo";
}

-- A chat of two messages: the first page has both, and every later one the older message again.
abbrev two_messages : Unit {0} → Target → ℤ → ℤ → Unit {0} × Result (Unit {0}) (List HistoryMessage)
two_messages w target seq count = (w, ok (if seq ==ℤ pos 0 then early ∷ late ∷ [] else early ∷ []))

abbrev since_50 : QqMessageGetterInput
since_50 = record {
  target_type = codes "group";
  target_id = pos 5;
  count = pos 0;
  start_time = pos 50;
  end_time = pos 0;
}

abbrev both_messages : List QqHistoryMessage
both_messages =
    record {
      message_id = pos 8;
      time = pos 200;
      user_id = pos 1;
      nick_name = [];
      content = codes "yo";
    }
    ∷ record {
      message_id = pos 7;
      time = pos 100;
      user_id = pos 1;
      nick_name = [];
      content = codes "hi";
    }
    ∷ []

history_since_50 : get_message_history two_messages (pos 1000) since_50 tt ≡ some (ok both_messages)
unfolding get_message_history validate_getter_input fetch_raw fetch_in_time_range fetch_from
    turn_page add_page oldest_of has_seen select_range in_range build_history_output output_messages
    sort_history_newest_first sort_by insert_by text_eq
history_since_50 = refl

get_message_history_ends_example :
    (r : Result (GetterError (Unit {0})) (List QqHistoryMessage)) × (get_message_history
        two_messages
        (pos 1000)
        since_50
        tt
      ≡ some r)
get_message_history_ends_example = get_message_history_ends two_messages (pos 1000) since_50 tt

get_message_history_in_range_example :
    NewestFirst both_messages
    × All (Fits (pos 50) (pos 1000)) both_messages
    × ((id : ℤ) → (id ==ℤ pos 0) ≡ false → count_output id both_messages ≤ 1)
get_message_history_in_range_example =
    get_message_history_in_range two_messages (pos 1000) since_50 tt both_messages refl
      history_since_50

abbrev to_group : QqMessageSenderInput
to_group = record { target_id = pos 5; target_type = codes "group"; content = codes "hi" }

-- The same chat, paged as the provider's interface says
abbrev chat_log : List HistoryMessage
chat_log = late ∷ early ∷ []

abbrev paging_provider :
    Unit {0} → Target → ℤ → ℤ → Unit {0} × Result (Unit {0}) (List HistoryMessage)
paging_provider w target seq count = (w, ok (first_n 50 (from_seq seq chat_log)))

pages_sorted :
    (seq : ℤ)
    → sort_history_newest_first (first_n 50 (from_seq seq chat_log))
      ≡ first_n 50 (from_seq seq chat_log)
unfolding sort_history_newest_first sort_by insert_by
pages_sorted seq = elim (Bool-cases (leb_ℤ seq (pos 0))) [
  | inl latest ↦ rw latest refl
  | inr paging ↦ elim (Bool-cases (ltb_ℤ (pos 4) seq)) [
    | inl all_of ↦ elim (Bool-cases (ltb_ℤ (pos 3) seq)) [
      | inl both ↦ rw (paging, all_of, both) refl
      | inr one ↦ rw (paging, all_of, one) refl
    ]
    | inr not_late ↦ elim (Bool-cases (ltb_ℤ (pos 3) seq)) [
      | inl one ↦ rw (paging, not_late, one) refl
      | inr empty ↦ rw (paging, not_late, empty) refl
    ]
  ]
]

chat-Pages : Pages paging_provider (record { type = codes "group"; id = pos 5 }) chat_log
chat-Pages = record {
  page = λ w seq. first_n 50 (from_seq seq chat_log);
  answers = λ w seq. refl;
  pages = λ w seq. pages_sorted seq;
}

chat-IsLog : IsLog chat_log
chat-IsLog = (refl, refl, (record { seq = refl; time = refl; id = refl }, tt), (refl, refl, tt, tt))

since_50-valid : validate_getter_input {E = Unit {0}} since_50 ≡ none
unfolding validate_getter_input text_eq
since_50-valid = refl

get_message_history_complete_example :
    get_message_history paging_provider (pos 1000) since_50 tt
    ≡ some (ok (build_history_output (select_range (pos 50) (pos 1000) chat_log)))
get_message_history_complete_example =
    get_message_history_complete paging_provider (pos 1000) since_50 chat_log chat_log [] chat-IsLog
      refl tt (omega arith) chat-Pages tt since_50-valid refl
