-- ===== src/Qq/Getter.antt =====
-- internal/tool/qq/getter.go: the history of a chat, by count or by time range.
pub mod Fetching
pub mod Answer
pub mod Window
pub mod Log
pub mod Paged
pub mod Complete
use miss_raspberry_agent.Prelude.{
  leb, if◌then◌else◌, length, ℤ, pos, ltb_ℤ, leb_ℤ, ◌==ℤ◌, ℕ, zero, suc, ◌+◌, Bool, true, false,
  not, ◌&&◌, ◌||◌, Option, none, some, List, [], ◌∷◌, ◌++◌, Text, codes, text_eq, is_empty, Result,
  ok, err,
}
use miss_raspberry_agent.Prelude.Sorting.{sort_by}
use miss_raspberry_agent.Messaging.{Target, HistoryMessage}

abbrev pub default_history_count : ℤ
default_history_count = pos 20

abbrev pub max_history_count : ℤ
max_history_count = pos 100

abbrev pub history_page_size : ℤ
history_page_size = pos 50

abbrev pub max_history_fetch : ℕ
max_history_fetch = 500

pub record QqMessageGetterInput : Type 0 where
  pub target_type : Text
  pub target_id : ℤ
  pub count : ℤ
  pub start_time : ℤ
  pub end_time : ℤ

pub record QqHistoryMessage : Type 0 where
  pub message_id : ℤ
  pub time : ℤ
  pub user_id : ℤ
  pub nick_name : Text
  pub content : Text

pub data GetterError (E : Type 0) : Type 0 where
  unknown_target_type : Text → GetterError E
  target_id_required start_after_end : GetterError E
  provider_failed : E → GetterError E

-- validateGetterInput
unfoldable pub validate_getter_input : {E : Type 0} → QqMessageGetterInput → Option (GetterError E)
validate_getter_input input =
    if not
      (text_eq input.target_type (codes "private") || text_eq input.target_type (codes "group"))
    then some (unknown_target_type input.target_type)
    else if leb_ℤ input.target_id (pos 0)
    then some target_id_required
    else if ltb_ℤ (pos 0) input.start_time
        && ltb_ℤ (pos 0) input.end_time
        && ltb_ℤ input.end_time input.start_time
    then some start_after_end
    else none

-- normalizeCount
unfoldable pub normalize_count : ℤ → ℤ
normalize_count count =
    if leb_ℤ count (pos 0)
    then default_history_count
    else if ltb_ℤ max_history_count count
    then max_history_count
    else count

abbrev pub newer : HistoryMessage → HistoryMessage → Bool
newer a b = ltb_ℤ b.time a.time

-- sortHistoryNewestFirst
unfoldable pub sort_history_newest_first : List HistoryMessage → List HistoryMessage
sort_history_newest_first = sort_by newer

unfoldable pub has_seen : ℤ → List ℤ → Bool
has_seen id [] = false
has_seen id (x ∷ xs) = (x ==ℤ id) || has_seen id xs

-- The inner loop of fetchInTimeRange over one page: the ids seen, and the messages to append
unfoldable pub add_page : List ℤ → List HistoryMessage → List ℤ × List HistoryMessage
add_page seen [] = (seen, [])
add_page seen (m ∷ page) = elim (m.message_id ==ℤ pos 0) [
  | true ↦ let rest = add_page seen page in (rest.0, m ∷ rest.1)
  | false ↦ elim (has_seen m.message_id seen) [
    | true ↦ add_page seen page
    | false ↦ let rest = add_page (m.message_id ∷ seen) page in (rest.0, m ∷ rest.1)
  ]
]

-- The last message of a page, given its first one
unfoldable pub oldest_of : HistoryMessage → List HistoryMessage → HistoryMessage
oldest_of m [] = m
oldest_of m (x ∷ xs) = oldest_of x xs

-- The variables of fetchInTimeRange's loop
pub record Paging : Type 0 where
  pub all : List HistoryMessage
  pub seen : List ℤ
  pub next_seq : ℤ
  pub prev_seq : ℤ
  pub total : ℕ

abbrev pub first_page : Paging
first_page = record { all = []; seen = []; next_seq = pos 0; prev_seq = pos 0; total = 0 }

-- What a round of the loop does: it stops with what it has collected, or goes on.
pub data Turn : Type 0 where
  stop : List HistoryMessage → Turn
  go : Paging → Turn

-- One round of the loop, on a page in order
unfoldable pub turn_page : ℤ → Paging → List HistoryMessage → Turn
turn_page start_time p [] = stop p.all
turn_page start_time p (m ∷ ms) =
    let added = add_page p.seen (m ∷ ms) in
    let total = p.total + length (m ∷ ms) in
    let oldest = oldest_of m ms in
    if ltb_ℤ oldest.time start_time || leb max_history_fetch total
    then stop (p.all ++ added.1)
    else if leb_ℤ oldest.message_seq (pos 0) || (oldest.message_seq ==ℤ p.prev_seq)
    then stop (p.all ++ added.1)
    else go (record {
      all = p.all ++ added.1;
      seen = added.0;
      next_seq = oldest.message_seq;
      prev_seq = oldest.message_seq;
      total = total;
    })

unfoldable pub in_range : ℤ → ℤ → HistoryMessage → Bool
in_range start_time end_time m = leb_ℤ start_time m.time && leb_ℤ m.time end_time

unfoldable pub select_range : ℤ → ℤ → List HistoryMessage → List HistoryMessage
select_range start_time end_time [] = []
select_range start_time end_time (m ∷ ms) =
    let rest = select_range start_time end_time ms in
    if in_range start_time end_time m then m ∷ rest else rest

-- The loop of buildHistoryOutput
unfoldable pub output_messages : List HistoryMessage → List QqHistoryMessage
output_messages [] = []
output_messages (m ∷ ms) =
    let rest = output_messages ms in
    if is_empty m.content
    then rest
    else record {
      message_id = m.message_id;
      time = m.time;
      user_id = m.user_id;
      nick_name = m.nick_name;
      content = m.content;
    }
      ∷ rest

-- buildHistoryOutput
unfoldable pub build_history_output : List HistoryMessage → List QqHistoryMessage
build_history_output raw = output_messages (sort_history_newest_first raw)

abbrev pub target_of : QqMessageGetterInput → Target
target_of input = record { type = input.target_type; id = input.target_id }

-- `provider` is GetMessageHistory of a HistoryProvider, which may change a state of its own.
module _ {W E : Type 0} (provider : W → Target → ℤ → ℤ → W × Result E (List HistoryMessage)) where
  -- The loop of fetchInTimeRange. It returns none when the fuel runs out.
  unfoldable pub fetch_from : ℕ → Target → ℤ → Paging → W → Option (Result E (List HistoryMessage))
  fetch_from zero target start_time p w = none
  fetch_from (suc fuel) target start_time p w =
      let answer = provider w target p.next_seq history_page_size in
      elim answer.1 [
        | err e ↦ some (err e)
        | ok page ↦ elim (turn_page start_time p (sort_history_newest_first page)) [
          | stop all ↦ some (ok all)
          | go p' ↦ fetch_from fuel target start_time p' answer.0
        ]
      ]

  -- fetchInTimeRange; `now` is the clock's answer.
  unfoldable pub fetch_in_time_range :
      ℤ → Target → QqMessageGetterInput → W → Option (Result E (List HistoryMessage))
  fetch_in_time_range now target input w =
      let end_time = if input.end_time ==ℤ pos 0 then now else input.end_time in
      elim (fetch_from max_history_fetch target input.start_time first_page w) [
        | none ↦ none
        | some (err e) ↦ some (err e)
        | some (ok all) ↦ some (ok (select_range input.start_time end_time all))
      ]

  -- The messages that GetMessageHistory builds its answer of
  unfoldable pub fetch_raw : ℤ → QqMessageGetterInput → W → Option (Result E (List HistoryMessage))
  fetch_raw now input w =
      if ltb_ℤ (pos 0) input.start_time || ltb_ℤ (pos 0) input.end_time
      then fetch_in_time_range now (target_of input) input w
      else some (provider w (target_of input) (pos 0) (normalize_count input.count)).1

  -- GetMessageHistory
  unfoldable pub get_message_history :
      ℤ → QqMessageGetterInput → W → Option (Result (GetterError E) (List QqHistoryMessage))
  get_message_history now input w = elim (validate_getter_input {E = E} input) [
    | some e ↦ some (err e)
    | none ↦ elim (fetch_raw now input w) [
      | none ↦ none
      | some (err e) ↦ some (err (provider_failed e))
      | some (ok raw) ↦ some (ok (build_history_output raw))
    ]
  ]
