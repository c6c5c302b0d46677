-- ===== src/Qq/Getter/Complete.antt =====
-- fetchInTimeRange misses no message of the range, for a provider that pages through a log.
use miss_raspberry_agent.Prelude.{
  if◌then◌else◌, length, All, ℤ, pos, ltb_ℤ, leb_ℤ, ◌==ℤ◌, ℕ, zero, suc, ◌≤◌, ◌≡◌, refl, sym, ap,
  ◌∙◌, subst, inl, inr, true, false, ◌||◌, none, some, List, [], ◌∷◌, ◌++◌, arith, Result, ok,
}
use miss_raspberry_agent.Messaging.{Target, HistoryMessage}
use miss_raspberry_agent.Qq.Getter.{
  QqMessageGetterInput, sort_history_newest_first, has_seen, Paging, first_page, turn_page,
  in_range, select_range, build_history_output, fetch_from, fetch_in_time_range, fetch_raw,
  get_message_history, validate_getter_input, target_of, max_history_fetch, history_page_size,
}
use miss_raspberry_agent.Qq.Getter.Fetching.{Turn-cases, fetch_from_ends}
use miss_raspberry_agent.Qq.Getter.Log.{IsLog, from_seq, first_n, Unseen}
use miss_raspberry_agent.Qq.Getter.Paged.{Before, Covers, At, Turned, page-Turned}

select_range-early :
    (start end_time : ℤ) (xs : List HistoryMessage)
    → All (Before start) xs
    → select_range start end_time xs ≡ []
unfolding select_range in_range
select_range-early start end_time [] h = refl
select_range-early start end_time (x ∷ xs) h =
    let out : leb_ℤ start x.time ≡ false = ground (arith, h.0) in
    rw out (select_range-early start end_time xs h.1)

-- Messages from before the range make no difference.
select_range-covered :
    (start end_time : ℤ) (xs missed : List HistoryMessage)
    → All (Before start) missed
    → select_range start end_time (xs ++ missed) ≡ select_range start end_time xs
unfolding select_range
select_range-covered start end_time [] missed h = select_range-early start end_time missed h
select_range-covered start end_time (x ∷ xs) missed h =
    rw (select_range-covered start end_time xs missed h) refl

IsLog-positive :
    (log : List HistoryMessage) → IsLog log → All (λ x. (x.message_seq ==ℤ pos 0) ≡ false) log
IsLog-positive [] h = tt
IsLog-positive (x ∷ log) h = (ground (arith, h.0), IsLog-positive log h.3)

all-Unseen : (log : List HistoryMessage) → All (Unseen []) log
unfolding has_seen
all-Unseen [] = tt
all-Unseen (x ∷ log) = (refl, all-Unseen log)

-- The provider pages through the log: asked for what stands before a sequence number, it answers with the
-- next 50 messages, in an order that the sort by time makes the log's.
pub record Pages {W E : Type 0} (provider : W → Target → ℤ → ℤ → W × Result E (List HistoryMessage))
    (target : Target) (log : List HistoryMessage) : Type 0 where
  pub page : W → ℤ → List HistoryMessage
  pub answers : (w : W) (seq : ℤ) → (provider w target seq history_page_size).1 ≡ ok (page w seq)
  pub pages :
      (w : W) (seq : ℤ) → sort_history_newest_first (page w seq) ≡ first_n 50 (from_seq seq log)

module _ {W E : Type 0} (provider : W → Target → ℤ → ℤ → W × Result E (List HistoryMessage))
    (start : ℤ) (log recent old : List HistoryMessage) (ordered : IsLog log)
    (split : log ≡ recent ++ old) (expired : All (Before start) old)
    (few : length recent ≤ max_history_fetch) where
  fetch_from-Covers :
      (fuel : ℕ) (target : Target) (p : Paging) (w : W) (taken rest : List HistoryMessage)
      → (r : Result E (List HistoryMessage)) → Pages provider target log
      → At start log recent old ordered split expired few p taken rest
      → fetch_from provider fuel target start p w ≡ some r
      → (all : List HistoryMessage) × (r ≡ ok all)
        × Covers start log recent old ordered split expired few all
  unfolding fetch_from
  fetch_from-Covers zero target p w taken rest r pg at ran = absurd (ground (arith, ran))
  fetch_from-Covers (suc fuel) target p w taken rest r pg at ran =
      let page = pg.page w p.next_seq in
      let sorted : sort_history_newest_first page ≡ first_n 50 rest =
        pg.pages w p.next_seq ∙ ap (first_n 50) at.asked in
      let got = pg.answers w p.next_seq in
      let turned =
        subst (λ xs. Turned start log recent old ordered split expired few (turn_page start p xs))
          (sym sorted)
          (page-Turned start log recent old ordered split expired few p taken rest at) in
      elim (Turn-cases (turn_page start p (sort_history_newest_first page))) [
        | inl (all, stops) ↦ (
          all,
          ground (arith, got, stops, ran),
          subst (Turned start log recent old ordered split expired few) stops turned,
        )
        | inr (p', goes) ↦
            let (taken', rest', at') =
              subst (Turned start log recent old ordered split expired few) goes turned in
            fetch_from-Covers fuel target p' (provider w target p.next_seq history_page_size).0
              taken' rest' r pg at' (ground (arith, got, goes, ran))
      ]

  At-start : At start log recent old ordered split expired few first_page [] log
  At-start = record {
    whole = refl;
    collected = refl;
    counted = refl;
    asked = refl;
    unseen = all-Unseen log;
    new_seq = IsLog-positive log ordered;
  }

module _ {W E : Type 0} (provider : W → Target → ℤ → ℤ → W × Result E (List HistoryMessage))
    (now : ℤ) (input : QqMessageGetterInput) (log recent old : List HistoryMessage)
    (ordered : IsLog log) (split : log ≡ recent ++ old)
    (expired : All (Before input.start_time) old) (few : length recent ≤ max_history_fetch)
    (pages : Pages provider (target_of input) log) (w : W) where
  fetched :
      fetch_in_time_range provider now (target_of input) input w
      ≡ some (
          ok (
            select_range input.start_time
              (if input.end_time ==ℤ pos 0 then now else input.end_time)
              log))
  unfolding fetch_in_time_range
  fetched =
      let (r, ends) =
        fetch_from_ends provider max_history_fetch (target_of input) input.start_time first_page w
          (omega arith) (omega arith) in
      let (all, got, covers) =
        fetch_from-Covers provider input.start_time log recent old ordered split expired few
          max_history_fetch (target_of input) first_page w [] log r pages
          (At-start provider input.start_time log recent old ordered split expired few) ends in
      let end_time : ℤ = if input.end_time ==ℤ pos 0 then now else input.end_time in
      let same : select_range input.start_time end_time log
          ≡ select_range input.start_time end_time all =
        ap (select_range input.start_time end_time) covers.whole
        ∙ select_range-covered input.start_time end_time all covers.missed covers.early in
      rw (ends, got, fetch_in_time_range) (ap (λ xs. some (ok xs)) (sym same))

  -- A valid query for a range of times misses nothing, if the provider pages through the chat's log and at
  -- most 500 of the log's messages, all the newest, are not from before the range: the answer is built of
  -- exactly the messages of the log that are in the range.
  pub get_message_history_complete :
      validate_getter_input {E = E} input ≡ none
      → (ltb_ℤ (pos 0) input.start_time || ltb_ℤ (pos 0) input.end_time) ≡ true
      → get_message_history provider now input w
        ≡ some (
            ok (
              build_history_output (
                select_range input.start_time
                  (if input.end_time ==ℤ pos 0 then now else input.end_time)
                  log)))
  unfolding get_message_history fetch_raw
  get_message_history_complete fine ranged = rw (fine, ranged, fetched, get_message_history) refl
