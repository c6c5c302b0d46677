-- ===== src/Qq/Getter/Fetching.antt =====
-- The loop of fetchInTimeRange: it ends, and what it collects.
use miss_raspberry_agent.Prelude.{
  if◌then◌else◌, Bool-cases, Option-cases, ℤ, pos, ltb_ℤ, ◌==ℤ◌, ℕ, zero, suc, ◌+◌, ◌≤◌, ◌<◌, ◌≡◌,
  refl, ◌⊎◌, inl, inr, ◌||◌, some, List, [], ◌∷◌, arith, Result-cases, Result, ok, err,
}
use miss_raspberry_agent.Messaging.{Target, HistoryMessage}
use miss_raspberry_agent.Qq.Getter.{
  GetterError, QqMessageGetterInput, QqHistoryMessage, sort_history_newest_first, Paging,
  first_page, Turn, stop, go, turn_page, select_range, fetch_from, fetch_in_time_range, fetch_raw,
  get_message_history, max_history_fetch, normalize_count, validate_getter_input,
  build_history_output, history_page_size, provider_failed, target_of,
}

pub Turn-cases :
    (t : Turn) → ((all : List HistoryMessage) × (t ≡ stop all)) ⊎ ((p : Paging) × (t ≡ go p))
Turn-cases (stop all) = inl (all, refl)
Turn-cases (go p) = inr (p, refl)

-- Whoever goes on has read at least one message more, and fewer than the bound.
turn_page-total :
    (start_time : ℤ) (p p' : Paging) (page : List HistoryMessage)
    → turn_page start_time p page ≡ go p'
    → (p.total < p'.total) × (p'.total < max_history_fetch)
unfolding turn_page
turn_page-total start_time p p' [] h = absurd (ground arith)
turn_page-total start_time p p' (m ∷ ms) h = ground arith

module _ {W E : Type 0} (provider : W → Target → ℤ → ℤ → W × Result E (List HistoryMessage)) where
  pub fetch_from_ends :
      (fuel : ℕ) (target : Target) (start_time : ℤ) (p : Paging) (w : W)
      → p.total < max_history_fetch
      → max_history_fetch ≤ p.total + fuel
      → (r : Result E (List HistoryMessage)) × (fetch_from provider fuel target start_time p w
          ≡ some r)
  unfolding fetch_from
  fetch_from_ends zero target start_time p w few enough = absurd (omega arith)
  fetch_from_ends (suc fuel) target start_time p w few enough =
      let answer = provider w target p.next_seq history_page_size in
      elim (Result-cases answer.1) [
        | inl (e, failed) ↦ (err e, rw (failed, fetch_from) refl)
        | inr (page, got) ↦
            elim (Turn-cases (turn_page start_time p (sort_history_newest_first page))) [
              | inl (all, stops) ↦ (ok all, rw (got, stops, fetch_from) refl)
              | inr (p', goes) ↦
                  let (more, below) = turn_page-total start_time p p' _ goes in
                  let (r, ends) =
                    fetch_from_ends fuel target start_time p' answer.0 below (omega arith) in
                  (r, rw (got, goes, fetch_from) ends)
            ]
      ]

  fetch_in_time_range_ends :
      (now : ℤ) (target : Target) (input : QqMessageGetterInput) (w : W)
      → (r : Result E (List HistoryMessage)) × (fetch_in_time_range provider now target input w
          ≡ some r)
  unfolding fetch_in_time_range
  fetch_in_time_range_ends now target input w =
      let (r, ends) =
        fetch_from_ends max_history_fetch target input.start_time first_page w (omega arith)
          (omega arith) in
      elim (Result-cases r) [
        | inl (e, failed) ↦ (err e, rw (ends, failed, fetch_in_time_range) refl)
        | inr (all, got) ↦ (
          ok (
              select_range input.start_time
                (if input.end_time ==ℤ pos 0 then now else input.end_time) all),
          rw (ends, got, fetch_in_time_range) refl,
        )
      ]

  fetch_raw_ends :
      (now : ℤ) (input : QqMessageGetterInput) (w : W)
      → (r : Result E (List HistoryMessage)) × (fetch_raw provider now input w ≡ some r)
  unfolding fetch_raw
  fetch_raw_ends now input w =
      elim (Bool-cases (ltb_ℤ (pos 0) input.start_time || ltb_ℤ (pos 0) input.end_time)) [
        | inl range ↦
            let (r, ends) = fetch_in_time_range_ends now (target_of input) input w in
            (r, rw (range, fetch_raw) ends)
        | inr latest ↦ (
          (provider w (target_of input) (pos 0) (normalize_count input.count)).1,
          rw (latest, fetch_raw) refl,
        )
      ]

  -- Whatever the provider answers, GetMessageHistory ends: fetchInTimeRange asks for at most 500 pages.
  pub get_message_history_ends :
      (now : ℤ) (input : QqMessageGetterInput) (w : W)
      → (r : Result (GetterError E) (List QqHistoryMessage)) × (get_message_history provider now
            input w
          ≡ some r)
  unfolding get_message_history
  get_message_history_ends now input w = elim (Option-cases (validate_getter_input {E = E} input)) [
    | inr (e, bad) ↦ (err e, rw (bad, get_message_history) refl)
    | inl fine ↦
        let (r, ends) = fetch_raw_ends now input w in
        elim (Result-cases r) [
          | inl (e, failed) ↦
              (err (provider_failed e), rw (fine, ends, failed, get_message_history) refl)
          | inr (raw, got) ↦
              (ok (build_history_output raw), rw (fine, ends, got, get_message_history) refl)
        ]
  ]
