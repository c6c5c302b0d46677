-- ===== src/Qq/Getter/Answer.antt =====
-- What the loop of fetchInTimeRange has seen: no message id twice.
use miss_raspberry_agent.Prelude.{
  if◌then◌else◌, ℤ, pos, ◌==ℤ◌, ==ℤ_iff, ℕ, zero, suc, ◌+◌, ◌≤◌, ◌≡◌, inl, inr, false, some, List,
  [], ◌∷◌, ◌++◌, arith, Result-cases, Result, ok,
}
use miss_raspberry_agent.Messaging.{Target, HistoryMessage}
use miss_raspberry_agent.Qq.Getter.Fetching.{Turn-cases}
use miss_raspberry_agent.Qq.Getter.{
  sort_history_newest_first, has_seen, add_page, Paging, stop, go, turn_page, fetch_from,
  history_page_size,
}

-- How often an id stands in a list.
abbrev pub count_id : ℤ → List HistoryMessage → ℕ
count_id id [] = 0
count_id id (m ∷ ms) = (if m.message_id ==ℤ id then 1 else 0) + count_id id ms

abbrev once : ℤ → List ℤ → ℕ
once id seen = if has_seen id seen then 1 else 0

count_id-append :
    (id : ℤ) (xs ys : List HistoryMessage)
    → count_id id (xs ++ ys) ≡ count_id id xs + count_id id ys
count_id-append id [] ys = omega arith
count_id-append id (m ∷ xs) ys = omega (arith, count_id-append id xs ys)

count_id-add_page :
    (id : ℤ) (seen : List ℤ) (page : List HistoryMessage)
    → (id ==ℤ pos 0) ≡ false
    → count_id id (add_page seen page).1 + once id seen ≤ once id (add_page seen page).0
unfolding add_page has_seen
count_id-add_page id seen [] real = omega arith
count_id-add_page id seen (m ∷ page) real = ground (
  arith,
  count_id-add_page id seen page,
  count_id-add_page id (m.message_id ∷ seen) page,
  ==ℤ_iff m.message_id id,
  ==ℤ_iff m.message_id (pos 0),
)

pub once-le : (id : ℤ) (seen : List ℤ) → once id seen ≤ 1
once-le id seen = ground arith

-- What the loop has collected holds each id that is not 0 at most once.
abbrev pub Distinct : ℤ → Paging → Type 0
Distinct id p = count_id id p.all ≤ once id p.seen

turn_page-Distinct :
    (id start_time : ℤ) (p : Paging) (page : List HistoryMessage)
    → (id ==ℤ pos 0) ≡ false
    → Distinct id p
    → ((all : List HistoryMessage) → turn_page start_time p page ≡ stop all → count_id id all ≤ 1)
      × ((p' : Paging) → turn_page start_time p page ≡ go p' → Distinct id p')
unfolding turn_page Distinct
turn_page-Distinct id start_time p [] real d =
    (λ all h. ground (arith, once-le id p.seen), λ p' h. absurd (ground arith))
turn_page-Distinct id start_time p (m ∷ ms) real d =
    let added = add_page p.seen (m ∷ ms) in
    let both = count_id-append id p.all added.1 in
    let fresh = count_id-add_page id p.seen (m ∷ ms) real in
    (λ all h. ground (arith, both, fresh, once-le id added.0), λ p' h. ground (arith, both, fresh))

module _ {W E : Type 0} (provider : W → Target → ℤ → ℤ → W × Result E (List HistoryMessage)) where
  pub fetch_from-Distinct :
      (id : ℤ) (fuel : ℕ) (target : Target) (start_time : ℤ) (p : Paging) (w : W)
      {all : List HistoryMessage}
      → (id ==ℤ pos 0) ≡ false
      → Distinct id p
      → fetch_from provider fuel target start_time p w ≡ some (ok all)
      → count_id id all ≤ 1
  unfolding fetch_from
  fetch_from-Distinct id zero target start_time p w real d h = absurd (ground arith)
  fetch_from-Distinct id (suc fuel) target start_time p w {all} real d h =
      let answer = provider w target p.next_seq history_page_size in
      elim (Result-cases answer.1) [
        | inl (e, failed) ↦ absurd (ground (arith, failed))
        | inr (page, got) ↦
            let sorted = sort_history_newest_first page in
            let kept = turn_page-Distinct id start_time p sorted real d in
            elim (Turn-cases (turn_page start_time p sorted)) [
              | inl (all', stops) ↦ ground (arith, got, stops, kept.0 all' stops)
              | inr (p', goes) ↦
                  fetch_from-Distinct id fuel target start_time p' answer.0 real (kept.1 p' goes)
                    (ground (arith, got, goes))
            ]
      ]
