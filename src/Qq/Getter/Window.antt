-- ===== src/Qq/Getter/Window.antt =====
-- What GetMessageHistory answers for a time range.
use miss_raspberry_agent.Prelude.{
  if◌then◌else◌, Bool-cases, Option-cases, All, ℤ, pos, ltb_ℤ, leb_ℤ, ◌==ℤ◌, ℕ, ◌+◌, ◌≤◌, ◌≡◌, refl,
  ap, ◌∙◌, subst, inl, inr, true, false, ◌||◌, some, List, [], ◌∷◌, arith, is_empty, Result-cases,
  Result, ok,
}
use mathlib.Core.List.{Mem, Pairwise, mem-cons_self, mem-cons_of_mem}
use miss_raspberry_agent.Messaging.{Target, HistoryMessage}
use miss_raspberry_agent.Prelude.Sorting.{
  sort_by, insert_by, IsSorted, IsWeakOrder, sort_by-IsSorted,
}
use miss_raspberry_agent.Qq.Getter.Answer.{count_id, fetch_from-Distinct}
use miss_raspberry_agent.Qq.Getter.{
  QqMessageGetterInput, QqHistoryMessage, sort_history_newest_first, first_page, select_range,
  in_range, fetch_from, fetch_in_time_range, fetch_raw, get_message_history, max_history_fetch,
  validate_getter_input, build_history_output, output_messages, newer, target_of,
}

newer-IsWeakOrder : IsWeakOrder newer
newer-IsWeakOrder = record { asym = λ a b h. ground arith; trans = λ a b c h k. ground arith }

-- The times do not increase.
pub NewestFirst : List QqHistoryMessage → Type 0
NewestFirst [] = Unit
NewestFirst (m ∷ ms) = All (λ n. ltb_ℤ m.time n.time ≡ false) ms × NewestFirst ms

abbrev pub count_output : ℤ → List QqHistoryMessage → ℕ
count_output id [] = 0
count_output id (m ∷ ms) = (if m.message_id ==ℤ id then 1 else 0) + count_output id ms

-- A message of the answer to a query for a range of times
pub record Fits (start_time end_time : ℤ) (m : QqHistoryMessage) : Type 0 where
  pub text : is_empty m.content ≡ false
  pub after : leb_ℤ start_time m.time ≡ true
  pub before : leb_ℤ m.time end_time ≡ true

output_later :
    (t : ℤ) (ms : List HistoryMessage)
    → ((z : HistoryMessage) → Mem z ms → ltb_ℤ t z.time ≡ false)
    → All (λ n. ltb_ℤ t n.time ≡ false) (output_messages ms)
unfolding output_messages
output_later t [] below = tt
output_later t (m ∷ ms) below =
    let rest = output_later t ms (λ z k. below z (mem-cons_of_mem m k)) in
    elim (Bool-cases (is_empty m.content)) [
      | inl empty ↦ rw empty rest
      | inr full ↦ rw full (below m mem-cons_self, rest)
    ]

output_messages-NewestFirst :
    {ms : List HistoryMessage} → IsSorted newer ms → NewestFirst (output_messages ms)
unfolding output_messages NewestFirst
output_messages-NewestFirst Pairwise.nil = tt
output_messages-NewestFirst (Pairwise.cons {a = m} {l = ms} below s) =
    elim (Bool-cases (is_empty m.content)) [
      | inl empty ↦ rw empty (output_messages-NewestFirst s)
      | inr full ↦ rw full (output_later m.time ms below, output_messages-NewestFirst s)
    ]

count_output-output_messages :
    (id : ℤ) (ms : List HistoryMessage) → count_output id (output_messages ms) ≤ count_id id ms
unfolding output_messages
count_output-output_messages id [] = omega arith
count_output-output_messages id (m ∷ ms) = ground (arith, count_output-output_messages id ms)

count_id-insert_by :
    (id : ℤ) (m : HistoryMessage) (ms : List HistoryMessage)
    → count_id id (insert_by newer m ms) ≡ count_id id (m ∷ ms)
unfolding insert_by
count_id-insert_by id m [] = refl
count_id-insert_by id m (n ∷ ms) = elim (Bool-cases (newer n m)) [
  | inl p ↦ rw p (omega (arith, count_id-insert_by id m ms))
  | inr p ↦ rw p refl
]

count_id-sort_by :
    (id : ℤ) (ms : List HistoryMessage) → count_id id (sort_by newer ms) ≡ count_id id ms
unfolding sort_by
count_id-sort_by id [] = refl
count_id-sort_by id (m ∷ ms) =
    omega (arith, count_id-insert_by id m (sort_by newer ms), count_id-sort_by id ms)

count_id-select_range :
    (id start_time end_time : ℤ) (ms : List HistoryMessage)
    → count_id id (select_range start_time end_time ms) ≤ count_id id ms
unfolding select_range
count_id-select_range id start_time end_time [] = omega arith
count_id-select_range id start_time end_time (m ∷ ms) =
    ground (arith, count_id-select_range id start_time end_time ms)

InRange : ℤ → ℤ → HistoryMessage → Type 0
InRange start_time end_time m = in_range start_time end_time m ≡ true

select_range-InRange :
    (start_time end_time : ℤ) (ms : List HistoryMessage)
    → All (InRange start_time end_time) (select_range start_time end_time ms)
unfolding select_range InRange
select_range-InRange start_time end_time [] = tt
select_range-InRange start_time end_time (m ∷ ms) =
    let rest = select_range-InRange start_time end_time ms in
    elim (Bool-cases (in_range start_time end_time m)) [
      | inl inside ↦ rw inside (inside, rest)
      | inr outside ↦ rw outside rest
    ]

All-insert_by :
    (P : HistoryMessage → Type 0) (m : HistoryMessage) (ms : List HistoryMessage)
    → P m
    → All P ms
    → All P (insert_by newer m ms)
unfolding insert_by
All-insert_by P m [] pm h = (pm, tt)
All-insert_by P m (n ∷ ms) pm h = elim (Bool-cases (newer n m)) [
  | inl p ↦ rw p (h.0, All-insert_by P m ms pm h.1)
  | inr p ↦ rw p (pm, h)
]

All-sort_by :
    (P : HistoryMessage → Type 0) (ms : List HistoryMessage) → All P ms → All P (sort_by newer ms)
unfolding sort_by
All-sort_by P [] h = tt
All-sort_by P (m ∷ ms) h = All-insert_by P m (sort_by newer ms) h.0 (All-sort_by P ms h.1)

output_messages-Fits :
    (start_time end_time : ℤ) (ms : List HistoryMessage)
    → All (InRange start_time end_time) ms
    → All (Fits start_time end_time) (output_messages ms)
unfolding output_messages InRange in_range
output_messages-Fits start_time end_time [] h = tt
output_messages-Fits start_time end_time (m ∷ ms) h =
    let rest = output_messages-Fits start_time end_time ms h.1 in
    let inside = h.0 in
    elim (Bool-cases (is_empty m.content)) [
      | inl empty ↦ rw empty rest
      | inr full ↦ rw full (
        record { text = full; after = ground (arith, inside); before = ground (arith, inside) },
        rest,
      )
    ]

abbrev pub end_of : ℤ → QqMessageGetterInput → ℤ
end_of now input = if input.end_time ==ℤ pos 0 then now else input.end_time

module _ {W E : Type 0} (provider : W → Target → ℤ → ℤ → W × Result E (List HistoryMessage)) where
  -- An answer in a time range is selected from what the loop has collected.
  fetch_in_time_range_inv :
      (now : ℤ) (target : Target) (input : QqMessageGetterInput) (w : W) {raw : List HistoryMessage}
      → fetch_in_time_range provider now target input w ≡ some (ok raw)
      → (all : List HistoryMessage) × (fetch_from provider max_history_fetch target input.start_time
            first_page w
          ≡ some (ok all))
        × (select_range input.start_time (end_of now input) all ≡ raw)
  unfolding fetch_in_time_range
  fetch_in_time_range_inv now target input w h =
      let found = fetch_from provider max_history_fetch target input.start_time first_page w in
      elim (Option-cases found) [
        | inl out ↦ absurd (ground (arith, out))
        | inr (r, ends) ↦ elim (Result-cases r) [
          | inl (e, failed) ↦ absurd (ground (arith, ends, failed))
          | inr (all, got) ↦ (all, ends ∙ ap some got, ground (arith, ends, got))
        ]
      ]

  get_message_history_inv :
      (now : ℤ) (input : QqMessageGetterInput) (w : W) {out : List QqHistoryMessage}
      → get_message_history provider now input w ≡ some (ok out)
      → (raw : List HistoryMessage) × (fetch_raw provider now input w ≡ some (ok raw))
        × (build_history_output raw ≡ out)
  unfolding get_message_history
  get_message_history_inv now input w h =
      elim (Option-cases (validate_getter_input {E = E} input)) [
        | inr (e, bad) ↦ absurd (ground (arith, bad))
        | inl fine ↦ elim (Option-cases (fetch_raw provider now input w)) [
          | inl out ↦ absurd (ground (arith, fine, out))
          | inr (r, ends) ↦ elim (Result-cases r) [
            | inl (e, failed) ↦ absurd (ground (arith, fine, ends, failed))
            | inr (raw, got) ↦ (raw, ends ∙ ap some got, ground (arith, fine, ends, got))
          ]
        ]
      ]

  -- GetMessageHistory for a range of times, where it does not fail: the messages come newest first, each
  -- has text and lies in the range, whose end is now if none is given, and no message id but 0 comes
  -- twice, whatever pages the provider returns.
  pub get_message_history_in_range :
      (now : ℤ) (input : QqMessageGetterInput) (w : W) (out : List QqHistoryMessage)
      → (ltb_ℤ (pos 0) input.start_time || ltb_ℤ (pos 0) input.end_time) ≡ true
      → get_message_history provider now input w ≡ some (ok out)
      → NewestFirst out
        × All (Fits input.start_time (end_of now input)) out
        × ((id : ℤ) → (id ==ℤ pos 0) ≡ false → count_output id out ≤ 1)
  unfolding fetch_raw build_history_output sort_history_newest_first
  get_message_history_in_range now input w out range h =
      let start_time = input.start_time in
      let end_time = end_of now input in
      let (raw, fetched, built) = get_message_history_inv now input w h in
      let in_time : fetch_in_time_range provider now (target_of input) input w ≡ some (ok raw) =
        ground (arith, range, fetched) in
      let (all, found, selected) = fetch_in_time_range_inv now (target_of input) input w in_time in
      subst
        (λ o.
          NewestFirst o
          × All (Fits start_time end_time) o
          × ((id : ℤ) → (id ==ℤ pos 0) ≡ false → count_output id o ≤ 1))
        built
        (
          output_messages-NewestFirst (sort_by-IsSorted newer newer-IsWeakOrder raw),
          output_messages-Fits start_time end_time (sort_by newer raw) (
              All-sort_by (InRange start_time end_time) raw (
                subst (All (InRange start_time end_time)) selected
                  (select_range-InRange start_time end_time all))),
          λ id real. omega (
            arith,
            count_output-output_messages id (sort_by newer raw),
            count_id-sort_by id raw,
            ap (count_id id) selected,
            count_id-select_range id start_time end_time all,
            fetch_from-Distinct provider id max_history_fetch (target_of input) start_time
                first_page w real (omega arith) found,
          ),
        )
