-- ===== src/Qq/Getter/Paged.antt =====
-- A round of fetchInTimeRange over a page of a log.
use miss_raspberry_agent.Prelude.{
  leb, Bool-cases, length, drop, length-append, All, ℤ, ltb_ℤ, ◌==ℤ◌, ◌+◌, ◌≤◌, ◌≡◌, refl, sym, ◌∙◌,
  subst, inl, inr, true, false, List, [], ◌∷◌, ◌++◌, arith,
}
use mathlib.Core.List.{append_assoc}
use miss_raspberry_agent.Messaging.{HistoryMessage}
use miss_raspberry_agent.Qq.Getter.{
  add_page, oldest_of, Paging, Turn, stop, go, turn_page, max_history_fetch,
}
use miss_raspberry_agent.Qq.Getter.Log.{
  Precedes, IsLog, older, from_seq, first_n, first_n-drop, IsLog-append, oldest-Precedes,
  All-oldest, older_split, Unseen, add_page-whole,
}

-- Sent before the time
abbrev pub Before : ℤ → HistoryMessage → Type 0
Before start x = ltb_ℤ x.time start ≡ true

All-map :
    {P Q : HistoryMessage → Type 0} (xs : List HistoryMessage)
    → ((x : HistoryMessage) → P x → Q x)
    → All P xs
    → All Q xs
All-map [] f h = tt
All-map (x ∷ xs) f h = (f x h.0, All-map xs f h.1)

-- What stands behind a prefix that is no shorter stands behind the shorter one.
All-suffix :
    (P : HistoryMessage → Type 0) (recent old taken tail : List HistoryMessage)
    → recent ++ old ≡ taken ++ tail
    → length recent ≤ length taken
    → All P old
    → All P tail
All-suffix P [] old [] tail same short h = subst (All P) same h
All-suffix P [] [] (x ∷ taken) tail same short h = absurd (ground (arith, same))
All-suffix P [] (y ∷ old) (x ∷ taken) tail same short h =
    let rest : old ≡ taken ++ tail = ground (arith, same) in
    All-suffix P [] old taken tail rest (omega arith) h.1
All-suffix P (r ∷ recent) old [] tail same short h = absurd (omega arith)
All-suffix P (r ∷ recent) old (x ∷ taken) tail same short h =
    let rest : recent ++ old ≡ taken ++ tail = ground (arith, same) in
    All-suffix P recent old taken tail rest (omega arith) h

module _ (start : ℤ) (log recent old : List HistoryMessage) (ordered : IsLog log)
    (split : log ≡ recent ++ old) (expired : All (Before start) old)
    (few : length recent ≤ max_history_fetch) where
  -- What is collected is the log but for messages from before the range.
  pub record Covers (all : List HistoryMessage) : Type 0 where
    pub missed : List HistoryMessage
    pub whole : log ≡ all ++ missed
    pub early : All (Before start) missed

  -- The loop has taken the front of the log and will ask for the rest.
  pub record At (p : Paging) (taken rest : List HistoryMessage) : Type 0 where
    pub whole : log ≡ taken ++ rest
    pub collected : p.all ≡ taken
    pub counted : p.total ≡ length taken
    pub asked : from_seq p.next_seq log ≡ rest
    pub unseen : All (Unseen p.seen) rest
    pub new_seq : All (λ x. (x.message_seq ==ℤ p.prev_seq) ≡ false) rest

  abbrev pub Turned : Turn → Type 0
  Turned (stop all) = Covers all
  Turned (go p) = (taken : List HistoryMessage) × (rest : List HistoryMessage) × At p taken rest

  module _ (p : Paging) (taken : List HistoryMessage) (m : HistoryMessage)
      (l tail : List HistoryMessage) (at : At p taken (m ∷ (l ++ tail))) where
    rest-IsLog : IsLog (m ∷ (l ++ tail))
    rest-IsLog = IsLog-append taken (m ∷ (l ++ tail)) (subst IsLog at.whole ordered)

    after : All (Precedes (oldest_of m l)) tail
    after = (oldest-Precedes m l tail rest-IsLog).0

    added : (add_page p.seen (m ∷ l)).1 ≡ m ∷ l
    added = (add_page-whole p.seen (m ∷ l) tail rest-IsLog at.unseen).0

    regrouped : log ≡ (taken ++ (m ∷ l)) ++ tail
    regrouped = at.whole ∙ sym (append_assoc taken (m ∷ l) tail)

    gathered : p.all ++ (add_page p.seen (m ∷ l)).1 ≡ taken ++ (m ∷ l)
    gathered = rw (added, at.collected) refl

    reached_start :
        ltb_ℤ (oldest_of m l).time start ≡ true → Covers (p.all ++ (add_page p.seen (m ∷ l)).1)
    reached_start below = record {
      missed = tail;
      whole = rw gathered regrouped;
      early = All-map tail (λ x b. ground (arith, b.time, below)) after;
    }

    reached_limit :
        max_history_fetch ≤ p.total + length (m ∷ l) → Covers (p.all ++ (add_page p.seen (m ∷ l)).1)
    reached_limit limit = record {
      missed = tail;
      whole = rw gathered regrouped;
      early =
          All-suffix (Before start) recent old (taken ++ (m ∷ l)) tail (sym split ∙ regrouped)
            (omega (arith, length-append taken (m ∷ l), at.counted)) expired;
    }

    abbrev paged : Paging
    paged = record {
      all = p.all ++ (add_page p.seen (m ∷ l)).1;
      seen = (add_page p.seen (m ∷ l)).0;
      next_seq = (oldest_of m l).message_seq;
      prev_seq = (oldest_of m l).message_seq;
      total = p.total + length (m ∷ l);
    }

    paged-At : At paged (taken ++ (m ∷ l)) tail
    paged-At = record {
      whole = regrouped;
      collected = gathered;
      counted = omega (arith, length-append taken (m ∷ l), at.counted);
      asked = rw (oldest-Precedes m l tail rest-IsLog).1 (
          subst (λ xs. older (oldest_of m l).message_seq xs ≡ tail) (sym at.whole)
            (older_split taken m l tail (subst IsLog at.whole ordered)));
      unseen = (add_page-whole p.seen (m ∷ l) tail rest-IsLog at.unseen).1;
      new_seq = All-map tail (λ x b. ground (arith, b.seq)) after;
    }

    turn_page-Turned : Turned (turn_page start p (m ∷ l))
    unfolding turn_page
    turn_page-Turned = elim (Bool-cases (ltb_ℤ (oldest_of m l).time start)) [
      | inl below ↦ rw below (reached_start below)
      | inr inside ↦ elim (Bool-cases (leb max_history_fetch (p.total + length (m ∷ l)))) [
        | inl limit ↦ rw (inside, limit) (reached_limit (ground (arith, limit)))
        | inr free ↦
            let positive = (oldest-Precedes m l tail rest-IsLog).1 in
            let fresh =
              All-oldest (λ x. (x.message_seq ==ℤ p.prev_seq) ≡ false) m l tail at.new_seq in
            rw (inside, free, positive, fresh) (taken ++ (m ∷ l), tail, paged-At)
      ]
    ]

  pub page-Turned :
      (p : Paging) (taken rest : List HistoryMessage)
      → At p taken rest
      → Turned (turn_page start p (first_n 50 rest))
  unfolding turn_page
  page-Turned p taken [] at = record { missed = []; whole = rw at.collected at.whole; early = tt }
  page-Turned p taken (m ∷ ms) at =
      turn_page-Turned p taken m (first_n 49 ms) (drop 49 ms)
        (subst (λ xs. At p taken (m ∷ xs)) (sym (first_n-drop 49 ms)) at)
