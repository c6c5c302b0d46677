-- ===== src/Qq/Getter/Log.antt =====
-- A chat's messages as a log, the newest first, and the pages that a provider makes of it.
use miss_raspberry_agent.Prelude.{
  if◌then◌else◌, drop, All, ℤ, pos, ltb_ℤ, leb_ℤ, ◌==ℤ◌, ℕ, zero, suc, ◌≡◌, refl, ap, true, false,
  List, [], ◌∷◌, ◌++◌, arith,
}
use miss_raspberry_agent.Messaging.{HistoryMessage}
use miss_raspberry_agent.Qq.Getter.{oldest_of, has_seen, add_page}

-- The later message of the log's end: `x` stands after `m`, so it was sent before it.
pub record Precedes (m x : HistoryMessage) : Type 0 where
  pub seq : ltb_ℤ x.message_seq m.message_seq ≡ true
  pub time : ltb_ℤ m.time x.time ≡ false
  pub id : (m.message_id ==ℤ x.message_id) ≡ false

-- A log: sequence numbers are positive and fall, times do not rise, and no two messages have one id.
abbrev pub IsLog : List HistoryMessage → Type 0
IsLog [] = Unit
IsLog (m ∷ ms) =
    (leb_ℤ m.message_seq (pos 0) ≡ false)
    × ((m.message_id ==ℤ pos 0) ≡ false)
    × All (Precedes m) ms
    × IsLog ms

-- The messages before a sequence number
abbrev pub older : ℤ → List HistoryMessage → List HistoryMessage
older seq [] = []
older seq (m ∷ ms) = if ltb_ℤ m.message_seq seq then m ∷ older seq ms else older seq ms

-- What a provider has before a sequence number, or in all
abbrev pub from_seq : ℤ → List HistoryMessage → List HistoryMessage
from_seq seq log = if leb_ℤ seq (pos 0) then log else older seq log

abbrev pub first_n : ℕ → List HistoryMessage → List HistoryMessage
first_n zero ms = []
first_n (suc n) [] = []
first_n (suc n) (m ∷ ms) = m ∷ first_n n ms

pub first_n-drop : (n : ℕ) (ms : List HistoryMessage) → first_n n ms ++ drop n ms ≡ ms
first_n-drop zero ms = refl
first_n-drop (suc n) [] = refl
first_n-drop (suc n) (m ∷ ms) = ap (λ xs. m ∷ xs) (first_n-drop n ms)

pub IsLog-append : (xs ys : List HistoryMessage) → IsLog (xs ++ ys) → IsLog ys
IsLog-append [] ys h = h
IsLog-append (x ∷ xs) ys h = IsLog-append xs ys h.3

All-right :
    (P : HistoryMessage → Type 0) (xs ys : List HistoryMessage) → All P (xs ++ ys) → All P ys
All-right P [] ys h = h
All-right P (x ∷ xs) ys h = All-right P xs ys h.1

pub All-oldest :
    (P : HistoryMessage → Type 0) (m : HistoryMessage) (l tail : List HistoryMessage)
    → All P (m ∷ (l ++ tail))
    → P (oldest_of m l)
unfolding oldest_of
All-oldest P m [] tail h = h.0
All-oldest P m (x ∷ l) tail h = All-oldest P x l tail h.1

-- What follows a page precedes all of it, and so its oldest message.
pub oldest-Precedes :
    (m : HistoryMessage) (l tail : List HistoryMessage)
    → IsLog (m ∷ (l ++ tail))
    → All (Precedes (oldest_of m l)) tail × (leb_ℤ (oldest_of m l).message_seq (pos 0) ≡ false)
unfolding oldest_of
oldest-Precedes m [] tail h = (h.2, h.0)
oldest-Precedes m (x ∷ l) tail h = oldest-Precedes x l tail h.3

older-all :
    (o : HistoryMessage) (tail : List HistoryMessage)
    → All (Precedes o) tail
    → older o.message_seq tail ≡ tail
older-all o [] h = refl
older-all o (x ∷ tail) h = rw h.0.seq (ap (λ xs. x ∷ xs) (older-all o tail h.1))

not-before : (m o : HistoryMessage) → Precedes m o → ltb_ℤ m.message_seq o.message_seq ≡ false
not-before m o p = ground (arith, p.seq)

older-page :
    (m : HistoryMessage) (l tail : List HistoryMessage)
    → IsLog (m ∷ (l ++ tail))
    → older (oldest_of m l).message_seq (m ∷ (l ++ tail)) ≡ tail
unfolding oldest_of
older-page m [] tail h =
    let self : ltb_ℤ m.message_seq m.message_seq ≡ false = ground arith in
    rw self (older-all m tail h.2)
older-page m (x ∷ l) tail h =
    let later = not-before m (oldest_of x l) (All-oldest (Precedes m) x l tail h.2) in
    rw later (older-page x l tail h.3)

-- Before the oldest message of a page stands what follows the page.
pub older_split :
    (taken : List HistoryMessage) (m : HistoryMessage) (l tail : List HistoryMessage)
    → IsLog (taken ++ (m ∷ (l ++ tail)))
    → older (oldest_of m l).message_seq (taken ++ (m ∷ (l ++ tail))) ≡ tail
older_split [] m l tail h = older-page m l tail h
older_split (x ∷ taken) m l tail h =
    let later =
      not-before x (oldest_of m l)
        (All-oldest (Precedes x) m l tail (All-right (Precedes x) taken (m ∷ (l ++ tail)) h.2)) in
    rw later (older_split taken m l tail h.3)

-- The message's id has not been seen.
abbrev pub Unseen : List ℤ → HistoryMessage → Type 0
Unseen seen x = has_seen x.message_id seen ≡ false

Unseen-cons :
    (m : HistoryMessage) (seen : List ℤ) (ms : List HistoryMessage)
    → All (Precedes m) ms
    → All (Unseen seen) ms
    → All (Unseen (m.message_id ∷ seen)) ms
unfolding has_seen
Unseen-cons m seen [] p h = tt
Unseen-cons m seen (x ∷ ms) p h = (ground (arith, p.0.id, h.0), Unseen-cons m seen ms p.1 h.1)

-- A page of messages that have not been seen is added whole, and what follows it stays unseen.
pub add_page-whole :
    (seen : List ℤ) (page tail : List HistoryMessage)
    → IsLog (page ++ tail)
    → All (Unseen seen) (page ++ tail)
    → ((add_page seen page).1 ≡ page) × All (Unseen (add_page seen page).0) tail
unfolding add_page
add_page-whole seen [] tail log h = (refl, h)
add_page-whole seen (m ∷ page) tail log h =
    let (whole, rest) =
      add_page-whole (m.message_id ∷ seen) page tail log.3
        (Unseen-cons m seen (page ++ tail) log.2 h.1) in
    rw (log.1, h.0, add_page) (ap (λ xs. m ∷ xs) whole, rest)
