-- ===== src/Agent/History/Bound.antt =====
-- How long the history grows.
use miss_raspberry_agent.Prelude.{
  leb, if◌then◌else◌, Bool-cases, length, drop, length-drop, ℕ, zero, suc, ◌-◌, ◌<◌, ◌≡◌, refl, ap,
  inl, inr, List, [], ◌∷◌, ◌++◌, arith,
}
use miss_raspberry_agent.Agent.History.{Message, trim_history}

take_drop {ℓ} : {A : Type ℓ} (n : ℕ) (xs : List A) → (front : List A) × (xs ≡ front ++ drop n xs)
take_drop zero xs = ([], refl)
take_drop (suc n) [] = ([], refl)
take_drop (suc n) (x ∷ xs) = let (front, e) = take_drop n xs in (x ∷ front, ap (◌∷◌ x) e)

-- Trimming to a positive bound keeps the newest messages: at most that many of them, all of them if
-- they are no more, and the list is what was dropped followed by what is kept.
pub trim_history_lem :
    (messages : List Message) (max : ℕ)
    → 0 < max
    → (dropped : List Message) × (messages ≡ dropped ++ trim_history messages max)
      × (length (trim_history messages max)
          ≡ (if leb (length messages) max then length messages else max))
unfolding trim_history
trim_history_lem messages max h = elim (Bool-cases (leb (length messages) max)) [
  | inl p ↦ ([], ground arith, ground arith)
  | inr p ↦
      let (front, e) = take_drop (length messages - max) messages in
      (
        front,
        rw p (ground arith),
        rw p (ground (arith, length-drop (length messages - max) messages)),
      )
]
