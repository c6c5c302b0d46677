-- ===== src/Prelude/Ids.antt =====
-- Ids that a counter gives out: a prefix and the counter's value.
use miss_raspberry_agent.Prelude.Lists.{All, drop, length}
use miss_raspberry_agent.Prelude.Int.{max_int64, inc64, signed64}
use miss_raspberry_agent.Prelude.Strings.{Text, text_eq_inst}
use miss_raspberry_agent.Prelude.Decimal.{format_int, format_nat_injective}
use miss_raspberry_agent.Prelude.Table.{Table, has_key, put}
use miss_raspberry_agent.Prelude.Table.Entries.{has_key_of_All, All-put}
use Prim.Native.Nat.{ℕ, ◌+◌, ◌≤◌, ◌<◌}
use mathlib.Core.Path.{◌≡◌, ap, refl}
use mathlib.Core.Bool.{false}
use mathlib.Core.List.{[], ◌∷◌, ◌++◌}
use native.Mathlib.Omega.{arith}

-- fmt.Sprintf(prefix + "%d", n), for an int64 counter
unfoldable pub numbered : Text → ℕ → Text
numbered prefix n = prefix ++ format_int (signed64 n)

drop-append : (prefix s : Text) → drop (length prefix) (prefix ++ s) ≡ s
drop-append [] s = refl
drop-append (c ∷ prefix) s = drop-append prefix s

numbered_injective :
    (prefix : Text) (m n : ℕ)
    → m ≤ max_int64
    → n ≤ max_int64
    → numbered prefix m ≡ numbered prefix n
    → m ≡ n
unfolding numbered format_int
numbered_injective prefix m n hm hn h = format_nat_injective m n (
    ground (
      arith,
      ap (drop (length prefix)) h,
      drop-append prefix (format_int (signed64 m)),
      drop-append prefix (format_int (signed64 n)),
    ))

-- The id was given out by one of the first `n` increments of the counter.
pub record IsIssued (prefix : Text) (n : ℕ) (id : Text) : Type 0 where
  pub call : ℕ
  pub named : id ≡ numbered prefix call
  pub in_range : call ≤ n

pub inc64-suc : (n : ℕ) → n < max_int64 → inc64 n ≡ n + 1
inc64-suc n h = omega arith

pub not-IsIssued :
    (prefix : Text) (n : ℕ) → n < max_int64 → ¬ IsIssued prefix n (numbered prefix (n + 1))
not-IsIssued prefix n h i =
    let same =
      numbered_injective prefix (n + 1) i.call (omega arith) (omega (arith, i.in_range)) i.named in
    omega (arith, i.in_range)

module _ {ℓ} {V : Type ℓ} (prefix : Text) where
  -- All keys were given out.
  abbrev pub AllIssued : ℕ → Table Text V → Type 0
  AllIssued n = All (λ entry. IsIssued prefix n entry.0)

  Issued-suc : (n : ℕ) (m : Table Text V) → AllIssued n m → AllIssued (n + 1) m
  Issued-suc n [] h = tt
  Issued-suc n (entry ∷ m) h = (
    record { call = h.0.call; named = h.0.named; in_range = omega (arith, h.0.in_range) },
    Issued-suc n m h.1,
  )

  -- The next id is new.
  pub fresh_id :
      (n : ℕ) (m : Table Text V)
      → n < max_int64
      → AllIssued n m
      → has_key (numbered prefix (inc64 n)) m ≡ false
  fresh_id n m room h =
      rw (inc64-suc n room) (
        has_key_of_All (λ entry. IsIssued prefix n entry.0) _ m (λ _. not-IsIssued prefix n room) h)

  pub AllIssued-put :
      (n : ℕ) (v : V) (m : Table Text V)
      → n < max_int64
      → AllIssued n m
      → AllIssued (inc64 n) (put (numbered prefix (inc64 n)) v m)
  AllIssued-put n v m room h = rw (inc64-suc n room) (
      All-put (λ entry. IsIssued prefix (n + 1) entry.0) _ v m
        (record { call = n + 1; named = refl; in_range = omega arith }) (Issued-suc n m h))
