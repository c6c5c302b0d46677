-- ===== src/Prelude/Decimal.antt =====
-- `%d`, strconv.FormatInt, strconv.Atoi and strconv.ParseInt with base 10.
use miss_raspberry_agent.Prelude.Tests.{leb, ◌==◌, if◌then◌else◌}
use miss_raspberry_agent.Prelude.Strings.{Text}
use miss_raspberry_agent.Prelude.Int.{ℤ, pos, negsuc, sub_ℕ, max_int64}
use Prim.Native.Nat.{ℕ, zero, suc, ◌+◌, ◌-◌, ◌*◌, ◌/◌, ◌%◌, ◌^◌, ◌≤◌}
use mathlib.Core.Path.{◌≡◌, refl, ap, sym, ◌∙◌}
use mathlib.Core.Bool.{Bool, true, false, ◌&&◌}
use mathlib.Core.Option.{Option, none, some}
use mathlib.Core.List.{[], ◌∷◌}
use native.Mathlib.Omega.{arith}

-- The loop that prints the digits of `n` from the last one on. A number has fewer digits than its
-- value, so `n` is fuel enough.
digits : ℕ → ℕ → Text → Text
digits zero n out = out
digits (suc fuel) n out =
    let rest = digits fuel (n / 10) ((48 + n % 10) ∷ out) in if n == 0 then out else rest

unfoldable pub format_nat : ℕ → Text
unfolding digits
format_nat n = if n == 0 then 48 ∷ [] else digits n n []

unfoldable pub format_int : ℤ → Text
unfolding format_nat
format_int (pos n) = format_nat n
format_int (negsuc n) = 45 ∷ format_nat (suc n)

-- The number that digits spell behind `acc`.
abbrev pub value : ℕ → Text → ℕ
value acc [] = acc
value acc (c ∷ s) = value (acc * 10 + (c - 48)) s

value-digits : (fuel n : ℕ) (out : Text) → n ≤ fuel → value 0 (digits fuel n out) ≡ value n out
unfolding digits
value-digits zero zero out h = refl
value-digits zero (suc n) out h = absurd (omega arith)
value-digits (suc fuel) n out h =
    let step : n / 10 * 10 + (48 + n % 10 - 48) ≡ n = omega arith in
    let back = ap (λ k. value k out) step in
    ground (arith, value-digits fuel (n / 10) ((48 + n % 10) ∷ out), back)

-- The printed digits spell the number.
pub value-format_nat : (n : ℕ) → value 0 (format_nat n) ≡ n
unfolding format_nat
value-format_nat n = ground (arith, value-digits n n [])

pub format_nat_injective : (m n : ℕ) → format_nat m ≡ format_nat n → m ≡ n
format_nat_injective m n h = sym (value-format_nat m) ∙ ap (value 0) h ∙ value-format_nat n

unfoldable pub is_digit : ℕ → Bool
is_digit c = leb 48 c && leb c 57

-- The digits behind an optional sign, or none at a character that is no digit.
unfoldable pub scan_digits : Text → ℕ → Option ℕ
unfolding is_digit
scan_digits [] n = some n
scan_digits (c ∷ s) n =
    let rest = scan_digits s (n * 10 + (c - 48)) in if is_digit c then rest else none

-- A number without its sign: at least one digit.
unfoldable pub parse_magnitude : Text → Option ℕ
unfolding scan_digits
parse_magnitude [] = none
parse_magnitude (c ∷ s) = scan_digits (c ∷ s) 0

in_int64 : Bool → Option ℕ → Option ℤ
in_int64 negative none = none
in_int64 true (some n) = if leb n (2 ^ 63) then some (sub_ℕ 0 n) else none
in_int64 false (some n) = if leb n max_int64 then some (pos n) else none

-- strconv.ParseInt(s, 10, 64) and strconv.Atoi: an optional sign, digits, and a value in range.
unfoldable pub parse_int : Text → Option ℤ
unfolding parse_magnitude in_int64
parse_int [] = none
parse_int (c ∷ s) =
    if c == 43
    then in_int64 false (parse_magnitude s)
    else if c == 45
    then in_int64 true (parse_magnitude s)
    else in_int64 false (parse_magnitude (c ∷ s))
