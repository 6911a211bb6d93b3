-- ===== src/Money.antt =====
-- backend/src/wallets/format-money.ts: minor units as text.
use max_one.Prelude.{
  ◌≡◌, ap, ◌∙◌, ◌≤◌, arith, inl, inr, Bool-cases, ℕ, zero, suc, ◌+◌, ◌/◌, ◌%◌, ◌<>◌, String, Option,
  none, some, ltb, if◌then◌else◌, str_eq,
}
use max_one.Prelude.Int.{ℤ, pos, negsuc}

digit : ℕ → String
digit n =
    if ltb n 1
    then "0"
    else if ltb n 2
    then "1"
    else if ltb n 3
    then "2"
    else if ltb n 4
    then "3"
    else if ltb n 5
    then "4"
    else if ltb n 6
    then "5"
    else if ltb n 7
    then "6"
    else if ltb n 8
    then "7"
    else if ltb n 9
    then "8"
    else "9"

-- The decimal digits; the fuel bounds their count.
unfoldable pub decimal : ℕ → ℕ → String
unfolding digit
decimal zero n = digit n
decimal (suc fuel) n =
    let rest = decimal fuel (n / 10) in if ltb n 10 then digit n else rest <> digit (n % 10)

-- `(amount / 100).toFixed(2)`
to_fixed : ℤ → String
to_fixed (pos n) = decimal n (n / 100) <> "." <> digit (n / 10 % 10) <> digit (n % 10)
to_fixed (negsuc m) =
    let n = m + 1 in "-" <> decimal n (n / 100) <> "." <> digit (n / 10 % 10) <> digit (n % 10)

-- `SYMBOLS[currency]`
symbol : String → Option String
symbol currency =
    if str_eq currency "USD"
    then some "$"
    else if str_eq currency "EUR"
    then some "€"
    else if str_eq currency "GBP"
    then some "£"
    else none

unfoldable pub format_minor : ℤ → String → String
unfolding digit decimal to_fixed symbol
format_minor amount currency = elim (symbol currency) [
  | some sym ↦ sym <> to_fixed amount
  | none ↦ to_fixed amount <> " " <> currency
]

one_more : (fuel n : ℕ) → n ≤ fuel → decimal (suc fuel) n ≡ decimal fuel n
unfolding decimal digit
one_more zero n h = ground arith
one_more (suc fuel) n h = elim (Bool-cases (ltb n 10)) [
  | inl small ↦ ground arith
  | inr large ↦ let rest = one_more fuel (n / 10) (omega arith) in ground (arith, large, rest)
]

-- With the number itself as fuel the digits of an amount are all there: more fuel changes nothing.
pub decimal_fuel : (more n : ℕ) → decimal (more + n) n ≡ decimal n n
decimal_fuel zero n = let same : 0 + n ≡ n = omega arith in ap (λ m. decimal m n) same
decimal_fuel (suc more) n =
    let same : suc more + n ≡ suc (more + n) = omega arith in
    ap (λ m. decimal m n) same ∙ one_more (more + n) n (omega arith) ∙ decimal_fuel more n
