-- ===== src/Amounts/RoundTrip.antt =====
-- Every amount can be typed, and reads as itself (customer/lib/format/parse-amount.ts).
use max_one.Prelude.{
  ℕ, zero, suc, ◌+◌, ◌-◌, ◌*◌, ◌/◌, ◌%◌, ◌≤◌, ◌<◌, ◌≡◌, refl, ap, ◌∙◌, true, false, some, List, [],
  ◌∷◌, ◌++◌, ltb, if◌then◌else◌, length, arith, inl, inr, Bool-cases,
}
use max_one.Amounts.{
  is_digit, before_point, after_point, is_zero, is_amount, pad_end, number_from, amount_limits,
  sanitize_amount, trim_start, trim_end, parse_amount,
}
use max_one.Amounts.Entry.{
  IsDigits, IsPlain, IsEntry, pointed, pointed-before_point, pointed-after_point, IsDigits-snoc,
  IsPlain-snoc, length-snoc,
}
use max_one.Amounts.Kept.{sanitize_decimal_kept}
use max_one.Amounts.Reading.{ten, trim_start_same, trim_end_same, entry-IsText}

-- The decimal digits of a number below 10 ^ (fuel + 1)
abbrev pub digits : ℕ → ℕ → List ℕ
digits zero n = (b'0' + n % 10) ∷ []
digits (suc fuel) n =
    let rest = digits fuel (n / 10) in
    if ltb n 10 then (b'0' + n) ∷ [] else rest ++ (b'0' + n % 10) ∷ []

-- An amount in minor units as it is written: "12.05"
abbrev pub amount_text : ℕ → List ℕ
amount_text n = digits 8 (n / 100) ++ b'.' ∷ (b'0' + n / 10 % 10) ∷ (b'0' + n % 10) ∷ []

number_from-snoc :
    (s : List ℕ) (n c : ℕ) → number_from n (s ++ c ∷ []) ≡ number_from n s * 10 + (c - b'0')
number_from-snoc [] n c = refl
number_from-snoc (x ∷ s) n c = number_from-snoc s (n * 10 + (x - b'0')) c

is_zero-number_from : (s : List ℕ) → 1 ≤ number_from 0 s → is_zero s ≡ false
is_zero-number_from [] h = refl
is_zero-number_from (c ∷ []) h = ground arith
is_zero-number_from (c ∷ d ∷ s) h = ground arith

record IsNumeral (fuel n : ℕ) (s : List ℕ) : Type 0 where
  digits : IsDigits s
  plain : IsPlain s
  short : length s ≤ fuel + 1
  full : 1 ≤ length s
  reads : number_from 0 s ≡ n

digits-IsNumeral : (fuel n : ℕ) → n < ten (suc fuel) → IsNumeral fuel n (digits fuel n)
digits-IsNumeral zero n h = record {
  digits = (ground arith, tt);
  plain = tt;
  short = omega arith;
  full = omega arith;
  reads = omega arith;
}
digits-IsNumeral (suc fuel) n h = elim (Bool-cases (ltb n 10)) [
  | inl small ↦ rw small (record {
    digits = (ground arith, tt);
    plain = tt;
    short = omega arith;
    full = omega arith;
    reads = omega arith;
  })
  | inr large ↦
      let ih = digits-IsNumeral fuel (n / 10) (omega arith) in
      let rest = digits fuel (n / 10) in
      let tens : 1 ≤ number_from 0 rest = ground (arith, large, ih.reads) in
      rw large (record {
        digits = IsDigits-snoc rest (b'0' + n % 10) ih.digits (ground arith);
        plain = IsPlain-snoc rest (b'0' + n % 10) ih.plain (is_zero-number_from rest tens);
        short = omega (arith, length-snoc rest (b'0' + n % 10), ih.short);
        full = omega (arith, length-snoc rest (b'0' + n % 10));
        reads = omega (arith, number_from-snoc rest 0 (b'0' + n % 10), ih.reads);
      })
]

is_amount_pointed :
    (w : List ℕ) (c d : ℕ)
    → IsDigits w
    → is_digit c ≡ true
    → is_digit d ≡ true
    → is_amount true (w ++ b'.' ∷ c ∷ d ∷ []) ≡ true
is_amount_pointed [] c d h k l = ground (arith, k, l)
is_amount_pointed (x ∷ w) c d h k l = ground (arith, h.0, is_amount_pointed w c d h.1 k l)

is_amount_full :
    (w : List ℕ) (c d : ℕ)
    → 1 ≤ length w
    → IsDigits w
    → is_digit c ≡ true
    → is_digit d ≡ true
    → is_amount false (w ++ b'.' ∷ c ∷ d ∷ []) ≡ true
is_amount_full [] c d full h k l = absurd (omega arith)
is_amount_full (x ∷ w) c d full h k l = ground (arith, h.0, is_amount_pointed w c d h.1 k l)

parse_reads :
    (s : List ℕ) (n : ℕ)
    → trim_end (trim_start s) ≡ s
    → is_amount false s ≡ true
    → number_from 0 (before_point s) * 100 + number_from 0 (pad_end (after_point s)) ≡ n
    → 1 ≤ n
    → parse_amount s ≡ some n
unfolding parse_amount
parse_reads s n trimmed valid reads some_ = rw (trimmed, valid, reads) (ground arith)

-- Every amount of 1 to 99,999,999,999 minor units, written with two decimals, passes the amount
-- field as it is and is read back as itself.
pub parse_amount-amount_text :
    (n : ℕ)
    → 1 ≤ n
    → n < 100_000_000_000
    → (sanitize_amount (amount_text n) ≡ amount_text n) × (parse_amount (amount_text n) ≡ some n)
parse_amount-amount_text n some_ small =
    let units = digits 8 (n / 100) in
    let num = digits-IsNumeral 8 (n / 100) (omega arith) in
    let c : ℕ = b'0' + n / 10 % 10 in
    let d : ℕ = b'0' + n % 10 in
    let c_ok : is_digit c ≡ true = ground arith in
    let d_ok : is_digit d ≡ true = ground arith in
    let entry : IsEntry amount_limits (amount_text n) =
      pointed units (c ∷ d ∷ []) refl
        (record { digits = num.digits; plain = num.plain; short = omega (arith, num.short) })
        num.full (c_ok, (d_ok, tt)) (omega arith) (omega arith) in
    let text = entry-IsText (amount_text n) entry in
    let trimmed : trim_end (trim_start (amount_text n)) ≡ amount_text n =
      ap trim_end (trim_start_same (amount_text n) text) ∙ trim_end_same (amount_text n) text in
    let left = pointed-before_point units (c ∷ d ∷ []) num.digits in
    let right = pointed-after_point units (c ∷ d ∷ []) num.digits (c_ok, (d_ok, tt)) in
    let valid = is_amount_full units c d num.full num.digits c_ok d_ok in
    let minor : number_from 0 (before_point (amount_text n)) * 100
          + number_from 0 (pad_end (after_point (amount_text n)))
        ≡ n =
      rw (left, right) (omega (arith, num.reads)) in
    (
      sanitize_decimal_kept amount_limits (amount_text n) entry,
      parse_reads (amount_text n) n trimmed valid minor some_,
    )
