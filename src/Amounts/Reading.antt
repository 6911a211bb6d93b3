-- ===== src/Amounts/Reading.antt =====
-- What the amount of a field reads as (customer/lib/format/parse-amount.ts).
use mathlib.Core.Path.{subst}
use max_one.Prelude.{
  ℕ, zero, suc, ◌+◌, ◌-◌, ◌*◌, ◌≤◌, ◌<◌, ◌≡◌, refl, sym, ap, ◌∙◌, false, some, List, [], ◌∷◌, ◌++◌,
  length, arith, All,
}
use max_one.Amounts.{
  DecimalLimits, is_space, before_point, after_point, pad_end, number_from, amount_limits,
  sanitize_amount, trim_start, trim_end, parse_amount,
}
use max_one.Amounts.Entry.{
  IsDigits, IsEntry, whole, pointed, digits-before_point, pointed-before_point, pointed-after_point,
  sanitize_decimal-IsEntry,
}

-- 10 ^ k
abbrev pub ten : ℕ → ℕ
ten zero = 1
ten (suc k) = 10 * ten k

-- No white space
abbrev pub IsText : List ℕ → Type 0
IsText s = All (λ c. is_space c ≡ false) s

digits-IsText : (s : List ℕ) → IsDigits s → IsText s
digits-IsText [] h = tt
digits-IsText (c ∷ s) h = (ground arith, digits-IsText s h.1)

pointed-IsText : (w f : List ℕ) → IsDigits w → IsDigits f → IsText (w ++ b'.' ∷ f)
pointed-IsText [] f h k = (refl, digits-IsText f k)
pointed-IsText (c ∷ w) f h k = (ground arith, pointed-IsText w f h.1 k)

pub entry-IsText : {limits : DecimalLimits} (s : List ℕ) → IsEntry limits s → IsText s
entry-IsText s (whole h) = digits-IsText s h.digits
entry-IsText s (pointed w f e h full k short some_) =
    subst IsText (sym e) (pointed-IsText w f h.digits k)

pub trim_start_same : (s : List ℕ) → IsText s → trim_start s ≡ s
unfolding trim_start
trim_start_same [] h = refl
trim_start_same (c ∷ s) h = rw h.0

pub trim_end_same : (s : List ℕ) → IsText s → trim_end s ≡ s
unfolding trim_end
trim_end_same [] h = refl
trim_end_same (c ∷ s) h = ground (arith, h.0, trim_end_same s h.1)

-- A text of digits stands below the power of ten of its length.
number_from-lt : (s : List ℕ) (n : ℕ) → IsDigits s → number_from n s < (n + 1) * ten (length s)
number_from-lt [] n h = omega arith
number_from-lt (c ∷ s) n h =
    let low : c - b'0' ≤ 9 = ground (arith, h.0) in
    let ih = number_from-lt s (n * 10 + (c - b'0')) h.1 in grind arith

ten_mono : (j k : ℕ) → j ≤ k → ten j ≤ ten k
ten_mono zero zero h = omega arith
ten_mono zero (suc k) h = omega (arith, ten_mono zero k)
ten_mono (suc j) zero h = absurd (omega arith)
ten_mono (suc j) (suc k) h = omega (arith, ten_mono j k)

digits-after_point : (s : List ℕ) → IsDigits s → after_point s ≡ []
digits-after_point [] h = refl
digits-after_point (c ∷ s) h = ground (arith, h.0, digits-after_point s h.1)

-- The parts of an amount
record IsParts (w f : List ℕ) : Type 0 where
  units : IsDigits w
  short : length w ≤ 9
  cents : IsDigits f
  few : length f ≤ 2

entry-IsParts : (s : List ℕ) → IsEntry amount_limits s → IsParts (before_point s) (after_point s)
entry-IsParts s (whole h) =
    subst (λ w. IsParts w (after_point s)) (sym (digits-before_point s h.digits))
      (subst (λ f. IsParts s f) (sym (digits-after_point s h.digits))
        (record { units = h.digits; short = h.short; cents = tt; few = omega arith }))
entry-IsParts s (pointed w f e h full k short some_) =
    let left = ap before_point e ∙ pointed-before_point w f h.digits in
    let right = ap after_point e ∙ pointed-after_point w f h.digits k in
    subst (λ w. IsParts w (after_point s)) (sym left)
      (subst (λ f. IsParts w f) (sym right)
        (record { units = h.digits; short = h.short; cents = k; few = short }))

pad_end_digits : (f : List ℕ) → IsDigits f → length f ≤ 2 → number_from 0 (pad_end f) < 100
pad_end_digits [] h l = omega arith
pad_end_digits (c ∷ []) h l = ground (arith, h.0)
pad_end_digits (c ∷ d ∷ []) h l = ground (arith, h.0, h.1.0)
pad_end_digits (c ∷ d ∷ x ∷ f) h l = absurd (omega arith)

-- What is typed
pub parse_amount_bounds :
    (raw : List ℕ) {n : ℕ}
    → parse_amount (sanitize_amount raw) ≡ some n
    → (1 ≤ n) × (n < 100_000_000_000)
unfolding parse_amount
parse_amount_bounds raw {n} e =
    let s = sanitize_amount raw in
    let entry = sanitize_decimal-IsEntry amount_limits (omega arith) raw in
    let parts = entry-IsParts s entry in
    let text = entry-IsText s entry in
    let trimmed : trim_end (trim_start s) ≡ s =
      ap trim_end (trim_start_same s text) ∙ trim_end_same s text in
    let units : number_from 0 (before_point s) < 1_000_000_000 = omega (
      arith,
      number_from-lt (before_point s) 0 parts.units,
      ten_mono (length (before_point s)) 9 parts.short,
    ) in
    let cents = pad_end_digits (after_point s) parts.cents parts.few in
    ground (arith, e, trimmed, units, cents)
