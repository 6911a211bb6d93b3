-- ===== src/Amounts/Entry.antt =====
-- What the sanitizer lets through (customer/lib/format/sanitize-number.ts).
use mathlib.Core.List.{append_assoc}
use max_one.Prelude.{
  ℕ, ◌+◌, ◌≤◌, ◌≡◌, ◌≢◌, refl, ap, ◌∙◌, true, false, List, [], ◌∷◌, ◌++◌, ◌==◌, ltb, leb, length,
  arith, inl, inr, Bool-cases, All,
}
use max_one.Amounts.{
  DecimalLimits, is_digit, is_point, has_point, before_point, after_point, is_empty, is_zero,
  put_point, put_digit, put, sanitize_from, sanitize_decimal,
}

abbrev pub IsDigits : List ℕ → Type 0
IsDigits s = All (λ c. is_digit c ≡ true) s

-- A number of more than one digit does not begin with 0.
abbrev pub IsPlain : List ℕ → Type 0
IsPlain [] = Unit
IsPlain (c ∷ []) = Unit
IsPlain (c ∷ d ∷ s) = c ≢ b'0'

pub record IsWhole (limits : DecimalLimits) (w : List ℕ) : Type 0 where
  pub digits : IsDigits w
  pub plain : IsPlain w
  pub short : length w ≤ limits.max_whole

-- What the text of a field can be: a number without leading zeros, or such a number, a point and
-- decimals, within the limits.
pub data IsEntry (limits : DecimalLimits) (s : List ℕ) : Type 0 where
  whole : IsWhole limits s → IsEntry limits s
  pointed :
      (w f : List ℕ)
      → s ≡ w ++ b'.' ∷ f
      → IsWhole limits w
      → 1 ≤ length w
      → IsDigits f
      → length f ≤ limits.max_decimals
      → 1 ≤ limits.max_decimals
      → IsEntry limits s

-- A text of digits has no point.
pub digits-has_point : (w : List ℕ) → IsDigits w → has_point w ≡ false
digits-has_point [] h = refl
digits-has_point (c ∷ w) h = ground (arith, h.0, digits-has_point w h.1)

pub digits-before_point : (w : List ℕ) → IsDigits w → before_point w ≡ w
digits-before_point [] h = refl
digits-before_point (c ∷ w) h = ground (arith, h.0, digits-before_point w h.1)

pub pointed-has_point : (w f : List ℕ) → has_point (w ++ b'.' ∷ f) ≡ true
pointed-has_point [] f = refl
pointed-has_point (c ∷ w) f = ground (arith, pointed-has_point w f)

pub pointed-before_point : (w f : List ℕ) → IsDigits w → before_point (w ++ b'.' ∷ f) ≡ w
pointed-before_point [] f h = refl
pointed-before_point (c ∷ w) f h = ground (arith, h.0, pointed-before_point w f h.1)

pub pointed-after_point : (w f : List ℕ) → IsDigits w → IsDigits f → after_point (w ++ b'.' ∷ f) ≡ f
pointed-after_point [] f h k = digits-before_point f k
pointed-after_point (c ∷ w) f h k = ground (arith, h.0, pointed-after_point w f h.1 k)

pub IsDigits-snoc : (s : List ℕ) (c : ℕ) → IsDigits s → is_digit c ≡ true → IsDigits (s ++ c ∷ [])
IsDigits-snoc [] c h k = (k, tt)
IsDigits-snoc (x ∷ s) c h k = (h.0, IsDigits-snoc s c h.1 k)

pub length-snoc : (s : List ℕ) (c : ℕ) → length (s ++ c ∷ []) ≡ length s + 1
length-snoc [] c = omega arith
length-snoc (x ∷ s) c = omega (arith, length-snoc s c)

-- A number that is not 0 stays without leading zeros.
pub IsPlain-snoc : (s : List ℕ) (c : ℕ) → IsPlain s → is_zero s ≡ false → IsPlain (s ++ c ∷ [])
IsPlain-snoc [] c h k = tt
IsPlain-snoc (x ∷ []) c h k = ground arith
IsPlain-snoc (x ∷ y ∷ s) c h k = h

pub length-is_empty : (s : List ℕ) → is_empty s ≡ false → 1 ≤ length s
length-is_empty [] h = ground arith
length-is_empty (x ∷ s) h = omega arith

module _ (limits : DecimalLimits) (room : 1 ≤ limits.max_whole) where
  zero-IsWhole : IsWhole limits (b'0' ∷ [])
  zero-IsWhole = record { digits = (refl, tt); plain = tt; short = room }

  put_point-IsEntry : (out : List ℕ) → IsEntry limits out → IsEntry limits (put_point limits out)
  put_point-IsEntry out (whole h) =
      let none_yet = digits-has_point out h.digits in
      elim (Bool-cases (limits.max_decimals == 0)) [
        | inl closed ↦ rw closed (whole h)
        | inr open_ ↦ elim (Bool-cases (is_empty out)) [
          | inl new ↦
              rw (open_, none_yet, new)
                (pointed (b'0' ∷ []) [] refl zero-IsWhole (omega arith) tt (omega arith)
                  (ground arith))
          | inr old ↦
              rw (open_, none_yet, old)
                (pointed out [] refl h (length-is_empty out old) tt (omega arith) (ground arith))
        ]
      ]
  put_point-IsEntry out (pointed w f e h full k short some_) =
      let there : has_point out ≡ true = ap has_point e ∙ pointed-has_point w f in
      let same : put_point limits out ≡ out = ground (arith, there) in
      rw same (pointed w f e h full k short some_)

  put_digit-IsEntry :
      (ch : ℕ) (out : List ℕ)
      → is_digit ch ≡ true
      → IsEntry limits out
      → IsEntry limits (put_digit limits ch out)
  put_digit-IsEntry ch out d (whole h) =
      let none_yet = digits-has_point out h.digits in
      let all_ = digits-before_point out h.digits in
      elim (Bool-cases (is_zero out)) [
        | inl nought ↦ elim (Bool-cases (ch == b'0')) [
          | inl again ↦ rw (none_yet, all_, nought, again) (whole zero-IsWhole)
          | inr other ↦
              rw (none_yet, all_, nought, other)
                (whole (record { digits = (d, tt); plain = tt; short = room }))
        ]
        | inr more ↦ elim (Bool-cases (ltb (length out) limits.max_whole)) [
          | inl fits ↦
              rw (none_yet, all_, more, fits)
                (whole (record {
                  digits = IsDigits-snoc out ch h.digits d;
                  plain = IsPlain-snoc out ch h.plain more;
                  short = ground (arith, length-snoc out ch);
                }))
          | inr full ↦ rw (none_yet, all_, more, full) (whole h)
        ]
      ]
  put_digit-IsEntry ch out d (pointed w f e h full k short some_) =
      let there : has_point out ≡ true = ap has_point e ∙ pointed-has_point w f in
      let rest : after_point out ≡ f = ap after_point e ∙ pointed-after_point w f h.digits k in
      elim (Bool-cases (leb limits.max_decimals (length f))) [
        | inl enough ↦ rw (there, rest, enough) (pointed w f e h full k short some_)
        | inr fits ↦
            rw (there, rest, fits)
              (pointed w (f ++ ch ∷ [])
                (ap (λ s. s ++ ch ∷ []) e ∙ append_assoc w (b'.' ∷ f) (ch ∷ [])) h full
                (IsDigits-snoc f ch k d) (ground (arith, length-snoc f ch)) some_)
      ]

  pub put-IsEntry :
      (ch : ℕ) (out : List ℕ) → IsEntry limits out → IsEntry limits (put limits ch out)
  unfolding put
  put-IsEntry ch out h = elim (Bool-cases (is_point ch)) [
    | inl point ↦ rw point (put_point-IsEntry out h)
    | inr other ↦ elim (Bool-cases (is_digit ch)) [
      | inl d ↦ rw (other, d) (put_digit-IsEntry ch out d h)
      | inr junk ↦ rw (other, junk) h
    ]
  ]

  sanitize_from-IsEntry :
      (raw out : List ℕ) → IsEntry limits out → IsEntry limits (sanitize_from limits out raw)
  unfolding sanitize_from
  sanitize_from-IsEntry [] out h = h
  sanitize_from-IsEntry (ch ∷ raw) out h =
      sanitize_from-IsEntry raw (put limits ch out) (put-IsEntry ch out h)

  -- Whatever is typed, and for any limits with at least one digit before the point, a numeric
  -- field holds nothing, a number without leading zeros within the limit, or such a number with a
  -- point and at most as many decimals as the limits allow.
  pub sanitize_decimal-IsEntry : (raw : List ℕ) → IsEntry limits (sanitize_decimal limits raw)
  unfolding sanitize_decimal
  sanitize_decimal-IsEntry raw =
      sanitize_from-IsEntry raw [] (whole (record { digits = tt; plain = tt; short = omega arith }))
