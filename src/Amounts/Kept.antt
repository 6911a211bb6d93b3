-- ===== src/Amounts/Kept.antt =====
-- The sanitizer leaves a text alone that a field may hold (customer/lib/format/sanitize-number.ts).
use mathlib.Core.Path.{subst}
use mathlib.Core.List.{append-nil, append_assoc}
use max_one.Prelude.{
  ℕ, ◌+◌, ◌≤◌, ◌<◌, ◌≡◌, refl, sym, ap, ◌∙◌, true, false, List, [], ◌∷◌, ◌++◌, length, arith,
}
use max_one.Amounts.{DecimalLimits, is_digit, is_zero, put, sanitize_from, sanitize_decimal}
use max_one.Amounts.Entry.{
  IsDigits, IsPlain, IsWhole, IsEntry, whole, pointed, digits-has_point, digits-before_point,
  pointed-has_point, pointed-after_point, IsDigits-snoc,
}

length-append : (s t : List ℕ) → length (s ++ t) ≡ length s + length t
length-append [] t = omega arith
length-append (c ∷ s) t = omega (arith, length-append s t)

IsDigits-append : (s t : List ℕ) → IsDigits (s ++ t) → IsDigits s × IsDigits t
IsDigits-append [] t h = (tt, h)
IsDigits-append (c ∷ s) t h = let (a, b) = IsDigits-append s t h.1 in ((h.0, a), b)

IsPlain-is_zero : (s : List ℕ) (c : ℕ) (t : List ℕ) → IsPlain (s ++ c ∷ t) → is_zero s ≡ false
IsPlain-is_zero [] c t h = refl
IsPlain-is_zero (x ∷ []) c t h = ground arith
IsPlain-is_zero (x ∷ y ∷ s) c t h = ground arith

module _ (limits : DecimalLimits) where
  sanitize_from-append :
      (out s t : List ℕ)
      → sanitize_from limits out (s ++ t) ≡ sanitize_from limits (sanitize_from limits out s) t
  unfolding sanitize_from
  sanitize_from-append out [] t = refl
  sanitize_from-append out (c ∷ s) t = sanitize_from-append (put limits c out) s t

  -- A digit that fits is put at the end.
  put_whole :
      (out : List ℕ) (c : ℕ) (t : List ℕ)
      → IsWhole limits (out ++ c ∷ t)
      → put limits c out ≡ out ++ c ∷ []
  unfolding put
  put_whole out c t h =
      let (before, after) = IsDigits-append out (c ∷ t) h.digits in
      ground (
        arith,
        after.0,
        digits-has_point out before,
        digits-before_point out before,
        IsPlain-is_zero out c t h.plain,
        length-append out (c ∷ t),
        h.short,
      )

  sanitize_whole :
      (s out : List ℕ) → IsWhole limits (out ++ s) → sanitize_from limits out s ≡ out ++ s
  unfolding sanitize_from
  sanitize_whole [] out h = sym (append-nil out)
  sanitize_whole (c ∷ s) out h =
      let regroup = append_assoc out (c ∷ []) s in
      ap (λ x. sanitize_from limits x s) (put_whole out c s h)
      ∙ sanitize_whole s (out ++ c ∷ []) (subst (λ x. IsWhole limits x) (sym regroup) h)
      ∙ regroup

  put_decimal :
      (w g : List ℕ) (c : ℕ)
      → IsDigits w
      → IsDigits g
      → is_digit c ≡ true
      → length g < limits.max_decimals
      → put limits c (w ++ b'.' ∷ g) ≡ w ++ b'.' ∷ (g ++ c ∷ [])
  unfolding put
  put_decimal w g c h k d fits =
      ground (arith, d, pointed-has_point w g, pointed-after_point w g h k)
      ∙ append_assoc w (b'.' ∷ g) (c ∷ [])

  sanitize_decimals :
      (f w g : List ℕ)
      → IsDigits w
      → IsDigits g
      → IsDigits f
      → length (g ++ f) ≤ limits.max_decimals
      → sanitize_from limits (w ++ b'.' ∷ g) f ≡ w ++ b'.' ∷ (g ++ f)
  unfolding sanitize_from
  sanitize_decimals [] w g h k l fits = ap (λ x. w ++ b'.' ∷ x) (sym (append-nil g))
  sanitize_decimals (c ∷ f) w g h k l fits =
      let regroup = append_assoc g (c ∷ []) f in
      ap (λ x. sanitize_from limits x f)
        (put_decimal w g c h k l.0 (omega (arith, length-append g (c ∷ f))))
      ∙ sanitize_decimals f w (g ++ c ∷ []) h (IsDigits-snoc g c k l.0) l.1
          (subst (λ x. length x ≤ limits.max_decimals) (sym regroup) fits)
      ∙ ap (λ x. w ++ b'.' ∷ x) regroup

  put_first_point :
      (w : List ℕ)
      → IsDigits w
      → 1 ≤ length w
      → 1 ≤ limits.max_decimals
      → put limits b'.' w ≡ w ++ b'.' ∷ []
  unfolding put
  put_first_point [] h full some_ = absurd (omega arith)
  put_first_point (c ∷ w) h full some_ = ground (arith, digits-has_point (c ∷ w) h)

  -- A text that
  pub sanitize_decimal_kept : (s : List ℕ) → IsEntry limits s → sanitize_decimal limits s ≡ s
  unfolding sanitize_decimal sanitize_from
  sanitize_decimal_kept s (whole h) = sanitize_whole s [] h
  sanitize_decimal_kept s (pointed w f e h full k short some_) =
      ap (λ x. sanitize_from limits [] x) e
      ∙ sanitize_from-append [] w (b'.' ∷ f)
      ∙ ap (λ x. sanitize_from limits x (b'.' ∷ f)) (sanitize_whole w [] h)
      ∙ ap (λ x. sanitize_from limits x f) (put_first_point w h.digits full some_)
      ∙ sanitize_decimals f w [] h.digits tt k short
      ∙ sym e
