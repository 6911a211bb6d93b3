-- ===== src/Alerts/Members.antt =====
-- Membership in the lists of alerts.
use mathlib.Core.Path.{subst}
use max_one.Prelude.{
  ◌≡◌, refl, sym, ap, ◌∙◌, Bool, true, List, [], ◌∷◌, any, keep, ◌==◌, ==_refl, if◌then◌else◌,
  arith, inl, inr, Bool-cases, Has,
}
use max_one.Schema.{PriceAlert}
use max_one.Alerts.{is_among}

pub Has-keep :
    (test : PriceAlert → Bool) (x : PriceAlert) (xs : List PriceAlert)
    → Has x xs
    → test x ≡ true
    → Has x (keep test xs)
unfolding keep
Has-keep test x [] m h = absurd m
Has-keep test x (y ∷ xs) (inl e) h = rw (e, h) (inl refl)
Has-keep test x (y ∷ xs) (inr m) h = elim (Bool-cases (test y)) [
  | inl kept ↦ rw kept (inr (Has-keep test x xs m h))
  | inr dropped ↦ rw dropped (Has-keep test x xs m h)
]

pub keep-Has :
    (test : PriceAlert → Bool) (x : PriceAlert) (xs : List PriceAlert)
    → Has x (keep test xs)
    → Has x xs × (test x ≡ true)
unfolding keep
keep-Has test x [] m = absurd m
keep-Has test x (y ∷ xs) m = elim (Bool-cases (test y)) [
  | inl kept ↦
      let m' : Has x (y ∷ keep test xs) =
        subst (λ b. Has x (if b then y ∷ keep test xs else keep test xs)) kept m in
      elim m' [
        | inl e ↦ (inl e, ap test (sym e) ∙ kept)
        | inr later ↦ let (at, passes) = keep-Has test x xs later in (inr at, passes)
      ]
  | inr dropped ↦
      let m' : Has x (keep test xs) =
        subst (λ b. Has x (if b then y ∷ keep test xs else keep test xs)) dropped m in
      let (at, passes) = keep-Has test x xs m' in (inr at, passes)
]

pub is_among-Has : (x : PriceAlert) (xs : List PriceAlert) → Has x xs → is_among xs x ≡ true
unfolding is_among any
is_among-Has x [] m = absurd m
is_among-Has x (y ∷ xs) (inl e) = ground (arith, ==_refl x.id)
is_among-Has x (y ∷ xs) (inr m) = ground (arith, is_among-Has x xs m)

pub among :
    (x : PriceAlert) (xs : List PriceAlert)
    → is_among xs x ≡ true
    → (f : PriceAlert) × Has f xs × (f.id ≡ x.id)
unfolding is_among any
among x [] h = absurd (ground arith)
among x (y ∷ xs) h = elim (Bool-cases (y.id == x.id)) [
  | inl here ↦ (y, inl refl, ground arith)
  | inr other ↦ let (f, m, same) = among x xs (ground arith) in (f, inr m, same)
]
