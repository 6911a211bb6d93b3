-- ===== src/Markets/Candles.antt =====
-- What a restated chart keeps (backend/src/markets/candle-math.ts).
use max_one.Prelude.{suc, ◌≡◌, ◌≢◌, refl, ap, false, List, [], ◌∷◌, length, arith, All}
use max_one.Prelude.Int.{ℤ, pos, negsuc, ◌≤ℤ◌}
use max_one.Markets.{Candle, is_zero, restate, restate_last, restate_open_candle}

-- The range of a candle holds its prices.
abbrev pub IsCandle : Candle → Type 0
IsCandle k = (k.l ≤ℤ k.o) × (k.o ≤ℤ k.h) × (k.l ≤ℤ k.c) × (k.c ≤ℤ k.h)

-- The close of the last candle, if there is one
abbrev pub IsLastClose : ℤ → List Candle → Type 0
IsLastClose price [] = Unit
IsLastClose price (k ∷ []) = k.c ≡ price
IsLastClose price (k ∷ j ∷ candles) = IsLastClose price (j ∷ candles)

-- All but the last
abbrev pub closed : List Candle → List Candle
closed [] = []
closed (k ∷ []) = []
closed (k ∷ j ∷ candles) = k ∷ closed (j ∷ candles)

restate-IsCandle : (live : ℤ) (k : Candle) → IsCandle k → IsCandle (restate live k)
restate-IsCandle live k h = (ground arith, ground arith, ground arith, ground arith)

restate_last_ends :
    (live : ℤ) (candles : List Candle) → IsLastClose live (restate_last live candles)
unfolding restate_last
restate_last_ends live [] = tt
restate_last_ends live (k ∷ []) = refl
restate_last_ends live (k ∷ j ∷ []) = refl
restate_last_ends live (k ∷ j ∷ i ∷ candles) = restate_last_ends live (j ∷ i ∷ candles)

restate_last_keeps :
    (live : ℤ) (candles : List Candle)
    → (length (restate_last live candles) ≡ length candles)
      × (closed (restate_last live candles) ≡ closed candles)
unfolding restate_last
restate_last_keeps live [] = (refl, refl)
restate_last_keeps live (k ∷ []) = (refl, refl)
restate_last_keeps live (k ∷ j ∷ []) = (refl, refl)
restate_last_keeps live (k ∷ j ∷ i ∷ candles) =
    let (long, same) = restate_last_keeps live (j ∷ i ∷ candles) in
    (ap suc long, ap (λ x. k ∷ x) same)

restate_last-IsCandle :
    (live : ℤ) (candles : List Candle)
    → All IsCandle candles
    → All IsCandle (restate_last live candles)
unfolding restate_last
restate_last-IsCandle live [] h = tt
restate_last-IsCandle live (k ∷ []) h = (restate-IsCandle live k h.0, tt)
restate_last-IsCandle live (k ∷ j ∷ candles) h = (h.0, restate_last-IsCandle live (j ∷ candles) h.1)

is_zero-false : (n : ℤ) → n ≢ pos 0 → is_zero n ≡ false
is_zero-false (pos Prim.Native.Nat.zero) h = absurd (h refl)
is_zero-false (pos (Prim.Native.Nat.suc n)) h = refl
is_zero-false (negsuc n) h = refl

-- Candles whose range holds their prices, restated with a live price that is not 0, are as many,
-- all but the last are as they were, the last closes at the live price, and each range holds its
-- prices.
pub restate_open_candle_keeps :
    (live : ℤ) (candles : List Candle)
    → All IsCandle candles
    → live ≢ pos 0
    → (length (restate_open_candle candles live) ≡ length candles)
      × (closed (restate_open_candle candles live) ≡ closed candles)
      × IsLastClose live (restate_open_candle candles live)
      × All IsCandle (restate_open_candle candles live)
unfolding restate_open_candle
restate_open_candle_keeps live candles h nonzero =
    let (long, same) = restate_last_keeps live candles in
    rw (is_zero-false live nonzero)
      (long, same, restate_last_ends live candles, restate_last-IsCandle live candles h)

pub restate_open_candle_ends :
    (live : ℤ) (candles : List Candle)
    → live ≢ pos 0
    → IsLastClose live (restate_open_candle candles live)
unfolding restate_open_candle
restate_open_candle_ends live candles nonzero =
    rw (is_zero-false live nonzero) (restate_last_ends live candles)
