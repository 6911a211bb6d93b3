-- ===== src/Amounts.antt =====
-- customer/lib/format/sanitize-number.ts and parse-amount.ts: the text of an amount field, as code
-- points, on every keystroke and at the end.
pub mod Entry
pub mod Kept
pub mod Reading
pub mod RoundTrip
use max_one.Prelude.{
  ℕ, suc, ◌+◌, ◌-◌, ◌*◌, Bool, true, false, not, ◌&&◌, ◌||◌, Option, none, some, List, [], ◌∷◌,
  ◌++◌, ◌==◌, ltb, leb, if◌then◌else◌, length, take, keep,
}

pub record DecimalLimits : Type 0 where
  pub max_whole : ℕ
  pub max_decimals : ℕ

abbrev pub is_digit : ℕ → Bool
is_digit c = leb b'0' c && leb c b'9'

abbrev pub is_point : ℕ → Bool
is_point c = c == b'.'

-- `out.includes('.')`
abbrev pub has_point : List ℕ → Bool
has_point [] = false
has_point (c ∷ s) = is_point c || has_point s

-- The parts of `out.split('.')`
abbrev pub before_point : List ℕ → List ℕ
before_point [] = []
before_point (c ∷ s) = if is_point c then [] else c ∷ before_point s

abbrev pub after_point : List ℕ → List ℕ
after_point [] = []
after_point (c ∷ s) = if is_point c then before_point s else after_point s

abbrev pub is_empty : List ℕ → Bool
is_empty [] = true
is_empty (_ ∷ _) = false

-- `whole === '0'`
abbrev pub is_zero : List ℕ → Bool
is_zero [] = false
is_zero (c ∷ s) = c == b'0' && is_empty s

-- The branch of a point
abbrev pub put_point : DecimalLimits → List ℕ → List ℕ
put_point limits out =
    if limits.max_decimals == 0 || has_point out
    then out
    else if is_empty out
    then b'0' ∷ b'.' ∷ []
    else out ++ b'.' ∷ []

-- The branches of a digit
abbrev pub put_digit : DecimalLimits → ℕ → List ℕ → List ℕ
put_digit limits ch out =
    if has_point out
    then (if leb limits.max_decimals (length (after_point out)) then out else out ++ ch ∷ [])
    else if is_zero (before_point out)
    then (if ch == b'0' then b'0' ∷ [] else ch ∷ [])
    else if ltb (length (before_point out)) limits.max_whole
    then out ++ ch ∷ []
    else out

-- One round of the loop of `sanitizeDecimal`
unfoldable pub put : DecimalLimits → ℕ → List ℕ → List ℕ
put limits ch out =
    if is_point ch
    then put_point limits out
    else if not (is_digit ch)
    then out
    else put_digit limits ch out

unfoldable pub sanitize_from : DecimalLimits → List ℕ → List ℕ → List ℕ
unfolding put
sanitize_from limits out [] = out
sanitize_from limits out (ch ∷ raw) = sanitize_from limits (put limits ch out) raw

unfoldable pub sanitize_decimal : DecimalLimits → List ℕ → List ℕ
unfolding sanitize_from
sanitize_decimal limits raw = sanitize_from limits [] raw

abbrev pub amount_limits : DecimalLimits
amount_limits = record { max_whole = 9; max_decimals = 2 }

abbrev pub sanitize_amount : List ℕ → List ℕ
sanitize_amount raw = sanitize_decimal amount_limits raw

abbrev pub sanitize_price : List ℕ → List ℕ
sanitize_price raw = sanitize_decimal (record { max_whole = 9; max_decimals = 4 }) raw

abbrev pub sanitize_quantity : List ℕ → List ℕ
sanitize_quantity raw = sanitize_decimal (record { max_whole = 9; max_decimals = 8 }) raw

unfoldable pub sanitize_digits : List ℕ → ℕ → List ℕ
unfolding keep
sanitize_digits raw max = take max (keep is_digit raw)

-- White space, which `trim` removes at both ends
abbrev pub is_space : ℕ → Bool
is_space c =
    (leb 9 c && leb c 13)
    || c == 32
    || c == 0xa0
    || c == 0x1680
    || (leb 0x2000 c && leb c 0x200a)
    || c == 0x2028
    || c == 0x2029
    || c == 0x202f
    || c == 0x205f
    || c == 0x3000
    || c == 0xfeff

unfoldable pub trim_start : List ℕ → List ℕ
trim_start [] = []
trim_start (c ∷ s) = if is_space c then trim_start s else c ∷ s

-- A text of white space alone loses all of it.
unfoldable pub trim_end : List ℕ → List ℕ
trim_end [] = []
trim_end (c ∷ s) = let rest = trim_end s in if is_empty rest && is_space c then [] else c ∷ rest

abbrev pub all_digits : List ℕ → Bool
all_digits [] = true
all_digits (c ∷ s) = is_digit c && all_digits s

-- `(\.\d{1,2})?$`
abbrev pub is_fraction : List ℕ → Bool
is_fraction s = all_digits s && leb 1 (length s) && leb (length s) 2

-- `/^\d+(\.\d{1,2})?$/`, after at least one digit if `begun`
abbrev pub is_amount : Bool → List ℕ → Bool
is_amount begun [] = begun
is_amount begun (c ∷ s) =
    let rest = is_amount true s in if is_digit c then rest else begun && is_point c && is_fraction s

-- `frac.padEnd(2, '0')`, of at most two digits
abbrev pub pad_end : List ℕ → List ℕ
pad_end [] = b'0' ∷ b'0' ∷ []
pad_end (c ∷ []) = c ∷ b'0' ∷ []
pad_end (c ∷ d ∷ s) = c ∷ d ∷ s

-- `Number` of a text of digits; exact below 2 ^ 53
abbrev pub number_from : ℕ → List ℕ → ℕ
number_from n [] = n
number_from n (c ∷ s) = number_from (n * 10 + (c - b'0')) s

-- `parseAmountToMinor`, where none is NaN
unfoldable pub parse_amount : List ℕ → Option ℕ
unfolding trim_start trim_end
parse_amount input =
    let trimmed = trim_end (trim_start input) in
    let minor =
      number_from 0 (before_point trimmed) * 100 + number_from 0 (pad_end (after_point trimmed)) in
    if not (is_amount false trimmed) then none else if ltb 0 minor then some minor else none
