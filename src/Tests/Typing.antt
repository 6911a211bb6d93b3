-- ===== src/Tests/Typing.antt =====
-- Amounts as they are typed.
use max_one.Prelude.{ℕ, ◌≡◌, refl, some, List, [], ◌∷◌, arith}
use max_one.Amounts.{amount_limits, sanitize_amount, sanitize_decimal, parse_amount}
use max_one.Amounts.Entry.{IsEntry, sanitize_decimal-IsEntry}
use max_one.Amounts.RoundTrip.{amount_text, parse_amount-amount_text}

-- "$07.5x01"
abbrev typed : List ℕ
typed = b'$' ∷ b'0' ∷ b'7' ∷ b'.' ∷ b'5' ∷ b'x' ∷ b'0' ∷ b'1' ∷ []

typed_shown : sanitize_amount typed ≡ b'7' ∷ b'.' ∷ b'5' ∷ b'0' ∷ []
unfolding sanitize_decimal
typed_shown = refl

sanitize_decimal-IsEntry_example : IsEntry amount_limits (sanitize_decimal amount_limits typed)
sanitize_decimal-IsEntry_example = sanitize_decimal-IsEntry amount_limits (omega arith) typed

parse_amount-amount_text_example :
    (sanitize_amount (amount_text 3_000_000_000) ≡ amount_text 3_000_000_000)
    × (parse_amount (amount_text 3_000_000_000) ≡ some 3_000_000_000)
parse_amount-amount_text_example =
    parse_amount-amount_text 3_000_000_000 (omega arith) (omega arith)
