-- ===== src/Exchange/Apart.antt =====
-- The two wallets of the exchange screen (customer/components/exchange/exchange-screen.tsx).
use max_one.Prelude.{
  ◌≢◌, refl, sym, ◌∙◌, List, [], ◌∷◌, ◌==◌, ==_iff, if◌then◌else◌, inl, inr, Bool-cases,
  Option-cases,
}
use max_one.Amounts.{sanitize_amount}
use max_one.Pay.{ApiResult, success, failed}
use max_one.Exchange.{
  WalletSummary, QuoteKey, Quote, answer, Screen, Event, typed, swapped, picked, from_side, to_side,
  quoted, submitted, replied, same_keys, quote_key, captured, pick, settle_quote, begin_submit,
  finish_submit, rerun, submission, step, run,
}

abbrev pub IsApart : Screen → Type 0
IsApart s = s.from_id ≢ s.to_id

module _ (wallets : List WalletSummary) where
  rerun-IsApart : (old s : Screen) → IsApart s → IsApart (rerun wallets old s)
  rerun-IsApart old s h =
      elim (Bool-cases (same_keys (quote_key wallets old) (quote_key wallets s))) [
        | inl same ↦ rw same h
        | inr other ↦ rw other h
      ]

  answer-IsApart :
      (k : QuoteKey) (r : ApiResult Quote) (s : Screen) → IsApart s → IsApart (answer k r s)
  answer-IsApart k (failed e) s h = h
  answer-IsApart k (success q) s h = h

  step-IsApart : (e : Event) (s : Screen) → IsApart s → IsApart (step wallets e s)
  unfolding step pick settle_quote begin_submit finish_submit
  step-IsApart (typed raw) s h = rerun-IsApart s (record s { amount = sanitize_amount raw }) h
  step-IsApart swapped s h =
      rerun-IsApart s (record s { from_id = s.to_id; to_id = s.from_id }) (λ e. h (sym e))
  step-IsApart (picked from_side id) s h =
      rerun-IsApart s
        (record s { to_id = if id == s.to_id then s.from_id else s.to_id; from_id = id })
        (λ e. elim (Bool-cases (id == s.to_id)) [
          | inl same ↦ h (sym (e ∙ rw same refl) ∙ (==_iff id s.to_id).0 same)
          | inr other ↦ let clash = (==_iff id s.to_id).1 (e ∙ rw other refl) in cc
        ])
  step-IsApart (picked to_side id) s h =
      rerun-IsApart s
        (record s { from_id = if id == s.from_id then s.to_id else s.from_id; to_id = id })
        (λ e. elim (Bool-cases (id == s.from_id)) [
          | inl same ↦ h (sym ((==_iff id s.from_id).0 same) ∙ sym (sym (rw same refl) ∙ e))
          | inr other ↦ let clash = (==_iff id s.from_id).1 (sym (sym (rw other refl) ∙ e)) in cc
        ])
  step-IsApart (quoted effect r) s h = elim (Bool-cases (effect == s.effect)) [
    | inr late ↦ rw (settle_quote, late) h
    | inl fresh ↦ elim (Option-cases (captured effect s.asked)) [
      | inl unasked ↦ rw (settle_quote, fresh, unasked) h
      | inr (k, asked) ↦ rw (settle_quote, fresh, asked) (answer-IsApart k r s h)
    ]
  ]
  step-IsApart (submitted fresh) s h = elim (Option-cases (submission wallets s)) [
    | inl none_ ↦ rw (begin_submit, none_) h
    | inr (body, some_) ↦ rw (begin_submit, some_) h
  ]
  step-IsApart (replied (failed e)) s h = h
  step-IsApart (replied (success data_)) s h = h

  pub run-IsApart : (es : List Event) (s : Screen) → IsApart s → IsApart (run wallets es s)
  unfolding run
  run-IsApart [] s h = h
  run-IsApart (e ∷ es) s h = run-IsApart es (step wallets e s) (step-IsApart e s h)
