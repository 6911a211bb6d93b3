-- ===== src/Exchange/Laws.antt =====
-- What the exchange screen can send (customer/components/exchange/exchange-screen.tsx).
use mathlib.Core.Path.{subst}
use max_one.Prelude.{
  ℕ, ◌≡◌, ◌≢◌, refl, sym, ap, ◌∙◌, true, Option, none, some, List, [], ◌∷◌, ◌==◌, ==_iff, eq_iff,
  if◌then◌else◌, or_default, arith, inl, inr, Bool-cases, Option-cases,
}
use max_one.Prelude.Int.{pos, ◌≤ℤ◌, ltb_ℤ}
use max_one.Amounts.{parse_amount, sanitize_amount}
use max_one.Pay.{ApiError, success, failed}
use max_one.Exchange.{
  WalletSummary, QuoteKey, QuoteResult, Quote, Screen, SubmitBody, Event, typed, swapped, picked,
  from_side, to_side, quoted, submitted, replied, same_keys, find_wallet, quote_key, key_between,
  body_between, is_current, same_key, captured, pick, settle_quote, begin_submit, finish_submit,
  rerun, submission, step, run,
}
use max_one.Exchange.Apart.{IsApart, run-IsApart}

same_key_eq : (a b : QuoteKey) → same_key a b ≡ true → a ≡ b
same_key_eq a b h =
    let minor = (==_iff a.minor b.minor).0 (ground (arith, h)) in
    let from = (eq_iff a.from b.from).0 (ground (arith, h)) in
    let to = (eq_iff a.to b.to).0 (ground (arith, h)) in cc

-- What is current are a key and a result for this key.
is_current-some :
    (k : Option QuoteKey) (r : Option QuoteResult)
    → is_current k r ≡ true
    → (key : QuoteKey) × (q : QuoteResult) × (k ≡ some key) × (r ≡ some q) × (q.key ≡ key)
is_current-some none r h = absurd (ground (arith, h))
is_current-some (some key) none h = absurd (ground (arith, h))
is_current-some (some key) (some q) h = (key, q, refl, refl, same_key_eq q.key key h)

key_between-some :
    (m : Option ℕ) (f t : Option WalletSummary) (key : QuoteKey)
    → key_between m f t ≡ some key
    → (minor : ℕ) × (from : WalletSummary) × (to : WalletSummary) × (m ≡ some minor)
      × (f ≡ some from)
      × (t ≡ some to)
      × (key ≡ record { minor = minor; from = from.currency; to = to.currency })
key_between-some none f t key h = absurd (ground (arith, h))
key_between-some (some minor) none t key h = absurd (ground (arith, h))
key_between-some (some minor) (some from) none key h = absurd (ground (arith, h))
key_between-some (some minor) (some from) (some to) key h =
    (minor, from, to, refl, refl, refl, sym (ap (λ o. or_default o key) h))

body_between-some :
    (s : Screen) (minor : ℕ) (from : WalletSummary) (body : SubmitBody)
    → body_between s (some minor) (some from) ≡ some body
    → (pos minor ≤ℤ from.balance)
      × (body ≡ record { from_wallet_id = s.from_id; to_wallet_id = s.to_id; amount = minor })
body_between-some s minor from body h = elim (Bool-cases (ltb_ℤ from.balance (pos minor))) [
  | inl over ↦ absurd (ground (arith, over, h))
  | inr covered ↦
      let sent : SubmitBody = record {
        from_wallet_id = s.from_id;
        to_wallet_id = s.to_id;
        amount = minor;
      } in
      let it : body_between s (some minor) (some from) ≡ some sent = rw covered refl in
      (ground (arith, covered), ap (λ o. or_default o sent) (sym h ∙ it))
]

-- `Given key q`: the API may quote `q` for `key`.
module _ (Given : QuoteKey → Quote → Type 0) (wallets : List WalletSummary) where
  abbrev pub IsFor : Option QuoteKey → Quote → Type 0
  IsFor none q = Unit
  IsFor (some key) q = Given key q

  -- A quote that answers the latest run of the effect is for the inputs of that run; what answers
  -- an older run, a failure, and every other event are arbitrary.
  abbrev pub IsHonest : Event → Screen → Type 0
  IsHonest (quoted effect (success q)) s =
      if effect == s.effect then IsFor (captured effect s.asked) q else Unit
  IsHonest _ s = Unit

  abbrev pub AreHonest : List Event → Screen → Type 0
  AreHonest [] s = Unit
  AreHonest (e ∷ es) s = IsHonest e s × AreHonest es (step wallets e s)

  abbrev pub IsGiven : Option QuoteResult → Type 0
  IsGiven none = Unit
  IsGiven (some q) = Given q.key (record { converted = q.converted; rate = q.rate })

  rerun-IsGiven : (old s : Screen) → IsGiven s.result → IsGiven (rerun wallets old s).result
  rerun-IsGiven old s h =
      elim (Bool-cases (same_keys (quote_key wallets old) (quote_key wallets s))) [
        | inl same ↦ rw same h
        | inr other ↦ rw other h
      ]

  settle_quote-IsGiven :
      (effect : ℕ) (q : Quote) (s : Screen)
      → IsHonest (quoted effect (success q)) s
      → IsGiven s.result
      → IsGiven (settle_quote effect (success q) s).result
  unfolding settle_quote
  settle_quote-IsGiven effect q s honest h = elim (Bool-cases (effect == s.effect)) [
    | inr late ↦ rw late h
    | inl fresh ↦ elim (Option-cases (captured effect s.asked)) [
      | inl unasked ↦ rw (fresh, unasked) h
      | inr (k, asked) ↦
          let given : Given k q = ground (arith, honest, fresh, asked) in rw (fresh, asked) given
    ]
  ]

  fail_quote-IsGiven :
      (effect : ℕ) (e : ApiError) (s : Screen)
      → IsGiven s.result
      → IsGiven (settle_quote effect (failed e) s).result
  unfolding settle_quote
  fail_quote-IsGiven effect e s h = elim (Bool-cases (effect == s.effect)) [
    | inr late ↦ rw late h
    | inl fresh ↦ elim (Option-cases (captured effect s.asked)) [
      | inl unasked ↦ rw (fresh, unasked) h
      | inr (k, asked) ↦ rw (fresh, asked) h
    ]
  ]

  step-IsGiven :
      (e : Event) (s : Screen) → IsHonest e s → IsGiven s.result → IsGiven (step wallets e s).result
  unfolding step pick begin_submit finish_submit
  step-IsGiven (typed raw) s honest h =
      rerun-IsGiven s (record s { amount = sanitize_amount raw }) h
  step-IsGiven swapped s honest h =
      rerun-IsGiven s (record s { from_id = s.to_id; to_id = s.from_id }) h
  step-IsGiven (picked from_side id) s honest h =
      rerun-IsGiven s
        (record s { to_id = if id == s.to_id then s.from_id else s.to_id; from_id = id }) h
  step-IsGiven (picked to_side id) s honest h =
      rerun-IsGiven s
        (record s { from_id = if id == s.from_id then s.to_id else s.from_id; to_id = id }) h
  step-IsGiven (quoted effect (failed e)) s honest h = fail_quote-IsGiven effect e s h
  step-IsGiven (quoted effect (success q)) s honest h = settle_quote-IsGiven effect q s honest h
  step-IsGiven (submitted fresh) s honest h = elim (Option-cases (submission wallets s)) [
    | inl none_ ↦ rw none_ h
    | inr (body, some_) ↦ rw some_ h
  ]
  step-IsGiven (replied (failed e)) s honest h = h
  step-IsGiven (replied (success data_)) s honest h = h

  run-IsGiven :
      (es : List Event) (s : Screen)
      → AreHonest es s
      → IsGiven s.result
      → IsGiven (run wallets es s).result
  unfolding run
  run-IsGiven [] s honest h = h
  run-IsGiven (e ∷ es) s honest h =
      run-IsGiven es (step wallets e s) honest.1 (step-IsGiven e s honest.0 h)

  -- What a submission is sent for
  pub record Covered (s : Screen) (body : SubmitBody) : Type 0 where
    pub from : WalletSummary
    pub to : WalletSummary
    pub quote : Quote
    pub ends : (body.from_wallet_id ≡ s.from_id) × (body.to_wallet_id ≡ s.to_id)
    pub is_typed : parse_amount s.amount ≡ some body.amount
    pub are_there :
        (find_wallet s.from_id wallets ≡ some from) × (find_wallet s.to_id wallets ≡ some to)
    pub is_covered : pos body.amount ≤ℤ from.balance
    pub is_shown :
        s.result
        ≡ some (record {
          converted = quote.converted;
          rate = quote.rate;
          key = record { minor = body.amount; from = from.currency; to = to.currency };
        })
    pub is_given :
        Given (record { minor = body.amount; from = from.currency; to = to.currency }) quote

  submission-Covered :
      (s : Screen) (body : SubmitBody)
      → IsGiven s.result
      → submission wallets s ≡ some body
      → Covered s body
  unfolding submission
  submission-Covered s body h e = elim (Bool-cases (is_current (quote_key wallets s) s.result)) [
    | inr stale ↦ absurd (ground (arith, stale, e))
    | inl current ↦
        let (key, q, k, r, for_key) = is_current-some (quote_key wallets s) s.result current in
        let (minor, from, to, m, f, t, inputs) =
          key_between-some (parse_amount s.amount) (find_wallet s.from_id wallets)
            (find_wallet s.to_id wallets) key k in
        let sent : body_between s (some minor) (some from) ≡ some body =
          sym (rw (current, m, f) refl) ∙ e in
        let (covered, same) = body_between-some s minor from body sent in
        let quote : Quote = record { converted = q.converted; rate = q.rate } in
        let for_body : q.key
            ≡ record { minor = body.amount; from = from.currency; to = to.currency } =
          for_key
          ∙ inputs
          ∙ ap (λ b. record { minor = b.amount; from = from.currency; to = to.currency })
              (sym same) in
        record {
          from = from;
          to = to;
          quote = quote;
          ends = (ap (λ b. b.from_wallet_id) same, ap (λ b. b.to_wallet_id) same);
          is_typed = m ∙ sym (ap (λ b. some b.amount) same);
          are_there = (f, t);
          is_covered = subst (λ b. pos b.amount ≤ℤ from.balance) (sym same) covered;
          is_shown =
              r
              ∙ ap (λ k. some (record { converted = q.converted; rate = q.rate; key = k }))
                  for_body;
          is_given = subst (λ k. Given k quote) for_body (subst IsGiven r h);
        }
  ]

  -- From a screen whose two wallets differ and which shows no quote yet, whatever is typed,
  -- picked, swapped, answered or sent, where only the answers to the latest inputs need be quotes
  -- that the API gives for these: what the screen can submit then goes between two different
  -- wallets, the ones shown, is the amount typed, is covered by the balance of the first, and
  -- stands beside a quote that the API gives for just this amount and these currencies.
  pub run-Covered :
      (es : List Event) (s : Screen) (body : SubmitBody)
      → IsApart s
      → s.result ≡ none
      → AreHonest es s
      → submission wallets (run wallets es s) ≡ some body
      → Covered (run wallets es s) body × (body.from_wallet_id ≢ body.to_wallet_id)
  run-Covered es s body apart unquoted honest e =
      let given = run-IsGiven es s honest (subst IsGiven (sym unquoted) tt) in
      let c = submission-Covered (run wallets es s) body given e in
      (c, λ same. run-IsApart wallets es s apart (sym c.ends.0 ∙ same ∙ c.ends.1))
