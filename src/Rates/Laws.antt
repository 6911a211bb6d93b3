-- ===== src/Rates/Laws.antt =====
-- What the cached rates guarantee.
use max_one.Prelude.{
  ◌+◌, ◌*◌, ◌<◌, ◌<>◌, ◌≡◌, ◌⊎◌, refl, ap, ◌∙◌, String, true, false, none, some, str_eq, arith, inl,
  inr, Option-cases, eq_iff,
}
use max_one.Prelude.Int.{ℤ}
use max_one.Exec.{Exception, ok, err, service_unavailable}
use max_one.Schema.{Decimal}
use max_one.World.{Prisma, World, Host, CacheEntry}
use max_one.Cache.{get, set, wrap, write}
use max_one.Rates.{convert_minor, rate_ttl, Quote, fetch_rate, get_rate, quote}
use max_one.Wallets.Transfer.{convert}

abbrev rate_key : String → String → String
rate_key from to = "rates:" <> from <> ":" <> to

module _ {p : Prisma} (host : Host) (from to : String) (w : World p)
    (differ : str_eq from to ≡ false) (up : host.redis_up ≡ true) where
  -- A rate that is not cached is fetched, and cached for a minute.
  get_rate_fetched :
      {rate : Decimal}
      → w.cache (rate_key from to) ≡ none
      → host.latest from to ≡ some (some rate)
      → let text = host.decimal.to_string rate in
        get_rate host from to w ≡ (
          ok (host.decimal.of_string text),
          record w {
            cache =
                write
                  (rate_key from to)
                  (some (record { value = text; expires_at = host.now + 1000 * rate_ttl }))
                  w.cache;
          },
        )
  unfolding get_rate fetch_rate wrap get set
  get_rate_fetched unseen known = ground (arith, differ, up, unseen, known)

  -- The provider's failures come out, whatever they are.
  get_rate_failed :
      w.cache (rate_key from to) ≡ none
      → (host.latest from to ≡ none) ⊎ (host.latest from to ≡ some none)
      → (e : Exception) × (get_rate host from to w ≡ (err e, w))
  unfolding get_rate fetch_rate wrap get set
  get_rate_failed unseen (inl down) = (
    service_unavailable "Exchange rate provider unavailable",
    ground (arith, differ, up, unseen, down),
  )
  get_rate_failed unseen (inr missing) = (
    service_unavailable ("No exchange rate for " <> from <> " -> " <> to),
    ground (arith, differ, up, unseen, missing),
  )

  get_rate_cached :
      {entry : CacheEntry}
      → w.cache (rate_key from to) ≡ some entry
      → host.now < entry.expires_at
      → get_rate host from to w ≡ (ok (host.decimal.of_string entry.value), w)
  unfolding get_rate fetch_rate wrap get set
  get_rate_cached held soon = ground (arith, differ, up, held)

module _ {p : Prisma} (host : Host) (from to : String) (w : World p) where
  -- Between two currencies, with Redis up and no rate in the cache: within a minute of a quote, a
  -- transfer of the amount converts at the quoted rate, to what the quote promised.
  pub quote_agrees :
      (host' : Host) (amount : ℤ) {q : Quote}
      → str_eq from to ≡ false
      → w.cache (rate_key from to) ≡ none
      → host.redis_up ≡ true
      → host'.redis_up ≡ true
      → host'.decimal ≡ host.decimal
      → host'.now < host.now + 1000 * rate_ttl
      → (quote host from to amount w).0 ≡ ok q
      → (rate : Decimal) × ((convert host' from to amount (quote host from to amount w).1).0
          ≡ ok (record { credit = q.converted; exchange_rate = some rate }))
        × (host.decimal.to_string rate ≡ q.rate)
  unfolding quote convert
  quote_agrees host' amount {q} differ unseen up up' same soon done =
      elim (Option-cases (host.latest from to)) [
        | inl failed ↦
            absurd
              (ground (arith, (get_rate_failed host from to w differ up unseen (inl failed)).1))
        | inr (answer, got) ↦ elim (Option-cases answer) [
          | inl missing ↦ absurd (
              ground (
                arith,
                (get_rate_failed host from to w differ up unseen (inr (got ∙ ap some missing))).1,
              ))
          | inr (rate, known) ↦
              let fetched =
                get_rate_fetched host from to w differ up unseen (got ∙ ap some known) in
              let text = host.decimal.to_string rate in
              let w₁ = record w {
                cache =
                    write (rate_key from to)
                      (some (record { value = text; expires_at = host.now + 1000 * rate_ttl }))
                      w.cache;
              } in
              let held : w₁.cache (rate_key from to)
                  ≡ some (record { value = text; expires_at = host.now + 1000 * rate_ttl }) =
                ground (arith, (eq_iff (rate_key from to) (rate_key from to)).1 refl) in
              let cached = get_rate_cached host' from to w₁ differ up' held soon in
              let quoted : quote host from to amount w ≡ (
                ok (record {
                  from_currency = from;
                  to_currency = to;
                  amount = amount;
                  rate = host.decimal.to_string (host.decimal.of_string text);
                  converted = convert_minor host.decimal amount (host.decimal.of_string text);
                }),
                w₁,
              ) =
                ground (arith, fetched) in
              (
                host.decimal.of_string text,
                ground (arith, quoted, cached, differ, same),
                ground (arith, quoted),
              )
        ]
      ]

  -- A rate that cannot be had is an error that changes nothing: no cache entry is written for it.
  pub get_rate_closed :
      {e : Exception} → (get_rate host from to w).0 ≡ err e → (get_rate host from to w).1 ≡ w
  unfolding get_rate fetch_rate wrap get set
  get_rate_closed h = elim (Option-cases (host.latest from to)) [
    | inl failed ↦ ground arith
    | inr (answer, got) ↦ elim (Option-cases answer) [
      | inl missing ↦ ground arith
      | inr (rate, known) ↦ ground arith
    ]
  ]
