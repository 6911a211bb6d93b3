-- ===== src/Tests/Trading.antt =====
-- The markets, with the cache empty and one ticker.
use max_one.Prelude.{
  String, Option, str_eq, if◌then◌else◌, length, ◌≡◌, refl, none, some, List, [], ◌∷◌,
}
use max_one.Prelude.Int.{ℤ, pos}
use max_one.Exec.{ok}
use max_one.World.{World, Host, CacheEntry}
use max_one.Markets.{
  coins, coin_by_id, change_from_candles, day, Ticker, Candle, AssetDetail, Doubles,
  restate_open_candle,
}
use max_one.Markets.Service.{Codecs, Providers, list_assets, detail, chart}
use max_one.Markets.Candles.{IsLastClose}
use max_one.Markets.Providers.{
  KrakenReply, answered, Keyed, KrakenTickerRow, fetch_tickers, read_tickers,
}
use max_one.Markets.Quoted.{IsQuoted, fetch_tickers-IsQuoted}
use max_one.Markets.Now.{chart_meets_detail}
use max_one.Schema.{PriceAlert, AlertDirection}
use max_one.Alerts.{Texts, mark_triggered_at, fires}
use max_one.PriceStream.{tick}
use max_one.PriceStream.Laws.{tick_marks}
use max_one.Tests.{prisma, prisma-IsPrisma, host, world}

abbrev bitcoin : Ticker
bitcoin = record {
  symbol = "BTC";
  price = pos 60;
  high_24h = some (pos 61);
  low_24h = some (pos 50);
}

abbrev candle : ℤ → ℤ → Candle
candle t c = record { t = t; o = pos 50; h = pos 59; l = pos 50; c = c }

abbrev history : List Candle
history = candle (pos 0) (pos 50) ∷ candle (pos 3600) (pos 55) ∷ []

-- Codecs of the one value that is cached here
abbrev codecs : Codecs
codecs = record {
  tickers = record { encode = λ ts. "tickers"; decode = λ s. bitcoin ∷ [] };
  candles = record { encode = λ cs. "candles"; decode = λ s. history };
  supply = record { encode = λ n. "supply"; decode = λ s. [] };
}

abbrev providers : Providers
providers = record {
  fetch_tickers = bitcoin ∷ [];
  fetch_candles = λ coin range. history;
  fetch_supply = [];
}

-- Ten seconds later the provider is away.
abbrev later : Host
later = record host { now = 15000 }

abbrev away : Providers
away = record providers { fetch_tickers = [] }

abbrev doubles : Doubles
doubles = record { percent = λ now then_. pos 20; times = λ a b. a }

abbrev shown : AssetDetail
shown = record {
  asset = record {
    id = "bitcoin";
    symbol = "BTC";
    name = "Bitcoin";
    kind = "crypto";
    price = pos 60;
    change_24h = pos 20;
    image = "https://assets.coingecko.com/coins/images/1/large/bitcoin.png";
  };
  market_cap = pos 0;
  high_24h = some (pos 61);
  low_24h = some (pos 50);
}

abbrev after : World prisma
after = (detail {p = prisma} host codecs doubles providers "bitcoin" world).1

abbrev entry : CacheEntry
entry = record { value = "tickers"; expires_at = 20000 }

chart_meets_detail_example :
    (cs : List Candle) × (w' : World prisma) × (chart {p = prisma} later codecs doubles away
        "bitcoin" day after
      ≡ (ok cs, w'))
    × IsLastClose (pos 60) cs
unfolding detail coin_by_id change_from_candles restate_open_candle
chart_meets_detail_example =
    chart_meets_detail {p = prisma} codecs doubles host later providers away refl refl "bitcoin" day
      world after shown entry refl refl refl (λ e. cc)

-- Bitcoin above 50
abbrev alert : PriceAlert
alert = record {
  id = 0;
  user_id = 0;
  symbol = "BTC";
  kind = "crypto";
  target_price = pos 50;
  direction = AlertDirection.above;
  created_at = 1;
  triggered_at = none;
}

abbrev watching : World prisma
watching = record world { db = record world.db { price_alerts = some alert ∷ [] } }

abbrev texts : Texts
texts = record { px = λ n. "$"; uuid = λ n. n }

-- Nobody is connected.
tick_marks_example :
    prisma.price_alert.find_unique 0
      (tick host codecs doubles providers texts 0 watching).1.db.price_alerts
    ≡ some (mark_triggered_at 5000 alert)
unfolding list_assets coin_by_id change_from_candles restate_open_candle fires
tick_marks_example =
    tick_marks host codecs doubles providers texts 0 watching shown.asset [] prisma-IsPrisma refl 0

abbrev number : String → Option ℤ
number s = some (if str_eq s "60.1" then pos 60 else pos 61)

abbrev row : KrakenTickerRow
row = record {
  c = some ("60.1" ∷ "1" ∷ []);
  h = some ("60.9" ∷ "61.2" ∷ []);
  l = some ("60.0" ∷ "50.4" ∷ []);
}

-- The key of bitcoin is XXBTZUSD.
abbrev quotes : KrakenReply (Keyed KrakenTickerRow)
quotes = answered [] (some ((b'X' ∷ b'X' ∷ b'B' ∷ b'T' ∷ b'Z' ∷ b'U' ∷ b'S' ∷ b'D' ∷ [], row) ∷ []))

fetch_tickers-one : length (fetch_tickers number quotes) ≡ 1
unfolding fetch_tickers read_tickers
fetch_tickers-one = refl

fetch_tickers-IsQuoted_example : IsQuoted (fetch_tickers number quotes) coins
fetch_tickers-IsQuoted_example = fetch_tickers-IsQuoted number quotes
