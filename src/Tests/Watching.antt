-- ===== src/Tests/Watching.antt =====
-- A price alert on the world of the tests.
use max_one.Prelude.{◌≡◌, none, some, List, [], ◌∷◌}
use max_one.Prelude.Int.{pos}
use max_one.Exec.{ok}
use max_one.Schema.{PriceAlert, AlertDirection}
use max_one.World.{World}
use max_one.Alerts.{Asset, Texts, check}
use max_one.Alerts.Laws.{check_once}
use max_one.Tests.{prisma, prisma-IsPrisma, host, world}

-- Bitcoin above 100.
abbrev alert : PriceAlert
alert = record {
  id = 0;
  user_id = 0;
  symbol = "BTC";
  kind = "crypto";
  target_price = pos 100;
  direction = AlertDirection.above;
  created_at = 1;
  triggered_at = none;
}

abbrev watching : World prisma
watching = record world { db = record world.db { price_alerts = some alert ∷ [] } }

abbrev assets : List Asset
assets = record { symbol = "BTC"; price = pos 120 } ∷ []

abbrev texts : Texts
texts = record { px = λ n. "$"; uuid = λ n. n }

check_once_example :
    check host texts assets (check host texts assets watching).1
    ≡ (ok tt, (check host texts assets watching).1)
check_once_example = check_once host host texts texts assets watching prisma-IsPrisma
