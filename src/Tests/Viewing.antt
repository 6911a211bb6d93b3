-- ===== src/Tests/Viewing.antt =====
-- What the pages show of a few rows.
use max_one.Prelude.{ℕ, ◌≡◌, refl, ◌/◌, ◌*◌, true, some, if◌then◌else◌, none, List, [], ◌∷◌}
use max_one.Prelude.Int.{pos}
use max_one.Schema.{PriceAlert, AlertDirection}
use max_one.World.{World}
use max_one.Alerts.{Texts, check}
use max_one.Tests.{prisma, prisma-IsPrisma, host, world}
use max_one.Views.Statement.{Calendar, day_ms, group_by_day}
use max_one.Views.Prices.{PriceInfo, compute_alert, assets_of, compute_alert-check}
use max_one.Views.AuditDiff.{Snapshot, json, method, changed, added, diff_snapshots, lookup}
use max_one.Views.AuditDiff.Changes.{changes_of, IsDifference, diff_snapshots-changes}

-- Days of UTC, all in one year
abbrev calendar : Calendar
calendar = record {
  start_of_day = λ at. at / day_ms * day_ms;
  short_date = λ with_year at. "Jan 2";
  full_year = λ at. 2026;
}

abbrev now : ℕ
now = 10 * day_ms

abbrev times : List ℕ
times = 10 * day_ms ∷ 9 * day_ms ∷ 9 * day_ms ∷ 2 * day_ms ∷ []

times_grouped :
    group_by_day calendar (λ at. at) now times
    ≡ record { label = "Today"; items = 10 * day_ms ∷ [] }
      ∷ record { label = "Yesterday"; items = 9 * day_ms ∷ 9 * day_ms ∷ [] }
      ∷ record { label = "Jan 2"; items = 2 * day_ms ∷ [] }
      ∷ []
unfolding group_by_day
times_grouped = refl

abbrev prices : List PriceInfo
prices =
    record { symbol = "BTC"; price = pos 60; image = none }
    ∷ record { symbol = "ETH"; price = pos 3; image = none }
    ∷ []

abbrev alert : PriceAlert
alert = record {
  id = 0;
  user_id = 1;
  symbol = "ETH";
  kind = "CRYPTO";
  target_price = pos 3;
  direction = AlertDirection.above;
  created_at = 0;
  triggered_at = none;
}

alert_triggered : (compute_alert prices alert).triggered ≡ true
unfolding compute_alert
alert_triggered = refl

abbrev watching : World prisma
watching = record world { db = record world.db { price_alerts = some alert ∷ [] } }

abbrev texts : Texts
texts = record { px = λ n. "$"; uuid = λ n. n }

compute_alert-check_example :
    prisma.price_alert.find_unique 0
      (check host texts (assets_of prices) watching).1.db.price_alerts
    ≡ some (
        if (compute_alert prices alert).triggered
        then record alert { triggered_at = some host.now }
        else alert)
compute_alert-check_example =
    compute_alert-check host texts prices watching 0 alert prisma-IsPrisma refl refl

abbrev before : Snapshot
before = ("status", json "ACTIVE") ∷ ("role", json "USER") ∷ []

abbrev after : Snapshot
after = ("role", json "ADMIN") ∷ ("phone", json "1") ∷ ("status", json "ACTIVE") ∷ []

rows_shown :
    diff_snapshots before after
    ≡ record { key = "role"; change = changed (json "USER") (json "ADMIN") }
      ∷ record { key = "phone"; change = added (json "1") }
      ∷ []
unfolding diff_snapshots
rows_shown = refl

diff_snapshots-changes_example :
    IsDifference
      (lookup "role" before)
      (lookup "role" after)
      (changes_of "role" (diff_snapshots before after))
unfolding lookup
diff_snapshots-changes_example = diff_snapshots-changes before after "role" refl

-- `in` finds a method of every object.
added_constructor :
    diff_snapshots [] (("constructor", json "1") ∷ [])
    ≡ record { key = "constructor"; change = changed method (json "1") } ∷ []
unfolding diff_snapshots
added_constructor = refl
