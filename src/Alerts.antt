-- ===== src/Alerts.antt =====
-- backend/src/alerts/alerts.service.ts, is-triggered.ts and
-- backend/src/realtime/alert-check.service.ts. A price is a finite double, which is a whole
-- multiple of 2 ^ -1074: the ℤ here counts these units, and the order is the same.
pub mod Members
pub mod Laws
use max_one.Prelude.{
  ℕ, String, ◌<>◌, Bool, true, false, not, ◌&&◌, Option, none, some, List, [], ◌∷◌, any, map, keep,
  ◌==◌, if◌then◌else◌, str_eq, leb,
}
use max_one.Prelude.Int.{ℤ, ltb_ℤ}
use max_one.Exec.{ok, pure, gets, ◌>>=◌, ◌>>◌}
use max_one.Schema.{
  PriceAlert, AlertDirection, above, below, NotificationPayload, NotificationPushEvent,
}
use max_one.Prisma.{asc, unordered}
use max_one.World.{Prisma, World, Host, Action, in_transaction}
use max_one.Notifications.{enqueue, dispatch}
use max_one.Users.{AuthUser}

-- `isTriggered`
abbrev pub is_triggered : AlertDirection → ℤ → ℤ → Bool
is_triggered above target price = not (ltb_ℤ price target)
is_triggered below target price = not (ltb_ℤ target price)

pub record Asset : Type 0 where
  pub symbol : String
  pub price : ℤ

-- `new Map(assets.map(...)).get(symbol)`: the last of an asset's prices
unfoldable pub price_of : String → List Asset → Option ℤ
price_of symbol [] = none
price_of symbol (a ∷ assets) =
    let rest = price_of symbol assets in
    elim rest [
      | some price ↦ some price
      | none ↦ if str_eq a.symbol symbol then some a.price else none
    ]

-- The test of `check` on a pending alert.
unfoldable pub fires : List Asset → PriceAlert → Bool
unfolding price_of
fires assets a = elim (price_of a.symbol assets) [
  | none ↦ false
  | some price ↦ is_triggered a.direction a.target_price price
]

abbrev pub is_waiting : PriceAlert → Bool
is_waiting a = elim a.triggered_at [ none ↦ true | some _ ↦ false ]

-- `data: { triggeredAt: new Date() }`
abbrev pub mark_triggered_at : ℕ → PriceAlert → PriceAlert
mark_triggered_at now a = record a { triggered_at = some now }

-- `id: { in: ids }`
unfoldable pub is_among : List PriceAlert → PriceAlert → Bool
unfolding any
is_among fired a = any (λ f. f.id == a.id) fired

-- What a new alert is made of.
pub record AlertInput : Type 0 where
  pub symbol : String
  pub kind : String
  pub target_price : ℤ
  pub direction : AlertDirection

abbrev pub direction_text : AlertDirection → String
direction_text above = "above"
direction_text below = "below"

-- `px`, and the uuid of the event of an alert
pub record Texts : Type 0 where
  pub px : ℤ → String
  pub uuid : ℕ → ℕ

-- `px(priceBySymbol.get(symbol)!)`, of a price that is there
abbrev pub now_text : Texts → Option ℤ → String
now_text texts none = ""
now_text texts (some price) = texts.px price

abbrev pub alert_payload : Texts → List Asset → PriceAlert → NotificationPayload
alert_payload texts assets a = record {
  title =
      "🔔 "
      <> a.symbol
      <> " crossed "
      <> direction_text a.direction
      <> " "
      <> texts.px a.target_price;
  body = "now " <> now_text texts (price_of a.symbol assets);
  tag = a.id;
  url = "/alerts";
}

abbrev pub find_pending : {p : Prisma} → World p → List PriceAlert
find_pending {p} w = p.price_alert.find_many is_waiting unordered w.db.price_alerts

module _ {p : Prisma} (host : Host) where
  unfoldable pub list : AuthUser → Action p (List PriceAlert)
  list actor w = (
    ok (
        p.price_alert.find_many (λ a. a.user_id == actor.id) (asc (λ a. a.created_at))
          w.db.price_alerts),
    w,
  )

  unfoldable pub add : AuthUser → AlertInput → Action p PriceAlert
  add actor dto w =
      let row : PriceAlert = record {
        id = p.price_alert.fresh w.db.price_alerts;
        user_id = actor.id;
        symbol = dto.symbol;
        kind = dto.kind;
        target_price = dto.target_price;
        direction = dto.direction;
        created_at = host.now;
        triggered_at = none;
      } in
      (
        ok row,
        record w { db = record w.db { price_alerts = p.price_alert.insert row w.db.price_alerts } },
      )

  unfoldable pub remove : AuthUser → ℕ → Action p (Unit {0})
  remove actor id w = (
    ok tt,
    record w {
      db = record w.db {
        price_alerts =
            p.price_alert.delete_many (λ a. (a.id == id) && (a.user_id == actor.id))
              w.db.price_alerts;
      };
    },
  )

  unfoldable pub mark_triggered : List PriceAlert → Action p (Unit {0})
  mark_triggered fired w = (
    ok tt,
    record w {
      db = record w.db {
        price_alerts =
            p.price_alert.update_many (is_among fired) (mark_triggered_at host.now)
              w.db.price_alerts;
      };
    },
  )

  -- the events of the alerts that fired, in the transaction
  unfoldable pub enqueue_all :
      Texts → List Asset → List PriceAlert → Action p (List NotificationPushEvent)
  enqueue_all texts assets [] = pure []
  enqueue_all texts assets (a ∷ fired) = do
    event ←
        enqueue (record host { event_uuid = texts.uuid a.id }) a.user_id
          (alert_payload texts assets a)
    rest ← enqueue_all texts assets fired
    pure (event ∷ rest)

  -- `for (const e of events) await this.notify.dispatch(e)`
  unfoldable pub dispatch_all : List NotificationPushEvent → Action p (Unit {0})
  dispatch_all [] = pure tt
  dispatch_all (event ∷ events) = dispatch host event >> dispatch_all events

  -- `check` after it has found the alerts that fire
  unfoldable pub fire : Texts → List Asset → List PriceAlert → Action p (Unit {0})
  fire texts assets [] = pure tt
  fire texts assets (a ∷ fired) = do
    events ← in_transaction (mark_triggered (a ∷ fired) >> enqueue_all texts assets (a ∷ fired))
    dispatch_all events

  unfoldable pub check : Texts → List Asset → Action p (Unit {0})
  unfolding fire
  check texts assets = do
    pending ← gets find_pending
    fire texts assets (keep (fires assets) pending)
