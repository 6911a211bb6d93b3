-- ===== src/PriceStream.antt =====
-- backend/src/realtime/price-stream.service.ts: the tick that broadcasts prices and drives the alerts.
pub mod Laws
use max_one.Prelude.{
  ℕ, ◌≡◌, String, Bool, true, false, not, ◌&&◌, Option, none, some, List, [], ◌∷◌, ◌==◌, ltb,
  length, map, if◌then◌else◌,
}
use max_one.Exec.{Result, ok, err}
use max_one.World.{Prisma, World, Host}
use max_one.Markets.{MarketAsset, Doubles}
use max_one.Markets.Service.{Codecs, Providers, list_assets}
use max_one.Alerts.{Asset, Texts, find_pending, check}

abbrev pub asset_of : MarketAsset → Asset
asset_of a = record { symbol = a.symbol; price = a.price }

abbrev pub pending_count : {p : Prisma} → World p → ℕ
pending_count w = length (find_pending w)

module _ {p : Prisma} (host : Host) (codecs : Codecs) (doubles : Doubles) (providers : Providers)
    (texts : Texts) where
  -- A tick after the list of the markets: what it broadcasts, and the world
  abbrev pub deliver :
      Bool → ℕ → Result (List MarketAsset) × World p → Option (List MarketAsset) × World p
  deliver watching pending (err e, w) = (none, w)
  deliver watching pending (ok [], w) = (none, w)
  deliver watching pending (ok (a ∷ assets), w) = (
    if watching then some (a ∷ assets) else none,
    if ltb 0 pending then (check host texts (map asset_of (a ∷ assets)) w).1 else w,
  )

  -- `tick`, with so many browsers connected; an exception is caught.
  unfoldable pub tick : ℕ → World p → Option (List MarketAsset) × World p
  tick connected w =
      let watching = ltb 0 connected in
      let pending = pending_count w in
      if not watching && (pending == 0)
      then (none, w)
      else deliver watching pending (list_assets host codecs doubles providers w)
