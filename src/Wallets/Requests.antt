-- ===== src/Wallets/Requests.antt =====
-- The requests of backend/src/wallets/wallets.controller.ts and transactions.controller.ts that
-- change state, as values, and the wallet service as a whole. The guards of the routes are not here.
use max_one.Prelude.{ℕ, String, Option, List, [], ◌∷◌}
use max_one.Prelude.Int.{ℤ}
use max_one.Exec.{pure, ◌>>◌}
use max_one.World.{Prisma, World, Host, Action}
use max_one.Users.{AuthUser}
use max_one.Wallets.Deposit
use max_one.Wallets.Withdrawal.{request_withdrawal}
use max_one.Wallets.Review
use max_one.Wallets.Adjustment
use max_one.Wallets.Adjustment.{Correction}
use max_one.Wallets.Transfer
use max_one.Wallets.Transfer.{TransferDto}
use max_one.Wallets.Reads

pub data Request : Type 0 where
  create_wallet : String → String → Request
  deposit : ℕ → ℤ → Option String → Request
  withdraw : ℕ → ℤ → Option String → Request
  approve : ℕ → Request
  reject : ℕ → Option String → Request
  adjust : ℕ → Correction → Request
  transfer : ℕ → TransferDto → Request

module _ {p : Prisma} where
  -- The handler of the route.
  unfoldable pub handle : Host → AuthUser → Request → Action p (Unit {0})
  handle host actor (Request.create_wallet name currency) =
      Reads.create_wallet host actor name currency >> pure tt
  handle host actor (Request.deposit id amount note) =
      Deposit.deposit host id actor amount note >> pure tt
  handle host actor (Request.withdraw id amount note) =
      request_withdrawal host id actor amount note >> pure tt
  handle host actor (Request.approve id) = Review.approve host id actor >> pure tt
  handle host actor (Request.reject id note) = Review.reject host id actor note >> pure tt
  handle host actor (Request.adjust id dto) = Adjustment.adjust host id dto actor >> pure tt
  handle host actor (Request.transfer id dto) = Transfer.transfer host id actor dto >> pure tt

-- One call of a route.
pub record Call : Type 0 where
  pub host : Host
  pub actor : AuthUser
  pub request : Request

-- Calls one after the other; an exception becomes a response, and the next call is served.
unfoldable pub serve : {p : Prisma} → List Call → World p → World p
serve [] w = w
serve (c ∷ calls) w = serve calls (handle c.host c.actor c.request w).1
