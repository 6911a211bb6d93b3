-- ===== src/Wallets/Laws/Refinement.antt =====
-- Every request of the wallet service takes one step of the specification in Wallets/Ledger.antt,
-- so what the steps keep holds after any sequence of calls.
mod Funding
mod Reviews
mod Transfers
use Funding.{create_wallet-Step, deposit-Step, request_withdrawal-Step, adjust-Step}
use Reviews.{approve-Step, reject-Step}
use Transfers.{transfer-Step}
use max_one.Prelude.{◌≡◌, refl, List, [], ◌∷◌, All, arith}
use max_one.Prelude.Int.{pos, ◌≤ℤ◌}
use max_one.World.{Prisma, IsPrisma, World, Host}
use max_one.Users.{AuthUser}
use max_one.Wallets.Requests.{Request, Call, handle, serve}
use max_one.Wallets.Laws.Conversions.{HasNonnegRates}
use max_one.Wallets.Ledger.{Step, Step-same}
use max_one.Wallets.Ledger.Invariant.{IsSound, KeepsReviewed}
use max_one.Wallets.Ledger.Preservation.{Step-IsSound, Step-KeepsReviewed}

-- What the DTOs check (`@Min(1)` on amounts), and that the provider's rates are not negative.
abbrev pub IsAccepted : Host → Request → Type 0
IsAccepted host (Request.deposit id amount _) = pos 1 ≤ℤ amount
IsAccepted host (Request.withdraw id amount _) = pos 1 ≤ℤ amount
IsAccepted host (Request.transfer id dto) = (pos 1 ≤ℤ dto.amount) × HasNonnegRates host
IsAccepted host _ = Unit

module _ {p : Prisma} (lawful : IsPrisma p) where
  -- Whatever its outcome, an accepted request of the wallet service takes the wallets and the
  -- ledger from a sound state by one step of the specification, which knows no actors,
  -- permissions, audit rows, events or rates.
  pub handle-Step :
      (host : Host) (actor : AuthUser) (request : Request) (w : World p)
      → IsSound w.db
      → IsAccepted host request
      → Step w.db (handle host actor request w).1.db
  unfolding handle
  handle-Step host actor (Request.create_wallet name currency) w s a =
      Step-same (create_wallet-Step host actor w name currency) (ground arith) (ground arith)
  handle-Step host actor (Request.deposit id amount note) w s a =
      Step-same (deposit-Step host actor w id amount note (omega arith)) (ground arith)
        (ground arith)
  handle-Step host actor (Request.withdraw id amount note) w s a =
      Step-same (request_withdrawal-Step host actor w id amount note (omega arith)) (ground arith)
        (ground arith)
  handle-Step host actor (Request.approve id) w s a =
      Step-same (approve-Step lawful host actor w id s.booked) (ground arith) (ground arith)
  handle-Step host actor (Request.reject id note) w s a =
      Step-same (reject-Step lawful host actor w id note s.booked) (ground arith) (ground arith)
  handle-Step host actor (Request.adjust id dto) w s a =
      Step-same (adjust-Step host actor w id dto) (ground arith) (ground arith)
  handle-Step host actor (Request.transfer id dto) w s a =
      Step-same (transfer-Step lawful host id actor dto w a.1 (omega arith)) (ground arith)
        (ground arith)

  -- From a state where no balance is negative and every row of the ledger is booked, any sequence
  -- of accepted calls of the wallet service, failed ones included, leads to such a state; a booked
  -- row is waiting, declined, or settled with a balance after that follows from the one before.
  -- Amounts are at least 1, and conversions are not negative.
  pub serve-IsSound :
      (calls : List Call) (w : World p)
      → All (λ c. IsAccepted c.host c.request) calls
      → IsSound w.db
      → IsSound (serve calls w).db
  unfolding serve
  serve-IsSound [] w a s = s
  serve-IsSound (c ∷ calls) w a s =
      serve-IsSound calls (handle c.host c.actor c.request w).1 a.1
        (Step-IsSound lawful (handle-Step c.host c.actor c.request w s a.0) s)

  -- From a sound state, a row of the ledger that is not pending is the same row after any sequence
  -- of accepted calls.
  pub serve-KeepsReviewed :
      (calls : List Call) (w : World p)
      → All (λ c. IsAccepted c.host c.request) calls
      → IsSound w.db
      → KeepsReviewed p w.db.transactions (serve calls w).db.transactions
  unfolding serve
  serve-KeepsReviewed [] w a s k r found reviewed = found
  serve-KeepsReviewed (c ∷ calls) w a s k r found reviewed =
      let step = handle-Step c.host c.actor c.request w s a.0 in
      serve-KeepsReviewed calls (handle c.host c.actor c.request w).1 a.1
        (Step-IsSound lawful step s) k r (Step-KeepsReviewed lawful step k r found reviewed)
        reviewed
