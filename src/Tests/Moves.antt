-- ===== src/Tests/Moves.antt =====
-- Transfers between the two wallets of the world of the tests.
use max_one.Prelude.{refl, ◌≡◌, ◌≢◌, some, none, arith}
use max_one.Prelude.Int.{pos, ◌+ℤ◌, ◌-ℤ◌}
use max_one.Users.{find_by_id}
use max_one.Wallets.Access.{get_owned_wallet}
use max_one.Wallets.Transfer.{TransferDto, convert, transfer, settle_transfer, settle_and_announce}
use max_one.Wallets.Laws.Transfers.{transfer_moves, transfer_conserves}
use max_one.Tests.{prisma, prisma-IsPrisma, host, alice, wallet_of, world}

abbrev dto : TransferDto
dto = record { to_wallet_id = 1; amount = pos 200; note = none }

differs : dto.to_wallet_id ≢ 0
differs = omega arith

transfer_moves_example :
    prisma.wallet.find_unique 1 (transfer {p = prisma} host 0 alice dto world).1.db.wallets
    ≡ some (wallet_of 1 1 (pos 250))
unfolding convert ◌+ℤ◌
transfer_moves_example =
    transfer_moves prisma-IsPrisma host 0 alice dto world differs refl refl refl refl (omega arith)
      1

transfer_conserves_example : pos 800 +ℤ pos 250 ≡ pos 1000 +ℤ pos 50
unfolding transfer get_owned_wallet convert find_by_id settle_and_announce settle_transfer ◌-ℤ◌ ◌+ℤ◌
transfer_conserves_example =
    transfer_conserves {p = prisma} host 0 alice dto world prisma-IsPrisma differs refl refl refl
      refl (omega arith) (wallet_of 0 0 (pos 800)) (wallet_of 1 1 (pos 250)) refl refl
