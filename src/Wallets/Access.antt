-- ===== src/Wallets/Access.antt =====
-- backend/src/wallets/wallets.service.ts: who may touch a wallet, and who may settle a request.
use max_one.Prelude.{
  ℕ, String, Bool, true, false, not, Option, none, some, List, [], ◌==◌, if◌then◌else◌, str_eq, any,
}
use max_one.Exec.{forbidden, not_found, pure, throw_if, or_throw, ◌>>=◌, ◌>>◌}
use max_one.Schema.{Wallet, TransactionType, withdrawal}
use max_one.World.{Prisma, Action, find_wallet, find_transaction}
use max_one.Users.{AuthUser, UserWithRole, find_by_id_with_permissions}

-- `type === 'withdrawal'`
abbrev pub is_withdrawal : TransactionType → Bool
is_withdrawal withdrawal = true
is_withdrawal _ = false

-- The code that `assertApprovePermission` asks for.
abbrev pub approve_code : TransactionType → String
approve_code kind = if is_withdrawal kind then "withdrawal.approve" else "deposit.approve"

-- `user?.role.permissions.map((permission) => permission.code) ?? []`
abbrev pub held_codes : Option UserWithRole → List String
held_codes none = []
held_codes (some u) = u.role.permissions

unfoldable pub holds : String → Option UserWithRole → Bool
unfolding any
holds code user = any (λ held. str_eq held code) (held_codes user)

module _ {p : Prisma} where
  unfoldable pub get_owned_wallet : ℕ → AuthUser → Action p Wallet
  get_owned_wallet id actor = do
    wallet ← find_wallet id
    found ← or_throw (not_found "Wallet not found") wallet
    throw_if (not (found.user_id == actor.id)) (forbidden "Access denied")
    pure found

  unfoldable pub get_settleable_type : ℕ → Action p TransactionType
  get_settleable_type txn_id = do
    txn ← find_transaction txn_id
    found ← or_throw (not_found "Transaction not found") txn
    pure found.kind

  unfoldable pub assert_approve_permission : AuthUser → TransactionType → Action p (Unit {0})
  assert_approve_permission actor kind = do
    user ← find_by_id_with_permissions actor.id
    throw_if (not (holds (approve_code kind) user)) (forbidden "Access denied")
