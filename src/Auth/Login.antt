-- ===== src/Auth/Login.antt =====
-- backend/src/auth/auth.service.ts, and `createWithDefaultWallet` of users.service.ts. bcrypt and the
-- uuid of a new family are parameters.
use max_one.Prelude.{
  ℕ, String, Bool, true, false, not, Option, none, some, [], if◌then◌else◌, str_eq,
}
use max_one.Exec.{
  ok, err, unauthorized, forbidden, conflict, failure, pure, throw, throw_if, or_throw, ◌>>=◌, ◌>>◌,
}
use max_one.Schema.{User, active, Role}
use max_one.World.{Prisma, Host, Action, in_transaction, create_wallet_row}
use max_one.Users.{
  UserWithRole, status_eq, find_by_email, find_by_handle, find_by_id_with_permissions,
  find_role_by_name, with_role,
}
use max_one.Tokens.{Crypto, Pair, issue_tokens}
use max_one.Tokens.Purpose.{Jwt, issue_2fa_challenge, verify_2fa_challenge}
use max_one.TwoFactor.{Otp, verify_for_login}
use max_one.Wallets.Reads.{new_wallet}

pub record Services : Type 1 where
  pub host : Host
  pub crypto : Crypto
  pub jwt : Jwt
  pub otp : Otp
  pub family_uuid : ℕ
  pub bcrypt_hash : String → String
  pub bcrypt_compare : String → String → Bool
  -- `DUMMY_PASSWORD_HASH`
  pub dummy_hash : String
  pub to_lower_case : String → String

pub record PublicUser : Type 0 where
  pub id : ℕ
  pub email : String
  pub role : String
  pub first_name : String
  pub last_name : String
  pub handle : Option String

-- `toPublic`
abbrev pub to_public : UserWithRole → PublicUser
to_public u = record {
  id = u.user.id;
  email = u.user.email;
  role = u.role.name;
  first_name = u.user.first_name;
  last_name = u.user.last_name;
  handle = u.user.handle;
}

pub record Session : Type 0 where
  pub user : PublicUser
  pub tokens : Pair

-- What `login` answers.
pub data Outcome (T : Type 0) : Type 0 where
  session : Session → Outcome T
  requires_2fa : T → Outcome T

pub record RegisterDto : Type 0 where
  pub email : String
  pub handle : String
  pub password : String
  pub first_name : String
  pub last_name : String

abbrev pub new_user : RegisterDto → String → String → ℕ → ℕ → User
new_user dto handle password_hash role_id id = record {
  id = id;
  email = dto.email;
  handle = some handle;
  password_hash = password_hash;
  first_name = dto.first_name;
  last_name = dto.last_name;
  status = active;
  totp_secret = none;
  totp_enabled = false;
  totp_recovery_hashes = [];
  role_id = role_id;
}

abbrev pub is_some : {A : Type 0} → Option A → Bool
is_some none = false
is_some (some _) = true

-- `user?.passwordHash ?? DUMMY_PASSWORD_HASH`
abbrev pub hash_of : String → Option UserWithRole → String
hash_of dummy none = dummy
hash_of dummy (some u) = u.user.password_hash

module _ {p : Prisma} where
  abbrev find_by_email_with_role : String → Action p (Option UserWithRole)
  find_by_email_with_role email w =
      (ok (with_role w (p.user.find_first (λ u. str_eq u.email email) w.db.users)), w)

  -- `tx.user.create`
  abbrev create_user : (ℕ → User) → Action p User
  create_user make w =
      let row = make (p.user.fresh w.db.users) in
      (ok row, record w { db = record w.db { users = p.user.insert row w.db.users } })

  -- `assertActive`
  abbrev pub assert_active : UserWithRole → Action p (Unit {0})
  assert_active u =
      throw_if (not (status_eq u.user.status active))
        (forbidden "This account has been suspended. Please contact support.")

module _ {p : Prisma} (s : Services) where
  unfoldable pub create_with_default_wallet : (ℕ → User) → Role → Action p UserWithRole
  create_with_default_wallet make role = in_transaction (do
    user ← create_user make
    create_wallet_row (new_wallet s.host user.id "My Wallet" "USD")
    pure (record { user = user; role = role }))

  -- `issueTokens(user)`, in a new family, and the answer
  unfoldable pub open_session : UserWithRole → Action p Session
  unfolding issue_tokens
  open_session user = do
    tokens ← issue_tokens s.host s.crypto user s.family_uuid
    pure (record { user = to_public user; tokens = tokens })

  unfoldable pub register : RegisterDto → Action p Session
  unfolding create_with_default_wallet open_session
  register dto = do
    existing ← find_by_email dto.email
    throw_if (is_some existing) (conflict "Email already registered")
    taken ← find_by_handle (s.to_lower_case dto.handle)
    throw_if (is_some taken) (conflict "Handle already taken")
    found ← find_role_by_name "user"
    role ← or_throw (failure "No Role found") found
    user ←
        create_with_default_wallet
          (new_user dto (s.to_lower_case dto.handle) (s.bcrypt_hash dto.password) role.id) role
    open_session user

  unfoldable pub login : String → String → Action p (Outcome s.jwt.Token)
  unfolding open_session
  login email password = do
    found ← find_by_email_with_role email
    throw_if (not (s.bcrypt_compare password (hash_of s.dummy_hash found)))
        (unauthorized "Invalid credentials")
    user ← or_throw (unauthorized "Invalid credentials") found
    assert_active user
    if user.user.totp_enabled
        then pure (requires_2fa (issue_2fa_challenge s.jwt s.host.now user.user.id))
        else (do opened ← open_session user; pure (session opened))

  -- `login2fa` after the challenge
  unfoldable pub finish_2fa : ℕ → String → Action p Session
  unfolding open_session verify_for_login
  finish_2fa user_id code = do
    found ← find_by_id_with_permissions user_id
    user ← or_throw (unauthorized "Invalid code") found
    proved ← verify_for_login s.otp user_id code
    throw_if (not proved) (unauthorized "Invalid code")
    assert_active user
    open_session user

  unfoldable pub login_2fa : s.jwt.Token → String → Action p Session
  unfolding finish_2fa verify_2fa_challenge
  login_2fa challenge_token code = elim (verify_2fa_challenge s.jwt s.host.now challenge_token) [
    | err e ↦ throw e
    | ok none ↦ throw (failure "findUnique needs an id")
    | ok (some user_id) ↦ finish_2fa user_id code
  ]

  unfoldable pub login_with_passkey : ℕ → Action p Session
  unfolding open_session
  login_with_passkey user_id = do
    found ← find_by_id_with_permissions user_id
    user ← or_throw (unauthorized "Invalid credentials") found
    assert_active user
    open_session user
