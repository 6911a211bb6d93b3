-- ===== src/Tokens/Permission.antt =====
-- When `rotate` of backend/src/auth/tokens.service.ts gives a pair.
use max_one.Prelude.{
  ℕ, ◌+◌, ◌≤◌, ◌<◌, ◌≡◌, ◌⊎◌, ap, ◌∙◌, String, none, some, arith, inl, inr, Option-cases,
}
use max_one.Exec.{Result-cases, ok}
use max_one.Schema.{active}
use max_one.World.{Prisma, World, Host}
use max_one.Tokens.{
  Crypto, Pair, Held, reuse_grace_ms, issue_tokens, claim_and_issue, rotate_held, rotate, find_held,
}

-- What stood in the database when a rotation went through.
pub record Permitted {p : Prisma} (host : Host) (crypto : Crypto) (raw : String) (w : World p)
    : Type 0 where
  pub held : Held
  pub found : (find_held host crypto raw w).0 ≡ ok (some held)
  pub live : held.user.user.status ≡ active
  pub timely :
      ((held.token.used_at ≡ none) × (host.now ≤ held.token.expires_at))
      ⊎ ((used_at : ℕ) × (held.token.used_at ≡ some used_at)
          × (host.now < used_at + reuse_grace_ms))

find_held_reads :
    {p : Prisma} (host : Host) (crypto : Crypto) (raw : String) (w : World p)
    → (find_held host crypto raw w).1 ≡ w
find_held_reads host crypto raw w = ground arith

rotate_held_permitted :
    {p : Prisma} (host : Host) (crypto : Crypto) (held : Held) (w : World p) {pair : Pair}
    → (rotate_held host crypto held w).0 ≡ ok pair
    → (held.user.user.status ≡ active)
      × (((held.token.used_at ≡ none) × (host.now ≤ held.token.expires_at))
          ⊎ ((used_at : ℕ) × (held.token.used_at ≡ some used_at)
              × (host.now < used_at + reuse_grace_ms)))
unfolding rotate_held claim_and_issue issue_tokens
rotate_held_permitted host crypto held w h = elim (Option-cases held.token.used_at) [
  | inl unused ↦ (ground arith, inl (unused, ground arith))
  | inr (used_at, used) ↦ (ground arith, inr (used_at, used, ground arith))
]

-- A refresh token is exchanged only if its row is there, its user is active, and it is either
-- unused and not expired, or was used within the grace window.
pub rotate-Permitted :
    {p : Prisma} (host : Host) (crypto : Crypto) (raw : String) (w : World p) {pair : Pair}
    → (rotate host crypto raw w).0 ≡ ok pair
    → Permitted host crypto raw w
unfolding rotate
rotate-Permitted host crypto raw w {pair} h = elim (Result-cases (find_held host crypto raw w).0) [
  | inr (e, failed) ↦ absurd (ground (arith, failed))
  | inl (answer, found) ↦ elim (Option-cases answer) [
    | inl missing ↦ absurd (ground (arith, found, missing))
    | inr (held, at) ↦
        let (live, timely) =
          rotate_held_permitted host crypto held w {pair = pair}
            (ground (arith, found, at, find_held_reads host crypto raw w)) in
        record { held = held; found = found ∙ ap ok at; live = live; timely = timely }
  ]
]
