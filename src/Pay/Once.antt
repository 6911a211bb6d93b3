-- ===== src/Pay/Once.antt =====
-- Sent once (customer/components/pay/send-money-wizard.tsx over backend/src/idempotency/).
use max_one.Prelude.{
  ℕ, ◌+◌, ◌≤◌, ◌≡◌, refl, sym, ap, ◌∙◌, String, Bool, true, false, Option, none, some, List, [],
  ◌∷◌, ◌==◌, if◌then◌else◌, arith, inl, inr, Bool-cases, Option-cases, All, All-map,
}
use max_one.Exec.{ok}
use max_one.Schema.{Json}
use max_one.World.{Prisma, IsPrisma, World, Host, Action}
use max_one.Idempotency.{Req, Response, has_key, ttl_ms, stored, intercept, present}
use max_one.Idempotency.Laws.{intercept_replays}
use max_one.Pay.{Wizard, Settings, body_to_send, recipient, is_ok, key_or, finish_send}
use max_one.Pay.Attempts.{Wire, request_of, attempt, attempts, arrives, unanswered, answered}

abbrev user_of : Option Req → Option ℕ
user_of none = none
user_of (some req) = req.user

abbrev named_key : Option Req → Option String
named_key none = none
named_key (some req) = req.key

module _ (settings : Settings) (wire : Wire) (user_id : ℕ) where
  -- The request of the button is the user's, under the key of the send.
  request_of-key :
      (fresh : String) (s : Wizard) (req : Req)
      → request_of settings wire user_id fresh s ≡ some req
      → (req.user ≡ some user_id) × (req.key ≡ some (key_or s.key fresh))
  request_of-key fresh s req e = elim (Bool-cases (s.step == 2)) [
    | inr elsewhere ↦ absurd (ground (arith, elsewhere, e))
    | inl confirming ↦ elim (Option-cases (body_to_send settings (recipient settings s) s.values)) [
      | inl nobody ↦ absurd (ground (arith, confirming, nobody, e))
      | inr (body, there) ↦
          let e' : request_of settings wire user_id fresh s
              ≡ some (record {
                user = some user_id;
                key = some (key_or s.key fresh);
                method = "POST";
                url = wire.url settings.my_wallet_id;
                body = wire.json body;
              }) =
            rw (confirming, there) refl in
          let same = sym e' ∙ e in (sym (ap user_of same), sym (ap named_key same))
    ]
  ]

  module _ {p : Prisma} (sha256 : String → String) (handler : Action p (Option Json))
      (fresh : String) where
    -- On the third step there is no button.
    attempts-answered :
        (later : List (Host × Bool)) (data_ : Json) (s : Wizard) (w : World p)
        → attempts settings wire user_id sha256 handler later fresh (answered data_ s) w
          ≡ (answered data_ s, w)
    unfolding attempts
    attempts-answered [] data_ s w = refl
    attempts-answered ((host, lost) ∷ later) data_ s w = attempts-answered later data_ s w

    attempt_settled :
        (host : Host) (lost : Bool) (s : Wizard) (w w' : World p) (req : Req) (response : Response)
        → request_of settings wire user_id fresh s ≡ some req
        → intercept host sha256 true req 201 handler w ≡ (ok response, w')
        → is_ok response.status_code ≡ true
        → attempt settings wire user_id sha256 handler host lost fresh s w ≡ (
          if lost then unanswered (key_or s.key fresh) s else answered (stored response.body) s,
          w',
        )
    unfolding attempt finish_send
    attempt_settled host true s w w' req response asked ran fine = rw (asked, ran) refl
    attempt_settled host false s w w' req response asked ran fine = rw (asked, ran, fine) refl

    -- Once the server has answered, whatever comes later changes nothing there.
    attempts-replayed :
        (key : String) (req : Req) (response : Response) (w : World p) (s : Wizard)
        → request_of settings wire user_id fresh (unanswered key s) ≡ some req
        → is_ok response.status_code ≡ true
        → (later : List (Host × Bool))
        → All
            (λ h. intercept h.0 sha256 true req 201 handler w ≡ (
              ok (record {
                status_code = response.status_code;
                body = some (stored response.body);
              }),
              w,
            ))
            later
        → attempts settings wire user_id sha256 handler later fresh (unanswered key s) w
          ≡ (if arrives later then answered (stored response.body) s else unanswered key s, w)
    unfolding attempts
    attempts-replayed key req response w s asked fine [] h = refl
    attempts-replayed key req response w s asked fine ((host, true) ∷ later) h =
        let one =
          attempt_settled host true (unanswered key s) w w req
            (record { status_code = response.status_code; body = some (stored response.body) })
            asked h.0 fine in
        rw one (attempts-replayed key req response w s asked fine later h.1)
    attempts-replayed key req response w s asked fine ((host, false) ∷ later) h =
        let one =
          attempt_settled host false (unanswered key s) w w req
            (record { status_code = response.status_code; body = some (stored response.body) })
            asked h.0 fine in
        rw one (attempts-answered later (stored response.body) s w)

    -- The wizard confirms a send under a key that the backend has not seen, and the first request
    -- of it goes through there, by a handler that leaves the table of keys alone. However often
    -- the button is pressed again within the day, and whichever replies are lost: the world stays
    -- as that first request left it, and the wizard keeps its key and its step until a reply
    -- arrives, at which it shows the result of the first request and lets the key go.
    pub attempts_once :
        (host : Host) (lost : Bool) (later : List (Host × Bool)) (s : Wizard) (w : World p)
        (req : Req) (response : Response)
        → IsPrisma p
        → ((v : World p) → (handler v).1.db.idempotency_keys ≡ v.db.idempotency_keys)
        → request_of settings wire user_id fresh s ≡ some req
        → present req.key ≡ some (key_or s.key fresh)
        → p.idempotency_key.find_first (has_key user_id (key_or s.key fresh)) w.db.idempotency_keys
          ≡ none
        → (intercept host sha256 true req 201 handler w).0 ≡ ok response
        → is_ok response.status_code ≡ true
        → All (λ h. h.0.now ≤ host.now + ttl_ms) later
        → attempts settings wire user_id sha256 handler ((host, lost) ∷ later) fresh s w ≡ (
          if arrives ((host, lost) ∷ later)
              then answered (stored response.body) s
              else unanswered (key_or s.key fresh) s,
          (intercept host sha256 true req 201 handler w).1,
        )
    unfolding attempts
    attempts_once host lost later s w req response lawful keeps asked named unused done fine soon =
        let key = key_or s.key fresh in
        let w' = (intercept host sha256 true req 201 handler w).1 in
        let (user, _) = request_of-key fresh s req asked in
        let ran : intercept host sha256 true req 201 handler w ≡ (ok response, w') =
          ap (λ r. (r, w')) done in
        let first = attempt_settled host lost s w w' req response asked ran fine in
        let replay =
          All-map (λ (h : Host × Bool). h.0.now ≤ host.now + ttl_ms)
            (λ h. intercept h.0 sha256 true req 201 handler w' ≡ (
              ok (record {
                status_code = response.status_code;
                body = some (stored response.body);
              }),
              w',
            ))
            later
            (λ h near.
              intercept_replays host sha256 true req 201 handler w lawful named user unused keeps
                h.0 true 201 handler near done)
            soon in
        elim (Bool-cases lost) [
          | inl gone ↦
              rw (first, gone) (attempts-replayed key req response w' s asked fine later replay)
          | inr here ↦ rw (first, here) (attempts-answered later (stored response.body) s w')
        ]
