-- ===== src/Push.antt =====
-- backend/src/push/push.service.ts: the browsers of a user, and a push to all of them. The delegate of
-- the table and the web-push library are parameters.
pub mod Sending
pub mod Owners
use max_one.Prelude.{
  ℕ, ◌≡◌, String, Bool, true, false, ◌&&◌, ◌||◌, Option, none, some, List, [], ◌∷◌, ◌++◌, ◌==◌,
  str_eq, length, if◌then◌else◌,
}
use max_one.Prisma.{Delegate, IsLawful, OrderBy, unordered}
use max_one.Schema.{NotificationPayload}

-- The row of backend/prisma/schema.prisma; `endpoint` is unique.
pub record PushSubscription : Type 0 where
  pub id : ℕ
  pub user_id : ℕ
  pub endpoint : String
  pub p256dh : String
  pub auth : String
  pub created_at : ℕ

pub record SubscribeInput : Type 0 where
  pub endpoint : String
  pub p256dh : String
  pub auth : String

-- What `sendNotification` comes to: it returns, or throws, with a status if there was an answer.
pub data Delivery : Type 0 where
  delivered : Delivery
  refused : (status_code : Option ℕ) → (message : Option String) → Delivery

-- The error that is thrown: how many have failed, of how many, and the first failure.
pub record PushFailed : Type 0 where
  pub failed : ℕ
  pub tried : ℕ
  pub first : Delivery

pub record PushState (d : Delegate PushSubscription) : Type 0 where
  pub subscriptions : d.Table
  -- what was handed to the push services, oldest first
  pub pushes : List (PushSubscription × NotificationPayload)

-- `e.statusCode === 410 || e.statusCode === 404`
abbrev pub is_gone : Delivery → Bool
is_gone delivered = false
is_gone (refused none message) = false
is_gone (refused (some code) message) = code == 410 || code == 404

abbrev pub is_transient : Delivery → Bool
is_transient delivered = false
is_transient (refused code message) = if is_gone (refused code message) then false else true

module _ (d : Delegate PushSubscription) where
  abbrev pub claim : ℕ → SubscribeInput → PushSubscription → PushSubscription
  claim actor dto r = record r { user_id = actor; p256dh = dto.p256dh; auth = dto.auth }

  abbrev pub new_subscription : ℕ → ℕ → SubscribeInput → d.Table → PushSubscription
  new_subscription actor now dto t = record {
    id = d.fresh t;
    user_id = actor;
    endpoint = dto.endpoint;
    p256dh = dto.p256dh;
    auth = dto.auth;
    created_at = now;
  }

  abbrev pub has_endpoint : String → PushSubscription → Bool
  has_endpoint endpoint r = str_eq r.endpoint endpoint

  abbrev pub upsert : Option PushSubscription → ℕ → ℕ → SubscribeInput → d.Table → d.Table
  upsert (some r) actor now dto t = d.update (d.key r) (claim actor dto) t
  upsert none actor now dto t = d.insert (new_subscription actor now dto t) t

  -- `upsert({ where: { endpoint } })`
  unfoldable pub subscribe : ℕ → ℕ → SubscribeInput → d.Table → d.Table
  subscribe actor now dto t = upsert (d.find_first (has_endpoint dto.endpoint) t) actor now dto t

  unfoldable pub unsubscribe : ℕ → String → d.Table → d.Table
  unsubscribe actor endpoint t =
      d.delete_many (λ r. str_eq r.endpoint endpoint && r.user_id == actor) t

  abbrev pub subscriptions_of : ℕ → d.Table → List PushSubscription
  subscriptions_of user t = d.find_many (λ r. r.user_id == user) unordered t

  module _ (send_notification : PushSubscription → NotificationPayload → Delivery) where
    -- The body of the `map`: the push, and the row if its browser has unsubscribed
    abbrev pub send : NotificationPayload → PushSubscription → PushState d → PushState d
    send payload sub s = record {
      subscriptions =
          if is_gone (send_notification sub payload)
          then d.delete_many (has_endpoint sub.endpoint) s.subscriptions
          else s.subscriptions;
      pushes = s.pushes ++ (sub, payload) ∷ [];
    }

    unfoldable pub send_all :
        NotificationPayload → List PushSubscription → PushState d → PushState d
    send_all payload [] s = s
    send_all payload (sub ∷ subs) s = send_all payload subs (send payload sub s)

    -- `transient`
    abbrev pub transient : NotificationPayload → List PushSubscription → List Delivery
    transient payload [] = []
    transient payload (sub ∷ subs) =
        let e = send_notification sub payload in
        if is_transient e then e ∷ transient payload subs else transient payload subs

    abbrev pub failure_of : ℕ → List Delivery → Option PushFailed
    failure_of tried [] = none
    failure_of tried (e ∷ es) = some (record { failed = length (e ∷ es); tried = tried; first = e })

    -- `sendToUser`, and the error that it throws
    unfoldable pub send_to_user :
        ℕ → NotificationPayload → PushState d → Option PushFailed × PushState d
    unfolding send_all
    send_to_user user payload s =
        let subs = subscriptions_of user s.subscriptions in
        (failure_of (length subs) (transient payload subs), send_all payload subs s)
