-- ===== src/Notifications/Deliver.antt =====
-- `notify_user` and what calls it, with `send_to_subscription` of backend/src/notifications/web_push.rs. Whether
-- a message can be built, and what the push service answers to it, is a parameter.
use ymatch.Store.{UserRow}
use ymatch.Common.{
  true, false, leb, ℕ, String, Bool, ◌&&◌, ◌||◌, Option, none, some, List, [], ◌∷◌, ◌++◌, ◌==◌,
  if◌then◌else◌,
}
use ymatch.Rbac.{Authority}
use ymatch.Rbac.Users.{get_by_id}
use ymatch.Lifecycle.{Notice}
use ymatch.Notifications.{
  PushPayload, offer_received_payload, offer_accepted_payload, match_notification_payload,
}
use ymatch.Notifications.Subscriptions.{
  PushSubscription, PushStore, list_by_user, delete_by_endpoint,
}

-- `SendOutcome`, and the errors as one.
pub data Sent : Type 0 where
  delivered gone failed : Sent

-- What comes of one call: `build_message` fails, the request cannot be sent, or its answer has a status.
pub data Reply : Type 0 where
  not_built not_sent : Reply
  answered : ℕ → Reply

abbrev Respond : Type 0
Respond = PushSubscription → PushPayload → Reply

-- The match at the end of `post_message`.
unfoldable pub outcome : Reply → Sent
outcome not_built = failed
outcome not_sent = failed
outcome (answered status) =
    if leb 200 status && leb status 299
    then delivered
    else if status == 404 || status == 410
    then gone
    else failed

abbrev pub after_send : Sent → ℕ → PushSubscription → PushStore → PushStore
after_send gone user_id s store = (delete_by_endpoint user_id s.endpoint store).1
after_send delivered user_id s store = store
after_send failed user_id s store = store

-- A message that is not built is not posted.
abbrev pub is_built : Reply → Bool
is_built not_built = false
is_built not_sent = true
is_built (answered status) = true

abbrev pub posted_to : Reply → PushSubscription → PushPayload → PushStore → PushStore
posted_to reply s payload store =
    if is_built reply then record store { posted = store.posted ++ (s, payload) ∷ [] } else store

module _ (respond : Respond) where
  unfoldable pub send_all : ℕ → PushPayload → List PushSubscription → PushStore → PushStore
  unfolding outcome delete_by_endpoint
  send_all user_id payload [] store = store
  send_all user_id payload (s ∷ subs) store = send_all user_id payload subs (
      after_send (outcome (respond s payload)) user_id s
        (posted_to (respond s payload) s payload store))

  -- `enabled` is `is_enabled`: whether the key of the application is set.
  unfoldable pub notify_user : Bool → ℕ → PushPayload → PushStore → PushStore
  unfolding send_all list_by_user
  notify_user enabled user_id payload store =
      if enabled then send_all user_id payload (list_by_user user_id store) store else store

  abbrev from_known : Bool → ℕ → (String → PushPayload) → Option UserRow → PushStore → PushStore
  from_known enabled recipient_id build_payload none store = store
  from_known enabled recipient_id build_payload (some actor) store =
      notify_user enabled recipient_id (build_payload actor.username) store

  unfoldable pub notify_from_actor :
      Bool → Authority → ℕ → ℕ → (String → PushPayload) → PushStore → PushStore
  unfolding notify_user
  notify_from_actor enabled auth recipient_id actor_id build_payload store =
      if recipient_id == actor_id
      then store
      else from_known enabled recipient_id build_payload (get_by_id actor_id auth) store

  abbrev to_both : Bool → Option UserRow → Option UserRow → PushStore → PushStore
  to_both enabled (some u1) (some u2) store =
      notify_user enabled u2.id (match_notification_payload u1.username)
        (notify_user enabled u1.id (match_notification_payload u2.username) store)
  to_both enabled _ _ store = store

  -- `notify_pair` of matching.rs
  unfoldable pub notify_pair : Bool → Authority → ℕ → ℕ → PushStore → PushStore
  unfolding notify_user
  notify_pair enabled auth user_a user_b store =
      to_both enabled (get_by_id user_a auth) (get_by_id user_b auth) store

  -- What `offer` and `change_status` schedule, and `send_message` by way of its caller.
  unfoldable pub deliver_notice : Bool → Authority → Notice → PushStore → PushStore
  unfolding notify_from_actor
  deliver_notice enabled auth (Notice.offer_received recipient_id actor_id match_id) store =
      notify_from_actor enabled auth recipient_id actor_id
        (λ username. offer_received_payload username match_id) store
  deliver_notice enabled auth (Notice.offer_accepted recipient_id actor_id match_id) store =
      notify_from_actor enabled auth recipient_id actor_id
        (λ username. offer_accepted_payload username match_id) store
