-- ===== src/Api/Trades.antt =====
-- backend/src/handlers/matches.rs, inventory.rs and the end of `send_message`: the engine with the notifications that
-- follow a commit. A notification runs after its request here; none can fail a request.
use ymatch.Common.{ℕ, String, Bool, Option, List, [], ◌∷◌}
use ymatch.Error.{Result, ok, err}
use ymatch.Common.Int.{ℤ}
use ymatch.Store.{Db, Status, Holding, MessageRow}
use ymatch.Store.Inventory.{InventoryItem}
use ymatch.Store.Matches.{OfferItem}
use ymatch.Lifecycle.{Notice, offer, change_status, apply_inventory, update_inventory}
use ymatch.Projection.{list_inventory_with_projection}
use ymatch.Catalog.{Site}
use ymatch.Catalog.Lists.{list_for_event}
use ymatch.Catalog.{Merchandise}
use ymatch.Cards.{TradeMatch, NotificationCounts, list_for_user, notification_counts}
use ymatch.Notifications.{PushPayload, message_received_payload}
use ymatch.Notifications.Subscriptions.{PushSubscription, PushStore}
use ymatch.Notifications.Deliver.{Reply, deliver_notice, notify_from_actor}
use ymatch.Api.Messages.{send_message}

-- The database and what was pushed.
pub record Service : Type 0 where
  pub site : Site
  pub pushes : PushStore

abbrev pub without_push : {A : Type 0} → Result (A × Db) → Service → Result (A × Service)
without_push (err e) service = err e
without_push (ok (a, db)) service =
    ok (a, record service { site = record service.site { db = db } })

module _ (respond : PushSubscription → PushPayload → Reply) (enabled : Bool) where
  unfoldable pub deliver_all : List Notice → Service → Service
  deliver_all [] service = service
  deliver_all (notice ∷ notices) service = deliver_all notices (record service {
    pushes = deliver_notice respond enabled service.site.auth notice service.pushes;
  })

  abbrev pub then_push : Result (List Notice × Db) → Service → Result Service
  then_push (err e) service = err e
  then_push (ok (notices, db)) service =
      ok (deliver_all notices (record service { site = record service.site { db = db } }))

  unfoldable pub offer_trade : ℕ → ℕ → List OfferItem → Service → Result Service
  unfolding deliver_all
  offer_trade match_id user_id items service =
      then_push (offer match_id user_id items service.site.db) service

  unfoldable pub update_match_status : ℕ → ℕ → Status → Service → Result Service
  unfolding deliver_all
  update_match_status match_id user_id status service =
      then_push (change_status match_id user_id status service.site.db) service

  unfoldable pub message_pushed : ℕ → String → Option String → ℕ × ℕ → Service → Service
  message_pushed match_id content message_type (recipient_id, actor_id) service = record service {
    pushes =
        notify_from_actor respond enabled service.site.auth recipient_id actor_id
          (λ username. message_received_payload username match_id message_type content)
          service.pushes;
  }

  abbrev then_tell :
      ℕ
      → String
      → Option String
      → Result ((MessageRow × (ℕ × ℕ)) × Db)
      → Service
      → Result (MessageRow × Service)
  then_tell match_id content message_type (err e) service = err e
  then_tell match_id content message_type (ok ((message, parties), db)) service = ok (
    message,
    message_pushed match_id content message_type parties
        (record service { site = record service.site { db = db } }),
  )

  unfoldable pub post_message :
      ℕ → ℕ → String → Option String → Service → Result (MessageRow × Service)
  unfolding message_pushed
  post_message match_id sender_id content message_type service =
      then_tell match_id content message_type
        (send_message service.site.auth match_id sender_id content message_type service.site.db)
        service

unfoldable pub apply_trade_inventory : ℕ → ℕ → Bool → Service → Result (Unit {0} × Service)
apply_trade_inventory match_id user_id skip_have_decrement service =
    without_push (apply_inventory match_id user_id skip_have_decrement service.site.db) service

unfoldable pub put_inventory : ℕ → ℕ → Holding → ℤ → Service → Result (InventoryItem × Service)
put_inventory user_id merch_id status quantity service =
    without_push (update_inventory user_id merch_id status quantity service.site.db) service

unfoldable pub get_user_inventory : ℕ → Service → Result (List InventoryItem)
get_user_inventory user_id service = ok (list_inventory_with_projection user_id service.site.db)

unfoldable pub list_matches : ℕ → Service → Result (List TradeMatch)
list_matches user_id service = ok (list_for_user user_id service.site)

unfoldable pub match_notification_counts : ℕ → Service → Result NotificationCounts
match_notification_counts user_id service = ok (notification_counts user_id service.site.db)

-- `list_merch` of handlers/merch.rs
unfoldable pub list_merch : ℕ → Option ℕ → Service → Result (List Merchandise)
list_merch event_id viewer_id service = ok (list_for_event event_id viewer_id service.site)
