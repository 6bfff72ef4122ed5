-- ===== src/Examples/Pushing.antt =====
-- Notifications and subscriptions on small tables.
use ymatch.Common.{
  str_eq, ℕ, ◌≤◌, String, ◌≡◌, refl, inl, true, Option, none, some, List, [], ◌∷◌, arith,
  if◌then◌else◌, select,
}
use ymatch.Notifications.{
  PushPayload, truncate_preview, message_received_body, ◌<>◌, show, digits, is_whitespace,
  split_whitespace, join, take_chars, has_more, to_ascii_lowercase, codes,
}
use ymatch.Notifications.Preview.{OnLine, AllChars, count, truncate_preview-OnLine}
use ymatch.Notifications.Location.{message_received_body-redacted}
use ymatch.Notifications.Subscriptions.{PushSubscription, PushStore, list_by_user}
use ymatch.Notifications.Reassigned.{OnePer, Assigns}
use ymatch.Notifications.Subscriptions.{UpsertPushSubscriptionRequest, upsert_push_subscription}
use ymatch.Notifications.Deliver.{not_built, answered, Reply, notify_user}
use ymatch.Notifications.Delivered.{notify_user-lem, sent_at_once}
use ymatch.Notifications.Owners.{
  PushCall, subscribes, unsubscribes, notifies, serve_pushes, serve_pushes-OnePer,
}
use ymatch.Examples.Roles.{auth}

show_run : show 1205 ≡ "1205"
unfolding digits
show_run = refl

preview_run : truncate_preview "  hello\n  there " ≡ "hello there"
unfolding truncate_preview split_whitespace is_whitespace join take_chars has_more
preview_run = refl

truncate_preview-OnLine_example :
    (count (truncate_preview "hello\nthere") ≤ 81)
    × AllChars OnLine (truncate_preview "hello\nthere")
truncate_preview-OnLine_example = truncate_preview-OnLine "hello\nthere"

a_link : to_ascii_lowercase "Maps.App.Goo.GL" ≡ codes "maps.app.goo.gl"
unfolding to_ascii_lowercase
a_link = refl

message_received_body-redacted_example :
    message_received_body "alice" (some "TEXT") ("at https://" <> ("Maps.App.Goo.GL" <> "/35.0"))
    ≡ "alice" <> " shared a location"
message_received_body-redacted_example =
    message_received_body-redacted "alice" (some "TEXT") "at https://" "Maps.App.Goo.GL" "/35.0"
      (inl a_link)

abbrev subscription : ℕ → ℕ → String → PushSubscription
subscription id user_id endpoint = record {
  id = id;
  user_id = user_id;
  endpoint = endpoint;
  p256dh = "k";
  auth = "a";
  user_agent = none;
}

abbrev store : PushStore
store = record {
  subscriptions =
      subscription 1 1 "e1"
      ∷ subscription 2 1 "e2"
      ∷ subscription 3 2 "e3"
      ∷ subscription 4 1 "e4"
      ∷ [];
  next_id = 5;
  posted = [];
}

abbrev payload : PushPayload
payload = record { title = "New offer"; body = "b"; path = "/matches/chat/7" }

-- The endpoint e1 is gone, no message can be built for e2, and the others take what they are sent.
abbrev respond : PushSubscription → PushPayload → Reply
respond s p =
    if str_eq s.endpoint "e1"
    then answered 410
    else if str_eq s.endpoint "e2"
    then not_built
    else answered 201

notify_user-lem_example :
    notify_user respond true 1 payload store
    ≡ sent_at_once respond payload 1 (list_by_user 1 store) store
notify_user-lem_example = notify_user-lem respond payload true 1 store

abbrev browser_moves : List PushCall
browser_moves =
    subscribes auth (some 2) (record {
      endpoint = some "e2";
      keys = some (record { p256dh = some "k2"; auth = some "a2" });
      user_agent = none;
    })
    ∷ notifies true 1 payload
    ∷ unsubscribes auth (some 2) (some "e3")
    ∷ []

abbrev https : String → Option String
https s = some "https"

abbrev plain : String → String
plain s = s

abbrev empty_store : PushStore
empty_store = record { subscriptions = []; next_id = 1; posted = [] }

nobody-OnePer : OnePer empty_store
unfolding select
nobody-OnePer endpoint = omega arith

abbrev moved_browser : UpsertPushSubscriptionRequest
moved_browser = record {
  endpoint = some "e2";
  keys = some (record { p256dh = some "k1"; auth = some "a1" });
  user_agent = none;
}

abbrev after_moves : PushStore
after_moves = serve_pushes plain https respond browser_moves empty_store

serve_pushes-OnePer_example :
    OnePer after_moves
    × Assigns
        (some 1)
        after_moves
        (upsert_push_subscription plain https (some 1) moved_browser auth after_moves)
serve_pushes-OnePer_example =
    serve_pushes-OnePer plain https respond browser_moves auth (some 1) moved_browser empty_store
      nobody-OnePer
