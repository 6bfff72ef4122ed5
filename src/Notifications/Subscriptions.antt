-- ===== src/Notifications/Subscriptions.antt =====
-- backend/src/repositories/push_subscription.rs and backend/src/handlers/push.rs. The parser of URIs is a
-- parameter: the scheme of a text that parses and has one. So are `trim` and the key of the application.
use ymatch.Common.{
  str_eq, ℕ, suc, String, Bool, false, ◌&&◌, Option, none, some, List, [], ◌∷◌, ◌++◌, ◌==◌,
  if◌then◌else◌, select, fetch, exists_row, update, delete,
}
use ymatch.Error.{◌>>=◌, ◌>>◌, Result, ok, err, AppError, constraint_violation}
use ymatch.Rbac.{Authority}
use ymatch.Rbac.Transfer.{known_user}
use ymatch.Rbac.Creation.{trimmed}
use ymatch.Api.{found_or, require_active_query_user}
use ymatch.Notifications.{PushPayload}

pub record PushSubscription : Type 0 where
  pub id : ℕ
  pub user_id : ℕ
  pub endpoint : String
  pub p256dh : String
  pub auth : String
  pub user_agent : Option String

-- The table push_subscriptions in the order of the ids, and every POST that was tried, of which
-- payload to which row.
pub record PushStore : Type 0 where
  pub subscriptions : List PushSubscription
  pub next_id : ℕ
  pub posted : List (PushSubscription × PushPayload)

abbrev pub has_endpoint : String → PushSubscription → Bool
has_endpoint endpoint s = str_eq s.endpoint endpoint

abbrev pub is_owned : ℕ → PushSubscription → Bool
is_owned user_id s = s.user_id == user_id

-- The columns that ON CONFLICT sets.
abbrev pub reassigned : ℕ → String → String → Option String → PushSubscription → PushSubscription
reassigned user_id p256dh key user_agent s = record s {
  user_id = user_id;
  p256dh = p256dh;
  auth = key;
  user_agent = user_agent;
}

abbrev pub new_subscription : ℕ → String → String → String → Option String → ℕ → PushSubscription
new_subscription user_id endpoint p256dh key user_agent id = record {
  id = id;
  user_id = user_id;
  endpoint = endpoint;
  p256dh = p256dh;
  auth = key;
  user_agent = user_agent;
}

-- The row with the endpoint, changed or new; the sequence moves in both cases.
abbrev pub stored :
    Option PushSubscription
    → (PushSubscription → PushSubscription)
    → (ℕ → PushSubscription)
    → String
    → PushStore
    → PushSubscription × PushStore
stored (some s) change new endpoint store = (
  change s,
  record store {
    subscriptions = update (has_endpoint endpoint) change store.subscriptions;
    next_id = suc store.next_id;
  },
)
stored none change new endpoint store = (
  new store.next_id,
  record store {
    subscriptions = store.subscriptions ++ new store.next_id ∷ [];
    next_id = suc store.next_id;
  },
)

unfoldable pub upsert :
    Authority
    → ℕ
    → String
    → String
    → String
    → Option String
    → PushStore
    → Result (PushSubscription × PushStore)
upsert auth user_id endpoint p256dh key user_agent store =
    if known_user user_id auth
    then ok (
        stored (fetch (has_endpoint endpoint) store.subscriptions)
          (reassigned user_id p256dh key user_agent)
          (new_subscription user_id endpoint p256dh key user_agent) endpoint store)
    else err constraint_violation

unfoldable pub list_by_user : ℕ → PushStore → List PushSubscription
list_by_user user_id store = select (is_owned user_id) store.subscriptions

abbrev pub is_at_endpoint : ℕ → String → PushSubscription → Bool
is_at_endpoint user_id endpoint s = is_owned user_id s && has_endpoint endpoint s

unfoldable pub delete_by_endpoint : ℕ → String → PushStore → Bool × PushStore
delete_by_endpoint user_id endpoint store = (
  exists_row (is_at_endpoint user_id endpoint) store.subscriptions,
  record store { subscriptions = delete (is_at_endpoint user_id endpoint) store.subscriptions },
)

-- `UpsertPushSubscriptionRequest` with its keys.
pub record PushSubscriptionKeys : Type 0 where
  pub p256dh : Option String
  pub auth : Option String

pub record UpsertPushSubscriptionRequest : Type 0 where
  pub endpoint : Option String
  pub keys : Option PushSubscriptionKeys
  pub user_agent : Option String

abbrev or_required : Option String → String → Result String
or_required none field = err (AppError.bad_request (Prim.Native.String.◌++◌ field " is required"))
or_required (some s) field = ok s

unfoldable pub require_nonempty : (String → String) → Option String → String → Result String
require_nonempty trim value field = or_required (trimmed trim value) field

abbrev is_https : Option String → Bool
is_https none = false
is_https (some scheme) = str_eq scheme "https"

unfoldable pub require_https_endpoint : (String → Option String) → String → Result (Unit {0})
require_https_endpoint scheme endpoint =
    if is_https (scheme endpoint)
    then ok tt
    else err (AppError.bad_request "endpoint must be an https URL")

abbrev pub given_keys : Option PushSubscriptionKeys → Result PushSubscriptionKeys
given_keys none = err (AppError.bad_request "keys is required")
given_keys (some keys) = ok keys

unfoldable pub upsert_push_subscription :
    (String → String)
    → (String → Option String)
    → Option ℕ
    → UpsertPushSubscriptionRequest
    → Authority
    → PushStore
    → Result (PushSubscription × PushStore)
unfolding require_nonempty require_https_endpoint upsert
upsert_push_subscription trim scheme query_user_id body auth store = do
  user ← require_active_query_user query_user_id auth
  endpoint ← require_nonempty trim body.endpoint "endpoint"
  require_https_endpoint scheme endpoint
  keys ← given_keys body.keys
  p256dh ← require_nonempty trim keys.p256dh "keys.p256dh"
  key ← require_nonempty trim keys.auth "keys.auth"
  upsert auth user.id endpoint p256dh key (trimmed (λ s. s) body.user_agent) store

unfoldable pub delete_push_subscription :
    (String → String) → Option ℕ → Option String → Authority → PushStore → Result (Bool × PushStore)
unfolding require_nonempty delete_by_endpoint
delete_push_subscription trim query_user_id endpoint auth store = do
  user ← require_active_query_user query_user_id auth
  stored_endpoint ← require_nonempty trim endpoint "endpoint"
  ok (delete_by_endpoint user.id stored_endpoint store)

-- `get_vapid_public_key`
unfoldable pub get_vapid_public_key : Option String → Result String
get_vapid_public_key key = found_or (trimmed (λ s. s) key) "VAPID not configured"
