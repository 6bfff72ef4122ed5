-- ===== src/Notifications/Owners.antt =====
-- A browser has one subscription, of one user, whatever requests and notifications come.
use ymatch.Notifications.Delivered.{shares_dead, notify_user-lem}
use ymatch.Common.{
  false, str_eq_iff, str_eq, ℕ, ◌+◌, ◌≤◌, String, ◌≡◌, refl, inl, inr, Bool, true, Option, none,
  List, [], ◌∷◌, ◌++◌, arith, if◌then◌else◌, Bool-cases, Option-cases, select, fetch, update,
  delete,
}
use ymatch.Error.{◌>>=◌, Result, ok, err}
use ymatch.Rbac.{Authority}
use ymatch.Rbac.Transfer.{known_user}
use ymatch.Notifications.{PushPayload}
use ymatch.Api.{require_active_query_user}
use ymatch.Rbac.Creation.{trimmed}
use ymatch.Notifications.Subscriptions.{
  list_by_user, is_at_endpoint, delete_by_endpoint, require_nonempty, require_https_endpoint,
  given_keys, PushSubscription, PushStore, has_endpoint, upsert, reassigned, new_subscription,
  upsert_push_subscription, delete_push_subscription, UpsertPushSubscriptionRequest,
}
use ymatch.Notifications.Reassigned.{kept, rows_at, OnePer, Assigns, request-Assigns}
use ymatch.Notifications.Deliver.{Reply, notify_user}

-- A request or a notification, with the tables of users as it finds them.
pub data PushCall : Type 0 where
  subscribes : Authority → Option ℕ → UpsertPushSubscriptionRequest → PushCall
  unsubscribes : Authority → Option ℕ → Option String → PushCall
  notifies : Bool → ℕ → PushPayload → PushCall

module _ (trim : String → String) (scheme : String → Option String)
    (respond : PushSubscription → PushPayload → Reply) where
  unfoldable pub serve_push : PushCall → PushStore → PushStore
  unfolding upsert_push_subscription delete_push_subscription
  serve_push (subscribes auth query_user_id body) store =
      kept (upsert_push_subscription trim scheme query_user_id body auth store) store
  serve_push (unsubscribes auth query_user_id endpoint) store =
      kept (delete_push_subscription trim query_user_id endpoint auth store) store
  serve_push (notifies enabled user_id payload) store =
      notify_user respond enabled user_id payload store

  unfoldable pub serve_pushes : List PushCall → PushStore → PushStore
  unfolding serve_push
  serve_pushes [] store = store
  serve_pushes (call ∷ calls) store = serve_pushes calls (serve_push call store)

rows_at-append :
    (endpoint : String) (rows : List PushSubscription) (s : PushSubscription)
    → rows_at endpoint (rows ++ s ∷ [])
      ≡ rows_at endpoint rows + (if has_endpoint endpoint s then 1 else 0)
unfolding select
rows_at-append endpoint [] s = ground arith
rows_at-append endpoint (r ∷ rs) s = let rest = rows_at-append endpoint rs s in ground arith

rows_at-update :
    (endpoint : String) (test : PushSubscription → Bool)
    (change : PushSubscription → PushSubscription) (rows : List PushSubscription)
    → ((s : PushSubscription) → has_endpoint endpoint (change s) ≡ has_endpoint endpoint s)
    → rows_at endpoint (update test change rows) ≡ rows_at endpoint rows
unfolding select update
rows_at-update endpoint test change [] same = refl
rows_at-update endpoint test change (r ∷ rs) same =
    let rest = rows_at-update endpoint test change rs same in
    let at_r = same r in
    elim (Bool-cases (test r)) [
      | inl hit ↦ rw hit (rw at_r (ground arith))
      | inr miss ↦ rw miss (ground arith)
    ]

rows_at-delete :
    (endpoint : String) (test : PushSubscription → Bool) (rows : List PushSubscription)
    → rows_at endpoint (delete test rows) ≤ rows_at endpoint rows
unfolding select delete
rows_at-delete endpoint test [] = omega arith
rows_at-delete endpoint test (r ∷ rs) = let rest = rows_at-delete endpoint test rs in ground arith

rows_at-none :
    (endpoint : String) (rows : List PushSubscription)
    → fetch (has_endpoint endpoint) rows ≡ none
    → rows_at endpoint rows ≡ 0
unfolding select fetch
rows_at-none endpoint [] gone = refl
rows_at-none endpoint (r ∷ rs) gone = elim (Bool-cases (has_endpoint endpoint r)) [
  | inl hit ↦ absurd (let found = rw hit at gone in cc)
  | inr miss ↦ rw miss (rows_at-none endpoint rs (rw miss at gone))
]

upsert-OnePer :
    (auth : Authority) (user_id : ℕ) (endpoint p256dh key : String) (agent : Option String)
    (store : PushStore)
    → OnePer store
    → OnePer (kept (upsert auth user_id endpoint p256dh key agent store) store)
unfolding upsert
upsert-OnePer auth user_id endpoint p256dh key agent store one ep =
    elim (Bool-cases (known_user user_id auth)) [
      | inl known ↦ elim (Option-cases (fetch (has_endpoint endpoint) store.subscriptions)) [
        | inl fresh ↦
            rw (known, fresh)
              (at_most ep
                (rows_at-append ep store.subscriptions
                  (new_subscription user_id endpoint p256dh key agent store.next_id))
                (one ep)
                (λ same.
                  rows_at-none ep store.subscriptions
                    (rw (← (str_eq_iff endpoint ep).0 same) fresh)))
        | inr (s, there) ↦
            rw (known, there)
              (rw
                (rows_at-update ep (has_endpoint endpoint) (reassigned user_id p256dh key agent)
                  store.subscriptions (λ s. refl))
                (one ep))
      ]
      | inr unknown ↦ rw unknown (one ep)
    ]
  where
    at_most :
        (ep : String) {n m : ℕ}
        → m ≡ n + (if str_eq endpoint ep then 1 else 0)
        → n ≤ 1
        → (str_eq endpoint ep ≡ true → n ≡ 0)
        → m ≤ 1
    at_most ep h below none_there = elim (Bool-cases (str_eq endpoint ep)) [
      | inl same ↦ let zero_there = none_there same in let sum = rw same at h in omega arith
      | inr other ↦ let sum = rw other at h in omega arith
    ]

below : {a b : ℕ} → a ≤ b → b ≤ 1 → a ≤ 1
below p q = omega arith

-- A request that fails at a gate leaves the table as it is.
kept-bind {ℓ} :
    {A : Type ℓ} {B : Type 0} (P : PushStore → Type 0) (store : PushStore) (gate : Result A)
    (next : A → Result (B × PushStore))
    → P store
    → ((a : A) → P (kept (next a) store))
    → P (kept (gate >>= next) store)
kept-bind P store (ok a) next now after = after a
kept-bind P store (err e) next now after = now

module _ (trim : String → String) (scheme : String → Option String)
    (respond : PushSubscription → PushPayload → Reply) where
  notify_user-OnePer :
      (enabled : Bool) (user_id : ℕ) (payload : PushPayload) (store : PushStore)
      → OnePer store
      → OnePer (notify_user respond enabled user_id payload store)
  notify_user-OnePer enabled user_id payload store one ep = elim (Bool-cases enabled) [
    | inl sends ↦
        rw (sends, notify_user-lem respond payload true user_id store)
          (below
            (rows_at-delete ep (shares_dead respond payload user_id (list_by_user user_id store))
              store.subscriptions)
            (one ep))
    | inr off ↦ rw (off, notify_user-lem respond payload false user_id store) (one ep)
  ]

  serve_push-OnePer :
      (call : PushCall) (store : PushStore)
      → OnePer store
      → OnePer (serve_push trim scheme respond call store)
  unfolding serve_push upsert_push_subscription delete_push_subscription delete_by_endpoint
  serve_push-OnePer (subscribes auth query_user_id body) store one =
      kept-bind OnePer store (require_active_query_user query_user_id auth) _ one λ user.
        kept-bind OnePer store (require_nonempty trim body.endpoint "endpoint") _ one λ endpoint.
          kept-bind OnePer store (require_https_endpoint scheme endpoint) _ one λ _.
            kept-bind OnePer store (given_keys body.keys) _ one λ keys.
              kept-bind OnePer store (require_nonempty trim keys.p256dh "keys.p256dh") _ one
                λ p256dh.
                  kept-bind OnePer store (require_nonempty trim keys.auth "keys.auth") _ one λ key.
                    upsert-OnePer auth user.id endpoint p256dh key
                      (trimmed (λ s. s) body.user_agent) store one
  serve_push-OnePer (unsubscribes auth query_user_id endpoint) store one =
      kept-bind OnePer store (require_active_query_user query_user_id auth) _ one λ user.
        kept-bind OnePer store (require_nonempty trim endpoint "endpoint") _ one λ at ep.
          below (rows_at-delete ep (is_at_endpoint user.id at) store.subscriptions) (one ep)
  serve_push-OnePer (notifies enabled user_id payload) store one =
      notify_user-OnePer enabled user_id payload store one

  stays-OnePer :
      (calls : List PushCall) (store : PushStore)
      → OnePer store
      → OnePer (serve_pushes trim scheme respond calls store)
  unfolding serve_pushes
  stays-OnePer [] store one = one
  stays-OnePer (call ∷ calls) store one =
      stays-OnePer calls (serve_push trim scheme respond call store)
        (serve_push-OnePer call store one)

  -- Whatever requests and notifications come, in any order, and whatever they are answered, a table with at
  -- most one subscription for each endpoint keeps it so; and a request to subscribe that succeeds then makes
  -- the caller the only user at the endpoint of the row that it returns, whoever was there, and changes the
  -- users at no other endpoint, while one that fails changes them at none.
  pub serve_pushes-OnePer :
      (calls : List PushCall) (auth : Authority) (query_user_id : Option ℕ)
      (body : UpsertPushSubscriptionRequest) (store : PushStore)
      → OnePer store
      → OnePer (serve_pushes trim scheme respond calls store)
        × Assigns query_user_id (serve_pushes trim scheme respond calls store) (
            upsert_push_subscription trim scheme query_user_id body auth
              (serve_pushes trim scheme respond calls store))
  serve_pushes-OnePer calls auth query_user_id body store one =
      let still = stays-OnePer calls store one in
      (
        still,
        request-Assigns trim scheme query_user_id body auth
            (serve_pushes trim scheme respond calls store) still,
      )
