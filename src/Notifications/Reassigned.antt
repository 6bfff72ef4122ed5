-- ===== src/Notifications/Reassigned.antt =====
-- Whose browser an endpoint is after a request to subscribe, for `upsert` of
-- backend/src/repositories/push_subscription.rs and its handler.
use ymatch.Common.{
  str_eq_iff, str_eq, ℕ, ◌≤◌, String, ◌≡◌, refl, sym, ap, ◌∙◌, inl, inr, Bool, true, false, Option,
  none, some, List, [], ◌∷◌, ◌++◌, map, arith, if◌then◌else◌, Bool-cases, Option-cases, select,
  fetch, update,
}
use mathlib.Core.List.{append-nil}
use ymatch.Common.{All, ==_iff, ◌==◌, ◌&&◌}
use ymatch.Common.Rows.{All-fetch}
use ymatch.Store.{UserRow}
use ymatch.Rbac.Owner.{verify_active_lem}
use ymatch.Rbac.Service.{still_banned}
use ymatch.Common.{length}
use ymatch.Error.{◌>>=◌, Result, ok, err, ok_inj}
use ymatch.Rbac.{Authority}
use ymatch.Rbac.Transfer.{known_user}
use ymatch.Rbac.Service.{VerifiedUser}
use ymatch.Api.{require_active_query_user}
use ymatch.Rbac.Creation.{trimmed}
use ymatch.Notifications.Subscriptions.{
  UpsertPushSubscriptionRequest, upsert_push_subscription, require_nonempty, require_https_endpoint,
  given_keys, PushSubscription, PushStore, has_endpoint, upsert, reassigned, new_subscription,
}

abbrev pub kept {ℓ} : {A : Type ℓ} → Result (A × PushStore) → PushStore → PushStore
kept (ok (a, store')) store = store'
kept (err e) store = store

abbrev pub rows_at : String → List PushSubscription → ℕ
rows_at endpoint rows = length (select (has_endpoint endpoint) rows)

-- UNIQUE (endpoint)
abbrev pub OnePer : PushStore → Type 0
OnePer store = (endpoint : String) → rows_at endpoint store.subscriptions ≤ 1

abbrev owner : PushSubscription → ℕ
owner s = s.user_id

-- The users of the subscriptions at an endpoint.
abbrev pub owners_at : String → List PushSubscription → List ℕ
owners_at endpoint rows = map owner (select (has_endpoint endpoint) rows)

abbrev one_user : Option ℕ → List ℕ
one_user none = []
one_user (some user_id) = user_id ∷ []

-- Whom an endpoint belongs to after what a request to subscribe by `query_user_id` returns: the caller alone
-- where the row that it returns has the endpoint, else the same as before.
abbrev pub new_owners : String → Option ℕ → Result (PushSubscription × PushStore) → List ℕ → List ℕ
new_owners endpoint query_user_id (ok (s, store)) before =
    if has_endpoint endpoint s then one_user query_user_id else before
new_owners endpoint query_user_id (err e) before = before

abbrev pub Assigns : Option ℕ → PushStore → Result (PushSubscription × PushStore) → Type 0
Assigns query_user_id store result =
    (endpoint : String)
    → owners_at endpoint (kept result store).subscriptions
      ≡ new_owners endpoint query_user_id result (owners_at endpoint store.subscriptions)

module _ (endpoint : String) where
  owners_at-append :
      (s : PushSubscription) (rows : List PushSubscription)
      → owners_at endpoint (rows ++ s ∷ [])
        ≡ owners_at endpoint rows ++ (if has_endpoint endpoint s then s.user_id ∷ [] else [])
  unfolding select
  owners_at-append s [] = ground arith
  owners_at-append s (r ∷ rs) = elim (Bool-cases (has_endpoint endpoint r)) [
    | inl hit ↦ rw hit (ap (◌∷◌ r.user_id) (owners_at-append s rs))
    | inr miss ↦ rw miss (owners_at-append s rs)
  ]

  nobody_at :
      (rows : List PushSubscription)
      → fetch (has_endpoint endpoint) rows ≡ none
      → owners_at endpoint rows ≡ []
  unfolding select fetch
  nobody_at [] gone = refl
  nobody_at (r ∷ rs) gone = elim (Bool-cases (has_endpoint endpoint r)) [
    | inl hit ↦ absurd (let found = rw hit at gone in cc)
    | inr miss ↦ rw miss (nobody_at rs (rw miss at gone))
  ]

  module _ (user_id : ℕ) (p256dh key : String) (agent : Option String) where
    abbrev change : PushSubscription → PushSubscription
    change = reassigned user_id p256dh key agent

    unchanged_after :
        (rows : List PushSubscription)
        → rows_at endpoint rows ≡ 0
        → owners_at endpoint (update (has_endpoint endpoint) change rows) ≡ []
    unfolding select update
    unchanged_after [] zero_rows = refl
    unchanged_after (r ∷ rs) zero_rows = elim (Bool-cases (has_endpoint endpoint r)) [
      | inl hit ↦ absurd (ground arith)
      | inr miss ↦ rw (miss, miss) (unchanged_after rs (rw miss at zero_rows))
    ]

    taken_over :
        (rows : List PushSubscription) {s : PushSubscription}
        → rows_at endpoint rows ≤ 1
        → fetch (has_endpoint endpoint) rows ≡ some s
        → owners_at endpoint (update (has_endpoint endpoint) change rows) ≡ user_id ∷ []
    unfolding select update fetch
    taken_over [] one there = absurd (cc)
    taken_over (r ∷ rs) one there = elim (Bool-cases (has_endpoint endpoint r)) [
      | inl hit ↦ rw (hit, hit) (ap (◌∷◌ user_id) (unchanged_after rs (ground arith)))
      | inr miss ↦ rw (miss, miss) (taken_over rs (rw miss at one) (rw miss at there))
    ]

    others_keep :
        (other : String) (rows : List PushSubscription)
        → str_eq endpoint other ≡ false
        → owners_at other (update (has_endpoint endpoint) change rows) ≡ owners_at other rows
    unfolding select update
    others_keep other [] apart = refl
    others_keep other (r ∷ rs) apart = elim (Bool-cases (has_endpoint endpoint r)) [
      | inl hit ↦
          let elsewhere : str_eq r.endpoint other ≡ false =
            rw (← (str_eq_iff r.endpoint endpoint).0 hit) at apart in
          rw (hit, elsewhere) (others_keep other rs apart)
      | inr miss ↦ rw miss (elim (Bool-cases (has_endpoint other r)) [
        | inl seen ↦ rw seen (ap (◌∷◌ r.user_id) (others_keep other rs apart))
        | inr unseen ↦ rw unseen (others_keep other rs apart)
      ])
    ]

found_at :
    (endpoint : String) (rows : List PushSubscription) {s : PushSubscription}
    → fetch (has_endpoint endpoint) rows ≡ some s
    → s.endpoint ≡ endpoint
unfolding fetch
found_at endpoint [] there = absurd (cc)
found_at endpoint (r ∷ rs) {s} there = elim (Bool-cases (has_endpoint endpoint r)) [
  | inl hit ↦
      let same : r ≡ s = ground arith in rw (← same) ((str_eq_iff r.endpoint endpoint).0 hit)
  | inr miss ↦ found_at endpoint rs (rw miss at there)
]

pub upsert-Assigns :
    (auth : Authority) (user_id : ℕ) (endpoint p256dh key : String) (agent : Option String)
    (store : PushStore)
    → OnePer store
    → Assigns (some user_id) store (upsert auth user_id endpoint p256dh key agent store)
unfolding upsert
upsert-Assigns auth user_id endpoint p256dh key agent store one at =
    let rows = store.subscriptions in
    elim (Bool-cases (known_user user_id auth)) [
      | inr unknown ↦ rw unknown refl
      | inl known ↦ elim (Option-cases (fetch (has_endpoint endpoint) rows)) [
        | inl fresh ↦
            rw (known, fresh)
              (owners_at-append at
                  (new_subscription user_id endpoint p256dh key agent store.next_id) rows
                ∙ elim (Bool-cases (str_eq endpoint at)) [
                  | inl same ↦
                      let none_here = nobody_at endpoint rows fresh in
                      rw (same, ← (str_eq_iff endpoint at).0 same, none_here) refl
                  | inr other ↦ rw other (append-nil (owners_at at rows))
                ])
        | inr (s, there) ↦
            let is_at = found_at endpoint rows there in
            rw (known, there, is_at)
              (elim (Bool-cases (str_eq endpoint at)) [
                | inl same ↦
                    rw (same, ← (str_eq_iff endpoint at).0 same)
                      (taken_over endpoint user_id p256dh key agent rows (one endpoint) there)
                | inr other ↦ rw other (others_keep endpoint user_id p256dh key agent at rows other)
              ])
      ]
    ]

fetch-passes {ℓ} :
    {A : Type ℓ} (test : A → Bool) (rows : List A) {r : A}
    → fetch test rows ≡ some r
    → test r ≡ true
fetch-passes {A = A} test rows found =
    (All-fetch (λ _. Unit {0}) test rows (everywhere rows) found).1
  where
    everywhere : (rows : List A) → All (λ _. Unit {0}) rows
    everywhere [] = tt
    everywhere (r ∷ rs) = (tt, everywhere rs)

active-id :
    (query_user_id : Option ℕ) (auth : Authority) (user : VerifiedUser)
    → require_active_query_user query_user_id auth ≡ ok user
    → query_user_id ≡ some user.id
unfolding require_active_query_user
active-id none auth user e = absurd (cc)
active-id (some user_id) auth user e = elim (verify_active_lem user_id auth) [
  | inl (gone, refused) ↦ absurd (cc)
  | inr (row, found, runs) ↦
      let named = (fetch-passes (λ (u : UserRow). u.id == user_id) auth.users found) in
      elim (Bool-cases (row.is_banned && still_banned auth.now row.banned_until)) [
        | inl banned ↦ absurd (let refused = rw banned at runs in cc)
        | inr free ↦
            let done : ok (record { id = row.id; is_banned = false }) ≡ ok user =
              sym (rw free at runs) ∙ e in
            ap some (
              sym ((==_iff row.id user_id).0 named) ∙ ap (λ (v : VerifiedUser). v.id) (ok_inj done))
      ]
]

Assigns-gate {ℓ} :
    {A : Type ℓ} (query_user_id : Option ℕ) (store : PushStore) (gate : Result A)
    (next : A → Result (PushSubscription × PushStore))
    → ((a : A) → gate ≡ ok a → Assigns query_user_id store (next a))
    → Assigns query_user_id store (gate >>= next)
Assigns-gate query_user_id store (ok a) next after at = after a refl at
Assigns-gate query_user_id store (err e) next after at = refl

-- The whole request, through its gates.
pub request-Assigns :
    (trim : String → String) (scheme : String → Option String) (query_user_id : Option ℕ)
    (body : UpsertPushSubscriptionRequest) (auth : Authority) (store : PushStore)
    → OnePer store
    → Assigns query_user_id store
        (upsert_push_subscription trim scheme query_user_id body auth store)
unfolding upsert_push_subscription
request-Assigns trim scheme query_user_id body auth store one =
    Assigns-gate query_user_id store (require_active_query_user query_user_id auth) _ λ user active.
      Assigns-gate query_user_id store (require_nonempty trim body.endpoint "endpoint") _
        λ endpoint _.
          Assigns-gate query_user_id store (require_https_endpoint scheme endpoint) _ λ _ _.
            Assigns-gate query_user_id store (given_keys body.keys) _ λ keys _.
              Assigns-gate query_user_id store (require_nonempty trim keys.p256dh "keys.p256dh") _
                λ p256dh _.
                  Assigns-gate query_user_id store (require_nonempty trim keys.auth "keys.auth") _
                    λ key _. rw (active-id query_user_id auth user active) (
                      upsert-Assigns auth user.id endpoint p256dh key
                        (trimmed (λ s. s) body.user_agent) store one)
