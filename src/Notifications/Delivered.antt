-- ===== src/Notifications/Delivered.antt =====
-- What a notification leaves in the table of subscriptions.
use ymatch.Common.{
  select, ℕ, ◌≡◌, refl, sym, ap, ◌∙◌, inl, inr, Bool, true, false, ◌&&◌, ◌||◌, List, [], ◌∷◌, ◌++◌,
  map, arith, if◌then◌else◌, Bool-cases, exists_row, delete,
}
use mathlib.Core.List.{append-nil, append_assoc}
use ymatch.Notifications.{PushPayload}
use ymatch.Notifications.Subscriptions.{
  PushSubscription, PushStore, list_by_user, delete_by_endpoint, is_owned, has_endpoint,
  is_at_endpoint,
}
use ymatch.Notifications.Deliver.{
  is_built, Reply, Sent, gone, delivered, failed, outcome, send_all, notify_user, after_send,
  posted_to,
}

delete-delete {ℓ} :
    {A : Type ℓ} (p q : A → Bool) (rows : List A)
    → delete q (delete p rows) ≡ delete (λ r. p r || q r) rows
unfolding delete
delete-delete p q [] = refl
delete-delete p q (r ∷ rs) = elim (Bool-cases (p r)) [
  | inl hit ↦ rw hit (delete-delete p q rs)
  | inr miss ↦ rw miss (elim (Bool-cases (q r)) [
    | inl also ↦ rw also (delete-delete p q rs)
    | inr kept ↦ rw kept (ap (◌∷◌ r) (delete-delete p q rs))
  ])
]

delete-cong {ℓ} :
    {A : Type ℓ} (p q : A → Bool) (rows : List A)
    → ((r : A) → p r ≡ q r)
    → delete p rows ≡ delete q rows
unfolding delete
delete-cong p q [] same = refl
delete-cong p q (r ∷ rs) same = rw (same r) (elim (Bool-cases (q r)) [
  | inl hit ↦ rw hit (delete-cong p q rs same)
  | inr miss ↦ rw miss (ap (◌∷◌ r) (delete-cong p q rs same))
])

delete-never {ℓ} : {A : Type ℓ} (rows : List A) → delete (λ _. false) rows ≡ rows
unfolding delete
delete-never [] = refl
delete-never (r ∷ rs) = ap (◌∷◌ r) (delete-never rs)

abbrev pub is_gone : Sent → Bool
is_gone gone = true
is_gone delivered = false
is_gone failed = false

module _ (respond : PushSubscription → PushPayload → Reply) (payload : PushPayload) where
  -- The push service says that the subscription is no more.
  abbrev pub is_dead : PushSubscription → Bool
  is_dead s = is_gone (outcome (respond s payload))

  -- A row of the user at the endpoint of a dead one of `subs`.
  abbrev pub shares_dead : ℕ → List PushSubscription → PushSubscription → Bool
  shares_dead user_id subs row =
      is_owned user_id row && exists_row (λ s. is_dead s && has_endpoint s.endpoint row) subs

  -- All of the sending at once.
  abbrev pub sent_at_once : ℕ → List PushSubscription → PushStore → PushStore
  sent_at_once user_id subs store = record store {
    subscriptions = delete (shares_dead user_id subs) store.subscriptions;
    posted =
        store.posted
        ++ map (λ (s : PushSubscription). (s, payload))
            (select (λ (s : PushSubscription). is_built (respond s payload)) subs);
  }

  one_more :
      (user_id : ℕ) (s : PushSubscription) (dead : Bool) (subs : List PushSubscription)
      (rows : List PushSubscription)
      → is_dead s ≡ dead
      → delete
          (shares_dead user_id subs)
          (if dead then delete (is_at_endpoint user_id s.endpoint) rows else rows)
        ≡ delete (shares_dead user_id (s ∷ subs)) rows
  unfolding exists_row
  one_more user_id s true subs rows d =
      delete-delete (is_at_endpoint user_id s.endpoint) (shares_dead user_id subs) rows
      ∙ delete-cong _ _ rows (λ r. rw d (ground arith))
  one_more user_id s false subs rows d = delete-cong _ _ rows (λ r. rw d refl)

  after_send-subscriptions :
      (sent : Sent) (user_id : ℕ) (s : PushSubscription) (store : PushStore)
      → after_send sent user_id s store ≡ record store {
        subscriptions =
            if is_gone sent
            then delete (is_at_endpoint user_id s.endpoint) store.subscriptions
            else store.subscriptions;
      }
  unfolding delete_by_endpoint
  after_send-subscriptions gone user_id s store = refl
  after_send-subscriptions delivered user_id s store = refl
  after_send-subscriptions failed user_id s store = refl

  posted_to-subscriptions :
      (reply : Reply) (s : PushSubscription) (store : PushStore)
      → (posted_to reply s payload store).subscriptions ≡ store.subscriptions
  posted_to-subscriptions reply s store = elim (Bool-cases (is_built reply)) [
    | inl built ↦ rw built refl
    | inr unbuilt ↦ rw unbuilt refl
  ]

  posted_to-posted :
      (user_id : ℕ) (s : PushSubscription) (subs : List PushSubscription) (store : PushStore)
      (built : Bool)
      → is_built (respond s payload) ≡ built
      → sent_at_once user_id subs (posted_to (respond s payload) s payload store)
        ≡ record (sent_at_once user_id subs store) {
          posted =
              store.posted
              ++ map
                  (λ (x : PushSubscription). (x, payload))
                  (select (λ (x : PushSubscription). is_built (respond x payload)) (s ∷ subs));
        }
  unfolding select
  posted_to-posted user_id s subs store true built = rw built (
      ap
        (λ (l : List (PushSubscription × PushPayload)). record (sent_at_once user_id subs store) {
          posted = l;
        })
        (append_assoc store.posted ((s, payload) ∷ []) _))
  posted_to-posted user_id s subs store false built = rw built refl

  send_all-lem :
      (user_id : ℕ) (subs : List PushSubscription) (store : PushStore)
      → send_all respond user_id payload subs store ≡ sent_at_once user_id subs store
  unfolding send_all exists_row select
  send_all-lem user_id [] store =
      ap (λ (rows : List PushSubscription). record store { subscriptions = rows })
        (sym (
          delete-cong (shares_dead user_id []) (λ _. false) store.subscriptions (λ r. ground arith)
          ∙ delete-never store.subscriptions))
      ∙ ap
          (λ (l : List (PushSubscription × PushPayload)). record store {
            subscriptions = delete (shares_dead user_id []) store.subscriptions;
            posted = l;
          })
          (sym (append-nil store.posted))
  send_all-lem user_id (s ∷ subs) store =
      let reply = respond s payload in
      let sent = outcome reply in
      let posted = posted_to reply s payload store in
      send_all-lem user_id subs (after_send sent user_id s posted)
      ∙ ap (sent_at_once user_id subs) (after_send-subscriptions sent user_id s posted)
      ∙ ap
          (λ (after : PushStore). record after {
            subscriptions = delete (shares_dead user_id subs) (
                if is_dead s
                then delete (is_at_endpoint user_id s.endpoint) posted.subscriptions
                else posted.subscriptions);
          })
          (posted_to-posted user_id s subs store (is_built reply) refl)
      ∙ rw (posted_to-subscriptions reply s store)
          (rw (one_more user_id s (is_dead s) subs store.subscriptions refl) refl)

  -- Sending to the user's subscriptions one by one, each dead one deleted before the next is tried, comes to
  -- this: for every subscription that the user had, and whose message can be built, one POST of the payload is
  -- tried, in the order of the table, whether or not it gets through, and then the rows of the user at the
  -- endpoint of a dead one are gone; no row of another user changes. Without a key nothing happens.
  pub notify_user-lem :
      (enabled : Bool) (user_id : ℕ) (store : PushStore)
      → notify_user respond enabled user_id payload store
        ≡ (if enabled then sent_at_once user_id (list_by_user user_id store) store else store)
  unfolding notify_user
  notify_user-lem true user_id store = send_all-lem user_id (list_by_user user_id store) store
  notify_user-lem false user_id store = refl
