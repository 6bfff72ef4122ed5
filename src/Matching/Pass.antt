-- ===== src/Matching/Pass.antt =====
-- What a matching pass needs to end without an error.
use ymatch.Common.{
  none, Option, ℕ, ◌+◌, String, ◌≡◌, refl, Bool, true, false, not, List, [], ◌∷◌, if◌then◌else◌,
}
use ymatch.Error.{Result, ok, err}
use ymatch.Store.{Db, Tx, pure, ◌>>=◌, reads}
use ymatch.Store.Matcher.{
  wanted_of, user_wants_live_merch, list_user_trade_merch_ids_in_group, list_users_trading_merch,
  MatchableWant, list_matchable_wants,
}
use ymatch.Matching.{
  ensure_match_for_pair, try_trades, try_partners, try_wants, run_matching_algorithm,
}
use ymatch.Matching.Cases.{Indexed, HasRoom, SameTables}
use ymatch.Matching.Ensure.{ensure_match_for_pair-Outcome, Outcome}
use ymatch.Common.{All, map}
use ymatch.Store.{InventoryRow, MerchRow}
use ymatch.Store.Matcher.{
  is_user, is_event, refers, order_by_age, insert_by_age, join_want, join_wants, offers_merch,
  is_open_want,
}
use ymatch.Common.Rows.{All-append, All-select, All-fetch}
use ymatch.Common.{leb, Bool-cases, Option-cases, inl, inr, some, ◌∙◌, ◌==◌}
use ymatch.Store.{MatchRow}
use ymatch.Store.Matcher.{
  find_for_pair_group, of_pair_group, matchable_group, is_tradeable, wanted_merch,
}

room_of :
    (a b e : ℕ) (g : String) (db : Db) (r : MatchRow)
    → find_for_pair_group a b e g db ≡ some r
    → All HasRoom db.matches
    → HasRoom r
unfolding find_for_pair_group
room_of a b e g db r found rooms =
    (All-fetch HasRoom (of_pair_group a b e g) db.matches rooms found).0

All-map {ℓ μ κ} :
    {A : Type ℓ} {B : Type μ} (P : B → Type κ) (f : A → B) (xs : List A)
    → All (λ a. P (f a)) xs
    → All P (map f xs)
All-map P f [] h = tt
All-map P f (x ∷ xs) h = (h.0, All-map P f xs h.1)

All-insert_by_age :
    (P : InventoryRow → Type 0) (r : InventoryRow) (rows : List InventoryRow)
    → P r
    → All P rows
    → All P (insert_by_age r rows)
unfolding insert_by_age
All-insert_by_age P r [] p all = (p, tt)
All-insert_by_age P r (x ∷ xs) p all = elim (Bool-cases (leb r.updated_at x.updated_at)) [
  | inl older ↦ rw older (p, all)
  | inr newer ↦ rw newer (all.0, All-insert_by_age P r xs p all.1)
]

All-order_by_age :
    (P : InventoryRow → Type 0) (rows : List InventoryRow) → All P rows → All P (order_by_age rows)
unfolding order_by_age
All-order_by_age P [] all = tt
All-order_by_age P (r ∷ rs) all =
    All-insert_by_age P r (order_by_age rs) all.0 (All-order_by_age P rs all.1)

-- The foreign keys of inventory and merchandise that a pass relies on.
abbrev pub Refers : Db → Type 0
Refers db =
    All (λ (i : InventoryRow). is_user db.users i.user_id ≡ true) db.inventory
    × All (λ (m : MerchRow). is_event db.event_ids m.event_id ≡ true) db.merchandise

module _ (db0 : Db) (foreign : Refers db0) where
  abbrev IsKnown : ℕ → Type 0
  IsKnown user_id = is_user db0.users user_id ≡ true

  -- A state in the middle of a pass that began at `db0`.
  abbrev Ready : Db → Type 0
  Ready db = Indexed db × SameTables db0 db × All HasRoom db.matches

  -- A transaction that cannot fail there, and what it returns.
  abbrev Safe : {A : Type 0} → (A → Type 0) → Tx A → Type 0
  Safe {A} P m =
      (db : Db) → Ready db → (a : A) × (db' : Db) × (m db ≡ ok (a, db')) × P a × Ready db'

  Safe-bind :
      {A B : Type 0} (P : A → Type 0) (Q : B → Type 0) (m : Tx A) (f : A → Tx B)
      → Safe P m
      → ((a : A) → P a → Safe Q (f a))
      → Safe Q (m >>= f)
  Safe-bind P Q m f safe next db ready =
      let (a, db1, e1, p, r1) = safe db ready in
      let (b, db2, e2, q, r2) = next a p db1 r1 in (b, db2, rw e1 e2, q, r2)

  abbrev Any : {A : Type 0} → A → Type 0
  Any _ = Unit {0}

  Safe-pure : {A : Type 0} (a : A) → Safe Any (pure a)
  Safe-pure a db ready = (a, db, refl, tt, ready)

  Safe-reads : {A : Type 0} (f : Db → A) → Safe Any (reads f)
  Safe-reads f db ready = (f db, db, refl, tt, ready)

  Safe-if :
      {A : Type 0} (b : Bool) {m k : Tx A} → Safe Any m → Safe Any k → Safe Any (if b then m else k)
  Safe-if true m k = m
  Safe-if false m k = k

  possible :
      (a b e : ℕ) (g : String) (db : Db) (result : Result (Bool × Db))
      → IsKnown a
      → IsKnown b
      → is_event db0.event_ids e ≡ true
      → Ready db
      → Outcome a b e g db result
      → (made : Bool) × (db' : Db) × (result ≡ ok (made, db')) × Unit {0} × Ready db'
  possible a b e g db (ok (made, db')) ka kb ke (keys, (su, se, sm, si), rooms) out =
      let (keys', _, (_, (tu, te, tm, ti), stay, _)) = out in
      (made, db', refl, tt, (keys', (tu ∙ su, te ∙ se, tm ∙ sm, ti ∙ si), stay rooms))
  possible a b e g db (err fault) ka kb ke (keys, (su, se, sm, si), rooms)
        (inl (gone, unknown, _)) =
      absurd (let there : refers a b e db ≡ true = rw (su, se, ka, kb, ke) refl in cc)
  possible a b e g db (err fault) ka kb ke (keys, same, rooms) (inr (r, found, terminal, full, _)) =
      absurd (let room = room_of a b e g db r found rooms terminal in cc)

  ensure-Safe :
      (a b e : ℕ) (g : String)
      → IsKnown a
      → IsKnown b
      → is_event db0.event_ids e ≡ true
      → Safe Any (ensure_match_for_pair a b e g)
  ensure-Safe a b e g ka kb ke db ready =
      possible a b e g db _ ka kb ke ready (ensure_match_for_pair-Outcome a b e g db ready.0)

  abbrev IsKnownWant : MatchableWant → Type 0
  IsKnownWant want = IsKnown want.user_id × (is_event db0.event_ids want.event_id ≡ true)

  partners-IsKnown :
      (merch_id user_id : ℕ) (db : Db)
      → SameTables db0 db
      → All IsKnown (list_users_trading_merch merch_id user_id db)
  unfolding list_users_trading_merch
  partners-IsKnown merch_id user_id db (_, _, _, same) = All-map IsKnown _ _ (
      All-select (λ (i : InventoryRow). IsKnown i.user_id) (offers_merch merch_id user_id db)
        db.inventory (rw same foreign.0))

  Safe-partners :
      (merch_id user_id : ℕ)
      → Safe (All IsKnown) (reads (list_users_trading_merch merch_id user_id))
  Safe-partners merch_id user_id db ready =
      (_, db, refl, partners-IsKnown merch_id user_id db ready.1, ready)

  try_trades-Safe :
      (want : MatchableWant) (partner : ℕ) (ids : List ℕ)
      → IsKnownWant want
      → IsKnown partner
      → Safe Any (try_trades want partner ids)
  unfolding try_trades
  try_trades-Safe want partner [] kw kp = Safe-pure 0
  try_trades-Safe want partner (t ∷ ts) kw kp =
      Safe-bind Any Any _ _ (Safe-reads (user_wants_live_merch partner t)) (λ wants _.
        Safe-if (not wants) (try_trades-Safe want partner ts kw kp) (
          Safe-bind Any Any _ _
            (ensure-Safe want.user_id partner want.event_id want.group_name kw.0 kp kw.1)
            (λ made _. Safe-pure (if made then 1 else 0))))

  try_partners-Safe :
      (want : MatchableWant) (ids : List ℕ)
      → IsKnownWant want
      → All IsKnown ids
      → Safe Any (try_partners want ids)
  unfolding try_partners
  try_partners-Safe want [] kw ks = Safe-pure 0
  try_partners-Safe want (p ∷ ps) kw ks =
      Safe-bind Any Any _ _
        (Safe-reads (list_user_trade_merch_ids_in_group want.user_id want.event_id want.group_name))
        (λ ids _. Safe-bind Any Any _ _ (try_trades-Safe want p ids kw ks.0) (λ made _.
          Safe-bind Any Any _ _ (try_partners-Safe want ps kw ks.1)
            (λ rest _. Safe-pure (made + rest))))

  try_wants-Safe : (wants : List MatchableWant) → All IsKnownWant wants → Safe Any (try_wants wants)
  unfolding try_wants
  try_wants-Safe [] ks = Safe-pure 0
  try_wants-Safe (w ∷ ws) ks =
      Safe-bind (All IsKnown) Any _ _ (Safe-partners w.merch_id w.user_id) (λ ids known.
        Safe-bind Any Any _ _ (try_partners-Safe w ids ks.0 known) (λ made _.
          Safe-bind Any Any _ _ (try_wants-Safe ws ks.1) (λ rest _. Safe-pure (made + rest))))

  wanted-IsKnown :
      (i : InventoryRow) (m : MerchRow)
      → IsKnown i.user_id
      → is_event db0.event_ids m.event_id ≡ true
      → All IsKnownWant (wanted_merch i m)
  wanted-IsKnown i m known there = elim (Option-cases (matchable_group m.group_name)) [
    | inl alone ↦ rw (alone, All) tt
    | inr (g, grouped) ↦
        rw (grouped, All)
          (elim (Bool-cases (is_tradeable m)) [
            | inl live ↦ rw live ((known, there), tt)
            | inr dead ↦ rw dead tt
          ])
  ]

  -- Step 1 names holders of inventory and events of merchandise.
  wanted_of-IsKnown :
      (i : InventoryRow) (found : Option MerchRow)
      → IsKnown i.user_id
      → ((m : MerchRow) → found ≡ some m → is_event db0.event_ids m.event_id ≡ true)
      → All IsKnownWant (wanted_of i found)
  wanted_of-IsKnown i none known there = tt
  wanted_of-IsKnown i (some m) known there = wanted-IsKnown i m known (there m refl)

  join_want-IsKnown : (i : InventoryRow) → IsKnown i.user_id → All IsKnownWant (join_want db0 i)
  unfolding join_want
  join_want-IsKnown i known = wanted_of-IsKnown i _ known (λ m found.
      (All-fetch (λ (x : MerchRow). is_event db0.event_ids x.event_id ≡ true)
        (λ (x : MerchRow). x.id == i.merch_id) db0.merchandise foreign.1 found).0)

  join_wants-IsKnown :
      (rows : List InventoryRow)
      → All (λ (i : InventoryRow). IsKnown i.user_id) rows
      → All IsKnownWant (join_wants db0 rows)
  unfolding join_wants
  join_wants-IsKnown [] ks = tt
  join_wants-IsKnown (i ∷ is) ks =
      All-append IsKnownWant _ _ (join_want-IsKnown i ks.0) (join_wants-IsKnown is ks.1)

  wants-IsKnown : All IsKnownWant (list_matchable_wants db0)
  unfolding list_matchable_wants
  wants-IsKnown = join_wants-IsKnown _ (
      All-order_by_age (λ i. IsKnown i.user_id) _
        (All-select (λ (i : InventoryRow). IsKnown i.user_id) (is_open_want db0) db0.inventory
          foreign.0))

-- A pass over tables that satisfy their keys, where every holder of inventory and every event of an item
-- exists, and no REJECTED or CANCELLED match has a count of rematches at the end of its type, ends with a
-- count, never with an error, and all of that still holds: ids are unique and below the sequence, and no two
-- matches are of one pair and group.
pub run_matching_algorithm-Indexed :
    (db : Db)
    → Indexed db
    → Refers db
    → All HasRoom db.matches
    → (n : ℕ) × (db' : Db) × (run_matching_algorithm db ≡ ok (n, db'))
      × Indexed db'
      × Refers db'
      × All HasRoom db'.matches
unfolding run_matching_algorithm
run_matching_algorithm-Indexed db indexed foreign rooms =
    let (n, db', runs, _, (keys, (su, se, sm, si), rooms')) =
      try_wants-Safe db foreign (list_matchable_wants db) (wants-IsKnown db foreign) db
        (indexed, (refl, refl, refl, refl), rooms) in
    (n, db', runs, keys, rw (su, se, sm, si) foreign, rooms')
