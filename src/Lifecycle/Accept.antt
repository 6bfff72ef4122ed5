-- ===== src/Lifecycle/Accept.antt =====
-- What an accepted proposal satisfies: both sides give as much, and each leg is within both capacities.
use ymatch.Common.{
  ==_iff, ℕ, ◌+◌, ◌<◌, ◌≡◌, refl, ap, ◌∙◌, inl, inr, Bool, true, false, some, List, [], ◌∷◌, map,
  arith, ◌==◌, if◌then◌else◌, Bool-cases, All,
}
use ymatch.Common.Int.{pos_part, ℤ, pos, ◌≤ℤ◌, add_i32}
use ymatch.Error.{bad_request, Result, ok, err, AppError}
use ymatch.Store.{fail, pure, lift, Db, MatchRow, MatchItemRow, accepted, trade}
use ymatch.Store.Steps.{>>=-eq_ok, lift-eq_ok}
use ymatch.Store.Inventory.{want_quantities, quantities_for_status}
use ymatch.Store.Matches.{find_match, OfferItem, Snapshot, snapshot_from_row}
use ymatch.Store.Read.{list_match_items}
use ymatch.Lifecycle.{
  change_status, accept, accept_gate, check_capacities, leg_of, item_of, merch_of, change_locked,
  Notice,
}
use ymatch.Lifecycle.Guards.{
  proposer_or, is_participant, balance_sums, is_balanced, validate_legs,
  validate_giver_trade_capacity, receiver_wants, giver_trades, validate_status_transition,
}
use ymatch.Lifecycle.Legs.{WithinCaps, validate_legs_iff, validate_giver_trade_capacity_iff}
use ymatch.Lifecycle.Sums.{amount, volume, IsLeg, add_exact}
use ymatch.Lifecycle.Moves.{change_status-eq_ok}

-- What a user gives in all.
abbrev pub gives : ℕ → List OfferItem → ℕ
gives u [] = 0
gives u (i ∷ is) = (if i.giver_user_id == u then amount i else 0) + gives u is

as_pos : (q : ℤ) → pos 0 ≤ℤ q → q ≡ pos (pos_part q)
as_pos q h = ground arith

other_side : (g u v : ℕ) → (g == u) ≡ false → is_participant g u v ≡ true → (g == v) ≡ true
other_side g u v h k = ground arith

pair_sums : {a b c d : ℕ} → a ≡ c → b ≡ d → ◌≡◌ {A = ℤ × ℤ} (pos a, pos b) (pos c, pos d)
pair_sums p q = rw (p, q) refl

sums_at :
    (legs : List (ℕ × ℤ)) (u v : ℕ) {x x' y y' : ℤ}
    → x ≡ x'
    → y ≡ y'
    → balance_sums legs u v x y ≡ balance_sums legs u v x' y'
sums_at legs u v p q = rw (p, q) refl

balance_sums-gives :
    (rows : List MatchItemRow) (u v a b : ℕ)
    → (u == v) ≡ false
    → All (IsLeg u v) (map item_of rows)
    → (a + b) + volume (map item_of rows) < 2147483648
    → balance_sums (map leg_of rows) u v (pos a) (pos b)
      ≡ (pos (a + gives u (map item_of rows)), pos (b + gives v (map item_of rows)))
unfolding balance_sums
balance_sums-gives [] u v a b differ legs lim = pair_sums (omega arith) (omega arith)
balance_sums-gives (r ∷ rs) u v a b differ legs lim =
    let n = pos_part r.quantity in
    let q = as_pos r.quantity legs.0.1 in
    elim (Bool-cases (r.giver_user_id == u)) [
      | inl first ↦
          let other : (r.giver_user_id == v) ≡ false = ground arith in
          let added : add_i32 (pos a) r.quantity ≡ pos (a + n) =
            ap (add_i32 (pos a)) q ∙ add_exact a n (omega arith) in
          sums_at (map leg_of rs) u v (rw first added) (rw first refl)
          ∙ balance_sums-gives rs u v (a + n) b differ legs.1 (omega arith)
          ∙ pair_sums (rw first (omega arith)) (rw other (omega arith))
      | inr not_first ↦
          let second : (r.giver_user_id == v) ≡ true =
            other_side r.giver_user_id u v not_first legs.0.0 in
          let added : add_i32 (pos b) r.quantity ≡ pos (b + n) =
            ap (add_i32 (pos b)) q ∙ add_exact b n (omega arith) in
          sums_at (map leg_of rs) u v (rw not_first refl) (rw (not_first, second) added)
          ∙ balance_sums-gives rs u v a (b + n) differ legs.1 (omega arith)
          ∙ pair_sums (rw not_first (omega arith)) (rw second (omega arith))
    ]

same_test : (b : Bool) (y z : ℤ) → (if b then y else if b then z else y) ≡ y
same_test true y z = refl
same_test false y z = refl

balance_sums-same : (legs : List (ℕ × ℤ)) (u : ℕ) (x y : ℤ) → (balance_sums legs u u x y).1 ≡ y
unfolding balance_sums
balance_sums-same [] u x y = refl
balance_sums-same ((g, q) ∷ legs) u x y = balance_sums-same legs u _ _ ∙ same_test (g == u) y _

lift-last : {A : Type 0} (x : Result A) (db db' : Db) {a : A} → lift x db ≡ ok (a, db') → x ≡ ok a
lift-last (ok b) db db' h = cc
lift-last (err e) db db' h = cc

check_capacities-eq_ok :
    (items : List OfferItem) (u v : ℕ) (db db' : Db) (x : Unit {0})
    → check_capacities items u v db ≡ ok (x, db')
    → (validate_legs items u v
          (want_quantities u (map merch_of items) db)
          (want_quantities v (map merch_of items) db)
        ≡ ok tt)
      × (validate_giver_trade_capacity items u v
            (quantities_for_status u (map merch_of items) trade db)
            (quantities_for_status v (map merch_of items) trade db)
          ≡ ok tt)
unfolding check_capacities
check_capacities-eq_ok items u v db db' x e =
    let (_, legs, e1) =
      lift-eq_ok
        (validate_legs items u v (want_quantities u (map merch_of items) db)
          (want_quantities v (map merch_of items) db))
        _ db e in
    (legs, lift-last _ db db' e1)

-- The items of a match against the two inventories.
abbrev pub Fair : MatchRow → List OfferItem → Db → Type 0
Fair r items db =
    All (IsLeg r.user1_id r.user2_id) items
    × (gives r.user1_id items ≡ gives r.user2_id items)
    × (0 < gives r.user1_id items)
    × WithinCaps
        (receiver_wants r.user1_id r.user2_id (want_quantities r.user1_id (map merch_of items) db)
          (want_quantities r.user2_id (map merch_of items) db))
        items
    × WithinCaps
        (giver_trades r.user1_id (quantities_for_status r.user1_id (map merch_of items) trade db)
          (quantities_for_status r.user2_id (map merch_of items) trade db))
        items

passed :
    (t : Bool) (fault : AppError) (db db' : Db) {x : Unit {0}}
    → (if t then pure tt else fail fault) db ≡ ok (x, db')
    → (t ≡ true) × (db' ≡ db)
passed true fault db db' h = (refl, ground arith)
passed false fault db db' h = absurd (cc)

accept_gate-eq_ok :
    (match_id user_id : ℕ) (locked : Snapshot) (db db' : Db) (x : Unit {0})
    → accept_gate match_id user_id locked db ≡ ok (x, db')
    → (is_balanced (map leg_of (list_match_items match_id db)) locked.user1_id locked.user2_id
        ≡ true)
      × (check_capacities
            (map item_of (list_match_items match_id db))
            locked.user1_id
            locked.user2_id
            db
          ≡ ok (x, db'))
unfolding accept_gate
accept_gate-eq_ok match_id user_id locked db db' x e =
    let (_, db1, g1, e1) =
      >>=-eq_ok
        (if user_id == proposer_or locked.offered_by locked.user1_id
          then fail (bad_request "Cannot accept your own proposal")
          else pure tt)
        _ db e in
    let same1 : db1 ≡ db = ground arith in
    let (_, db2, g2, e2) =
      >>=-eq_ok
        (if is_balanced (map leg_of (list_match_items match_id db1)) locked.user1_id locked.user2_id
          then pure tt
          else fail (bad_request "Cannot accept an unbalanced proposal"))
        _ db1 e1 in
    let (balanced, same2) = passed _ _ db1 db2 g2 in (rw same1 at balanced, rw (same2, same1) at e2)

balanced-gives :
    (rows : List MatchItemRow) (u v : ℕ)
    → All (IsLeg u v) (map item_of rows)
    → volume (map item_of rows) < 2147483648
    → is_balanced (map leg_of rows) u v ≡ true
    → (gives u (map item_of rows) ≡ gives v (map item_of rows)) × (0 < gives u (map item_of rows))
unfolding is_balanced
balanced-gives rows u v legs lim h = elim (Bool-cases (u == v)) [
  | inl same ↦
      let none_second = balance_sums-same (map leg_of rows) u (pos 0) (pos 0) in
      absurd (let h' = rw (← (==_iff u v).0 same, none_second) at h in ground arith)
  | inr differ ↦
      let sums = balance_sums-gives rows u v 0 0 differ legs (omega arith) in
      let h' = rw sums at h in ground arith
]

-- A proposal that is accepted, as long as its quantities sum to an i32, has well-formed legs, gives as
-- much from each side and more than nothing, and offers of each item no more than the receiver
-- wants and no more than the giver trades, by the inventories at that moment.
pub accepted-WithinCaps :
    (match_id user_id : ℕ) (db db' : Db) (ns : List Notice)
    → volume (map item_of (list_match_items match_id db)) < 2147483648
    → change_status match_id user_id accepted db ≡ ok (ns, db')
    → (r : MatchRow) × (find_match match_id db ≡ some r)
      × Fair r (map item_of (list_match_items match_id db)) db
unfolding change_locked accept
accepted-WithinCaps match_id user_id db db' ns lim e =
    let (r, found, _, _, e1) = change_status-eq_ok match_id user_id accepted db db' ns e in
    let (_, _, e2) = lift-eq_ok (validate_status_transition accepted r.status) _ db e1 in
    let (_, db1, gate, _) =
      >>=-eq_ok (accept_gate match_id user_id (snapshot_from_row r)) _ db e2 in
    let (balanced, caps) =
      accept_gate-eq_ok match_id user_id (snapshot_from_row r) db db1 tt gate in
    let (wants, trades) =
      check_capacities-eq_ok (map item_of (list_match_items match_id db)) r.user1_id r.user2_id db
        db1 tt caps in
    let (legs, within_wants) = (validate_legs_iff _ r.user1_id r.user2_id _ _ lim).0 wants in
    let (_, within_trades) =
      (validate_giver_trade_capacity_iff _ r.user1_id r.user2_id _ _ lim).0 trades in
    let (even, some_given) =
      balanced-gives (list_match_items match_id db) r.user1_id r.user2_id legs lim balanced in
    (r, found, (legs, even, some_given, within_wants, within_trades))
