-- ===== src/Lifecycle/Once.antt =====
-- Inventory is applied once to a side: what a success of `apply_inventory` leaves refuses the next.
use ymatch.Store.Read.{list_match_items}
use ymatch.Common.{
  ℕ, ◌≡◌, refl, ap, ◌∙◌, inl, inr, Bool, true, false, ◌&&◌, ◌||◌, some, List, [], ◌∷◌, arith, ◌==◌,
  if◌then◌else◌, Bool-cases, fetch, exists_row, update,
}
use ymatch.Common.Int.{pos, eqb_ℤ, ℤ}
use ymatch.Error.{ok, err, AppError}
use ymatch.Store.{Tx, pure, Db, MatchRow, MatchItemRow, is_active, cancelled}
use ymatch.Store.{want, have, trade, Holding}
use ymatch.Store.Inventory.{at_key, insert_or_update, stock}
use ymatch.Common.Int.{◌+ℤ◌, ◌-ℤ◌, max_ℤ, ltb_ℤ, leb_ℤ}
use ymatch.Store.Steps.{guard-eq_ok, >>=-eq_ok, lift-eq_ok}
use ymatch.Store.Inventory.{apply_trade_delta, adjust, have_inc}
use ymatch.Store.Matches.{
  has_id, find_match, applied_column, is_some, mark_inventory_applied, snapshot_from_row,
  applied_by, completed_by, lock_for_update,
}
use ymatch.Store.Matches.Lookup.{find_match-updated, locked-eq_ok}
use ymatch.Store.Capacity.{
  list_active_scopes_for_user, scope_requires_cancel, is_cancelled_by, system_cancel_matches,
}
use ymatch.Lifecycle.{
  apply_items, apply_inventory, validate_apply, cancel_zero_capacity_for_user, pick_scopes,
}
use ymatch.Lifecycle.Guards.{apply_inventory_delta}

-- The matches and the sequence of their ids.
abbrev pub match_table : Db → List MatchRow × ℕ
match_table db = (db.matches, db.next_match_id)

abbrev KeepsMatches : Tx (Unit {0}) → Type 0
KeepsMatches m =
    (db db' : Db) (u : Unit {0}) → m db ≡ ok (u, db') → match_table db' ≡ match_table db

adjust-matches :
    (user_id merch_id : ℕ) (status : Holding) (f : ℤ → ℤ)
    → KeepsMatches (adjust user_id merch_id status f)
unfolding adjust
adjust-matches user_id merch_id status f db db' u e = ground arith

have_inc-matches :
    (user_id merch_id : ℕ) (delta : ℤ) → KeepsMatches (have_inc user_id merch_id delta)
unfolding have_inc insert_or_update
have_inc-matches user_id merch_id delta db db' u e =
    elim (Bool-cases (exists_row (at_key user_id merch_id have) db.inventory)) [
      | inl present ↦
          adjust-matches user_id merch_id have (λ q. q +ℤ delta) db db' u (rw present at e)
      | inr absent ↦ ground (arith, absent)
    ]

unless-matches :
    (b : Bool) (m : Tx (Unit {0})) → KeepsMatches m → KeepsMatches (if b then m else pure tt)
unless-matches true m keep = keep
unless-matches false m keep = λ db db' u e. ground arith

apply_trade_delta-matches :
    (user_id merch_id : ℕ) (dt dh dw : ℤ)
    → KeepsMatches (apply_trade_delta user_id merch_id dt dh dw)
unfolding apply_trade_delta
apply_trade_delta-matches user_id merch_id dt dh dw db db' u e =
    let (_, e0) =
      guard-eq_ok (leb_ℤ dt (pos 0) || leb_ℤ dt (stock db user_id merch_id trade)) _ _ db e in
    let (u1, db1, e1, f1) =
      >>=-eq_ok (if ltb_ℤ (pos 0) dt then adjust user_id merch_id trade (λ q. q -ℤ dt) else pure tt)
        _ db e0 in
    let (u2, db2, e2, f2) =
      >>=-eq_ok (if ltb_ℤ (pos 0) dh then have_inc user_id merch_id dh else pure tt) _ db1 f1 in
    let (u3, db3, e3, f3) =
      >>=-eq_ok
        (if ltb_ℤ dh (pos 0)
          then adjust user_id merch_id have (λ q. max_ℤ (q +ℤ dh) (pos 0))
          else pure tt)
        _ db2 f2 in
    unless-matches _ _ (adjust-matches user_id merch_id want (λ q. max_ℤ (q +ℤ dw) (pos 0))) db3 db'
      u f3
    ∙ unless-matches _ _ (adjust-matches user_id merch_id have (λ q. max_ℤ (q +ℤ dh) (pos 0))) db2
        db3 u3 e3
    ∙ unless-matches _ _ (have_inc-matches user_id merch_id dh) db1 db2 u2 e2
    ∙ unless-matches _ _ (adjust-matches user_id merch_id trade (λ q. q -ℤ dt)) db db1 u1 e1

pub apply_items-matches :
    (user_id : ℕ) (skip : Bool) (items : List MatchItemRow) (changed changed' : Bool) (db db' : Db)
    → apply_items user_id skip items changed db ≡ ok (changed', db')
    → match_table db' ≡ match_table db
unfolding apply_items
apply_items-matches user_id skip [] changed changed' db db' e = ground arith
apply_items-matches user_id skip (i ∷ is) changed changed' db db' e =
    let d = apply_inventory_delta i.giver_user_id user_id i.quantity skip in
    elim (Bool-cases (eqb_ℤ d.0 (pos 0) && eqb_ℤ d.1 (pos 0) && eqb_ℤ d.2 (pos 0))) [
      | inl dry ↦ apply_items-matches user_id skip is changed changed' db db' (rw dry at e)
      | inr moves ↦
          let (u, db1, e1, e2) =
            >>=-eq_ok (apply_trade_delta user_id i.merch_id d.0 d.1 d.2) _ db (rw moves at e) in
          apply_items-matches user_id skip is _ changed' db1 db' e2
          ∙ apply_trade_delta-matches user_id i.merch_id d.0 d.1 d.2 db db1 u e1
    ]

and_false : (b : Bool) → (b && false) ≡ false
and_false b = ground arith

-- A row that is not active outlives a system cancel.
fetch-cancelled :
    (match_id : ℕ) (ids : List ℕ) (rs : List MatchRow) {r : MatchRow}
    → is_active r.status ≡ false
    → fetch (has_id match_id) rs ≡ some r
    → fetch
        (has_id match_id)
        (update (is_cancelled_by ids) (λ x. record x { status = cancelled }) rs)
      ≡ some r
unfolding fetch update
fetch-cancelled match_id ids [] idle h = absurd (cc)
fetch-cancelled match_id ids (x ∷ rs) {r} idle h = elim (Bool-cases (x.id == match_id)) [
  | inl at ↦
      let same : x ≡ r = ground arith in
      let off : is_cancelled_by ids x ≡ false = rw same (rw idle (and_false _)) in
      rw off (rw at (ap some same))
  | inr other ↦
      let rest = fetch-cancelled match_id ids rs idle (rw other at h) in
      elim (Bool-cases (is_cancelled_by ids x)) [
        | inl hit ↦ rw hit (rw other rest)
        | inr miss ↦ rw miss (rw other rest)
      ]
]

cancel-find_match :
    (user_id match_id n : ℕ) (db db' : Db) {r : MatchRow}
    → is_active r.status ≡ false
    → find_match match_id db ≡ some r
    → cancel_zero_capacity_for_user user_id db ≡ ok (n, db')
    → find_match match_id db' ≡ some r
unfolding cancel_zero_capacity_for_user system_cancel_matches find_match
cancel-find_match user_id match_id n db db' idle h e =
    let ids =
      pick_scopes (λ s. scope_requires_cancel s db) (list_active_scopes_for_user user_id db) in
    let same : db'.matches
        ≡ update (is_cancelled_by ids) (λ x. record x { status = cancelled }) db.matches =
      ground arith in
    rw same (fetch-cancelled match_id ids db.matches idle h)

abbrev pub marked : Bool → ℕ → MatchRow → MatchRow
marked is_user1 now r =
    if is_some (applied_column is_user1 r)
    then r
    else if is_user1
    then record r { user1_inventory_applied_at = some now }
    else record r { user2_inventory_applied_at = some now }

mark-find_match :
    (match_id : ℕ) (is_user1 : Bool) (u : Unit {0}) (db db' : Db) {r : MatchRow}
    → find_match match_id db ≡ some r
    → mark_inventory_applied match_id is_user1 db ≡ ok (u, db')
    → find_match match_id db' ≡ some (marked is_user1 db.now r)
unfolding mark_inventory_applied
mark-find_match match_id is_user1 u db db' {r} h e =
    let done = find_match-updated match_id (marked is_user1 db.now) db r (λ x. ground arith) h in
    ground (arith, done)

validate_apply-marked :
    (user_id now : ℕ) (r : MatchRow) (u : Unit {0})
    → validate_apply (snapshot_from_row r) user_id ≡ ok u
    → validate_apply (snapshot_from_row (marked (user_id == r.user1_id) now r)) user_id
      ≡ err (AppError.conflict "Inventory already applied for this user")
unfolding validate_apply applied_by completed_by
validate_apply-marked user_id now r u e = ground arith

pub lookup-frame :
    (match_id : ℕ) (db db' : Db)
    → db'.matches ≡ db.matches
    → find_match match_id db' ≡ find_match match_id db
unfolding find_match
lookup-frame match_id db db' same = rw same refl

marked-idle :
    (user_id now : ℕ) (r : MatchRow) (u : Unit {0})
    → validate_apply (snapshot_from_row r) user_id ≡ ok u
    → is_active (marked (user_id == r.user1_id) now r).status ≡ false
unfolding validate_apply
marked-idle user_id now r u e = ground arith

maybe_cancel-find_match :
    (user_id match_id n : ℕ) (changed : Bool) (db db' : Db) {r : MatchRow}
    → is_active r.status ≡ false
    → find_match match_id db ≡ some r
    → (if changed then cancel_zero_capacity_for_user user_id else pure 0) db ≡ ok (n, db')
    → find_match match_id db' ≡ some r
maybe_cancel-find_match user_id match_id n true db db' idle h e =
    cancel-find_match user_id match_id n db db' idle h e
maybe_cancel-find_match user_id match_id n false db db' idle h e =
    let same : db' ≡ db = ground arith in rw same h

-- The row that an apply leaves: marked for the caller's side, which was allowed to apply.
pub apply_inventory-marks :
    (match_id user_id : ℕ) (skip : Bool) (db db' : Db) (u : Unit {0})
    → apply_inventory match_id user_id skip db ≡ ok (u, db')
    → (r : MatchRow) × (now : ℕ) × (validate_apply (snapshot_from_row r) user_id ≡ ok tt)
      × (find_match match_id db' ≡ some (marked (user_id == r.user1_id) now r))
unfolding apply_inventory lock_for_update
apply_inventory-marks match_id user_id skip db db' u e =
    let (r, found, e1) = locked-eq_ok match_id _ _ db e in
    let (v, valid, e2) = lift-eq_ok (validate_apply (snapshot_from_row r) user_id) _ db e1 in
    let (changed, db1, e3, e4) =
      >>=-eq_ok (apply_items user_id skip (list_match_items match_id db) false) _ db e2 in
    let (w, db2, e5, e6) =
      >>=-eq_ok (mark_inventory_applied match_id (user_id == r.user1_id)) _ db1 e4 in
    let (n, db3, e7, e8) =
      >>=-eq_ok (if changed then cancel_zero_capacity_for_user user_id else pure 0) _ db2 e6 in
    let found1 =
      lookup-frame match_id db db1 (
        ap (λ (t : List MatchRow × ℕ). t.0)
          (apply_items-matches user_id skip _ false changed db db1 e3))
      ∙ found in
    let found2 = mark-find_match match_id (user_id == r.user1_id) w db1 db2 found1 e5 in
    let same : db' ≡ db3 = ground arith in
    (
      r,
      db1.now,
      valid,
      lookup-frame match_id db3 db' (ap (λ (d : Db). d.matches) same)
          ∙ maybe_cancel-find_match user_id match_id n changed db2 db3
              (marked-idle user_id db1.now r v valid) found2 e7,
    )

-- After an apply by a user has succeeded, every further one by that user for that match, whatever its
-- flag, is refused with 409 and so changes nothing: the first left the row completed and marked,
-- also where it has cancelled other matches.
pub apply_inventory-once :
    (match_id user_id : ℕ) (skip skip' : Bool) (db db' : Db) (u : Unit {0})
    → apply_inventory match_id user_id skip db ≡ ok (u, db')
    → apply_inventory match_id user_id skip' db'
      ≡ err (AppError.conflict "Inventory already applied for this user")
unfolding apply_inventory lock_for_update
apply_inventory-once match_id user_id skip skip' db db' u e =
    let (r, now, valid, found) = apply_inventory-marks match_id user_id skip db db' u e in
    rw (found, validate_apply-marked user_id now r tt valid) refl
