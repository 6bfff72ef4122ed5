-- ===== src/Lifecycle/Offers.antt =====
-- What a proposal does.
use ymatch.Common.{
  if◌then◌else◌, length, ℕ, ◌≡◌, refl, ap, ◌∙◌, ◌≢◌, ◌⊎◌, false, ◌&&◌, some, List, map, arith, ◌==◌,
  select, exists_row, delete,
}
use ymatch.Error.{ok, bad_request}
use ymatch.Store.{MatchItemRow, pending, offered, MatchRow, Db}
use ymatch.Store.Steps.{>>=-eq_ok, lift-eq_ok, guard-eq_ok, refuse-eq_ok}
use ymatch.Store.Matches.{
  OfferItem, find_match, update_match, set_status, set_offered_by, upsert_legs, remove_legs,
  upsert_all, repeats_leg, is_positive, is_removal, names_leg,
}
use ymatch.Store.Matches.Lookup.{locked-eq_ok, find_match-updated}
use ymatch.Store.Read.{count_merch_in_group}
use ymatch.Lifecycle.{
  Notice, offer, record_proposal, check_capacities, distinct, merch_of, is_empty,
}
use ymatch.Lifecycle.Guards.{validate_propose_transition, propose_from}
use ymatch.Lifecycle.Once.{lookup-frame}
use ymatch.Lifecycle.Proposed.{leg_quantity, offered_quantity, proposed-quantity}
use ymatch.Lifecycle.Moves.{TakesPart, proposer, check_capacities-same}

-- The legs on the table after a proposal: those with a quantity above 0 are set, those with 0 go.
abbrev pub proposed_legs : ℕ → List OfferItem → Db → List MatchItemRow
proposed_legs match_id items db =
    delete (λ r. r.match_id == match_id && exists_row (names_leg r) (select is_removal items))
      (upsert_all match_id (select is_positive items) db.match_items)

abbrev pub proposed : ℕ → ℕ → List OfferItem → Db → Db
proposed match_id user_id items db =
    update_match match_id (λ r. record r { offered_by = some user_id })
      (update_match match_id (λ r. record r { status = offered })
        (record db { match_items = proposed_legs match_id items db }))

pub record_proposal-eq_ok :
    (match_id user_id : ℕ) (items : List OfferItem) (db db' : Db) (u : Unit {0})
    → record_proposal match_id user_id items db ≡ ok (u, db')
    → (repeats_leg (select is_positive items) ≡ false) × (db' ≡ proposed match_id user_id items db)
unfolding record_proposal upsert_legs remove_legs set_status set_offered_by update_match
record_proposal-eq_ok match_id user_id items db db' u e = ground arith

pub offer-eq_ok :
    (match_id user_id : ℕ) (items : List OfferItem) (db db' : Db) (ns : List Notice)
    → offer match_id user_id items db ≡ ok (ns, db')
    → (r : MatchRow) × (find_match match_id db ≡ some r)
      × (validate_propose_transition r.status user_id r.user1_id r.user2_id r.offered_by ≡ ok tt)
      × (check_capacities items r.user1_id r.user2_id db ≡ ok (tt, db))
      × (repeats_leg (select is_positive items) ≡ false)
      × (db' ≡ proposed match_id user_id items db)
unfolding offer
offer-eq_ok match_id user_id items db db' ns e =
    let (_, e0) =
      refuse-eq_ok (is_empty items) (bad_request "Must select at least one item") _ db e in
    let (r, found, e1) = locked-eq_ok match_id _ _ db e0 in
    let (_, may, e2) =
      lift-eq_ok (validate_propose_transition r.status user_id r.user1_id r.user2_id r.offered_by) _
        db e1 in
    let (_, e3) =
      guard-eq_ok
        (count_merch_in_group (map merch_of items) r.event_id r.group_name db
          == length (distinct (map merch_of items)))
        _ _ db e2 in
    let (_, db1, caps, e4) = >>=-eq_ok (check_capacities items r.user1_id r.user2_id) _ db e3 in
    let same = check_capacities-same items r.user1_id r.user2_id db db1 tt caps in
    let (_, db2, e5, e6) = >>=-eq_ok (record_proposal match_id user_id items) _ db1 e4 in
    let (once, done) = record_proposal-eq_ok match_id user_id items db1 db2 tt e5 in
    let last : db' ≡ db2 = ground arith in
    (r, found, may, rw same at caps, once, last ∙ done ∙ ap (proposed match_id user_id items) same)

-- A proposal by a participant on a match that is pending, or that the other side has proposed on.
abbrev pub MayPropose : ℕ → MatchRow → Type 0
MayPropose user_id r =
    TakesPart user_id r × ((r.status ≡ pending) ⊎ ((r.status ≡ offered) × (user_id ≢ proposer r)))

may_propose :
    (user_id : ℕ) (r : MatchRow) (u : Unit {0})
    → validate_propose_transition r.status user_id r.user1_id r.user2_id r.offered_by ≡ ok u
    → MayPropose user_id r
unfolding validate_propose_transition propose_from
may_propose user_id r u e = ground arith

-- A proposal that succeeds was made by a participant, on a match that was pending or on which the other
-- side had proposed. It makes the match OFFERED by the caller and changes nothing else of its row. At each key
-- of giver and item the legs of the match then have no quantity if the proposal names the key with 0, else
-- the positive quantity that it names the key with, else the one that was there; no leg of another match
-- and no inventory changes.
pub offer-MayPropose :
    (match_id user_id : ℕ) (items : List OfferItem) (db db' : Db) (ns : List Notice)
    → offer match_id user_id items db ≡ ok (ns, db')
    → (r : MatchRow) × (find_match match_id db ≡ some r)
      × MayPropose user_id r
      × (find_match match_id db' ≡ some (record r { status = offered; offered_by = some user_id }))
      × ((k g m : ℕ)
          → leg_quantity k g m db'.match_items ≡ (
              if k == match_id
              then offered_quantity g m items (leg_quantity k g m db.match_items)
              else leg_quantity k g m db.match_items))
      × (db'.inventory ≡ db.inventory)
unfolding update_match
offer-MayPropose match_id user_id items db db' ns e =
    let (r, found, may, _, once, done) = offer-eq_ok match_id user_id items db db' ns e in
    let on_table : Db = record db { match_items = proposed_legs match_id items db } in
    let first =
      find_match-updated match_id (λ (x : MatchRow). record x { status = offered }) on_table r
        (λ x. refl) (lookup-frame match_id db on_table refl ∙ found) in
    let second =
      find_match-updated match_id (λ (x : MatchRow). record x { offered_by = some user_id })
        (update_match match_id (λ (x : MatchRow). record x { status = offered }) on_table)
        (record r { status = offered }) (λ x. refl) first in
    (
      r,
      found,
      may_propose user_id r tt may,
      rw done second,
      λ k g m. rw done (proposed-quantity k g m match_id items db.match_items once),
      rw done refl,
    )
