-- ===== src/Cards/Offered.antt =====
-- What the cards of a user's active matches offer.
use ymatch.Matching.Pairs.{TwoUsers, Moves-TwoUsers}
use ymatch.Lifecycle.Evolve.Calls.{update_inventory-Moved}
use ymatch.Common.{
  leb, ℕ, ◌≡◌, refl, sym, ap, ◌∙◌, inl, inr, Bool, true, false, not, ◌&&◌, ◌||◌, Option, none, some,
  List, [], ◌∷◌, ◌++◌, map, arith, ◌==◌, if◌then◌else◌, Bool-cases, select, fetch, All,
}
use ymatch.Common.Int.{ℤ}
use ymatch.Error.{ok}
use ymatch.Store.{
  Status, pending, offered, accepted, completed, rejected, cancelled, Db, MatchRow, UserRow,
  Holding, is_active,
}
use ymatch.Store.Capacity.{scope_of, list_active_scopes_for_user}
use ymatch.Store.Capacity.Meaning.{can_give}
use ymatch.Store.Inventory.{InventoryItem}
use ymatch.Lifecycle.{update_inventory, moves_capacity}
use ymatch.Lifecycle.Capacity.{CanTrade, update_inventory-CanTrade}
use ymatch.Rbac.{EventRow}
use ymatch.Rbac.Transfer.{has_event_id}
use ymatch.Rbac.Users.{get_by_id}
use ymatch.Catalog.{Site}
use ymatch.Cards.{
  TradeMatch, trade_match, card_of, list_for_user, is_in, is_rejected, other_id_of, joined,
  by_latest, insert_latest, user_haves, user_wants,
}
use ymatch.Cards.Candidates.{is_nonempty, haves-can_give, wants-can_give}

-- Both columns of the card have something in them.
abbrev pub OffersBoth : TradeMatch → Type 0
OffersBoth c = (is_nonempty c.user_haves ≡ true) × (is_nonempty c.user_wants ≡ true)

abbrev pub is_active_card : TradeMatch → Bool
is_active_card c = is_active c.row.status

active_stays : (s : Status) → is_active s ≡ true → is_rejected s ≡ false
active_stays pending h = refl
active_stays offered h = refl
active_stays accepted h = refl
active_stays completed h = refl
active_stays rejected h = cc
active_stays cancelled h = refl
active_stays (Status.other s) h = refl

module _ (user_id : ℕ) (site : Site) where
  abbrev ShowsBoth : MatchRow → Type 0
  ShowsBoth r =
      is_active r.status ≡ true
      → (is_nonempty (user_haves user_id (other_id_of user_id r) r.event_id r.group_name site.db)
          ≡ true)
        × (is_nonempty (user_wants user_id (other_id_of user_id r) r.event_id r.group_name site.db)
            ≡ true)

  shown_both :
      (r : MatchRow)
      → is_in user_id r ≡ true
      → (r.user1_id == r.user2_id) ≡ false
      → CanTrade site.db (scope_of r)
      → ShowsBoth r
  unfolding scope_of
  shown_both r mine two (there, back) active = elim (Bool-cases (r.user1_id == user_id)) [
    | inl first ↦
        let me : r.user1_id ≡ user_id = ground arith in
        let apart : (r.user2_id == user_id) ≡ false = ground arith in
        rw first (
          haves-can_give user_id r.user2_id r.event_id r.group_name site.db apart
              ∙ ap (λ (u : ℕ). can_give u r.user2_id r.event_id r.group_name site.db) (sym me)
              ∙ there,
          wants-can_give user_id r.user2_id r.event_id r.group_name site.db apart
              ∙ ap (λ (u : ℕ). can_give r.user2_id u r.event_id r.group_name site.db) (sym me)
              ∙ back,
        )
    | inr second ↦
        let me : r.user2_id ≡ user_id = ground arith in
        rw second (
          haves-can_give user_id r.user1_id r.event_id r.group_name site.db second
              ∙ ap (λ (u : ℕ). can_give u r.user1_id r.event_id r.group_name site.db) (sym me)
              ∙ back,
          wants-can_give user_id r.user1_id r.event_id r.group_name site.db second
              ∙ ap (λ (u : ℕ). can_give r.user1_id u r.event_id r.group_name site.db) (sym me)
              ∙ there,
        )
  ]

  keep :
      (kept : Bool) (r : MatchRow) (rest : List MatchRow)
      → ShowsBoth r
      → All ShowsBoth rest
      → is_in user_id r ≡ true
      → All ShowsBoth (if is_in user_id r && kept then r ∷ rest else rest)
  keep true r rest now all mine = rw mine (now, all)
  keep false r rest now all mine = rw mine all

  selected-ShowsBoth :
      (rows : List MatchRow)
      → TwoUsers rows
      → All (CanTrade site.db) (
          map scope_of (
            select
              (λ r. (r.user1_id == user_id || r.user2_id == user_id) && is_active r.status)
              rows))
      → All ShowsBoth
          (select (λ (r : MatchRow). is_in user_id r && not (is_rejected r.status)) rows)
  unfolding select
  selected-ShowsBoth [] two all = tt
  selected-ShowsBoth (r ∷ rs) two all = elim (Bool-cases (is_in user_id r)) [
    | inr other ↦ rw other (selected-ShowsBoth rs two.1 (rw other at all))
    | inl mine ↦ elim (Bool-cases (is_active r.status)) [
      | inl active ↦
          let both = rw (mine, active) at all in
          rw (mine, active_stays r.status active)
            (shown_both r mine two.0 both.0, selected-ShowsBoth rs two.1 both.1)
      | inr over ↦
          keep (not (is_rejected r.status)) r _ (λ active. absurd (cc))
            (selected-ShowsBoth rs two.1 (rw (mine, over) at all)) mine
    ]
  ]

  insert_latest-ShowsBoth :
      (r : MatchRow) (rows : List MatchRow)
      → ShowsBoth r
      → All ShowsBoth rows
      → All ShowsBoth (insert_latest r rows)
  unfolding insert_latest
  insert_latest-ShowsBoth r [] now all = (now, tt)
  insert_latest-ShowsBoth r (x ∷ xs) now all = elim (Bool-cases (leb x.created_at r.created_at)) [
    | inl newer ↦ rw newer (now, all)
    | inr older ↦ rw older (all.0, insert_latest-ShowsBoth r xs now all.1)
  ]

  by_latest-ShowsBoth : (rows : List MatchRow) → All ShowsBoth rows → All ShowsBoth (by_latest rows)
  unfolding by_latest
  by_latest-ShowsBoth [] all = tt
  by_latest-ShowsBoth (r ∷ rs) all =
      insert_latest-ShowsBoth r (by_latest rs) all.0 (by_latest-ShowsBoth rs all.1)

  abbrev cards_of : MatchRow → List TradeMatch
  cards_of r =
      card_of user_id site r (get_by_id (other_id_of user_id r) site.auth)
        (fetch (has_event_id r.event_id) site.auth.events)

  after_card :
      (other : Option UserRow) (e : Option EventRow) (r : MatchRow) (rest : List TradeMatch)
      → ShowsBoth r
      → All OffersBoth (select is_active_card rest)
      → All OffersBoth (select is_active_card (card_of user_id site r other e ++ rest))
  unfolding select trade_match
  after_card (some other) (some e) r rest now all = elim (Bool-cases (is_active r.status)) [
    | inl active ↦ rw active (now active, all)
    | inr over ↦ rw over all
  ]
  after_card none e r rest now all = all
  after_card (some other) none r rest now all = all

  joined-OffersBoth :
      (rows : List MatchRow)
      → All ShowsBoth rows
      → All OffersBoth (select is_active_card (joined cards_of rows))
  unfolding joined select
  joined-OffersBoth [] all = tt
  joined-OffersBoth (r ∷ rs) all =
      after_card (get_by_id (other_id_of user_id r) site.auth)
        (fetch (has_event_id r.event_id) site.auth.events) r (joined cards_of rs) all.0
        (joined-OffersBoth rs all.1)

-- Where no match is of a user with themselves, after a user's change of a WANT or TRADE row that succeeds, every
-- card of an active match in the list of matches of that user offers something on both sides: the cards that
-- could only be empty are those of matches that the change has cancelled.
pub update_inventory-OffersBoth :
    (user_id merch_id : ℕ) (status : Holding) (quantity : ℤ) (site : Site) (db' : Db)
    (item : InventoryItem)
    → moves_capacity status ≡ true
    → update_inventory user_id merch_id status quantity site.db ≡ ok (item, db')
    → TwoUsers site.db.matches
    → All OffersBoth (select is_active_card (list_for_user user_id (record site { db = db' })))
unfolding list_for_user list_active_scopes_for_user
update_inventory-OffersBoth user_id merch_id status quantity site db' item moves done two =
    let after : Site = record site { db = db' } in
    joined-OffersBoth user_id after _ (
      by_latest-ShowsBoth user_id after _ (
        selected-ShowsBoth user_id after db'.matches
          (Moves-TwoUsers
            (update_inventory-Moved user_id merch_id status quantity site.db db' item done).0 two)
          (update_inventory-CanTrade user_id merch_id status quantity site.db db' item moves done)))
