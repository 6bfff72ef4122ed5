-- ===== src/Lifecycle/Guards.antt =====
-- backend/src/services/match_lifecycle.rs: the guards of the match state machine, which need no
-- database.
use ymatch.Common.{
  ℕ, Bool, true, false, not, ◌&&◌, ◌||◌, Option, none, some, List, [], ◌∷◌, ◌==◌, if◌then◌else◌,
}
use ymatch.Common.Int.{ℤ, pos, leb_ℤ, ltb_ℤ, eqb_ℤ, add_i32, neg_i32}
use ymatch.Error.{Result, ok, err, bad_request, forbidden, conflict, ◌>>=◌}
use ymatch.Store.{Status, pending, offered, accepted, completed, rejected}
use ymatch.Store.Inventory.{QtyMap, qty_of}
use ymatch.Store.Matches.{OfferItem}

abbrev pub is_participant : ℕ → ℕ → ℕ → Bool
is_participant user_id user1_id user2_id = user_id == user1_id || user_id == user2_id

-- `offered_by.unwrap_or(user1_id)`
abbrev pub proposer_or : Option ℕ → ℕ → ℕ
proposer_or none user1_id = user1_id
proposer_or (some user_id) user1_id = user_id

unfoldable pub propose_from : Status → ℕ → ℕ → Result (Unit {0})
propose_from pending user_id proposer = ok tt
propose_from offered user_id proposer =
    if user_id == proposer
    then err (bad_request "Cannot counter your own proposal; wait for a response")
    else ok tt
propose_from _ user_id proposer = err (bad_request "Can only propose on PENDING or OFFERED matches")

unfoldable pub validate_propose_transition : Status → ℕ → ℕ → ℕ → Option ℕ → Result (Unit {0})
unfolding propose_from
validate_propose_transition status user_id user1_id user2_id offered_by =
    if is_participant user_id user1_id user2_id
    then propose_from status user_id (proposer_or offered_by user1_id)
    else err (forbidden "Not part of this match")

unfoldable pub validate_participation : ℕ → ℕ → ℕ → Result (Unit {0})
validate_participation user_id user1_id user2_id =
    if is_participant user_id user1_id user2_id
    then ok tt
    else err (forbidden "Not part of this match")

unfoldable pub validate_transition_target : Status → Result (Unit {0})
validate_transition_target accepted = ok tt
validate_transition_target rejected = ok tt
validate_transition_target completed = ok tt
validate_transition_target _ = err (bad_request "Invalid status")

-- The new status, then the current one.
unfoldable pub validate_status_transition : Status → Status → Result (Unit {0})
validate_status_transition accepted offered = ok tt
validate_status_transition accepted _ = err (bad_request "Can only accept OFFERED matches")
validate_status_transition rejected pending = ok tt
validate_status_transition rejected offered = ok tt
validate_status_transition rejected _ =
    err (bad_request "Can only reject PENDING or OFFERED matches")
validate_status_transition _ _ = ok tt

pub data CompleteAction : Type 0 where
  complete_match mark_self : CompleteAction

unfoldable pub validate_complete : Status → Bool → Result CompleteAction
validate_complete accepted completed_by_user = ok complete_match
validate_complete completed true = err (conflict "Match already completed by this user")
validate_complete completed false = ok mark_self
validate_complete _ completed_by_user = err (bad_request "Can only complete ACCEPTED matches")

unfoldable pub validate_cancel_transition : Status → Result (Unit {0})
validate_cancel_transition pending = ok tt
validate_cancel_transition offered = ok tt
validate_cancel_transition accepted = ok tt
validate_cancel_transition _ =
    err (bad_request "Can only cancel PENDING, OFFERED, or ACCEPTED matches")

-- giver, merch and summed quantity: the nested maps of the source as one map by the pair.
abbrev pub Totals : Type 0
Totals = List (ℕ × ℕ × ℤ)

unfoldable pub add_total : ℕ → ℕ → ℤ → Totals → Totals
add_total giver merch_id quantity [] = (giver, merch_id, add_i32 (pos 0) quantity) ∷ []
add_total giver merch_id quantity ((g, m, q) ∷ ts) =
    if g == giver && m == merch_id
    then (g, m, add_i32 q quantity) ∷ ts
    else (g, m, q) ∷ add_total giver merch_id quantity ts

-- The loop that both capacity checks begin with.
unfoldable pub sum_legs : ℕ → ℕ → List OfferItem → Totals → Result Totals
unfolding add_total
sum_legs user1_id user2_id [] totals = ok totals
sum_legs user1_id user2_id (i ∷ is) totals =
    if not (is_participant i.giver_user_id user1_id user2_id)
    then err (bad_request "Invalid leg giver")
    else if ltb_ℤ i.quantity (pos 0)
    then err (bad_request "Offer quantity must not be negative")
    else sum_legs user1_id user2_id is (
        if ltb_ℤ (pos 0) i.quantity
        then add_total i.giver_user_id i.merch_id i.quantity totals
        else totals)

-- The loop that both end with: `caps` is the map of the giver's own or of the other side.
unfoldable pub within_caps : (ℕ → QtyMap) → Totals → Bool
within_caps caps [] = true
within_caps caps ((g, m, q) ∷ ts) = leb_ℤ q (qty_of m (caps g)) && within_caps caps ts

-- The receiver's WANT map for a leg that `giver` gives.
abbrev pub receiver_wants : ℕ → ℕ → QtyMap → QtyMap → ℕ → QtyMap
receiver_wants user1_id user2_id user1_wants user2_wants giver =
    let non_giver = if giver == user1_id then user2_id else user1_id in
    if non_giver == user1_id then user1_wants else user2_wants

abbrev pub giver_trades : ℕ → QtyMap → QtyMap → ℕ → QtyMap
giver_trades user1_id user1_trade user2_trade giver =
    if giver == user1_id then user1_trade else user2_trade

unfoldable pub validate_legs : List OfferItem → ℕ → ℕ → QtyMap → QtyMap → Result (Unit {0})
validate_legs items user1_id user2_id user1_wants user2_wants = do
  totals ← sum_legs user1_id user2_id items []
  if within_caps (receiver_wants user1_id user2_id user1_wants user2_wants) totals
      then ok tt
      else err (bad_request "Offered quantity exceeds the matched/wanted quantity")

unfoldable pub validate_giver_trade_capacity :
    List OfferItem → ℕ → ℕ → QtyMap → QtyMap → Result (Unit {0})
validate_giver_trade_capacity items user1_id user2_id user1_trade user2_trade = do
  totals ← sum_legs user1_id user2_id items []
  if within_caps (giver_trades user1_id user1_trade user2_trade) totals
      then ok tt
      else err (bad_request "Offered quantity exceeds the giver's TRADE quantity")

-- The two sums of `is_balanced`.
unfoldable pub balance_sums : List (ℕ × ℤ) → ℕ → ℕ → ℤ → ℤ → ℤ × ℤ
balance_sums [] user1_id user2_id u1 u2 = (u1, u2)
balance_sums ((giver, qty) ∷ legs) user1_id user2_id u1 u2 =
    balance_sums legs user1_id user2_id (if giver == user1_id then add_i32 u1 qty else u1)
      (if giver == user1_id then u2 else if giver == user2_id then add_i32 u2 qty else u2)

unfoldable pub is_balanced : List (ℕ × ℤ) → ℕ → ℕ → Bool
unfolding balance_sums
is_balanced legs user1_id user2_id =
    let (u1, u2) = balance_sums legs user1_id user2_id (pos 0) (pos 0) in
    eqb_ℤ u1 u2 && ltb_ℤ (pos 0) u1

-- (delta_trade, delta_have, delta_want)
unfoldable pub apply_inventory_delta : ℕ → ℕ → ℤ → Bool → ℤ × ℤ × ℤ
apply_inventory_delta giver_id requesting_user_id quantity skip_have_decrement =
    if giver_id == requesting_user_id
    then (quantity, (if skip_have_decrement then pos 0 else neg_i32 quantity), pos 0)
    else (pos 0, quantity, neg_i32 quantity)
