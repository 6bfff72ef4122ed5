-- ===== src/Cards.antt =====
-- backend/src/repositories/match_/read.rs: the lists of matches and the counts of the badge. The joins go by
-- nested loops in the order of the tables; times count from the epoch.
pub mod Candidates
pub mod Counts
pub mod Offered
use ymatch.Common.{
  leb, str_eq, ℕ, zero, suc, ◌+◌, ◌-◌, ◌≤◌, ◌<◌, String, ◌≡◌, refl, sym, ap, ◌∙◌, ◌≢◌, ◌↔◌, ◌⊎◌,
  inl, inr, Bool, true, false, not, ◌&&◌, ◌||◌, Option, none, some, List, [], ◌∷◌, ◌++◌, map, arith,
  ◌==◌, if◌then◌else◌, Bool-cases, Option-cases, select, fetch, exists_row, update, delete, All,
}
use ymatch.Common.{length}
use ymatch.Common.Int.{ℤ, pos, ltb_ℤ, min_ℤ, to_i32, ◌+ℤ◌}
use ymatch.Store.{
  Status, pending, offered, accepted, completed, rejected, cancelled, Holding, trade, want,
  holding_eq, Db, MatchRow, MatchItemRow, MessageRow, MerchRow, InventoryRow, UserRow, is_active,
  is_completed,
}
use ymatch.Store.Matches.{in_group, is_some}
use ymatch.Store.Matcher.{is_tradeable}
use ymatch.Store.Read.{list_match_items}
use ymatch.Rbac.{Authority, EventRow}
use ymatch.Rbac.Transfer.{has_event_id, has_group_name}
use ymatch.Rbac.Users.{get_by_id}
use ymatch.Catalog.{Site}
use ymatch.Favorites.{shown_name}

-- ORDER BY created_at DESC: rows of one time, which Postgres may list in any order, stay as they stand.
unfoldable pub insert_latest : MatchRow → List MatchRow → List MatchRow
insert_latest r [] = r ∷ []
insert_latest r (x ∷ xs) =
    if leb x.created_at r.created_at then r ∷ x ∷ xs else x ∷ insert_latest r xs

unfoldable pub by_latest : List MatchRow → List MatchRow
unfolding insert_latest
by_latest [] = []
by_latest (r ∷ rs) = insert_latest r (by_latest rs)

-- `MatchRepository::list_all`
unfoldable pub list_all_matches_of : Db → List MatchRow
unfolding by_latest
list_all_matches_of db = by_latest db.matches

-- A JOIN: the rows that each row gives.
unfoldable pub joined {ℓ κ} : {A : Type ℓ} → {B : Type κ} → (A → List B) → List A → List B
joined rows_of [] = []
joined rows_of (x ∷ xs) = rows_of x ++ joined rows_of xs

-- An item that the match card offers, with the group of its merchandise and the peer.
pub record Candidate : Type 0 where
  pub id : ℕ
  pub user_id : ℕ
  pub merch_id : ℕ
  pub status : Holding
  pub quantity : ℤ
  pub merch_name : String
  pub photo_url : Option String
  pub event_id : ℕ
  pub group_name : Option String
  pub peer_user_id : ℕ

abbrev pub candidate : InventoryRow → MerchRow → InventoryRow → ℕ → Candidate
candidate i m w peer = record {
  id = i.id;
  user_id = i.user_id;
  merch_id = i.merch_id;
  status = i.status;
  quantity = min_ℤ i.quantity w.quantity;
  merch_name = m.name;
  photo_url = m.photo_url;
  event_id = m.event_id;
  group_name = m.group_name;
  peer_user_id = peer;
}

abbrev pub is_offer : InventoryRow → Bool
is_offer i = holding_eq i.status trade && ltb_ℤ (pos 0) i.quantity

abbrev pub is_want_of : ℕ → InventoryRow → Bool
is_want_of merch_id w =
    w.merch_id == merch_id && holding_eq w.status want && ltb_ℤ (pos 0) w.quantity

abbrev pub is_tradeable_merch : ℕ → MerchRow → Bool
is_tradeable_merch merch_id m = m.id == merch_id && is_tradeable m

-- The three-way join of both queries, for the givers and the receivers that they let through.
unfoldable pub candidates : (ℕ → Bool) → (ℕ → Bool) → (ℕ → ℕ → ℕ) → Db → List Candidate
unfolding joined
candidates gives receives peer_of db =
    joined
      (λ (i : InventoryRow).
        if gives i.user_id && is_offer i
        then joined
            (λ (m : MerchRow).
              if is_tradeable_merch i.merch_id m
              then joined
                  (λ (w : InventoryRow).
                    if is_want_of i.merch_id w && receives w.user_id
                    then candidate i m w (peer_of i.user_id w.user_id) ∷ []
                    else [])
                  db.inventory
              else [])
            db.merchandise
        else [])
      db.inventory

-- Query 2: what the user trades and a peer wants.
unfoldable pub have_rows : ℕ → Db → List Candidate
unfolding candidates
have_rows user_id =
    candidates (λ giver. giver == user_id) (λ receiver. not (receiver == user_id))
      (λ giver receiver. receiver)

-- Query 3: what a peer trades and the user wants.
unfoldable pub want_rows : ℕ → Db → List Candidate
unfolding candidates
want_rows user_id =
    candidates (λ giver. not (giver == user_id)) (λ receiver. receiver == user_id)
      (λ giver receiver. giver)

-- The entry of the map by peer, event and group.
abbrev pub is_for : ℕ → ℕ → String → Candidate → Bool
is_for peer event_id group_name c =
    c.peer_user_id == peer && c.event_id == event_id && in_group c.group_name group_name

unfoldable pub user_haves : ℕ → ℕ → ℕ → String → Db → List Candidate
unfolding have_rows
user_haves user_id other_id event_id group_name db =
    select (is_for other_id event_id group_name) (have_rows user_id db)

unfoldable pub user_wants : ℕ → ℕ → ℕ → String → Db → List Candidate
unfolding want_rows
user_wants user_id other_id event_id group_name db =
    select (is_for other_id event_id group_name) (want_rows user_id db)

abbrev pub is_in : ℕ → MatchRow → Bool
is_in user_id r = r.user1_id == user_id || r.user2_id == user_id

-- A message without a type is TEXT; `message_type` is never NULL here.
abbrev pub is_peer_text : ℕ → MessageRow → Bool
is_peer_text user_id m = not (m.sender_id == user_id) && not (str_eq m.message_type "SYSTEM")

abbrev pub or_epoch : Option ℕ → ℕ
or_epoch none = 0
or_epoch (some t) = t

abbrev pub watermark : ℕ → MatchRow → ℕ
watermark user_id r = or_epoch (
    if r.user1_id == user_id
    then r.user1_messages_read_at
    else if r.user2_id == user_id
    then r.user2_messages_read_at
    else none)

abbrev pub is_unread : ℕ → MatchRow → MessageRow → Bool
is_unread user_id r m =
    m.match_id == r.id && is_peer_text user_id m && not (leb m.created_at (watermark user_id r))

-- Query 5, for one match.
-- COUNT(*) as i32
unfoldable pub unread_count : ℕ → MatchRow → Db → ℤ
unread_count user_id r db = to_i32 (pos (length (select (is_unread user_id r) db.messages)))

pub record TradeMatch : Type 0 where
  pub row : MatchRow
  pub other_id : ℕ
  pub other_username : String
  pub event_name : String
  pub group_display_name : Option String
  pub user_haves : List Candidate
  pub user_wants : List Candidate
  pub selected_items : List MatchItemRow
  pub inventory_applied : Bool
  pub completed_by_me : Bool
  pub counterpart_completed : Bool
  pub unread_message_count : ℤ

abbrev pub other_id_of : ℕ → MatchRow → ℕ
other_id_of user_id r = if r.user1_id == user_id then r.user2_id else r.user1_id

unfoldable pub trade_match : ℕ → Site → MatchRow → UserRow → EventRow → TradeMatch
unfolding ymatch.Cards.user_haves ymatch.Cards.user_wants list_match_items unread_count
trade_match user_id site r other e =
    let first = r.user1_id == user_id in
    record {
      row = r;
      other_id = other_id_of user_id r;
      other_username = other.username;
      event_name = e.name;
      group_display_name =
          shown_name (fetch (has_group_name r.event_id r.group_name) site.auth.groups);
      user_haves =
          ymatch.Cards.user_haves user_id (other_id_of user_id r) r.event_id r.group_name site.db;
      user_wants =
          ymatch.Cards.user_wants user_id (other_id_of user_id r) r.event_id r.group_name site.db;
      selected_items = list_match_items r.id site.db;
      inventory_applied =
          is_some (if first then r.user1_inventory_applied_at else r.user2_inventory_applied_at);
      completed_by_me = is_some (if first then r.user1_completed_at else r.user2_completed_at);
      counterpart_completed =
          is_some (if first then r.user2_completed_at else r.user1_completed_at);
      unread_message_count = unread_count user_id r site.db;
    }

abbrev pub card_of : ℕ → Site → MatchRow → Option UserRow → Option EventRow → List TradeMatch
card_of user_id site r (some other) (some e) = trade_match user_id site r other e ∷ []
card_of user_id site r _ _ = []

abbrev pub is_rejected : Status → Bool
is_rejected rejected = true
is_rejected _ = false

-- Query 1 and the assembly.
unfoldable pub list_for_user : ℕ → Site → List TradeMatch
unfolding joined by_latest
list_for_user user_id site =
    joined
      (λ (r : MatchRow).
        card_of user_id site r (get_by_id (other_id_of user_id r) site.auth)
          (fetch (has_event_id r.event_id) site.auth.events))
      (by_latest
        (select (λ (r : MatchRow). is_in user_id r && not (is_rejected r.status)) site.db.matches))

pub record NotificationCounts : Type 0 where
  pub pending_matches : ℤ
  pub offers_in : ℤ
  pub accepted_matches : ℤ
  pub unread_messages : ℤ
  pub total : ℤ

abbrev pub is_pending : Status → Bool
is_pending pending = true
is_pending _ = false

abbrev pub is_offered : Status → Bool
is_offered offered = true
is_offered _ = false

abbrev pub is_accepted : Status → Bool
is_accepted accepted = true
is_accepted _ = false

-- `offered_by != $1`, which NULL does not satisfy.
abbrev pub by_peer : ℕ → Option ℕ → Bool
by_peer user_id none = false
by_peer user_id (some proposer) = not (proposer == user_id)

abbrev pub is_offer_in : ℕ → MatchRow → Bool
is_offer_in user_id r = is_offered r.status && by_peer user_id r.offered_by

-- COMPLETED, and not yet by the user.
abbrev pub is_left_to_complete : ℕ → MatchRow → Bool
is_left_to_complete user_id r =
    is_completed r.status
    && not (is_some (if r.user1_id == user_id then r.user1_completed_at else r.user2_completed_at))

abbrev pub is_in_progress : ℕ → MatchRow → Bool
is_in_progress user_id r = is_accepted r.status || is_left_to_complete user_id r

abbrev pub count_matches : ℕ → (MatchRow → Bool) → Db → ℕ
count_matches user_id test db = length (select (λ r. is_in user_id r && test r) db.matches)

abbrev pub counts_unread : ℕ → MessageRow → MatchRow → Bool
counts_unread user_id m r =
    is_in user_id r
    && (is_active r.status || is_left_to_complete user_id r)
    && is_unread user_id r m

unfoldable pub count_unread : ℕ → Db → ℕ
unfolding joined
count_unread user_id db =
    length (joined (λ (m : MessageRow). select (counts_unread user_id m) db.matches) db.messages)

unfoldable pub notification_counts : ℕ → Db → NotificationCounts
unfolding count_unread
notification_counts user_id db =
    let pending_count = count_matches user_id (λ r. is_pending r.status) db in
    let offers_in = count_matches user_id (is_offer_in user_id) db in
    let accepted_count = count_matches user_id (is_in_progress user_id) db in
    let unread = count_unread user_id db in
    let unread_badge = if leb 1 unread then 1 else 0 in
    record {
      pending_matches = to_i32 (pos pending_count);
      offers_in = to_i32 (pos offers_in);
      accepted_matches = to_i32 (pos accepted_count);
      unread_messages = to_i32 (pos unread);
      total = to_i32 (pos (pending_count + offers_in + accepted_count + unread_badge));
    }
