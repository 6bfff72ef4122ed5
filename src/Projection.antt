-- ===== src/Projection.antt =====
-- backend/src/services/inventory_projection.rs, with list_inventory_with_projection of match_lifecycle.rs
-- and list_for_user of repositories/inventory.rs: the inventory as it will be after the trades in
-- progress. A HashMap is an association list: its order of iteration is the list's, where the
-- source's is unspecified, and a lookup takes the first entry of a key. A status that the source
-- compares with the three constants is a `Holding`.

pub mod Deltas
pub mod Keys
pub mod Preview
pub mod Attach
pub mod Wrap
use ymatch.Common.{
  ℕ, zero, suc, ◌+◌, ◌-◌, ◌≤◌, ◌<◌, String, ◌≡◌, refl, sym, ap, ◌∙◌, ◌≢◌, ◌↔◌, ◌⊎◌, inl, inr, Bool,
  true, false, not, ◌&&◌, ◌||◌, Option, none, some, List, [], ◌∷◌, ◌++◌, map, arith, ◌==◌,
  if◌then◌else◌, Bool-cases, Option-cases, select, fetch, exists_row, update, delete, All,
}
use ymatch.Common.Int.{ℤ, pos, leb_ℤ, eqb_ℤ, add_i32, neg_i32}
use ymatch.Store.{Holding, have, want, trade, MerchRow, InventoryRow, Db, holding_eq, is_holding}
use ymatch.Store.Inventory.{InventoryItem}
use ymatch.Store.Read.{InventoryProjectionRow, list_inventory_projection_legs}

pub record ProjectionLeg : Type 0 where
  pub match_id : ℕ
  pub merch_id : ℕ
  pub giver_user_id : ℕ
  pub quantity : ℤ

pub record ProjectionMerch : Type 0 where
  pub merch_name : Option String
  pub photo_url : Option String
  pub group_name : Option String
  pub is_deleted : Option Bool

-- One entry of `ProjectionDeltas`.
pub record DeltaEntry : Type 0 where
  pub merch_id : ℕ
  pub status : Holding
  pub delta : ℤ

unfoldable pub projection_leg_deltas : ℕ → ℕ → ℤ → List (Holding × ℤ)
projection_leg_deltas user_id giver_user_id qty =
    if leb_ℤ qty (pos 0)
    then []
    else if giver_user_id == user_id
    then (have, neg_i32 qty) ∷ (trade, neg_i32 qty) ∷ []
    else (have, qty) ∷ (want, neg_i32 qty) ∷ []

abbrev pub at_delta : ℕ → Holding → DeltaEntry → Bool
at_delta merch_id status e = e.merch_id == merch_id && holding_eq e.status status

-- `*out.entry((merch_id, status)).or_insert(0) += delta`
unfoldable pub add_delta : ℕ → Holding → ℤ → List DeltaEntry → List DeltaEntry
add_delta merch_id status delta [] =
    record { merch_id = merch_id; status = status; delta = add_i32 (pos 0) delta } ∷ []
add_delta merch_id status delta (e ∷ es) =
    if at_delta merch_id status e
    then record e { delta = add_i32 e.delta delta } ∷ es
    else e ∷ add_delta merch_id status delta es

unfoldable pub add_deltas : ℕ → List (Holding × ℤ) → List DeltaEntry → List DeltaEntry
unfolding add_delta
add_deltas merch_id [] out = out
add_deltas merch_id ((status, delta) ∷ ds) out =
    add_deltas merch_id ds (add_delta merch_id status delta out)

unfoldable pub add_leg : ℕ → ProjectionLeg → List DeltaEntry → List DeltaEntry
unfolding add_deltas projection_leg_deltas
add_leg user_id leg out =
    add_deltas leg.merch_id (projection_leg_deltas user_id leg.giver_user_id leg.quantity) out

-- `exclude_match_id == Some(leg.match_id)`
abbrev pub is_excluded : Option ℕ → ProjectionLeg → Bool
is_excluded none leg = false
is_excluded (some match_id) leg = match_id == leg.match_id

unfoldable pub add_legs : ℕ → Option ℕ → List ProjectionLeg → List DeltaEntry → List DeltaEntry
unfolding add_leg
add_legs user_id exclude_match_id [] out = out
add_legs user_id exclude_match_id (leg ∷ legs) out =
    add_legs user_id exclude_match_id legs
      (if is_excluded exclude_match_id leg then out else add_leg user_id leg out)

abbrev pub is_zero : DeltaEntry → Bool
is_zero e = eqb_ℤ e.delta (pos 0)

unfoldable pub accumulate_projection_deltas :
    ℕ → List ProjectionLeg → Option ℕ → List ProjectionLeg → List DeltaEntry
unfolding add_legs
accumulate_projection_deltas user_id legs exclude_match_id overlay =
    delete is_zero (add_legs user_id none overlay (add_legs user_id exclude_match_id legs []))

-- `.copied().unwrap_or(0)`
abbrev pub delta_or_zero : Option DeltaEntry → ℤ
delta_or_zero none = pos 0
delta_or_zero (some e) = e.delta

-- `deltas.get(&(merch_id, status)).copied().unwrap_or(0)`
unfoldable pub delta_at : ℕ → Holding → List DeltaEntry → ℤ
delta_at merch_id status es = delta_or_zero (fetch (at_delta merch_id status) es)

abbrev pub at_item : ℕ → Holding → InventoryItem → Bool
at_item merch_id status i = i.merch_id == merch_id && holding_eq i.status status

-- The body of the loop over the rows. A status that is none of the three keeps its quantity.
unfoldable pub project_item : List DeltaEntry → InventoryItem → InventoryItem
unfolding delta_at
project_item deltas item =
    if is_holding item.status
    then record item {
      projected_quantity = some (add_i32 item.quantity (delta_at item.merch_id item.status deltas));
    }
    else record item { projected_quantity = some item.quantity }

abbrev merch_of_item : InventoryItem → ProjectionMerch
merch_of_item item = record {
  merch_name = item.merch_name;
  photo_url = item.photo_url;
  group_name = item.group_name;
  is_deleted = item.is_deleted;
}

-- `from_items.get(merch_id)`
abbrev from_items : ℕ → List InventoryItem → Option ProjectionMerch
from_items merch_id items = elim (fetch (λ (i : InventoryItem). i.merch_id == merch_id) items) [
  | none ↦ none
  | some i ↦ some (merch_of_item i)
]

-- `merch.get(merch_id)`
abbrev merch_get : ℕ → List (ℕ × ProjectionMerch) → Option ProjectionMerch
merch_get merch_id [] = none
merch_get merch_id ((key, m) ∷ rest) = if key == merch_id then some m else merch_get merch_id rest

abbrev or_else {ℓ} : {A : Type ℓ} → Option A → Option A → Option A
or_else none o = o
or_else (some a) o = some a

abbrev synthetic : ℕ → DeltaEntry → Option ProjectionMerch → InventoryItem
synthetic user_id e meta = record {
  id = 0;
  user_id = user_id;
  merch_id = e.merch_id;
  status = e.status;
  quantity = pos 0;
  merch_name = or_else (elim meta [ none ↦ none | some m ↦ m.merch_name ]) (some "");
  photo_url = elim meta [ none ↦ none | some m ↦ m.photo_url ];
  group_name = elim meta [ none ↦ none | some m ↦ m.group_name ];
  is_deleted = elim meta [ none ↦ none | some m ↦ m.is_deleted ];
  projected_quantity = some e.delta;
}

-- The loop over the deltas. `seen` holds the keys of the rows with one of the three statuses, and a
-- delta's status is one of them.
unfoldable pub synthesize :
    ℕ → List (ℕ × ProjectionMerch) → List InventoryItem → List DeltaEntry → List InventoryItem
synthesize user_id merch items [] = []
synthesize user_id merch items (e ∷ es) =
    let rest = synthesize user_id merch items es in
    if exists_row (at_item e.merch_id e.status) items
    then rest
    else synthetic user_id e (or_else (merch_get e.merch_id merch) (from_items e.merch_id items))
      ∷ rest

unfoldable pub attach_projected_quantities :
    List InventoryItem → ℕ → List DeltaEntry → List (ℕ × ProjectionMerch) → List InventoryItem
unfolding project_item synthesize
attach_projected_quantities items user_id deltas merch =
    map (project_item deltas) items ++ synthesize user_id merch items deltas

abbrev item_of : InventoryRow → MerchRow → InventoryItem
item_of r m = record {
  id = r.id;
  user_id = r.user_id;
  merch_id = r.merch_id;
  status = r.status;
  quantity = r.quantity;
  merch_name = some m.name;
  photo_url = m.photo_url;
  group_name = m.group_name;
  is_deleted = some m.is_deleted;
  projected_quantity = none;
}

-- The join with `merchandise`, whose id is a primary key.
unfoldable pub join_merch : Db → List InventoryRow → List InventoryItem
join_merch db [] = []
join_merch db (r ∷ rs) =
    let rest = join_merch db rs in
    elim (fetch (λ (m : MerchRow). m.id == r.merch_id) db.merchandise) [
      | none ↦ rest
      | some m ↦ item_of r m ∷ rest
    ]

unfoldable pub list_for_user : ℕ → Db → List InventoryItem
unfolding join_merch
list_for_user user_id db =
    join_merch db (select (λ (r : InventoryRow). r.user_id == user_id) db.inventory)

abbrev pub leg_of_row : InventoryProjectionRow → ProjectionLeg
leg_of_row row = record {
  match_id = row.match_id;
  merch_id = row.merch_id;
  giver_user_id = row.giver_user_id;
  quantity = row.quantity;
}

-- `merch.entry(row.merch_id).or_insert(…)`: the first row of a merch counts.
abbrev pub merch_of_row : InventoryProjectionRow → ℕ × ProjectionMerch
merch_of_row row = (
  row.merch_id,
  record {
    merch_name = row.merch_name;
    photo_url = row.photo_url;
    group_name = row.group_name;
    is_deleted = some row.is_deleted;
  },
)

unfoldable pub list_inventory_with_projection : ℕ → Db → List InventoryItem
unfolding list_for_user list_inventory_projection_legs attach_projected_quantities
list_inventory_with_projection user_id db =
    let rows = list_inventory_projection_legs user_id db in
    attach_projected_quantities (list_for_user user_id db) user_id
      (accumulate_projection_deltas user_id (map leg_of_row rows) none []) (map merch_of_row rows)
