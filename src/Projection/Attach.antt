-- ===== src/Projection/Attach.antt =====
-- Where each row of the projected inventory comes from.
use ymatch.Projection.Preview.{none_excluded, accumulate_projection_deltas-applied}
use ymatch.Store.Read.{list_inventory_projection_legs}
use ymatch.Common.{
  total, ==_iff, ℕ, ◌≡◌, refl, ap, ◌∙◌, inl, inr, true, false, Option, none, some, List, [], ◌∷◌,
  ◌++◌, map, arith, if◌then◌else◌, Bool-cases, Option-cases, fetch, exists_row, delete,
}
use ymatch.Common.Rows.{fetch-none}
use ymatch.Common.Int.{to_i32, ℤ, pos, eqb_ℤ, add_i32}
use ymatch.Store.{Db, Holding, is_holding}
use ymatch.Store.Inventory.{InventoryItem}
use ymatch.Projection.{
  merch_of_row, leg_of_row, list_for_user, list_inventory_with_projection,
  accumulate_projection_deltas, is_zero, is_excluded, add_legs, merch_of_row, add_legs, leg_of_row,
  list_for_user, accumulate_projection_deltas, is_zero, list_inventory_with_projection, DeltaEntry,
  ProjectionMerch, at_delta, at_item, delta_at, project_item, synthesize,
  attach_projected_quantities,
}
use ymatch.Projection.Deltas.{+ℤ_zero, raw_change, holding_eq_iff}

-- The quantity and the projected quantity of the first row at a key.
abbrev pub quantities : Option InventoryItem → Option (ℤ × Option ℤ)
quantities none = none
quantities (some i) = some (i.quantity, i.projected_quantity)

abbrev pub shown : ℕ → Holding → List InventoryItem → Option (ℤ × Option ℤ)
shown m s items = quantities (fetch (at_item m s) items)

abbrev with_delta : ℤ → Option InventoryItem → Option (ℤ × Option ℤ)
with_delta d none = none
with_delta d (some i) = some (i.quantity, some (add_i32 i.quantity d))

abbrev of_delta : Option DeltaEntry → Option (ℤ × Option ℤ)
of_delta none = none
of_delta (some e) = some (pos 0, some e.delta)

module _ (m : ℕ) (s : Holding) (deltas : List DeltaEntry) (known : is_holding s ≡ true) where
  project_item-at : (i : InventoryItem) → at_item m s (project_item deltas i) ≡ at_item m s i
  unfolding project_item
  project_item-at i = elim (Bool-cases (is_holding i.status)) [
    | inl one_of_three ↦ rw one_of_three refl
    | inr other_text ↦ rw other_text refl
  ]

  project_item-projected :
      (i : InventoryItem)
      → at_item m s i ≡ true
      → quantities (some (project_item deltas i)) ≡ with_delta (delta_at m s deltas) (some i)
  unfolding project_item
  project_item-projected i hit =
      let m_eq : i.merch_id ≡ m = (==_iff _ _).0 (ground arith) in
      let s_eq : i.status ≡ s = (holding_eq_iff _ _).0 (ground arith) in rw (m_eq, s_eq, known) refl

  shown-map-project_item :
      (items : List InventoryItem)
      → shown m s (map (project_item deltas) items)
        ≡ with_delta (delta_at m s deltas) (fetch (at_item m s) items)
  unfolding fetch
  shown-map-project_item [] = refl
  shown-map-project_item (i ∷ is) = elim (Bool-cases (at_item m s i)) [
    | inl hit ↦ rw (project_item-at i, hit) (project_item-projected i hit)
    | inr miss ↦ rw (project_item-at i, miss) (shown-map-project_item is)
  ]

moved_item :
    (m : ℕ) (s : Holding) (e : DeltaEntry) (items : List InventoryItem)
    → at_delta m s e ≡ true
    → exists_row (at_item m s) items ≡ false
    → exists_row (at_item e.merch_id e.status) items ≡ false
moved_item m s e items hit gone =
    let m_eq : e.merch_id ≡ m = (==_iff _ _).0 (ground arith) in
    let s_eq : e.status ≡ s = (holding_eq_iff _ _).0 (ground arith) in rw (m_eq, s_eq) gone

-- With no row at the key, the loop over the deltas shows the entry of the key.
shown-synthesize :
    (m user_id : ℕ) (s : Holding) (merch : List (ℕ × ProjectionMerch)) (items : List InventoryItem)
    (deltas : List DeltaEntry)
    → exists_row (at_item m s) items ≡ false
    → shown m s (synthesize user_id merch items deltas) ≡ of_delta (fetch (at_delta m s) deltas)
unfolding synthesize fetch
shown-synthesize m user_id s merch items [] gone = refl
shown-synthesize m user_id s merch items (e ∷ es) gone = elim (Bool-cases (at_delta m s e)) [
  | inl hit ↦ rw (hit, moved_item m s e items hit gone) (rw hit refl)
  | inr miss ↦ rw miss (elim (Bool-cases (exists_row (at_item e.merch_id e.status) items)) [
    | inl seen ↦ rw seen (shown-synthesize m user_id s merch items es gone)
    | inr unseen ↦ rw unseen (rw miss (shown-synthesize m user_id s merch items es gone))
  ])
]

-- A row of the inventory shows its quantity with the delta added; a key without a row shows
-- 0 with the delta of its entry, where there is one.
abbrev attached : Option InventoryItem → ℤ → Option DeltaEntry → Option (ℤ × Option ℤ)
attached (some i) d entry = with_delta d (some i)
attached none d entry = of_delta entry

abbrev none_shown : Option (ℤ × Option ℤ) → Option (ℤ × Option ℤ) → Option (ℤ × Option ℤ)
none_shown (some v) later = some v
none_shown none later = later

shown-append :
    (m : ℕ) (s : Holding) (xs ys : List InventoryItem)
    → shown m s (xs ++ ys) ≡ none_shown (shown m s xs) (shown m s ys)
unfolding fetch
shown-append m s [] ys = refl
shown-append m s (x ∷ xs) ys = elim (Bool-cases (at_item m s x)) [
  | inl hit ↦ rw hit refl
  | inr miss ↦ rw miss (shown-append m s xs ys)
]

shown-attach_projected_quantities :
    (m user_id : ℕ) (s : Holding) (items : List InventoryItem) (deltas : List DeltaEntry)
    (merch : List (ℕ × ProjectionMerch))
    → is_holding s ≡ true
    → shown m s (attach_projected_quantities items user_id deltas merch)
      ≡ attached (fetch (at_item m s) items) (delta_at m s deltas) (fetch (at_delta m s) deltas)
unfolding attach_projected_quantities
shown-attach_projected_quantities m user_id s items deltas merch known =
    shown-append m s (map (project_item deltas) items) (synthesize user_id merch items deltas)
    ∙ rw (shown-map-project_item m s deltas known items)
        (elim (Option-cases (fetch (at_item m s) items)) [
          | inr (i, there) ↦ rw there refl
          | inl gone ↦ rw gone (
              shown-synthesize m user_id s merch items deltas (fetch-none (at_item m s) items gone))
        ])

-- What a key shows by the row of the inventory, if there is one, and the projected change.
abbrev pub expected : Option InventoryItem → ℤ → Option (ℤ × Option ℤ)
expected (some i) d = some (i.quantity, some (add_i32 i.quantity d))
expected none d = if eqb_ℤ d (pos 0) then none else some (pos 0, some d)

kept_entry :
    (m : ℕ) (s : Holding) (es : List DeltaEntry)
    → of_delta (fetch (at_delta m s) (delete is_zero es))
      ≡ expected none (delta_at m s (delete is_zero es))
unfolding delete fetch delta_at
kept_entry m s [] = refl
kept_entry m s (e ∷ es) = elim (Bool-cases (is_zero e)) [
  | inl zero_delta ↦ rw zero_delta (kept_entry m s es)
  | inr moves ↦ rw moves elim (Bool-cases (at_delta m s e)) [
    | inl here ↦ rw (here, moves) refl
    | inr later ↦ rw later (kept_entry m s es)
  ]
]

attached-expected :
    (o : Option InventoryItem) (entry : Option DeltaEntry) (d : ℤ)
    → of_delta entry ≡ expected none d
    → attached o d entry ≡ expected o d
attached-expected (some i) entry d h = refl
attached-expected none entry d h = h

-- For each of the three statuses of a merch, the listing shows the user's row with its quantity and, as
-- projected quantity, that quantity plus (wrapped at 32 bits) the exact sum of the raw deltas of
-- `apply_inventory_delta`, without a skip, over the legs on the table. Where the user has no row, it shows a row
-- with quantity 0 and that sum, wrapped, if it is not 0 then, and no row if it is. Unlike the quantity that an
-- apply leaves, what is shown is not clamped at 0.
pub list_inventory_with_projection-shown :
    (m user_id : ℕ) (s : Holding) (db : Db)
    → is_holding s ≡ true
    → shown m s (list_inventory_with_projection user_id db)
      ≡ expected (fetch (at_item m s) (list_for_user user_id db)) (
          to_i32 (
            total
              (raw_change user_id m s)
              (map leg_of_row (list_inventory_projection_legs user_id db))))
unfolding list_inventory_with_projection accumulate_projection_deltas total
list_inventory_with_projection-shown m user_id s db known =
    let rows = list_inventory_projection_legs user_id db in
    let legs = map leg_of_row rows in
    let deltas = accumulate_projection_deltas user_id legs none [] in
    let sum : delta_at m s deltas ≡ to_i32 (total (raw_change user_id m s) legs) =
      accumulate_projection_deltas-applied user_id m s legs none []
      ∙ ap to_i32 (+ℤ_zero (total (raw_change user_id m s) (delete (is_excluded none) legs)))
      ∙ rw (none_excluded legs) refl in
    let items = list_for_user user_id db in
    shown-attach_projected_quantities m user_id s items deltas (map merch_of_row rows) known
    ∙ attached-expected (fetch (at_item m s) items) (fetch (at_delta m s) deltas)
        (delta_at m s deltas)
        (kept_entry m s (add_legs user_id none [] (add_legs user_id none legs [])))
    ∙ ap (expected (fetch (at_item m s) items)) sum
