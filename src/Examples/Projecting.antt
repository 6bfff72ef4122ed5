-- ===== src/Examples/Projecting.antt =====
-- The projected inventory at the small state.
use ymatch.Common.{total, ℕ, ◌≡◌, refl, some, List, [], ◌∷◌, map, select, fetch, exists_row, delete}
use ymatch.Common.Int.{pos, negsuc, ◌+ℤ◌, ◌-ℤ◌, to_i32, add_i32, neg_i32}
use ymatch.Store.{trade, have, accepted}
use ymatch.Store.Read.{
  list_inventory_projection_legs, project_rows, project_row, projected_row, is_projected,
}
use ymatch.Projection.{
  ProjectionLeg, at_item, delta_at, accumulate_projection_deltas, add_legs, add_leg, add_deltas,
  add_delta, projection_leg_deltas, is_excluded, list_for_user, join_merch,
  list_inventory_with_projection, attach_projected_quantities, synthesize, project_item, leg_of_row,
}
use ymatch.Projection.Deltas.{raw_change}
use ymatch.Projection.Preview.{accumulate_projection_deltas-applied}
use ymatch.Projection.Attach.{list_inventory_with_projection-shown, shown, expected}
use ymatch.Examples.{db_at}

list_inventory_with_projection-shown_example :
    shown 10 trade (list_inventory_with_projection 1 (db_at accepted))
    ≡ expected (fetch (at_item 10 trade) (list_for_user 1 (db_at accepted))) (
        to_i32 (
          total
            (raw_change 1 10 trade)
            (map leg_of_row (list_inventory_projection_legs 1 (db_at accepted)))))
list_inventory_with_projection-shown_example =
    list_inventory_with_projection-shown 10 1 trade (db_at accepted) refl

trade_row :
    shown 10 trade (list_inventory_with_projection 1 (db_at accepted)) ≡ some (pos 2, some (pos 1))
unfolding list_inventory_with_projection list_for_user join_merch select fetch
    list_inventory_projection_legs project_rows project_row projected_row is_projected exists_row
    accumulate_projection_deltas add_legs add_leg add_deltas add_delta projection_leg_deltas delete
    attach_projected_quantities synthesize project_item delta_at neg_i32 add_i32 to_i32 ◌+ℤ◌ ◌-ℤ◌
trade_row = refl

new_row :
    shown 10 have (list_inventory_with_projection 1 (db_at accepted))
    ≡ some (pos 0, some (negsuc 0))
unfolding list_inventory_with_projection list_for_user join_merch select fetch
    list_inventory_projection_legs project_rows project_row projected_row is_projected exists_row
    accumulate_projection_deltas add_legs add_leg add_deltas add_delta projection_leg_deltas delete
    attach_projected_quantities synthesize project_item delta_at neg_i32 add_i32 to_i32 ◌+ℤ◌ ◌-ℤ◌
new_row = refl

abbrev proposal : ℕ → List ProjectionLeg
proposal q = record { match_id = 7; merch_id = 10; giver_user_id = 1; quantity = pos q } ∷ []

accumulate_projection_deltas-applied_example :
    delta_at 10 trade (accumulate_projection_deltas 1 (proposal 1) (some 7) (proposal 2))
    ≡ to_i32 (
        total (raw_change 1 10 trade) (delete (is_excluded (some 7)) (proposal 1))
        +ℤ total (raw_change 1 10 trade) (proposal 2))
accumulate_projection_deltas-applied_example =
    accumulate_projection_deltas-applied 1 10 trade (proposal 1) (some 7) (proposal 2)
