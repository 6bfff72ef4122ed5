-- ===== src/Projection/Preview.antt =====
-- What the projection adds up, with the preview's exclusion and overlay.
use ymatch.Common.{total, ℕ, ◌≡◌, refl, sym, ap, ◌∙◌, Option, none, List, [], ◌∷◌, fetch, delete}
use ymatch.Common.Int.{pos, ◌+ℤ◌, to_i32}
use ymatch.Store.{Holding}
use ymatch.Projection.{ProjectionLeg, delta_at, accumulate_projection_deltas, add_legs, is_excluded}
use ymatch.Projection.Wrap.{to_i32-zero}
use ymatch.Projection.Deltas.{raw_change, add_legs_step, zero_+ℤ}
use ymatch.Projection.Keys.{add_legs-UniqueKeys, delta_at-delete_zero}

pub none_excluded : (legs : List ProjectionLeg) → delete (is_excluded none) legs ≡ legs
unfolding delete
none_excluded [] = refl
none_excluded (leg ∷ legs) = ap (λ rest. leg ∷ rest) (none_excluded legs)

no_delta : (m : ℕ) (s : Holding) → delta_at m s [] ≡ to_i32 (pos 0)
unfolding delta_at fetch
no_delta m s = sym to_i32-zero

-- For every user, merch and status, the projected delta is the exact sum, wrapped once at 32 bits, of
-- what `apply_inventory_delta` (without the skip) changes at that holding of the user over the
-- legs of the matches other than the excluded one and then those of the overlay, each leg with a
-- quantity above 0. In particular zero entries that are dropped change no delta.
pub accumulate_projection_deltas-applied :
    (user_id m : ℕ) (s : Holding) (legs : List ProjectionLeg) (exclude : Option ℕ)
    (overlay : List ProjectionLeg)
    → delta_at m s (accumulate_projection_deltas user_id legs exclude overlay)
      ≡ to_i32 (
          total (raw_change user_id m s) (delete (is_excluded exclude) legs)
          +ℤ total (raw_change user_id m s) overlay)
unfolding accumulate_projection_deltas
accumulate_projection_deltas-applied user_id m s legs exclude overlay =
    let on_table = add_legs user_id exclude legs [] in
    let unique = add_legs-UniqueKeys user_id exclude legs [] tt in
    let first =
      add_legs_step user_id m s exclude legs (pos 0) [] (no_delta m s)
      ∙ ap to_i32 (zero_+ℤ (total (raw_change user_id m s) (delete (is_excluded exclude) legs))) in
    delta_at-delete_zero m s (add_legs user_id none overlay on_table)
      (add_legs-UniqueKeys user_id none overlay on_table unique)
    ∙ add_legs_step user_id m s none overlay
        (total (raw_change user_id m s) (delete (is_excluded exclude) legs)) on_table first
    ∙ rw (none_excluded overlay) refl
