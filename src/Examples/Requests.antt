-- ===== src/Examples/Requests.antt =====
-- The theorem on requests, and requests served, at the small state of the role model.
use ymatch.Rbac.Transfer.{lock_creator_for_update}
use ymatch.Rbac.Service.{verify_active}
use ymatch.Common.{ℕ, String, ◌≡◌, refl, ◌⊎◌, inl, false, none}
use ymatch.Examples.Roles.{auth}
use ymatch.Api.Requests.{deletes, assigns, serve, serve-verify_active, serve-missing, gated_event}
use ymatch.Error.{AppError, err}

abbrev unparsed : String → String ⊎ ℕ
unparsed s = inl "a date"

serve-verify_active_example :
    serve none unparsed 9 (deletes false 5) auth ≡ err (AppError.not_found "User not found")
unfolding verify_active
serve-verify_active_example =
    serve-verify_active none unparsed 9 (deletes false 5) auth (AppError.not_found "User not found")
      refl

serve-missing_example :
    serve none unparsed 2 (assigns 77 1) auth ≡ err (AppError.not_found "Event not found")
unfolding verify_active gated_event lock_creator_for_update
serve-missing_example =
    serve-missing none unparsed 2 77 (assigns 77 1) auth (record { id = 2; is_banned = false }) refl
      refl refl
