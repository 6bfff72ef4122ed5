-- ===== src/Examples/Owners.antt =====
-- Owners of events through requests at the small state of the role model.
use ymatch.Common.{
  ℕ, ◌≤◌, String, ◌≡◌, refl, ◌⊎◌, inl, Bool, true, false, ◌&&◌, ◌||◌, none, List, [], ◌∷◌, arith,
  ◌==◌, fetch, exists_row,
}
use ymatch.Examples.Roles.{auth-OwnersAgree, auth}
use ymatch.Rbac.Transfer.{creator_role_id, lock_creator_for_update}
use ymatch.Api.Owners.{Governed}
use ymatch.Api.Owners.Served.{Call, serve_all, serve_all-Governed}
use ymatch.Api.Requests.{hands_over, deletes}

abbrev unparsed : String → String ⊎ ℕ
unparsed s = inl "a date"

abbrev calls : List Call
calls =
    record { cell = none; caller = 1; request = hands_over 5 2 }
    ∷ record { cell = none; caller = 2; request = hands_over 5 1 }
    ∷ record { cell = none; caller = 9; request = deletes false 5 }
    ∷ []

no_row :
    (a b : Bool)
    → (((a && false) && false) && false || (((b && true) && false) && true || false)) ≡ false
no_row a b = ground arith

auth-Governed : Governed 4 auth
unfolding creator_role_id lock_creator_for_update exists_row fetch
auth-Governed = record {
  role = refl;
  only = ((λ e. absurd (ground arith)), ((λ e. absurd (ground arith)), ((λ e. refl), tt)));
  agree = auth-OwnersAgree;
  fresh = λ n above.
      let above_six : 6 ≤ n = above in
      let miss : (5 == n) ≡ false = ground arith in
      (rw miss refl, λ u. rw miss (no_row (2 == u) (1 == u)));
}

serve_all-Governed_example : Governed 4 (serve_all unparsed calls auth)
serve_all-Governed_example = serve_all-Governed unparsed 4 calls auth auth-Governed
