-- ===== src/Matching.antt =====
-- backend/src/matching.rs: the periodic matching pass. Every statement runs on the pool, each seeing
-- what the ones before it committed; a push notice for the pair is scheduled exactly when
-- `ensure_match_for_pair` returns true, and is left out.
pub mod Pairs
pub mod Cases
pub mod Ensure
pub mod Grown
pub mod Pass
use ymatch.Common.{
  ℕ, zero, suc, ◌+◌, ◌-◌, ◌≤◌, ◌<◌, String, ◌≡◌, refl, sym, ap, ◌∙◌, ◌≢◌, ◌↔◌, ◌⊎◌, inl, inr, Bool,
  true, false, not, ◌&&◌, ◌||◌, Option, none, some, List, [], ◌∷◌, ◌++◌, map, arith, ◌==◌,
  if◌then◌else◌, Bool-cases, Option-cases, select, fetch, exists_row, update, delete, All,
}
use ymatch.Common.{str_eq}
use ymatch.Store.{Status, Db, Tx, pure, ◌>>=◌, ◌>>◌, reads, rejected, cancelled, MatchRow}
use ymatch.Store.Matcher.{
  MatchableWant, list_matchable_wants, list_users_trading_merch, list_user_trade_merch_ids_in_group,
  user_wants_live_merch, find_for_pair_group, insert_pending, reopen_terminal,
}

unfoldable pub is_group_matchable : Option String → Bool
is_group_matchable none = false
is_group_matchable (some g) = not (str_eq g "")

abbrev same_name : Option String → Option String → Bool
same_name (some g) (some h) = str_eq g h
same_name none none = true
same_name _ _ = false

unfoldable pub same_match_group : ℕ → Option String → ℕ → Option String → Bool
unfolding is_group_matchable
same_match_group event_a group_a event_b group_b =
    if not (is_group_matchable group_a) || not (is_group_matchable group_b)
    then false
    else event_a == event_b && same_name group_a group_b

pub data ExistingMatchAction : Type 0 where
  insert reopen skip : ExistingMatchAction

unfoldable pub existing_match_action : Option Status → ExistingMatchAction
existing_match_action none = insert
existing_match_action (some rejected) = reopen
existing_match_action (some cancelled) = reopen
existing_match_action (some _) = skip

unfoldable pub rematch_reason_for : Status → Option String
rematch_reason_for rejected = some "REMATCH_AFTER_REJECTED"
rematch_reason_for cancelled = some "REMATCH_AFTER_CANCELLED"
rematch_reason_for _ = none

abbrev status_of : Option MatchRow → Option Status
status_of none = none
status_of (some r) = some r.status

abbrev pub reopen_with : MatchRow → Option String → Tx Bool
reopen_with r none = pure false
reopen_with r (some reason) = reopen_terminal r.id r.status reason

-- The `Reopen` arm.
abbrev pub reopen_existing : Option MatchRow → Tx Bool
reopen_existing none = pure false
reopen_existing (some r) = reopen_with r (rematch_reason_for r.status)

abbrev pub run_existing : ℕ → ℕ → ℕ → String → Option MatchRow → ExistingMatchAction → Tx Bool
run_existing user_a user_b event_id group_name existing insert =
    insert_pending user_a user_b event_id group_name >> pure true
run_existing user_a user_b event_id group_name existing reopen = reopen_existing existing
run_existing user_a user_b event_id group_name existing skip = pure false

unfoldable pub ensure_match_for_pair : ℕ → ℕ → ℕ → String → Tx Bool
unfolding existing_match_action find_for_pair_group
ensure_match_for_pair user_a user_b event_id group_name = do
  existing ← reads (find_for_pair_group user_a user_b event_id group_name)
  run_existing user_a user_b event_id group_name existing
      (existing_match_action (status_of existing))

-- The innermost loop of `run_matching_algorithm`: it stops at the first mutual edge.
unfoldable pub try_trades : MatchableWant → ℕ → List ℕ → Tx ℕ
unfolding ensure_match_for_pair
try_trades want partner_id [] = pure 0
try_trades want partner_id (trade_merch_id ∷ ids) =
    let rest = try_trades want partner_id ids in
    reads (user_wants_live_merch partner_id trade_merch_id) >>= λ partner_wants.
    if not partner_wants
    then rest
    else (ensure_match_for_pair want.user_id partner_id want.event_id want.group_name >>= λ made.
        pure (if made then 1 else 0))

unfoldable pub try_partners : MatchableWant → List ℕ → Tx ℕ
unfolding try_trades
try_partners want [] = pure 0
try_partners want (partner_id ∷ ids) = do
  trade_merch_ids ←
      reads (list_user_trade_merch_ids_in_group want.user_id want.event_id want.group_name)
  made ← try_trades want partner_id trade_merch_ids
  rest ← try_partners want ids
  pure (made + rest)

unfoldable pub try_wants : List MatchableWant → Tx ℕ
unfolding try_partners
try_wants [] = pure 0
try_wants (want ∷ wants) = do
  partner_ids ← reads (list_users_trading_merch want.merch_id want.user_id)
  made ← try_partners want partner_ids
  rest ← try_wants wants
  pure (made + rest)

-- The number of rows created or reopened.
unfoldable pub run_matching_algorithm : Tx ℕ
unfolding try_wants list_matchable_wants
run_matching_algorithm = do wants ← reads list_matchable_wants; try_wants wants
