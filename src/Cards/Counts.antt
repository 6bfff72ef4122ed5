-- ===== src/Cards/Counts.antt =====
-- The counts of the badge.
use ymatch.Common.Int.{to_i32-eq, pos_part, pos}
use ymatch.Common.{
  leb, ◌<◌, [], inr, inl, Bool-cases, ◌==◌, ℕ, ◌+◌, ◌≤◌, ◌≡◌, Bool, not, ◌&&◌, ◌||◌, List, ◌∷◌,
  arith, if◌then◌else◌, select,
}
use ymatch.Common.{refl, length}
use ymatch.Store.{
  Db, MatchRow, Status, pending, offered, accepted, completed, rejected, cancelled, is_reopenable,
  is_completed,
}
use ymatch.Store.Matches.{is_some}
use ymatch.Cards.{
  count_unread, count_matches, notification_counts, is_in_progress, is_offer_in, is_in, by_peer,
  is_pending, is_offered, is_accepted,
}

-- A match that was neither rejected nor cancelled.
abbrev pub is_open : MatchRow → Bool
is_open r = not (is_reopenable r.status)

-- A match counts once at most.
once :
    (s : Status) (peer left : Bool)
    → (if is_pending s then 1 else 0)
        + (if is_offered s && peer then 1 else 0)
        + (if is_accepted s || (is_completed s && left) then 1 else 0)
      ≤ (if not (is_reopenable s) then 1 else 0)
once pending peer left = omega arith
once offered peer left = ground arith
once accepted peer left = omega arith
once completed peer left = ground arith
once rejected peer left = omega arith
once cancelled peer left = omega arith
once (Status.other s) peer left = omega arith

length-select_cons :
    {A : Type 0} (test : A → Bool) (r : A) (rs : List A)
    → length (select test (r ∷ rs)) ≡ (if test r then 1 else 0) + length (select test rs)
unfolding select
length-select_cons test r rs = ground arith

length-select_nil : {A : Type 0} (test : A → Bool) → length (select test []) ≡ 0
unfolding select
length-select_nil test = refl

counted :
    (user_id : ℕ) (rows : List MatchRow)
    → length (select (λ r. is_in user_id r && is_pending r.status) rows)
        + length (select (λ r. is_in user_id r && is_offer_in user_id r) rows)
        + length (select (λ r. is_in user_id r && is_in_progress user_id r) rows)
      ≤ length (select (λ r. is_in user_id r && is_open r) rows)
counted user_id [] =
    let e1 = length-select_nil (λ r. is_in user_id r && is_pending r.status) in
    let e2 = length-select_nil (λ r. is_in user_id r && is_offer_in user_id r) in
    let e3 = length-select_nil (λ r. is_in user_id r && is_in_progress user_id r) in omega arith
counted user_id (r ∷ rs) =
    let rest = counted user_id rs in
    let e1 = length-select_cons (λ r. is_in user_id r && is_pending r.status) r rs in
    let e2 = length-select_cons (λ r. is_in user_id r && is_offer_in user_id r) r rs in
    let e3 = length-select_cons (λ r. is_in user_id r && is_in_progress user_id r) r rs in
    let e4 = length-select_cons (λ r. is_in user_id r && is_open r) r rs in
    let one = once r.status (by_peer user_id r.offered_by) (
      not
        (is_some (if r.user1_id == user_id then r.user1_completed_at else r.user2_completed_at))) in
    elim (Bool-cases (is_in user_id r)) [
      | inl mine ↦ rw (e1, e2, e3, e4, mine) (omega arith)
      | inr other ↦ rw (e1, e2, e3, e4, other) (omega arith)
    ]

-- As long as a user has fewer than 2^31 - 1 matches that are open and no more unread messages than that, no
-- count of the badge wraps: each is the number of rows that it counts, the total is the sum of the three
-- counts of matches and one more if a message is unread, no match counts twice, so that the total is at most
-- the number of open matches plus one.
pub notification_counts-exact :
    (user_id : ℕ) (db : Db)
    → count_matches user_id is_open db < 2147483647
    → count_unread user_id db < 2147483647
    → let counts = notification_counts user_id db in
      (counts.pending_matches ≡ pos (count_matches user_id (λ r. is_pending r.status) db))
      × (counts.offers_in ≡ pos (count_matches user_id (is_offer_in user_id) db))
      × (counts.accepted_matches ≡ pos (count_matches user_id (is_in_progress user_id) db))
      × (counts.unread_messages ≡ pos (count_unread user_id db))
      × (counts.total
          ≡ pos (
              count_matches user_id (λ r. is_pending r.status) db
              + count_matches user_id (is_offer_in user_id) db
              + count_matches user_id (is_in_progress user_id) db
              + (if leb 1 (count_unread user_id db) then 1 else 0)))
      × (pos_part counts.total ≤ count_matches user_id is_open db + 1)
unfolding notification_counts
notification_counts-exact user_id db few read =
    let sum = counted user_id db.matches in
    let total_is =
      to_i32-eq
        (pos (
          count_matches user_id (λ r. is_pending r.status) db
          + count_matches user_id (is_offer_in user_id) db
          + count_matches user_id (is_in_progress user_id) db
          + (if leb 1 (count_unread user_id db) then 1 else 0)))
        (ground arith, omega arith) in
    (
      to_i32-eq (pos (count_matches user_id (λ r. is_pending r.status) db))
          (omega arith, omega arith),
      to_i32-eq (pos (count_matches user_id (is_offer_in user_id) db)) (omega arith, omega arith),
      to_i32-eq (pos (count_matches user_id (is_in_progress user_id) db))
          (omega arith, omega arith),
      to_i32-eq (pos (count_unread user_id db)) (omega arith, omega arith),
      total_is,
      rw total_is (ground arith),
    )
