-- ===== src/Examples/Showing.antt =====
-- Match cards and the badge in the small state.
use ymatch.Common.{leb, ◌+◌, ◌≤◌, ◌<◌, ◌≡◌, refl, arith, if◌then◌else◌, select, All}
use ymatch.Common.Int.{pos, pos_part}
use ymatch.Store.{offered, trade}
use ymatch.Cards.{
  joined, list_for_user, notification_counts, count_matches, count_unread, is_pending, is_offer_in,
  is_in_progress,
}
use ymatch.Cards.Counts.{notification_counts-exact, is_open}
use ymatch.Cards.Offered.{update_inventory-OffersBoth, OffersBoth, is_active_card}
use ymatch.Matching.Pairs.{TwoUsers}
use ymatch.Examples.{db_at}
use ymatch.Examples.Trading.{more_db, stored, update_run}
use ymatch.Examples.Selling.{site}

two_users : TwoUsers site.db.matches
two_users = (refl, tt)

update_inventory-OffersBoth_example :
    All OffersBoth (select is_active_card (list_for_user 1 (record site { db = more_db })))
update_inventory-OffersBoth_example =
    update_inventory-OffersBoth 1 10 trade (pos 5) site more_db stored refl update_run two_users

few_open : count_matches 1 is_open (db_at offered) < 2147483647
unfolding select
few_open = omega arith

few_unread : count_unread 1 (db_at offered) < 2147483647
unfolding count_unread joined
few_unread = omega arith

notification_counts-exact_example :
    let counts = notification_counts 1 (db_at offered) in
    (counts.pending_matches ≡ pos (count_matches 1 (λ r. is_pending r.status) (db_at offered)))
    × (counts.offers_in ≡ pos (count_matches 1 (is_offer_in 1) (db_at offered)))
    × (counts.accepted_matches ≡ pos (count_matches 1 (is_in_progress 1) (db_at offered)))
    × (counts.unread_messages ≡ pos (count_unread 1 (db_at offered)))
    × (counts.total
        ≡ pos (
            count_matches 1 (λ r. is_pending r.status) (db_at offered)
            + count_matches 1 (is_offer_in 1) (db_at offered)
            + count_matches 1 (is_in_progress 1) (db_at offered)
            + (if leb 1 (count_unread 1 (db_at offered)) then 1 else 0)))
    × (pos_part counts.total ≤ count_matches 1 is_open (db_at offered) + 1)
notification_counts-exact_example = notification_counts-exact 1 (db_at offered) few_open few_unread
