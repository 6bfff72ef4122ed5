-- ===== src/Store/Messages.antt =====
-- backend/src/repositories/message.rs, and the read watermark of match_/write.rs. The place of a LOCATION
-- message is left out; messages of one time, which Postgres may list in any order, stay as sent.
pub mod Order
use ymatch.Common.{
  leb, ℕ, String, Bool, ◌&&◌, ◌||◌, Option, none, some, List, [], ◌∷◌, ◌++◌, ◌==◌, if◌then◌else◌,
  select, exists_row, update,
}
use ymatch.Error.{err, ok, constraint_violation}
use ymatch.Store.{MatchRow, MessageRow, UserRow, Db, Tx, writes}
use ymatch.Store.Matches.{find_match, is_some}

unfoldable pub insert_by_time : MessageRow → List MessageRow → List MessageRow
insert_by_time m [] = m ∷ []
insert_by_time m (n ∷ ns) =
    if leb m.created_at n.created_at then m ∷ n ∷ ns else n ∷ insert_by_time m ns

unfoldable pub by_time : List MessageRow → List MessageRow
unfolding insert_by_time
by_time [] = []
by_time (m ∷ ms) = insert_by_time m (by_time ms)

abbrev pub in_match : ℕ → MessageRow → Bool
in_match match_id m = m.match_id == match_id

unfoldable pub list_for_match : ℕ → Db → List MessageRow
unfolding by_time
list_for_match match_id db = by_time (select (in_match match_id) db.messages)

abbrev pub or_text : Option String → String
or_text none = "TEXT"
or_text (some t) = t

-- The foreign keys of match and sender.
abbrev pub may_insert : ℕ → ℕ → Db → Bool
may_insert match_id sender_id db =
    is_some (find_match match_id db) && exists_row (λ (u : UserRow). u.id == sender_id) db.users

unfoldable pub send : ℕ → ℕ → String → Option String → Tx MessageRow
send match_id sender_id content message_type db =
    let message : MessageRow = record {
      match_id = match_id;
      sender_id = sender_id;
      content = content;
      message_type = or_text message_type;
      created_at = db.now;
    } in
    if may_insert match_id sender_id db
    then ok (message, record db { messages = db.messages ++ message ∷ [] })
    else err constraint_violation

abbrev read_by : ℕ → ℕ → MatchRow → MatchRow
read_by now user_id r = record r {
  user1_messages_read_at = if r.user1_id == user_id then some now else r.user1_messages_read_at;
  user2_messages_read_at = if r.user2_id == user_id then some now else r.user2_messages_read_at;
}

unfoldable pub mark_messages_read : ℕ → ℕ → Tx (Unit {0})
mark_messages_read match_id user_id = writes (λ db. record db {
  matches =
      update
        (λ (r : MatchRow). r.id == match_id && (r.user1_id == user_id || r.user2_id == user_id))
        (read_by db.now user_id) db.matches;
})
