-- ===== src/Api/Messages.antt =====
-- backend/src/handlers/messages.rs: the chat of a match. `auth` holds the accounts that the gates read; the
-- push notice that is scheduled after the insert is returned as its recipient and its sender.
pub mod Sent
use ymatch.Common.{
  str_eq, leb, ℕ, String, not, ◌&&◌, ◌||◌, Option, none, some, List, ◌==◌, if◌then◌else◌,
}
use ymatch.Error.{err, ok, AppError, Result}
use ymatch.Rbac.{Authority}
use ymatch.Rbac.Service.{verify_active}
use ymatch.Store.{MessageRow, Tx, fail, pure, lift, reads, or_fail, ◌>>=◌, ◌>>◌}
use ymatch.Store.Matches.{Snapshot, lock_for_update}
use ymatch.Store.Messages.{list_for_match, send, mark_messages_read}
use ymatch.Lifecycle.{other_participant}
use ymatch.Api.{require_active_query_user}

abbrev pub max_message_content_len : ℕ
max_message_content_len = 2000

unfoldable pub validate_client_message_type : Option String → Result (Unit {0})
validate_client_message_type none = ok tt
validate_client_message_type (some other) =
    if str_eq other "TEXT" || str_eq other "LOCATION"
    then ok tt
    else err (AppError.bad_request (Prim.Native.String.◌++◌ "unsupported message_type: " other))

-- `get_status_snapshot` is the SELECT of `lock_for_update` without the lock.
unfoldable pub require_match_participant : ℕ → ℕ → Tx Snapshot
unfolding lock_for_update
require_match_participant match_id user_id = do
  row ← lock_for_update match_id
  snapshot ← or_fail row (AppError.not_found "Match not found")
  if not (user_id == snapshot.user1_id) && not (user_id == snapshot.user2_id)
      then fail (AppError.forbidden "Not part of this match")
      else pure tt
  pure snapshot

unfoldable pub list_messages : Authority → ℕ → Option ℕ → Tx (List MessageRow)
unfolding require_match_participant
list_messages auth match_id query_user_id = do
  caller ← lift (require_active_query_user query_user_id auth)
  snapshot ← require_match_participant match_id caller.id
  items ← reads (list_for_match match_id)
  mark_messages_read match_id caller.id
  pure items

abbrev pub within_length : String → Result (Unit {0})
within_length content =
    if leb (Prim.Native.String.count content) max_message_content_len
    then ok tt
    else err (AppError.bad_request "content exceeds maximum length of 2000")

unfoldable pub send_message : Authority → ℕ → ℕ → String → Option String → Tx (MessageRow × (ℕ × ℕ))
unfolding require_match_participant
send_message auth match_id sender_id content message_type = do
  sender ← lift (verify_active sender_id auth)
  snapshot ← require_match_participant match_id sender.id
  lift (within_length content)
  lift (validate_client_message_type message_type)
  msg ← send match_id sender.id content message_type
  pure (msg, (other_participant snapshot.user1_id snapshot.user2_id sender.id, sender.id))
