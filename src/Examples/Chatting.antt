-- ===== src/Examples/Chatting.antt =====
-- A message sent in the small state.
use ymatch.Error.{ok}
use ymatch.Common.{ℕ, ◌≡◌, refl, false, none, some, [], ◌∷◌, ◌++◌, ◌==◌, fetch, exists_row}
use ymatch.Examples.{db_at}
use ymatch.Examples.Roles.{auth}
use ymatch.Store.{accepted, MessageRow, Db, MatchRow}
use ymatch.Store.Matches.{find_match}
use ymatch.Store.Messages.{list_for_match, send}
use ymatch.Api.Messages.{send_message, require_match_participant, validate_client_message_type}
use ymatch.Api.Messages.Sent.{send_message-listed, BetweenUsers}
use ymatch.Lifecycle.{other_participant}
use ymatch.Rbac.Service.{verify_active}

abbrev hello : MessageRow
hello = record {
  match_id = 7;
  sender_id = 1;
  content = "hello";
  message_type = "TEXT";
  created_at = 100;
}

abbrev told : Db
told = record (db_at accepted) { messages = hello ∷ [] }

hello_run : send_message auth 7 1 "hello" none (db_at accepted) ≡ ok ((hello, (2, 1)), told)
unfolding send_message verify_active require_match_participant validate_client_message_type send
    find_match other_participant fetch exists_row
hello_run = refl

send_message-listed_example :
    (list_for_match 7 told ≡ list_for_match 7 (db_at accepted) ++ hello ∷ [])
    × ((other : ℕ)
        → (7 == other) ≡ false
        → list_for_match other told ≡ list_for_match other (db_at accepted))
    × ((row : MatchRow) × (find_match 7 (db_at accepted) ≡ some row) × BetweenUsers 1 2 row)
send_message-listed_example =
    send_message-listed auth 7 1 "hello" none (db_at accepted) told hello 2 1 tt hello_run
