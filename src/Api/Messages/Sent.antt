-- ===== src/Api/Messages/Sent.antt =====
-- What a message that was sent is.
use ymatch.Common.{
  ==_iff, ℕ, String, ◌≡◌, refl, sym, ap, ◌∙◌, ◌⊎◌, inl, inr, Bool, true, false, not, ◌&&◌, Option,
  some, [], ◌∷◌, ◌++◌, arith, ◌==◌, Bool-cases, Option-cases, All,
}
use ymatch.Error.{ok_inj, ok, AppError}
use ymatch.Rbac.{Authority}
use ymatch.Rbac.Service.{verify_active}
use ymatch.Store.{MessageRow, MatchRow, Db, pure}
use ymatch.Store.Steps.{>>=-eq_ok, lift-eq_ok, refuse-eq_ok}
use ymatch.Store.Matches.{Snapshot, find_match, snapshot_from_row, lock_for_update}
use ymatch.Store.Messages.{list_for_match, send, may_insert}
use ymatch.Store.Messages.Order.{Before, list_for_match-here, list_for_match-elsewhere}
use ymatch.Lifecycle.{other_participant}
use ymatch.Api.Messages.{
  require_match_participant, send_message, within_length, validate_client_message_type,
}

either : (a b : Bool) → (not a && not b) ≡ false → (a ≡ true) ⊎ ((a ≡ false) × (b ≡ true))
either true b h = inl refl
either false true h = inr (refl, refl)
either false false h = absurd (ground arith)

-- One of the two users of the match wrote, and the other one is told.
abbrev pub BetweenUsers : ℕ → ℕ → MatchRow → Type 0
BetweenUsers from to row =
    ((from ≡ row.user1_id) × (to ≡ row.user2_id)) ⊎ ((from ≡ row.user2_id) × (to ≡ row.user1_id))

participant-eq_ok :
    (match_id user_id : ℕ) (db db1 : Db) (snapshot : Snapshot)
    → require_match_participant match_id user_id db ≡ ok (snapshot, db1)
    → (db1 ≡ db)
      × ((row : MatchRow) × (find_match match_id db ≡ some row)
          × BetweenUsers user_id
              (other_participant snapshot.user1_id snapshot.user2_id user_id)
              row)
unfolding require_match_participant lock_for_update other_participant
participant-eq_ok match_id user_id db db1 snapshot h =
    elim (Option-cases (find_match match_id db)) [
      | inl gone ↦ absurd (let no = rw gone at h in cc)
      | inr (row, there) ↦
          let h1 = rw there at h in
          let (outside, h2) =
            refuse-eq_ok (not (user_id == row.user1_id) && not (user_id == row.user2_id))
              (AppError.forbidden "Not part of this match") (pure (snapshot_from_row row)) db h1 in
          let p : (snapshot_from_row row, db) ≡ (snapshot, db1) = ok_inj h2 in
          let first = ap (λ (q : Snapshot × Db). q.0.user1_id) (sym p) in
          let second = ap (λ (q : Snapshot × Db). q.0.user2_id) (sym p) in
          (
            ap (λ (q : Snapshot × Db). q.1) (sym p),
            (
              row,
              there,
              elim (either (user_id == row.user1_id) (user_id == row.user2_id) outside) [
                | inl one ↦ inl ((==_iff user_id row.user1_id).0 one, rw (first, one) second)
                | inr (other, two) ↦
                    inr ((==_iff user_id row.user2_id).0 two, rw (first, other) refl)
              ],
            ),
          )
    ]

send-eq_ok :
    (match_id sender_id : ℕ) (content : String) (message_type : Option String) (db db' : Db)
    (msg : MessageRow)
    → send match_id sender_id content message_type db ≡ ok (msg, db')
    → (msg.match_id ≡ match_id)
      × (msg.sender_id ≡ sender_id)
      × (msg.created_at ≡ db.now)
      × (record db { messages = db.messages ++ msg ∷ [] } ≡ db')
unfolding send
send-eq_ok match_id sender_id content message_type db db' msg h =
    elim (Bool-cases (may_insert match_id sender_id db)) [
      | inl may ↦
          let e = rw may at h in
          let p = ok_inj e in
          (
            ap (λ (q : MessageRow × Db). q.0.match_id) (sym p),
            ap (λ (q : MessageRow × Db). q.0.sender_id) (sym p),
            ap (λ (q : MessageRow × Db). q.0.created_at) (sym p),
            ap (λ (q : MessageRow × Db). record db { messages = db.messages ++ q.0 ∷ [] }) (sym p)
                ∙ ap (λ (q : MessageRow × Db). q.1) p,
          )
      | inr refused ↦ absurd (let e = rw refused at h in cc)
    ]

between_as :
    (a b c d : ℕ) (row : MatchRow) → a ≡ b → c ≡ d → BetweenUsers b c row → BetweenUsers a d row
between_as a b c d row e f (inl (x, y)) = inl (e ∙ x, sym f ∙ y)
between_as a b c d row e f (inr (x, y)) = inr (e ∙ x, sym f ∙ y)

lists_after :
    (match_id : ℕ) (db db' : Db) (msg : MessageRow)
    → All (Before db.now) db.messages
    → msg.match_id ≡ match_id
    → msg.created_at ≡ db.now
    → record db { messages = db.messages ++ msg ∷ [] } ≡ db'
    → (list_for_match match_id db' ≡ list_for_match match_id db ++ msg ∷ [])
      × ((other : ℕ)
          → (match_id == other) ≡ false
          → list_for_match other db' ≡ list_for_match other db)
lists_after match_id db db' msg earlier in_id at grown = (
  rw (← grown, ← in_id) (list_for_match-here db msg (rw at earlier)),
  λ other differs. rw (← grown) (list_for_match-elsewhere other db msg (rw in_id differs)),
)

-- When no message is later than now, a message that is accepted is at the end of its match's list, which is
-- otherwise as before, the lists of the other matches do not change, and its sender is one user of the
-- match while the push notice goes to the other one.
pub send_message-listed :
    (auth : Authority) (match_id sender_id : ℕ) (content : String) (message_type : Option String)
    (db db' : Db) (msg : MessageRow) (to from : ℕ)
    → All (Before db.now) db.messages
    → send_message auth match_id sender_id content message_type db ≡ ok ((msg, (to, from)), db')
    → (list_for_match match_id db' ≡ list_for_match match_id db ++ msg ∷ [])
      × ((other : ℕ)
          → (match_id == other) ≡ false
          → list_for_match other db' ≡ list_for_match other db)
      × ((row : MatchRow) × (find_match match_id db ≡ some row) × BetweenUsers msg.sender_id to row)
unfolding send_message
send_message-listed auth match_id sender_id content message_type db db' msg to from earlier h =
    let (user, verified, h1) = lift-eq_ok (verify_active sender_id auth) _ db h in
    let (snapshot, db1, gate, h2) =
      >>=-eq_ok (require_match_participant match_id user.id) _ db h1 in
    let (unread, (row, found, between)) = participant-eq_ok match_id user.id db db1 snapshot gate in
    let (_, short, h3) = lift-eq_ok (within_length content) _ db1 h2 in
    let (_, kind, h4) = lift-eq_ok (validate_client_message_type message_type) _ db1 h3 in
    let (sent_msg, db2, sent, h5) =
      >>=-eq_ok (send match_id user.id content message_type) _ db1 h4 in
    let sent_here = rw unread at sent in
    let (in_id, by_id, at, grown) =
      send-eq_ok match_id user.id content message_type db db2 sent_msg sent_here in
    let p = ok_inj h5 in
    let same : sent_msg ≡ msg = ap (λ (q : (MessageRow × (ℕ × ℕ)) × Db). q.0.0) p in
    let (here, elsewhere) =
      lists_after match_id db db' msg earlier
        (ap (λ (q : MessageRow). q.match_id) (sym same) ∙ in_id)
        (ap (λ (q : MessageRow). q.created_at) (sym same) ∙ at)
        (ap (λ (q : MessageRow). record db { messages = db.messages ++ q ∷ [] }) (sym same)
          ∙ grown
          ∙ ap (λ (q : (MessageRow × (ℕ × ℕ)) × Db). q.1) p) in
    let from_user : msg.sender_id ≡ user.id =
      ap (λ (q : MessageRow). q.sender_id) (sym same) ∙ by_id in
    let told = ap (λ (q : (MessageRow × (ℕ × ℕ)) × Db). q.0.1.0) p in
    (
      here,
      elsewhere,
      (row, found, between_as msg.sender_id user.id _ to row from_user told between),
    )
