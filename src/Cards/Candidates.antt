-- ===== src/Cards/Candidates.antt =====
-- What a match card offers, and the capacity that keeps a match active.
use ymatch.Store.Capacity.Meaning.{is_wanted, can_give}
use ymatch.Common.{
  not, ℕ, String, ◌≡◌, refl, ap, ◌∙◌, inl, inr, Bool, true, false, ◌&&◌, ◌||◌, List, [], ◌∷◌, arith,
  ◌==◌, if◌then◌else◌, Bool-cases, select, exists_row,
}
use ymatch.Common.Exists.{exists_row-append, exists_row-cong, exists_row-and}
use ymatch.Store.{Db, InventoryRow, MerchRow}
use ymatch.Store.Matches.{is_live_in, in_group}
use ymatch.Cards.{
  is_for, have_rows, want_rows, user_haves, user_wants, joined, candidates, candidate, Candidate,
  is_offer, is_want_of, is_tradeable_merch,
}

abbrev pub is_nonempty {ℓ} : {A : Type ℓ} → List A → Bool
is_nonempty [] = false
is_nonempty (x ∷ xs) = true

module _ {ℓ} {A : Type ℓ} where
  is_nonempty-select :
      (test : A → Bool) (rows : List A) → is_nonempty (select test rows) ≡ exists_row test rows
  unfolding select exists_row
  is_nonempty-select test [] = refl
  is_nonempty-select test (r ∷ rs) = elim (Bool-cases (test r)) [
    | inl hit ↦ rw hit refl
    | inr miss ↦ rw miss (is_nonempty-select test rs)
  ]

  exists_row-joined {κ} :
      {B : Type κ} (test : A → Bool) (rows_of : B → List A) (rows : List B)
      → exists_row test (joined rows_of rows) ≡ exists_row (λ r. exists_row test (rows_of r)) rows
  unfolding exists_row joined
  exists_row-joined test rows_of [] = refl
  exists_row-joined test rows_of (r ∷ rs) =
      exists_row-append test (rows_of r) (joined rows_of rs)
      ∙ rw (exists_row-joined test rows_of rs) refl

  exists_row-if :
      (test : A → Bool) (b : Bool) (rows : List A)
      → exists_row test (if b then rows else []) ≡ (b && exists_row test rows)
  unfolding exists_row
  exists_row-if test true rows = refl
  exists_row-if test false rows = refl

-- The join as nested EXISTS.
exists_row-candidates :
    (test : Candidate → Bool) (gives receives : ℕ → Bool) (peer_of : ℕ → ℕ → ℕ) (db : Db)
    → exists_row test (candidates gives receives peer_of db)
      ≡ exists_row
          (λ (i : InventoryRow).
            (gives i.user_id && is_offer i)
            && exists_row
                (λ (m : MerchRow).
                  is_tradeable_merch i.merch_id m
                  && exists_row
                      (λ (w : InventoryRow).
                        (is_want_of i.merch_id w && receives w.user_id)
                        && (test (candidate i m w (peer_of i.user_id w.user_id)) || false))
                      db.inventory)
                db.merchandise)
          db.inventory
unfolding candidates exists_row
exists_row-candidates test gives receives peer_of db =
    exists_row-joined test _ db.inventory
    ∙ exists_row-cong _ _ db.inventory (λ i.
      exists_row-if test (gives i.user_id && is_offer i) _
      ∙ ap (λ (b : Bool). (gives i.user_id && is_offer i) && b)
          (exists_row-joined test _ db.merchandise
            ∙ exists_row-cong _ _ db.merchandise (λ m.
              exists_row-if test (is_tradeable_merch i.merch_id m) _
              ∙ ap (λ (b : Bool). is_tradeable_merch i.merch_id m && b)
                  (exists_row-joined test _ db.inventory
                    ∙ exists_row-cong _ _ db.inventory (λ w.
                      exists_row-if test (is_want_of i.merch_id w && receives w.user_id) _)))))

-- A live item of the group, and a row that wants it.
merch-live :
    (event_id : ℕ) (group_name : String) (merch_id : ℕ) (wants : InventoryRow → Bool)
    (inner : MerchRow → InventoryRow → Bool) (db : Db)
    → ((m : MerchRow) (w : InventoryRow)
        → inner m w ≡ ((m.event_id == event_id && in_group m.group_name group_name) && wants w))
    → exists_row
        (λ (m : MerchRow). is_tradeable_merch merch_id m && exists_row (inner m) db.inventory)
        db.merchandise
      ≡ (exists_row
            (λ (m : MerchRow). m.id == merch_id && is_live_in event_id group_name m)
            db.merchandise
          && exists_row wants db.inventory)
merch-live event_id group_name merch_id wants inner db same =
    exists_row-cong _
      (λ (m : MerchRow).
        exists_row wants db.inventory && (m.id == merch_id && is_live_in event_id group_name m))
      db.merchandise
      (λ m.
        ap (λ (b : Bool). is_tradeable_merch merch_id m && b)
          (exists_row-cong (inner m) _ db.inventory (λ w. same m w)
            ∙ exists_row-and (m.event_id == event_id && in_group m.group_name group_name) wants
                db.inventory)
        ∙ ground arith)
    ∙ exists_row-and (exists_row wants db.inventory)
        (λ (m : MerchRow). m.id == merch_id && is_live_in event_id group_name m) db.merchandise
    ∙ ground arith

pub haves-can_give :
    (user_id other_id event_id : ℕ) (group_name : String) (db : Db)
    → (other_id == user_id) ≡ false
    → is_nonempty (user_haves user_id other_id event_id group_name db)
      ≡ can_give user_id other_id event_id group_name db
unfolding user_haves have_rows can_give
haves-can_give user_id other_id event_id group_name db two =
    is_nonempty-select (is_for other_id event_id group_name) _
    ∙ exists_row-candidates (is_for other_id event_id group_name) (λ giver. giver == user_id)
        (λ receiver. not (receiver == user_id)) (λ giver receiver. receiver) db
    ∙ exists_row-cong _ _ db.inventory (λ i.
      ap (λ (b : Bool). (i.user_id == user_id && is_offer i) && b)
        (merch-live event_id group_name i.merch_id (is_wanted other_id i) _ db
          (λ m w. ground arith))
      ∙ ground arith)

pub wants-can_give :
    (user_id other_id event_id : ℕ) (group_name : String) (db : Db)
    → (other_id == user_id) ≡ false
    → is_nonempty (user_wants user_id other_id event_id group_name db)
      ≡ can_give other_id user_id event_id group_name db
unfolding user_wants want_rows can_give
wants-can_give user_id other_id event_id group_name db two =
    is_nonempty-select (is_for other_id event_id group_name) _
    ∙ exists_row-candidates (is_for other_id event_id group_name) (λ giver. not (giver == user_id))
        (λ receiver. receiver == user_id) (λ giver receiver. giver) db
    ∙ exists_row-cong _ _ db.inventory (λ i.
      ap (λ (b : Bool). (not (i.user_id == user_id) && is_offer i) && b)
        (merch-live event_id group_name i.merch_id
            (λ w. (i.user_id == other_id) && is_wanted user_id i w) _ db (λ m w. ground arith)
          ∙ ap
              (λ (b : Bool).
                exists_row
                  (λ (m : MerchRow). m.id == i.merch_id && is_live_in event_id group_name m)
                  db.merchandise
                && b)
              (exists_row-and (i.user_id == other_id) (is_wanted user_id i) db.inventory))
      ∙ ground arith)
