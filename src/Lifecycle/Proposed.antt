-- ===== src/Lifecycle/Proposed.antt =====
-- The legs of `match_items` after the writes of `upsert_match_items` and `remove_match_items`, key by key.
use ymatch.Common.{
  ℕ, ◌≡◌, refl, ap, ◌∙◌, inl, inr, Bool, true, false, ◌&&◌, Option, none, some, List, [], ◌∷◌, ◌++◌,
  arith, ◌==◌, if◌then◌else◌, Bool-cases, select, fetch, exists_row, update, delete,
}
use ymatch.Common.Int.{ℤ}
use ymatch.Common.Exists.{exists_row-cong}
use ymatch.Store.{MatchItemRow}
use ymatch.Store.Matches.{
  OfferItem, at_leg, same_leg, repeats_leg, upsert_leg, upsert_all, is_positive, is_removal,
  names_leg,
}

abbrev quantity_of : Option MatchItemRow → Option ℤ
quantity_of none = none
quantity_of (some r) = some r.quantity

-- The quantity on the table at a key.
abbrev pub leg_quantity : ℕ → ℕ → ℕ → List MatchItemRow → Option ℤ
leg_quantity k g m rows = quantity_of (fetch (at_leg k g m) rows)

abbrev pub is_leg : ℕ → ℕ → OfferItem → Bool
is_leg g m i = i.giver_user_id == g && i.merch_id == m

abbrev quantity_named : Option OfferItem → Option ℤ → Option ℤ
quantity_named none old = old
quantity_named (some i) old = some i.quantity

-- The quantity that a proposal leaves at a key of its match: none where it names the key with 0, else the
-- positive quantity that it names the key with, else the one that was there.
abbrev pub offered_quantity : ℕ → ℕ → List OfferItem → Option ℤ → Option ℤ
offered_quantity g m items old =
    if exists_row (is_leg g m) (select is_removal items)
    then none
    else quantity_named (fetch (is_leg g m) (select is_positive items)) old

abbrev with_quantity : ℤ → MatchItemRow → MatchItemRow
with_quantity q r = record r { quantity = q }

module _ (k g m : ℕ) where
  set_here :
      (q : ℤ) (rows : List MatchItemRow)
      → exists_row (at_leg k g m) rows ≡ true
      → leg_quantity k g m (update (at_leg k g m) (with_quantity q) rows) ≡ some q
  unfolding exists_row fetch update
  set_here q [] there = absurd (cc)
  set_here q (r ∷ rs) there = elim (Bool-cases (at_leg k g m r)) [
    | inl hit ↦ rw (hit, hit) refl
    | inr miss ↦ rw (miss, miss) (set_here q rs (rw miss at there))
  ]

  set_there :
      (test : MatchItemRow → Bool) (q : ℤ) (rows : List MatchItemRow)
      → ((r : MatchItemRow) → at_leg k g m r ≡ true → test r ≡ false)
      → leg_quantity k g m (update test (with_quantity q) rows) ≡ leg_quantity k g m rows
  unfolding fetch update
  set_there test q [] apart = refl
  set_there test q (r ∷ rs) apart = elim (Bool-cases (at_leg k g m r)) [
    | inl hit ↦ rw (apart r hit, hit) refl
    | inr miss ↦ elim (Bool-cases (test r)) [
      | inl other ↦ rw (other, miss) (set_there test q rs apart)
      | inr still ↦ rw (still, miss) (set_there test q rs apart)
    ]
  ]

  added :
      (r : MatchItemRow) (rows : List MatchItemRow)
      → leg_quantity k g m (rows ++ r ∷ []) ≡ (
          if exists_row (at_leg k g m) rows
          then leg_quantity k g m rows
          else if at_leg k g m r
          then some r.quantity
          else none)
  unfolding fetch exists_row
  added r [] = ground arith
  added r (x ∷ xs) = elim (Bool-cases (at_leg k g m x)) [
    | inl hit ↦ rw hit refl
    | inr miss ↦ rw miss (added r xs)
  ]

  nowhere :
      (rows : List MatchItemRow)
      → exists_row (at_leg k g m) rows ≡ false
      → leg_quantity k g m rows ≡ none
  unfolding fetch exists_row
  nowhere [] gone = refl
  nowhere (r ∷ rs) gone = elim (Bool-cases (at_leg k g m r)) [
    | inl hit ↦ absurd (ground arith)
    | inr miss ↦ rw miss (nowhere rs (rw miss at gone))
  ]

  kept_or_gone :
      (test : MatchItemRow → Bool) (gone : Bool) (rows : List MatchItemRow)
      → ((r : MatchItemRow) → at_leg k g m r ≡ true → test r ≡ gone)
      → leg_quantity k g m (delete test rows) ≡ (if gone then none else leg_quantity k g m rows)
  unfolding fetch delete
  kept_or_gone test gone [] same = ground arith
  kept_or_gone test gone (r ∷ rs) same = elim (Bool-cases (at_leg k g m r)) [
    | inl hit ↦ elim (Bool-cases gone) [
      | inl leaves ↦
          let rest = kept_or_gone test gone rs same in rw (same r hit, leaves) (rw leaves at rest)
      | inr stays ↦ rw (same r hit, stays, hit) refl
    ]
    | inr miss ↦ elim (Bool-cases (test r)) [
      | inl other ↦ rw (other, miss) (kept_or_gone test gone rs same)
      | inr still ↦ rw (still, miss) (kept_or_gone test gone rs same)
    ]
  ]

  upsert_leg-quantity :
      (match_id : ℕ) (i : OfferItem) (rows : List MatchItemRow)
      → leg_quantity k g m (upsert_leg match_id i rows)
        ≡ (if k == match_id && is_leg g m i then some i.quantity else leg_quantity k g m rows)
  unfolding upsert_leg
  upsert_leg-quantity match_id i rows = elim (Bool-cases (k == match_id && is_leg g m i)) [
    | inl here ↦
        let k_is : match_id ≡ k = ground arith in
        let g_is : i.giver_user_id ≡ g = ground arith in
        let m_is : i.merch_id ≡ m = ground arith in
        rw (here, k_is, g_is, m_is)
          (elim (Bool-cases (exists_row (at_leg k g m) rows)) [
            | inl there ↦ rw there (set_here i.quantity rows there)
            | inr fresh ↦ rw fresh (
                added
                  (record { match_id = k; giver_user_id = g; merch_id = m; quantity = i.quantity })
                  rows
                ∙ ground (arith, fresh))
          ])
    | inr other ↦
        rw other (elim (Bool-cases (exists_row (at_leg match_id i.giver_user_id i.merch_id) rows)) [
          | inl there ↦ rw there (set_there _ i.quantity rows (λ r hit. ground (arith, hit, other)))
          | inr fresh ↦ rw fresh (
              added
                (record {
                  match_id = match_id;
                  giver_user_id = i.giver_user_id;
                  merch_id = i.merch_id;
                  quantity = i.quantity;
                })
                rows
              ∙ unseen rows _ i.quantity (ground (arith, other)))
        ])
  ]
    where
      unseen :
          (rows : List MatchItemRow) (fits : Bool) (q : ℤ)
          → fits ≡ false
          → (if exists_row (at_leg k g m) rows
              then leg_quantity k g m rows
              else if fits
              then some q
              else none)
            ≡ leg_quantity k g m rows
      unseen rows fits q unfit = elim (Bool-cases (exists_row (at_leg k g m) rows)) [
        | inl there ↦ rw there refl
        | inr gone ↦ rw (gone, unfit, nowhere rows gone) refl
      ]

  unnamed :
      (i : OfferItem) (items : List OfferItem)
      → is_leg g m i ≡ true
      → exists_row (same_leg i) items ≡ false
      → fetch (is_leg g m) items ≡ none
  unfolding exists_row fetch
  unnamed i [] mine once = refl
  unnamed i (x ∷ xs) mine once = elim (Bool-cases (is_leg g m x)) [
    | inl hit ↦ absurd (let twice : same_leg i x ≡ true = ground arith in ground arith)
    | inr miss ↦ rw miss (unnamed i xs mine (ground arith))
  ]

  -- With no key twice, the one item at a key decides.
  upsert_all-quantity :
      (match_id : ℕ) (items : List OfferItem) (rows : List MatchItemRow)
      → repeats_leg items ≡ false
      → leg_quantity k g m (upsert_all match_id items rows) ≡ (
          if k == match_id
          then quantity_named (fetch (is_leg g m) items) (leg_quantity k g m rows)
          else leg_quantity k g m rows)
  unfolding upsert_all repeats_leg fetch
  upsert_all-quantity match_id [] rows once = ground arith
  upsert_all-quantity match_id (i ∷ is) rows once =
      let now = upsert_leg-quantity match_id i rows in
      let rest = upsert_all-quantity match_id is (upsert_leg match_id i rows) (ground arith) in
      elim (Bool-cases (k == match_id)) [
        | inl ours ↦ elim (Bool-cases (is_leg g m i)) [
          | inl hit ↦ rest ∙ rw (ours, now, ours, hit, unnamed i is hit (ground arith)) refl
          | inr miss ↦ rest ∙ rw (ours, now, ours, miss) refl
        ]
        | inr other ↦ rest ∙ rw (other, now, other) refl
      ]

  pub proposed-quantity :
      (match_id : ℕ) (items : List OfferItem) (rows : List MatchItemRow)
      → repeats_leg (select is_positive items) ≡ false
      → leg_quantity k g m (
          delete
            (λ r. r.match_id == match_id && exists_row (names_leg r) (select is_removal items))
            (upsert_all match_id (select is_positive items) rows))
        ≡ (if k == match_id
            then offered_quantity g m items (leg_quantity k g m rows)
            else leg_quantity k g m rows)
  proposed-quantity match_id items rows once =
      kept_or_gone _ (k == match_id && exists_row (is_leg g m) (select is_removal items)) _
        (λ r hit.
          let k_is : r.match_id ≡ k = ground arith in
          let g_is : r.giver_user_id ≡ g = ground arith in
          let m_is : r.merch_id ≡ m = ground arith in
          rw (k_is, g_is, m_is)
            (ap (λ b. (k == match_id) && b)
              (exists_row-cong (λ i. g == i.giver_user_id && m == i.merch_id) (is_leg g m)
                (select is_removal items) (λ i. ground arith))))
      ∙ rw (upsert_all-quantity match_id (select is_positive items) rows once)
          (elim (Bool-cases (k == match_id)) [
            | inl ours ↦ rw ours refl
            | inr other ↦ rw other refl
          ])
