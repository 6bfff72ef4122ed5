-- ===== src/Matching/Pairs.antt =====
-- One match to a pair and group, for the unique index behind `insert_pending`.
use ymatch.Common.Exists.{exists_row-cong, exists_row-append, exists_row-update}
use ymatch.Store.Matches.Evolve.{Moves}
use ymatch.Common.{
  All, ==_iff, ==_self, ℕ, String, ◌≡◌, refl, sym, ◌∙◌, inl, inr, Bool, false, ◌&&◌, ◌||◌, some,
  List, [], ◌∷◌, ◌++◌, arith, ◌==◌, if◌then◌else◌, Bool-cases, fetch, exists_row, update,
}
use ymatch.Common.{str_eq, str_eq_iff, str_eq_self}
use ymatch.Store.{MatchRow}
use ymatch.Store.Matches.{has_id}
use ymatch.Store.Matches.Lookup.{UniqueIds}
use ymatch.Store.Matcher.{of_pair_group}

-- The unique index on the pair, in either order, and the group.
abbrev pub same_pair : MatchRow → MatchRow → Bool
same_pair r s = of_pair_group r.user1_id r.user2_id r.event_id r.group_name s

abbrev pub UniquePairs : List MatchRow → Type 0
UniquePairs [] = Unit {0}
UniquePairs (r ∷ rs) = (exists_row (same_pair r) rs ≡ false) × UniquePairs rs

num_sym : (a b : ℕ) → (a == b) ≡ (b == a)
num_sym a b = ground arith

text_sym : (s t : String) → str_eq s t ≡ str_eq t s
text_sym s t = elim (Bool-cases (str_eq s t)) [
  | inl same ↦ rw ((str_eq_iff s t).0 same) refl
  | inr differ ↦ elim (Bool-cases (str_eq t s)) [
    | inl back ↦ absurd (let no = rw ((str_eq_iff t s).0 back, str_eq_self s) at differ in cc)
    | inr differ' ↦ differ ∙ sym differ'
  ]
]

swap_sides :
    (a b c d e f : Bool)
    → ((a && b) && ((c && d) || (e && f))) ≡ ((a && b) && ((c && d) || (f && e)))
swap_sides a b c d e f = ground arith

turned :
    {a a' b b' c c' d d' e e' f f' : Bool}
    → a ≡ a'
    → b ≡ b'
    → c ≡ c'
    → d ≡ d'
    → e ≡ e'
    → f ≡ f'
    → ((a && b) && ((c && d) || (e && f))) ≡ ((a' && b') && ((c' && d') || (f' && e')))
turned {a} {b = b} {c = c} {d = d} {e = e} {f = f} p q r s t u =
    rw (← p, ← q, ← r, ← s, ← t, ← u) (swap_sides a b c d e f)

same_pair_sym : (r s : MatchRow) → same_pair r s ≡ false → same_pair s r ≡ false
same_pair_sym r s h =
    turned (num_sym r.event_id s.event_id) (text_sym r.group_name s.group_name)
      (num_sym r.user1_id s.user1_id) (num_sym r.user2_id s.user2_id)
      (num_sym r.user1_id s.user2_id) (num_sym r.user2_id s.user1_id)
    ∙ h

-- A row that no row shares its key with may be added.
pub UniquePairs-add :
    (s : MatchRow) (rs : List MatchRow)
    → exists_row (same_pair s) rs ≡ false
    → UniquePairs rs
    → UniquePairs (rs ++ s ∷ [])
unfolding exists_row
UniquePairs-add s [] h u = (refl, tt)
UniquePairs-add s (r ∷ rs) h u = (
  exists_row-append (same_pair r) rs (s ∷ []) ∙ ground (arith, u.0, same_pair_sym s r),
  UniquePairs-add s rs (ground arith) u.1,
)

-- A change that keeps the keys keeps them unique.
pub UniquePairs-update :
    (test : MatchRow → Bool) (change : MatchRow → MatchRow) (rs : List MatchRow)
    → ((r s : MatchRow) → same_pair (change r) s ≡ same_pair r s)
    → ((r s : MatchRow) → same_pair r (change s) ≡ same_pair r s)
    → UniquePairs rs
    → UniquePairs (update test change rs)
unfolding update
UniquePairs-update test change [] left right u = tt
UniquePairs-update test change (r ∷ rs) left right u = (
  exists_row-update _ test change rs (right (if test r then change r else r))
      ∙ elim (Bool-cases (test r)) [
        | inl hit ↦ rw hit (exists_row-cong (same_pair (change r)) (same_pair r) rs (left r) ∙ u.0)
        | inr miss ↦ rw miss u.0
      ],
  UniquePairs-update test change rs left right u.1,
)

-- A lookup under a unique key finds the same row by its id.
pub by_id :
    (test : MatchRow → Bool) (rs : List MatchRow) {r : MatchRow}
    → UniqueIds rs
    → fetch test rs ≡ some r
    → fetch (has_id r.id) rs ≡ some r
unfolding fetch
by_id test (x ∷ rs) {r} u h = elim (Bool-cases (test x)) [
  | inl hit ↦ (let same : x ≡ r = ground arith in rw (← same) (rw (==_self x.id) refl))
  | inr miss ↦
      let rest = by_id test rs u.1 (rw miss at h) in
      elim (Bool-cases (x.id == r.id)) [
        | inl same ↦ absurd (let gone = rw ((==_iff x.id r.id).0 same) at u.0 in cc)
        | inr differ ↦ rw differ rest
      ]
]
by_id test [] u h = absurd (cc)

-- A change by id that keeps a test moves the row that the test finds.
pub by_id-update :
    (test : MatchRow → Bool) (change : MatchRow → MatchRow) (rs : List MatchRow) {r : MatchRow}
    → ((s : MatchRow) → test (change s) ≡ test s)
    → fetch test rs ≡ some r
    → fetch test (update (has_id r.id) change rs) ≡ some (change r)
unfolding fetch update
by_id-update test change [] keep h = absurd (cc)
by_id-update test change (x ∷ rs) {r} keep h = elim (Bool-cases (test x)) [
  | inl hit ↦
      let same : x ≡ r = ground arith in rw (← same) (rw (==_self x.id) (rw (keep x, hit) refl))
  | inr miss ↦
      let rest = by_id-update test change rs keep (rw miss at h) in
      elim (Bool-cases (x.id == r.id)) [
        | inl same ↦ rw same (rw (keep x, miss) rest)
        | inr differ ↦ rw differ (rw miss rest)
      ]
]

-- No match is of a user with themselves.
abbrev pub TwoUsers : List MatchRow → Type 0
TwoUsers rows = All (λ (r : MatchRow). (r.user1_id == r.user2_id) ≡ false) rows

pub Moves-TwoUsers : {rs ss : List MatchRow} → Moves rs ss → TwoUsers rs → TwoUsers ss
Moves-TwoUsers Moves.nil two = tt
Moves-TwoUsers (Moves.step f fs) two =
    (rw (f.same_user1, f.same_user2) two.0, Moves-TwoUsers fs two.1)
