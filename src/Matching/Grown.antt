-- ===== src/Matching/Grown.antt =====
-- What a matching pass that succeeds does to the matches.
use ymatch.Common.{ap, ℕ, ◌+◌, String, ◌≡◌, Bool, true, false, not, List, [], ◌∷◌, if◌then◌else◌}
use ymatch.Error.{Result, ok, ok_inj}
use ymatch.Store.{Db, Tx, pure, ◌>>=◌, reads}
use ymatch.Store.Matcher.{
  user_wants_live_merch, list_user_trade_merch_ids_in_group, list_users_trading_merch,
  MatchableWant, list_matchable_wants,
}
use ymatch.Common.{All, select, map, Bool-cases, inl, inr, ◌==◌, arith}
use ymatch.Store.{InventoryRow}
use ymatch.Store.Matcher.{offers_merch}
use ymatch.Matching.Pairs.{TwoUsers}
use ymatch.Matching.{
  ensure_match_for_pair, try_trades, try_partners, try_wants, run_matching_algorithm,
}
use ymatch.Store.Matches.Evolve.{Evolves, Evolves-trans, Moves-Evolves, Moves-refl}
use ymatch.Matching.Cases.{Indexed}
use ymatch.Matching.Ensure.{ensure_match_for_pair-Outcome, Outcome}
use ymatch.Store.Steps.{>>=-eq_ok}

-- What a part of a pass does to the state.
abbrev Grows : Db → Db → Type 0
Grows db db' =
    Indexed db' × Evolves db.matches db'.matches × (TwoUsers db.matches → TwoUsers db'.matches)

-- A transaction that, when it succeeds, keeps the keys of the table and changes its rows by moves and new
-- rows of two users only; and what it returns.
abbrev Keeps : {A : Type 0} → (A → Type 0) → Tx A → Type 0
Keeps {A} P m = (db db' : Db) (a : A) → Indexed db → m db ≡ ok (a, db') → P a × Grows db db'

Keeps-bind :
    {A B : Type 0} (P : A → Type 0) (Q : B → Type 0) (m : Tx A) (f : A → Tx B)
    → Keeps P m
    → ((a : A) → P a → Keeps Q (f a))
    → Keeps Q (m >>= f)
Keeps-bind P Q m f keeps next db db' b indexed e =
    let (a, db1, e1, e2) = >>=-eq_ok m f db e in
    let (p, (i1, g1, two1)) = keeps db db1 a indexed e1 in
    let (q, (i2, g2, two2)) = next a p db1 db' b i1 e2 in
    (q, (i2, Evolves-trans g1 g2, λ two. two2 (two1 two)))

abbrev Any : {A : Type 0} → A → Type 0
Any _ = Unit {0}

same_state : {A : Type 0} (a b : A) (db db' : Db) → pure a db ≡ pure b db' → db ≡ db'
same_state {A} a b db db' e = ap (λ (p : A × Db). p.1) (ok_inj e)

stays : (db db' : Db) → Indexed db → db ≡ db' → Grows db db'
stays db db' indexed same = rw (← same) (indexed, Moves-Evolves (Moves-refl db.matches), λ two. two)

Keeps-pure : {A : Type 0} (a : A) → Keeps Any (pure a)
Keeps-pure a db db' b indexed e = (tt, stays db db' indexed (same_state a b db db' e))

Keeps-reads : {A : Type 0} (f : Db → A) → Keeps Any (reads f)
Keeps-reads f db db' b indexed e = (tt, stays db db' indexed (same_state (f db) b db db' e))

Keeps-if :
    {A : Type 0} (b : Bool) {m k : Tx A}
    → Keeps Any m
    → Keeps Any k
    → Keeps Any (if b then m else k)
Keeps-if true m k = m
Keeps-if false m k = k

grown :
    (a b e : ℕ) (g : String) (db : Db) (result : Result (Bool × Db)) (made : Bool) (db' : Db)
    → (a == b) ≡ false
    → Outcome a b e g db result
    → result ≡ ok (made, db')
    → Grows db db'
grown a b e g db result made db' apart out runs =
    let (keys, _, (grows, _, _, two)) = rw runs at out in (keys, grows, two apart)

ensure-Keeps :
    (a b e : ℕ) (g : String) → (a == b) ≡ false → Keeps Any (ensure_match_for_pair a b e g)
ensure-Keeps a b e g apart db db' made indexed runs =
    (tt, grown a b e g db _ made db' apart (ensure_match_for_pair-Outcome a b e g db indexed) runs)

-- A partner of a user is another user.
abbrev IsOther : ℕ → ℕ → Type 0
IsOther user_id partner_id = (user_id == partner_id) ≡ false

others :
    (merch_id user_id : ℕ) (db : Db) (rows : List InventoryRow)
    → All
        (IsOther user_id)
        (map (λ (i : InventoryRow). i.user_id) (select (offers_merch merch_id user_id db) rows))
unfolding select
others merch_id user_id db [] = tt
others merch_id user_id db (i ∷ is) = elim (Bool-cases (offers_merch merch_id user_id db i)) [
  | inl offers ↦
      let apart : (i.user_id == user_id) ≡ false = ground arith in
      rw offers (ground (arith, apart), others merch_id user_id db is)
  | inr not_it ↦ rw not_it (others merch_id user_id db is)
]

Keeps-partners :
    (merch_id user_id : ℕ)
    → Keeps (All (IsOther user_id)) (reads (list_users_trading_merch merch_id user_id))
unfolding list_users_trading_merch
Keeps-partners merch_id user_id db db' ids indexed e =
    let same_answer : list_users_trading_merch merch_id user_id db ≡ ids =
      ap (λ (p : List ℕ × Db). p.0) (ok_inj e) in
    (
      rw (← same_answer) (others merch_id user_id db db.inventory),
      stays db db' indexed (same_state _ ids db db' e),
    )

try_trades-Keeps :
    (want : MatchableWant) (partner : ℕ) (ids : List ℕ)
    → IsOther want.user_id partner
    → Keeps Any (try_trades want partner ids)
unfolding try_trades
try_trades-Keeps want partner [] apart = Keeps-pure 0
try_trades-Keeps want partner (t ∷ ts) apart =
    Keeps-bind Any Any _ _ (Keeps-reads (user_wants_live_merch partner t)) (λ wants _.
      Keeps-if (not wants) (try_trades-Keeps want partner ts apart) (
        Keeps-bind Any Any _ _
          (ensure-Keeps want.user_id partner want.event_id want.group_name apart)
          (λ made _. Keeps-pure (if made then 1 else 0))))

try_partners-Keeps :
    (want : MatchableWant) (ids : List ℕ)
    → All (IsOther want.user_id) ids
    → Keeps Any (try_partners want ids)
unfolding try_partners
try_partners-Keeps want [] apart = Keeps-pure 0
try_partners-Keeps want (p ∷ ps) apart =
    Keeps-bind Any Any _ _
      (Keeps-reads (list_user_trade_merch_ids_in_group want.user_id want.event_id want.group_name))
      (λ ids _. Keeps-bind Any Any _ _ (try_trades-Keeps want p ids apart.0) (λ made _.
        Keeps-bind Any Any _ _ (try_partners-Keeps want ps apart.1)
          (λ rest _. Keeps-pure (made + rest))))

try_wants-Keeps : (wants : List MatchableWant) → Keeps Any (try_wants wants)
unfolding try_wants
try_wants-Keeps [] = Keeps-pure 0
try_wants-Keeps (w ∷ ws) =
    Keeps-bind (All (IsOther w.user_id)) Any _ _ (Keeps-partners w.merch_id w.user_id) (λ ids apart.
      Keeps-bind Any Any _ _ (try_partners-Keeps w ids apart) (λ made _.
        Keeps-bind Any Any _ _ (try_wants-Keeps ws) (λ rest _. Keeps-pure (made + rest))))

pub run_matching_algorithm-Evolves :
    (n : ℕ) (db db' : Db)
    → Indexed db
    → run_matching_algorithm db ≡ ok (n, db')
    → Indexed db' × Evolves db.matches db'.matches × (TwoUsers db.matches → TwoUsers db'.matches)
unfolding run_matching_algorithm
run_matching_algorithm-Evolves n db db' indexed runs =
    (Keeps-bind Any Any _ _ (Keeps-reads list_matchable_wants) (λ wants _. try_wants-Keeps wants) db
      db' n indexed runs).1
