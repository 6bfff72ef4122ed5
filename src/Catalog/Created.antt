-- ===== src/Catalog/Created.antt =====
-- What an item that was created is, for those who list the event.
use ymatch.Common.{
  true, ==_self, Bool, false, ◌==◌, ◌||◌, str_eq, if◌then◌else◌, map, select, ℕ, String, ◌≡◌, refl,
  sym, ap, ◌∙◌, inl, inr, ◌&&◌, Option, none, some, List, [], ◌∷◌, ◌++◌, Bool-cases, Option-cases,
  fetch, exists_row,
}
use ymatch.Error.{>>=-eq_ok, ok, ok_inj}
use ymatch.Store.{MerchRow}
use ymatch.Rbac.{Authority, ScopeType, GroupRow}
use ymatch.Rbac.Transfer.{has_group_name}
use ymatch.Rbac.Holders.{assigned-cases}
use ymatch.Catalog.{Merchandise, violates_unique, Site, CreateMerchRequest, description_of}
use ymatch.Rbac.Transfer.{known_user}
use ymatch.Rbac.{RoleRow}
use ymatch.Rbac.Transfer.{is_creator_role}
use ymatch.Rbac.Creation.{or_published, trimmed, nonempty, has_event}
use ymatch.Common.Rows.{fetch-append_none, fetch-append_some}
use ymatch.Catalog.{group_description, group_text}
use mathlib.Core.List.{map-append, append-nil}
use ymatch.Catalog.Create.{
  free_name, required_group, create, known_creator, merch_row, with_merch, give_group_role,
  ensure_group, insert_group_role, insert_merch, insert_group, give_role,
}
use ymatch.Rbac.Creation.{or_published}
use ymatch.Catalog.Lists.{is_mine, is_mine, list_for_event, is_listed, select_merch}

-- What the lists read of the tables of groups.
abbrev SameTexts : Authority → Authority → Type 0
SameTexts auth auth' =
    (event_id : ℕ) (group : String)
    → group_description event_id group auth' ≡ group_description event_id group auth

-- A group without a description reads like no group.
appended_text :
    (e : ℕ) (g : String) (groups : List GroupRow) (new : GroupRow)
    → nonempty new.description ≡ none
    → description_of (fetch (has_group_name e g) (groups ++ new ∷ []))
      ≡ description_of (fetch (has_group_name e g) groups)
unfolding fetch
appended_text e g groups new blank = elim (Option-cases (fetch (has_group_name e g) groups)) [
  | inl gone ↦
      ap description_of (fetch-append_none (has_group_name e g) groups (new ∷ []) gone)
      ∙ elim (Bool-cases (has_group_name e g new)) [
        | inl hit ↦ rw hit (rw gone blank)
        | inr miss ↦ rw miss (rw gone refl)
      ]
  | inr (row, there) ↦
      ap description_of (fetch-append_some (has_group_name e g) groups (new ∷ []) there ∙ sym there)
]

insert_group-SameTexts :
    (event_id : ℕ) (group_name : String) (creator_id : ℕ) (auth auth' : Authority)
    → insert_group event_id group_name creator_id auth ≡ ok auth'
    → SameTexts auth auth'
unfolding insert_group group_description fetch
insert_group-SameTexts event_id group_name creator_id auth auth' h =
    elim (Bool-cases (exists_row (has_group_name event_id group_name) auth.groups)) [
      | inl there ↦ let same : auth ≡ auth' = ok_inj (rw there at h) in λ e g. rw (← same) refl
      | inr fresh ↦ elim (Bool-cases (has_event event_id auth && known_user creator_id auth)) [
        | inl known ↦
            let done = ok_inj (rw known at (rw fresh at h)) in
            λ e g. rw (← done) (appended_text e g auth.groups _ refl)
        | inr unknown ↦ absurd (let no_insert = rw unknown at (rw fresh at h) in cc)
      ]
    ]

give_role-SameTexts :
    (group_id : ℕ) (role : Option RoleRow) (owner : Option ℕ) (auth auth' : Authority)
    → give_role role owner group_id auth ≡ ok auth'
    → SameTexts auth auth'
unfolding group_description
give_role-SameTexts group_id (some role) (some user_id) auth auth' h e g =
    elim (assigned-cases ScopeType.group role.id group_id user_id auth auth' h) [
      | inl (held, same) ↦ rw (← same) refl
      | inr added ↦ rw (← added) refl
    ]
give_role-SameTexts group_id none owner auth auth' h e g = rw (← ok_inj h) refl
give_role-SameTexts group_id (some role) none auth auth' h e g = rw (← ok_inj h) refl

group_text-SameTexts :
    (auth auth' : Authority) (group : Option String) (event_id : ℕ)
    → SameTexts auth auth'
    → group_text group event_id auth' ≡ group_text group event_id auth
group_text-SameTexts auth auth' none event_id same = refl
group_text-SameTexts auth auth' (some group) event_id same = same event_id group

select_merch-SameTexts :
    (auth auth' : Authority) (m : MerchRow)
    → SameTexts auth auth'
    → select_merch auth' m ≡ select_merch auth m
unfolding select_merch
select_merch-SameTexts auth auth' m same =
    ap (λ (t : Option String). record { row = m; group_description = t })
      (group_text-SameTexts auth auth' m.group_name m.event_id same)

ensure_group-SameTexts :
    (event_id : ℕ) (group_name : String) (creator : Option ℕ) (auth auth' : Authority)
    → ensure_group event_id group_name creator auth ≡ ok auth'
    → SameTexts auth auth'
unfolding insert_group_role
ensure_group-SameTexts event_id group_name none auth auth' h e g = rw (← ok_inj h) refl
ensure_group-SameTexts event_id group_name (some creator_id) auth auth' h e g =
    let (auth1, h1, h2) = >>=-eq_ok (insert_group event_id group_name creator_id auth) _ h in
    given (fetch (has_group_name event_id group_name) auth1.groups) auth1 h2 e g
    ∙ insert_group-SameTexts event_id group_name creator_id auth auth1 h1 e g
  where
    given :
        (group : Option GroupRow) (auth1 : Authority)
        → give_group_role group auth1 ≡ ok auth'
        → SameTexts auth1 auth'
    given none auth1 h e g = rw (← ok_inj h) refl
    given (some group) auth1 h e g =
        give_role-SameTexts group.id (fetch (is_creator_role ScopeType.group) auth1.roles)
          group.created_by auth1 auth' h e g

insert_merch-eq_ok :
    (event_id : ℕ) (req : CreateMerchRequest) (group_name : String) (site site' : Site)
    (row : MerchRow)
    → insert_merch event_id req group_name site ≡ ok (row, site')
    → (row ≡ merch_row event_id req site.db.next_merch_id) × (site' ≡ with_merch row site)
unfolding insert_merch
insert_merch-eq_ok event_id req group_name site site' row h =
    let new = merch_row event_id req site.db.next_merch_id in
    elim (Bool-cases (violates_unique new site.db.merchandise)) [
      | inl taken ↦ absurd (let no_row = rw taken at h in cc)
      | inr free ↦
          elim (Bool-cases
            (has_event event_id site.auth && known_creator req.creator_id site.auth)) [
              | inl known ↦
                  let done = sym (ok_inj (rw known at (rw free at h))) in
                  let row_is : row ≡ new = ap (λ (p : MerchRow × Site). p.0) done in
                  (
                    row_is,
                    ap (λ (p : MerchRow × Site). p.1) done
                        ∙ ap (λ r. with_merch r site) (sym row_is),
                  )
              | inr unknown ↦ absurd (let no_row = rw unknown at (rw free at h) in cc)
            ]
    ]

module _ (viewer : Option ℕ) where
  mapped-SameTexts :
      (auth auth' : Authority) (rows : List MerchRow)
      → SameTexts auth auth'
      → map (select_merch auth') rows ≡ map (select_merch auth) rows
  mapped-SameTexts auth auth' [] same = refl
  mapped-SameTexts auth auth' (m ∷ ms) same =
      rw (select_merch-SameTexts auth auth' m same, mapped-SameTexts auth auth' ms same) refl

  select-append_one :
      (event_id : ℕ) (rows : List MerchRow) (row : MerchRow)
      → select (is_listed event_id viewer) (rows ++ row ∷ [])
        ≡ select (is_listed event_id viewer) rows
          ++ (if is_listed event_id viewer row then row ∷ [] else [])
  unfolding select
  select-append_one event_id [] row = refl
  select-append_one event_id (m ∷ ms) row = elim (Bool-cases (is_listed event_id viewer m)) [
    | inl hit ↦ rw hit (ap (◌∷◌ m) (select-append_one event_id ms row))
    | inr miss ↦ rw miss (select-append_one event_id ms row)
  ]

  -- What the lists show of a new row.
  listed_after :
      (event_id : ℕ) (site : Site) (auth : Authority) (row : MerchRow)
      → SameTexts site.auth auth
      → list_for_event event_id viewer (with_merch row (record site { auth = auth }))
        ≡ list_for_event event_id viewer site
          ++ map (select_merch auth) (if is_listed event_id viewer row then row ∷ [] else [])
  unfolding list_for_event
  listed_after event_id site auth row same =
      ap (map (select_merch auth)) (select-append_one event_id site.db.merchandise row)
      ∙ map-append (select_merch auth) (select (is_listed event_id viewer) site.db.merchandise) _
      ∙ rw
          (mapped-SameTexts site.auth auth (select (is_listed event_id viewer) site.db.merchandise)
            same)
          refl

required_group-eq_ok :
    (name : Option String) (group : String) → required_group name ≡ ok group → name ≡ some group
required_group-eq_ok none group h = cc
required_group-eq_ok (some g) group h = ap some (ok_inj h)

-- The answer is the new row as the lists show it.
answered :
    (event_id : ℕ) (req : CreateMerchRequest) (group : String) (site site1 site' : Site)
    (auth : Authority) (row : MerchRow) (merch : Merchandise)
    → req.group_name ≡ some group
    → row ≡ merch_row event_id req site.db.next_merch_id
    → site1 ≡ with_merch row (record site { auth = auth })
    → ◌≡◌ {A = Merchandise × Site}
        (
          record { row = row; group_description = group_description event_id group site1.auth },
          site1,
        )
        (merch, site')
    → (merch.row ≡ merch_row event_id req site.db.next_merch_id)
      × (site' ≡ with_merch merch.row (record site { auth = auth }))
      × (merch ≡ select_merch auth merch.row)
unfolding select_merch
answered event_id req group site site1 site' auth row merch named row_is site_is both =
    let base : Site = record site { auth = auth } in
    let row_same : row ≡ merch.row = ap (λ (p : Merchandise × Site). p.0.row) both in
    let text : group_description event_id group site1.auth
        ≡ group_text row.group_name row.event_id auth =
      ap (λ (s : Site). group_description event_id group s.auth) site_is
      ∙ ap (λ (g : Option String). group_text g event_id auth) (sym named)
      ∙ ap (λ (r : MerchRow). group_text r.group_name r.event_id auth) (sym row_is) in
    (
      sym row_same ∙ row_is,
      ap (λ (p : Merchandise × Site). p.1) (sym both)
          ∙ site_is
          ∙ ap (λ (r : MerchRow). with_merch r base) row_same,
      ap (λ (p : Merchandise × Site). p.0) (sym both)
          ∙ ap (λ (t : Option String). record { row = row; group_description = t }) text
          ∙ ap (select_merch auth) row_same,
    )

-- What a creation with a group name that is trimmed already did.
created-eq_ok :
    (trim : String → String) (event_id : ℕ) (req : CreateMerchRequest) (site site' : Site)
    (merch : Merchandise)
    → trimmed trim req.group_name ≡ req.group_name
    → create trim event_id req site ≡ ok (merch, site')
    → (auth : Authority) × SameTexts site.auth auth
      × ((merch.row ≡ merch_row event_id req site.db.next_merch_id)
          × (site' ≡ with_merch merch.row (record site { auth = auth }))
          × (merch ≡ select_merch auth merch.row))
unfolding create select_merch
created-eq_ok trim event_id req site site' merch neat h =
    let (group, e1, h1) = >>=-eq_ok (required_group (trimmed trim req.group_name)) _ h in
    let (_, _, h2) = >>=-eq_ok (free_name event_id group req.name site.db) _ h1 in
    let (auth, e3, h3) = >>=-eq_ok (ensure_group event_id group req.creator_id site.auth) _ h2 in
    let (inserted, e4, h4) =
      >>=-eq_ok (insert_merch event_id req group (record site { auth = auth })) _ h3 in
    let (row_is, site_is) =
      insert_merch-eq_ok event_id req group (record site { auth = auth }) inserted.1 inserted.0
        e4 in
    let both = ok_inj h4 in
    (
      auth,
      ensure_group-SameTexts event_id group req.creator_id site.auth auth e3,
      answered event_id req group site inserted.1 site' auth inserted.0 merch
          (sym neat ∙ required_group-eq_ok (trimmed trim req.group_name) group e1) row_is site_is
          both,
    )

shown_one :
    (auth : Authority) (b c : Bool) (row : MerchRow) (merch : Merchandise)
    → b ≡ c
    → merch ≡ select_merch auth row
    → map (select_merch auth) (if b then row ∷ [] else []) ≡ (if c then merch ∷ [] else [])
shown_one auth true true row merch e m = ap (λ (x : Merchandise). x ∷ []) (sym m)
shown_one auth false false row merch e m = refl
shown_one auth true false row merch e m = cc
shown_one auth false true row merch e m = cc

-- A creation that succeeds, with a group name that has no spaces round it, adds what it returns at the end
-- of the event's list, for whoever lists it if it is published and for its creator if it is a draft;
-- the other items, their descriptions and the lists of other events are as before.
pub create-listed :
    (trim : String → String) (event_id : ℕ) (req : CreateMerchRequest) (site site' : Site)
    (merch : Merchandise) (viewer : Option ℕ)
    → trimmed trim req.group_name ≡ req.group_name
    → create trim event_id req site ≡ ok (merch, site')
    → (list_for_event event_id viewer site'
        ≡ list_for_event event_id viewer site
          ++ (if str_eq (or_published req.status) "published" || is_mine req.creator_id viewer
              then merch ∷ []
              else []))
      × ((other : ℕ)
          → (event_id == other) ≡ false
          → list_for_event other viewer site' ≡ list_for_event other viewer site)
unfolding is_listed
create-listed trim event_id req site site' merch viewer neat h =
    let (auth, same, (row_is, site_is, merch_is)) =
      created-eq_ok trim event_id req site site' merch neat h in
    (
      ap (list_for_event event_id viewer) site_is
          ∙ listed_after viewer event_id site auth merch.row same
          ∙ ap (λ (tail : List Merchandise). list_for_event event_id viewer site ++ tail)
              (shown_one auth (is_listed event_id viewer merch.row) _ merch.row merch
                (ap (is_listed event_id viewer) row_is ∙ rw (==_self event_id) refl) merch_is),
      λ other differs.
          ap (list_for_event other viewer) site_is
          ∙ listed_after viewer other site auth merch.row same
          ∙ ap (λ (tail : List Merchandise). list_for_event other viewer site ++ tail)
              (shown_one auth (is_listed other viewer merch.row) false merch.row merch
                (ap (is_listed other viewer) row_is ∙ rw differs refl) merch_is)
          ∙ append-nil _,
    )
