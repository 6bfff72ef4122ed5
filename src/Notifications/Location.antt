-- ===== src/Notifications/Location.antt =====
-- A place that is shared stays out of the notification.
use ymatch.Common.{
  ==_self, ℕ, String, ◌≡◌, refl, ap, ◌∙◌, ◌⊎◌, inl, inr, Bool, true, false, ◌||◌, Option, List, [],
  ◌∷◌, ◌++◌, arith,
}
use Prim.Native.String.append
use ymatch.Notifications.{
  to_ascii_lowercase, starts_with, contains, codes, is_location_share, is_location_type,
  message_received_body, ◌<>◌,
}

to_ascii_lowercase-append :
    (s t : String) → to_ascii_lowercase (s <> t) ≡ to_ascii_lowercase s ++ to_ascii_lowercase t
unfolding to_ascii_lowercase
to_ascii_lowercase-append String.[] t = rw (append.nil t) refl
to_ascii_lowercase-append (String.◌∷◌ c s) t =
    rw (append.cons c s t) (rw (to_ascii_lowercase-append s t) refl)

starts_with-append : (needle post : List ℕ) → starts_with needle (needle ++ post) ≡ true
unfolding starts_with
starts_with-append [] post = refl
starts_with-append (c ∷ cs) post = rw (==_self c) (starts_with-append cs post)

contains-starts : (needle s : List ℕ) → starts_with needle s ≡ true → contains needle s ≡ true
unfolding contains
contains-starts needle [] h = h
contains-starts needle (c ∷ s) h = rw h refl

contains-append : (needle pre post : List ℕ) → contains needle (pre ++ (needle ++ post)) ≡ true
unfolding contains
contains-append needle [] post =
    contains-starts needle (needle ++ post) (starts_with-append needle post)
contains-append needle (c ∷ pre) post =
    or_true (starts_with needle (c ∷ (pre ++ (needle ++ post)))) (contains-append needle pre post)
  where
    or_true : {b : Bool} (a : Bool) → b ≡ true → (a || b) ≡ true
    or_true true h = refl
    or_true false h = h

-- Text that holds the host in some case, in lower case.
contains-lower :
    (host pre url post : String)
    → to_ascii_lowercase url ≡ codes host
    → contains (codes host) (to_ascii_lowercase (pre <> (url <> post))) ≡ true
contains-lower host pre url post same =
    ap (contains (codes host)) (
      to_ascii_lowercase-append pre (url <> post)
      ∙ ap (λ (l : List ℕ). to_ascii_lowercase pre ++ l)
          (to_ascii_lowercase-append url post
            ∙ ap (λ (l : List ℕ). l ++ to_ascii_lowercase post) same))
    ∙ contains-append (codes host) (to_ascii_lowercase pre) (to_ascii_lowercase post)

-- The hosts of the links that a client shares a place with.
abbrev pub IsMapsLink : String → Type 0
IsMapsLink url =
    (to_ascii_lowercase url ≡ codes "maps.app.goo.gl")
    ⊎ ((to_ascii_lowercase url ≡ codes "google.com/maps")
        ⊎ (to_ascii_lowercase url ≡ codes "maps.apple.com"))

any_true :
    (a b c d : Bool) → ((b ≡ true) ⊎ ((c ≡ true) ⊎ (d ≡ true))) → (a || (b || (c || d))) ≡ true
any_true a b c d h = ground arith

-- A message with the host of a maps link anywhere in it, in upper or lower case and with any text round it,
-- gives a notification that says only that a place was shared, whatever the type that the message has.
pub message_received_body-redacted :
    (actor : String) (message_type : Option String) (pre url post : String)
    → IsMapsLink url
    → message_received_body actor message_type (pre <> (url <> post))
      ≡ actor <> " shared a location"
unfolding message_received_body is_location_share
message_received_body-redacted actor message_type pre url post link =
    let shared : is_location_share message_type (pre <> (url <> post)) ≡ true =
      any_true (is_location_type message_type) _ _ _ (found link) in
    rw shared refl
  where
    found :
        IsMapsLink url
        → (contains (codes "maps.app.goo.gl") (to_ascii_lowercase (pre <> (url <> post))) ≡ true)
          ⊎ ((contains (codes "google.com/maps") (to_ascii_lowercase (pre <> (url <> post))) ≡ true)
              ⊎ (contains (codes "maps.apple.com") (to_ascii_lowercase (pre <> (url <> post)))
                  ≡ true))
    found (inl a) = inl (contains-lower "maps.app.goo.gl" pre url post a)
    found (inr (inl b)) = inr (inl (contains-lower "google.com/maps" pre url post b))
    found (inr (inr c)) = inr (inr (contains-lower "maps.apple.com" pre url post c))
