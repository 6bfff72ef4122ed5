-- ===== src/Notifications.antt =====
-- backend/src/notifications/mod.rs: the texts of the notifications. A payload is the JSON object with its
-- three fields; how serde_json prints it is left out.
pub mod Preview
pub mod Location
pub mod Delivered
pub mod Reassigned
pub mod Owners
pub mod Subscriptions
pub mod Deliver
use ymatch.Common.{
  leb, str_eq, ℕ, zero, suc, ◌+◌, ◌-◌, ◌≤◌, ◌<◌, String, ◌≡◌, refl, sym, ap, ◌∙◌, ◌≢◌, ◌↔◌, ◌⊎◌,
  inl, inr, Bool, true, false, not, ◌&&◌, ◌||◌, Option, none, some, List, [], ◌∷◌, ◌++◌, map, arith,
  ◌==◌, if◌then◌else◌, Bool-cases, Option-cases, select, fetch, exists_row, update, delete, All,
}
use Prim.Native.Char.{Char, code}
use Prim.Native.Nat.{◌%◌, ◌/◌}

pub record PushPayload : Type 0 where
  pub title : String
  pub body : String
  pub path : String

infixl 65 ◌<>◌
abbrev pub ◌<>◌ : String → String → String
s <> t = Prim.Native.String.◌++◌ s t

-- The decimal digits of a number; a number has fewer digits than its value plus one.
unfoldable pub digits : ℕ → ℕ → String
digits zero n = ""
digits (suc fuel) n =
    let digit = Prim.Native.String.slice "0123456789" (n % 10) (suc (n % 10)) in
    let rest = digits fuel (n / 10) in if n / 10 == 0 then digit else rest <> digit

abbrev pub show : ℕ → String
show n = digits (suc n) n

-- `char::is_whitespace`: the code points with the property White_Space.
unfoldable pub is_whitespace : Char → Bool
is_whitespace c =
    leb 9 (code c) && leb (code c) 13
    || (code c == 32 || (code c == 133 || (code c == 160 || code c == 5760)))
    || leb 8192 (code c) && leb (code c) 8202
    || (code c == 8232
        || (code c == 8233 || (code c == 8239 || (code c == 8287 || code c == 12288))))

abbrev starts_word : String → Bool
starts_word String.[] = false
starts_word (String.◌∷◌ c s) = not (is_whitespace c)

-- The character joins the word after it, if there is one at once.
abbrev pub prepend : Char → Bool → List String → List String
prepend c true (word ∷ words) = String.◌∷◌ c word ∷ words
prepend c _ words = String.◌∷◌ c String.[] ∷ words

unfoldable pub split_whitespace : String → List String
unfolding is_whitespace
split_whitespace String.[] = []
split_whitespace (String.◌∷◌ c s) =
    let rest = split_whitespace s in
    if is_whitespace c then rest else prepend c (starts_word s) rest

-- `join(" ")`
unfoldable pub join : List String → String
join [] = ""
join (w ∷ []) = w
join (w ∷ v ∷ ws) = w <> (" " <> join (v ∷ ws))

unfoldable pub take_chars : ℕ → String → String
take_chars zero s = String.[]
take_chars (suc n) String.[] = String.[]
take_chars (suc n) (String.◌∷◌ c s) = String.◌∷◌ c (take_chars n s)

-- Whether a character is left after the first `n`.
unfoldable pub has_more : ℕ → String → Bool
has_more n String.[] = false
has_more zero (String.◌∷◌ c s) = true
has_more (suc n) (String.◌∷◌ c s) = has_more n s

abbrev pub message_preview_max_chars : ℕ
message_preview_max_chars = 80

unfoldable pub truncate_preview : String → String
unfolding split_whitespace join take_chars has_more
truncate_preview content =
    let collapsed = join (split_whitespace content) in
    if has_more message_preview_max_chars collapsed
    then take_chars message_preview_max_chars collapsed <> "…"
    else take_chars message_preview_max_chars collapsed

-- The code points of a text in ASCII lower case.
unfoldable pub to_ascii_lowercase : String → List ℕ
to_ascii_lowercase String.[] = []
to_ascii_lowercase (String.◌∷◌ c s) =
    (if leb 65 (code c) && leb (code c) 90 then code c + 32 else code c) ∷ to_ascii_lowercase s

unfoldable pub starts_with : List ℕ → List ℕ → Bool
starts_with [] s = true
starts_with (c ∷ cs) [] = false
starts_with (c ∷ cs) (d ∷ ds) = c == d && starts_with cs ds

unfoldable pub contains : List ℕ → List ℕ → Bool
unfolding starts_with
contains needle [] = starts_with needle []
contains needle (c ∷ s) = starts_with needle (c ∷ s) || contains needle s

-- The literals of `is_location_share`, which are in lower case.
abbrev pub codes : String → List ℕ
codes String.[] = []
codes (String.◌∷◌ c s) = code c ∷ codes s

abbrev pub is_location_type : Option String → Bool
is_location_type none = false
is_location_type (some t) = str_eq t "LOCATION"

unfoldable pub is_location_share : Option String → String → Bool
unfolding to_ascii_lowercase contains
is_location_share message_type content =
    is_location_type message_type
    || (let lower = to_ascii_lowercase content in
        contains (codes "maps.app.goo.gl") lower
        || (contains (codes "google.com/maps") lower || contains (codes "maps.apple.com") lower))

abbrev pub preview_body : String → String → String
preview_body actor_username String.[] = actor_username <> " sent a message"
preview_body actor_username preview = actor_username <> ": " <> preview

unfoldable pub message_received_body : String → Option String → String → String
unfolding is_location_share truncate_preview
message_received_body actor_username message_type content =
    if is_location_share message_type content
    then actor_username <> " shared a location"
    else preview_body actor_username (truncate_preview content)

abbrev pub matches_path : String
matches_path = "/matches"

unfoldable pub trade_chat_path : ℕ → String
unfolding digits
trade_chat_path match_id = "/matches/chat/" <> show match_id

unfoldable pub match_notification_payload : String → PushPayload
match_notification_payload partner_username = record {
  title = "New match";
  body = "You have a new match with " <> partner_username <> "! Check it out in the Trades tab.";
  path = matches_path;
}

unfoldable pub offer_received_payload : String → ℕ → PushPayload
unfolding trade_chat_path
offer_received_payload actor_username match_id = record {
  title = "New offer";
  body = actor_username <> " sent you an offer. Open the trade to review it.";
  path = trade_chat_path match_id;
}

unfoldable pub offer_accepted_payload : String → ℕ → PushPayload
unfolding trade_chat_path
offer_accepted_payload actor_username match_id = record {
  title = "Offer accepted";
  body = actor_username <> " accepted your offer.";
  path = trade_chat_path match_id;
}

unfoldable pub message_received_payload : String → ℕ → Option String → String → PushPayload
unfolding trade_chat_path message_received_body
message_received_payload actor_username match_id message_type content = record {
  title = "New message";
  body = message_received_body actor_username message_type content;
  path = trade_chat_path match_id;
}
