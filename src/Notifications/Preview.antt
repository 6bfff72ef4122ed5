-- ===== src/Notifications/Preview.antt =====
-- The text of a chat message in its notification.
use ymatch.Common.{
  ℕ, zero, suc, ◌+◌, ◌≤◌, String, ◌≡◌, refl, ◌⊎◌, inl, inr, Bool, true, false, List, [], ◌∷◌, arith,
  Bool-cases, All,
}
use Prim.Native.String.append
use Prim.Native.Char.{Char, code}
use ymatch.Notifications.{
  is_whitespace, prepend, split_whitespace, join, take_chars, has_more, truncate_preview, ◌<>◌,
}

-- The number of characters.
abbrev pub count : String → ℕ
count String.[] = 0
count (String.◌∷◌ c s) = suc (count s)

count-append : (s t : String) → count (s <> t) ≡ count s + count t
count-append String.[] t = let nil = append.nil t in rw nil (omega arith)
count-append (String.◌∷◌ c s) t =
    let rest = count-append s t in rw (append.cons c s t) (omega arith)

count-take : (n : ℕ) (s : String) → count (take_chars n s) ≤ n
unfolding take_chars
count-take zero s = omega arith
count-take (suc n) String.[] = omega arith
count-take (suc n) (String.◌∷◌ c s) = let rest = count-take n s in omega arith

-- Every character satisfies P.
abbrev pub AllChars : (Char → Type 0) → String → Type 0
AllChars P String.[] = Unit
AllChars P (String.◌∷◌ c s) = P c × AllChars P s

AllChars-append :
    (P : Char → Type 0) (s t : String) → AllChars P s → AllChars P t → AllChars P (s <> t)
AllChars-append P String.[] t ps pt = rw (append.nil t) pt
AllChars-append P (String.◌∷◌ c s) t ps pt =
    rw (append.cons c s t) (ps.0, AllChars-append P s t ps.1 pt)

AllChars-take :
    (P : Char → Type 0) (n : ℕ) (s : String) → AllChars P s → AllChars P (take_chars n s)
unfolding take_chars
AllChars-take P zero s ps = tt
AllChars-take P (suc n) String.[] ps = tt
AllChars-take P (suc n) (String.◌∷◌ c s) ps = (ps.0, AllChars-take P n s ps.1)

-- A character that stays on the line: no white space but the blank.
abbrev pub OnLine : Char → Type 0
OnLine c = (is_whitespace c ≡ false) ⊎ (code c ≡ 32)

prepend-OnLine :
    (c : Char) (joins : Bool) (words : List String)
    → is_whitespace c ≡ false
    → All (AllChars OnLine) words
    → All (AllChars OnLine) (prepend c joins words)
prepend-OnLine c true (w ∷ ws) dark line = ((inl dark, line.0), line.1)
prepend-OnLine c true [] dark line = ((inl dark, tt), tt)
prepend-OnLine c false ws dark line = ((inl dark, tt), line)

split_whitespace-OnLine : (s : String) → All (AllChars OnLine) (split_whitespace s)
unfolding split_whitespace
split_whitespace-OnLine String.[] = tt
split_whitespace-OnLine (String.◌∷◌ c s) = elim (Bool-cases (is_whitespace c)) [
  | inl blank ↦ rw blank (split_whitespace-OnLine s)
  | inr dark ↦ rw dark (prepend-OnLine c _ (split_whitespace s) dark (split_whitespace-OnLine s))
]

join-OnLine : (ws : List String) → All (AllChars OnLine) ws → AllChars OnLine (join ws)
unfolding join
join-OnLine [] line = tt
join-OnLine (w ∷ []) line = line.0
join-OnLine (w ∷ v ∷ ws) line =
    AllChars-append OnLine w _ line.0
      (AllChars-append OnLine " " _ (inr refl, tt) (join-OnLine (v ∷ ws) line.1))

-- The preview of a message has at most 81 characters, none of them a line break or other white space but
-- the blank.
pub truncate_preview-OnLine :
    (content : String)
    → (count (truncate_preview content) ≤ 81) × AllChars OnLine (truncate_preview content)
unfolding truncate_preview
truncate_preview-OnLine content =
    let collapsed = join (split_whitespace content) in
    let line : AllChars OnLine collapsed =
      join-OnLine (split_whitespace content) (split_whitespace-OnLine content) in
    let short : count (take_chars 80 collapsed) ≤ 80 = count-take 80 collapsed in
    let taken : AllChars OnLine (take_chars 80 collapsed) =
      AllChars-take OnLine 80 collapsed line in
    let longer = count-append (take_chars 80 collapsed) "…" in
    elim (Bool-cases (has_more 80 collapsed)) [
      | inl more ↦
          rw more
            (omega arith, AllChars-append OnLine (take_chars 80 collapsed) "…" taken (inl dots, tt))
      | inr all ↦ rw all (omega arith, taken)
    ]
  where
    dots : is_whitespace "…" ≡ false
    dots = refl
