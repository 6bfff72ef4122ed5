-- ===== src/Images.antt =====
-- backend/src/handlers/images.rs and backend/src/storage: the upload and deletion of images. The decoding of
-- multipart data, which gives fields or an error, and the random part of a name are parameters; the upload directory is a list of files. The
-- reads and writes of the file system succeed, but for a name that leads into a directory.
use ymatch.Common.{
  str_eq, leb, ℕ, String, ◌⊎◌, inl, inr, Bool, true, false, ◌&&◌, ◌||◌, Option, none, some, List,
  [], ◌∷◌, ◌++◌, ◌==◌, if◌then◌else◌, delete,
}
use ymatch.Common.{length}
use ymatch.Error.{Result, ok, err, AppError, internal, ◌>>=◌, ◌>>◌}
use ymatch.Rbac.{Authority}
use ymatch.Api.{require_active_query_user}
use Prim.Native.Char.{code}

-- A field as the decoder gives it: its bytes, or the text of an error.
pub record Field : Type 0 where
  pub name : Option String
  pub content_type : Option String
  pub file_name : Option String
  pub bytes : String ⊎ List ℕ

pub record StoredFile : Type 0 where
  pub name : String
  pub bytes : List ℕ

infixl 65 ◌<>◌
abbrev ◌<>◌ : String → String → String
s <> t = Prim.Native.String.◌++◌ s t

-- Whether a character is in a text, by its code.
unfoldable pub has_char : ℕ → String → Bool
has_char n String.[] = false
has_char n (String.◌∷◌ c s) = code c == n || has_char n s

-- `rsplit(c).next()`: what follows the last of the characters, all of a text without one.
unfoldable pub after_last : ℕ → String → String
unfolding has_char
after_last n String.[] = String.[]
after_last n (String.◌∷◌ c s) =
    let rest = after_last n s in
    if has_char n s then rest else if code c == n then s else String.◌∷◌ c s

unfoldable pub starts_text : String → String → Bool
starts_text String.[] s = true
starts_text (String.◌∷◌ c p) String.[] = false
starts_text (String.◌∷◌ c p) (String.◌∷◌ d s) = code c == code d && starts_text p s

abbrev or_text : Option String → String → String
or_text none default = default
or_text (some s) default = s

abbrev read_bytes : String ⊎ List ℕ → Result (List ℕ)
read_bytes (inl text) = err (AppError.bad_request ("Failed to read file: " <> text))
read_bytes (inr bytes) = ok bytes

abbrev slash : ℕ
slash = b'/'

abbrev dot : ℕ
dot = b'.'

-- `fs::write` to a file in the directory of uploads; a name with a slash names a directory that is not there,
-- and `io_text` is what the system says then.
unfoldable pub upload :
    String → String → List ℕ → List StoredFile → Result (String × List StoredFile)
unfolding has_char
upload io_text filename bytes files =
    if has_char slash filename
    then err (internal ("IO error: " <> io_text))
    else ok ("uploads/" <> filename, files ++ record { name = filename; bytes = bytes } ∷ [])

abbrev pub is_file : String → StoredFile → Bool
is_file filename f = str_eq f.name filename

-- `LocalFileStorage::delete`: a file that is not there is no error.
unfoldable pub remove : String → List StoredFile → List StoredFile
unfolding after_last
remove url files = delete (is_file (after_last slash url)) files

abbrev pub upload_name : String → Option String → String
upload_name unique_id file_name = unique_id <> "." <> after_last dot (or_text file_name "image.png")

unfoldable pub store_field :
    String → String → Field → List StoredFile → Result (String × List StoredFile)
unfolding starts_text upload after_last
store_field io_text unique_id field files = do
  if starts_text "image/" (or_text field.content_type "image/png")
      then ok tt
      else err (AppError.bad_request "Only image files are allowed")
  bytes ← read_bytes field.bytes
  if leb (length bytes) 1048576
      then ok tt
      else err (AppError.bad_request "File too large (max 1MB)")
  upload io_text (upload_name unique_id field.file_name) bytes files

-- The loop over the fields: the first one named `file` decides.
unfoldable pub upload_fields :
    String → String → List (String ⊎ Field) → List StoredFile → Result (String × List StoredFile)
unfolding store_field
upload_fields io_text unique_id [] files =
    err (AppError.bad_request "No 'file' field found in multipart data")
upload_fields io_text unique_id (inl text ∷ fields) files =
    err (AppError.bad_request ("Multipart error: " <> text))
upload_fields io_text unique_id (inr field ∷ fields) files =
    let rest = upload_fields io_text unique_id fields files in
    if str_eq (or_text field.name "") "file"
    then store_field io_text unique_id field files
    else rest

unfoldable pub upload_image :
    String
    → String
    → Option ℕ
    → List (String ⊎ Field)
    → Authority
    → List StoredFile
    → Result (String × List StoredFile)
unfolding upload_fields
upload_image io_text unique_id query_user_id fields auth files = do
  user ← require_active_query_user query_user_id auth
  upload_fields io_text unique_id fields files

unfoldable pub delete_image :
    String → Option ℕ → Authority → List StoredFile → Result (List StoredFile)
unfolding remove
delete_image filename query_user_id auth files = do
  user ← require_active_query_user query_user_id auth
  ok (remove ("images/" <> filename) files)
