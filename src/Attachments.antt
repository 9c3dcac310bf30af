-- ===== src/Attachments.antt =====
-- conversation_attachments.py: what a message keeps of its attachments; and the check of a file's name
-- in project_files.py. `show` is `str` of a value that is no text.
pub mod Keeping
mod Examples
use Prim.Native.String.{len, count}
use agent_app_server.Base.{
  ℕ, zero, suc, Bool, true, false, not, ◌&&◌, ◌||◌, Option, none, some, List, [], ◌∷◌, String, pos,
  Result, ok, err, ◌>>=◌, if◌then◌else◌, ltb, leb, ◌==◌,
}
use agent_app_server.Json.{
  Json, Items, Fields, boolean, number, text, array, object, nil, cons, field, end, get, get_or,
  or_else, is_empty, is_truthy, str_of,
}
use agent_app_server.Journal.{is_text_of}
use agent_app_server.Journal.Writing.{is_hashable}
use agent_app_server.Texts.{includes, trim, any_character, is_one_of}

-- What an operation on a value of the wrong kind raises.
pub data PythonError : Type 0 where
  attribute_error type_error : PythonError

abbrev pub is_hex_digit : ℕ → Bool
is_hex_digit c = leb 48 c && leb c 57 || leb 97 c && leb c 102

-- `ATTACHMENT_ID_PATTERN.fullmatch`
abbrev pub is_attachment_id : String → Bool
is_attachment_id s = not (any_character (λ c. not (is_hex_digit c)) s) && count s == 32

abbrev pub is_name_character : ℕ → Bool
is_name_character c = not (c == 47 || c == 92 || ltb c 32 || c == 127)

-- `_validate_name` of a value; a value that is no text has no `strip`.
unfoldable pub validate_file_name : Json → Option String
validate_file_name (text value) =
    let name = trim value in
    if is_empty (trim name)
      || is_one_of ("." ∷ ".." ∷ []) name
      || any_character (λ c. not (is_name_character c)) name
      || ltb 255 (len name)
    then none
    else some name
validate_file_name _ = none

abbrev pub mimes : List String
mimes = "image/png" ∷ "image/jpeg" ∷ "text/plain" ∷ []

abbrev pub deliveries : List String
deliveries = "vision" ∷ "file_reference" ∷ []

-- `isinstance(size, int) and not isinstance(size, bool) and 0 <= size <= MAX_FILE_BYTES`
abbrev pub is_file_size : Json → Bool
is_file_size (number (pos n)) = leb n 52428800
is_file_size _ = false

abbrev pub kept_attachment : Fields → String → Json
kept_attachment item name = object (
    field "id" (get item "id") (
      field "name" (text name) (
        field "mime" (get item "mime")
          (field "size" (get item "size") (field "delivery" (get item "delivery") end)))))

abbrev pub named_attachment : Fields → Option String → Option Json
named_attachment item none = none
named_attachment item (some name) =
    if is_file_size (get item "size") then some (kept_attachment item name) else none

-- One turn of the loop of `safe_attachment_metadata`.
unfoldable pub safe_attachment : (Json → String) → Json → Result PythonError (Option Json)
safe_attachment show (object item) =
    if not (is_attachment_id (str_of show (get_or item "id" (text ""))))
    then ok none
    else if not (is_text_of mimes (get item "mime"))
    then ok none
    else if not (is_hashable (get item "delivery"))
    then err type_error
    else if not (is_text_of deliveries (get item "delivery"))
    then ok none
    else ok (named_attachment item (validate_file_name (get_or item "name" (text ""))))
safe_attachment show _ = ok none

abbrev pub with_attachment : Option Json → Items → Items
with_attachment none items = items
with_attachment (some a) items = cons a items

-- The first `n` items of a list.
unfoldable pub safe_attachments : (Json → String) → ℕ → Items → Result PythonError Items
unfolding safe_attachment
safe_attachments show zero items = ok nil
safe_attachments show (suc n) nil = ok nil
safe_attachments show (suc n) (cons v items) = safe_attachment show v >>= λ kept.
    safe_attachments show n items >>= λ more. ok (with_attachment kept more)

-- `safe_attachment_metadata`
unfoldable pub safe_attachment_metadata : (Json → String) → Json → Result PythonError Items
unfolding safe_attachments
safe_attachment_metadata show (array items) = safe_attachments show 5 items
safe_attachment_metadata show _ = ok nil

-- What a loop over the content goes through.
abbrev pub parts_of : Json → Result PythonError Items
parts_of (array items) = ok items
parts_of (text s) = ok nil
parts_of (object fields) = ok nil
parts_of _ = err type_error

-- `part.get("root", part)`, on which `get` is called.
abbrev pub root_part : Fields → Result PythonError Fields
root_part part = elim (get_or part "root" (object part)) [
  | object root ↦ ok root
  | _ ↦ err attribute_error
]

abbrev pub is_image_part : Fields → Result PythonError Bool
is_image_part part = root_part part >>= λ root.
    if is_hashable (get root "type")
    then ok (is_text_of ("image" ∷ "localImage" ∷ "local_image" ∷ []) (get root "type"))
    else err type_error

abbrev pub reference_marker : String
reference_marker = "\n\n[Console attachment file references]\n"

abbrev pub is_reference_part : (Json → String) → Fields → Result PythonError Bool
is_reference_part show part = root_part part >>= λ root.
    ok (includes (str_of show (get_or root "text" (text ""))) reference_marker)

-- `any(...)` over the parts that are dictionaries; it stops at the first that holds.
unfoldable pub any_part : (Fields → Result PythonError Bool) → Items → Result PythonError Bool
any_part test nil = ok false
any_part test (cons v parts) =
    let later = any_part test parts in
    elim v [ object part ↦ test part >>= λ found. if found then ok true else later | _ ↦ later ]

abbrev pub is_nil : Items → Bool
is_nil nil = true
is_nil (cons v items) = false

-- `message_attachment_fields`
unfoldable pub message_attachment_fields : (Json → String) → Fields → Result PythonError Fields
unfolding safe_attachment_metadata any_part
message_attachment_fields show item =
    safe_attachment_metadata show (get item "attachments") >>= λ attachments.
    parts_of (or_else (get item "content") (array nil)) >>= λ parts.
    any_part is_image_part parts >>= λ has_image.
    (if has_image then ok true else any_part (is_reference_part show) parts) >>= λ is_unknown. ok (
      field "attachments" (array attachments) (
        field "attachments_unavailable"
          (boolean
            (is_truthy (get item "attachments_unavailable") || is_unknown && is_nil attachments))
          end))
