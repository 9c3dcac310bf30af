-- ===== src/Attachments/Keeping.antt =====
-- conversation_attachments.py, `safe_attachment_metadata`: what can be among the attachments of a message.
use agent_app_server.Base.{
  ℕ, zero, suc, ◌+◌, ◌≤◌, ◌≡◌, subst, arith, true, false, not, Option, none, some, [], ◌∷◌, String,
  ok, Result-cases, Option-cases, inl, inr,
}
use Prim.Native.String.{len}
use agent_app_server.Json.{
  Json, Items, Fields, text, array, object, nil, cons, get, get_or, is_empty, str_of,
}
use agent_app_server.Journal.{is_text_of}
use agent_app_server.Texts.{trim, any_character, is_one_of}
use agent_app_server.Attachments.{
  is_attachment_id, is_name_character, validate_file_name, mimes, deliveries, is_file_size,
  kept_attachment, safe_attachment, with_attachment, safe_attachments, safe_attachment_metadata,
}

-- A name of one visible path component, at most 255 bytes long.
pub record IsFileName (name : String) : Type 0 where
  pub visible : is_empty (trim name) ≡ false
  pub plain : any_character (λ c. not (is_name_character c)) name ≡ false
  pub no_dots : is_one_of ("." ∷ ".." ∷ []) name ≡ false
  pub short : len name ≤ 255

validate_file_name-IsFileName :
    (v : Json) (name : String) → validate_file_name v ≡ some name → IsFileName name
unfolding validate_file_name
validate_file_name-IsFileName (text s) name e = record {
  visible = ground arith;
  plain = ground arith;
  no_dots = ground arith;
  short = ground arith;
}
validate_file_name-IsFileName v name e = let bad : ⊥ = ground arith in absurd bad

-- What an attachment of a message has.
pub record IsAttachment (show : Json → String) (item : Fields) (name : String) : Type 0 where
  pub id : is_attachment_id (str_of show (get_or item "id" (text ""))) ≡ true
  pub mime : is_text_of mimes (get item "mime") ≡ true
  pub delivery : is_text_of deliveries (get item "delivery") ≡ true
  pub size : is_file_size (get item "size") ≡ true
  pub named : IsFileName name

safe_attachment-IsAttachment :
    (show : Json → String) (item : Fields) (kept : Json)
    → safe_attachment show (object item) ≡ ok (some kept)
    → (name : String) × (kept ≡ kept_attachment item name) × IsAttachment show item name
unfolding safe_attachment
safe_attachment-IsAttachment show item kept e =
    elim (Option-cases (validate_file_name (get_or item "name" (text "")))) [
      | inl unnamed ↦ let bad : ⊥ = ground (arith) in absurd bad
      | inr (name, named) ↦ (
        name,
        ground arith,
        record {
          id = ground arith;
          mime = ground arith;
          delivery = ground arith;
          size = ground arith;
          named = validate_file_name-IsFileName (get_or item "name" (text "")) name named;
        },
      )
    ]

abbrev pub count_items : Items → ℕ
count_items nil = 0
count_items (cons v items) = 1 + count_items items

-- Each is made of an item that has what an attachment must have, and of a checked name.
abbrev pub AreAttachments : (Json → String) → Items → Type 0
AreAttachments show nil = Unit
AreAttachments show (cons kept items) =
    ((item : Fields) × (name : String) × (kept ≡ kept_attachment item name)
      × IsAttachment show item name)
    × AreAttachments show items

abbrev Keeps : (Json → String) → ℕ → Items → Type 0
Keeps show n kept = AreAttachments show kept × (count_items kept ≤ n)

with_attachment-Keeps :
    (show : Json → String) (n : ℕ) (v : Json) (kept : Option Json) (more : Items)
    → safe_attachment show v ≡ ok kept
    → Keeps show n more
    → Keeps show (suc n) (with_attachment kept more)
unfolding safe_attachment
with_attachment-Keeps show n v none more made (each, few) = (each, omega arith)
with_attachment-Keeps show n (object item) (some kept) more made (each, few) =
    let (name, same, is_attachment) = safe_attachment-IsAttachment show item kept made in
    (((item, name, same, is_attachment), each), omega arith)
with_attachment-Keeps show n v (some kept) more made keeps =
    let bad : ⊥ = ground arith in absurd bad

safe_attachments-Keeps :
    (show : Json → String) (n : ℕ) (items kept : Items)
    → safe_attachments show n items ≡ ok kept
    → Keeps show n kept
unfolding safe_attachments
safe_attachments-Keeps show zero items kept e =
    let same : nil ≡ kept = ground arith in subst (Keeps show zero) same (tt, omega arith)
safe_attachments-Keeps show (suc n) nil kept e =
    let same : nil ≡ kept = ground arith in subst (Keeps show (suc n)) same (tt, omega arith)
safe_attachments-Keeps show (suc n) (cons v items) kept e =
    elim (Result-cases (safe_attachment show v)) [
      | inr (x, raised) ↦ let bad : ⊥ = ground arith in absurd bad
      | inl (a, made) ↦ elim (Result-cases (safe_attachments show n items)) [
        | inr (x, raised) ↦ let bad : ⊥ = ground arith in absurd bad
        | inl (more, rest) ↦
            let same : with_attachment a more ≡ kept = ground arith in
            subst (Keeps show (suc n)) same (
              with_attachment-Keeps show n v a more made
                (safe_attachments-Keeps show n items more rest))
      ]
    ]

-- A message keeps at most five attachments, and each has only its identifier of 32 hexadecimal digits, a name
-- of one visible path component, one of the three types, a size of at most 50 MiB and a way of delivery.
pub safe_attachment_metadata_lem :
    (show : Json → String) (v : Json) (kept : Items)
    → safe_attachment_metadata show v ≡ ok kept
    → AreAttachments show kept × (count_items kept ≤ 5)
unfolding safe_attachment_metadata
safe_attachment_metadata_lem show (array items) kept e = safe_attachments-Keeps show 5 items kept e
safe_attachment_metadata_lem show v kept e =
    let same : nil ≡ kept = ground arith in subst (Keeps show 5) same (tt, omega arith)
