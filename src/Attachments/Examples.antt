-- ===== src/Attachments/Examples.antt =====
-- conversation_attachments.py: the theorem at a small message.
use agent_app_server.Base.{◌≡◌, ◌≤◌, refl, String, String-discrete, pos, ok}
use agent_app_server.Json.{
  Json, Items, number, text, array, object, nil, cons, field, end, get, get_or,
}
use agent_app_server.Texts.{any_character, trim_left, trim_right}
use agent_app_server.Attachments.{safe_attachment_metadata, validate_file_name}
use agent_app_server.Attachments.Keeping.{AreAttachments, count_items, safe_attachment_metadata_lem}

abbrev show : Json → String
show v = "?"

-- One attachment, with a path that is not kept, and one without an identifier.
abbrev given : Json
given = array (
    cons
      (object (
        field "id" (text "0123456789abcdef0123456789abcdef") (
          field "name" (text " a.txt") (
            field "path" (text "/etc") (
              field "mime" (text "text/plain")
                (field "size" (number (pos 3)) (field "delivery" (text "vision") end)))))))
      (cons (object end) nil))

abbrev kept : Items
kept =
    cons
      (object (
        field "id" (text "0123456789abcdef0123456789abcdef") (
          field "name" (text "a.txt") (
            field "mime" (text "text/plain")
              (field "size" (number (pos 3)) (field "delivery" (text "vision") end))))))
      nil

keeps_one : safe_attachment_metadata show given ≡ ok kept
unfolding safe_attachment_metadata validate_file_name any_character trim_left trim_right get get_or
    String-discrete
keeps_one = refl

safe_attachment_metadata_lem_example : AreAttachments show kept × (count_items kept ≤ 5)
safe_attachment_metadata_lem_example = safe_attachment_metadata_lem show given kept keeps_one
