-- ===== src/Events/Examples.antt =====
-- stream_journal.py: the theorems at small values.
use Prim.Native.String.{len}
use agent_app_server.Base.{
  ◌≡◌, ◌≤◌, ◌⊎◌, refl, true, false, none, [], ◌∷◌, String, String-discrete, arith, ok,
}
use agent_app_server.Json.{
  Fields, Json, text, array, object, nil, cons, field, end, is_empty, is_truthy,
}
use agent_app_server.Journal.{is_text_of}
use agent_app_server.Events.ToolItems.{message_text}
use agent_app_server.Texts.{join}
use agent_app_server.Journal.Writing.{Stamp}
use agent_app_server.Events.{TextOperations, truncate_output, safe_value}
use agent_app_server.Events.Normalizing.{is}
use agent_app_server.Events.Identity.{normalize_event}
use agent_app_server.Events.Truncation.{truncate_output_lem}
use agent_app_server.Events.Safety.{IsSafe, height, safe_value_lem}
use agent_app_server.Events.History.{history_item_event, history_item_event-IsAccepted}
use agent_app_server.Events.Requests.{IsAccepted, normalize_event-IsAccepted}

abbrev plain : TextOperations
plain = record {
  show = λ v. "{}";
  lower = λ s. s;
  redact = λ s. s;
  is_sensitive = λ key. is "password" key;
  dump = λ v. "{}";
  fingerprint = λ v. "f";
}

abbrev long_text : String
long_text = "0123456789012345678901234567890123456789"

truncates : (truncate_output plain 31 long_text).output ≡ "01\n… <output truncated> …\n9"
unfolding truncate_output
truncates = refl

truncate_output_lem_example :
    let kept = truncate_output plain 31 long_text in
    (len kept.output ≤ 31)
    × ((kept.output ≡ long_text) ⊎ (kept.is_truncated ≡ true))
    × (kept.byte_count ≡ len long_text)
truncate_output_lem_example = truncate_output_lem plain 31 long_text (omega arith)

abbrev login : Json
login = object (field "password" (text "x") (field "names" (array (cons (text "a") nil)) end))

safe_value_lem_example :
    IsSafe plain (safe_value plain 0 login) × (height (safe_value plain 0 login) ≤ 9)
safe_value_lem_example = safe_value_lem plain login

known_source : is_text_of ("codex_stream" ∷ "codex_history" ∷ []) (text "codex_stream") ≡ true
unfolding String-discrete
known_source = refl

-- The note about attachments is cut from a user's message.
without_note :
    message_text (
      field "type" (text "userMessage") (
        field "content"
          (array (
            cons
              (object (
                field "text"
                  (text
                    "Look\n\n[Console attachment file references]\na.txt\n[/Console attachment file references]")
                  end))
              nil))
          end))
    ≡ ok "Look"
unfolding message_text join String-discrete is_truthy
without_note = refl

abbrev first_delta : Json
first_delta = object (field "delta" (text "Hi") (field "turnId" (text "t1") end))

abbrev stamp : Stamp
stamp = record { fresh_id = "e1"; now = "2026-01-01T00:00:00Z" }

id_given : is_empty stamp.fresh_id ≡ false
unfolding String-discrete
id_given = refl

now_given : is_empty stamp.now ≡ false
unfolding String-discrete
now_given = refl

normalize_event-IsAccepted_example : IsAccepted stamp (
    normalize_event plain "th" "codex.notification" "item/agentMessage/delta" first_delta none
      "codex_stream" none "u")
normalize_event-IsAccepted_example =
    normalize_event-IsAccepted plain "th" "codex.notification" "item/agentMessage/delta" first_delta
      none "codex_stream" none "u" stamp known_source tt id_given now_given

abbrev plan_item : Fields
plan_item = field "type" (text "plan") (field "text" (text "Do it") end)

history_item_event-IsAccepted_example :
    IsAccepted stamp (history_item_event plain "th" "t1" plan_item 3)
history_item_event-IsAccepted_example =
    history_item_event-IsAccepted plain "th" "t1" plan_item 3 stamp id_given now_given
