-- ===== src/Events/History.antt =====
-- stream_journal.py, `_history_item_event` and `history_watermark`: what an import records of a thread's
-- history.
use package.text.Mathlib.TextPositions.{len-append}
use agent_app_server.Base.{
  ℕ, ◌+◌, ◌≡◌, refl, arith, false, Option, none, some, [], ◌∷◌, String, String-discrete, pos,
  Result, ok, err, ◌>>=◌, if◌then◌else◌,
}
use agent_app_server.Json.{
  Items, Fields, number, text, array, object, nil, cons, field, end, get, get_or, is_empty,
}
use agent_app_server.Attachments.{PythonError, message_attachment_fields}
use agent_app_server.Journal.Writing.{Stamp, validate_values}
use agent_app_server.Journal.Envelope.{IsRequest}
use agent_app_server.Texts.{◌<>◌, is_one_of}
use agent_app_server.Events.{TextOperations}
use agent_app_server.Events.ToolItems.{content_of, message_text, safe_tool_item}
use agent_app_server.Events.Normalizing.{is, text_or, completed_kind}
use agent_app_server.Events.Validity.{
  IsNamed, not_empty, if_lem, if-IsNamed, completed_kind-IsNamed,
}
use agent_app_server.Events.Requests.{IsAccepted}

abbrev pub history_kind : String → String
history_kind sdk_type = if is "plan" sdk_type then "plan.updated" else completed_kind sdk_type

unfoldable pub item_count : Items → ℕ
item_count nil = 0
item_count (cons v items) = 1 + item_count items

module _ (t : TextOperations) where
  -- `str` of a number.
  abbrev pub decimal : ℕ → String
  decimal n = t.show (number (pos n))

  unfoldable pub history_data : Fields → String → Result PythonError Fields
  unfolding message_text message_attachment_fields safe_tool_item
  history_data item sdk_type =
      if is_one_of ("userMessage" ∷ "agentMessage" ∷ "plan" ∷ []) sdk_type
      then (message_text item >>= λ s.
          (if is "userMessage" sdk_type then message_attachment_fields t.show item else ok end)
          >>= λ attachments. ok (field "text" (text (t.redact s)) attachments))
      else ok (field "item" (object (safe_tool_item t item)) end)

  abbrev pub history_key : String → String → ℕ → String → Fields → String
  history_key thread_id turn_id ordinal kind values =
      "history:"
      <> (thread_id
          <> (":"
              <> (turn_id
                  <> (":"
                      <> (decimal ordinal
                          <> (":" <> (kind <> (":" <> t.fingerprint (object values)))))))))

  unfoldable pub history_values : String → String → Fields → ℕ → String → Fields → Fields
  history_values thread_id turn_id item ordinal sdk_type values =
      field "type" (text (history_kind sdk_type)) (
        field "event_type" (text "codex.history") (
          field "method" (text "history/item") (
            field "source" (text "codex_history") (
              field "thread_id" (text thread_id) (
                field "turn_id" (text turn_id) (
                  field "item_id"
                    (text
                      (text_or t item "id" ("history-" <> (sdk_type <> ("-" <> decimal ordinal)))))
                    (field "dedup_key"
                      (text (history_key thread_id turn_id ordinal (history_kind sdk_type) values))
                      (field "data" (object values) end))))))))

  -- `_history_item_event`
  unfoldable pub history_item_event :
      String → String → Fields → ℕ → Result PythonError (Option Fields)
  history_item_event thread_id turn_id item ordinal =
      let sdk_type = text_or t item "type" "tool" in
      if is_one_of ("reasoning" ∷ "hookprompt" ∷ "hook_prompt" ∷ []) (t.lower sdk_type)
      then ok none
      else (history_data item sdk_type >>= λ values.
          ok (some (history_values thread_id turn_id item ordinal sdk_type values)))

  -- `history_watermark`
  unfoldable pub history_watermark : Fields → Fields
  unfolding item_count
  history_watermark thread =
      let turns = content_of (get thread "turns") in
      field "updated_at" (get thread "updated_at") (
        field "turn_count" (number (pos (item_count turns)))
          (field "content_fingerprint" (text (t.fingerprint (array turns))) end))

history_kind-IsNamed : (sdk_type : String) → IsNamed (history_kind sdk_type)
history_kind-IsNamed s =
    if-IsNamed (is "plan" s) "plan.updated" (completed_kind s) (omega arith)
      (completed_kind-IsNamed s)

history_key-IsNamed :
    (t : TextOperations) (thread_id turn_id : String) (ordinal : ℕ) (kind : String)
    (values : Fields)
    → IsNamed (history_key t thread_id turn_id ordinal kind values)
history_key-IsNamed t thread_id turn_id ordinal kind values = omega (
  arith,
  len-append "history:" (
      thread_id
      <> (":"
          <> (turn_id
              <> (":"
                  <> (t.show (number (pos ordinal))
                      <> (":" <> (kind <> (":" <> t.fingerprint (object values))))))))),
)

history_values-IsRequest :
    (t : TextOperations) (thread_id turn_id : String) (item : Fields) (ordinal : ℕ)
    (sdk_type : String) (values : Fields) (stamp : Stamp)
    → is_empty (history_kind sdk_type) ≡ false
    → is_empty (history_key t thread_id turn_id ordinal (history_kind sdk_type) values) ≡ false
    → is_empty stamp.fresh_id ≡ false
    → is_empty stamp.now ≡ false
    → IsRequest stamp (history_values t thread_id turn_id item ordinal sdk_type values)
unfolding history_values validate_values get get_or String-discrete
history_values-IsRequest t thread_id turn_id item ordinal sdk_type values stamp kind key id now =
    record {
      validated = ground arith;
      event_id_text = refl;
      at_text = refl;
      has_fresh_id = id;
      has_now = now;
    }

history_made-IsAccepted :
    (t : TextOperations) (thread_id turn_id : String) (item : Fields) (ordinal : ℕ)
    (sdk_type : String) (stamp : Stamp) (made : Result PythonError Fields)
    → is_empty stamp.fresh_id ≡ false
    → is_empty stamp.now ≡ false
    → IsAccepted stamp (
        made >>= λ values.
        ok (some (history_values t thread_id turn_id item ordinal sdk_type values)))
history_made-IsAccepted t thread_id turn_id item ordinal sdk_type stamp (err e) id now = tt
history_made-IsAccepted t thread_id turn_id item ordinal sdk_type stamp (ok values) id now =
    let kind = history_kind sdk_type in
    let key = history_key t thread_id turn_id ordinal kind values in
    history_values-IsRequest t thread_id turn_id item ordinal sdk_type values stamp
      (not_empty kind (String-discrete kind "") (history_kind-IsNamed sdk_type))
      (not_empty key (String-discrete key "")
        (history_key-IsNamed t thread_id turn_id ordinal kind values))
      id now

-- An item of a thread's history is left out, or its values are a request that the journal accepts, with any
-- identifier and time that are not empty, unless a part of its message has the wrong kind.
pub history_item_event-IsAccepted :
    (t : TextOperations) (thread_id turn_id : String) (item : Fields) (ordinal : ℕ) (stamp : Stamp)
    → is_empty stamp.fresh_id ≡ false
    → is_empty stamp.now ≡ false
    → IsAccepted stamp (history_item_event t thread_id turn_id item ordinal)
unfolding history_item_event
history_item_event-IsAccepted t thread_id turn_id item ordinal stamp id now =
    let sdk_type = text_or t item "type" "tool" in
    if_lem (IsAccepted stamp)
      (is_one_of ("reasoning" ∷ "hookprompt" ∷ "hook_prompt" ∷ []) (t.lower sdk_type)) (λ _. tt)
      (λ _.
        history_made-IsAccepted t thread_id turn_id item ordinal sdk_type stamp
          (history_data t item sdk_type) id now)
