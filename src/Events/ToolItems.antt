-- ===== src/Events/ToolItems.antt =====
-- stream_journal.py: what is kept of the items of a turn: `_root_item`, `_message_text` and
-- `_safe_tool_item`.
use Prim.Native.String.{len}
use agent_app_server.Base.{
  ℕ, Bool, not, ◌&&◌, ◌||◌, Option, none, some, List, [], ◌∷◌, String, String-discrete, pos, Result,
  ok, ◌>>=◌, if◌then◌else◌, ltb, holds,
}
use agent_app_server.Json.{
  Json, Items, Fields, boolean, number, text, array, object, nil, cons, field, end, get, get_or,
  find_field, put, is_truthy, is_empty, dict_of, as_text,
}
use agent_app_server.Attachments.{PythonError, root_part, reference_marker}
use agent_app_server.Journal.{is_text_of}
use agent_app_server.Texts.{join, has_suffix, before_last, is_one_of}
use agent_app_server.Events.{
  TextOperations, Output, unrooted, safe_value, safe_fields, truncate_output, output_limit,
}

-- `_root_item`
unfoldable pub root_item : Fields → Fields
root_item raw = dict_of (unrooted (get raw "item"))

-- The texts of the parts that are dictionaries and of type "text".
unfoldable pub message_values : Items → Result PythonError (List String)
unfolding get get_or
message_values nil = ok []
message_values (cons v parts) =
    let later = message_values parts in
    elim v [
      | object part ↦ root_part part >>= λ root.
          if not (is_text_of ("text" ∷ []) (get_or root "type" (text "text")))
          then later
          else elim (as_text (get_or root "text" (get root "value"))) [
            | none ↦ later
            | some s ↦ later >>= λ texts. ok (s ∷ texts)
          ]
      | _ ↦ later
    ]

abbrev pub content_of : Json → Items
content_of (array items) = items
content_of _ = nil

-- A user's message without the note about its attachments.
abbrev pub without_references : Fields → String → String
without_references item s =
    let before = before_last s reference_marker in
    if is_text_of ("userMessage" ∷ []) (get item "type")
      && not (is_truthy (get item "attachments"))
      && has_suffix s "\n[/Console attachment file references]"
    then (if is_empty before then s else before)
    else s

-- `_message_text`
unfoldable pub message_text : Fields → Result PythonError String
unfolding message_values before_last
message_text item = elim (as_text (get item "text")) [
  | some s ↦ ok s
  | none ↦ message_values (content_of (get item "content")) >>= λ texts.
      ok (without_references item (join "\n" texts))
]

abbrev pub allowed : List String
allowed =
    "id" ∷ "type" ∷ "status" ∷ "command" ∷ "exit_code" ∷ "exitCode" ∷ "duration_ms" ∷ "durationMs"
    ∷ "aggregated_output" ∷ "aggregatedOutput" ∷ "output" ∷ "result" ∷ "error" ∷ "changes"
    ∷ "action" ∷ "name" ∷ "server" ∷ "tool" ∷ "arguments" ∷ "input" ∷ "title" ∷ "namespace"
    ∷ "success" ∷ "content_items" ∷ "contentItems" ∷ "agents_states" ∷ "agentsStates" ∷ "prompt"
    ∷ "model" ∷ "reasoning_effort" ∷ "reasoningEffort" ∷ "receiver_thread_ids" ∷ "receiverThreadIds"
    ∷ "sender_thread_id" ∷ "senderThreadId" ∷ "output_byte_count" ∷ "output_truncated" ∷ []

abbrev pub output_keys : List String
output_keys =
    "aggregated_output" ∷ "aggregatedOutput" ∷ "output" ∷ "result" ∷ "error" ∷ "content_items"
    ∷ "contentItems" ∷ "agents_states" ∷ "agentsStates" ∷ []

module _ (t : TextOperations) where
  unfoldable pub safe_changes : Items → Items
  unfolding safe_fields
  safe_changes nil = nil
  safe_changes (cons v changes) =
      let later = safe_changes changes in
      elim v [
        | object change ↦
            cons (object (safe_fields t change ("path" ∷ "kind" ∷ "type" ∷ "status" ∷ []))) later
        | _ ↦ later
      ]

  abbrev pub is_key : String → String → Bool
  is_key name key = holds (String-discrete key name)

  -- The value that is kept under an allowed key.
  unfoldable pub safe_part : String → Json → Json
  unfolding safe_changes
  safe_part key (array changes) =
      if is_key "changes" key then array (safe_changes changes) else safe_value t 0 (array changes)
  safe_part key (object action) =
      if is_key "action" key
      then object (safe_fields t action ("type" ∷ "query" ∷ "queries" ∷ "url" ∷ "pattern" ∷ []))
      else safe_value t 0 (object action)
  safe_part key v = safe_value t 0 v

  unfoldable pub safe_parts : Fields → Fields
  unfolding safe_part
  safe_parts end = end
  safe_parts (field key v rest) =
      let later = safe_parts rest in
      if is_one_of allowed key then field key (safe_part key v) later else later

  unfoldable pub first_key : List String → Fields → Option String
  unfolding find_field
  first_key [] values = none
  first_key (key ∷ keys) values = elim (find_field values key) [
    | some v ↦ some key
    | none ↦ first_key keys values
  ]

  -- A text, or the JSON text of a value.
  abbrev pub output_text : Json → String
  output_text (text s) = s
  output_text v = t.dump v

  abbrev pub is_shortened : Output → ℕ → Bool
  is_shortened made original = made.is_truncated || ltb output_limit original

  abbrev pub with_output : Fields → String → Output → ℕ → Fields
  with_output safe key made original =
      put
        (put (if is_shortened made original then put safe key (text made.output) else safe)
          "output_byte_count" (number (pos original)))
        "output_truncated" (boolean (is_shortened made original))

  -- `_safe_tool_item`
  unfoldable pub safe_tool_item : Fields → Fields
  unfolding safe_parts first_key truncate_output put
  safe_tool_item item =
      let safe = safe_parts item in
      elim (first_key output_keys safe) [
        | none ↦ safe
        | some key ↦
            with_output safe key (truncate_output t output_limit (output_text (get safe key)))
              (len (output_text (get item key)))
      ]
