-- ===== src/Events/Normalizing.antt =====
-- stream_journal.py, `normalize_event` up to its keys: the type and the data that are kept of a
-- notification of Codex or of the console.
use agent_app_server.Base.{
  Bool, true, false, not, ◌&&◌, ◌||◌, Option, none, some, List, [], ◌∷◌, String, String-discrete,
  pos, Result, ok, ◌>>=◌, if◌then◌else◌, holds, select,
}
use agent_app_server.Json.{
  Json, Items, Fields, null, boolean, number, text, array, object, nil, cons, field, end, get,
  or_else, merge, is_truthy, is_empty, dict_of,
}
use agent_app_server.Attachments.{PythonError, message_attachment_fields}
use agent_app_server.Texts.{◌<>◌, includes, has_prefix, join, is_one_of}
use agent_app_server.Events.{
  TextOperations, unrooted, non_empty, json_of, value_of, to_text, safe_value, safe_fields,
  turn_metadata, safe_goal, truncate_output, output_limit,
}
use agent_app_server.Events.ToolItems.{root_item, message_text, content_of, safe_tool_item}

-- The type of an event and its data.
pub record Body : Type 0 where
  pub kind : String
  pub values : Fields

abbrev pub body : String → Fields → Body
body kind values = record { kind = kind; values = values }

abbrev pub is : String → String → Bool
is name s = holds (String-discrete s name)

-- What is read of a notification before its method is looked at.
pub record Notice : Type 0 where
  pub thread_id : String
  pub event_type : String
  pub method : String
  pub raw : Fields
  pub turn : Fields
  pub turn_id : Option String
  pub item : Fields
  pub item_id : Option String

abbrev pub is_item : Fields → Bool
is_item end = false
is_item _ = true

abbrev pub terminal_kind : String → String
terminal_kind status =
    if is_one_of ("interrupted" ∷ "cancelled" ∷ "canceled" ∷ []) status
    then "turn.interrupted"
    else if is_one_of ("error" ∷ "failed" ∷ []) status
    then "turn.error"
    else "turn.completed"

abbrev pub completed_kind : String → String
completed_kind sdk_type =
    if is "userMessage" sdk_type
    then "user_message.completed"
    else if is "agentMessage" sdk_type
    then "agent_message.completed"
    else if is "commandExecution" sdk_type
    then "command.completed"
    else if is "fileChange" sdk_type
    then "file_change.completed"
    else if is "webSearch" sdk_type
    then "web_search.completed"
    else if is_one_of ("mcpToolCall" ∷ "mcpTool" ∷ []) sdk_type
    then "mcp_tool.completed"
    else "tool.completed"

abbrev pub is_message : String → Bool
is_message sdk_type = is_one_of ("userMessage" ∷ "agentMessage" ∷ []) sdk_type

abbrev pub console_kind : String → String → String → String
console_kind running failed event_type =
    if is running event_type
    then "turn.started"
    else if is failed event_type
    then "turn.error"
    else event_type

module _ (t : TextOperations) where
  -- `str(values.get(key) or default)`
  abbrev pub text_or : Fields → String → String → String
  text_or values key default = to_text t (or_else (get values key) (text default))

  -- `str(_value(raw, "turn_id", "turnId") or turn_data.get("id") or turn_id or "") or None`
  abbrev pub turn_id_of : Fields → Fields → Option String → Option String
  turn_id_of raw turn given = non_empty (
      to_text t (
        or_else (value_of raw "turn_id" "turnId")
          (or_else (get turn "id") (or_else (json_of given) (text "")))))

  abbrev pub own_item_id : Fields → Fields → Option String
  own_item_id raw item =
      non_empty
        (to_text t (or_else (get item "id") (or_else (value_of raw "item_id" "itemId") (text ""))))

  abbrev pub item_id_of : String → Option String → Option String → Option String
  item_id_of method (some turn_id) none =
      if is "item/agentMessage/delta" method then some ("agent-" <> turn_id) else none
  item_id_of method turn_id own = own

  unfoldable pub read_notice : String → String → String → Json → Option String → Notice
  unfolding root_item
  read_notice thread_id event_type method given turn_id =
      let raw = dict_of given in
      let turn = dict_of (unrooted (get raw "turn")) in
      let known = turn_id_of raw turn turn_id in
      record {
        thread_id = thread_id;
        event_type = event_type;
        method = method;
        raw = raw;
        turn = turn;
        turn_id = known;
        item = root_item raw;
        item_id = item_id_of method known (own_item_id raw (root_item raw));
      }

  -- Reasoning and hooks are not kept.
  unfoldable pub is_private : Notice → Bool
  is_private n =
      is_one_of ("reasoning" ∷ "hookprompt" ∷ "hook_prompt" ∷ [])
        (t.lower (text_or n.item "type" ""))
      || includes (t.lower n.method) "reasoning"
      || includes (t.lower n.method) "hook"

  abbrev pub status_of : Notice → String
  status_of n =
      t.lower (
        to_text t (or_else (get n.raw "status") (or_else (get n.turn "status") (text "completed"))))

  unfoldable pub turn_completed : Notice → Body
  unfolding turn_metadata
  turn_completed n =
      body (terminal_kind (status_of n))
        (field "status" (text (status_of n)) (turn_metadata t n.turn))

  unfoldable pub message_completed : Notice → String → Result PythonError Body
  unfolding message_text message_attachment_fields merge
  message_completed n sdk_type = message_text n.item >>= λ s.
      (if is "userMessage" sdk_type then message_attachment_fields t.show n.item else ok end)
      >>= λ attachments. ok (
          body (completed_kind sdk_type) (
            field "text" (text (t.redact s)) (
              field "item_id" (json_of n.item_id) (field "item_type" (text sdk_type) attachments))))

  unfoldable pub item_completed : Notice → Result PythonError Body
  unfolding message_completed safe_tool_item
  item_completed n =
      let sdk_type = text_or n.item "type" "tool" in
      if is_message sdk_type
      then message_completed n sdk_type
      else ok (body (completed_kind sdk_type) (field "item" (object (safe_tool_item t n.item)) end))

  unfoldable pub item_started : Notice → Option Body
  unfolding safe_tool_item
  item_started n =
      let sdk_type = text_or n.item "type" "tool" in
      if is_message sdk_type
      then none
      else some (
          body (if is "commandExecution" sdk_type then "command.started" else "tool.started")
            (field "item" (object (safe_tool_item t n.item)) end))

  unfoldable pub plan_steps : Items → Items
  plan_steps nil = nil
  plan_steps (cons v steps) =
      let later = plan_steps steps in
      elim v [
        | object step ↦
            if is_truthy (get step "step")
            then cons
                (object (
                  field "step" (text (t.redact (text_or step "step" "")))
                    (field "status" (text (text_or step "status" "pending")) end)))
                later
            else later
        | _ ↦ later
      ]

  unfoldable pub plan_lines : Items → List String
  plan_lines nil = []
  plan_lines (cons v steps) =
      (text_or (dict_of v) "status" "" <> (": " <> text_or (dict_of v) "step" ""))
      ∷ plan_lines steps

  unfoldable pub plan_updated : Notice → Body
  unfolding plan_steps plan_lines join
  plan_updated n =
      let explanation = t.redact (text_or n.raw "explanation" "") in
      let plan = plan_steps (content_of (get n.raw "plan")) in
      body "plan.updated" (
        field "explanation" (text explanation) (
          field "plan" (array plan) (
            field "text"
              (text (
                join "\n" (
                  select (λ s. not (is_empty s)) (explanation ∷ join "\n" (plan_lines plan) ∷ []))))
              end)))

  unfoldable pub diff_updated : Notice → Body
  unfolding truncate_output
  diff_updated n =
      let made = truncate_output t output_limit (text_or n.raw "diff" "") in
      body "file_change.updated" (
        field "diff" (text made.output) (
          field "output_byte_count" (number (pos made.byte_count))
            (field "output_truncated" (boolean made.is_truncated) end)))

  abbrev pub thread_fields : Fields → Fields
  thread_fields raw = safe_fields t raw ("thread_id" ∷ "threadId" ∷ [])

  unfoldable pub thread_status : Json → Fields
  unfolding safe_value safe_fields
  thread_status (object status) =
      field "status" (object (safe_fields t status ("type" ∷ "active_flags" ∷ "activeFlags" ∷ [])))
        end
  thread_status null = end
  thread_status v = field "status" (safe_value t 0 v) end

  unfoldable pub goal_part : Json → Fields
  unfolding safe_goal
  goal_part v = elim (safe_goal t v) [ none ↦ end | some goal ↦ field "goal" (object goal) end ]

  unfoldable pub console_turn : Notice → Body
  unfolding safe_fields
  console_turn n =
      body (console_kind "console.turn.running" "console.turn.error" n.event_type)
        (safe_fields t n.raw ("model" ∷ "reasoning_effort" ∷ "error_code" ∷ "accepted" ∷ []))

  unfoldable pub console_goal : Notice → Body
  unfolding safe_fields goal_part merge
  console_goal n = body (console_kind "console.goal.running" "console.goal.error" n.event_type) (
      merge
        (safe_fields t n.raw
          ("token_budget" ∷ "model" ∷ "reasoning_effort" ∷ "error_code" ∷ "accepted" ∷ []))
        (goal_part (get n.raw "goal")))

  -- The methods of threads, and the events of the console.
  unfoldable pub thread_body : Notice → Option Body
  unfolding safe_fields merge
  thread_body n =
      if includes (t.lower n.method) "usage"
      then some (
          body "usage.updated" (
            safe_fields t n.raw (
              "token_usage" ∷ "tokenUsage" ∷ "total" ∷ "last" ∷ "model_context_window"
              ∷ "modelContextWindow" ∷ [])))
      else if is "thread/status/changed" n.method
      then some (
          body "thread.status_changed"
            (merge (thread_fields n.raw) (thread_status (unrooted (get n.raw "status")))))
      else if is "thread/goal/updated" n.method
      then some (body "goal.updated" (merge (thread_fields n.raw) (goal_part (get n.raw "goal"))))
      else if is "thread/goal/cleared" n.method
      then some (body "goal.cleared" (thread_fields n.raw))
      else if has_prefix n.event_type "console.turn."
      then some (console_turn n)
      else if has_prefix n.event_type "console.goal."
      then some (console_goal n)
      else none

  -- The methods of items, plans and changes.
  unfoldable pub item_body : Notice → Result PythonError (Option Body)
  item_body n =
      if is "item/completed" n.method && is_item n.item
      then (item_completed n >>= λ made. ok (some made))
      else if is "item/started" n.method && is_item n.item
      then ok (item_started n)
      else if is "turn/plan/updated" n.method
      then ok (some (plan_updated n))
      else if is "turn/diff/updated" n.method
      then ok (some (diff_updated n))
      else ok (thread_body n)

  -- The type and the data by the method.
  unfoldable pub body_of : Notice → Result PythonError (Option Body)
  unfolding turn_metadata
  body_of n =
      if is "turn/started" n.method
      then ok
          (some (body "turn.started" (field "status" (text "running") (turn_metadata t n.turn))))
      else if is "turn/completed" n.method
      then ok (some (turn_completed n))
      else if is "turn/error" n.method
      then ok (
          some (
            body "turn.error" (
              field "status" (text "error")
                (field "error_code" (text (text_or n.raw "error_code" "stream_error")) end))))
      else if is "turn/interrupted" n.method
      then ok (some (body "turn.interrupted" (field "status" (text "interrupted") end)))
      else if is "item/agentMessage/delta" n.method
      then ok (
          some (
            body "agent_message.delta" (
              field "delta" (text (t.redact (text_or n.raw "delta" "")))
                (field "item_id" (json_of n.item_id) end))))
      else if is "item/agentMessage/checkpoint" n.method
      then ok (
          some (
            body "agent_message.checkpoint" (
              field "text"
                (text (
                  t.redact (
                    to_text t
                      (or_else (get n.raw "text") (or_else (get n.raw "checkpoint") (text ""))))))
                (field "item_id" (json_of n.item_id) end))))
      else item_body n
