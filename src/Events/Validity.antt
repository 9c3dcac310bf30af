-- ===== src/Events/Validity.antt =====
-- stream_journal.py: what `normalize_event` makes is what `_validate_values` of the journal accepts.
use Prim.Native.String.{len}
use Prim.Native.String.{[] as empty, ◌∷◌ as ◌▹◌}
use package.text.Mathlib.TextPositions.{len-append, len_utf8-pos}
use agent_app_server.Events.Truncation.{len-cons}
use agent_app_server.Base.{
  ◌<◌, ◌≡◌, ap, refl, arith, Bool, true, false, Option, none, some, List, [], ◌∷◌, String, Result,
  ok, err, ◌>>=◌, ◌&&◌, if◌then◌else◌, holds,
}
use agent_app_server.Json.{text, end}
use agent_app_server.Attachments.{PythonError, message_attachment_fields}
use agent_app_server.Events.ToolItems.{message_text}
use agent_app_server.Texts.{includes, ◌<>◌, join, has_prefix, is_one_of}
use agent_app_server.Events.{TextOperations}
use agent_app_server.Events.Normalizing.{
  Body, Notice, terminal_kind, completed_kind, console_kind, is, text_or, is_message, is_item,
  status_of, turn_completed, message_completed, item_completed, item_started, plan_updated,
  diff_updated, console_turn, console_goal, thread_body, item_body, body_of,
}

pub not_empty : (s : String) (d : Dec (s ≡ "")) → 0 < len s → holds d ≡ false
not_empty s (yes e) h =
    let zero_long : len s ≡ 0 = ap len e in let bad : ⊥ = omega (arith, zero_long) in absurd bad
not_empty s (no n) h = refl

-- A text that is not empty, and a body of such a type, if there is one.
abbrev pub IsNamed : String → Type 0
IsNamed s = 0 < len s

pub join-IsNamed : (a b : String) (rest : List String) → IsNamed (join ":" (a ∷ b ∷ rest))
unfolding join
join-IsNamed a b rest =
    let tail = join ":" (b ∷ rest) in omega (arith, len-append a (":" <> tail), len-append ":" tail)

prefix-IsNamed :
    (s prefix : String) → has_prefix "" prefix ≡ false → has_prefix s prefix ≡ true → IsNamed s
prefix-IsNamed empty prefix none_there there = let bad : ⊥ = ground arith in absurd bad
prefix-IsNamed (c ▹ s) prefix none_there there =
    let (k, long) = len_utf8-pos c in omega (arith, len-cons c s, long)

abbrev pub IsNamedBody : Option Body → Type 0
IsNamedBody none = Unit
IsNamedBody (some b) = IsNamed b.kind

-- Of a result that has a body, if it has one.
abbrev pub IsNamedResult : Result PythonError (Option Body) → Type 0
IsNamedResult (err e) = Unit
IsNamedResult (ok made) = IsNamedBody made

pub if_lem {ℓ κ} :
    {A : Type ℓ} (P : A → Type κ) (b : Bool) {x y : A}
    → (b ≡ true → P x)
    → (b ≡ false → P y)
    → P (if b then x else y)
if_lem P true px py = px refl
if_lem P false px py = py refl

pub if-IsNamed : (b : Bool) (x y : String) → IsNamed x → IsNamed y → IsNamed (if b then x else y)
if-IsNamed b x y named_x named_y = if_lem IsNamed b (λ _. named_x) (λ _. named_y)

terminal_kind-IsNamed : (status : String) → IsNamed (terminal_kind status)
terminal_kind-IsNamed status =
    if-IsNamed (is_one_of ("interrupted" ∷ "cancelled" ∷ "canceled" ∷ []) status) "turn.interrupted"
      _ (omega arith)
      (if-IsNamed (is_one_of ("error" ∷ "failed" ∷ []) status) "turn.error" "turn.completed"
        (omega arith) (omega arith))

pub completed_kind-IsNamed : (sdk_type : String) → IsNamed (completed_kind sdk_type)
completed_kind-IsNamed s =
    if-IsNamed (is "userMessage" s) "user_message.completed" _ (omega arith) (
      if-IsNamed (is "agentMessage" s) "agent_message.completed" _ (omega arith) (
        if-IsNamed (is "commandExecution" s) "command.completed" _ (omega arith) (
          if-IsNamed (is "fileChange" s) "file_change.completed" _ (omega arith) (
            if-IsNamed (is "webSearch" s) "web_search.completed" _ (omega arith) (
              if-IsNamed (is_one_of ("mcpToolCall" ∷ "mcpTool" ∷ []) s) "mcp_tool.completed"
                "tool.completed" (omega arith) (omega arith))))))

console_kind-IsNamed :
    (running failed e : String) → IsNamed e → IsNamed (console_kind running failed e)
console_kind-IsNamed running failed e named =
    if-IsNamed (is running e) "turn.started" _ (omega arith)
      (if-IsNamed (is failed e) "turn.error" e (omega arith) named)

item_started-IsNamed : (t : TextOperations) (n : Notice) → IsNamedBody (item_started t n)
unfolding item_started
item_started-IsNamed t n =
    let sdk_type = text_or t n.item "type" "tool" in
    if_lem IsNamedBody (is_message sdk_type) (λ _. tt)
      (λ _.
        if-IsNamed (is "commandExecution" sdk_type) "command.started" "tool.started" (omega arith)
          (omega arith))

thread_body-IsNamed : (t : TextOperations) (n : Notice) → IsNamedBody (thread_body t n)
unfolding thread_body console_turn console_goal
thread_body-IsNamed t n =
    if_lem IsNamedBody (includes (t.lower n.method) "usage") (λ _. omega arith)
      (λ _.
        if_lem IsNamedBody (is "thread/status/changed" n.method) (λ _. omega arith)
          (λ _.
            if_lem IsNamedBody (is "thread/goal/updated" n.method) (λ _. omega arith)
              (λ _.
                if_lem IsNamedBody (is "thread/goal/cleared" n.method) (λ _. omega arith)
                  (λ _.
                    if_lem IsNamedBody (has_prefix n.event_type "console.turn.")
                      (λ e.
                        console_kind-IsNamed "console.turn.running" "console.turn.error"
                          n.event_type (prefix-IsNamed n.event_type "console.turn." refl e))
                      (λ _.
                        if_lem IsNamedBody (has_prefix n.event_type "console.goal.")
                          (λ e.
                            console_kind-IsNamed "console.goal.running" "console.goal.error"
                              n.event_type (prefix-IsNamed n.event_type "console.goal." refl e))
                          (λ _. tt))))))

-- A property that every exception has passes through a chain of results.
bind_lem :
    {A B : Type 0} (P : Result PythonError B → Type 0) (m : Result PythonError A)
    {f : A → Result PythonError B}
    → ((e : PythonError) → P (err e))
    → ((a : A) → P (f a))
    → P (m >>= f)
bind_lem P (ok a) raised passed = passed a
bind_lem P (err e) raised passed = raised e

abbrev IsNamedMade : Result PythonError Body → Type 0
IsNamedMade (err e) = Unit
IsNamedMade (ok b) = IsNamed b.kind

message_completed-IsNamed :
    (t : TextOperations) (n : Notice) (sdk_type : String)
    → IsNamedMade (message_completed t n sdk_type)
unfolding message_completed
message_completed-IsNamed t n sdk_type =
    bind_lem IsNamedMade (message_text n.item) (λ e. tt)
      (λ s.
        bind_lem IsNamedMade
          (if is "userMessage" sdk_type then message_attachment_fields t.show n.item else ok end)
          (λ e. tt) (λ attachments. completed_kind-IsNamed sdk_type))

item_completed-IsNamed : (t : TextOperations) (n : Notice) → IsNamedMade (item_completed t n)
unfolding item_completed
item_completed-IsNamed t n =
    let sdk_type = text_or t n.item "type" "tool" in
    if_lem IsNamedMade (is_message sdk_type) (λ _. message_completed-IsNamed t n sdk_type)
      (λ _. completed_kind-IsNamed sdk_type)

made-IsNamed :
    (m : Result PythonError Body) → IsNamedMade m → IsNamedResult (m >>= λ b. ok (some b))
made-IsNamed (ok b) h = h
made-IsNamed (err e) h = tt

item_body-IsNamed : (t : TextOperations) (n : Notice) → IsNamedResult (item_body t n)
unfolding item_body plan_updated diff_updated
item_body-IsNamed t n =
    if_lem IsNamedResult (is "item/completed" n.method && is_item n.item)
      (λ _. made-IsNamed (item_completed t n) (item_completed-IsNamed t n))
      (λ _.
        if_lem IsNamedResult (is "item/started" n.method && is_item n.item)
          (λ _. item_started-IsNamed t n)
          (λ _.
            if_lem IsNamedResult (is "turn/plan/updated" n.method) (λ _. omega arith)
              (λ _.
                if_lem IsNamedResult (is "turn/diff/updated" n.method) (λ _. omega arith)
                  (λ _. thread_body-IsNamed t n))))

pub body_of-IsNamed : (t : TextOperations) (n : Notice) → IsNamedResult (body_of t n)
unfolding body_of turn_completed
body_of-IsNamed t n =
    if_lem IsNamedResult (is "turn/started" n.method) (λ _. omega arith)
      (λ _.
        if_lem IsNamedResult (is "turn/completed" n.method)
          (λ _. terminal_kind-IsNamed (status_of t n))
          (λ _.
            if_lem IsNamedResult (is "turn/error" n.method) (λ _. omega arith)
              (λ _.
                if_lem IsNamedResult (is "turn/interrupted" n.method) (λ _. omega arith)
                  (λ _.
                    if_lem IsNamedResult (is "item/agentMessage/delta" n.method) (λ _. omega arith)
                      (λ _.
                        if_lem IsNamedResult (is "item/agentMessage/checkpoint" n.method)
                          (λ _. omega arith) (λ _. item_body-IsNamed t n))))))
