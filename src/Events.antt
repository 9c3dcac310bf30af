-- ===== src/Events.antt =====
-- stream_journal.py: the parts of an event that are kept. The texts of secrets and the hash of a value
-- are not computed here: `Texts` has these operations.
pub mod ToolItems
pub mod Normalizing
pub mod Identity
pub mod Truncation
pub mod Safety
pub mod Validity
pub mod Requests
pub mod History
mod Examples
use Prim.Native.String.{len, slice}
use agent_app_server.Base.{
  ℕ, zero, suc, ◌+◌, ◌-◌, ◌*◌, ◌/◌, Bool, true, false, Option, none, some, List, [], ◌∷◌, String,
  if◌then◌else◌, ltb, leb, is_some,
}
use agent_app_server.Json.{
  Json, Items, Fields, null, boolean, number, float, text, array, object, nil, cons, field, end,
  get, is_empty, find_field, or_else, str_of,
}
use agent_app_server.Texts.{◌<>◌}

pub record TextOperations : Type 0 where
  -- `str` of a value that is no text, and `str.lower`.
  pub show : Json → String
  pub lower : String → String
  -- `_redact_text`, and the search for `_SENSITIVE_KEY`.
  pub redact : String → String
  pub is_sensitive : String → Bool
  -- `json.dumps` with its separators, and `_fingerprint`.
  pub dump : Json → String
  pub fingerprint : Json → String

-- `value["root"]` where both are dictionaries, or the value.
abbrev pub unrooted : Json → Json
unrooted (object fields) = elim (get fields "root") [
  | object root ↦ object root
  | _ ↦ object fields
]
unrooted v = v

-- `str(v or "") or None`
abbrev pub non_empty : String → Option String
non_empty s = if is_empty s then none else some s

abbrev pub json_of : Option String → Json
json_of none = null
json_of (some s) = text s

-- `_value`
abbrev pub value_of : Fields → String → String → Json
value_of values snake camel = elim (find_field values snake) [
  | some v ↦ v
  | none ↦ get values camel
]

abbrev pub output_limit : ℕ
output_limit = 65536

abbrev pub marker : String
marker = "\n… <output truncated> …\n"

-- `encoded[-n:]`; for n = 0 that is everything.
abbrev pub last_bytes : ℕ → String → String
last_bytes zero s = s
last_bytes (suc n) s = slice s (len s - suc n) (len s)

module _ (t : TextOperations) where
  abbrev pub to_text : Json → String
  to_text v = str_of t.show v

  unfoldable mutual
    -- `_safe_value`, at a depth.
    pub safe_value : ℕ → Json → Json
    safe_value depth null = if ltb 8 depth then text "<depth-limit>" else null
    safe_value depth (boolean b) = if ltb 8 depth then text "<depth-limit>" else boolean b
    safe_value depth (number n) = if ltb 8 depth then text "<depth-limit>" else number n
    safe_value depth (float n) = if ltb 8 depth then text "<depth-limit>" else float n
    safe_value depth (text s) = if ltb 8 depth then text "<depth-limit>" else text (t.redact s)
    safe_value depth (array items) =
        let safe = safe_items (depth + 1) items in
        if ltb 8 depth then text "<depth-limit>" else array safe
    safe_value depth (object fields) =
        let safe = safe_entries (depth + 1) fields in
        if ltb 8 depth then text "<depth-limit>" else object safe

    pub safe_items : ℕ → Items → Items
    safe_items depth nil = nil
    safe_items depth (cons v items) = cons (safe_value depth v) (safe_items depth items)

    pub safe_entries : ℕ → Fields → Fields
    safe_entries depth end = end
    safe_entries depth (field key v fields) =
        let safe = safe_value depth v in
        field key (if t.is_sensitive key then text "<redacted>" else safe)
          (safe_entries depth fields)

  -- `_safe_fields`
  unfoldable pub safe_fields : Fields → List String → Fields
  unfolding safe_value find_field
  safe_fields values [] = end
  safe_fields values (key ∷ keys) = elim (find_field values key) [
    | none ↦ safe_fields values keys
    | some v ↦ field key (safe_value 0 v) (safe_fields values keys)
  ]

  -- The first of a target's names that the dictionary has, under the target.
  abbrev pub aliased : Fields → String → List String → Fields → Fields
  aliased values target [] rest = rest
  aliased values target (name ∷ names) rest = elim (find_field values name) [
    | some v ↦ field target (safe_value 0 v) rest
    | none ↦ aliased values target names rest
  ]

  -- `_turn_metadata`
  unfoldable pub turn_metadata : Fields → Fields
  unfolding safe_value find_field
  turn_metadata values = aliased values "model" ("model" ∷ []) (
      aliased values "reasoning_effort" ("reasoning_effort" ∷ "reasoningEffort" ∷ []) (
        aliased values "started_at" ("started_at" ∷ "startedAt" ∷ []) (
          aliased values "completed_at" ("completed_at" ∷ "completedAt" ∷ [])
            (aliased values "duration_ms" ("duration_ms" ∷ "durationMs" ∷ []) end))))

  abbrev pub goal_fields : List String
  goal_fields =
      "thread_id" ∷ "threadId" ∷ "objective" ∷ "status" ∷ "token_budget" ∷ "tokenBudget"
      ∷ "tokens_used" ∷ "tokensUsed" ∷ "time_used_seconds" ∷ "timeUsedSeconds" ∷ "created_at"
      ∷ "createdAt" ∷ "updated_at" ∷ "updatedAt" ∷ []

  -- `_safe_goal`
  unfoldable pub safe_goal : Json → Option Fields
  unfolding safe_fields
  safe_goal value = elim (unrooted value) [
    | object goal ↦ some (safe_fields goal goal_fields)
    | _ ↦ none
  ]

-- A text, the bytes of the one it was made from, and whether any were left out.
pub record Output : Type 0 where
  pub output : String
  pub byte_count : ℕ
  pub is_truncated : Bool

-- The head and the tail of a text that is too long, around the marker.
abbrev pub shortened : ℕ → String → String
shortened limit s =
    let payload = limit - len marker in
    let head = (payload * 3) / 4 in slice s 0 head <> (marker <> last_bytes (payload - head) s)

module _ (t : TextOperations) where
  -- `_truncate_output` of a text.
  unfoldable pub truncate_output : ℕ → String → Output
  truncate_output limit raw =
      let redacted = t.redact raw in
      if leb (len redacted) limit
      then record { output = redacted; byte_count = len raw; is_truncated = ltb limit (len raw) }
      else record { output = shortened limit redacted; byte_count = len raw; is_truncated = true }
