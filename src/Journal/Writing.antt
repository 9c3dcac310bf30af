-- ===== src/Journal/Writing.antt =====
-- stream_journal.py: the writer of one thread's file. A line that is written reads back as the
-- object it was made from. The clock and the random identifiers are arguments.
use Prim.Native.Char.{code}
use Prim.Native.String.{count}
use Prim.Native.String.{[] as empty, ◌∷◌ as ◌▹◌}
use agent_app_server.Base.{
  ℕ, ◌+◌, Bool, true, false, Option, none, some, List, [], ◌∷◌, ◌++◌, String, String-discrete, pos,
  Result, ok, err, ◌>>=◌, if◌then◌else◌, ◌&&◌, ◌||◌, leb, ◌==◌,
}
use agent_app_server.Base.Dict
use agent_app_server.Base.Dict.{Dict}
use agent_app_server.Json.{
  Json, Fields, field, end, number, text, array, object, get, get_or, or_else, is_nonempty_text,
  is_text_or_none, is_object, is_empty,
}
use agent_app_server.Journal.{decoded, Content, is_text_of, dedup_key_of}
use agent_app_server.Journal.Lifecycle.{Stored, missing, unreadable, stored, read_file}

pub data JournalError : Type 0 where
  value_error : String → JournalError
  type_error : String → JournalError
  os_error : JournalError
  invalid_thread_id : JournalError

-- Whether a value can be looked up in a set.
abbrev pub is_hashable : Json → Bool
is_hashable (array items) = false
is_hashable (object fields) = false
is_hashable _ = true

abbrev check : Bool → JournalError → Result JournalError (Unit {0})
check true e = ok tt
check false e = err e

-- A character of `THREAD_ID_PATTERN`.
abbrev pub is_thread_char : ℕ → Bool
is_thread_char c =
    leb 65 c && leb c 90 || leb 97 c && leb c 122 || leb 48 c && leb c 57 || c == 95 || c == 45

unfoldable pub are_thread_chars : String → Bool
are_thread_chars empty = true
are_thread_chars (c ▹ s) = is_thread_char (code c) && are_thread_chars s

-- `THREAD_ID_PATTERN.fullmatch`
unfoldable pub is_thread_id : String → Bool
unfolding are_thread_chars
is_thread_id s = leb 1 (count s) && leb (count s) 128 && are_thread_chars s

unfoldable pub validate_thread_id : String → Result JournalError (Unit {0})
unfolding is_thread_id
validate_thread_id thread_id = check (is_thread_id thread_id) invalid_thread_id

unfoldable pub validate_values : Fields → Result JournalError (Unit {0})
validate_values values = do
  _ ← check (is_nonempty_text (get values "type")) (value_error "type")
  _ ← check (is_nonempty_text (get values "dedup_key")) (value_error "dedup_key")
  let source = get_or values "source" (text "codex_stream")
  _ ← check (is_hashable source) (type_error "source")
  _ ← check (is_text_of ("codex_stream" ∷ "codex_history" ∷ []) source) (value_error "source")
  _ ← check (is_object (get_or values "data" (object end))) (type_error "data")
  _ ← check (is_text_or_none (get values "turn_id")) (type_error "turn_id")
  check (is_text_or_none (get values "item_id")) (type_error "item_id")

pub record WriterState : Type 0 where
  pub next_sequence : ℕ
  pub dedup_events : Dict String Fields

-- A thread's file and what the writer remembers of it.
pub record Writer : Type 0 where
  pub file : Stored
  pub state : Option WriterState

pub record JournalAppend : Type 0 where
  pub recorded : Fields
  pub duplicate : Bool

-- The random identifier and the time that one append may use.
pub record Stamp : Type 0 where
  pub fresh_id : String
  pub now : String

-- The incomplete tail is removed before an append.
abbrev pub drop_tail : Content → Content
drop_tail content = record content { tail = none }

unfoldable pub prepare : Stored → Result JournalError Stored
prepare missing = ok missing
prepare unreadable = err os_error
prepare (stored content) = ok (stored (drop_tail content))

unfoldable pub index_events : List Fields → Dict String Fields → Dict String Fields
index_events [] index = index
index_events (event ∷ events) index = index_events events (
    if is_empty (dedup_key_of event)
    then index
    else Dict.put String-discrete index (dedup_key_of event) event)

unfoldable pub writer_state : String → Option WriterState → Stored → WriterState
unfolding read_file index_events
writer_state thread_id (some state) file = state
writer_state thread_id none file =
    let current = read_file thread_id file in
    record { next_sequence = current.cursor + 1; dedup_events = index_events current.events [] }

unfoldable pub record_of : String → ℕ → Stamp → Fields → Fields
unfolding get get_or or_else
record_of thread_id n stamp values = field "v" (number (pos 1)) (
    field "seq" (number (pos n)) (
      field "event_id" (or_else (get values "event_id") (text stamp.fresh_id)) (
        field "dedup_key" (text (dedup_key_of values)) (
          field "type" (get values "type") (
            field "event_type" (get_or values "event_type" (text "codex.notification")) (
              field "method" (get_or values "method" (get values "type")) (
                field "source" (get_or values "source" (text "codex_stream")) (
                  field "thread_id" (text thread_id) (
                    field "turn_id" (get values "turn_id") (
                      field "item_id" (get values "item_id") (
                        field "at" (or_else (get values "at") (text stamp.now))
                          (field "data" (or_else (get values "data") (object end)) end))))))))))))

abbrev pub write_line : Stored → Fields → Stored
write_line (stored content) event =
    stored (record content { lines = content.lines ++ decoded (object event) ∷ [] })
write_line _ event = stored (record { lines = decoded (object event) ∷ []; tail = none })

unfoldable pub append_record :
    String → Stamp → Fields → Stored → WriterState → Writer × JournalAppend
unfolding record_of
append_record thread_id stamp values file state =
    elim (Dict.get String-discrete state.dedup_events (dedup_key_of values)) [
      | some event ↦ (
        record { file = file; state = some state },
        record { recorded = event; duplicate = true },
      )
      | none ↦
          let event = record_of thread_id state.next_sequence stamp values in
          (
            record {
              file = write_line file event;
              state = some (record {
                next_sequence = state.next_sequence + 1;
                dedup_events =
                    Dict.put String-discrete state.dedup_events (dedup_key_of values) event;
              });
            },
            record { recorded = event; duplicate = false },
          )
    ]

-- `_append_now` of a thread id that `_prepare_path` has accepted.
unfoldable pub append_checked :
    String → Stamp → Fields → Writer → Result JournalError (Writer × JournalAppend)
unfolding prepare writer_state append_record
append_checked thread_id stamp values w = do
  file ← prepare w.file
  ok (append_record thread_id stamp values file (writer_state thread_id w.state file))

-- `_append_now`
unfoldable pub append_now :
    String → Stamp → Fields → Writer → Result JournalError (Writer × JournalAppend)
unfolding validate_thread_id append_checked
append_now thread_id stamp values w = do
  _ ← validate_thread_id thread_id
  append_checked thread_id stamp values w

-- `append` of one request to an idle writer.
unfoldable pub append :
    String → Stamp → Fields → Writer → Result JournalError (Writer × JournalAppend)
unfolding validate_thread_id validate_values append_now
append thread_id stamp values w = do
  _ ← validate_thread_id thread_id
  _ ← validate_values values
  append_now thread_id stamp values w

-- `ensure_opened`
abbrev pub opened_values : String → Fields
opened_values opened_key = field "type" (text "journal.opened") (
    field "event_type" (text "journal.opened") (
      field "method" (text "journal.opened") (
        field "source" (text "codex_stream")
          (field "dedup_key" (text opened_key) (field "data" (object end) end)))))

unfoldable pub ensure_opened :
    String → String → Stamp → Writer → Result JournalError (Writer × JournalAppend)
unfolding append
ensure_opened thread_id opened_key stamp w = append thread_id stamp (opened_values opened_key) w
