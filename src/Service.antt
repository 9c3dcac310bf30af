-- ===== src/Service.antt =====
-- codex_service.py: an event is written to the journal of its thread, and what was recorded goes to
-- the hub under the sequence that the journal gave it. Python's `str` of a value that is no text is
-- an argument, and so is the view of attachments that conversation_attachments.py makes.
pub mod Subscribing
pub mod HandingOver
pub mod Recording
pub mod Merging
pub mod Viewing
pub mod Replaying
pub mod Overtaking
pub mod Publishing
pub mod Notifying
mod Examples
mod Calls
use agent_app_server.Base.{
  ℕ, zero, suc, ◌+◌, Bool, true, false, not, ◌&&◌, Option, none, some, List, [], ◌∷◌, String,
  String-discrete, ℤ, pos, Result, ok, err, if◌then◌else◌, ltb, leb, holds, any, length,
}
use agent_app_server.Base.Dict
use agent_app_server.Base.Dict.{Dict}
use agent_app_server.Keys.{Key}
use agent_app_server.Attachments.{PythonError}
use agent_app_server.Json.{str_of, Json, Fields, null, text, object, end, get, or_else, as_int}
use agent_app_server.Hub.{EventEnvelope, EventHub, HubError, publish, current_sequence}
use agent_app_server.Journal.{as_sequence}
use agent_app_server.Journal.Lifecycle.{missing}
use agent_app_server.Journal.Writing.{
  JournalError, Writer, JournalAppend, Stamp, append, opened_values,
}

pub data ServiceError : Type 0 where
  not_found : ServiceError
  journal_failed : JournalError → ServiceError
  hub_failed : HubError → ServiceError
  python_failed : PythonError → ServiceError

pub record Service : Type 0 where
  pub tenant_id : Option String
  pub event_hub : EventHub Fields
  -- The file and the writer's memory of each thread.
  pub journals : Dict String Writer
  pub thread_projects : List String
  pub recent_fingerprints : Dict String (String × ℕ)

-- The view of attachments of an event's data, which may raise, and what other tasks have done to the
-- service by the time it is there.
pub record AttachmentView : Type 0 where
  pub view : Fields → Result PythonError Fields
  pub pause : Service → Service

-- A method returns or raises, and leaves a state in both cases.
abbrev pub M : Type 0 → Type 0
M A = Service → Result ServiceError A × Service

abbrev pub pure : {A : Type 0} → A → M A
pure a s = (ok a, s)

abbrev pub raise : {A : Type 0} → ServiceError → M A
raise e s = (err e, s)

abbrev pub continue :
    {A B : Type 0} → Result ServiceError A × Service → (A → M B) → Result ServiceError B × Service
continue (ok a, s) f = f a s
continue (err e, s) f = (err e, s)

infixl 5 ◌>>=◌ ◌>>◌
abbrev pub ◌>>=◌ : {A B : Type 0} → M A → (A → M B) → M B
◌>>=◌ m f s = continue (m s) f

abbrev pub ◌>>◌ : {B : Type 0} → M (Unit {0}) → M B → M B
m >> k = m >>= λ _. k

abbrev pub key_of : Service → String → Key
key_of s thread_id = record { owner_id = s.tenant_id; thread_id = thread_id }

-- A thread without a file yet has the empty writer.
unfoldable pub journal_of : Service → String → Writer
journal_of s thread_id = elim (Dict.get String-discrete s.journals thread_id) [
  | none ↦ record { file = missing; state = none }
  | some w ↦ w
]

-- `str(value) if value else None`
abbrev pub optional_str : (Json → String) → Json → Option String
optional_str show null = none
optional_str show v = some (str_of show v)

-- `dict(value)` of an object.
abbrev pub as_fields : Json → Fields
as_fields (object fields) = fields
as_fields _ = end

-- `int(record["seq"])`; a record of the journal has a positive integer there.
unfoldable pub record_sequence : Fields → ℕ
record_sequence r = elim (as_sequence (as_int (get r "seq"))) [ none ↦ zero | some n ↦ n ]

unfoldable pub record_thread : (Json → String) → Fields → String
record_thread show r = str_of show (get r "thread_id")

unfoldable pub record_type : (Json → String) → Fields → String
record_type show r = str_of show (or_else (get r "event_type") (text "codex.notification"))

unfoldable pub record_method : (Json → String) → Fields → String
record_method show r =
    str_of show (or_else (get r "method") (or_else (get r "type") (text "unknown")))

unfoldable pub record_turn : (Json → String) → Fields → Option String
record_turn show r = optional_str show (or_else (get r "turn_id") null)

unfoldable pub record_data : Fields → Fields
record_data r = as_fields (or_else (get r "data") (object end))

-- `_journal_envelope`
unfoldable pub journal_envelope : (Json → String) → Fields → EventEnvelope Fields
unfolding record_sequence record_thread record_type record_method record_turn record_data
journal_envelope show r = record {
  sequence = record_sequence r;
  thread_id = record_thread show r;
  turn_id = record_turn show r;
  type = record_type show r;
  method = record_method show r;
  payload = record_data r;
}

abbrev pub is_null : Json → Bool
is_null null = true
is_null _ = false

abbrev pub published_answer :
    Result HubError (EventEnvelope Fields) → Result ServiceError (Option (EventEnvelope Fields))
published_answer (ok e) = ok (some e)
published_answer (err e) = err (hub_failed e)

-- `data.get("attachments")` is there and not empty.
abbrev pub has_attachments : Fields → Bool
has_attachments fields = not (is_null (or_else (get fields "attachments") null))

-- `_attachment_event_data`, which is awaited.
unfoldable pub attachment_event_data : AttachmentView → Fields → M Fields
attachment_event_data v fields s = elim (v.view fields) [
  | err e ↦ (err (python_failed e), v.pause s)
  | ok viewed ↦ (ok viewed, v.pause s)
]

-- Whether the view of attachments is made for a record: the project of its thread is known.
unfoldable pub needs_view : (Json → String) → Fields → Service → Bool
unfolding record_thread record_data
needs_view show r s =
    any (λ t. holds (String-discrete t (record_thread show r))) s.thread_projects
    && has_attachments (record_data r)

-- The data of a record, with the view of its attachments where it is made.
unfoldable pub data_view : (Json → String) → AttachmentView → Fields → M Fields
unfolding needs_view attachment_event_data
data_view show v r s =
    let viewed = attachment_event_data v (record_data r) s in
    if needs_view show r s then viewed else (ok (record_data r), s)

-- `event_hub.publish` of a record with these data
unfoldable pub publish_data : (Json → String) → Fields → Fields → M (Option (EventEnvelope Fields))
unfolding record_sequence record_thread record_type record_method record_turn
publish_data show r fields s =
    let (published, hub) =
      publish s.event_hub (key_of s (record_thread show r)) (record_type show r)
        (record_method show r) end (some fields) (record_turn show r)
        (some (pos (record_sequence r))) in
    (published_answer published, record s { event_hub = hub })

-- `_fan_out_record` after its test: the data are made while others may run, then they are published.
unfoldable pub publish_record :
    (Json → String) → AttachmentView → Fields → M (Option (EventEnvelope Fields))
unfolding data_view publish_data
publish_record show v r = do fields ← data_view show v r; publish_data show r fields

unfoldable pub is_fanned_out : (Json → String) → Fields → Service → Bool
unfolding record_sequence record_thread
is_fanned_out show r s =
    leb (record_sequence r) (current_sequence s.event_hub (key_of s (record_thread show r))).0

-- `_fan_out_record`
unfoldable pub fan_out_record :
    (Json → String) → AttachmentView → Fields → M (Option (EventEnvelope Fields))
unfolding publish_record is_fanned_out
fan_out_record show v r s =
    let hub = (current_sequence s.event_hub (key_of s (record_thread show r))).1 in
    if is_fanned_out show r s
    then (ok none, record s { event_hub = hub })
    else publish_record show v r (record s { event_hub = hub })

-- `stream_journal.append`
unfoldable pub append_values : String → Stamp → Fields → M JournalAppend
unfolding append
append_values thread_id stamp values s =
    elim (append thread_id stamp values (journal_of s thread_id)) [
      | err e ↦ (err (journal_failed e), s)
      | ok (w, answer) ↦
          (ok answer, record s { journals = Dict.put String-discrete s.journals thread_id w })
    ]

-- An append, and the hand-over of what it recorded.
unfoldable pub record_event :
    (Json → String) → AttachmentView → String → Stamp → Fields → M (Option (EventEnvelope Fields))
unfolding append_values fan_out_record
record_event show v thread_id stamp values = do
  appended ← append_values thread_id stamp values
  if appended.duplicate then pure none else fan_out_record show v appended.recorded

-- What `normalize_event` makes of a notification: the values to record, and a fingerprint for the
-- messages that two channels may both report.
pub record Normalized : Type 0 where
  pub values : Fields
  pub notification_fingerprint : Option String

-- The other channel reported the same in the last five seconds; times are in milliseconds.
abbrev pub is_echo : String → ℕ → Option (String × ℕ) → Bool
is_echo channel now none = false
is_echo channel now (some (before, at)) =
    not (holds (String-discrete before channel)) && leb now (at + 5000)

abbrev pub keep_recent : ℕ → Dict String (String × ℕ) → Dict String (String × ℕ)
keep_recent now [] = []
keep_recent now ((f, (channel, at)) ∷ rest) =
    let later = keep_recent now rest in
    if leb now (at + 10000) then (f, (channel, at)) ∷ later else later

unfoldable pub remember_fingerprint :
    String → String → ℕ → Dict String (String × ℕ) → Dict String (String × ℕ)
remember_fingerprint fingerprint channel now recent =
    let more = Dict.put String-discrete recent fingerprint (channel, now) in
    if ltb 2000 (length more) then keep_recent now more else more

-- Whether a notification is an echo; if not, its fingerprint is kept.
unfoldable pub check_fingerprint : Option String → String → ℕ → M Bool
unfolding remember_fingerprint
check_fingerprint none channel now s = (ok false, s)
check_fingerprint (some fingerprint) channel now s =
    if is_echo channel now (Dict.get String-discrete s.recent_fingerprints fingerprint)
    then (ok true, s)
    else (
      ok false,
      record s {
        recent_fingerprints = remember_fingerprint fingerprint channel now s.recent_fingerprints;
      },
    )

-- The thread's project is known, or Codex finds the thread.
unfoldable pub find_project : Bool → String → M (Unit {0})
find_project is_found thread_id s =
    if any (λ t. holds (String-discrete t thread_id)) s.thread_projects
    then (ok tt, s)
    else if is_found
    then (ok tt, record s { thread_projects = thread_id ∷ s.thread_projects })
    else (err not_found, s)

-- What one call of `_publish` takes from its surroundings: the answer of Codex about the thread, the
-- key of the opening event, the random identifiers and times of two appends, and the clock.
pub record Surroundings : Type 0 where
  pub is_found : Bool
  pub opened_key : String
  pub opened_stamp : Stamp
  pub stamp : Stamp
  pub now : ℕ

abbrev pub publish_normalized :
    (Json → String)
    → AttachmentView
    → String
    → String
    → Surroundings
    → Option Normalized
    → M (Option (EventEnvelope Fields))
publish_normalized show v thread_id channel env none = pure none
publish_normalized show v thread_id channel env (some n) = do
  echo ← check_fingerprint n.notification_fingerprint channel env.now
  if echo then pure none else record_event show v thread_id env.stamp n.values

-- The end of `_publish`, on what `normalize_event` has returned or raised.
abbrev pub publish_made :
    (Json → String)
    → AttachmentView
    → String
    → String
    → Surroundings
    → Result PythonError (Option Normalized)
    → M (Option (EventEnvelope Fields))
publish_made show v thread_id channel env (err e) = raise (python_failed e)
publish_made show v thread_id channel env (ok n) = publish_normalized show v thread_id channel env n

-- `_publish`
unfoldable pub publish_event :
    (Json → String)
    → AttachmentView
    → String
    → String
    → Surroundings
    → Result PythonError (Option Normalized)
    → M (Option (EventEnvelope Fields))
unfolding find_project record_event check_fingerprint
publish_event show v thread_id channel env made = do
  _ ← find_project env.is_found thread_id
  _ ← record_event show v thread_id env.opened_stamp (opened_values env.opened_key)
  publish_made show v thread_id channel env made
