-- ===== src/Service/Subscribing.antt =====
-- codex_service.py: `subscribe_events` and `journal_cursor`, the reads that put the hub level with the
-- journal.
use agent_app_server.Base.{
  ℕ, ◌+◌, Bool, false, not, ◌&&◌, ◌||◌, Option, none, some, List, [], ◌∷◌, String, ℤ, pos, negsuc,
  ltb_ℤ, if◌then◌else◌, ltb, ◌==◌, select, map,
}
use agent_app_server.Json.{Json, Fields}
use agent_app_server.Hub.{EventEnvelope, Subscription, subscribe, advance_sequence, state}
use agent_app_server.Journal.{JournalRead}
use agent_app_server.Journal.Lifecycle.{read_file}
use agent_app_server.Base.Dict
use agent_app_server.Base.Dict.{Dict}
use agent_app_server.Base.{ℕ_discrete}
use agent_app_server.Base.{Result, ok, err}
use agent_app_server.Service.{
  M, pure, continue, ServiceError, AttachmentView, has_attachments, attachment_event_data, Service,
  key_of, journal_of, journal_envelope, record_sequence,
}

-- Insertion into a list that rises by sequence; the later entry of a sequence replaces the earlier.
unfoldable pub merge_event :
    EventEnvelope Fields → List (EventEnvelope Fields) → List (EventEnvelope Fields)
merge_event e [] = e ∷ []
merge_event e (x ∷ xs) =
    let later = merge_event e xs in
    if ltb e.sequence x.sequence
    then e ∷ x ∷ xs
    else if e.sequence == x.sequence
    then e ∷ xs
    else x ∷ later

-- `{event.sequence: event for event in events}` by rising key.
unfoldable pub merge_events :
    List (EventEnvelope Fields) → List (EventEnvelope Fields) → List (EventEnvelope Fields)
unfolding merge_event
merge_events [] merged = merged
merge_events (e ∷ es) merged = merge_events es (merge_event e merged)

abbrev pub is_later : ℤ → Fields → Bool
is_later after r = ltb_ℤ after (pos (record_sequence r))

unfoldable pub durable_replay :
    (Json → String) → Option ℤ → List Fields → List (EventEnvelope Fields)
durable_replay show none events = []
durable_replay show (some after) events =
    map (journal_envelope show) (select (is_later after) events)

abbrev pub starts_late : ℤ → List (EventEnvelope Fields) → Bool
starts_late after [] = false
starts_late (negsuc n) (e ∷ es) = not (e.sequence + n == 0)
starts_late (pos n) (e ∷ es) = not (e.sequence == n + 1)

-- Whether the reader is told to load the thread anew.
unfoldable pub must_resync : Option ℤ → ℕ → JournalRead → Bool → List (EventEnvelope Fields) → Bool
must_resync none boundary journal hub_resync replay = false
must_resync (some after) boundary journal hub_resync replay =
    ltb_ℤ (pos boundary) after
    || journal.damaged
    || (hub_resync && not journal.exists)
    || starts_late after replay

pub record Subscribed : Type 0 where
  pub subscription : ℕ
  pub replay : List (EventEnvelope Fields)
  pub boundary : ℕ
  pub resync_required : Bool

abbrev pub initial_of : Option (Subscription Fields) → List (EventEnvelope Fields)
initial_of none = []
initial_of (some s) = s.initial_events

abbrev pub resync_of : Option (Subscription Fields) → Bool
resync_of none = false
resync_of (some s) = s.resync_required

-- The events of a replay, with the views of their attachments, made one after the other.
unfoldable pub view_replay :
    AttachmentView → List (EventEnvelope Fields) → M (List (EventEnvelope Fields))
unfolding attachment_event_data
view_replay v [] s = (ok [], s)
view_replay v (e ∷ es) s =
    let viewed =
      if has_attachments e.payload
      then attachment_event_data v e.payload s
      else (ok e.payload, s) in
    continue viewed λ fields s₁.
      continue (view_replay v es s₁) λ later. pure (record e { payload = fields } ∷ later)

-- What `subscribe_events` makes of what it has read: the journal, the hub's sequence, whether the hub
-- asks for a new start, and the viewed replay.
unfoldable pub subscribed_view :
    Option ℤ → ℕ → JournalRead → ℕ → Bool → List (EventEnvelope Fields) → Subscribed
unfolding must_resync
subscribed_view after i journal level hub_resync replay =
    let boundary = if journal.exists then journal.cursor else level in
    record {
      subscription = i;
      replay = replay;
      boundary = boundary;
      resync_required = must_resync after boundary journal hub_resync replay;
    }

-- The events of the hub and of the journal by rising sequence, the journal's before the hub's.
unfoldable pub merged_replay :
    (Json → String)
    → Option ℤ
    → JournalRead
    → Option (Subscription Fields)
    → List (EventEnvelope Fields)
unfolding merge_events durable_replay
merged_replay show after journal subscription =
    merge_events (durable_replay show after journal.events)
      (merge_events (initial_of subscription) [])

-- The end of `subscribe_events`, on the service as it is after the views.
abbrev pub subscribed_at :
    String
    → Option ℤ
    → ℕ
    → JournalRead
    → Result ServiceError (List (EventEnvelope Fields)) × Service
    → Result ServiceError Subscribed × Service
subscribed_at thread_id after i journal (err e, s) = (err e, s)
subscribed_at thread_id after i journal (ok replay, s) =
    let hub_resync = resync_of (Dict.get ℕ_discrete s.event_hub.subscriptions i) in
    let level = (state s.event_hub (key_of s thread_id)).sequence in
    (ok (subscribed_view after i journal level hub_resync replay), s)

-- `subscribe_events` of a thread whose project is known.
unfoldable pub subscribe_events :
    (Json → String) → AttachmentView → String → Option ℤ → M Subscribed
unfolding view_replay subscribed_view merged_replay
subscribe_events show v thread_id after s =
    let key = key_of s thread_id in
    let (i, hub) = subscribe s.event_hub key after in
    let journal = read_file thread_id (journal_of s thread_id).file in
    let level = (advance_sequence hub key (pos journal.cursor)).1 in
    let replay = merged_replay show after journal (Dict.get ℕ_discrete level.subscriptions i) in
    subscribed_at thread_id after i journal (view_replay v replay (record s { event_hub = level }))

-- `journal_cursor`
unfoldable pub journal_cursor : String → Service → ℕ × Service
journal_cursor thread_id s =
    let journal = read_file thread_id (journal_of s thread_id).file in
    (
      journal.cursor,
      record s {
        event_hub = (advance_sequence s.event_hub (key_of s thread_id) (pos journal.cursor)).1;
      },
    )
