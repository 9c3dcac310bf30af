-- ===== src/Service/Overtaking.antt =====
-- codex_service.py, `_fan_out_record`: the test and the publication are apart where the view of
-- attachments is made in between, and a read of the journal may come there.
use agent_app_server.Base.{
  ◌++◌, ◌∷◌, [], ◌+◌, Result, ok, true, sym, subst, ◌<◌, ℕ, ◌≤◌, ◌≡◌, refl, ◌∙◌, ap, Option, some,
  String, pos, err, arith, max,
}
use agent_app_server.Keys.{Key}
use agent_app_server.Journal.Writing.{Stamp, is_thread_id}
use agent_app_server.Journal.Envelope.{IsRequest}
use agent_app_server.Journal.Append.{settled}
use agent_app_server.Journal.Commit.{event_to_write, IsNew}
use agent_app_server.Attachments.{PythonError}
use agent_app_server.Journal.Lifecycle.{read_file}
use agent_app_server.Service.Subscribing.{journal_cursor}
use agent_app_server.Service.Recording.{
  IsAligned, events_of, high_of, kept, journal_of-kept, record_event-new,
}
use agent_app_server.Service.HandingOver.{
  record_of-sequence, record_of-thread, hub_sequence, journal_of-hub, publish_record-viewed,
  is_fanned_out-later,
}
use agent_app_server.Json.{Json, Fields, end}
use agent_app_server.Hub.{
  EventHub, EventEnvelope, current_sequence, not_increasing, publish, advance_sequence, state,
  set_state, next_sequence,
}
use agent_app_server.Hub.Calls.{state-put}
use agent_app_server.Service.{
  Service, hub_failed, key_of, record_sequence, record_thread, record_type, record_method,
  record_turn, record_data, needs_view, journal_of, publish_data, record_event, fan_out_record,
  AttachmentView, ServiceError,
}

advanced-state :
    (hub : EventHub Fields) (key : Key) (m : ℕ)
    → state (advance_sequence hub key (pos m)).1 key
      ≡ record (state hub key) { sequence = max (state hub key).sequence m }
unfolding advance_sequence
advanced-state hub key m = ground (
  arith,
  state-put hub key key (record (state hub key) { sequence = max (state hub key).sequence m }),
)

touched-state :
    (hub : EventHub Fields) (key : Key)
    → state (set_state hub key (state hub key)) key ≡ state hub key
touched-state hub key = ground (arith, state-put hub key key (state hub key))

late_sequence :
    (current n : ℕ) → n ≤ current → next_sequence current (some (pos n)) ≡ err not_increasing
unfolding next_sequence
late_sequence current n le = ground arith

publish-late :
    (hub : EventHub Fields) (key : Key) (event_type method : String) (payload : Fields)
    (turn_id : Option String) (n : ℕ)
    → n ≤ (state hub key).sequence
    → publish hub key event_type method end (some payload) turn_id (some (pos n))
      ≡ (err not_increasing, set_state hub key (state hub key))
unfolding publish
publish-late hub key event_type method payload turn_id n le =
    rw (late_sequence (state hub key).sequence n le, publish) refl

-- A view of attachments during which a reader asks for the journal's cursor of the thread.
abbrev pub read_during : String → (Fields → Result PythonError Fields) → AttachmentView
read_during thread_id view = record { view = view; pause = λ s. (journal_cursor thread_id s).1 }

publish_data-late :
    (show : Json → String) (s : Service) (r viewed : Fields)
    → record_sequence r ≤ hub_sequence s (record_thread show r)
    → let key = key_of s (record_thread show r) in
      publish_data show r viewed s ≡ (
        err (hub_failed not_increasing),
        record s { event_hub = set_state s.event_hub key (state s.event_hub key) },
      )
unfolding publish_data
publish_data-late show s r viewed le =
    rw
      (
        publish-late s.event_hub (key_of s (record_thread show r)) (record_type show r)
            (record_method show r) viewed (record_turn show r) (record_sequence r) le,
        publish_data,
      )
      refl

-- The hand-over has raised, and added nothing to the thread or to what its subscribers are sent.
abbrev IsOvertaken :
    Service → String → Result ServiceError (Option (EventEnvelope Fields)) × Service → Type 0
IsOvertaken s thread_id (answer, s') =
    (answer ≡ err (hub_failed not_increasing))
    × (journal_of s' thread_id ≡ journal_of s thread_id)
    × ((state s'.event_hub (key_of s thread_id)).history
        ≡ (state s.event_hub (key_of s thread_id)).history)
    × (s'.event_hub.subscriptions ≡ s.event_hub.subscriptions)

read_state :
    (s : Service) (thread_id : String)
    → let m = (read_file thread_id (journal_of s thread_id).file).cursor in
      state (journal_cursor thread_id s).1.event_hub (key_of s thread_id)
      ≡ record (state s.event_hub (key_of s thread_id)) {
        sequence = max (state s.event_hub (key_of s thread_id)).sequence m;
      }
unfolding journal_cursor
read_state s thread_id =
    advanced-state s.event_hub (key_of s thread_id)
      (read_file thread_id (journal_of s thread_id).file).cursor

after_read :
    (s : Service) (thread_id : String)
    → let s' = (journal_cursor thread_id s).1 in
      (journal_of s' thread_id ≡ journal_of s thread_id)
      × (s'.event_hub.subscriptions ≡ s.event_hub.subscriptions)
      × (key_of s' thread_id ≡ key_of s thread_id)
unfolding journal_cursor advance_sequence journal_of
after_read s thread_id = (refl, refl, refl)

IsOvertaken-at :
    (show : Json → String) (s : Service) (r viewed : Fields)
    → let thread_id = record_thread show r in
      record_sequence r ≤ (read_file thread_id (journal_of s thread_id).file).cursor
      → IsOvertaken s thread_id (publish_data show r viewed (journal_cursor thread_id s).1)
IsOvertaken-at show s r viewed le =
    let thread_id = record_thread show r in
    let s' = (journal_cursor thread_id s).1 in
    let (journal, subscriptions, same_key) = after_read s thread_id in
    let reached = read_state s thread_id in
    let late : record_sequence r ≤ hub_sequence s' thread_id =
      subst (λ k. record_sequence r ≤ (state s'.event_hub k).sequence) (sym same_key)
        (omega (arith, ap (λ t. t.sequence) reached)) in
    rw (publish_data-late show s' r viewed late) (
      refl,
      journal_of-hub s' _ thread_id ∙ journal,
      ap
            (λ k.
              (state (set_state s'.event_hub k (state s'.event_hub k))
                (key_of s thread_id)).history)
            same_key
          ∙ ap (λ t. t.history) (touched-state s'.event_hub (key_of s thread_id) ∙ reached),
      subscriptions,
    )

fan_out_record-read :
    (show : Json → String) (view : Fields → Result PythonError Fields) (s : Service)
    (r viewed : Fields)
    → let thread_id = record_thread show r in
      hub_sequence s thread_id < record_sequence r
      → needs_view show r s ≡ true
      → view (record_data r) ≡ ok viewed
      → let touched = (current_sequence s.event_hub (key_of s thread_id)).1 in
        fan_out_record show (read_during thread_id view) r s
        ≡ publish_data show r viewed (journal_cursor thread_id (record s { event_hub = touched })).1
unfolding fan_out_record needs_view
fan_out_record-read show view s r viewed later needed made =
    let touched = (current_sequence s.event_hub (key_of s (record_thread show r))).1 in
    rw (is_fanned_out-later show s r later, fan_out_record)
      (publish_record-viewed show (read_during (record_thread show r) view)
        (record s { event_hub = touched }) r viewed needed made)

fan_out_record-IsOvertaken :
    (show : Json → String) (view : Fields → Result PythonError Fields) (s : Service)
    (r viewed : Fields)
    → let thread_id = record_thread show r in
      hub_sequence s thread_id < record_sequence r
      → record_sequence r ≤ (read_file thread_id (journal_of s thread_id).file).cursor
      → needs_view show r s ≡ true
      → view (record_data r) ≡ ok viewed
      → IsOvertaken s thread_id (fan_out_record show (read_during thread_id view) r s)
unfolding current_sequence
fan_out_record-IsOvertaken show view s r viewed later le needed made =
    let thread_id = record_thread show r in
    let key = key_of s thread_id in
    let s₁ : Service = record s { event_hub = (current_sequence s.event_hub key).1 } in
    let journal = journal_of-hub s (current_sequence s.event_hub key).1 thread_id in
    let (raised, kept_journal, history, subscriptions) =
      IsOvertaken-at show s₁ r viewed
        (subst (λ w. record_sequence r ≤ (read_file thread_id w.file).cursor) (sym journal) le) in
    subst (IsOvertaken s thread_id)
      (sym (fan_out_record-read show view s r viewed later needed made))
      (
        raised,
        kept_journal ∙ journal,
        history ∙ ap (λ t. t.history) (touched-state s.event_hub key),
        subscriptions,
      )

fan_out_record-IsOvertaken_at :
    (show : Json → String) (view : Fields → Result PythonError Fields) (s : Service)
    (r viewed : Fields) (thread_id : String)
    → record_thread show r ≡ thread_id
    → hub_sequence s thread_id < record_sequence r
    → record_sequence r ≤ (read_file thread_id (journal_of s thread_id).file).cursor
    → needs_view show r s ≡ true
    → view (record_data r) ≡ ok viewed
    → IsOvertaken s thread_id (fan_out_record show (read_during thread_id view) r s)
fan_out_record-IsOvertaken_at show view s r viewed thread_id same later le needed made =
    subst (λ t. IsOvertaken s t (fan_out_record show (read_during t view) r s)) same
      (fan_out_record-IsOvertaken show view s r viewed
        (subst (λ t. hub_sequence s t < record_sequence r) (sym same) later)
        (subst (λ t. record_sequence r ≤ (read_file t (journal_of s t).file).cursor) (sym same) le)
        needed made)

-- If `journal_cursor` of the thread runs while the attachments of a new event are viewed, on a thread
-- whose journal and hub agree, the call that records the event raises, though the view has succeeded: the
-- event is the last one of the journal, but the thread's history in the hub and all subscriptions are as
-- before, so no subscriber is sent it.
pub record_event-overtaken :
    (show : Json → String) (view : Fields → Result PythonError Fields) (thread_id : String)
    (stamp : Stamp) (values viewed : Fields) (s : Service)
    → IsAligned thread_id s
    → is_thread_id thread_id ≡ true
    → IsRequest stamp values
    → IsNew thread_id (journal_of s thread_id).file stamp values
    → let r = event_to_write thread_id (journal_of s thread_id).file stamp values in
      needs_view show r s ≡ true
      → view (record_data r) ≡ ok viewed
      → let (answer, s') =
          record_event show (read_during thread_id view) thread_id stamp values s in
        (answer ≡ err (hub_failed not_increasing))
        × (events_of s' thread_id ≡ events_of s thread_id ++ r ∷ [])
        × ((state s'.event_hub (key_of s thread_id)).history
            ≡ (state s.event_hub (key_of s thread_id)).history)
        × (s'.event_hub.subscriptions ≡ s.event_hub.subscriptions)
unfolding needs_view
record_event-overtaken show view thread_id stamp values viewed s i named request new needed made =
    let v = read_during thread_id view in
    let (w, recorded, reads, events, high, _, _) =
      record_event-new show v thread_id stamp values s i named request new in
    let r = event_to_write thread_id (journal_of s thread_id).file stamp values in
    let n = high_of s thread_id + 1 in
    let at_sequence = record_of-sequence thread_id n stamp values (omega arith) in
    let now = journal_of-kept s thread_id w s.event_hub in
    let cursor : (read_file thread_id (journal_of (kept s thread_id w) thread_id).file).cursor ≡ n =
      ap (λ w. (read_file thread_id w.file).cursor) now ∙ ap (λ j. j.cursor) reads in
    let (raised, kept_journal, history, subscriptions) =
      fan_out_record-IsOvertaken_at show view (kept s thread_id w) r viewed thread_id
        (record_of-thread show thread_id n stamp values) (omega (arith, at_sequence, i.behind))
        (omega (arith, at_sequence, cursor)) needed made in
    rw recorded (
      raised,
      ap (λ w. (settled thread_id w.file).events) (kept_journal ∙ now) ∙ events,
      history,
      subscriptions,
    )
