-- ===== src/Service/Recording.antt =====
-- codex_service.py: an append and the hand-over of its record keep the hub in step with the journal.
use agent_app_server.Attachments.{PythonError}
use agent_app_server.Journal.Lifecycle.{read_file}
use agent_app_server.Base.{
  Bool-cases, Result, err, true, ◌⊎◌, ℕ, ◌+◌, ◌≤◌, ◌≡◌, refl, sym, ap, subst, ◌∙◌, false, Option,
  none, some, List, [], ◌∷◌, ◌++◌, arith, String, String-discrete, ok, inl, inr, Option-cases,
  is_some,
}
use agent_app_server.Base.Dict
use agent_app_server.Json.{Json, Fields}
use agent_app_server.Hub.{EventEnvelope, EventHub}
use agent_app_server.Journal.{Line, Scan, scan_lines, scan_start, dedup_key_of, event_id_of}
use agent_app_server.Journal.Scanning.{has_key}
use agent_app_server.Journal.Writing.{
  Writer, JournalAppend, Stamp, append, append_checked, validate_values, is_thread_id,
  validate_thread_id, invalid_thread_id,
}
use agent_app_server.Journal.Envelope.{IsRequest}
use agent_app_server.Journal.Append.{settled, Agrees, Ready, event_with, event_with-has_key}
use agent_app_server.Journal.Commit.{
  event_to_write, extended, IsNew, append_new, append_again, Ready-readable,
}
use agent_app_server.Service.{
  Service, journal_of, record_sequence, record_data, needs_view, AttachmentView, ServiceError,
  python_failed, journal_failed, fan_out_record, append_values, record_event,
}
use agent_app_server.Service.HandingOver.{
  record_of-sequence, record_of-thread, hub_sequence, handed_over, IsCalm, IsViewed,
  fan_out_record-at,
}

abbrev settled_lines : String → List Line → Scan
settled_lines thread_id lines = scan_lines thread_id (scan_start false) lines

abbrev pub kept : Service → String → Writer → Service
kept s thread_id w = record s { journals = Dict.put String-discrete s.journals thread_id w }

pub journal_of-kept :
    (s : Service) (thread_id : String) (w : Writer) (hub : EventHub Fields)
    → journal_of (record (kept s thread_id w) { event_hub = hub }) thread_id ≡ w
unfolding journal_of
journal_of-kept s thread_id w hub =
    ground (arith, Dict.get-put String-discrete s.journals thread_id thread_id w)

append_values-kept :
    (s : Service) (thread_id : String) (stamp : Stamp) (values : Fields)
    (result : Writer × JournalAppend)
    → is_thread_id thread_id ≡ true
    → validate_values values ≡ ok tt
    → append_checked thread_id stamp values (journal_of s thread_id) ≡ ok result
    → append_values thread_id stamp values s ≡ (ok result.1, kept s thread_id result.0)
unfolding append_values append validate_thread_id
append_values-kept s thread_id stamp values result named valid made =
    rw (named, valid, made, append_values, append, validate_thread_id) refl

append_values-refused :
    (s : Service) (thread_id : String) (stamp : Stamp) (values : Fields)
    → is_thread_id thread_id ≡ false
    → append_values thread_id stamp values s ≡ (err (journal_failed invalid_thread_id), s)
unfolding append_values append validate_thread_id
append_values-refused s thread_id stamp values unnamed =
    rw (unnamed, append_values, append, validate_thread_id) refl

-- The journal of a thread ends in a whole line, the writer's memory agrees with it, and the hub is
-- not ahead of it.
pub record IsAligned (thread_id : String) (s : Service) : Type 0 where
  pub ready : Ready (journal_of s thread_id).file
  pub agrees : Agrees thread_id (journal_of s thread_id).file (journal_of s thread_id).state
  pub behind :
      hub_sequence s thread_id ≤ (settled thread_id (journal_of s thread_id).file).high_water

abbrev pub events_of : Service → String → List Fields
events_of s thread_id = (settled thread_id (journal_of s thread_id).file).events

abbrev pub high_of : Service → String → ℕ
high_of s thread_id = (settled thread_id (journal_of s thread_id).file).high_water

IsAligned-by :
    (thread_id : String) (s : Service) (w : Writer)
    → journal_of s thread_id ≡ w
    → Ready w.file
    → Agrees thread_id w.file w.state
    → hub_sequence s thread_id ≤ (settled thread_id w.file).high_water
    → IsAligned thread_id s
IsAligned-by thread_id s w now ready agrees behind = record {
  ready = subst (λ w. Ready w.file) (sym now) ready;
  agrees = subst (λ w. Agrees thread_id w.file w.state) (sym now) agrees;
  behind =
      subst (λ w. hub_sequence s thread_id ≤ (settled thread_id w.file).high_water) (sym now)
        behind;
}

-- What a call with an event makes of a thread. The id of the thread is refused, and nothing has
-- changed; or the key of the event is there, and no event is added or handed over; or the journal has one
-- more event, which is handed over under its own sequence, or whose view has raised.
abbrev pub Records :
    (Json → String)
    → AttachmentView
    → String
    → Stamp
    → Fields
    → Service
    → Result ServiceError (Option (EventEnvelope Fields)) × Service
    → Type 0
Records show v thread_id stamp values s (answer, s') =
    let r = event_to_write thread_id (journal_of s thread_id).file stamp values in
    ((is_thread_id thread_id ≡ false)
      × (answer ≡ err (journal_failed invalid_thread_id))
      × (s' ≡ s))
    ⊎ (((is_thread_id thread_id ≡ true)
          × (has_key dedup_key_of (dedup_key_of values) (events_of s thread_id) ≡ true)
          × (answer ≡ ok none)
          × (events_of s' thread_id ≡ events_of s thread_id)
          × (hub_sequence s' thread_id ≡ hub_sequence s thread_id))
        ⊎ ((is_thread_id thread_id ≡ true)
            × (has_key dedup_key_of (dedup_key_of values) (events_of s thread_id) ≡ false)
            × (events_of s' thread_id ≡ events_of s thread_id ++ r ∷ [])
            × (((viewed : Fields) × IsViewed show v r s viewed
                  × (answer ≡ ok (some (handed_over show r viewed)))
                  × (record_sequence r ≡ high_of s thread_id + 1)
                  × (hub_sequence s' thread_id ≡ high_of s thread_id + 1))
                ⊎ ((e : PythonError) × (needs_view show r s ≡ true)
                    × (v.view (record_data r) ≡ err e)
                    × (answer ≡ err (python_failed e))
                    × (hub_sequence s' thread_id ≡ hub_sequence s thread_id)))))

record_event-refused :
    (show : Json → String) (v : AttachmentView) (thread_id : String) (stamp : Stamp)
    (values : Fields) (s : Service)
    → is_thread_id thread_id ≡ false
    → record_event show v thread_id stamp values s ≡ (err (journal_failed invalid_thread_id), s)
unfolding record_event
record_event-refused show v thread_id stamp values s unnamed =
    rw (append_values-refused s thread_id stamp values unnamed, record_event) refl

record_event-again :
    (show : Json → String) (v : AttachmentView) (thread_id : String) (stamp : Stamp)
    (values : Fields) (s : Service) (event : Fields)
    → IsAligned thread_id s
    → is_thread_id thread_id ≡ true
    → validate_values values ≡ ok tt
    → event_with (dedup_key_of values) (events_of s thread_id) ≡ some event
    → (s' : Service) × (record_event show v thread_id stamp values s ≡ (ok none, s'))
      × IsAligned thread_id s'
      × (events_of s' thread_id ≡ events_of s thread_id)
      × (hub_sequence s' thread_id ≡ hub_sequence s thread_id)
unfolding record_event
record_event-again show v thread_id stamp values s event i named valid found =
    let w = journal_of s thread_id in
    let (result, made, (answer, same, ready, agrees)) =
      append_again thread_id w.file w.state stamp values event (Ready-readable w.file i.ready)
        i.agrees found in
    let settles = ap (λ lines. settled_lines thread_id lines) same in
    let now = journal_of-kept s thread_id result.0 s.event_hub in
    (
      kept s thread_id result.0,
      rw (append_values-kept s thread_id stamp values result named valid made, answer, record_event)
          refl,
      IsAligned-by thread_id (kept s thread_id result.0) result.0 now ready agrees
          (subst (λ t. hub_sequence s thread_id ≤ t.high_water) (sym settles) i.behind),
      ap (λ w. (settled thread_id w.file).events) now ∙ ap (λ t. t.events) settles,
      refl,
    )

needs_view-kept :
    (show : Json → String) (r : Fields) (s : Service) (thread_id : String) (w : Writer)
    → needs_view show r (kept s thread_id w) ≡ needs_view show r s
unfolding needs_view
needs_view-kept show r s thread_id w = refl

-- A new event is written, and then handed over.
pub record_event-new :
    (show : Json → String) (v : AttachmentView) (thread_id : String) (stamp : Stamp)
    (values : Fields) (s : Service)
    → IsAligned thread_id s
    → is_thread_id thread_id ≡ true
    → IsRequest stamp values
    → IsNew thread_id (journal_of s thread_id).file stamp values
    → let r = event_to_write thread_id (journal_of s thread_id).file stamp values in
      (w : Writer) × (record_event show v thread_id stamp values s
        ≡ fan_out_record show v r (kept s thread_id w))
      × (read_file thread_id w.file ≡ extended (settled thread_id (journal_of s thread_id).file) r)
      × ((settled thread_id w.file).events ≡ events_of s thread_id ++ r ∷ [])
      × ((settled thread_id w.file).high_water ≡ high_of s thread_id + 1)
      × Ready w.file
      × Agrees thread_id w.file w.state
unfolding record_event
record_event-new show v thread_id stamp values s i named request new =
    let w = journal_of s thread_id in
    let (result, made, (answer, reads, events, high, ready, agrees)) =
      append_new thread_id w.file w.state stamp values (Ready-readable w.file i.ready) i.agrees
        request new in
    (
      result.0,
      rw
          (
            append_values-kept s thread_id stamp values result named request.validated made,
            answer,
            record_event,
          )
          refl,
      reads,
      events,
      high,
      ready,
      agrees,
    )

recorded_new :
    (show : Json → String) (v : AttachmentView) (thread_id : String) (stamp : Stamp)
    (values : Fields) (s : Service)
    → IsCalm v thread_id
    → IsAligned thread_id s
    → is_thread_id thread_id ≡ true
    → IsRequest stamp values
    → has_key dedup_key_of (dedup_key_of values) (events_of s thread_id) ≡ false
    → has_key event_id_of
        (event_id_of (event_to_write thread_id (journal_of s thread_id).file stamp values))
        (events_of s thread_id)
      ≡ false
    → IsAligned thread_id (record_event show v thread_id stamp values s).1
      × Records show v thread_id stamp values s (record_event show v thread_id stamp values s)
unfolding needs_view
recorded_new show v thread_id stamp values s calm i named request unknown fresh =
    let (w, made, _, events, high, ready, agrees) =
      record_event-new show v thread_id stamp values s i named request (unknown, fresh) in
    let r = event_to_write thread_id (journal_of s thread_id).file stamp values in
    let n = high_of s thread_id + 1 in
    let at_sequence = record_of-sequence thread_id n stamp values (omega arith) in
    let (keeps, outcome) =
      fan_out_record-at show v (kept s thread_id w) r thread_id n
        (record_of-thread show thread_id n stamp values) at_sequence calm
        (omega (arith, i.behind)) in
    let now = keeps ∙ journal_of-kept s thread_id w s.event_hub in
    let kept_events = ap (λ w. (settled thread_id w.file).events) now ∙ events in
    let s' = (fan_out_record show v r (kept s thread_id w)).1 in
    rw made (elim outcome [
      | inl (viewed, is_viewed, answer, level) ↦ (
        IsAligned-by thread_id s' w now ready agrees (omega (arith, level, high)),
        inr (
            inr (named, unknown, kept_events, inl (viewed, is_viewed, answer, at_sequence, level))),
      )
      | inr (e, needed, failed, answer, level) ↦ (
        IsAligned-by thread_id s' w now ready agrees (omega (arith, level, high, i.behind)),
        inr (inr (named, unknown, kept_events, inr (e, needed, failed, answer, level))),
      )
    ])

-- A call with an event whose values are valid and whose identifier the journal does not have, on a thread
-- whose journal and hub agree, while other tasks leave the thread as it is. An invalid thread id is
-- refused, with nothing changed. A key that is there answers nothing and adds nothing. With a new key
-- the event becomes the last one of the journal; it is handed over, with its attachments viewed, under the
-- sequence that the journal gave it, which is the hub's from then on, or the view raises, the call raises
-- the same, and the hub stays where it was. In all cases journal and hub agree afterwards.
pub record_event_lem :
    (show : Json → String) (v : AttachmentView) (thread_id : String) (stamp : Stamp)
    (values : Fields) (s : Service)
    → IsCalm v thread_id
    → IsAligned thread_id s
    → IsRequest stamp values
    → has_key event_id_of
        (event_id_of (event_to_write thread_id (journal_of s thread_id).file stamp values))
        (events_of s thread_id)
      ≡ false
    → IsAligned thread_id (record_event show v thread_id stamp values s).1
      × Records show v thread_id stamp values s (record_event show v thread_id stamp values s)
record_event_lem show v thread_id stamp values s calm i request fresh =
    elim (Bool-cases (is_thread_id thread_id)) [
      | inr unnamed ↦
          rw (record_event-refused show v thread_id stamp values s unnamed)
            (i, inl (unnamed, refl, refl))
      | inl named ↦ elim (Option-cases (event_with (dedup_key_of values) (events_of s thread_id))) [
        | inr (event, found) ↦
            let (s', made, aligned, events, level) =
              record_event-again show v thread_id stamp values s event i named request.validated
                found in
            rw made (
              aligned,
              inr (
                  inl (
                    named,
                    sym (event_with-has_key (dedup_key_of values) (events_of s thread_id))
                        ∙ ap is_some found,
                    refl,
                    events,
                    level,
                  )),
            )
        | inl new ↦
            recorded_new show v thread_id stamp values s calm i named request
              (sym (event_with-has_key (dedup_key_of values) (events_of s thread_id))
                ∙ ap is_some new)
              fresh
      ]
    ]
