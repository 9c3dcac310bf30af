-- ===== src/Service/HandingOver.antt =====
-- codex_service.py, `_fan_out_record`: what becomes of a record that the hub has not reached.
use agent_app_server.Attachments.{PythonError}
use agent_app_server.Base.{
  Bool-cases, Result-cases, Result, err, true, if◌then◌else◌, ◌⊎◌, ℕ, ◌≤◌, ◌<◌, ◌≡◌, refl, sym,
  subst, ◌∙◌, false, Option, some, arith, String, pos, ok, leb, inl, inr,
}
use agent_app_server.Keys.{Key}
use agent_app_server.Json.{Json, Fields, get, end}
use agent_app_server.Hub.{
  EventEnvelope, EventHub, publish, current_sequence, state, next_sequence, envelope, fan_out,
}
use agent_app_server.Hub.Calls.{state-put, state-fan_out, state_after_fan_out}
use agent_app_server.Journal.Writing.{Stamp, record_of}
use agent_app_server.Journal.Envelope.{record_fields}
use agent_app_server.Service.{
  Service, key_of, journal_of, record_sequence, record_thread, record_type, record_method,
  record_turn, record_data, data_view, needs_view, publish_data, attachment_event_data,
  AttachmentView, ServiceError, python_failed, journal_envelope, publish_record, is_fanned_out,
  fan_out_record,
}

pub record_of-sequence :
    (thread_id : String) (n : ℕ) (stamp : Stamp) (values : Fields)
    → 1 ≤ n
    → record_sequence (record_of thread_id n stamp values) ≡ n
unfolding record_sequence
record_of-sequence thread_id n stamp values le =
    rw ((record_fields thread_id n stamp values).1, record_sequence) (ground arith)

pub record_of-thread :
    (show : Json → String) (thread_id : String) (n : ℕ) (stamp : Stamp) (values : Fields)
    → record_thread show (record_of thread_id n stamp values) ≡ thread_id
unfolding record_thread record_of get
record_of-thread show thread_id n stamp values = refl

-- The sequence of a thread, as the hub of a service has it.
abbrev pub hub_sequence : Service → String → ℕ
hub_sequence s thread_id = (state s.event_hub (key_of s thread_id)).sequence

-- What a record is handed over as, with its data viewed.
abbrev pub handed_over : (Json → String) → Fields → Fields → EventEnvelope Fields
handed_over show r viewed = record (journal_envelope show r) { payload = viewed }

pub touched_sequence :
    (hub : EventHub Fields) (key : Key)
    → (state (current_sequence hub key).1 key).sequence ≡ (state hub key).sequence
unfolding current_sequence
touched_sequence hub key = ground (arith, state-put hub key key (state hub key))

fanned_sequence :
    (hub : EventHub Fields) (key : Key) (e : EventEnvelope Fields)
    → (state (fan_out hub key e) key).sequence ≡ e.sequence
unfolding state_after_fan_out
fanned_sequence hub key e = ground (arith, state-fan_out hub key key e)

later_sequence : (current n : ℕ) → current < n → next_sequence current (some (pos n)) ≡ ok n
unfolding next_sequence
later_sequence current n later = ground arith

publish-later :
    (hub : EventHub Fields) (key : Key) (event_type method : String) (payload : Fields)
    (turn_id : Option String) (n : ℕ)
    → (state hub key).sequence < n
    → publish hub key event_type method end (some payload) turn_id (some (pos n)) ≡ (
      ok (envelope key event_type method end (some payload) turn_id n),
      fan_out hub key (envelope key event_type method end (some payload) turn_id n),
    )
unfolding publish
publish-later hub key event_type method payload turn_id n later =
    rw (later_sequence (state hub key).sequence n later, publish) refl

-- A record that the hub has not reached is published as it is.
publish_data-later :
    (show : Json → String) (s : Service) (r viewed : Fields)
    → hub_sequence s (record_thread show r) < record_sequence r
    → (hub : EventHub Fields) × (publish_data show r viewed s
        ≡ (ok (some (handed_over show r viewed)), record s { event_hub = hub }))
      × ((state hub (key_of s (record_thread show r))).sequence ≡ record_sequence r)
unfolding publish_data envelope journal_envelope
publish_data-later show s r viewed later =
    let key = key_of s (record_thread show r) in
    let e = handed_over show r viewed in
    (
      fan_out s.event_hub key e,
      rw
          (
            publish-later s.event_hub key (record_type show r) (record_method show r) viewed
                (record_turn show r) (record_sequence r) later,
            publish_data,
          )
          refl,
      fanned_sequence s.event_hub key e,
    )

leb-later : (n current : ℕ) → current < n → leb n current ≡ false
leb-later n current later = ground arith

pub is_fanned_out-later :
    (show : Json → String) (s : Service) (r : Fields)
    → hub_sequence s (record_thread show r) < record_sequence r
    → is_fanned_out show r s ≡ false
unfolding is_fanned_out current_sequence
is_fanned_out-later show s r later =
    leb-later (record_sequence r) (hub_sequence s (record_thread show r)) later

-- What other tasks do while a view is made leaves this thread's journal and its place in the hub as
-- they are.
abbrev pub IsCalm : AttachmentView → String → Type 0
IsCalm v thread_id =
    (s : Service)
    → (journal_of (v.pause s) thread_id ≡ journal_of s thread_id)
      × (hub_sequence (v.pause s) thread_id ≡ hub_sequence s thread_id)

-- The data that a record is handed over with: viewed where the view is made, and else its own.
abbrev pub IsViewed : (Json → String) → AttachmentView → Fields → Service → Fields → Type 0
IsViewed show v r s viewed =
    if needs_view show r s then v.view (record_data r) ≡ ok viewed else viewed ≡ record_data r

-- The answer of a hand-over, and the service with the journal and the sequence it has afterwards.
abbrev pub HandsOver :
    (Json → String)
    → AttachmentView
    → Fields
    → Service
    → String
    → ℕ
    → Result ServiceError (Option (EventEnvelope Fields)) × Service
    → Type 0
HandsOver show v r s thread_id n (answer, s') =
    (journal_of s' thread_id ≡ journal_of s thread_id)
    × (((viewed : Fields) × IsViewed show v r s viewed
          × (answer ≡ ok (some (handed_over show r viewed)))
          × (hub_sequence s' thread_id ≡ n))
        ⊎ ((e : PythonError) × (needs_view show r s ≡ true)
            × (v.view (record_data r) ≡ err e)
            × (answer ≡ err (python_failed e))
            × (hub_sequence s' thread_id ≡ hub_sequence s thread_id)))

pub journal_of-hub :
    (s : Service) (hub : EventHub Fields) (thread_id : String)
    → journal_of (record s { event_hub = hub }) thread_id ≡ journal_of s thread_id
unfolding journal_of
journal_of-hub s hub thread_id = refl

pub publish_record-own :
    (show : Json → String) (v : AttachmentView) (s : Service) (r : Fields)
    → needs_view show r s ≡ false
    → publish_record show v r s ≡ publish_data show r (record_data r) s
unfolding publish_record data_view
publish_record-own show v s r own = rw (own, publish_record, data_view) refl

pub publish_record-viewed :
    (show : Json → String) (v : AttachmentView) (s : Service) (r viewed : Fields)
    → needs_view show r s ≡ true
    → v.view (record_data r) ≡ ok viewed
    → publish_record show v r s ≡ publish_data show r viewed (v.pause s)
unfolding publish_record data_view attachment_event_data
publish_record-viewed show v s r viewed needed made =
    rw (needed, made, publish_record, data_view, attachment_event_data) refl

publish_record-raised :
    (show : Json → String) (v : AttachmentView) (s : Service) (r : Fields) (e : PythonError)
    → needs_view show r s ≡ true
    → v.view (record_data r) ≡ err e
    → publish_record show v r s ≡ (err (python_failed e), v.pause s)
unfolding publish_record data_view attachment_event_data
publish_record-raised show v s r e needed failed =
    rw (needed, failed, publish_record, data_view, attachment_event_data) refl

-- A hand-over that the hub has not reached.
publish_record-HandsOver :
    (show : Json → String) (v : AttachmentView) (s : Service) (r : Fields)
    → IsCalm v (record_thread show r)
    → hub_sequence s (record_thread show r) < record_sequence r
    → HandsOver show v r s (record_thread show r) (record_sequence r) (publish_record show v r s)
publish_record-HandsOver show v s r calm later = elim (Bool-cases (needs_view show r s)) [
  | inr own ↦
      let (hub, published, reached) = publish_data-later show s r (record_data r) later in
      rw (own, publish_record-own show v s r own, published)
        (journal_of-hub s hub (record_thread show r), inl (record_data r, refl, refl, reached))
  | inl needed ↦ elim (Result-cases (v.view (record_data r))) [
    | inr (e, failed) ↦
        rw (needed, failed, publish_record-raised show v s r e needed failed)
          ((calm s).0, inr (e, refl, refl, refl, (calm s).1))
    | inl (viewed, made) ↦
        let thread_id = record_thread show r in
        let (hub, published, reached) =
          publish_data-later show (v.pause s) r viewed
            (subst (λ n. n < record_sequence r) (sym (calm s).1) later) in
        rw (needed, made, publish_record-viewed show v s r viewed needed made, published)
          (journal_of-hub (v.pause s) hub thread_id ∙ (calm s).0, inl (viewed, refl, refl, reached))
  ]
]

fan_out_record-HandsOver :
    (show : Json → String) (v : AttachmentView) (s : Service) (r : Fields)
    → IsCalm v (record_thread show r)
    → hub_sequence s (record_thread show r) < record_sequence r
    → HandsOver show v r s (record_thread show r) (record_sequence r) (fan_out_record show v r s)
unfolding fan_out_record needs_view journal_of
fan_out_record-HandsOver show v s r calm later =
    let thread_id = record_thread show r in
    let key = key_of s thread_id in
    let touched = (current_sequence s.event_hub key).1 in
    let same = touched_sequence s.event_hub key in
    let (keeps, outcome) =
      publish_record-HandsOver show v (record s { event_hub = touched }) r calm
        (subst (λ n. n < record_sequence r) (sym same) later) in
    rw (is_fanned_out-later show s r later, fan_out_record)
      (
        keeps,
        elim outcome [
          | inl published ↦ inl published
          | inr (e, needed, failed, answer, at) ↦ inr (e, needed, failed, answer, at ∙ same)
        ],
      )

pub fan_out_record-at :
    (show : Json → String) (v : AttachmentView) (s : Service) (r : Fields) (thread_id : String)
    (n : ℕ)
    → record_thread show r ≡ thread_id
    → record_sequence r ≡ n
    → IsCalm v thread_id
    → hub_sequence s thread_id < n
    → HandsOver show v r s thread_id n (fan_out_record show v r s)
fan_out_record-at show v s r thread_id n at_thread at_sequence calm later =
    subst (λ t. HandsOver show v r s t n (fan_out_record show v r s)) at_thread
      (subst (λ m. HandsOver show v r s (record_thread show r) m (fan_out_record show v r s))
        at_sequence
        (fan_out_record-HandsOver show v s r (subst (IsCalm v) (sym at_thread) calm) (
          subst (λ m. hub_sequence s (record_thread show r) < m) (sym at_sequence)
            (subst (λ t. hub_sequence s t < n) (sym at_thread) later))))
