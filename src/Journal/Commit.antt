-- ===== src/Journal/Commit.antt =====
-- stream_journal.py, `_append_now`: a new event is the next one of the file; a repeated key changes
-- nothing that was committed.
use agent_app_server.Base.{
  ◌+◌, ◌≡◌, ◌≢◌, refl, sym, ap, subst, ◌∙◌, true, false, ◌||◌, Option, none, some, [], ◌∷◌, ◌++◌,
  arith, String, String-discrete, ok, ltb,
}
use agent_app_server.Base.Dict
use agent_app_server.Json.{Fields}
use agent_app_server.Journal.{Content, Scan, JournalRead, accept, dedup_key_of, event_id_of}
use agent_app_server.Journal.Lifecycle.{
  Stored, missing, unreadable, stored, read_file, read_content, coverage_of,
}
use agent_app_server.Journal.Scanning.{has_key}
use agent_app_server.Journal.Writing.{
  WriterState, Writer, JournalAppend, Stamp, prepare, drop_tail, writer_state, record_of,
  write_line, append_record, append_checked,
}
use agent_app_server.Journal.Envelope.{IsRequest, dedup_key_of-record_of}
use agent_app_server.Journal.Append.{
  event_with, committed, settled, Matches, Agrees, Ready, event_with-has_key, event_with-append,
  settled-IsScan, scan-Ready, writer_state-Matches, accept_new, settled-write_line,
}

-- What the file reads as, once `event` is its last one.
abbrev pub extended : Scan → Fields → JournalRead
extended s event =
    let damaged = s.damaged || ltb s.expected (s.high_water + 1) in
    record {
      events = s.events ++ event ∷ [];
      cursor = s.high_water + 1;
      coverage = coverage_of damaged (s.events ++ event ∷ []);
      damaged = damaged;
      exists = true;
    }

-- The event that an append with these values makes of this file.
abbrev pub event_to_write : String → Stored → Stamp → Fields → Fields
event_to_write thread_id file stamp values =
    record_of thread_id ((settled thread_id file).high_water + 1) stamp values

-- The values' key and the event's identifier are not in the file yet.
abbrev pub IsNew : String → Stored → Stamp → Fields → Type 0
IsNew thread_id file stamp values =
    (has_key dedup_key_of (dedup_key_of values) (settled thread_id file).events ≡ false)
    × (has_key event_id_of (event_id_of (event_to_write thread_id file stamp values))
          (settled thread_id file).events
        ≡ false)

written-Matches :
    (thread_id : String) (file : Stored) (state : WriterState) (stamp : Stamp) (values : Fields)
    → Ready file
    → Matches thread_id file state
    → IsRequest stamp values
    → IsNew thread_id file stamp values
    → Matches thread_id (write_line file (event_to_write thread_id file stamp values)) (record {
      next_sequence = state.next_sequence + 1;
      dedup_events =
          Dict.put String-discrete state.dedup_events
            (dedup_key_of values)
            (event_to_write thread_id file stamp values);
    })
written-Matches thread_id file state stamp values ready m request new =
    let s = settled thread_id file in
    let event = event_to_write thread_id file stamp values in
    let key = dedup_key_of-record_of thread_id (s.high_water + 1) stamp values in
    let (events, high, damaged) =
      accept_new thread_id s event (settled-IsScan thread_id file) new.1 (rw key new.0) in
    let settles = settled-write_line thread_id file stamp values ready request in
    record {
      counts =
          ap (λ n. n + 1) m.counts
          ∙ sym (ap (λ t. t.high_water + 1) settles ∙ ap (λ n. n + 1) high);
      finds = λ k.
          Dict.get-put String-discrete state.dedup_events (dedup_key_of values) k event
          ∙ ground (arith, m.finds k, key, event_with-append k s.events event (rw key new.0))
          ∙ sym (ap (λ t. event_with k t.events) settles ∙ ap (event_with k) events);
    }

tailless :
    (thread_id : String) (content : Content) (state : Option WriterState)
    → Agrees thread_id (stored content) state
    → Agrees thread_id (stored (drop_tail content)) state
tailless thread_id content none agrees = tt
tailless thread_id content (some state) m = record { counts = m.counts; finds = m.finds }

abbrev read_of : Scan → JournalRead
read_of s = record {
  events = s.events;
  cursor = s.high_water;
  coverage = coverage_of s.damaged s.events;
  damaged = s.damaged;
  exists = true;
}

read_of-extended :
    (t s : Scan) (event : Fields)
    → t.events ≡ s.events ++ event ∷ []
    → t.high_water ≡ s.high_water + 1
    → t.damaged ≡ (s.damaged || ltb s.expected (s.high_water + 1))
    → read_of t ≡ extended s event
read_of-extended t s event events high damaged = rw (events, high, damaged) refl

reads_settled :
    (thread_id : String) (file : Stored) (event : Fields)
    → Ready file
    → read_file thread_id (write_line file event)
      ≡ read_of (settled thread_id (write_line file event))
unfolding read_file read_content
reads_settled thread_id missing event ready = ap read_of (scan-Ready thread_id _ refl)
reads_settled thread_id unreadable event ready = absurd ready
reads_settled thread_id (stored content) event ready = ap read_of (scan-Ready thread_id _ ready)

written-reads :
    (thread_id : String) (file : Stored) (stamp : Stamp) (values : Fields)
    → Ready file
    → IsRequest stamp values
    → IsNew thread_id file stamp values
    → read_file thread_id (write_line file (event_to_write thread_id file stamp values))
      ≡ extended (settled thread_id file) (event_to_write thread_id file stamp values)
written-reads thread_id file stamp values ready request new =
    let s = settled thread_id file in
    let event = event_to_write thread_id file stamp values in
    let key = dedup_key_of-record_of thread_id (s.high_water + 1) stamp values in
    let (events, high, damaged) =
      accept_new thread_id s event (settled-IsScan thread_id file) new.1 (rw key new.0) in
    reads_settled thread_id file event ready
    ∙ ap read_of (settled-write_line thread_id file stamp values ready request)
    ∙ read_of-extended (accept s event (s.high_water + 1)) s event events high damaged

written-events :
    (thread_id : String) (file : Stored) (stamp : Stamp) (values : Fields)
    → Ready file
    → IsRequest stamp values
    → IsNew thread_id file stamp values
    → (settled thread_id (write_line file (event_to_write thread_id file stamp values))).events
      ≡ (settled thread_id file).events ++ event_to_write thread_id file stamp values ∷ []
written-events thread_id file stamp values ready request new =
    let s = settled thread_id file in
    let event = event_to_write thread_id file stamp values in
    let key = dedup_key_of-record_of thread_id (s.high_water + 1) stamp values in
    ap (λ t. t.events) (settled-write_line thread_id file stamp values ready request)
    ∙ (accept_new thread_id s event (settled-IsScan thread_id file) new.1 (rw key new.0)).0

written-high :
    (thread_id : String) (file : Stored) (stamp : Stamp) (values : Fields)
    → Ready file
    → IsRequest stamp values
    → IsNew thread_id file stamp values
    → (settled thread_id (write_line file (event_to_write thread_id file stamp values))).high_water
      ≡ (settled thread_id file).high_water + 1
written-high thread_id file stamp values ready request new =
    let s = settled thread_id file in
    let event = event_to_write thread_id file stamp values in
    let key = dedup_key_of-record_of thread_id (s.high_water + 1) stamp values in
    ap (λ t. t.high_water) (settled-write_line thread_id file stamp values ready request)
    ∙ (accept_new thread_id s event (settled-IsScan thread_id file) new.1 (rw key new.0)).1

write_line-Ready : (file : Stored) (event : Fields) → Ready file → Ready (write_line file event)
write_line-Ready missing event ready = refl
write_line-Ready unreadable event ready = absurd ready
write_line-Ready (stored content) event ready = ready

pub Ready-readable : (file : Stored) → Ready file → file ≢ unreadable
Ready-readable missing ready e = cc
Ready-readable unreadable ready e = ready
Ready-readable (stored content) ready e = cc

-- The result of an append, and the writer's memory after it.
abbrev pub Commits : String → Stored → Writer × JournalAppend → Fields → Type 0
Commits thread_id file result event =
    (result.1 ≡ record { recorded = event; duplicate = false })
    × (read_file thread_id result.0.file ≡ extended (settled thread_id file) event)
    × ((settled thread_id result.0.file).events ≡ (settled thread_id file).events ++ event ∷ [])
    × ((settled thread_id result.0.file).high_water ≡ (settled thread_id file).high_water + 1)
    × Ready result.0.file
    × Agrees thread_id result.0.file result.0.state

abbrev pub Repeats : String → Stored → Writer × JournalAppend → Fields → Type 0
Repeats thread_id file result event =
    (result.1 ≡ record { recorded = event; duplicate = true })
    × (committed result.0.file ≡ committed file)
    × Ready result.0.file
    × Agrees thread_id result.0.file result.0.state

append_record-Commits :
    (thread_id : String) (file : Stored) (state : WriterState) (stamp : Stamp) (values : Fields)
    → Ready file
    → Matches thread_id file state
    → IsRequest stamp values
    → IsNew thread_id file stamp values
    → Commits thread_id file
        (append_record thread_id stamp values file state)
        (event_to_write thread_id file stamp values)
unfolding append_record
append_record-Commits thread_id file state stamp values ready m request new =
    let s = settled thread_id file in
    let absent : Dict.get String-discrete state.dedup_events (dedup_key_of values) ≡ none =
      m.finds (dedup_key_of values)
      ∙ ground (arith, event_with-has_key (dedup_key_of values) s.events) in
    let matches = written-Matches thread_id file state stamp values ready m request new in
    rw (absent, append_record)
      (
        ap (λ n. record { recorded = record_of thread_id n stamp values; duplicate = false })
            m.counts,
        ap (λ n. read_file thread_id (write_line file (record_of thread_id n stamp values)))
              m.counts
            ∙ written-reads thread_id file stamp values ready request new,
        ap (λ n. (settled thread_id (write_line file (record_of thread_id n stamp values))).events)
              m.counts
            ∙ written-events thread_id file stamp values ready request new,
        ap
              (λ n.
                (settled thread_id
                  (write_line file (record_of thread_id n stamp values))).high_water)
              m.counts
            ∙ written-high thread_id file stamp values ready request new,
        write_line-Ready file (record_of thread_id state.next_sequence stamp values) ready,
        subst
            (λ n. Matches thread_id (write_line file (record_of thread_id n stamp values)) (record {
              next_sequence = state.next_sequence + 1;
              dedup_events =
                  Dict.put String-discrete state.dedup_events (dedup_key_of values)
                    (record_of thread_id n stamp values);
            }))
            (sym m.counts) matches,
      )

append_record-Repeats :
    (thread_id : String) (file : Stored) (state : WriterState) (stamp : Stamp)
    (values event : Fields)
    → Ready file
    → Matches thread_id file state
    → event_with (dedup_key_of values) (settled thread_id file).events ≡ some event
    → Repeats thread_id file (append_record thread_id stamp values file state) event
unfolding append_record
append_record-Repeats thread_id file state stamp values event ready m found =
    let known : Dict.get String-discrete state.dedup_events (dedup_key_of values) ≡ some event =
      m.finds (dedup_key_of values) ∙ found in
    rw (known, append_record) (refl, refl, ready, m)

-- Once the thread id is accepted, an append of a new event with valid values to a readable file, by a
-- writer whose memory is empty or agrees with the file, gives it the sequence after the file's highest,
-- and puts it last: the file reads as before with that event added, whatever incomplete tail it had, and
-- the writer's memory still agrees with it.
pub append_new :
    (thread_id : String) (file : Stored) (state : Option WriterState) (stamp : Stamp)
    (values : Fields)
    → file ≢ unreadable
    → Agrees thread_id file state
    → IsRequest stamp values
    → IsNew thread_id file stamp values
    → (result : Writer × JournalAppend) × (append_checked thread_id stamp values
          (record { file = file; state = state })
        ≡ ok result)
      × Commits thread_id file result (event_to_write thread_id file stamp values)
unfolding append_checked prepare
append_new thread_id unreadable state stamp values readable agrees request new =
    absurd (readable refl)
append_new thread_id missing state stamp values readable agrees request new = (
  append_record thread_id stamp values missing (writer_state thread_id state missing),
  refl,
  append_record-Commits thread_id missing (writer_state thread_id state missing) stamp values tt
      (writer_state-Matches thread_id missing state tt agrees) request new,
)
append_new thread_id (stored content) state stamp values readable agrees request new =
    let file = stored (drop_tail content) in
    (
      append_record thread_id stamp values file (writer_state thread_id state file),
      refl,
      append_record-Commits thread_id file (writer_state thread_id state file) stamp values refl
          (writer_state-Matches thread_id file state refl (tailless thread_id content state agrees))
          request new,
    )

-- Once the thread id is accepted, an append with a key of a readable file, by a writer whose memory is
-- empty or agrees with the file, answers with the event that has it and writes no line.
pub append_again :
    (thread_id : String) (file : Stored) (state : Option WriterState) (stamp : Stamp)
    (values event : Fields)
    → file ≢ unreadable
    → Agrees thread_id file state
    → event_with (dedup_key_of values) (settled thread_id file).events ≡ some event
    → (result : Writer × JournalAppend) × (append_checked thread_id stamp values
          (record { file = file; state = state })
        ≡ ok result)
      × Repeats thread_id file result event
unfolding append_checked prepare
append_again thread_id unreadable state stamp values event readable agrees found =
    absurd (readable refl)
append_again thread_id missing state stamp values event readable agrees found = (
  append_record thread_id stamp values missing (writer_state thread_id state missing),
  refl,
  append_record-Repeats thread_id missing (writer_state thread_id state missing) stamp values event
      tt (writer_state-Matches thread_id missing state tt agrees) found,
)
append_again thread_id (stored content) state stamp values event readable agrees found =
    let file = stored (drop_tail content) in
    (
      append_record thread_id stamp values file (writer_state thread_id state file),
      refl,
      append_record-Repeats thread_id file (writer_state thread_id state file) stamp values event
          refl
          (writer_state-Matches thread_id file state refl (tailless thread_id content state agrees))
          found,
    )
