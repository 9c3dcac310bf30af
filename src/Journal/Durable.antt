-- ===== src/Journal/Durable.antt =====
-- stream_journal.py: the journal over time. Appends are mixed with torn writes, which leave an
-- incomplete last line, and with restarts, which lose the writer's memory.
use mathlib.Core.List.{append_assoc, append-nil}
use agent_app_server.Base.{
  ◌≡◌, ◌≢◌, refl, sym, ap, ◌∙◌, false, Option, none, some, ◌+◌, List, [], ◌∷◌, ◌++◌, String, Result,
  ok, err, Option-cases, Bool-cases, true, inl, inr, is_some,
}
use agent_app_server.Json.{Fields}
use agent_app_server.Journal.{Line, scan_lines, scan_start, dedup_key_of, event_id_of}
use agent_app_server.Journal.Lifecycle.{Stored, missing, unreadable, stored}
use agent_app_server.Journal.Scanning.{has_key}
use agent_app_server.Journal.Writing.{
  Writer, WriterState, JournalAppend, Stamp, append_checked, append_now, is_thread_id,
  invalid_thread_id, validate_thread_id,
}
use agent_app_server.Journal.Envelope.{IsRequest}
use agent_app_server.Journal.Append.{event_with, settled, committed, Agrees, event_with-has_key}
use agent_app_server.Journal.Commit.{event_to_write, append_new, append_again, Ready-readable}

pub data JournalEvent : Type 0 where
  appends : Stamp → Fields → JournalEvent
  tears : Line → JournalEvent
  restarts : JournalEvent

abbrev pub tear : Stored → Line → Stored
tear missing line = stored (record { lines = []; tail = some line })
tear unreadable line = unreadable
tear (stored content) line = stored (record content { tail = some line })

abbrev pub kept_writer : {E : Type 0} → Writer → Result E (Writer × JournalAppend) → Writer
kept_writer w (ok result) = result.0
kept_writer w (err e) = w

unfoldable pub happen : String → Writer → JournalEvent → Writer
happen thread_id w (appends stamp values) = kept_writer w (append_now thread_id stamp values w)
happen thread_id w (tears line) = record w { file = tear w.file line }
happen thread_id w restarts = record w { state = none }

unfoldable pub happen_all : String → Writer → List JournalEvent → Writer
unfolding happen
happen_all thread_id w [] = w
happen_all thread_id w (e ∷ es) = happen_all thread_id (happen thread_id w e) es

-- Appended values are valid, and the identifier that a new event gets is not one of the file's.
abbrev pub IsFair : String → Writer → JournalEvent → Type 0
IsFair thread_id w (appends stamp values) =
    IsRequest stamp values
    × (has_key event_id_of (event_id_of (event_to_write thread_id w.file stamp values))
          (settled thread_id w.file).events
        ≡ false)
IsFair thread_id w (tears line) = Unit
IsFair thread_id w restarts = Unit

abbrev pub AllFair : String → Writer → List JournalEvent → Type 0
AllFair thread_id w [] = Unit
AllFair thread_id w (e ∷ es) = IsFair thread_id w e × AllFair thread_id (happen thread_id w e) es

abbrev pub IsWhole : String → Writer → Type 0
IsWhole thread_id w = (w.file ≢ unreadable) × Agrees thread_id w.file w.state

-- The events of `w'` begin with those of `w`.
abbrev pub Extends : String → Writer → Writer → Type 0
Extends thread_id w w' =
    (more : List Fields) × ((settled thread_id w'.file).events
      ≡ (settled thread_id w.file).events ++ more)

appended-Extends :
    (thread_id : String) (w : Writer) (stamp : Stamp) (values : Fields)
    → IsWhole thread_id w
    → IsFair thread_id w (appends stamp values)
    → IsWhole thread_id (kept_writer w (append_checked thread_id stamp values w))
      × Extends thread_id w (kept_writer w (append_checked thread_id stamp values w))
appended-Extends thread_id w stamp values (readable, agrees) (request, new_id) =
    elim (Option-cases (event_with (dedup_key_of values) (settled thread_id w.file).events)) [
      | inl new ↦
          let (result, made, (_, _, events, _, ready, agrees')) =
            append_new thread_id w.file w.state stamp values readable agrees request (
              sym (event_with-has_key (dedup_key_of values) (settled thread_id w.file).events)
                  ∙ ap is_some new,
              new_id,
            ) in
          rw made (
            (Ready-readable result.0.file ready, agrees'),
            (event_to_write thread_id w.file stamp values ∷ [], events),
          )
      | inr (event, found) ↦
          let (result, made, (_, same, ready, agrees')) =
            append_again thread_id w.file w.state stamp values event readable agrees found in
          rw made (
            (Ready-readable result.0.file ready, agrees'),
            (
              [],
              ap (λ lines. (scan_lines thread_id (scan_start false) lines).events) same
                  ∙ sym (rw append-nil),
            ),
          )
    ]

pub append_now-valid :
    (thread_id : String) (stamp : Stamp) (values : Fields) (w : Writer)
    → is_thread_id thread_id ≡ true
    → append_now thread_id stamp values w ≡ append_checked thread_id stamp values w
unfolding append_now validate_thread_id
append_now-valid thread_id stamp values w valid = rw (valid, append_now, validate_thread_id) refl

append_now-invalid :
    (thread_id : String) (stamp : Stamp) (values : Fields) (w : Writer)
    → is_thread_id thread_id ≡ false
    → append_now thread_id stamp values w ≡ err invalid_thread_id
unfolding append_now validate_thread_id
append_now-invalid thread_id stamp values w invalid =
    rw (invalid, append_now, validate_thread_id) refl

settled-same :
    (thread_id : String) (file other : Stored)
    → committed other ≡ committed file
    → settled thread_id other ≡ settled thread_id file
settled-same thread_id file other same = ap (scan_lines thread_id (scan_start false)) same

Agrees-same :
    (thread_id : String) (file other : Stored) (state : Option WriterState)
    → committed other ≡ committed file
    → Agrees thread_id file state
    → Agrees thread_id other state
Agrees-same thread_id file other none same m = tt
Agrees-same thread_id file other (some state) same m =
    let settles = settled-same thread_id file other same in
    record {
      counts = m.counts ∙ sym (ap (λ s. s.high_water + 1) settles);
      finds = λ k. m.finds k ∙ sym (ap (λ s. event_with k s.events) settles);
    }

committed-tear : (file : Stored) (line : Line) → committed (tear file line) ≡ committed file
committed-tear missing line = refl
committed-tear unreadable line = refl
committed-tear (stored content) line = refl

tear-readable : (file : Stored) (line : Line) → file ≢ unreadable → tear file line ≢ unreadable
tear-readable missing line readable e = cc
tear-readable unreadable line readable e = readable refl
tear-readable (stored content) line readable e = cc

happen-Extends :
    (thread_id : String) (w : Writer) (e : JournalEvent)
    → IsWhole thread_id w
    → IsFair thread_id w e
    → IsWhole thread_id (happen thread_id w e) × Extends thread_id w (happen thread_id w e)
unfolding happen
happen-Extends thread_id w (appends stamp values) whole fair =
    elim (Bool-cases (is_thread_id thread_id)) [
      | inl valid ↦
          rw (append_now-valid thread_id stamp values w valid)
            (appended-Extends thread_id w stamp values whole fair)
      | inr invalid ↦
          rw (append_now-invalid thread_id stamp values w invalid)
            (whole, ([], sym (rw append-nil)))
    ]
happen-Extends thread_id w (tears line) (readable, agrees) fair =
    let same = committed-tear w.file line in
    (
      (
        tear-readable w.file line readable,
        Agrees-same thread_id w.file (tear w.file line) w.state same agrees,
      ),
      (
        [],
        ap (λ s. s.events) (settled-same thread_id w.file (tear w.file line) same)
            ∙ sym (rw append-nil),
      ),
    )
happen-Extends thread_id w restarts whole fair = ((whole.0, tt), ([], sym (rw append-nil)))

-- What was committed stays: after any appends, torn writes and restarts, the events of the file are
-- the earlier ones, in the same places, and further ones, and the writer's memory still agrees.
pub journal_durable :
    (thread_id : String) (w : Writer) (es : List JournalEvent)
    → IsWhole thread_id w
    → AllFair thread_id w es
    → IsWhole thread_id (happen_all thread_id w es)
      × Extends thread_id w (happen_all thread_id w es)
unfolding happen_all
journal_durable thread_id w [] whole fair = (whole, ([], sym (rw append-nil)))
journal_durable thread_id w (e ∷ es) whole (fair, rest) =
    let (whole', (more, at)) = happen-Extends thread_id w e whole fair in
    let (whole'', (more', at')) = journal_durable thread_id (happen thread_id w e) es whole' rest in
    (
      whole'',
      (
        more ++ more',
        at'
            ∙ ap (λ events. events ++ more') at
            ∙ append_assoc (settled thread_id w.file).events more more',
      ),
    )
