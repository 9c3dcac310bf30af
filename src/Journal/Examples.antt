-- ===== src/Journal/Examples.antt =====
-- stream_journal.py: the theorems at small files.
use agent_app_server.Base.{
  ℕ, ◌+◌, ◌≡◌, ◌↔◌, refl, false, none, some, List, [], ◌∷◌, String, String-discrete, pos, ok,
}
use agent_app_server.Json.{Fields, field, end, number, text, object, get, get_or, or_else}
use agent_app_server.Journal.{
  blank, undecodable, decoded, Content, complete, scan, scan_lines, accept, judge, judge_object,
  is_envelope, has_tail, all_lines, one_of,
}
use agent_app_server.Journal.Lifecycle.{
  Stored, stored, coverage_of, complete_stream_turn_ids, has_boundaries, is_stream,
}
use agent_app_server.Journal.Scanning.{IsScan, scan-IsScan}
use agent_app_server.Journal.Grouping.{of_turn, complete_stream_turn_ids_lem}
use agent_app_server.Journal.Reading.{Covers, coverage_of_lem}
use agent_app_server.Journal.Whole.{Counts, objects, scan_whole}
use agent_app_server.Journal.Writing.{
  Writer, JournalAppend, Stamp, append_checked, validate_values, record_of,
}
use agent_app_server.Journal.Envelope.{IsRequest}
use agent_app_server.Journal.Append.{settled, event_with}
use agent_app_server.Journal.Commit.{
  IsNew, Commits, Repeats, event_to_write, append_new, append_again,
}
use agent_app_server.Journal.Queue.{AppendRequest, IsDrained, drain, drain_lem}
use agent_app_server.Base.Dict.{Dict}
use agent_app_server.Base.{Bool, true}
use agent_app_server.Journal.Durable.{
  JournalEvent, appends, tears, restarts, happen, happen_all, AllFair, IsWhole, Extends,
  journal_durable,
}
use agent_app_server.Base.{select}

abbrev event : ℕ → String → String → String → String → Fields
event n id key type source = field "v" (number (pos 1)) (
    field "seq" (number (pos n)) (
      field "event_id" (text id) (
        field "dedup_key" (text key) (
          field "type" (text type) (
            field "source" (text source) (
              field "thread_id" (text "t1") (
                field "turn_id" (text "turn-1")
                  (field "at" (text "now") (field "data" (object end) end)))))))))

abbrev started : Fields
started = event 1 "e1" "k1" "turn.started" "codex_stream"

abbrev finished : Fields
finished = event 2 "e2" "k2" "turn.completed" "codex_stream"

abbrev two_lines : Content
two_lines = record {
  lines = decoded (object started) ∷ blank ∷ decoded (object finished) ∷ [];
  tail = none;
}

abbrev torn : Content
torn = record {
  lines = decoded (object started) ∷ undecodable ∷ decoded (object started) ∷ [];
  tail = some undecodable;
}

scan-IsScan_example : IsScan "t1" (scan "t1" torn)
scan-IsScan_example = scan-IsScan "t1" torn

two_lines_sound : (scan "t1" two_lines).damaged ≡ false
unfolding scan judge judge_object is_envelope get accept
two_lines_sound = refl

scan_whole_example :
    (has_tail two_lines ≡ false)
    × ((scan "t1" two_lines).events ≡ objects (all_lines two_lines))
    × Counts 1 (scan "t1" two_lines).events ((scan "t1" two_lines).high_water + 1)
scan_whole_example = scan_whole "t1" two_lines two_lines_sound

coverage_of_lem_example :
    coverage_of false (started ∷ finished ∷ []) ≡ complete ↔ Covers false (started ∷ finished ∷ [])
coverage_of_lem_example = coverage_of_lem false (started ∷ finished ∷ [])

complete_stream_turn_ids_lem_example :
    one_of (complete_stream_turn_ids (started ∷ finished ∷ [])) "turn-1"
    ≡ has_boundaries (select (of_turn "turn-1") (select is_stream (started ∷ finished ∷ [])))
complete_stream_turn_ids_lem_example =
    complete_stream_turn_ids_lem (started ∷ finished ∷ []) "turn-1"

abbrev values : Fields
values =
    field "type" (text "turn.completed")
      (field "dedup_key" (text "k2") (field "turn_id" (text "turn-1") end))

abbrev again : Fields
again = field "type" (text "turn.started") (field "dedup_key" (text "k1") end)

abbrev stamp : Stamp
stamp = record { fresh_id = "evt-2"; now = "later" }

abbrev file : Stored
file = stored (record { lines = decoded (object started) ∷ []; tail = some undecodable })

values-IsRequest : IsRequest stamp values
unfolding validate_values get get_or String-discrete
values-IsRequest = record {
  validated = refl;
  event_id_text = refl;
  at_text = refl;
  has_fresh_id = refl;
  has_now = refl;
}

values-IsNew : IsNew "t1" file stamp values
unfolding scan_lines judge judge_object is_envelope get get_or or_else accept record_of
    String-discrete
values-IsNew = (refl, refl)

append_new_example :
    (result : Writer × JournalAppend) × (append_checked "t1" stamp values
        (record { file = file; state = none })
      ≡ ok result)
    × Commits "t1" file result (event_to_write "t1" file stamp values)
append_new_example =
    append_new "t1" file none stamp values (λ e. cc) tt values-IsRequest values-IsNew

again_found : event_with "k1" (settled "t1" file).events ≡ some started
unfolding scan_lines judge judge_object is_envelope get accept String-discrete
again_found = refl

append_again_example :
    (result : Writer × JournalAppend) × (append_checked "t1" stamp again
        (record { file = file; state = none })
      ≡ ok result)
    × Repeats "t1" file result started
unfolding get String-discrete
append_again_example = append_again "t1" file none stamp again started (λ e. cc) tt again_found

-- An append between torn writes, then a restart.
abbrev fresh : Writer
fresh = record { file = file; state = none }

abbrev events : List JournalEvent
events = tears undecodable ∷ appends stamp values ∷ tears undecodable ∷ restarts ∷ []

events-AllFair : AllFair "t1" fresh events
unfolding scan_lines judge judge_object is_envelope get get_or or_else accept record_of
    String-discrete happen
events-AllFair = (tt, ((values-IsRequest, refl), (tt, (tt, tt))))

journal_durable_example :
    IsWhole "t1" (happen_all "t1" fresh events) × Extends "t1" fresh (happen_all "t1" fresh events)
journal_durable_example = journal_durable "t1" fresh events ((λ e. cc), tt) events-AllFair

-- A queue of two threads: a new event, a cancelled request, a thread id that is refused, and a repeated
-- key.
abbrev request : String → Fields → Bool → AppendRequest
request thread_id values is_cancelled = record {
  thread_id = thread_id;
  stamp = stamp;
  values = values;
  is_cancelled = is_cancelled;
}

abbrev queue : List AppendRequest
queue =
    request "t1" values false
    ∷ request "t2" values true
    ∷ request "../t1" values false
    ∷ request "t1" again false
    ∷ []

abbrev writers : Dict String Writer
writers = ("t1", fresh) ∷ []

drain_lem_example : IsDrained "t1" queue writers (drain queue writers)
drain_lem_example = drain_lem queue writers "t1"
