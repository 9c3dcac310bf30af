-- ===== src/Journal/Lifecycle.antt =====
-- stream_journal.py: turns in a journal, their lifecycle boundaries, and the reader's result.
use agent_app_server.Base.{
  Bool, true, false, ◌&&◌, not, Option, none, some, List, [], ◌∷◌, ◌++◌, String, String-discrete,
  if◌then◌else◌, any, all, select,
}
use agent_app_server.Base.Dict
use agent_app_server.Base.Dict.{Dict, values}
use agent_app_server.Json.{Json, Fields, get, text, is_empty}
use agent_app_server.Journal.{
  Coverage, complete, partial, absent, Content, JournalRead, is_text, is_text_of, scan,
}

abbrev pub terminal_types : List String
terminal_types = "turn.completed" ∷ "turn.error" ∷ "turn.interrupted" ∷ []

-- `isinstance(turn_id, str) and turn_id`
abbrev pub as_turn_id : Json → Option String
as_turn_id (text s) = if is_empty s then none else some s
as_turn_id _ = none

abbrev pub turn_id_of : Fields → Option String
turn_id_of event = as_turn_id (get event "turn_id")

abbrev pub has_type : String → Fields → Bool
has_type t event = is_text t (get event "type")

abbrev pub is_terminal : Fields → Bool
is_terminal event = is_text_of terminal_types (get event "type")

abbrev pub is_stream : Fields → Bool
is_stream event = is_text "codex_stream" (get event "source")

-- `turns[turn_id].append(event)` of a `defaultdict(list)`.
unfoldable pub add_to_turn : Dict String (List Fields) → String → Fields → Dict String (List Fields)
add_to_turn turns turn_id event =
    Dict.put String-discrete turns turn_id
      (elim (Dict.get String-discrete turns turn_id) [ none ↦ [] | some es ↦ es ] ++ event ∷ [])

unfoldable pub group_turns : Dict String (List Fields) → List Fields → Dict String (List Fields)
unfolding add_to_turn
group_turns turns [] = turns
group_turns turns (event ∷ events) =
    group_turns (elim (turn_id_of event) [ none ↦ turns | some t ↦ add_to_turn turns t event ])
      events

abbrev pub has_boundaries : List Fields → Bool
has_boundaries events = any (has_type "turn.started") events && any is_terminal events

abbrev pub is_nil : List Fields → Bool
is_nil [] = true
is_nil (e ∷ es) = false

-- A turn with stream events is judged by those alone.
unfoldable pub is_complete_turn : List Fields → Bool
is_complete_turn events =
    let stream_events = select is_stream events in
    if is_nil stream_events then has_boundaries events else has_boundaries stream_events

abbrev pub is_domain : Fields → Bool
is_domain event = not (has_type "journal.opened" event)

abbrev pub no_turns : Dict String (List Fields) → Bool
no_turns [] = true
no_turns (t ∷ ts) = false

unfoldable pub coverage_of : Bool → List Fields → Coverage
unfolding group_turns is_complete_turn
coverage_of damaged events =
    let domain = select is_domain events in
    let turns = group_turns [] domain in
    if damaged
    then partial
    else if is_nil domain
    then absent
    else if no_turns turns
    then (if any (has_type "history.baseline_imported") domain then complete else partial)
    else (if all is_complete_turn (values turns) then complete else partial)

-- `_read_file` of a file that exists and can be read.
unfoldable pub read_content : String → Content → JournalRead
unfolding coverage_of
read_content thread_id content =
    let s = scan thread_id content in
    record {
      events = s.events;
      cursor = s.high_water;
      coverage = coverage_of s.damaged s.events;
      damaged = s.damaged;
      exists = true;
    }

-- The file as the operating system presents it.
pub data Stored : Type 0 where
  missing : Stored
  unreadable : Stored
  stored : Content → Stored

unfoldable pub read_file : String → Stored → JournalRead
unfolding read_content
read_file thread_id missing = record {
  events = [];
  cursor = 0;
  coverage = absent;
  damaged = false;
  exists = false;
}
read_file thread_id unreadable = record {
  events = [];
  cursor = 0;
  coverage = partial;
  damaged = true;
  exists = true;
}
read_file thread_id (stored content) = read_content thread_id content

-- `complete_stream_turn_ids`: the keys whose stream events have both boundaries.
unfoldable pub complete_turns : Dict String (List Fields) → List String
complete_turns [] = []
complete_turns ((t, events) ∷ turns) =
    let rest = complete_turns turns in if has_boundaries events then t ∷ rest else rest

unfoldable pub complete_stream_turn_ids : List Fields → List String
unfolding complete_turns group_turns
complete_stream_turn_ids events = complete_turns (group_turns [] (select is_stream events))
