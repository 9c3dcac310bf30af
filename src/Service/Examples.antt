-- ===== src/Service/Examples.antt =====
-- codex_service.py: the theorems at a service with one thread.
use agent_app_server.Attachments.{PythonError}
use agent_app_server.Base.{
  Result, true, ◌++◌, ◌∷◌, ℕ, ◌≤◌, ◌≡◌, refl, false, none, some, [], ◌∷◌, String, String-discrete,
  pos, ok, err, arith,
}
use agent_app_server.Base.Dict
use agent_app_server.Json.{
  Json, array, cons, nil, or_else, Fields, field, end, number, text, object, get, get_or,
}
use agent_app_server.Hub.{EventHub, not_increasing, state}
use agent_app_server.Hub.History.{no_events-IsHistory}
use agent_app_server.Journal.{
  decoded, Content, scan, scan_lines, accept, judge, judge_object, is_envelope, event_id_of,
}
use agent_app_server.Journal.Lifecycle.{stored, read_content}
use agent_app_server.Journal.Scanning.{has_key}
use agent_app_server.Journal.Writing.{
  Stamp, opened_values, validate_values, record_of, is_thread_id, are_thread_chars,
}
use agent_app_server.Journal.Envelope.{IsRequest}
use agent_app_server.Journal.Commit.{IsNew, event_to_write}
use agent_app_server.Service.{
  Service, AttachmentView, needs_view, record_data, hub_failed, journal_of, key_of, record_event,
  record_thread,
}
use agent_app_server.Service.Recording.{IsAligned, Records, events_of, record_event_lem}
use agent_app_server.Service.HandingOver.{IsCalm}
use agent_app_server.Service.Subscribing.{subscribe_events}
use agent_app_server.Service.Replaying.{Replays, subscribe-Replays}
use agent_app_server.Service.Overtaking.{read_during, record_event-overtaken}

abbrev show : Json → String
show v = "?"

-- A view that changes nothing, and no other task.
abbrev view : Fields → Result PythonError Fields
view d = ok d

abbrev plain_view : AttachmentView
plain_view = record { view = view; pause = λ s. s }

plain-IsCalm : IsCalm plain_view "t1"
plain-IsCalm s = (refl, refl)

abbrev hub : EventHub Fields
hub = record {
  history_limit = 2;
  subscriber_queue_limit = 1;
  threads = [];
  subscriptions = [];
  next_id = 0;
  dropped_subscribers = 0;
}

abbrev fresh : Service
fresh = record {
  tenant_id = some "ann";
  event_hub = hub;
  journals = [];
  thread_projects = "t1" ∷ [];
  recent_fingerprints = [];
}

abbrev stamp : Stamp
stamp = record { fresh_id = "evt-1"; now = "now" }

abbrev opening : Fields
opening = opened_values "t1:journal.opened"

opening-IsRequest : IsRequest stamp opening
unfolding validate_values get get_or String-discrete
opening-IsRequest = record {
  validated = refl;
  event_id_text = refl;
  at_text = refl;
  has_fresh_id = refl;
  has_now = refl;
}

fresh-IsAligned : IsAligned "t1" fresh
unfolding scan_lines state journal_of Dict.get
fresh-IsAligned = record { ready = tt; agrees = tt; behind = omega arith }

opening_unused :
    has_key event_id_of
      (event_id_of (event_to_write "t1" (journal_of fresh "t1").file stamp opening))
      (events_of fresh "t1")
    ≡ false
unfolding scan_lines journal_of Dict.get
opening_unused = refl

record_event_lem_example :
    IsAligned "t1" (record_event show plain_view "t1" stamp opening fresh).1
    × Records show plain_view "t1" stamp opening fresh
        (record_event show plain_view "t1" stamp opening fresh)
record_event_lem_example =
    record_event_lem show plain_view "t1" stamp opening fresh plain-IsCalm fresh-IsAligned
      opening-IsRequest opening_unused

abbrev event : ℕ → String → String → Fields
event n id type = field "v" (number (pos 1)) (
    field "seq" (number (pos n)) (
      field "event_id" (text id) (
        field "dedup_key" (text id) (
          field "type" (text type) (
            field "source" (text "codex_stream") (
              field "thread_id" (text "t1")
                (field "at" (text "now") (field "data" (object end) end))))))))

abbrev content : Content
content = record {
  lines =
      decoded (object (event 1 "e1" "turn.started"))
      ∷ decoded (object (event 2 "e2" "turn.completed"))
      ∷ [];
  tail = none;
}

-- A journal from an earlier run, and a hub that has not seen it.
abbrev restarted : Service
restarted = record fresh { journals = ("t1", record { file = stored content; state = none }) ∷ [] }

restarted_file : (journal_of restarted "t1").file ≡ stored content
unfolding journal_of Dict.get String-discrete
restarted_file = refl

content_undamaged : (scan "t1" content).damaged ≡ false
unfolding scan judge judge_object is_envelope get accept
content_undamaged = refl

content_reached : 1 ≤ (scan "t1" content).high_water
unfolding scan judge judge_object is_envelope get accept
content_reached = omega arith

hub_is_level : (state hub (key_of restarted "t1")).sequence ≤ (scan "t1" content).high_water
unfolding scan judge judge_object is_envelope get accept state Dict.get
hub_is_level = omega arith

subscribe-Replays_example :
    Replays show plain_view 1
      (read_content "t1" content)
      (subscribe_events show plain_view "t1" (some (pos 1)) restarted).0
unfolding state Dict.get
subscribe-Replays_example =
    subscribe-Replays show plain_view restarted "t1" content 1 2 [] restarted_file content_undamaged
      content_reached (no_events-IsHistory 2 0 []) hub_is_level

-- An event with an attachment.
abbrev attached : Fields
attached = field "attachments" (array (cons (object (field "id" (text "a1") end)) nil)) end

abbrev user_message : Fields
user_message =
    field "type" (text "user_message.submitted")
      (field "dedup_key" (text "k1") (field "data" (object attached) end))

user_message-IsRequest : IsRequest stamp user_message
unfolding validate_values get get_or String-discrete
user_message-IsRequest = record {
  validated = refl;
  event_id_text = refl;
  at_text = refl;
  has_fresh_id = refl;
  has_now = refl;
}

user_message-IsNew : IsNew "t1" (journal_of fresh "t1").file stamp user_message
unfolding scan_lines journal_of Dict.get
user_message-IsNew = (refl, refl)

t1_named : is_thread_id "t1" ≡ true
unfolding is_thread_id are_thread_chars
t1_named = refl

user_message_viewed :
    needs_view show (event_to_write "t1" (journal_of fresh "t1").file stamp user_message) fresh
    ≡ true
unfolding needs_view scan_lines journal_of Dict.get record_of get get_or or_else String-discrete
    record_thread record_data
user_message_viewed = refl

user_message_made :
    view (record_data (event_to_write "t1" (journal_of fresh "t1").file stamp user_message))
    ≡ ok attached
unfolding scan_lines journal_of Dict.get record_of get get_or or_else String-discrete record_data
user_message_made = refl

record_event-overtaken_example :
    let r = event_to_write "t1" (journal_of fresh "t1").file stamp user_message in
    let (answer, s') = record_event show (read_during "t1" view) "t1" stamp user_message fresh in
    (answer ≡ err (hub_failed not_increasing))
    × (events_of s' "t1" ≡ events_of fresh "t1" ++ r ∷ [])
    × ((state s'.event_hub (key_of fresh "t1")).history
        ≡ (state fresh.event_hub (key_of fresh "t1")).history)
    × (s'.event_hub.subscriptions ≡ fresh.event_hub.subscriptions)
record_event-overtaken_example =
    record_event-overtaken show view "t1" stamp user_message attached fresh fresh-IsAligned t1_named
      user_message-IsRequest user_message-IsNew user_message_viewed user_message_made
