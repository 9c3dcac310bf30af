-- ===== src/Service/Calls.antt =====
-- codex_service.py: a notification on a new thread.
use agent_app_server.Base.{
  ◌≡◌, refl, arith, true, false, none, some, [], ◌∷◌, String-discrete, ok, any, holds,
}
use agent_app_server.Base.Dict
use agent_app_server.Json.{Fields, field, end, text, object, get, get_or, or_else, find_field}
use agent_app_server.Hub.{EventHub, state, current_sequence}
use agent_app_server.Journal.{scan_lines, accept, judge, judge_object, is_envelope}
use agent_app_server.Journal.Writing.{opened_values, validate_values}
use agent_app_server.Journal.Envelope.{IsRequest}
use agent_app_server.Texts.{join}
use agent_app_server.Turns
use agent_app_server.Events.{TextOperations}
use agent_app_server.Events.Normalizing.{is}
use agent_app_server.Service.{
  Service, AttachmentView, Surroundings, journal_of, record_event, publish_event,
}
use agent_app_server.Service.Recording.{IsAligned}
use agent_app_server.Service.HandingOver.{IsCalm}
use agent_app_server.Service.Publishing.{IsFresh, Publishes, opening, publish_event-Publishes}
use agent_app_server.Service.Notifying.{
  AreGiven, fingerprint_of, notification_values, publish_notification,
  publish_notification-Publishes,
}

abbrev plain : TextOperations
plain = record {
  show = λ v. "{}";
  lower = λ s. s;
  redact = λ s. s;
  is_sensitive = λ key. is "password" key;
  dump = λ v. "{}";
  fingerprint = λ v. "f";
}

-- A view that changes nothing, and no other task.
abbrev unchanged : AttachmentView
unchanged = record { view = λ d. ok d; pause = λ s. s }

unchanged-IsCalm : IsCalm unchanged "t1"
unchanged-IsCalm s = (refl, refl)

abbrev new_hub : EventHub Fields
new_hub = record {
  history_limit = 2;
  subscriber_queue_limit = 1;
  threads = [];
  subscriptions = [];
  next_id = 0;
  dropped_subscribers = 0;
}

abbrev new_service : Service
new_service = record {
  tenant_id = some "ann";
  event_hub = new_hub;
  journals = [];
  thread_projects = "t1" ∷ [];
  recent_fingerprints = [];
}

abbrev surroundings : Surroundings
surroundings = record {
  is_found = true;
  opened_key = "t1:journal.opened";
  opened_stamp = record { fresh_id = "evt-1"; now = "now" };
  stamp = record { fresh_id = "evt-2"; now = "now" };
  now = 0;
}

abbrev delta : Fields
delta = field "delta" (text "Hi") (field "turnId" (text "u1") end)

abbrev kept : Fields
kept = field "type" (text "agent_message.delta") (
    field "event_type" (text "codex.notification") (
      field "method" (text "item/agentMessage/delta") (
        field "source" (text "codex_stream") (
          field "thread_id" (text "t1") (
            field "turn_id" (text "u1") (
              field "item_id" (text "agent-u1") (
                field "dedup_key" (text "t1:u1:agent-u1:agent_message.delta:f:x") (
                  field "notification_fingerprint" (text "t1:u1:agent-u1:agent_message.delta:f") (
                    field "data"
                      (object (field "delta" (text "Hi") (field "item_id" (text "agent-u1") end)))
                      end)))))))))

delta_kept :
    notification_values plain Turns.init new_service "t1" "item/agentMessage/delta" delta none "x"
    ≡ ok (some kept)
unfolding notification_values String-discrete get or_else find_field join
delta_kept = refl

new_service-IsAligned : IsAligned "t1" new_service
unfolding scan_lines state journal_of Dict.get
new_service-IsAligned = record { ready = tt; agrees = tt; behind = omega arith }

is_heard : any (λ i. holds (String-discrete i "t1")) ("t2" ∷ []) ≡ false
unfolding String-discrete
is_heard = refl

is_known : any (λ p. holds (String-discrete p "t1")) new_service.thread_projects ≡ true
unfolding String-discrete
is_known = refl

all_given : AreGiven surroundings
unfolding String-discrete
all_given = record { key = refl; opened_id = refl; opened_now = refl; id = refl; now = refl }

opening_unused :
    IsFresh "t1" surroundings.opened_stamp (opened_values "t1:journal.opened") new_service
unfolding scan_lines journal_of Dict.get
opening_unused = refl

kept_unused :
    IsFresh "t1" surroundings.stamp kept
      (opening plain.show unchanged "t1" surroundings new_service).1
unfolding record_event scan_lines journal_of Dict.get String-discrete get get_or or_else judge
    judge_object is_envelope accept current_sequence state Dict.put
kept_unused = refl

publish_notification-Publishes_example :
    Publishes plain.show unchanged "t1" "global" surroundings kept
      (fingerprint_of kept)
      new_service
      (publish_notification plain unchanged Turns.init
        ("t2" ∷ [])
        "t1"
        "item/agentMessage/delta"
        delta
        none
        "global"
        surroundings
        "x"
        new_service).result
publish_notification-Publishes_example =
    publish_notification-Publishes plain unchanged Turns.init ("t2" ∷ []) "t1"
      "item/agentMessage/delta" delta kept none "global" surroundings "x" new_service is_heard
      is_known delta_kept all_given unchanged-IsCalm new_service-IsAligned opening_unused
      kept_unused

opening-IsRequest : IsRequest surroundings.opened_stamp (opened_values "t1:journal.opened")
unfolding validate_values get get_or String-discrete
opening-IsRequest = record {
  validated = refl;
  event_id_text = refl;
  at_text = refl;
  has_fresh_id = refl;
  has_now = refl;
}

kept-IsRequest : IsRequest surroundings.stamp kept
unfolding validate_values get get_or String-discrete
kept-IsRequest = record {
  validated = refl;
  event_id_text = refl;
  at_text = refl;
  has_fresh_id = refl;
  has_now = refl;
}

publish_event-Publishes_example :
    Publishes plain.show unchanged "t1" "global" surroundings kept (some "f") new_service (
      publish_event plain.show unchanged "t1" "global" surroundings
        (ok (some (record { values = kept; notification_fingerprint = some "f" })))
        new_service)
publish_event-Publishes_example =
    publish_event-Publishes plain.show unchanged "t1" "global" surroundings kept (some "f")
      new_service is_known unchanged-IsCalm new_service-IsAligned opening-IsRequest opening_unused
      kept-IsRequest kept_unused
