-- ===== src/Service/Notifying.antt =====
-- codex_service.py: `publish_notification`, from a notification of Codex to the journal and the hub.
use agent_app_server.Base.{
  ◌≡◌, refl, sym, arith, subst, Bool, true, false, Option, none, some, List, String,
  String-discrete, Result, ok, err, any, holds, if◌then◌else◌,
}
use agent_app_server.Json.{Json, Fields, text, object, get, get_or, or_else, as_text, is_empty}
use agent_app_server.Attachments.{PythonError}
use agent_app_server.Hub.{EventEnvelope}
use agent_app_server.Journal.Envelope.{IsRequest}
use agent_app_server.Journal.Writing.{Stamp, opened_values, validate_values}
use agent_app_server.Turns.{TurnManager, ActiveTurn, current}
use agent_app_server.Events.{TextOperations, to_text, unrooted, non_empty}
use agent_app_server.Events.Identity.{normalize_event}
use agent_app_server.Events.Requests.{IsAccepted, normalize_event-IsAccepted}
use agent_app_server.Service.{
  Service, ServiceError, AttachmentView, Normalized, Surroundings, key_of, publish_event,
}
use agent_app_server.Service.Recording.{IsAligned}
use agent_app_server.Service.HandingOver.{IsCalm}
use agent_app_server.Service.Publishing.{IsFresh, Publishes, opening, publish_event-Publishes}

-- `isinstance(fingerprint, str) and fingerprint`
abbrev pub fingerprint_of : Fields → Option String
fingerprint_of values = elim (as_text (get values "notification_fingerprint")) [
  | none ↦ none
  | some s ↦ non_empty s
]

abbrev pub normalized_of : Option Fields → Option Normalized
normalized_of none = none
normalized_of (some values) =
    some (record { values = values; notification_fingerprint = fingerprint_of values })

abbrev pub normalized_result :
    Result PythonError (Option Fields) → Result PythonError (Option Normalized)
normalized_result (err e) = err e
normalized_result (ok made) = ok (normalized_of made)

abbrev pub turn_of : Option ActiveTurn → Option String
turn_of none = none
turn_of (some entry) = entry.turn_id

abbrev pub first_some : Option String → Option String → Option String
first_some none later = later
first_some (some s) later = some s

-- The turn of a notification: the given one, its own, or the active one of the thread.
unfoldable pub notified_turn :
    TextOperations → TurnManager → Service → String → Fields → Option String → Option String
notified_turn t manager s thread_id values given = first_some given (
    first_some
      (non_empty
        (to_text t (or_else (get values "turn_id") (or_else (get values "turnId") (text "")))))
      (turn_of (current manager (key_of s thread_id))))

abbrev pub type_or_self : Json → Json
type_or_self (object fields) = get fields "type"
type_or_self v = v

-- `_thread_status`
unfoldable pub thread_status_of : TextOperations → Fields → Option String
thread_status_of t values = elim (as_text (type_or_self (unrooted (get values "status")))) [
  | none ↦ none
  | some s ↦ if is_empty s then none else some (t.lower s)
]

-- Whether a turn that may have ended unnoticed is looked for.
abbrev pub is_idle : TextOperations → String → Fields → Bool
is_idle t method values =
    if holds (String-discrete method "thread/status/changed")
    then elim (thread_status_of t values) [
      | none ↦ false
      | some s ↦ holds (String-discrete s "idle")
    ]
    else false

-- The answer, the state, and the turn whose reconciliation is scheduled, if one is.
pub record Notified : Type 0 where
  pub result : Result ServiceError (Option (EventEnvelope Fields)) × Service
  pub reconciles : Option (Option String)

abbrev pub scheduled :
    Result ServiceError (Option (EventEnvelope Fields))
    → Bool
    → Option String
    → Option (Option String)
scheduled (err e) idle turn_id = none
scheduled (ok answer) idle turn_id = if idle then some turn_id else none

-- What a call of `_publish` for a notification of Codex makes of it.
unfoldable pub notification_values :
    TextOperations
    → TurnManager
    → Service
    → String
    → String
    → Fields
    → Option String
    → String
    → Result PythonError (Option Fields)
unfolding normalize_event
notification_values t manager s thread_id method values turn_id unique =
    normalize_event t thread_id "codex.notification" method (object values)
      (notified_turn t manager s thread_id values turn_id) "codex_stream" none unique

-- `publish_notification`; `ignored` are the threads whose notifications are dropped.
unfoldable pub publish_notification :
    TextOperations
    → AttachmentView
    → TurnManager
    → List String
    → String
    → String
    → Fields
    → Option String
    → String
    → Surroundings
    → String
    → Service
    → Notified
unfolding thread_status_of
publish_notification t v manager ignored thread_id method values turn_id channel env unique s =
    if any (λ i. holds (String-discrete i thread_id)) ignored
    then record { result = (ok none, s); reconciles = none }
    else let result =
        publish_event t.show v thread_id channel env
          (normalized_result
            (notification_values t manager s thread_id method values turn_id unique))
          s in
      record {
        result = result;
        reconciles =
            scheduled result.0 (is_idle t method values)
              (notified_turn t manager s thread_id values turn_id);
      }

opened_values-IsRequest :
    (opened_key : String) (stamp : Stamp)
    → is_empty opened_key ≡ false
    → is_empty stamp.fresh_id ≡ false
    → is_empty stamp.now ≡ false
    → IsRequest stamp (opened_values opened_key)
unfolding validate_values get get_or String-discrete
opened_values-IsRequest opened_key stamp key id now = record {
  validated = ground arith;
  event_id_text = refl;
  at_text = refl;
  has_fresh_id = id;
  has_now = now;
}

-- The texts that a call brings along are not empty.
pub record AreGiven (env : Surroundings) : Type 0 where
  pub key : is_empty env.opened_key ≡ false
  pub opened_id : is_empty env.opened_stamp.fresh_id ≡ false
  pub opened_now : is_empty env.opened_stamp.now ≡ false
  pub id : is_empty env.stamp.fresh_id ≡ false
  pub now : is_empty env.stamp.now ≡ false

notification_values-IsAccepted :
    (t : TextOperations) (manager : TurnManager) (s : Service) (thread_id method : String)
    (values : Fields) (turn_id : Option String) (unique : String) (stamp : Stamp)
    → is_empty stamp.fresh_id ≡ false
    → is_empty stamp.now ≡ false
    → IsAccepted stamp (notification_values t manager s thread_id method values turn_id unique)
unfolding notification_values String-discrete
notification_values-IsAccepted t manager s thread_id method values turn_id unique stamp id now =
    normalize_event-IsAccepted t thread_id "codex.notification" method (object values)
      (notified_turn t manager s thread_id values turn_id) "codex_stream" none unique stamp refl tt
      id now

publish_notification-heard :
    (t : TextOperations) (v : AttachmentView) (manager : TurnManager) (ignored : List String)
    (thread_id method : String) (values made : Fields) (turn_id : Option String) (channel : String)
    (env : Surroundings) (unique : String) (s : Service)
    → any (λ i. holds (String-discrete i thread_id)) ignored ≡ false
    → notification_values t manager s thread_id method values turn_id unique ≡ ok (some made)
    → (publish_notification t v manager ignored thread_id method values turn_id channel env unique
        s).result
      ≡ publish_event t.show v thread_id channel env
          (ok (some (record { values = made; notification_fingerprint = fingerprint_of made })))
          s
unfolding publish_notification
publish_notification-heard t v manager ignored thread_id method values made turn_id channel env
      unique s heard kept =
    rw (heard, kept) refl

-- A notification that is not ignored and of which an event is kept, on a thread whose project is known
-- and whose journal and hub agree, with identifiers that the journal does not have, while other tasks
-- leave the thread as it is. The opening event is recorded, or its failure is raised, as for an invalid
-- thread id. Then the event is dropped as the echo of another channel, or it is recorded: it is in the
-- journal and handed over, was there before, or its view has raised. What is kept is always valid.
pub publish_notification-Publishes :
    (t : TextOperations) (v : AttachmentView) (manager : TurnManager) (ignored : List String)
    (thread_id method : String) (values made : Fields) (turn_id : Option String) (channel : String)
    (env : Surroundings) (unique : String) (s : Service)
    → any (λ i. holds (String-discrete i thread_id)) ignored ≡ false
    → any (λ p. holds (String-discrete p thread_id)) s.thread_projects ≡ true
    → notification_values t manager s thread_id method values turn_id unique ≡ ok (some made)
    → AreGiven env
    → IsCalm v thread_id
    → IsAligned thread_id s
    → IsFresh thread_id env.opened_stamp (opened_values env.opened_key) s
    → IsFresh thread_id env.stamp made (opening t.show v thread_id env s).1
    → Publishes t.show v thread_id channel env made
        (fingerprint_of made)
        s
        (publish_notification t v manager ignored thread_id method values turn_id channel env unique
          s).result
publish_notification-Publishes t v manager ignored thread_id method values made turn_id channel env
      unique s heard known kept given calm i new fresh =
    let accepted =
      notification_values-IsAccepted t manager s thread_id method values turn_id unique env.stamp
        given.id given.now in
    let request : IsRequest env.stamp made = subst (IsAccepted env.stamp) kept accepted in
    subst (Publishes t.show v thread_id channel env made (fingerprint_of made) s)
      (sym (
        publish_notification-heard t v manager ignored thread_id method values made turn_id channel
          env unique s heard kept))
      (publish_event-Publishes t.show v thread_id channel env made (fingerprint_of made) s known
        calm i
        (opened_values-IsRequest env.opened_key env.opened_stamp given.key given.opened_id
          given.opened_now)
        new request fresh)
