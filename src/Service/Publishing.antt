-- ===== src/Service/Publishing.antt =====
-- codex_service.py, `_publish`: what becomes of the opening event and of the event itself.
use agent_app_server.Base.{
  ◌≡◌, refl, arith, Bool, true, false, Option, none, some, String, String-discrete, Result, ok, err,
  if◌then◌else◌, Bool-cases, inl, inr, any, holds, ℕ,
}
use agent_app_server.Base.Dict
use agent_app_server.Json.{Json, Fields}
use agent_app_server.Hub.{EventEnvelope}
use agent_app_server.Journal.{event_id_of}
use agent_app_server.Journal.Scanning.{has_key}
use agent_app_server.Journal.Commit.{event_to_write}
use agent_app_server.Journal.Envelope.{IsRequest}
use agent_app_server.Journal.Writing.{Stamp, opened_values}
use agent_app_server.Service.{
  Service, ServiceError, AttachmentView, continue, Surroundings, journal_of, record_event, is_echo,
  check_fingerprint, remember_fingerprint, find_project, publish_normalized, publish_event,
}
use agent_app_server.Service.Recording.{IsAligned, Records, events_of, record_event_lem}
use agent_app_server.Service.HandingOver.{IsCalm}

-- The identifier that an append would use is not in the journal.
abbrev pub IsFresh : String → Stamp → Fields → Service → Type 0
IsFresh thread_id stamp values s =
    has_key event_id_of
      (event_id_of (event_to_write thread_id (journal_of s thread_id).file stamp values))
      (events_of s thread_id)
    ≡ false

abbrev remembering : String → String → ℕ → Service → Service
remembering fingerprint channel now s = record s {
  recent_fingerprints = remember_fingerprint fingerprint channel now s.recent_fingerprints;
}

remembering-IsAligned :
    (fingerprint channel thread_id : String) (now : ℕ) (s : Service)
    → IsAligned thread_id s
    → IsAligned thread_id (remembering fingerprint channel now s)
unfolding journal_of
remembering-IsAligned fingerprint channel thread_id now s i = record {
  ready = i.ready;
  agrees = i.agrees;
  behind = i.behind;
}

remembering-IsFresh :
    (fingerprint channel thread_id : String) (now : ℕ) (stamp : Stamp) (values : Fields)
    (s : Service)
    → IsFresh thread_id stamp values s
    → IsFresh thread_id stamp values (remembering fingerprint channel now s)
unfolding journal_of
remembering-IsFresh fingerprint channel thread_id now stamp values s fresh = fresh

-- The call has recorded the event, as `Records` says, and the thread is level afterwards.
abbrev pub IsRecorded :
    (Json → String)
    → AttachmentView
    → String
    → Stamp
    → Fields
    → Service
    → Result ServiceError (Option (EventEnvelope Fields)) × Service
    → Type 0
IsRecorded show v thread_id stamp values s result =
    IsAligned thread_id result.1 × Records show v thread_id stamp values s result

-- The event is the echo of another channel and is dropped, or it is recorded, after its fingerprint was
-- noted if it has one.
abbrev pub Passes :
    (Json → String)
    → AttachmentView
    → String
    → String
    → Surroundings
    → Fields
    → Option String
    → Service
    → Result ServiceError (Option (EventEnvelope Fields)) × Service
    → Type 0
Passes show v thread_id channel env values none s result =
    IsRecorded show v thread_id env.stamp values s result
Passes show v thread_id channel env values (some f) s result =
    if is_echo channel env.now (Dict.get String-discrete s.recent_fingerprints f)
    then result ≡ (ok none, s)
    else IsRecorded show v thread_id env.stamp values (remembering f channel env.now s) result

publish_normalized-Passes :
    (show : Json → String) (v : AttachmentView) (thread_id channel : String) (env : Surroundings)
    (values : Fields) (fingerprint : Option String) (s : Service)
    → IsCalm v thread_id
    → IsAligned thread_id s
    → IsRequest env.stamp values
    → IsFresh thread_id env.stamp values s
    → Passes show v thread_id channel env values fingerprint s (
        publish_normalized show v thread_id channel env
          (some (record { values = values; notification_fingerprint = fingerprint }))
          s)
unfolding check_fingerprint
publish_normalized-Passes show v thread_id channel env values none s calm i request fresh =
    record_event_lem show v thread_id env.stamp values s calm i request fresh
publish_normalized-Passes show v thread_id channel env values (some f) s calm i request fresh =
    elim (Bool-cases (is_echo channel env.now (Dict.get String-discrete s.recent_fingerprints f))) [
      | inl echo ↦ rw echo refl
      | inr new ↦ rw new (
          record_event_lem show v thread_id env.stamp values (remembering f channel env.now s) calm
            (remembering-IsAligned f channel thread_id env.now s i) request
            (remembering-IsFresh f channel thread_id env.now env.stamp values s fresh))
    ]

-- The opening of the journal, as `_publish` begins.
abbrev pub opening :
    (Json → String)
    → AttachmentView
    → String
    → Surroundings
    → Service
    → Result ServiceError (Option (EventEnvelope Fields)) × Service
opening show v thread_id env s =
    record_event show v thread_id env.opened_stamp (opened_values env.opened_key) s

-- What follows an opening: its failure is raised, or the event passes.
abbrev pub Follows :
    (Json → String)
    → AttachmentView
    → String
    → String
    → Surroundings
    → Fields
    → Option String
    → Result ServiceError (Option (EventEnvelope Fields)) × Service
    → Result ServiceError (Option (EventEnvelope Fields)) × Service
    → Type 0
Follows show v thread_id channel env values fingerprint (err e, s) result = result ≡ (err e, s)
Follows show v thread_id channel env values fingerprint (ok _, s) result =
    Passes show v thread_id channel env values fingerprint s result

-- The opening event is recorded, and the event follows it.
abbrev pub Publishes :
    (Json → String)
    → AttachmentView
    → String
    → String
    → Surroundings
    → Fields
    → Option String
    → Service
    → Result ServiceError (Option (EventEnvelope Fields)) × Service
    → Type 0
Publishes show v thread_id channel env values fingerprint s result =
    IsRecorded show v thread_id env.opened_stamp (opened_values env.opened_key) s
      (opening show v thread_id env s)
    × Follows show v thread_id channel env values fingerprint (opening show v thread_id env s)
        result

find_project-known :
    (is_found : Bool) (thread_id : String) (s : Service)
    → any (λ t. holds (String-discrete t thread_id)) s.thread_projects ≡ true
    → find_project is_found thread_id s ≡ (ok tt, s)
unfolding find_project
find_project-known is_found thread_id s known = ground arith

-- The end of `_publish`, after an opening with this outcome.
abbrev finish :
    (Json → String)
    → AttachmentView
    → String
    → String
    → Surroundings
    → Fields
    → Option String
    → Result ServiceError (Option (EventEnvelope Fields)) × Service
    → Result ServiceError (Option (EventEnvelope Fields)) × Service
finish show v thread_id channel env values fingerprint opened = continue opened λ _.
    publish_normalized show v thread_id channel env
      (some (record { values = values; notification_fingerprint = fingerprint }))

finish-Follows :
    (show : Json → String) (v : AttachmentView) (thread_id channel : String) (env : Surroundings)
    (values : Fields) (fingerprint : Option String)
    (opened : Result ServiceError (Option (EventEnvelope Fields)) × Service)
    → IsCalm v thread_id
    → IsAligned thread_id opened.1
    → IsRequest env.stamp values
    → IsFresh thread_id env.stamp values opened.1
    → Follows show v thread_id channel env values fingerprint opened
        (finish show v thread_id channel env values fingerprint opened)
finish-Follows show v thread_id channel env values fingerprint (err e, s) calm i request fresh =
    refl
finish-Follows show v thread_id channel env values fingerprint (ok a, s) calm i request fresh =
    publish_normalized-Passes show v thread_id channel env values fingerprint s calm i request fresh

-- `_publish` of valid values on a thread whose project is known and whose journal and hub agree, with
-- identifiers that the journal does not have, while other tasks leave the thread as it is. The opening
-- event is recorded as one call of an append and its hand-over records any event: if it fails, as for an
-- invalid thread id, the failure is raised. Otherwise an event that another channel reported in the last
-- five seconds is dropped with nothing changed, and any other one is recorded in the same way, so that
-- it is in the journal and handed over, was there before, or its view has raised.
pub publish_event-Publishes :
    (show : Json → String) (v : AttachmentView) (thread_id channel : String) (env : Surroundings)
    (values : Fields) (fingerprint : Option String) (s : Service)
    → any (λ t. holds (String-discrete t thread_id)) s.thread_projects ≡ true
    → IsCalm v thread_id
    → IsAligned thread_id s
    → IsRequest env.opened_stamp (opened_values env.opened_key)
    → IsFresh thread_id env.opened_stamp (opened_values env.opened_key) s
    → IsRequest env.stamp values
    → IsFresh thread_id env.stamp values (opening show v thread_id env s).1
    → Publishes show v thread_id channel env values fingerprint s (
        publish_event show v thread_id channel env
          (ok (some (record { values = values; notification_fingerprint = fingerprint })))
          s)
unfolding publish_event
publish_event-Publishes show v thread_id channel env values fingerprint s known calm i opens new
      request fresh =
    let (aligned, records) =
      record_event_lem show v thread_id env.opened_stamp (opened_values env.opened_key) s calm i
        opens new in
    rw (find_project-known env.is_found thread_id s known) (
      (aligned, records),
      finish-Follows show v thread_id channel env values fingerprint
          (opening show v thread_id env s) calm aligned request fresh,
    )
