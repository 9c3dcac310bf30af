-- ===== src/Service/Viewing.antt =====
-- codex_service.py, the end of `subscribe_events`: the views of the attachments of a replay.
use agent_app_server.Base.{
  ℕ, ◌≡◌, refl, subst, true, false, List, [], ◌∷◌, pos, if◌then◌else◌, Bool-cases, inl, inr, ◌⊎◌,
}
use agent_app_server.Json.{Fields}
use agent_app_server.Hub.{EventEnvelope}
use agent_app_server.Attachments.{PythonError}
use agent_app_server.Base.{sym, Result, ok, err, Result-cases}
use agent_app_server.Service.{
  ServiceError, AttachmentView, python_failed, has_attachments, attachment_event_data, Service,
}
use agent_app_server.Service.Subscribing.{starts_late, view_replay}

-- One event, with its attachments viewed where it has some.
abbrev pub IsShown : AttachmentView → EventEnvelope Fields → EventEnvelope Fields → Type 0
IsShown v e shown =
    (viewed : Fields) × (shown ≡ record e { payload = viewed })
    × (if has_attachments e.payload then v.view e.payload ≡ ok viewed else viewed ≡ e.payload)

abbrev pub AreShown :
    AttachmentView → List (EventEnvelope Fields) → List (EventEnvelope Fields) → Type 0
AreShown v [] [] = Unit
AreShown v (e ∷ es) (x ∷ xs) = IsShown v e x × AreShown v es xs
AreShown v _ _ = ⊥

-- The view of the attachments of one of the events raises `x`.
abbrev pub SomeRaises : AttachmentView → List (EventEnvelope Fields) → PythonError → Type 0
SomeRaises v [] x = ⊥
SomeRaises v (e ∷ es) x =
    ((has_attachments e.payload ≡ true) × (v.view e.payload ≡ err x)) ⊎ SomeRaises v es x

-- The views of a replay have been made, or one of them has raised.
abbrev pub Views :
    AttachmentView
    → List (EventEnvelope Fields)
    → Result ServiceError (List (EventEnvelope Fields)) × Service
    → Type 0
Views v es result =
    ((shown : List (EventEnvelope Fields)) × (s' : Service) × (result ≡ (ok shown, s'))
      × AreShown v es shown)
    ⊎ ((x : PythonError) × (s' : Service) × (result ≡ (err (python_failed x), s'))
        × SomeRaises v es x)

view_replay-next :
    (v : AttachmentView) (e : EventEnvelope Fields) (es : List (EventEnvelope Fields))
    (s after : Service) (viewed : Fields)
    → (if has_attachments e.payload then attachment_event_data v e.payload s else (ok e.payload, s))
      ≡ (ok viewed, after)
    → (if has_attachments e.payload then v.view e.payload ≡ ok viewed else viewed ≡ e.payload)
    → Views v es (view_replay v es after)
    → Views v (e ∷ es) (view_replay v (e ∷ es) s)
unfolding view_replay
view_replay-next v e es s after viewed made shows later = elim later [
  | inl (rest, s', done, shown) ↦ inl (
    record e { payload = viewed } ∷ rest,
    s',
    rw (made, done, view_replay) refl,
    ((viewed, refl, shows), shown),
  )
  | inr (x, s', failed, raises) ↦ inr (x, s', rw (made, failed, view_replay) refl, inr raises)
]

view_replay-raised :
    (v : AttachmentView) (e : EventEnvelope Fields) (es : List (EventEnvelope Fields))
    (s after : Service) (x : ServiceError)
    → (if has_attachments e.payload then attachment_event_data v e.payload s else (ok e.payload, s))
      ≡ (err x, after)
    → view_replay v (e ∷ es) s ≡ (err x, after)
unfolding view_replay
view_replay-raised v e es s after x made = rw (made, view_replay) refl

pub view_replay-Views :
    (v : AttachmentView) (es : List (EventEnvelope Fields)) (s : Service)
    → Views v es (view_replay v es s)
unfolding view_replay attachment_event_data
view_replay-Views v [] s = inl ([], s, refl, tt)
view_replay-Views v (e ∷ es) s = elim (Bool-cases (has_attachments e.payload)) [
  | inr bare ↦
      view_replay-next v e es s s e.payload (rw bare refl) (rw bare refl) (view_replay-Views v es s)
  | inl has ↦ elim (Result-cases (v.view e.payload)) [
    | inl (viewed, made) ↦
        view_replay-next v e es s (v.pause s) viewed (rw (has, made, attachment_event_data) refl)
          (rw has made) (view_replay-Views v es (v.pause s))
    | inr (x, failed) ↦ inr (
      x,
      v.pause s,
      view_replay-raised v e es s (v.pause s) (python_failed x)
          (rw (has, failed, attachment_event_data) refl),
      inl (has, failed),
    )
  ]
]

pub starts_late-shown :
    (v : AttachmentView) (n : ℕ) (es shown : List (EventEnvelope Fields))
    → AreShown v es shown
    → starts_late (pos n) es ≡ false
    → starts_late (pos n) shown ≡ false
starts_late-shown v n [] [] shows start = refl
starts_late-shown v n [] (x ∷ xs) shows start = absurd shows
starts_late-shown v n (e ∷ es) [] shows start = absurd shows
starts_late-shown v n (e ∷ es) (x ∷ xs) ((viewed, same, _), _) start =
    subst (λ y. starts_late (pos n) (y ∷ xs) ≡ false) (sym same) start
