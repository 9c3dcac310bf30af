-- ===== src/Events/Requests.antt =====
-- stream_journal.py: the values that `normalize_event` makes as a request to the journal.
use agent_app_server.Base.{
  ◌≡◌, refl, true, false, not, ◌&&◌, Option, none, some, [], ◌∷◌, String, String-discrete, Result,
  ok, err, ◌>>=◌, arith, is_some,
}
use agent_app_server.Json.{Json, Fields, text, get, get_or, is_empty, is_text_or_none}
use agent_app_server.Attachments.{PythonError}
use agent_app_server.Journal.{is_text_of}
use agent_app_server.Journal.Writing.{Stamp, validate_values}
use agent_app_server.Journal.Envelope.{IsRequest}
use agent_app_server.Events.{TextOperations, json_of}
use agent_app_server.Events.Normalizing.{Body, Notice, read_notice, is_private, body_of}
use agent_app_server.Events.Identity.{
  Identity, identity_of, given_identity, is_whole_message, is_repeatable, normalized_values,
  normalize_body, normalize_notice, normalize_event, or_dash,
}
use agent_app_server.Events.Validity.{
  IsNamed, IsNamedBody, IsNamedResult, not_empty, if_lem, join-IsNamed, body_of-IsNamed,
}

abbrev HasKey : Identity → Type 0
HasKey i = IsNamed i.dedup_key

identity_of-HasKey :
    (t : TextOperations) (unique : String) (n : Notice) (b : Body)
    → HasKey (identity_of t unique n b)
unfolding identity_of
identity_of-HasKey t unique n b =
    let named = join-IsNamed n.thread_id (or_dash n.turn_id) in
    if_lem HasKey (is_whole_message b.kind) (λ _. named (or_dash n.item_id ∷ b.kind ∷ []))
      (λ _.
        if_lem HasKey (is_repeatable b.kind)
          (λ _. named (or_dash n.item_id ∷ b.kind ∷ _ ∷ unique ∷ []))
          (λ _.
            if_lem HasKey (not (is_some n.turn_id) && not (is_some n.item_id))
              (λ _. named (or_dash n.item_id ∷ b.kind ∷ unique ∷ []))
              (λ _. named (or_dash n.item_id ∷ b.kind ∷ []))))

-- A key that is handed in is no empty text.
abbrev pub IsGiven : Option String → Type 0
IsGiven none = Unit
IsGiven (some key) = is_empty key ≡ false

given-key :
    (t : TextOperations) (unique : String) (key : Option String) (n : Notice) (b : Body)
    → IsGiven key
    → is_empty (given_identity t unique key n b).dedup_key ≡ false
given-key t unique (some key) n b given = given
given-key t unique none n b given =
    let made = identity_of t unique n b in
    not_empty made.dedup_key (String-discrete made.dedup_key "") (identity_of-HasKey t unique n b)

json_of-text : (o : Option String) → is_text_or_none (json_of o) ≡ true
json_of-text none = refl
json_of-text (some s) = refl

normalized_values-IsRequest :
    (t : TextOperations) (source : String) (n : Notice) (b : Body) (i : Identity) (stamp : Stamp)
    → is_text_of ("codex_stream" ∷ "codex_history" ∷ []) (text source) ≡ true
    → is_empty b.kind ≡ false
    → is_empty i.dedup_key ≡ false
    → is_empty stamp.fresh_id ≡ false
    → is_empty stamp.now ≡ false
    → IsRequest stamp (normalized_values t source n b i)
unfolding normalized_values validate_values get get_or String-discrete
normalized_values-IsRequest t source n b i stamp known kind key id now = record {
  validated = ground (arith, json_of-text n.turn_id, json_of-text n.item_id);
  event_id_text = refl;
  at_text = refl;
  has_fresh_id = id;
  has_now = now;
}

-- Values that the journal takes, if there are any.
abbrev pub IsAccepted : Stamp → Result PythonError (Option Fields) → Type 0
IsAccepted stamp (err e) = Unit
IsAccepted stamp (ok none) = Unit
IsAccepted stamp (ok (some values)) = IsRequest stamp values

normalize_body-IsAccepted :
    (t : TextOperations) (source : String) (key : Option String) (unique : String) (n : Notice)
    (stamp : Stamp) (made : Option Body)
    → is_text_of ("codex_stream" ∷ "codex_history" ∷ []) (text source) ≡ true
    → IsGiven key
    → is_empty stamp.fresh_id ≡ false
    → is_empty stamp.now ≡ false
    → IsNamedBody made
    → IsAccepted stamp (ok (normalize_body t source key unique n made))
unfolding normalize_body
normalize_body-IsAccepted t source key unique n stamp none known given id now named = tt
normalize_body-IsAccepted t source key unique n stamp (some b) known given id now named =
    normalized_values-IsRequest t source n b (given_identity t unique key n b) stamp known
      (not_empty b.kind (String-discrete b.kind "") named) (given-key t unique key n b given) id now

IsAccepted-after :
    (t : TextOperations) (source : String) (key : Option String) (unique : String) (n : Notice)
    (stamp : Stamp) (made : Result PythonError (Option Body))
    → is_text_of ("codex_stream" ∷ "codex_history" ∷ []) (text source) ≡ true
    → IsGiven key
    → is_empty stamp.fresh_id ≡ false
    → is_empty stamp.now ≡ false
    → IsNamedResult made
    → IsAccepted stamp (made >>= λ b. ok (normalize_body t source key unique n b))
IsAccepted-after t source key unique n stamp (err e) known given id now named = tt
IsAccepted-after t source key unique n stamp (ok made) known given id now named =
    normalize_body-IsAccepted t source key unique n stamp made known given id now named

-- Whatever the notification, if an event is kept of it, its values are a request that the journal accepts,
-- with any identifier and time that are not empty: for one of the two sources, and a key that is not
-- empty where one is handed in.
pub normalize_event-IsAccepted :
    (t : TextOperations) (thread_id event_type method : String) (given : Json)
    (turn_id : Option String) (source : String) (key : Option String) (unique : String)
    (stamp : Stamp)
    → is_text_of ("codex_stream" ∷ "codex_history" ∷ []) (text source) ≡ true
    → IsGiven key
    → is_empty stamp.fresh_id ≡ false
    → is_empty stamp.now ≡ false
    → IsAccepted stamp
        (normalize_event t thread_id event_type method given turn_id source key unique)
unfolding normalize_event normalize_notice
normalize_event-IsAccepted t thread_id event_type method given turn_id source key unique stamp known
      given_key id now =
    let n = read_notice t thread_id event_type method given turn_id in
    if_lem (IsAccepted stamp) (is_private t n) (λ _. tt)
      (λ _.
        IsAccepted-after t source key unique n stamp (body_of t n) known given_key id now
          (body_of-IsNamed t n))
