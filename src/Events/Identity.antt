-- ===== src/Events/Identity.antt =====
-- stream_journal.py, `normalize_event` from its keys on: the key under which an event is recorded once,
-- and the fingerprint by which two channels' reports of it are matched.
use agent_app_server.Base.{
  Bool, not, ◌&&◌, Option, none, some, List, [], ◌∷◌, ◌++◌, String, String-discrete, Result, ok,
  ◌>>=◌, if◌then◌else◌, holds, is_some,
}
use agent_app_server.Json.{Json, Fields, text, object, field, end}
use agent_app_server.Attachments.{PythonError}
use agent_app_server.Texts.{join, is_one_of}
use agent_app_server.Events.{TextOperations, json_of}
use agent_app_server.Events.Normalizing.{Body, Notice, read_notice, is_private, body_of}

abbrev pub or_dash : Option String → String
or_dash none = "-"
or_dash (some s) = s

unfoldable pub without_field : String → Fields → Fields
unfolding String-discrete
without_field key end = end
without_field key (field k v rest) =
    let later = without_field key rest in
    if holds (String-discrete k key) then later else field k v later

-- Types of which equal events may follow each other.
abbrev pub is_repeatable : String → Bool
is_repeatable kind =
    is_one_of
      ("agent_message.delta" ∷ "plan.updated" ∷ "usage.updated" ∷ "thread.status_changed" ∷ []) kind

abbrev pub is_whole_message : String → Bool
is_whole_message kind = is_one_of ("user_message.completed" ∷ "agent_message.completed" ∷ []) kind

-- The key of an event, and its fingerprint if it has one.
pub record Identity : Type 0 where
  pub dedup_key : String
  pub notification_fingerprint : Option String

abbrev pub stable_parts : Notice → Body → List String
stable_parts n b = n.thread_id ∷ or_dash n.turn_id ∷ or_dash n.item_id ∷ b.kind ∷ []

module _ (t : TextOperations) where
  abbrev pub values_fingerprint : Fields → String
  values_fingerprint values = t.fingerprint (object values)

  abbrev pub message_fingerprint : Notice → Body → String
  message_fingerprint n b = join ":" (
      n.thread_id
      ∷ or_dash n.turn_id
      ∷ b.kind
      ∷ values_fingerprint (without_field "item_id" b.values)
      ∷ [])

  -- `unique` is the random identifier.
  unfoldable pub identity_of : String → Notice → Body → Identity
  unfolding join without_field
  identity_of unique n b =
      if is_whole_message b.kind
      then record {
        dedup_key = join ":" (stable_parts n b);
        notification_fingerprint = some (message_fingerprint n b);
      }
      else if is_repeatable b.kind
      then record {
        dedup_key = join ":" (stable_parts n b ++ values_fingerprint b.values ∷ unique ∷ []);
        notification_fingerprint =
            some (join ":" (stable_parts n b ++ values_fingerprint b.values ∷ []));
      }
      else if not (is_some n.turn_id) && not (is_some n.item_id)
      then record {
        dedup_key = join ":" (stable_parts n b ++ unique ∷ []);
        notification_fingerprint = none;
      }
      else record { dedup_key = join ":" (stable_parts n b); notification_fingerprint = none }

  abbrev pub given_identity : String → Option String → Notice → Body → Identity
  given_identity unique (some key) n b = record { dedup_key = key; notification_fingerprint = none }
  given_identity unique none n b = identity_of unique n b

  unfoldable pub normalized_values : String → Notice → Body → Identity → Fields
  normalized_values source n b i = field "type" (text b.kind) (
      field "event_type" (text n.event_type) (
        field "method" (text n.method) (
          field "source" (text source) (
            field "thread_id" (text n.thread_id) (
              field "turn_id" (json_of n.turn_id) (
                field "item_id" (json_of n.item_id) (
                  field "dedup_key" (text i.dedup_key) (
                    field "notification_fingerprint" (json_of i.notification_fingerprint)
                      (field "data" (object b.values) end)))))))))

  unfoldable pub normalize_body :
      String → Option String → String → Notice → Option Body → Option Fields
  unfolding identity_of normalized_values
  normalize_body source dedup_key unique n none = none
  normalize_body source dedup_key unique n (some b) =
      some (normalized_values source n b (given_identity unique dedup_key n b))

  unfoldable pub normalize_notice :
      String → Option String → String → Notice → Result PythonError (Option Fields)
  unfolding is_private body_of normalize_body
  normalize_notice source dedup_key unique n =
      if is_private t n
      then ok none
      else (body_of t n >>= λ made. ok (normalize_body source dedup_key unique n made))

  -- `normalize_event`
  unfoldable pub normalize_event :
      String
      → String
      → String
      → Json
      → Option String
      → String
      → Option String
      → String
      → Result PythonError (Option Fields)
  unfolding read_notice normalize_notice
  normalize_event thread_id event_type method given turn_id source dedup_key unique =
      normalize_notice source dedup_key unique
        (read_notice t thread_id event_type method given turn_id)
