-- ===== src/Journal/Envelope.antt =====
-- stream_journal.py, `_append_now`: the record that is built from validated values is an event that
-- the reader accepts.
use agent_app_server.Base.{
  ℕ, ◌≤◌, ◌≡◌, refl, true, false, List, [], ◌∷◌, arith, String, String-discrete, pos, ok,
}
use agent_app_server.Json.{
  Json, Fields, field, end, null, number, boolean, float, text, array, object, get, get_or, or_else,
  is_nonempty_text, is_text_or_none, is_object, is_empty,
}
use agent_app_server.Journal.{
  decoded, is_text_of, is_text, dedup_key_of, is_envelope, judge, judge_object, accepts,
  text_or_empty,
}
use agent_app_server.Journal.Writing.{Stamp, record_of, validate_values}

abbrev pub sources : List String
sources = "codex_stream" ∷ "codex_history" ∷ []

-- What the values must be besides valid: an identifier and a time, where given, are text.
pub record IsRequest (stamp : Stamp) (values : Fields) : Type 0 where
  pub validated : validate_values values ≡ ok tt
  pub event_id_text : is_text_or_none (get values "event_id") ≡ true
  pub at_text : is_text_or_none (get values "at") ≡ true
  pub has_fresh_id : is_empty stamp.fresh_id ≡ false
  pub has_now : is_empty stamp.now ≡ false

or_else-text :
    (j : Json) (s : String)
    → is_text_or_none j ≡ true
    → is_empty s ≡ false
    → is_nonempty_text (or_else j (text s)) ≡ true
unfolding or_else
or_else-text null s h nonempty = ground arith
or_else-text (text t) s h nonempty = ground arith
or_else-text (boolean b) s h nonempty = cc
or_else-text (number n) s h nonempty = cc
or_else-text (float n) s h nonempty = cc
or_else-text (array items) s h nonempty = cc
or_else-text (object fields) s h nonempty = cc

or_else-object : (j : Json) → is_object j ≡ true → is_object (or_else j (object end)) ≡ true
unfolding or_else
or_else-object (object end) h = refl
or_else-object (object (field k v rest)) h = refl
or_else-object null h = cc
or_else-object (text t) h = cc
or_else-object (boolean b) h = cc
or_else-object (number n) h = cc
or_else-object (float n) h = cc
or_else-object (array items) h = cc

data_object :
    (values : Fields) (key : String)
    → is_object (get_or values key (object end)) ≡ true
    → is_object (or_else (get values key) (object end)) ≡ true
unfolding get_or get or_else
data_object end key h = refl
data_object (field k v rest) key h = ground (arith, or_else-object v, data_object rest key)

stream_nonempty : is_empty "codex_stream" ≡ false
unfolding String-discrete
stream_nonempty = refl

history_nonempty : is_empty "codex_history" ≡ false
unfolding String-discrete
history_nonempty = refl

source_nonempty : (j : Json) → is_text_of sources j ≡ true → is_nonempty_text j ≡ true
source_nonempty (text s) h = ground (arith, stream_nonempty, history_nonempty)
source_nonempty null h = cc
source_nonempty (boolean b) h = cc
source_nonempty (number n) h = cc
source_nonempty (float n) h = cc
source_nonempty (array items) h = cc
source_nonempty (object fields) h = cc

abbrev Validated : Fields → Type 0
Validated values =
    (is_nonempty_text (get values "type") ≡ true)
    × (is_nonempty_text (get values "dedup_key") ≡ true)
    × (is_text_of sources (get_or values "source" (text "codex_stream")) ≡ true)
    × (is_object (get_or values "data" (object end)) ≡ true)
    × (is_text_or_none (get values "turn_id") ≡ true)
    × (is_text_or_none (get values "item_id") ≡ true)

validated : (values : Fields) → validate_values values ≡ ok tt → Validated values
unfolding validate_values
validated values h =
    (ground arith, ground arith, ground arith, ground arith, ground arith, ground arith)

key_nonempty :
    (j : Json) → is_nonempty_text j ≡ true → is_nonempty_text (text (text_or_empty j)) ≡ true
key_nonempty (text s) h = h
key_nonempty null h = cc
key_nonempty (boolean b) h = cc
key_nonempty (number n) h = cc
key_nonempty (float n) h = cc
key_nonempty (array items) h = cc
key_nonempty (object fields) h = cc

text_self : (s : String) → is_text s (text s) ≡ true
text_self s = ground arith

-- The record, read field by field.
pub record_fields :
    (thread_id : String) (n : ℕ) (stamp : Stamp) (values : Fields)
    → (get (record_of thread_id n stamp values) "v" ≡ number (pos 1))
      × (get (record_of thread_id n stamp values) "seq" ≡ number (pos n))
      × (get (record_of thread_id n stamp values) "event_id"
          ≡ or_else (get values "event_id") (text stamp.fresh_id))
      × (get (record_of thread_id n stamp values) "dedup_key" ≡ text (dedup_key_of values))
      × (get (record_of thread_id n stamp values) "type" ≡ get values "type")
      × (get (record_of thread_id n stamp values) "source"
          ≡ get_or values "source" (text "codex_stream"))
      × (get (record_of thread_id n stamp values) "thread_id" ≡ text thread_id)
      × (get (record_of thread_id n stamp values) "turn_id" ≡ get values "turn_id")
      × (get (record_of thread_id n stamp values) "item_id" ≡ get values "item_id")
      × (get (record_of thread_id n stamp values) "at" ≡ or_else (get values "at") (text stamp.now))
      × (get (record_of thread_id n stamp values) "data" ≡ or_else (get values "data") (object end))
unfolding record_of get
record_fields thread_id n stamp values =
    (refl, refl, refl, refl, refl, refl, refl, refl, refl, refl, refl)

envelope_of_fields :
    (thread_id : String) (n : ℕ) (stamp : Stamp) (values : Fields)
    → IsRequest stamp values
    → is_envelope thread_id (record_of thread_id n stamp values) ≡ true
unfolding is_envelope
envelope_of_fields thread_id n stamp values i =
    let (v, seq, event_id, key, type, source, thread, turn_id, item_id, at, payload) =
      record_fields thread_id n stamp values in
    let (has_type, has_key, has_source, has_data, turn_text, item_text) =
      validated values i.validated in
    rw (event_id, key, type, source, thread, turn_id, item_id, at, payload)
      (ground (
        arith,
        or_else-text (get values "event_id") stamp.fresh_id i.event_id_text i.has_fresh_id,
        key_nonempty (get values "dedup_key") has_key,
        source_nonempty (get_or values "source" (text "codex_stream")) has_source,
        or_else-text (get values "at") stamp.now i.at_text i.has_now,
        data_object values "data" has_data,
        text_self thread_id,
      ))

judge_of_fields :
    (thread_id : String) (n : ℕ) (stamp : Stamp) (values : Fields)
    → IsRequest stamp values
    → 1 ≤ n
    → judge_object thread_id (record_of thread_id n stamp values)
      ≡ accepts (record_of thread_id n stamp values) n
unfolding judge_object
judge_of_fields thread_id n stamp values i le =
    let (v, seq, event_id, key, type, source, thread, turn_id, item_id, at, payload) =
      record_fields thread_id n stamp values in
    rw (v, seq, envelope_of_fields thread_id n stamp values i) (ground arith)

pub judge-record_of :
    (thread_id : String) (n : ℕ) (stamp : Stamp) (values : Fields)
    → IsRequest stamp values
    → 1 ≤ n
    → judge thread_id (decoded (object (record_of thread_id n stamp values)))
      ≡ accepts (record_of thread_id n stamp values) n
unfolding judge
judge-record_of thread_id n stamp values i le = judge_of_fields thread_id n stamp values i le

pub dedup_key_of-record_of :
    (thread_id : String) (n : ℕ) (stamp : Stamp) (values : Fields)
    → dedup_key_of (record_of thread_id n stamp values) ≡ dedup_key_of values
unfolding record_of get
dedup_key_of-record_of thread_id n stamp values = refl
