-- ===== src/Journal/Append.antt =====
-- stream_journal.py, `_append_now`: what an append leaves in the file, as the reader reads it.
use mathlib.Core.List.{append-nil}
use agent_app_server.Base.{
  ◌+◌, ◌≡◌, refl, ap, subst, ◌∙◌, true, false, ◌||◌, Option, none, some, List, [], ◌∷◌, ◌++◌, arith,
  String, String-discrete, ok, if◌then◌else◌, ltb, is_some, ite, All,
}
use agent_app_server.Base.Dict
use agent_app_server.Base.Dict.{Dict}
use agent_app_server.Json.{
  Json, null, boolean, number, float, text, array, Fields, object, is_empty, get, is_nonempty_text,
}
use agent_app_server.Journal.{
  Line, decoded, Content, Scan, scan, scan_line, scan_lines, scan_start, scan_verdict, accept,
  dedup_key_of, event_id_of, is_envelope, text_or_empty,
}
use agent_app_server.Journal.Lifecycle.{
  Stored, missing, unreadable, stored, read_file, read_content,
}
use agent_app_server.Journal.Scanning.{
  IsScan, scan_lines-IsScan, scan_start-IsScan, has_key, NoRepeat, IsEvent,
}
use agent_app_server.Journal.Writing.{
  WriterState, Stamp, drop_tail, prepare, index_events, writer_state, record_of, write_line,
}
use agent_app_server.Journal.Envelope.{IsRequest, judge-record_of}

-- The event of the list with this key.
abbrev pub event_with : String → List Fields → Option Fields
event_with k [] = none
event_with k (e ∷ es) = ite (String-discrete (dedup_key_of e) k) (some e) (event_with k es)

-- The terminated lines of a file, and the scan of those alone.
abbrev pub committed : Stored → List Line
committed missing = []
committed unreadable = []
committed (stored content) = content.lines

abbrev pub settled : String → Stored → Scan
settled thread_id file = scan_lines thread_id (scan_start false) (committed file)

-- The writer's memory agrees with the terminated lines of its file.
pub record Matches (thread_id : String) (file : Stored) (state : WriterState) : Type 0 where
  pub counts : state.next_sequence ≡ (settled thread_id file).high_water + 1
  pub finds :
      (k : String)
      → Dict.get String-discrete state.dedup_events k ≡ event_with k (settled thread_id file).events

abbrev pub Agrees : String → Stored → Option WriterState → Type 0
Agrees thread_id file none = Unit
Agrees thread_id file (some state) = Matches thread_id file state

pub event_with-has_key :
    (k : String) (es : List Fields) → is_some (event_with k es) ≡ has_key dedup_key_of k es
event_with-has_key k [] = refl
event_with-has_key k (e ∷ es) = ground (arith, event_with-has_key k es)

pub event_with-append :
    (k : String) (es : List Fields) (e : Fields)
    → has_key dedup_key_of (dedup_key_of e) es ≡ false
    → event_with k (es ++ e ∷ [])
      ≡ ite (String-discrete (dedup_key_of e) k) (some e) (event_with k es)
event_with-append k [] e new = refl
event_with-append k (x ∷ es) e new =
    ground (arith, event_with-append k es e, event_with-has_key k es)

abbrev or_get : Option Fields → Option Fields → Option Fields
or_get none o = o
or_get (some e) o = some e

or_get-nil : (k : String) (o : Option Fields) → or_get o (Dict.get String-discrete [] k) ≡ o
unfolding Dict.get
or_get-nil k none = refl
or_get-nil k (some e) = refl

get-index_events :
    (k : String) (es : List Fields) (index : Dict String Fields)
    → NoRepeat dedup_key_of es
    → All (λ e. is_empty (dedup_key_of e) ≡ false) es
    → Dict.get String-discrete (index_events es index) k
      ≡ or_get (event_with k es) (Dict.get String-discrete index k)
unfolding index_events
get-index_events k [] index d n = refl
get-index_events k (e ∷ es) index d n =
    get-index_events k es
      (if is_empty (dedup_key_of e)
        then index
        else Dict.put String-discrete index (dedup_key_of e) e)
      d.1 n.1
    ∙ ground (
      arith,
      n.0,
      d.0,
      Dict.get-put String-discrete index (dedup_key_of e) k e,
      event_with-has_key k es,
    )

pub settled-IsScan :
    (thread_id : String) (file : Stored) → IsScan thread_id (settled thread_id file)
settled-IsScan thread_id file =
    scan_lines-IsScan thread_id (scan_start false) (committed file)
      (scan_start-IsScan thread_id false)

text_nonempty : (j : Json) → is_nonempty_text j ≡ true → is_empty (text_or_empty j) ≡ false
text_nonempty (text s) h = ground arith
text_nonempty null h = cc
text_nonempty (boolean b) h = cc
text_nonempty (number n) h = cc
text_nonempty (float n) h = cc
text_nonempty (array items) h = cc
text_nonempty (object fields) h = cc

event_key_nonempty :
    (thread_id : String) (e : Fields) → IsEvent thread_id e → is_empty (dedup_key_of e) ≡ false
unfolding is_envelope
event_key_nonempty thread_id e h = text_nonempty (get e "dedup_key") (ground (arith, h.1))

keys_nonempty :
    (thread_id : String) (es : List Fields)
    → All (IsEvent thread_id) es
    → All (λ e. is_empty (dedup_key_of e) ≡ false) es
keys_nonempty thread_id [] h = tt
keys_nonempty thread_id (e ∷ es) h =
    (event_key_nonempty thread_id e h.0, keys_nonempty thread_id es h.1)

-- A prepared file: it ends in a newline, if it is there.
abbrev pub Ready : Stored → Type 0
Ready missing = Unit
Ready unreadable = ⊥
Ready (stored content) = content.tail ≡ none

-- A memory made from the file agrees with it.
read-Matches :
    (thread_id : String) (file : Stored)
    → Ready file
    → (read_file thread_id file).cursor ≡ (settled thread_id file).high_water
    → (read_file thread_id file).events ≡ (settled thread_id file).events
    → Matches thread_id file (writer_state thread_id none file)
unfolding writer_state
read-Matches thread_id file ready at same =
    let i = settled-IsScan thread_id file in
    record {
      counts = ap (λ n. n + 1) at;
      finds = λ k.
          ap (λ es. Dict.get String-discrete (index_events es []) k) same
          ∙ get-index_events k (settled thread_id file).events [] i.dedup_keys
              (keys_nonempty thread_id (settled thread_id file).events i.valid)
          ∙ or_get-nil k (event_with k (settled thread_id file).events);
    }

pub scan-Ready :
    (thread_id : String) (content : Content)
    → content.tail ≡ none
    → scan thread_id content ≡ settled thread_id (stored content)
unfolding scan
scan-Ready thread_id content e = rw (e, append-nil) refl

pub writer_state-Matches :
    (thread_id : String) (file : Stored) (state : Option WriterState)
    → Ready file
    → Agrees thread_id file state
    → Matches thread_id file (writer_state thread_id state file)
unfolding writer_state read_file read_content scan_lines
writer_state-Matches thread_id file (some state) ready m = m
writer_state-Matches thread_id missing none ready m = read-Matches thread_id missing ready refl refl
writer_state-Matches thread_id unreadable none ready m = absurd ready
writer_state-Matches thread_id (stored content) none ready m =
    read-Matches thread_id (stored content) ready
      (ap (λ s. s.high_water) (scan-Ready thread_id content ready))
      (ap (λ s. s.events) (scan-Ready thread_id content ready))

scan_lines-append :
    (thread_id : String) (s : Scan) (lines : List Line) (line : Line)
    → scan_lines thread_id s (lines ++ line ∷ [])
      ≡ scan_line thread_id (scan_lines thread_id s lines) line
unfolding scan_lines
scan_lines-append thread_id s [] line = refl
scan_lines-append thread_id s (l ∷ lines) line =
    scan_lines-append thread_id (scan_line thread_id s l) lines line

-- A prepared file has the lines of the file that it was made from.
pub prepare_lem :
    (file prepared : Stored)
    → prepare file ≡ ok prepared
    → Ready prepared × (committed prepared ≡ committed file)
unfolding prepare
prepare_lem missing prepared e =
    let same : missing ≡ prepared = cc in
    subst (λ file. Ready file × (committed file ≡ [])) same (tt, refl)
prepare_lem unreadable prepared e = cc
prepare_lem (stored content) prepared e =
    let same : stored (drop_tail content) ≡ prepared = cc in
    subst (λ file. Ready file × (committed file ≡ content.lines)) same (refl, refl)

-- The loop's body on an event with the next sequence and new keys.
pub accept_new :
    (thread_id : String) (s : Scan) (event : Fields)
    → IsScan thread_id s
    → has_key event_id_of (event_id_of event) s.events ≡ false
    → has_key dedup_key_of (dedup_key_of event) s.events ≡ false
    → ((accept s event (s.high_water + 1)).events ≡ s.events ++ event ∷ [])
      × ((accept s event (s.high_water + 1)).high_water ≡ s.high_water + 1)
      × ((accept s event (s.high_water + 1)).damaged
          ≡ (s.damaged || ltb s.expected (s.high_water + 1)))
unfolding accept
accept_new thread_id s event i new_id new_key =
    let early = i.reached in
    (
      ground (arith, i.seen_ids (event_id_of event), i.seen_keys (dedup_key_of event)),
      ground (arith, i.seen_ids (event_id_of event), i.seen_keys (dedup_key_of event)),
      ground (arith, i.seen_ids (event_id_of event), i.seen_keys (dedup_key_of event)),
    )

pub committed-write_line :
    (file : Stored) (event : Fields)
    → Ready file
    → committed (write_line file event) ≡ committed file ++ decoded (object event) ∷ []
committed-write_line missing event ready = refl
committed-write_line unreadable event ready = absurd ready
committed-write_line (stored content) event ready = refl

pub settled-write_line :
    (thread_id : String) (file : Stored) (stamp : Stamp) (values : Fields)
    → Ready file
    → IsRequest stamp values
    → settled thread_id (
        write_line file
          (record_of thread_id ((settled thread_id file).high_water + 1) stamp values))
      ≡ accept
          (settled thread_id file)
          (record_of thread_id ((settled thread_id file).high_water + 1) stamp values)
          ((settled thread_id file).high_water + 1)
unfolding scan_line scan_verdict
settled-write_line thread_id file stamp values ready request =
    let s = settled thread_id file in
    let event = record_of thread_id (s.high_water + 1) stamp values in
    ap (scan_lines thread_id (scan_start false)) (committed-write_line file event ready)
    ∙ scan_lines-append thread_id (scan_start false) (committed file) (decoded (object event))
    ∙ ap (scan_verdict s)
        (judge-record_of thread_id (s.high_water + 1) stamp values request (omega arith))
