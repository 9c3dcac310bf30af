-- ===== src/Journal.antt =====
-- stream_journal.py: one thread's append-only event file, its reader and its writer. A file is the
-- list of its terminated lines and, if the last byte is no newline, the unterminated rest; a line
-- is what `json.loads` makes of it. Symbolic links, permissions and log messages are left out.
pub mod Lifecycle
pub mod Scanning
pub mod Grouping
pub mod Reading
pub mod Whole
pub mod Writing
pub mod Envelope
pub mod Append
pub mod Commit
pub mod Durable
pub mod Queue
mod Examples
use agent_app_server.Base.{
  ℕ, suc, ◌+◌, Bool, true, false, ◌&&◌, ◌||◌, Option, none, some, List, [], ◌∷◌, ◌++◌, String,
  String-discrete, ℤ, pos, negsuc, if◌then◌else◌, ltb, max, holds, any, select,
}
use agent_app_server.Json.{
  Json, Fields, null, object, text, get, as_int, as_text, equals_one, is_nonempty_text,
  is_text_or_none, is_object,
}

pub data Line : Type 0 where
  blank : Line
  undecodable : Line
  decoded : Json → Line

pub record Content : Type 0 where
  pub lines : List Line
  pub tail : Option Line

pub data Coverage : Type 0 where
  complete partial absent : Coverage

pub record JournalRead : Type 0 where
  pub events : List Fields
  pub cursor : ℕ
  pub coverage : Coverage
  pub damaged : Bool
  pub exists : Bool

-- `value in {…}`
abbrev pub one_of : List String → String → Bool
one_of options s = any (λ o. holds (String-discrete o s)) options

-- `event.get(key) == s`
abbrev pub is_text : String → Json → Bool
is_text s (text t) = holds (String-discrete t s)
is_text s _ = false

abbrev pub is_text_of : List String → Json → Bool
is_text_of options (text t) = one_of options t
is_text_of options _ = false

-- The checks of an event's envelope, without its sequence.
unfoldable pub is_envelope : String → Fields → Bool
is_envelope thread_id event =
    is_nonempty_text (get event "event_id")
    && is_nonempty_text (get event "dedup_key")
    && is_nonempty_text (get event "type")
    && is_nonempty_text (get event "source")
    && is_nonempty_text (get event "at")
    && is_text_of ("codex_stream" ∷ "codex_history" ∷ []) (get event "source")
    && is_text thread_id (get event "thread_id")
    && is_object (get event "data")
    && is_text_or_none (get event "turn_id")
    && is_text_or_none (get event "item_id")

-- `isinstance(sequence, int) and sequence >= 1`
abbrev pub as_sequence : Option ℤ → Option ℕ
as_sequence none = none
as_sequence (some (negsuc n)) = none
as_sequence (some (pos n)) = if ltb n 1 then none else some n

abbrev pub text_or_empty : Json → String
text_or_empty (text s) = s
text_or_empty _ = ""

-- What the reader makes of one line, before it looks at the lines above.
pub data Verdict : Type 0 where
  skips : Verdict
  damages : Verdict
  accepts : Fields → ℕ → Verdict

unfoldable pub judge_object : String → Fields → Verdict
judge_object thread_id event =
    if equals_one (get event "v") && is_envelope thread_id event
    then elim (as_sequence (as_int (get event "seq"))) [ none ↦ damages | some n ↦ accepts event n ]
    else damages

unfoldable pub judge : String → Line → Verdict
judge thread_id blank = skips
judge thread_id undecodable = damages
judge thread_id (decoded (object event)) = judge_object thread_id event
judge thread_id (decoded _) = damages

abbrev pub event_id_of : Fields → String
event_id_of event = text_or_empty (get event "event_id")

abbrev pub dedup_key_of : Fields → String
dedup_key_of event = text_or_empty (get event "dedup_key")

-- The variables of the loop over the lines.
pub record Scan : Type 0 where
  pub events : List Fields
  pub seen_event_ids : List String
  pub seen_dedup : List String
  pub expected : ℕ
  pub high_water : ℕ
  pub damaged : Bool

abbrev pub scan_start : Bool → Scan
scan_start damaged = record {
  events = [];
  seen_event_ids = [];
  seen_dedup = [];
  expected = 1;
  high_water = 0;
  damaged = damaged;
}

-- The loop's body from the sequence on.
unfoldable pub accept : Scan → Fields → ℕ → Scan
accept s event n =
    let high = max s.high_water n in
    let key = dedup_key_of event in
    let id = event_id_of event in
    if ltb n s.expected
    then record s { high_water = high; damaged = true }
    else if one_of s.seen_event_ids id || one_of s.seen_dedup key
    then record s { high_water = high; expected = n + 1; damaged = true }
    else record s {
      events = s.events ++ event ∷ [];
      seen_event_ids = id ∷ s.seen_event_ids;
      seen_dedup = key ∷ s.seen_dedup;
      high_water = high;
      expected = n + 1;
      damaged = s.damaged || ltb s.expected n;
    }

unfoldable pub scan_verdict : Scan → Verdict → Scan
unfolding accept
scan_verdict s skips = s
scan_verdict s damages = record s { damaged = true }
scan_verdict s (accepts event n) = accept s event n

unfoldable pub scan_line : String → Scan → Line → Scan
unfolding judge scan_verdict
scan_line thread_id s line = scan_verdict s (judge thread_id line)

unfoldable pub scan_lines : String → Scan → List Line → Scan
unfolding scan_line
scan_lines thread_id s [] = s
scan_lines thread_id s (line ∷ lines) = scan_lines thread_id (scan_line thread_id s line) lines

-- The unterminated rest is read as a last line, and is damage by itself.
abbrev pub all_lines : Content → List Line
all_lines content = content.lines ++ elim content.tail [ none ↦ [] | some line ↦ line ∷ [] ]

abbrev pub has_tail : Content → Bool
has_tail content = elim content.tail [ none ↦ false | some line ↦ true ]

unfoldable pub scan : String → Content → Scan
unfolding scan_lines
scan thread_id content = scan_lines thread_id (scan_start (has_tail content)) (all_lines content)
