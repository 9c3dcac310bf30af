-- ===== src/Journal/Scanning.antt =====
-- stream_journal.py, `_read_file`: what the loop over the lines keeps, whatever the file holds.
use agent_app_server.Base.{
  ℕ, ◌+◌, ◌≤◌, ◌<◌, ◌≡◌, refl, ap, subst, Bool, true, false, ◌||◌, Option, some, List, [], ◌∷◌,
  ◌++◌, arith, String, String-discrete, ltb, max, holds, any, All, All-append, Bool-cases, inl, inr,
}
use agent_app_server.Json.{Fields, get, as_int, equals_one, object}
use agent_app_server.Journal.{
  Line, blank, undecodable, decoded, Content, Scan, Verdict, skips, damages, accepts, scan_start,
  accept, scan_verdict, scan_line, scan_lines, scan, all_lines, has_tail, judge, judge_object,
  is_envelope, as_sequence, one_of, event_id_of, dedup_key_of,
}

-- The sequence that an event carries.
abbrev pub seq_of : Fields → Option ℕ
seq_of event = as_sequence (as_int (get event "seq"))

-- Sequences rise strictly from above `lo`, and end below `hi`.
abbrev pub Ascends : ℕ → List Fields → ℕ → Type 0
Ascends lo [] hi = lo < hi
Ascends lo (e ∷ es) hi = (n : ℕ) × (seq_of e ≡ some n) × (lo < n) × Ascends n es hi

-- Whether an event of the list has this key.
abbrev pub has_key : (Fields → String) → String → List Fields → Bool
has_key key k = any (λ e. holds (String-discrete (key e) k))

-- No two events have one key.
abbrev pub NoRepeat : (Fields → String) → List Fields → Type 0
NoRepeat key [] = Unit
NoRepeat key (e ∷ es) = (has_key key (key e) es ≡ false) × NoRepeat key es

-- Version and envelope are as the writer makes them.
abbrev pub IsEvent : String → Fields → Type 0
IsEvent thread_id e = (equals_one (get e "v") ≡ true) × (is_envelope thread_id e ≡ true)

pub record IsScan (thread_id : String) (s : Scan) : Type 0 where
  pub ascends : Ascends 0 s.events s.expected
  pub valid : All (IsEvent thread_id) s.events
  pub event_ids : NoRepeat event_id_of s.events
  pub dedup_keys : NoRepeat dedup_key_of s.events
  pub seen_ids : (k : String) → one_of s.seen_event_ids k ≡ has_key event_id_of k s.events
  pub seen_keys : (k : String) → one_of s.seen_dedup k ≡ has_key dedup_key_of k s.events
  pub reached : s.expected ≤ s.high_water + 1

Ascends-append :
    (lo hi n : ℕ) (es : List Fields) (e : Fields)
    → Ascends lo es hi
    → hi ≤ n
    → seq_of e ≡ some n
    → Ascends lo (es ++ e ∷ []) (n + 1)
Ascends-append lo hi n [] e a le eq = (n, eq, omega arith, omega arith)
Ascends-append lo hi n (x ∷ es) e (k, at, up, rest) le eq =
    (k, at, up, Ascends-append k hi n es e rest le eq)

Ascends-widen : (lo hi hi' : ℕ) (es : List Fields) → Ascends lo es hi → hi ≤ hi' → Ascends lo es hi'
Ascends-widen lo hi hi' [] a le = omega arith
Ascends-widen lo hi hi' (x ∷ es) (k, at, up, rest) le =
    (k, at, up, Ascends-widen k hi hi' es rest le)

pub has_key-append :
    (key : Fields → String) (k : String) (es : List Fields) (e : Fields)
    → has_key key k (es ++ e ∷ []) ≡ (holds (String-discrete (key e) k) || has_key key k es)
has_key-append key k [] e = refl
has_key-append key k (x ∷ es) e = ground (arith, has_key-append key k es e)

NoRepeat-append :
    (key : Fields → String) (es : List Fields) (e : Fields)
    → NoRepeat key es
    → has_key key (key e) es ≡ false
    → NoRepeat key (es ++ e ∷ [])
NoRepeat-append key [] e d new = (refl, tt)
NoRepeat-append key (x ∷ es) e d new =
    (ground (arith, has_key-append key (key x) es e), NoRepeat-append key es e d.1 (ground arith))

-- An event that the loop appends.
appended-IsScan :
    (thread_id : String) (s : Scan) (event : Fields) (n : ℕ) (high : ℕ) (damaged : Bool)
    → IsScan thread_id s
    → IsEvent thread_id event
    → seq_of event ≡ some n
    → s.expected ≤ n
    → n ≤ high
    → one_of s.seen_event_ids (event_id_of event) ≡ false
    → one_of s.seen_dedup (dedup_key_of event) ≡ false
    → IsScan thread_id (record {
      events = s.events ++ event ∷ [];
      seen_event_ids = event_id_of event ∷ s.seen_event_ids;
      seen_dedup = dedup_key_of event ∷ s.seen_dedup;
      expected = n + 1;
      high_water = high;
      damaged = damaged;
    })
appended-IsScan thread_id s event n high damaged i valid seq later reach new_id new_key = record {
  ascends = Ascends-append 0 s.expected n s.events event i.ascends later seq;
  valid = All-append (IsEvent thread_id) s.events (event ∷ []) i.valid (valid, tt);
  event_ids =
      NoRepeat-append event_id_of s.events event i.event_ids
        (ground (arith, i.seen_ids (event_id_of event)));
  dedup_keys =
      NoRepeat-append dedup_key_of s.events event i.dedup_keys
        (ground (arith, i.seen_keys (dedup_key_of event)));
  seen_ids = λ k. ground (arith, i.seen_ids k, has_key-append event_id_of k s.events event);
  seen_keys = λ k. ground (arith, i.seen_keys k, has_key-append dedup_key_of k s.events event);
  reached = omega arith;
}

-- A line that only marks damage, or moves the counters on.
moved-IsScan :
    (thread_id : String) (s : Scan) (expected high : ℕ) (damaged : Bool)
    → IsScan thread_id s
    → s.expected ≤ expected
    → expected ≤ high + 1
    → IsScan thread_id (record s { expected = expected; high_water = high; damaged = damaged })
moved-IsScan thread_id s expected high damaged i le reach = record {
  ascends = Ascends-widen 0 s.expected expected s.events i.ascends le;
  valid = i.valid;
  event_ids = i.event_ids;
  dedup_keys = i.dedup_keys;
  seen_ids = i.seen_ids;
  seen_keys = i.seen_keys;
  reached = reach;
}

accept-IsScan :
    (thread_id : String) (s : Scan) (event : Fields) (n : ℕ)
    → IsScan thread_id s
    → IsEvent thread_id event
    → seq_of event ≡ some n
    → IsScan thread_id (accept s event n)
unfolding accept
accept-IsScan thread_id s event n i valid seq = elim (Bool-cases (ltb n s.expected)) [
  | inl early ↦
      rw (early, accept)
        (moved-IsScan thread_id s s.expected (max s.high_water n) true i (omega arith)
          (omega (arith, i.reached)))
  | inr fits ↦
      elim (Bool-cases
        (one_of s.seen_event_ids (event_id_of event) || one_of s.seen_dedup (dedup_key_of event))) [
          | inl again ↦
              rw (fits, again, accept)
                (moved-IsScan thread_id s (n + 1) (max s.high_water n) true i (ground arith)
                  (omega arith))
          | inr new ↦
              rw (fits, new, accept)
                (appended-IsScan thread_id s event n (max s.high_water n)
                  (s.damaged || ltb s.expected n) i valid seq (ground arith) (omega arith)
                  (ground arith) (ground arith))
        ]
]

judge_object-accepts :
    (thread_id : String) (fields event : Fields) (n : ℕ)
    → judge_object thread_id fields ≡ accepts event n
    → (decoded (object fields) ≡ decoded (object event))
      × IsEvent thread_id event
      × (seq_of event ≡ some n)
unfolding judge_object
judge_object-accepts thread_id fields event n e =
    let same : fields ≡ event = ground arith in
    (
      ap (λ f. decoded (object f)) same,
      subst (IsEvent thread_id) same (ground arith, ground arith),
      subst (λ f. seq_of f ≡ some n) same (ground arith),
    )

-- What `judge` accepts is an event with that sequence.
pub judge-accepts :
    (thread_id : String) (line : Line) (event : Fields) (n : ℕ)
    → judge thread_id line ≡ accepts event n
    → (line ≡ decoded (object event)) × IsEvent thread_id event × (seq_of event ≡ some n)
unfolding judge judge_object
judge-accepts thread_id blank event n e = cc
judge-accepts thread_id undecodable event n e = cc
judge-accepts thread_id (decoded (object fields)) event n e =
    judge_object-accepts thread_id fields event n e
judge-accepts thread_id (decoded _) event n e = cc

scan_verdict-IsScan :
    (thread_id : String) (s : Scan) (line : Line) (v : Verdict)
    → judge thread_id line ≡ v
    → IsScan thread_id s
    → IsScan thread_id (scan_verdict s v)
unfolding scan_verdict
scan_verdict-IsScan thread_id s line skips e i = i
scan_verdict-IsScan thread_id s line damages e i =
    moved-IsScan thread_id s s.expected s.high_water true i (omega arith) i.reached
scan_verdict-IsScan thread_id s line (accepts event n) e i =
    let (same, valid, seq) = judge-accepts thread_id line event n e in
    accept-IsScan thread_id s event n i valid seq

pub scan_line-IsScan :
    (thread_id : String) (s : Scan) (line : Line)
    → IsScan thread_id s
    → IsScan thread_id (scan_line thread_id s line)
unfolding scan_line
scan_line-IsScan thread_id s line i =
    scan_verdict-IsScan thread_id s line (judge thread_id line) refl i

pub scan_lines-IsScan :
    (thread_id : String) (s : Scan) (lines : List Line)
    → IsScan thread_id s
    → IsScan thread_id (scan_lines thread_id s lines)
unfolding scan_lines
scan_lines-IsScan thread_id s [] i = i
scan_lines-IsScan thread_id s (line ∷ lines) i =
    scan_lines-IsScan thread_id (scan_line thread_id s line) lines
      (scan_line-IsScan thread_id s line i)

pub scan_start-IsScan :
    (thread_id : String) (damaged : Bool) → IsScan thread_id (scan_start damaged)
scan_start-IsScan thread_id damaged = record {
  ascends = omega arith;
  valid = tt;
  event_ids = tt;
  dedup_keys = tt;
  seen_ids = λ k. refl;
  seen_keys = λ k. refl;
  reached = omega arith;
}

-- Whatever a file holds, the events that are read from it have valid envelopes, strictly rising
-- sequences up to the cursor, and no two the same identifier or the same key.
pub scan-IsScan :
    (thread_id : String) (content : Content) → IsScan thread_id (scan thread_id content)
unfolding scan
scan-IsScan thread_id content =
    scan_lines-IsScan thread_id _ (all_lines content)
      (scan_start-IsScan thread_id (has_tail content))
