-- ===== src/Journal/Whole.antt =====
-- stream_journal.py, `_read_file`: what a file that is read without damage must hold.
use mathlib.Core.List.{append_assoc, append-nil}
use agent_app_server.Base.{
  ℕ, ◌+◌, ◌≡◌, refl, sym, ap, ◌∙◌, false, ◌||◌, some, List, [], ◌∷◌, ◌++◌, arith, String, ltb,
  Bool-cases, inl, inr,
}
use agent_app_server.Json.{Fields, object}
use agent_app_server.Journal.{
  Line, blank, undecodable, decoded, Content, Scan, Verdict, skips, damages, accepts, accept, judge,
  judge_object, scan, scan_line, scan_lines, scan_verdict, all_lines, has_tail, one_of, event_id_of,
  dedup_key_of, scan_start,
}
use agent_app_server.Journal.Scanning.{seq_of, judge-accepts}

-- The objects on the lines, in order.
abbrev pub line_objects : Line → List Fields
line_objects (decoded (object event)) = event ∷ []
line_objects _ = []

abbrev pub objects : List Line → List Fields
objects [] = []
objects (line ∷ lines) = line_objects line ++ objects lines

-- The sequences are `lo`, `lo + 1`, … up to below `hi`.
abbrev pub Counts : ℕ → List Fields → ℕ → Type 0
Counts lo [] hi = lo ≡ hi
Counts lo (e ∷ es) hi = (seq_of e ≡ some lo) × Counts (lo + 1) es hi

Counts-append :
    (lo mid hi : ℕ) (es more : List Fields)
    → Counts lo es mid
    → Counts mid more hi
    → Counts lo (es ++ more) hi
Counts-append lo mid hi [] more a b = rw a b
Counts-append lo mid hi (e ∷ es) more (at, rest) b =
    (at, Counts-append (lo + 1) mid hi es more rest b)

-- What reading more lines without damage does to the scan.
abbrev Reads : Scan → List Fields → Scan → Type 0
Reads s more s' =
    (s.damaged ≡ false)
    × (s'.events ≡ s.events ++ more)
    × Counts s.expected more s'.expected
    × (s.expected ≡ s.high_water + 1 → s'.expected ≡ s'.high_water + 1)

accept-Reads :
    (s : Scan) (event : Fields) (n : ℕ)
    → seq_of event ≡ some n
    → (accept s event n).damaged ≡ false
    → Reads s (event ∷ []) (accept s event n)
unfolding accept
accept-Reads s event n seq h = elim (Bool-cases (ltb n s.expected)) [
  | inl early ↦ ground arith
  | inr fits ↦
      elim (Bool-cases
        (one_of s.seen_event_ids (event_id_of event) || one_of s.seen_dedup (dedup_key_of event))) [
          | inl again ↦ ground arith
          | inr new ↦ (ground arith, ground arith, (ground arith, ground arith), λ e. ground arith)
        ]
]

judge_object-skips :
    (thread_id : String) (event : Fields) → judge_object thread_id event ≡ skips → ⊥
unfolding judge_object
judge_object-skips thread_id event e = ground arith

judge-skips : (thread_id : String) (line : Line) → judge thread_id line ≡ skips → line ≡ blank
unfolding judge
judge-skips thread_id blank e = refl
judge-skips thread_id undecodable e = cc
judge-skips thread_id (decoded (object event)) e = absurd (judge_object-skips thread_id event e)
judge-skips thread_id (decoded _) e = cc

skips-Reads : (s : Scan) → s.damaged ≡ false → Reads s [] s
skips-Reads s h = (h, sym (rw append-nil), refl, λ e. e)

scan_verdict-Reads :
    (thread_id : String) (s : Scan) (line : Line) (v : Verdict)
    → judge thread_id line ≡ v
    → (scan_verdict s v).damaged ≡ false
    → Reads s (line_objects line) (scan_verdict s v)
unfolding scan_verdict
scan_verdict-Reads thread_id s line skips e h = rw (judge-skips thread_id line e) (skips-Reads s h)
scan_verdict-Reads thread_id s line damages e h = cc
scan_verdict-Reads thread_id s line (accepts event n) e h =
    let (same, valid, seq) = judge-accepts thread_id line event n e in
    rw same (accept-Reads s event n seq h)

scan_lines-Reads :
    (thread_id : String) (s : Scan) (lines : List Line)
    → (scan_lines thread_id s lines).damaged ≡ false
    → Reads s (objects lines) (scan_lines thread_id s lines)
unfolding scan_lines scan_line
scan_lines-Reads thread_id s [] h = skips-Reads s h
scan_lines-Reads thread_id s (line ∷ lines) h =
    let s' = scan_line thread_id s line in
    let (sound', events', counts', high') = scan_lines-Reads thread_id s' lines h in
    let (sound, events, counts, high) =
      scan_verdict-Reads thread_id s line (judge thread_id line) refl sound' in
    (
      sound,
      events'
          ∙ ap (λ es. es ++ objects lines) events
          ∙ append_assoc s.events (line_objects line) (objects lines),
      Counts-append s.expected s'.expected (scan_lines thread_id s' lines).expected
          (line_objects line) (objects lines) counts counts',
      λ e. high' (high e),
    )

-- A file that is read without damage ends in a newline, and its events are all the objects on its
-- lines, numbered from 1 without a gap up to the cursor.
pub scan_whole :
    (thread_id : String) (content : Content)
    → (scan thread_id content).damaged ≡ false
    → (has_tail content ≡ false)
      × ((scan thread_id content).events ≡ objects (all_lines content))
      × Counts 1 (scan thread_id content).events ((scan thread_id content).high_water + 1)
unfolding scan
scan_whole thread_id content h =
    let (no_tail, events, counts, high) =
      scan_lines-Reads thread_id (scan_start (has_tail content)) (all_lines content) h in
    (no_tail, events, rw (sym (high refl), events) counts)
