-- ===== src/Service/Replaying.antt =====
-- codex_service.py, `subscribe_events`: what a reader is given of an undamaged journal.
use agent_app_server.Base.{
  ℕ, ◌+◌, ◌≤◌, ◌<◌, ◌≡◌, refl, subst, ◌∙◌, Bool, true, false, Option, none, some, List, [], ◌∷◌,
  ◌++◌, arith, String, ℤ, pos, negsuc, if◌then◌else◌, ltb, leb, max, All, All-map, map, select,
  is_some, Bool-cases, inl, inr, ℕ_discrete, ◌⊎◌,
}
use agent_app_server.Base.Dict
use agent_app_server.Json.{Json, Fields}
use agent_app_server.Hub.{
  EventEnvelope, Subscription, ThreadEvents, subscribe, advance_sequence, state, replay, is_after,
  needs_resync,
}
use agent_app_server.Hub.Calls.{get-subscribe, new_subscription}
use agent_app_server.Hub.History.{IsHistory}
use agent_app_server.Journal.{JournalRead, Content, scan}
use agent_app_server.Journal.Lifecycle.{read_file, read_content, stored}
use agent_app_server.Journal.Scanning.{seq_of}
use agent_app_server.Journal.Whole.{Counts, scan_whole}
use agent_app_server.Attachments.{PythonError}
use agent_app_server.Base.{Result, ok, err}
use agent_app_server.Service.{
  ServiceError, AttachmentView, python_failed, Service, key_of, journal_of, journal_envelope,
  record_sequence,
}
use agent_app_server.Service.HandingOver.{hub_sequence}
use agent_app_server.Service.Subscribing.{
  merge_events, is_later, durable_replay, starts_late, must_resync, Subscribed, initial_of,
  resync_of, subscribe_events, subscribed_view, subscribed_at, view_replay, merged_replay,
}
use agent_app_server.Service.Merging.{
  Rising, find, first_of, merge_events-Rising, find-merge_events, find-outside, Rising-ext,
}
use agent_app_server.Service.Viewing.{
  AreShown, SomeRaises, Views, view_replay-Views, starts_late-shown,
}

seq_of-record_sequence : (r : Fields) (n : ℕ) → seq_of r ≡ some n → record_sequence r ≡ n
unfolding record_sequence
seq_of-record_sequence r n e = ground arith

envelope-sequence :
    (show : Json → String) (r : Fields) → (journal_envelope show r).sequence ≡ record_sequence r
unfolding journal_envelope
envelope-sequence show r = refl

-- The part of a gapless journal above `n`.
abbrev later_events : (Json → String) → ℕ → List Fields → List (EventEnvelope Fields)
later_events show n events = map (journal_envelope show) (select (is_later (pos n)) events)

later-Rising :
    (show : Json → String) (n b lo hi : ℕ) (es : List Fields)
    → Counts lo es hi
    → b < max lo (n + 1)
    → Rising b (later_events show n es)
later-Rising show n b lo hi [] c above = tt
later-Rising show n b lo hi (e ∷ es) (at, rest) above =
    let here = seq_of-record_sequence e lo at in
    ground (
      arith,
      here,
      envelope-sequence show e,
      later-Rising show n b (lo + 1) hi es rest,
      later-Rising show n (journal_envelope show e).sequence (lo + 1) hi es rest,
    )

later-find :
    (show : Json → String) (n k lo hi : ℕ) (es : List Fields)
    → Counts lo es hi
    → n < k
    → lo ≤ k
    → k < hi
    → is_some (find k (later_events show n es)) ≡ true
later-find show n k lo hi [] c above from to = absurd (omega arith)
later-find show n k lo hi (e ∷ es) (at, rest) above from to =
    let here = seq_of-record_sequence e lo at in
    ground (arith, here, envelope-sequence show e, later-find show n k (lo + 1) hi es rest)

later-starts :
    (show : Json → String) (n lo hi : ℕ) (es : List Fields)
    → Counts lo es hi
    → lo ≤ n + 1
    → starts_late (pos n) (later_events show n es) ≡ false
later-starts show n lo hi [] c le = refl
later-starts show n lo hi (e ∷ es) (at, rest) le =
    let here = seq_of-record_sequence e lo at in
    ground (arith, here, envelope-sequence show e, later-starts show n (lo + 1) hi es rest)

Rising-All :
    (lo : ℕ) (es : List (EventEnvelope Fields)) → Rising lo es → All (λ e. lo < e.sequence) es
Rising-All lo [] r = tt
Rising-All lo (e ∷ es) (above, r) =
    (above, All-map es (λ x b. omega arith) (Rising-All e.sequence es r))

-- Whatever the hub still holds of it, what is merged is the journal's part.
replay_is_durable :
    (show : Json → String) (n c : ℕ) (events : List Fields) (initial : List (EventEnvelope Fields))
    → Counts 1 events (c + 1)
    → All (λ e. (n < e.sequence) × (e.sequence ≤ c)) initial
    → merge_events (later_events show n events) (merge_events initial [])
      ≡ later_events show n events
replay_is_durable show n c events initial counts within =
    let rising = later-Rising show n n 1 (c + 1) events counts (omega arith) in
    let merged = merge_events initial [] in
    Rising-ext n (merge_events (later_events show n events) merged) (later_events show n events)
      (merge_events-Rising n (later_events show n events) merged
        (Rising-All n (later_events show n events) rising)
        (merge_events-Rising n initial [] (All-map initial (λ e b. b.0) within) tt))
      rising
      (λ k.
        find-merge_events k n (later_events show n events) merged rising
        ∙ covered k (find k (later_events show n events)) (find k merged) (λ absent.
          find-outside k n c initial [] within refl (
            outside k (λ from to.
              ground (arith, absent, later-find show n k 1 (c + 1) events counts from)))))
  where
    covered :
        (k : ℕ) (o i : Option (EventEnvelope Fields)) → (o ≡ none → i ≡ none) → first_of o i ≡ o
    covered k none i h = h refl
    covered k (some e) i h = refl

    outside : (k : ℕ) → (n < k → k ≤ c → ⊥) → (k ≤ n) ⊎ (c < k)
    outside k h = elim (Bool-cases (leb k n)) [
      | inl low ↦ inl (ground arith)
      | inr high ↦ elim (Bool-cases (ltb c k)) [
        | inl above ↦ inr (ground arith)
        | inr within_c ↦ absurd (h (ground arith) (ground arith))
      ]
    ]

All-select :
    (test : EventEnvelope Fields → Bool) (n c : ℕ) (es : List (EventEnvelope Fields))
    → ((e : EventEnvelope Fields) → test e ≡ true → n < e.sequence)
    → All (λ e. e.sequence ≤ c) es
    → All (λ e. (n < e.sequence) × (e.sequence ≤ c)) (select test es)
All-select test n c [] above h = tt
All-select test n c (e ∷ es) above h = ground (arith, above e, All-select test n c es above, h)

initial-within :
    (s : ThreadEvents Fields) (n c : ℕ)
    → All (λ e. e.sequence ≤ c) s.history
    → All (λ e. (n < e.sequence) × (e.sequence ≤ c)) (replay s (some (pos n))).1
unfolding replay
initial-within s n c h = elim (Bool-cases (needs_resync s (pos n))) [
  | inl reload ↦ rw (reload, replay) tt
  | inr keep ↦
      rw (keep, replay) (All-select (is_after (pos n)) n c s.history (λ e t. ground arith) h)
]

found_subscription :
    (s : Service) (thread_id : String) (after : Option ℤ) (level : ℤ)
    → let (i, hub) = subscribe s.event_hub (key_of s thread_id) after in
      Dict.get ℕ_discrete (advance_sequence hub (key_of s thread_id) level).1.subscriptions i
      ≡ some (new_subscription s.event_hub (key_of s thread_id) after)
unfolding advance_sequence subscribe
found_subscription s thread_id after (negsuc m) =
    get-subscribe s.event_hub (key_of s thread_id) after s.event_hub.next_id ∙ ground arith
found_subscription s thread_id after (pos m) =
    get-subscribe s.event_hub (key_of s thread_id) after s.event_hub.next_id ∙ ground arith

All-suffix :
    (c : ℕ) (xs ys : List (EventEnvelope Fields))
    → All (λ e. e.sequence ≤ c) (xs ++ ys)
    → All (λ e. e.sequence ≤ c) ys
All-suffix c [] ys h = h
All-suffix c (x ∷ xs) ys h = All-suffix c xs ys h.1

history-within :
    (limit c : ℕ) (log : List (EventEnvelope Fields)) (s : ThreadEvents Fields)
    → IsHistory limit log s
    → s.sequence ≤ c
    → All (λ e. e.sequence ≤ c) s.history
history-within limit c log s h le =
    All-map s.history (λ e b. omega arith)
      (All-suffix s.sequence h.evicted s.history
        (subst (All (λ e. e.sequence ≤ s.sequence)) h.split h.reached))

must_resync-whole :
    (n boundary : ℕ) (journal : JournalRead) (hub_resync : Bool)
    (replay : List (EventEnvelope Fields))
    → n ≤ boundary
    → journal.damaged ≡ false
    → journal.exists ≡ true
    → starts_late (pos n) replay ≡ false
    → must_resync (some (pos n)) boundary journal hub_resync replay ≡ false
unfolding must_resync
must_resync-whole n boundary journal hub_resync replay le sound there start = ground arith

-- The events of a journal above the cursor `n`, as they are handed over.
abbrev pub journal_part : (Json → String) → ℕ → JournalRead → List (EventEnvelope Fields)
journal_part show n journal = map (journal_envelope show) (select (is_later (pos n)) journal.events)

-- What a reader at the cursor `n` is told: the journal's events above it, with their attachments
-- viewed, up to the journal's cursor, and not to reload; or the view of one of these has raised.
abbrev pub Replays :
    (Json → String) → AttachmentView → ℕ → JournalRead → Result ServiceError Subscribed → Type 0
Replays show v n journal answer =
    ((r : Subscribed) × (answer ≡ ok r)
      × AreShown v (journal_part show n journal) r.replay
      × (r.boundary ≡ journal.cursor)
      × (r.resync_required ≡ false))
    ⊎ ((x : PythonError) × (answer ≡ err (python_failed x))
        × SomeRaises v (journal_part show n journal) x)

view_whole :
    (show : Json → String) (v : AttachmentView) (n i level : ℕ) (journal : JournalRead)
    (hub_resync : Bool) (shown : List (EventEnvelope Fields))
    → journal.damaged ≡ false
    → journal.exists ≡ true
    → Counts 1 journal.events (journal.cursor + 1)
    → n ≤ journal.cursor
    → AreShown v (journal_part show n journal) shown
    → Replays show v n journal
        (ok (subscribed_view (some (pos n)) i journal level hub_resync shown))
unfolding subscribed_view
view_whole show v n i level journal hub_resync shown sound there counts le shows =
    let starts =
      starts_late-shown v n (later_events show n journal.events) shown shows
        (later-starts show n 1 (journal.cursor + 1) journal.events counts (omega arith)) in
    inl (
      subscribed_view (some (pos n)) i journal level hub_resync shown,
      refl,
      shows,
      rw there refl,
      must_resync-whole n (if journal.exists then journal.cursor else level) journal hub_resync
          shown (rw there le) sound there starts,
    )

Replays-Views :
    (show : Json → String) (v : AttachmentView) (thread_id : String) (n i : ℕ)
    (journal : JournalRead) (result : Result ServiceError (List (EventEnvelope Fields)) × Service)
    → journal.damaged ≡ false
    → journal.exists ≡ true
    → Counts 1 journal.events (journal.cursor + 1)
    → n ≤ journal.cursor
    → Views v (journal_part show n journal) result
    → Replays show v n journal (subscribed_at thread_id (some (pos n)) i journal result).0
Replays-Views show v thread_id n i journal result sound there counts le views = elim views [
  | inl (shown, s', done, shows) ↦ rw done (
      view_whole show v n i (state s'.event_hub (key_of s' thread_id)).sequence journal
        (resync_of (Dict.get ℕ_discrete s'.event_hub.subscriptions i)) shown sound there counts le
        shows)
  | inr (x, s', failed, raises) ↦ rw failed (inr (x, refl, raises))
]

merged_replay-whole :
    (show : Json → String) (n : ℕ) (journal : JournalRead)
    (subscription : Option (Subscription Fields))
    → Counts 1 journal.events (journal.cursor + 1)
    → All (λ e. (n < e.sequence) × (e.sequence ≤ journal.cursor)) (initial_of subscription)
    → merged_replay show (some (pos n)) journal subscription ≡ journal_part show n journal
unfolding merged_replay durable_replay
merged_replay-whole show n journal subscription counts within =
    replay_is_durable show n journal.cursor journal.events (initial_of subscription) counts within

-- A reader at a cursor that an undamaged journal has reached, while the hub is not ahead of the
-- journal, is given exactly the journal's events above its cursor, in order, with the attachments viewed
-- of those that have some, up to the journal's cursor, and is not told to reload, whatever part of them
-- the hub still holds and whatever other tasks do during the views; or the view of one of these events
-- raises, and the call raises the same.
pub subscribe-Replays :
    (show : Json → String) (v : AttachmentView) (s : Service) (thread_id : String)
    (content : Content) (n limit : ℕ) (log : List (EventEnvelope Fields))
    → (journal_of s thread_id).file ≡ stored content
    → (scan thread_id content).damaged ≡ false
    → n ≤ (scan thread_id content).high_water
    → IsHistory limit log (state s.event_hub (key_of s thread_id))
    → hub_sequence s thread_id ≤ (scan thread_id content).high_water
    → Replays show v n
        (read_content thread_id content)
        (subscribe_events show v thread_id (some (pos n)) s).0
unfolding subscribe_events read_content read_file
subscribe-Replays show v s thread_id content n limit log reads sound le history behind =
    let (_, _, counts) = scan_whole thread_id content sound in
    let high = (scan thread_id content).high_water in
    let within =
      initial-within (state s.event_hub (key_of s thread_id)) n high
        (history-within limit high log _ history behind) in
    let key = key_of s thread_id in
    let (i, hub) = subscribe s.event_hub key (some (pos n)) in
    let level = (advance_sequence hub key (pos high)).1 in
    let journal = read_content thread_id content in
    let subscription = new_subscription s.event_hub key (some (pos n)) in
    let whole = merged_replay-whole show n journal (some subscription) counts within in
    rw (reads, found_subscription s thread_id (some (pos n)) (pos high))
      (Replays-Views show v thread_id n i journal
        (view_replay v (merged_replay show (some (pos n)) journal (some subscription))
          (record s { event_hub = level }))
        sound refl counts le
        (subst
          (λ replay. Views v replay (
            view_replay v (merged_replay show (some (pos n)) journal (some subscription))
              (record s { event_hub = level })))
          whole
          (view_replay-Views v (merged_replay show (some (pos n)) journal (some subscription))
            (record s { event_hub = level }))))
