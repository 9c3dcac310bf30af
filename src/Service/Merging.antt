-- ===== src/Service/Merging.antt =====
-- codex_service.py, `subscribe_events`: the dictionary of events by sequence, read in rising order.
use agent_app_server.Base.{
  ℕ, ◌≤◌, ◌<◌, ◌≡◌, refl, ◌∙◌, Option, none, some, List, [], ◌∷◌, arith, if◌then◌else◌, ◌==◌, All,
  ◌⊎◌,
}
use agent_app_server.Json.{Fields}
use agent_app_server.Hub.{EventEnvelope}
use agent_app_server.Service.Subscribing.{merge_event, merge_events}

abbrev Event : Type 0
Event = EventEnvelope Fields

-- Sequences rise strictly from above `lo`.
abbrev pub Rising : ℕ → List (EventEnvelope Fields) → Type 0
Rising lo [] = Unit
Rising lo (e ∷ es) = (lo < e.sequence) × Rising e.sequence es

abbrev pub find : ℕ → List (EventEnvelope Fields) → Option (EventEnvelope Fields)
find k [] = none
find k (e ∷ es) = if e.sequence == k then some e else find k es

abbrev pub first_of :
    Option (EventEnvelope Fields) → Option (EventEnvelope Fields) → Option (EventEnvelope Fields)
first_of none o = o
first_of (some e) o = some e

merge_event-Rising :
    (lo : ℕ) (e : Event) (xs : List Event)
    → Rising lo xs
    → lo < e.sequence
    → Rising lo (merge_event e xs)
unfolding merge_event
merge_event-Rising lo e [] r above = (above, tt)
merge_event-Rising lo e (x ∷ xs) r above = ground (arith, merge_event-Rising x.sequence e xs)

find-merge_event :
    (k : ℕ) (e : Event) (xs : List Event)
    → find k (merge_event e xs) ≡ (if e.sequence == k then some e else find k xs)
unfolding merge_event
find-merge_event k e [] = refl
find-merge_event k e (x ∷ xs) = ground (arith, find-merge_event k e xs)

find-below : (k lo : ℕ) (es : List Event) → Rising lo es → k ≤ lo → find k es ≡ none
find-below k lo [] r le = refl
find-below k lo (e ∷ es) r le = ground (arith, find-below k e.sequence es)

pub merge_events-Rising :
    (lo : ℕ) (es merged : List Event)
    → All (λ e. lo < e.sequence) es
    → Rising lo merged
    → Rising lo (merge_events es merged)
unfolding merge_events
merge_events-Rising lo [] merged above r = r
merge_events-Rising lo (e ∷ es) merged above r =
    merge_events-Rising lo es (merge_event e merged) above.1
      (merge_event-Rising lo e merged r above.0)

-- A rising list takes precedence over what it is merged into.
pub find-merge_events :
    (k lo : ℕ) (es merged : List Event)
    → Rising lo es
    → find k (merge_events es merged) ≡ first_of (find k es) (find k merged)
unfolding merge_events
find-merge_events k lo [] merged r = refl
find-merge_events k lo (e ∷ es) merged r =
    find-merge_events k e.sequence es (merge_event e merged) r.1
    ∙ ground (arith, find-merge_event k e merged, find-below k e.sequence es r.1)

-- Merging adds no sequence that a bound excludes.
pub find-outside :
    (k lo hi : ℕ) (es merged : List Event)
    → All (λ e. (lo < e.sequence) × (e.sequence ≤ hi)) es
    → find k merged ≡ none
    → (k ≤ lo) ⊎ (hi < k)
    → find k (merge_events es merged) ≡ none
unfolding merge_events
find-outside k lo hi [] merged within absent out = absent
find-outside k lo hi (e ∷ es) merged within absent out =
    find-outside k lo hi es (merge_event e merged) within.1
      (ground (arith, find-merge_event k e merged, within.0, out)) out

-- Two rising lists with the same events at all sequences are one.
pub Rising-ext :
    (lo : ℕ) (xs ys : List Event)
    → Rising lo xs
    → Rising lo ys
    → ((k : ℕ) → find k xs ≡ find k ys)
    → xs ≡ ys
Rising-ext lo [] [] rx ry same = refl
Rising-ext lo [] (y ∷ ys) rx ry same = ground (arith, same y.sequence)
Rising-ext lo (x ∷ xs) [] rx ry same = ground (arith, same x.sequence)
Rising-ext lo (x ∷ xs) (y ∷ ys) rx ry same =
    let level : x.sequence ≡ y.sequence = ground (
      arith,
      same x.sequence,
      same y.sequence,
      find-below x.sequence y.sequence ys ry.1,
      find-below y.sequence x.sequence xs rx.1,
    ) in
    let head : x ≡ y = ground (arith, same x.sequence, level) in
    let tail = Rising-ext x.sequence xs ys rx.1 (rw level ry.1) (λ k.
      ground (arith, same k, find-below k x.sequence xs rx.1, find-below k y.sequence ys ry.1)) in
    λ i. head i ∷ tail i
