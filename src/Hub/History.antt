-- ===== src/Hub/History.antt =====
-- event_hub.py: the bounded history against the log of everything published to the thread, and the
-- replay that `subscribe` takes from it.
use mathlib.Core.List.{append_assoc}
use agent_app_server.Base.{
  ℕ, ◌+◌, ◌-◌, ◌≤◌, ◌<◌, ◌≡◌, refl, sym, ap, subst, ◌∙◌, false, some, List, [], ◌∷◌, ◌++◌, arith,
  ltb, ℤ, pos_part, neg_part, length, length-append, drop, take, length-drop, take-append-drop,
  select, select-append, select-none, All, All-append, All-map,
}
use agent_app_server.Hub.{
  EventEnvelope, ThreadEvents, append_bounded, needs_resync, replay, is_after,
}

module _ {D : Type 0} where
  -- Sequences rise strictly, from above `n`.
  abbrev pub Rises : ℕ → List (EventEnvelope D) → Type 0
  Rises n [] = Unit
  Rises n (e ∷ es) = (n < e.sequence) × Rises e.sequence es

  -- `log` is all that was published to the thread: the history is its end, and what was cut off
  -- is not missed while the history is empty.
  pub record IsHistory (limit : ℕ) (log : List (EventEnvelope D)) (s : ThreadEvents D)
      : Type 0 where
    pub evicted : List (EventEnvelope D)
    pub split : log ≡ evicted ++ s.history
    pub kept : s.history ≡ [] → evicted ≡ []
    pub rises : Rises 0 log
    pub reached : All (λ e. e.sequence ≤ s.sequence) log
    pub bounded : length s.history ≤ limit

  Rises-append :
      (n top : ℕ) (es : List (EventEnvelope D)) (e : EventEnvelope D)
      → Rises n es
      → All (λ x. x.sequence ≤ top) es
      → n ≤ top
      → top < e.sequence
      → Rises n (es ++ e ∷ [])
  Rises-append n top [] e r h le lt = (omega arith, tt)
  Rises-append n top (x ∷ es) e r h le lt = (r.0, Rises-append x.sequence top es e r.1 h.1 h.0 lt)

  -- What stands before an event in a rising list is below it.
  Rises-before :
      (n : ℕ) (old : List (EventEnvelope D)) (e : EventEnvelope D) (es : List (EventEnvelope D))
      → Rises n (old ++ e ∷ es)
      → (n < e.sequence) × All (λ x. x.sequence < e.sequence) old
  Rises-before n [] e es r = (r.0, tt)
  Rises-before n (x ∷ old) e es r =
      let (lt, rest) = Rises-before x.sequence old e es r.1 in (omega arith, (lt, rest))

  pub no_events-IsHistory :
      (limit sequence : ℕ) (is : List ℕ)
      → IsHistory limit [] (record { history = []; sequence = sequence; subscribers = is })
  no_events-IsHistory limit sequence is = record {
    evicted = [];
    split = refl;
    kept = λ e. refl;
    rises = tt;
    reached = tt;
    bounded = omega arith;
  }

  append_bounded-not-nil :
      (limit : ℕ) (h : List (EventEnvelope D)) (e : EventEnvelope D)
      → 0 < limit
      → 0 < length (append_bounded limit h e)
  unfolding append_bounded
  append_bounded-not-nil limit h e pos_limit =
      omega
        (arith, length-drop (length (h ++ e ∷ []) - limit) (h ++ e ∷ []), length-append h (e ∷ []))

  -- A published event extends the log; the deque may cut the oldest entry.
  pub append_bounded-IsHistory :
      (limit : ℕ) (log : List (EventEnvelope D)) (s : ThreadEvents D) (e : EventEnvelope D)
      (is : List ℕ)
      → 0 < limit
      → IsHistory limit log s
      → s.sequence < e.sequence
      → IsHistory limit (log ++ e ∷ []) (record {
        history = append_bounded limit s.history e;
        sequence = e.sequence;
        subscribers = is;
      })
  unfolding append_bounded
  append_bounded-IsHistory limit log s e is pos_limit h lt =
      let longer = s.history ++ e ∷ [] in
      let cut = length longer - limit in
      record {
        evicted = h.evicted ++ take cut longer;
        split =
            ap (λ l. l ++ e ∷ []) h.split
            ∙ append_assoc h.evicted s.history (e ∷ [])
            ∙ sym (
                append_assoc h.evicted (take cut longer) (drop cut longer)
                ∙ ap (◌++◌ h.evicted) (take-append-drop cut longer));
        kept = λ nil.
            absurd
              (omega (arith, ap length nil, append_bounded-not-nil limit s.history e pos_limit));
        rises = Rises-append 0 s.sequence log e h.rises h.reached (omega arith) lt;
        reached =
            All-append _ log (e ∷ []) (All-map log (λ x le. omega arith) h.reached)
              (omega arith, tt);
        bounded = omega (arith, length-drop cut longer);
      }

  not-is_after :
      (after : ℤ) (top : ℕ) (old : List (EventEnvelope D))
      → ltb (pos_part after + 1) (top + neg_part after) ≡ false
      → All (λ x. x.sequence < top) old
      → All (λ x. is_after after x ≡ false) old
  not-is_after after top [] clear below = tt
  not-is_after after top (x ∷ old) clear below =
      (ground (arith, below.0), not-is_after after top old clear below.1)

  -- What was cut off lies before every cursor that the window serves.
  select-evicted :
      (after : ℤ) (old history : List (EventEnvelope D)) (sequence : ℕ) (is : List ℕ)
      → Rises 0 (old ++ history)
      → (history ≡ [] → old ≡ [])
      → needs_resync (record { history = history; sequence = sequence; subscribers = is }) after
        ≡ false
      → select (is_after after) old ≡ []
  unfolding needs_resync
  select-evicted after old [] sequence is r kept clear = rw (kept refl)
  select-evicted after old (e ∷ es) sequence is r kept clear =
      select-none (is_after after) old
        (not-is_after after e.sequence old (ground arith) (Rises-before 0 old e es r).1)

  -- The replay of a subscription that needs no reload is exactly the published events after the
  -- client's cursor, in order, also where the history has dropped older ones.
  pub replay-eq-select :
      (limit : ℕ) (log : List (EventEnvelope D)) (s : ThreadEvents D) (after : ℤ)
      → IsHistory limit log s
      → (replay s (some after)).0 ≡ false
      → (replay s (some after)).1 ≡ select (is_after after) log
  unfolding replay
  replay-eq-select limit log s after h clear =
      let window : needs_resync s after ≡ false = ground arith in
      rw window (
        sym (
          ap (select (is_after after)) h.split
          ∙ select-append (is_after after) h.evicted s.history
          ∙ ap (λ l. l ++ select (is_after after) s.history)
              (select-evicted after h.evicted s.history s.sequence s.subscribers
                (subst (Rises 0) h.split h.rises) h.kept window)))
