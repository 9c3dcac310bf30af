-- ===== src/Hub/Stream.antt =====
-- event_hub.py: what one subscriber reads over time, against what is published to its thread.
use mathlib.Core.List.{append-nil, append_assoc, map-append}
use agent_app_server.Base.{
  ℕ, ◌<◌, ◌≡◌, refl, sym, ap, subst, subst₂, ◌∙◌, ◌⊎◌, ◌≢◌, inl, inr, Bool, true, Option, none,
  some, List, [], ◌∷◌, ◌++◌, map, arith, ite, if_pos, if_neg, ℕ_discrete, ℤ, pos, negsuc, length,
  max, ltb, Bool-cases, Option-cases, Result-cases, String,
}
use agent_app_server.Base.Dict
use agent_app_server.Base.Dict.{get-put}
use agent_app_server.Keys.{Key, Key-discrete}
use agent_app_server.Hub.{
  EventEnvelope, Item, event, EventHub, ThreadEvents, Subscription, state, publish, subscribe,
  close, next_event, take_item, current_sequence, advance_sequence, fan_out, deliver, next_sequence,
  envelope, returned, set_state,
}
use agent_app_server.Hub.Delivery.{has, has-discard}
use agent_app_server.Hub.Calls.{
  HubCall, publishes, subscribes, closes, takes, reads, advances, step, run, emitted, accepted,
  published, state-put, state_after_fan_out, state-fan_out, state-subscribe, get-subscribe,
  new_subscription, state-close, get-close, get-next_event, next_event_missing, tail,
}
use agent_app_server.Hub.Soundness.{IsSound, next_sequence_later}
use agent_app_server.Hub.SoundPublish.{get-fan_out, kept-fan_out}
use agent_app_server.Hub.SoundReaders.{state-next_event}
use agent_app_server.Hub.Invariant.{step-IsSound}

module _ {D : Type 0} where
  -- What is waiting in a queue, as `next_event` will return it.
  abbrev pub waiting : List (Item D) → List (Option (EventEnvelope D))
  waiting = map returned

  abbrev pub as_read : List (EventEnvelope D) → List (Option (EventEnvelope D))
  as_read = map some

  -- A subscription of `key` that has read `got` since `pub` was published is closed, or has exactly
  -- the rest of `pub` waiting.
  abbrev pub KeepsUp :
      Bool → List (Option (EventEnvelope D)) → List (EventEnvelope D) → Subscription D → Type 0
  KeepsUp registered got events s =
      (s.closed ≡ true) ⊎ ((registered ≡ true) × (got ++ waiting s.queue ≡ as_read events))

  abbrev pub Follows :
      EventHub D → Key → ℕ → List (Option (EventEnvelope D)) → List (EventEnvelope D) → Type 0
  Follows hub key i got events =
      (s : Subscription D) × (Dict.get ℕ_discrete hub.subscriptions i ≡ some s)
      × (s.key ≡ key)
      × KeepsUp (has i (state hub key).subscribers) got events s

  -- What a call hands to the reader of the subscription `i`.
  abbrev pub shown : Option (Option (EventEnvelope D)) → List (Option (EventEnvelope D))
  shown none = []
  shown (some x) = x ∷ []

  unfoldable pub received : EventHub D → HubCall D → ℕ → List (Option (EventEnvelope D))
  received hub (takes j) i = ite (ℕ_discrete j i) (shown (next_event hub j).0) []
  received hub _ i = []

  unfoldable pub has_read : EventHub D → List (HubCall D) → ℕ → List (Option (EventEnvelope D))
  unfolding received
  has_read hub [] i = []
  has_read hub (c ∷ cs) i = received hub c i ++ has_read (step hub c) cs i

  shown-take_item :
      (hub : EventHub D) (i : ℕ) (s : Subscription D) (q : List (Item D))
      → shown (take_item hub i s q).0 ++ waiting (tail q) ≡ waiting q
  unfolding take_item
  shown-take_item hub i s [] = refl
  shown-take_item hub i s (x ∷ rest) = refl

  -- `next_event` hands over the front of the queue.
  shown-next_event :
      (hub : EventHub D) (i : ℕ) (s : Subscription D)
      → Dict.get ℕ_discrete hub.subscriptions i ≡ some s
      → shown (next_event hub i).0 ++ waiting (tail s.queue) ≡ waiting s.queue
  unfolding next_event
  shown-next_event hub i s e = rw (e, next_event) (shown-take_item hub i s s.queue)

  -- One more event at the end of the queue.
  enqueue :
      (got : List (Option (EventEnvelope D))) (q : List (Item D)) (events : List (EventEnvelope D))
      (e : EventEnvelope D)
      → got ++ waiting q ≡ as_read events
      → got ++ waiting (q ++ event e ∷ []) ≡ as_read (events ++ e ∷ [])
  enqueue got q events e h =
      rw (map-append, map-append)
        (sym (append_assoc got (waiting q) (some e ∷ [])) ∙ ap (λ l. l ++ some e ∷ []) h)

  module _ {log : Key → List (EventEnvelope D)} {hub : EventHub D} (sound : IsSound log hub)
      (key : Key) (i : ℕ) (got : List (Option (EventEnvelope D)))
      (events : List (EventEnvelope D)) where
    -- Writing a thread's state with the same subscribers.
    set_state-Follows :
        (k : Key) (t : ThreadEvents D)
        → t.subscribers ≡ (state hub k).subscribers
        → Follows hub key i got events
        → Follows (set_state hub k t) key i got events
    set_state-Follows k t same (s, found, own, up) = (
      s,
      found,
      own,
      subst (λ b. KeepsUp b got events s) (ground (arith, same, state-put hub k key t)) up,
    )

    fan_out_own :
        (e : EventEnvelope D) (s : Subscription D)
        → Dict.get ℕ_discrete hub.subscriptions i ≡ some s
        → s.key ≡ key
        → has i (state hub key).subscribers ≡ true
        → got ++ waiting s.queue ≡ as_read events
        → (state hub key).sequence < e.sequence
        → Follows (fan_out hub key e) key i got (events ++ e ∷ [])
    unfolding deliver state_after_fan_out
    fan_out_own e s found own registered h later = (
      deliver hub.subscriber_queue_limit e s,
      ground (arith, get-fan_out sound key e later i),
      ground arith,
      elim (Bool-cases (ltb (length s.queue) hub.subscriber_queue_limit)) [
        | inl room ↦ inr (
          ground (arith, state-fan_out hub key key e, kept-fan_out sound key e later i),
          rw room (enqueue got s.queue events e h),
        )
        | inr full ↦ inl (rw full refl)
      ],
    )

    -- A subscription that is open and not of the thread `k` is not listed there, nor is a closed one.
    fan_out_kept :
        (k : Key) (e : EventEnvelope D) (s : Subscription D)
        → Dict.get ℕ_discrete hub.subscriptions i ≡ some s
        → (k ≢ s.key) ⊎ (s.closed ≡ true)
        → (state hub k).sequence < e.sequence
        → Dict.get ℕ_discrete (fan_out hub k e).subscriptions i ≡ some s
    fan_out_kept k e s found other later =
        ground (arith, get-fan_out sound k e later i, sound.listed k i)

    other_state :
        (k : Key) (e : EventEnvelope D) → k ≢ key → state (fan_out hub k e) key ≡ state hub key
    other_state k e other = ground (arith, state-fan_out hub k key e)

    fan_out-Follows :
        (k : Key) (e : EventEnvelope D)
        → (state hub k).sequence < e.sequence
        → Follows hub key i got events
        → Follows (fan_out hub k e) key i got (events ++ ite (Key-discrete k key) (e ∷ []) [])
    fan_out-Follows k e later (s, found, own, up) = elim (Key-discrete k key) [
      | yes same ↦ rw (if_pos _ same) (
          subst (λ j. Follows (fan_out hub j e) key i got (events ++ e ∷ [])) (sym same)
            (at_own (subst (λ j. (state hub j).sequence < e.sequence) same later) up))
      | no other ↦ rw (if_neg _ other) (
        s,
        fan_out_kept k e s found (inl (λ p. other (p ∙ own))) later,
        own,
        rw (append-nil events, other_state k e other) up,
      )
    ]
      where
        at_own :
            (state hub key).sequence < e.sequence
            → KeepsUp (has i (state hub key).subscribers) got events s
            → Follows (fan_out hub key e) key i got (events ++ e ∷ [])
        at_own later' (inl closed) =
            (s, fan_out_kept key e s found (inr closed) later', own, inl closed)
        at_own later' (inr (registered, h)) = fan_out_own e s found own registered h later'

    publish-Follows :
        (k : Key) (event_type method : String) (empty : D) (payload : Option D)
        (turn_id : Option String) (sequence : Option ℤ)
        → Follows hub key i got events
        → Follows (publish hub k event_type method empty payload turn_id sequence).1 key i got (
            events
            ++ accepted k key (publish hub k event_type method empty payload turn_id sequence).0)
    unfolding publish
    publish-Follows k event_type method empty payload turn_id sequence f =
        elim (Result-cases (next_sequence (state hub k).sequence sequence)) [
          | inl (n, e) ↦
              rw (e, publish)
                (fan_out-Follows k (envelope k event_type method empty payload turn_id n)
                  (unfold envelope in next_sequence_later (state hub k).sequence sequence n e) f)
          | inr (x, e) ↦ rw (e, publish) (rw append-nil (set_state-Follows k (state hub k) refl f))
        ]

    subscribe-Follows :
        (k : Key) (after : Option ℤ)
        → Follows hub key i got events
        → Follows (subscribe hub k after).1 key i got events
    subscribe-Follows k after (s, found, own, up) = (
      s,
      ground (arith, get-subscribe hub k after i, sound.fresh i s found),
      own,
      ground (arith, up, state-subscribe hub k key after),
    )

    close-Follows : (j : ℕ) → Follows hub key i got events → Follows (close hub j) key i got events
    close-Follows j (s, found, own, up) =
        elim (Option-cases (Dict.get ℕ_discrete hub.subscriptions j)) [
          | inl missing ↦ unfold close in rw (missing, close) (s, found, own, up)
          | inr (t, there) ↦ elim (ℕ_discrete j i) [
            | yes same ↦ (
              record s { closed = true },
              ground (arith, get-close hub j i t there),
              own,
              inl refl,
            )
            | no other ↦ (
              s,
              ground (arith, get-close hub j i t there),
              own,
              ground (
                arith,
                up,
                state-close hub j key t there,
                has-discard j i (state hub key).subscribers (sound.distinct key),
              ),
            )
          ]
        ]

    next_event-Follows :
        (j : ℕ)
        → Follows hub key i got events
        → Follows
            (next_event hub j).1
            key
            i
            (got ++ ite (ℕ_discrete j i) (shown (next_event hub j).0) [])
            events
    next_event-Follows j (s, found, own, up) = elim (ℕ_discrete j i) [
      | yes same ↦ rw (if_pos _ same) (
          subst (λ m. Follows (next_event hub m).1 key i (got ++ shown (next_event hub m).0) events)
            (sym same)
            (
              record s { queue = tail s.queue },
              ground (arith, get-next_event hub i i s found),
              own,
              at_front up,
            ))
      | no other ↦
          rw (if_neg _ other, append-nil)
            (s, get_other other, own, rw (state-next_event sound j key) up)
    ]
      where
        at_front :
            KeepsUp (has i (state hub key).subscribers) got events s
            → KeepsUp
                (has i (state (next_event hub i).1 key).subscribers)
                (got ++ shown (next_event hub i).0)
                events
                (record s { queue = tail s.queue })
        at_front (inl closed) = inl closed
        at_front (inr (registered, h)) = inr (
          rw (state-next_event sound i key) registered,
          append_assoc got (shown (next_event hub i).0) (waiting (tail s.queue))
              ∙ ap (◌++◌ got) (shown-next_event hub i s found)
              ∙ h,
        )

        get_other : (j ≢ i) → Dict.get ℕ_discrete (next_event hub j).1.subscriptions i ≡ some s
        get_other other = elim (Option-cases (Dict.get ℕ_discrete hub.subscriptions j)) [
          | inl missing ↦ rw (next_event_missing hub j missing) found
          | inr (t, there) ↦ ground (arith, get-next_event hub j i t there)
        ]

  step-Follows :
      (log : Key → List (EventEnvelope D)) (hub : EventHub D) (c : HubCall D) (key : Key) (i : ℕ)
      (got : List (Option (EventEnvelope D))) (events : List (EventEnvelope D))
      → IsSound log hub
      → Follows hub key i got events
      → Follows (step hub c) key i (got ++ received hub c i) (events ++ emitted hub c key)
  unfolding step emitted received current_sequence advance_sequence
  step-Follows log hub (publishes k event_type method empty payload turn_id sequence) key i got
        events s f =
      rw (append-nil got)
        (publish-Follows s key i got events k event_type method empty payload turn_id sequence f)
  step-Follows log hub (subscribes k after) key i got events s f =
      rw (append-nil got, append-nil events) (subscribe-Follows s key i got events k after f)
  step-Follows log hub (closes j) key i got events s f =
      rw (append-nil got, append-nil events) (close-Follows s key i got events j f)
  step-Follows log hub (takes j) key i got events s f =
      rw (append-nil events) (next_event-Follows s key i got events j f)
  step-Follows log hub (reads k) key i got events s f =
      rw (append-nil got, append-nil events)
        (set_state-Follows s key i got events k (state hub k) refl f)
  step-Follows log hub (advances k (negsuc n)) key i got events s f =
      rw (append-nil got, append-nil events) f
  step-Follows log hub (advances k (pos n)) key i got events s f =
      rw (append-nil got, append-nil events)
        (set_state-Follows s key i got events k
          (record (state hub k) { sequence = max (state hub k).sequence n }) refl f)

  pub run-Follows :
      (log : Key → List (EventEnvelope D)) (hub : EventHub D) (cs : List (HubCall D)) (key : Key)
      (i : ℕ) (got : List (Option (EventEnvelope D))) (events : List (EventEnvelope D))
      → IsSound log hub
      → Follows hub key i got events
      → Follows (run hub cs) key i (got ++ has_read hub cs i) (events ++ published hub cs key)
  unfolding run has_read published
  run-Follows log hub [] key i got events s f = rw (append-nil got, append-nil events) f
  run-Follows log hub (c ∷ cs) key i got events s f =
      subst₂ (λ g p. Follows (run (step hub c) cs) key i g p)
        (append_assoc got (received hub c i) (has_read (step hub c) cs i))
        (append_assoc events (emitted hub c key) (published (step hub c) cs key))
        (run-Follows (λ k. log k ++ emitted hub c k) (step hub c) cs key i (got ++ received hub c i)
          (events ++ emitted hub c key) (step-IsSound log hub c s)
          (step-Follows log hub c key i got events s f))

  pub subscribe-begins :
      (hub : EventHub D) (key : Key) (after : Option ℤ)
      → Follows (subscribe hub key after).1 key hub.next_id [] []
  subscribe-begins hub key after = (
    new_subscription hub key after,
    ground (arith, get-subscribe hub key after hub.next_id),
    refl,
    inr (ground (arith, state-subscribe hub key key after), refl),
  )
