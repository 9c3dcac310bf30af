-- ===== src/Hub/Calls.antt =====
-- event_hub.py: any sequence of calls on a hub, and what each of them publishes to a thread.
use agent_app_server.Base.{
  ℕ, String, ◌≡◌, refl, Option, none, some, List, [], ◌∷◌, ◌++◌, Result, ok, err, ℤ, ite, arith,
  ℕ_discrete, Option-cases, inl, inr, true, false,
}
use agent_app_server.Base.Dict
use agent_app_server.Base.Dict.{get-put}
use agent_app_server.Keys.{Key, Key-discrete}
use agent_app_server.Hub.{
  EventEnvelope, Item, EventHub, ThreadEvents, Subscription, HubError, state, set_state, publish,
  subscribe, close, next_event, take_item, current_sequence, advance_sequence, fan_out, deliver_all,
  append_bounded, discard, replay,
}

pub data HubCall (D : Type 0) : Type 0 where
  publishes : Key → String → String → D → Option D → Option String → Option ℤ → HubCall D
  subscribes : Key → Option ℤ → HubCall D
  closes : ℕ → HubCall D
  takes : ℕ → HubCall D
  reads : Key → HubCall D
  advances : Key → ℤ → HubCall D

module _ {D : Type 0} where
  unfoldable pub step : EventHub D → HubCall D → EventHub D
  step hub (publishes key event_type method empty payload turn_id sequence) =
      (publish hub key event_type method empty payload turn_id sequence).1
  step hub (subscribes key after) = (subscribe hub key after).1
  step hub (closes i) = close hub i
  step hub (takes i) = (next_event hub i).1
  step hub (reads key) = (current_sequence hub key).1
  step hub (advances key n) = (advance_sequence hub key n).1

  unfoldable pub run : EventHub D → List (HubCall D) → EventHub D
  run hub [] = hub
  run hub (c ∷ cs) = run (step hub c) cs

  -- The event of a publication that was accepted, for its own thread.
  abbrev pub accepted : Key → Key → Result HubError (EventEnvelope D) → List (EventEnvelope D)
  accepted key k (ok e) = ite (Key-discrete key k) (e ∷ []) []
  accepted key k (err x) = []

  -- What one call publishes to the thread `k`.
  unfoldable pub emitted : EventHub D → HubCall D → Key → List (EventEnvelope D)
  emitted hub (publishes key event_type method empty payload turn_id sequence) k =
      accepted key k (publish hub key event_type method empty payload turn_id sequence).0
  emitted hub _ k = []

  unfoldable pub published : EventHub D → List (HubCall D) → Key → List (EventEnvelope D)
  unfolding emitted
  published hub [] k = []
  published hub (c ∷ cs) k = emitted hub c k ++ published (step hub c) cs k

  -- How each operation changes the state of a thread, and the heap of subscriptions.
  pub state-put :
      (hub : EventHub D) (key k : Key) (s : ThreadEvents D)
      → state (set_state hub key s) k ≡ ite (Key-discrete key k) s (state hub k)
  unfolding state
  state-put hub key k s = ground (arith, get-put Key-discrete hub.threads key k s)

  unfoldable pub state_after_fan_out : EventHub D → Key → EventEnvelope D → ThreadEvents D
  state_after_fan_out hub key e = record {
    history = append_bounded hub.history_limit (state hub key).history e;
    sequence = e.sequence;
    subscribers =
        (deliver_all hub.subscriber_queue_limit e (state hub key).subscribers hub.subscriptions).0;
  }

  pub state-fan_out :
      (hub : EventHub D) (key k : Key) (e : EventEnvelope D)
      → state (fan_out hub key e) k
        ≡ ite (Key-discrete key k) (state_after_fan_out hub key e) (state hub k)
  unfolding state fan_out state_after_fan_out
  state-fan_out hub key k e =
      ground (arith, get-put Key-discrete hub.threads key k (state_after_fan_out hub key e))

  pub state-subscribe :
      (hub : EventHub D) (key k : Key) (after : Option ℤ)
      → state (subscribe hub key after).1 k
        ≡ ite
            (Key-discrete key k)
            (record (state hub key) { subscribers = hub.next_id ∷ (state hub key).subscribers })
            (state hub k)
  unfolding state subscribe
  state-subscribe hub key k after = ground (
    arith,
    get-put Key-discrete hub.threads key k
        (record (state hub key) { subscribers = hub.next_id ∷ (state hub key).subscribers }),
  )

  -- The subscription that `subscribe` makes.
  abbrev pub new_subscription : EventHub D → Key → Option ℤ → Subscription D
  new_subscription hub key after = record {
    key = key;
    queue = [];
    initial_events = (replay (state hub key) after).1;
    resync_required = (replay (state hub key) after).0;
    closed = false;
  }

  pub get-subscribe :
      (hub : EventHub D) (key : Key) (after : Option ℤ) (i : ℕ)
      → Dict.get ℕ_discrete (subscribe hub key after).1.subscriptions i
        ≡ ite
            (ℕ_discrete hub.next_id i)
            (some (new_subscription hub key after))
            (Dict.get ℕ_discrete hub.subscriptions i)
  unfolding subscribe
  get-subscribe hub key after i =
      get-put ℕ_discrete hub.subscriptions hub.next_id i (new_subscription hub key after)

  -- `close` takes the subscription off its own thread, and changes nothing else of any thread.
  pub state-close :
      (hub : EventHub D) (i : ℕ) (k : Key) (s : Subscription D)
      → Dict.get ℕ_discrete hub.subscriptions i ≡ some s
      → state (close hub i) k
        ≡ ite
            (Key-discrete s.key k)
            (record (state hub k) { subscribers = discard i (state hub k).subscribers })
            (state hub k)
  unfolding state close
  state-close hub i k s e = elim (Option-cases (Dict.get Key-discrete hub.threads s.key)) [
    | inl missing ↦ rw (e, close) (unfold discard in ground arith)
    | inr (t, found) ↦
        rw (e, close)
          (ground (
            arith,
            get-put Key-discrete hub.threads s.key k
                (record t { subscribers = discard i t.subscribers }),
          ))
  ]

  pub get-close :
      (hub : EventHub D) (i j : ℕ) (s : Subscription D)
      → Dict.get ℕ_discrete hub.subscriptions i ≡ some s
      → Dict.get ℕ_discrete (close hub i).subscriptions j
        ≡ ite
            (ℕ_discrete i j)
            (some (record s { closed = true }))
            (Dict.get ℕ_discrete hub.subscriptions j)
  unfolding close
  get-close hub i j s e =
      rw (e, close) (get-put ℕ_discrete hub.subscriptions i j (record s { closed = true }))

  -- The rest of the queue after `next_event`.
  abbrev pub tail : List (Item D) → List (Item D)
  tail [] = []
  tail (x ∷ rest) = rest

  get-take_item :
      (hub : EventHub D) (i j : ℕ) (s : Subscription D) (q : List (Item D))
      → Dict.get ℕ_discrete hub.subscriptions i ≡ some s
      → s.queue ≡ q
      → Dict.get ℕ_discrete (take_item hub i s q).1.subscriptions j
        ≡ ite
            (ℕ_discrete i j)
            (some (record s { queue = tail q }))
            (Dict.get ℕ_discrete hub.subscriptions j)
  unfolding take_item
  get-take_item hub i j s [] e eq = ground arith
  get-take_item hub i j s (x ∷ rest) e eq =
      get-put ℕ_discrete hub.subscriptions i j (record s { queue = rest })

  pub get-next_event :
      (hub : EventHub D) (i j : ℕ) (s : Subscription D)
      → Dict.get ℕ_discrete hub.subscriptions i ≡ some s
      → Dict.get ℕ_discrete (next_event hub i).1.subscriptions j
        ≡ ite
            (ℕ_discrete i j)
            (some (record s { queue = tail s.queue }))
            (Dict.get ℕ_discrete hub.subscriptions j)
  unfolding next_event
  get-next_event hub i j s e = rw (e, next_event) (get-take_item hub i j s s.queue e refl)

  threads-take_item :
      (hub : EventHub D) (i : ℕ) (s : Subscription D) (q : List (Item D))
      → (take_item hub i s q).1.threads ≡ hub.threads
  unfolding take_item
  threads-take_item hub i s [] = refl
  threads-take_item hub i s (x ∷ rest) = refl

  -- Taking an event changes no thread.
  pub threads-next_event : (hub : EventHub D) (i : ℕ) → (next_event hub i).1.threads ≡ hub.threads
  unfolding next_event
  threads-next_event hub i = elim (Option-cases (Dict.get ℕ_discrete hub.subscriptions i)) [
    | inl e ↦ rw (e, next_event) refl
    | inr (s, e) ↦ rw (e, next_event) (threads-take_item hub i s s.queue)
  ]

  -- The fields that no operation on a subscription changes.
  abbrev pub SameBounds : EventHub D → EventHub D → Type 0
  SameBounds a b =
      (b.history_limit ≡ a.history_limit)
      × (b.subscriber_queue_limit ≡ a.subscriber_queue_limit)
      × (b.next_id ≡ a.next_id)

  pub SameBounds-close : (hub : EventHub D) (i : ℕ) → SameBounds hub (close hub i)
  unfolding close
  SameBounds-close hub i = ground arith

  take_item-SameBounds :
      (hub : EventHub D) (i : ℕ) (s : Subscription D) (q : List (Item D))
      → SameBounds hub (take_item hub i s q).1
  unfolding take_item
  take_item-SameBounds hub i s [] = (refl, refl, refl)
  take_item-SameBounds hub i s (x ∷ rest) = (refl, refl, refl)

  pub SameBounds-next_event : (hub : EventHub D) (i : ℕ) → SameBounds hub (next_event hub i).1
  unfolding next_event
  SameBounds-next_event hub i = elim (Option-cases (Dict.get ℕ_discrete hub.subscriptions i)) [
    | inl e ↦ rw (e, next_event) (refl, refl, refl)
    | inr (s, e) ↦ rw (e, next_event) (take_item-SameBounds hub i s s.queue)
  ]

  pub next_event_missing :
      (hub : EventHub D) (i : ℕ)
      → Dict.get ℕ_discrete hub.subscriptions i ≡ none
      → (next_event hub i).1 ≡ hub
  unfolding next_event
  next_event_missing hub i e = rw (e, next_event)
