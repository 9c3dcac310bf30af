-- ===== src/Hub.antt =====
-- event_hub.py: the process-local fan-out of thread events and its bounded replay history. Each
-- method that holds the hub's lock is one function on the state. A subscription is a shared object:
-- it has a number, and `subscriptions` is the heap that the numbers point into. An event's data is
-- carried unread, so its type `D` and the empty value `{}` are parameters.
pub mod Delivery
pub mod History
pub mod Calls
pub mod Soundness
pub mod SoundPublish
pub mod SoundReaders
pub mod Invariant
pub mod Stream
pub mod Replay
pub mod Publish
mod Examples
use agent_app_server.Base.{
  ℕ, suc, ◌+◌, ◌-◌, String, Bool, true, false, ◌||◌, Option, none, some, List, [], ◌∷◌, ◌++◌,
  Result, ok, err, ℤ, pos, negsuc, if◌then◌else◌, ltb, leb, ltb_ℤ, ℕ_discrete, String-discrete,
  holds, length, drop, select, max, pos_part, neg_part,
}
use agent_app_server.Base.Dict
use agent_app_server.Base.Dict.{Dict, values}
use agent_app_server.Keys.{Key, Key-discrete}

pub record EventEnvelope (D : Type 0) : Type 0 where
  pub sequence : ℕ
  pub thread_id : String
  pub turn_id : Option String
  pub type : String
  pub method : String
  pub payload : D

-- What stands in a subscriber's queue: an event, or the mark `_RESYNC`.
pub data Item (D : Type 0) : Type 0 where
  event : EventEnvelope D → Item D
  resync : Item D

pub record Subscription (D : Type 0) : Type 0 where
  pub key : Key
  pub queue : List (Item D)
  pub initial_events : List (EventEnvelope D)
  pub resync_required : Bool
  pub closed : Bool

pub record ThreadEvents (D : Type 0) : Type 0 where
  pub history : List (EventEnvelope D)
  pub sequence : ℕ
  pub subscribers : List ℕ

pub record EventHub (D : Type 0) : Type 0 where
  pub history_limit : ℕ
  pub subscriber_queue_limit : ℕ
  pub threads : Dict Key (ThreadEvents D)
  pub subscriptions : Dict ℕ (Subscription D)
  pub next_id : ℕ
  pub dropped_subscribers : ℕ

-- The two causes of `ValueError` that a running hub has, and the one of its constructor.
pub data HubError : Type 0 where
  not_increasing negative_sequence limits_not_positive : HubError

-- The sequence that `publish` gives its event.
unfoldable pub next_sequence : ℕ → Option ℤ → Result HubError ℕ
next_sequence current none = ok (current + 1)
next_sequence current (some (negsuc n)) = err not_increasing
next_sequence current (some (pos n)) = if leb n current then err not_increasing else ok n

-- `set.discard`
unfoldable pub discard : ℕ → List ℕ → List ℕ
discard i [] = []
discard i (j ∷ js) = if holds (ℕ_discrete j i) then js else j ∷ discard i js

module _ {D : Type 0} where
  -- `EventHub(history_limit=…, subscriber_queue_limit=…)`
  unfoldable pub new : ℤ → ℤ → Result HubError (EventHub D)
  new history_limit queue_limit =
      if ltb_ℤ history_limit (pos 1) || ltb_ℤ queue_limit (pos 1)
      then err limits_not_positive
      else ok (record {
        history_limit = pos_part history_limit;
        subscriber_queue_limit = pos_part queue_limit;
        threads = [];
        subscriptions = [];
        next_id = 0;
        dropped_subscribers = 0;
      })

  abbrev pub no_events : ThreadEvents D
  no_events = record { history = []; sequence = 0; subscribers = [] }

  -- `_state`, without the write that keeps a new state.
  unfoldable pub state : EventHub D → Key → ThreadEvents D
  state hub key = elim (Dict.get Key-discrete hub.threads key) [ none ↦ no_events | some s ↦ s ]

  abbrev pub set_state : EventHub D → Key → ThreadEvents D → EventHub D
  set_state hub key s = record hub { threads = Dict.put Key-discrete hub.threads key s }

  -- `deque(maxlen=limit).append`
  unfoldable pub append_bounded :
      ℕ → List (EventEnvelope D) → EventEnvelope D → List (EventEnvelope D)
  append_bounded limit history e =
      let longer = history ++ e ∷ [] in drop (length longer - limit) longer

  -- One subscriber's share of `publish`. A full queue is emptied, and holds the mark alone.
  unfoldable pub deliver : ℕ → EventEnvelope D → Subscription D → Subscription D
  deliver limit e s =
      if ltb (length s.queue) limit
      then record s { queue = s.queue ++ event e ∷ [] }
      else record s { queue = resync ∷ []; closed = true }

  -- One round of the loop in `publish`: whether the subscriber stays, and the heap.
  unfoldable pub deliver_one :
      ℕ → EventEnvelope D → ℕ → Dict ℕ (Subscription D) → Bool × Dict ℕ (Subscription D)
  unfolding deliver
  deliver_one limit e i heap = elim (Dict.get ℕ_discrete heap i) [
    | none ↦ (true, heap)
    | some s ↦ (ltb (length s.queue) limit, Dict.put ℕ_discrete heap i (deliver limit e s))
  ]

  -- The loop over the subscribers: those that stay, the heap, and the number dropped.
  unfoldable pub deliver_all :
      ℕ → EventEnvelope D → List ℕ → Dict ℕ (Subscription D) → List ℕ × Dict ℕ (Subscription D) × ℕ
  deliver_all limit e [] heap = ([], heap, 0)
  deliver_all limit e (i ∷ is) heap =
      let (stays, heap') = deliver_one limit e i heap in
      let (kept, final, dropped) = deliver_all limit e is heap' in
      (if stays then i ∷ kept else kept, final, if stays then dropped else suc dropped)

  unfoldable pub envelope :
      Key → String → String → D → Option D → Option String → ℕ → EventEnvelope D
  envelope key event_type method empty payload turn_id sequence = record {
    sequence = sequence;
    thread_id = key.thread_id;
    turn_id = turn_id;
    type = event_type;
    method = method;
    payload = elim payload [ none ↦ empty | some d ↦ d ];
  }

  -- `publish` from the point where the envelope is made.
  unfoldable pub fan_out : EventHub D → Key → EventEnvelope D → EventHub D
  unfolding append_bounded
  fan_out hub key e =
      let s = state hub key in
      let (kept, heap, dropped) =
        deliver_all hub.subscriber_queue_limit e s.subscribers hub.subscriptions in
      record hub {
        threads = Dict.put Key-discrete hub.threads key (record {
          history = append_bounded hub.history_limit s.history e;
          sequence = e.sequence;
          subscribers = kept;
        });
        subscriptions = heap;
        dropped_subscribers = hub.dropped_subscribers + dropped;
      }

  unfoldable pub publish :
      EventHub D
      → Key
      → String
      → String
      → D
      → Option D
      → Option String
      → Option ℤ
      → Result HubError (EventEnvelope D) × EventHub D
  publish hub key event_type method empty payload turn_id sequence =
      elim (next_sequence (state hub key).sequence sequence) [
        | err e ↦ (err e, set_state hub key (state hub key))
        | ok n ↦
            let e = envelope key event_type method empty payload turn_id n in
            (ok e, fan_out hub key e)
      ]

  -- `after_sequence > state.sequence or (history and after_sequence < history[0].sequence - 1)`
  unfoldable pub needs_resync : ThreadEvents D → ℤ → Bool
  needs_resync s after = ltb_ℤ (pos s.sequence) after || elim s.history [
    | [] ↦ false
    | e ∷ _ ↦ ltb (pos_part after + 1) (e.sequence + neg_part after)
  ]

  abbrev pub is_after : ℤ → EventEnvelope D → Bool
  is_after after e = ltb_ℤ after (pos e.sequence)

  unfoldable pub replay : ThreadEvents D → Option ℤ → Bool × List (EventEnvelope D)
  unfolding needs_resync
  replay s none = (false, [])
  replay s (some after) =
      if needs_resync s after then (true, []) else (false, select (is_after after) s.history)

  unfoldable pub subscribe : EventHub D → Key → Option ℤ → ℕ × EventHub D
  unfolding replay
  subscribe hub key after =
      let s = state hub key in
      let (resync_required, initial) = replay s after in
      (
        hub.next_id,
        record hub {
          threads =
              Dict.put Key-discrete hub.threads key
                (record s { subscribers = hub.next_id ∷ s.subscribers });
          subscriptions = Dict.put ℕ_discrete hub.subscriptions hub.next_id (record {
            key = key;
            queue = [];
            initial_events = initial;
            resync_required = resync_required;
            closed = false;
          });
          next_id = suc hub.next_id;
        },
      )

  unfoldable pub close : EventHub D → ℕ → EventHub D
  unfolding discard
  close hub i = elim (Dict.get ℕ_discrete hub.subscriptions i) [
    | none ↦ hub
    | some s ↦ record hub {
      threads = elim (Dict.get Key-discrete hub.threads s.key) [
        | none ↦ hub.threads
        | some t ↦
            Dict.put Key-discrete hub.threads s.key
              (record t { subscribers = discard i t.subscribers })
      ];
      subscriptions = Dict.put ℕ_discrete hub.subscriptions i (record s { closed = true });
    }
  ]

  -- `None if item is _RESYNC else item`
  abbrev pub returned : Item D → Option (EventEnvelope D)
  returned resync = none
  returned (event e) = some e

  unfoldable pub take_item :
      EventHub D
      → ℕ
      → Subscription D
      → List (Item D)
      → Option (Option (EventEnvelope D)) × EventHub D
  take_item hub i s [] = (none, hub)
  take_item hub i s (x ∷ rest) = (
    some (returned x),
    record hub {
      subscriptions = Dict.put ℕ_discrete hub.subscriptions i (record s { queue = rest });
    },
  )

  -- `next_event`: none while the queue is empty and the caller waits; else the event, or the
  -- `None` that tells the caller to load the thread anew.
  unfoldable pub next_event : EventHub D → ℕ → Option (Option (EventEnvelope D)) × EventHub D
  unfolding take_item
  next_event hub i = elim (Dict.get ℕ_discrete hub.subscriptions i) [
    | none ↦ (none, hub)
    | some s ↦ take_item hub i s s.queue
  ]

  unfoldable pub current_sequence : EventHub D → Key → ℕ × EventHub D
  current_sequence hub key = ((state hub key).sequence, set_state hub key (state hub key))

  unfoldable pub advance_sequence : EventHub D → Key → ℤ → Result HubError (Unit {0}) × EventHub D
  advance_sequence hub key (negsuc n) = (err negative_sequence, hub)
  advance_sequence hub key (pos n) =
      let s = state hub key in (ok tt, set_state hub key (record s { sequence = max s.sequence n }))

-- `owner_id is None or state_owner_id == owner_id`
unfoldable pub is_counted : Option String → Key → Bool
is_counted none key = true
is_counted (some owner) key = elim key.owner_id [
  | none ↦ false
  | some o ↦ holds (String-discrete o owner)
]

unfoldable pub subscriber_count : {D : Type 0} → Option String → Dict Key (ThreadEvents D) → ℕ
subscriber_count owner_id [] = 0
subscriber_count owner_id ((key, s) ∷ threads) =
    (if is_counted owner_id key then length s.subscribers else 0)
    + subscriber_count owner_id threads
