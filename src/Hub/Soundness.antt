-- ===== src/Hub/Soundness.antt =====
-- event_hub.py: the invariant of the hub, and that a new hub has it.
use agent_app_server.Base.{
  ℕ, ◌≤◌, ◌<◌, ◌≡◌, sym, ap, fun_ext, subst, ◌∙◌, true, false, Option, none, some, List, [], ◌∷◌,
  ◌++◌, arith, ite, if_pos, if_neg, ℕ_discrete, ok, ℤ, pos, negsuc, pos_part, length, length-append,
  All-map,
}
use agent_app_server.Base.Dict
use agent_app_server.Base.Dict.{get-put}
use agent_app_server.Keys.{Key, Key-discrete}
use agent_app_server.Hub.{
  EventEnvelope, Item, event, EventHub, new, ThreadEvents, Subscription, state, deliver,
  next_sequence,
}
use agent_app_server.Hub.Delivery.{has, IsDistinct, has_room, deliver?}
use agent_app_server.Hub.History.{IsHistory, no_events-IsHistory}
use agent_app_server.Hub.Calls.{tail}

pub next_sequence_later :
    (current : ℕ) (sequence : Option ℤ) (n : ℕ)
    → next_sequence current sequence ≡ ok n
    → current < n
unfolding next_sequence
next_sequence_later current none n e = ground arith
next_sequence_later current (some (negsuc m)) n e = ground arith
next_sequence_later current (some (pos m)) n e = ground arith

module _ {D : Type 0} where
  -- A subscriber of the thread `k`: registered there and open.
  abbrev pub Listed : Key → Option (Subscription D) → Type 0
  Listed k none = ⊥
  Listed k (some s) = (s.key ≡ k) × (s.closed ≡ false)

  -- `log k` is all that was published to the thread `k`.
  pub record IsSound (log : Key → List (EventEnvelope D)) (hub : EventHub D) : Type 0 where
    pub positive : 0 < hub.history_limit
    pub queue_positive : 0 < hub.subscriber_queue_limit
    pub histories : (k : Key) → IsHistory hub.history_limit (log k) (state hub k)
    pub distinct : (k : Key) → IsDistinct (state hub k).subscribers
    pub listed :
        (k : Key) (i : ℕ)
        → has i (state hub k).subscribers ≡ true
        → Listed k (Dict.get ℕ_discrete hub.subscriptions i)
    pub fresh :
        (i : ℕ) (s : Subscription D)
        → Dict.get ℕ_discrete hub.subscriptions i ≡ some s
        → i < hub.next_id
    pub queues :
        (i : ℕ) (s : Subscription D)
        → Dict.get ℕ_discrete hub.subscriptions i ≡ some s
        → length s.queue ≤ hub.subscriber_queue_limit

  -- The history speaks of the events and the sequence only, and the sequence may be advanced.
  pub IsHistory-advance :
      (limit : ℕ) (log : List (EventEnvelope D)) (s t : ThreadEvents D)
      → t.history ≡ s.history
      → s.sequence ≤ t.sequence
      → IsHistory limit log s
      → IsHistory limit log t
  IsHistory-advance limit log s t same le h = record {
    evicted = h.evicted;
    split = h.split ∙ ap (◌++◌ h.evicted) (sym same);
    kept = λ e. h.kept (sym same ∙ e);
    rises = h.rises;
    reached = All-map log (λ x b. omega arith) h.reached;
    bounded = subst (λ l. length l ≤ limit) (sym same) h.bounded;
  }

  -- A write of one thread's state, by a rule for that thread.
  pub at_ite :
      (P : Key → ThreadEvents D → Type 0) (key k : Key) (new old : ThreadEvents D)
      → P key new
      → P k old
      → P k (ite (Key-discrete key k) new old)
  at_ite P key k new old here there = elim (Key-discrete key k) [
    | yes e ↦ rw (if_pos _ e) (subst (λ j. P j new) e here)
    | no ne ↦ rw (if_neg _ ne) there
  ]

  pub deliver?-Listed :
      (k : Key) (limit : ℕ) (e : EventEnvelope D) (o : Option (Subscription D))
      → has_room limit o ≡ true
      → Listed k o
      → Listed k (deliver? limit e o)
  unfolding deliver
  deliver?-Listed k limit e none room h = h
  deliver?-Listed k limit e (some s) room h = ground arith

  pub deliver-length :
      (limit : ℕ) (e : EventEnvelope D) (s : Subscription D)
      → 0 < limit
      → length (deliver limit e s).queue ≤ limit
  unfolding deliver
  deliver-length limit e s p = ground (arith, length-append s.queue (event e ∷ []))

  pub same_log :
      {log log' : Key → List (EventEnvelope D)} {hub : EventHub D}
      → ((k : Key) → log' k ≡ log k)
      → IsSound log hub
      → IsSound log' hub
  same_log {hub = hub} same h = subst (λ l. IsSound l hub) (sym (fun_ext same)) h

  pub length-tail : (q : List (Item D)) → length (tail q) ≤ length q
  length-tail [] = omega arith
  length-tail (x ∷ q) = omega arith

  abbrev fresh_hub : ℕ → ℕ → EventHub D
  fresh_hub history_limit queue_limit = record {
    history_limit = history_limit;
    subscriber_queue_limit = queue_limit;
    threads = [];
    subscriptions = [];
    next_id = 0;
    dropped_subscribers = 0;
  }

  fresh_hub-IsSound :
      (history_limit queue_limit : ℕ)
      → 0 < history_limit
      → 0 < queue_limit
      → IsSound (λ k. []) (fresh_hub history_limit queue_limit)
  unfolding state Dict.get
  fresh_hub-IsSound history_limit queue_limit h q = record {
    positive = h;
    queue_positive = q;
    histories = λ k. no_events-IsHistory history_limit 0 [];
    distinct = λ k. tt;
    listed = λ k i e. cc;
    fresh = λ i s e. cc;
    queues = λ i s e. cc;
  }

  pub new-IsSound :
      (history_limit queue_limit : ℤ) (hub : EventHub D)
      → new history_limit queue_limit ≡ ok hub
      → IsSound (λ k. []) hub
  unfolding new
  new-IsSound history_limit queue_limit hub e =
      let made : fresh_hub (pos_part history_limit) (pos_part queue_limit) ≡ hub =
        ground (arith, e) in
      subst (IsSound (λ k. [])) made (
        fresh_hub-IsSound (pos_part history_limit) (pos_part queue_limit) (ground (arith, e))
          (ground (arith, e)))
