-- ===== src/Hub/SoundReaders.antt =====
-- event_hub.py: `subscribe`, `close` and `next_event` keep the invariant.
use agent_app_server.Base.{
  ℕ, ◌≤◌, ◌<◌, ◌≡◌, refl, sym, ap, ◌∙◌, true, false, Option, some, List, ◌∷◌, arith, ℕ_discrete, ℤ,
  length, Option-cases, inl, inr, Bool-cases,
}
use agent_app_server.Base.Dict
use agent_app_server.Base.Dict.{get-put}
use agent_app_server.Keys.{Key}
use agent_app_server.Hub.{
  EventEnvelope, EventHub, ThreadEvents, Subscription, state, subscribe, close, next_event, discard,
}
use agent_app_server.Hub.Delivery.{has, IsDistinct, has-discard, discard-IsDistinct}
use agent_app_server.Hub.History.{IsHistory}
use agent_app_server.Hub.Calls.{
  state-subscribe, get-subscribe, state-close, get-close, get-next_event, threads-next_event,
  SameBounds-close, SameBounds-next_event, next_event_missing,
}
use agent_app_server.Hub.Soundness.{IsHistory-advance, IsSound, Listed, at_ite, length-tail}

module _ {D : Type 0} where
  module _ {log : Key → List (EventEnvelope D)} {hub : EventHub D} (sound : IsSound log hub) where
    -- A new subscription has a number that no thread lists.
    pub new_id : (k : Key) → has hub.next_id (state hub k).subscribers ≡ false
    new_id k = elim (Bool-cases (has hub.next_id (state hub k).subscribers)) [
      | inl listed ↦ elim (Option-cases (Dict.get ℕ_discrete hub.subscriptions hub.next_id)) [
        | inl e ↦ ground (arith, sound.listed k hub.next_id listed)
        | inr (s, e) ↦ absurd (omega (arith, sound.fresh hub.next_id s e))
      ]
      | inr free ↦ free
    ]

    pub subscribe-IsSound : (key : Key) (after : Option ℤ) → IsSound log (subscribe hub key after).1
    subscribe-IsSound key after = record {
      positive = unfold subscribe in sound.positive;
      queue_positive = unfold subscribe in sound.queue_positive;
      histories = λ k. rw state-subscribe (
          unfold subscribe in
          at_ite (λ j s. IsHistory hub.history_limit (log j) s) key k
            (record (state hub key) { subscribers = hub.next_id ∷ (state hub key).subscribers })
            (state hub k)
            (IsHistory-advance hub.history_limit (log key) (state hub key) _ refl (omega arith)
              (sound.histories key))
            (sound.histories k));
      distinct = λ k. rw state-subscribe (
          at_ite (λ j s. IsDistinct s.subscribers) key k
            (record (state hub key) { subscribers = hub.next_id ∷ (state hub key).subscribers })
            (state hub k) (new_id key, sound.distinct key) (sound.distinct k));
      listed = λ k i h. ground (
        arith,
        h,
        state-subscribe hub key k after,
        get-subscribe hub key after i,
        sound.listed k i,
        new_id k,
      );
      fresh = λ i s h.
          unfold subscribe in
          elim (Option-cases (Dict.get ℕ_discrete hub.subscriptions i)) [
            | inl e ↦ ground (arith, get-subscribe hub key after i)
            | inr (t, e) ↦ omega (arith, sound.fresh i t e)
          ];
      queues = λ i s h.
          unfold subscribe in
          elim (Option-cases (Dict.get ℕ_discrete hub.subscriptions i)) [
            | inl e ↦ ground (arith, get-subscribe hub key after i)
            | inr (t, e) ↦ ground (arith, get-subscribe hub key after i, sound.queues i t e)
          ];
    }

    -- `close`: the subscription leaves its thread's list, and is marked closed.
    module _ (i : ℕ) (s : Subscription D)
        (found : Dict.get ℕ_discrete hub.subscriptions i ≡ some s) where
      without : (k : Key) → ThreadEvents D
      without k = record (state hub k) { subscribers = discard i (state hub k).subscribers }

      close-Listed :
          (k : Key) (j : ℕ)
          → has j (state (close hub i) k).subscribers ≡ true
          → Listed k (Dict.get ℕ_discrete (close hub i).subscriptions j)
      close-Listed k j h = ground (
        arith,
        h,
        state-close hub i k s found,
        get-close hub i j s found,
        has-discard i j (state hub k).subscribers (sound.distinct k),
        sound.listed k j,
        sound.listed k i,
      )

      -- A subscription of the new heap is one of the old, or the closed one.
      close_entry :
          (j : ℕ) (t : Subscription D)
          → Dict.get ℕ_discrete (close hub i).subscriptions j ≡ some t
          → (j < hub.next_id) × (length t.queue ≤ hub.subscriber_queue_limit)
      close_entry j t h = elim (ℕ_discrete i j) [
        | yes p ↦
            ground (arith, get-close hub i j s found, sound.fresh i s found, sound.queues i s found)
        | no n ↦ ground (arith, get-close hub i j s found, sound.fresh j t, sound.queues j t)
      ]

      close_found-IsSound : IsSound log (close hub i)
      close_found-IsSound =
          let (same_limit, same_queue, same_next) = SameBounds-close hub i in
          record {
            positive = omega arith;
            queue_positive = omega arith;
            histories = λ k.
                rw (state-close hub i k s found, same_limit)
                  (unfold without in
                    at_ite (λ j t. IsHistory hub.history_limit (log k) t) s.key k (without k)
                      (state hub k)
                      (IsHistory-advance hub.history_limit (log k) (state hub k) _ refl
                        (omega arith) (sound.histories k))
                      (sound.histories k));
            distinct = λ k. rw (state-close hub i k s found) (
                unfold without in
                at_ite (λ j t. IsDistinct t.subscribers) s.key k (without k) (state hub k)
                  (discard-IsDistinct i (state hub k).subscribers (sound.distinct k))
                  (sound.distinct k));
            listed = close-Listed;
            fresh = λ j t h. omega (arith, close_entry j t h);
            queues = λ j t h. omega (arith, close_entry j t h);
          }

    pub close-IsSound : (i : ℕ) → IsSound log (close hub i)
    close-IsSound i = elim (Option-cases (Dict.get ℕ_discrete hub.subscriptions i)) [
      | inl e ↦ unfold close in rw (e, close) sound
      | inr (s, e) ↦ close_found-IsSound i s e
    ]

    -- `next_event`: a queue gets shorter, and no thread changes.
    next_event_entry :
        (i : ℕ) (s : Subscription D) (j : ℕ) (t : Subscription D)
        → Dict.get ℕ_discrete hub.subscriptions i ≡ some s
        → Dict.get ℕ_discrete (next_event hub i).1.subscriptions j ≡ some t
        → (j < hub.next_id) × (length t.queue ≤ hub.subscriber_queue_limit)
    next_event_entry i s j t found h = elim (ℕ_discrete i j) [
      | yes p ↦ ground (
        arith,
        get-next_event hub i j s found,
        length-tail s.queue,
        sound.fresh i s found,
        sound.queues i s found,
      )
      | no n ↦ ground (arith, get-next_event hub i j s found, sound.fresh j t, sound.queues j t)
    ]

    pub state-next_event : (i : ℕ) (k : Key) → state (next_event hub i).1 k ≡ state hub k
    unfolding state
    state-next_event i k = rw (threads-next_event hub i, state)

    next_event-Listed :
        (i : ℕ) (s : Subscription D) (k : Key) (j : ℕ)
        → Dict.get ℕ_discrete hub.subscriptions i ≡ some s
        → has j (state hub k).subscribers ≡ true
        → Listed k (Dict.get ℕ_discrete (next_event hub i).1.subscriptions j)
    next_event-Listed i s k j found h =
        ground (arith, get-next_event hub i j s found, sound.listed k j, sound.listed k i)

    next_event_found-IsSound :
        (i : ℕ) (s : Subscription D)
        → Dict.get ℕ_discrete hub.subscriptions i ≡ some s
        → IsSound log (next_event hub i).1
    next_event_found-IsSound i s found =
        let (same_limit, same_queue, same_next) = SameBounds-next_event hub i in
        record {
          positive = omega arith;
          queue_positive = omega arith;
          histories = λ k. rw (state-next_event i k, same_limit) (sound.histories k);
          distinct = λ k. rw (state-next_event i k) (sound.distinct k);
          listed = λ k j h.
              next_event-Listed i s k j found
                (ap (λ t. has j t.subscribers) (sym (state-next_event i k)) ∙ h);
          fresh = λ j t h. omega (arith, next_event_entry i s j t found h);
          queues = λ j t h. omega (arith, next_event_entry i s j t found h);
        }

    pub next_event-IsSound : (i : ℕ) → IsSound log (next_event hub i).1
    next_event-IsSound i = elim (Option-cases (Dict.get ℕ_discrete hub.subscriptions i)) [
      | inl e ↦ rw (next_event_missing hub i e) sound
      | inr (s, e) ↦ next_event_found-IsSound i s e
    ]
