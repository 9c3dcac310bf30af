-- ===== src/Hub/SoundPublish.antt =====
-- event_hub.py: `publish`, and any write of a sequence, keep the invariant.
use mathlib.Core.List.{append-nil}
use agent_app_server.Base.{
  ℕ, ◌≤◌, ◌<◌, ◌≡◌, refl, sym, ap, subst, ◌∙◌, true, Option, some, List, [], ◌∷◌, ◌++◌, arith, ite,
  ◌&&◌, if◌then◌else◌, if_pos, if_neg, ℕ_discrete, ℤ, length, Option-cases, Result-cases, inl, inr,
  String,
}
use agent_app_server.Base.Dict
use agent_app_server.Base.Dict.{get-put}
use agent_app_server.Keys.{Key, Key-discrete}
use agent_app_server.Hub.{
  EventEnvelope, EventHub, ThreadEvents, Subscription, state, set_state, publish, fan_out, deliver,
  next_sequence, envelope,
}
use agent_app_server.Hub.Delivery.{
  has, IsDistinct, has_room, deliver?, get-deliver_all, kept-deliver_all, kept-IsDistinct,
}
use agent_app_server.Hub.History.{IsHistory, append_bounded-IsHistory}
use agent_app_server.Hub.Calls.{accepted, state-put, state_after_fan_out, state-fan_out}
use agent_app_server.Hub.Soundness.{
  IsHistory-advance, IsSound, Listed, at_ite, deliver-length, next_sequence_later, same_log,
}

module _ {D : Type 0} where
  module _ {log : Key → List (EventEnvelope D)} {hub : EventHub D} (sound : IsSound log hub) where
    -- Writing a state with the same history and subscribers, at no lower sequence.
    pub set_state-IsSound :
        (key : Key) (t : ThreadEvents D)
        → t.history ≡ (state hub key).history
        → t.subscribers ≡ (state hub key).subscribers
        → (state hub key).sequence ≤ t.sequence
        → IsSound log (set_state hub key t)
    set_state-IsSound key t same_history same_subscribers le = record {
      positive = sound.positive;
      queue_positive = sound.queue_positive;
      histories = λ k. rw state-put (
          at_ite (λ j s. IsHistory hub.history_limit (log j) s) key k t (state hub k)
            (IsHistory-advance hub.history_limit (log key) (state hub key) t same_history le
              (sound.histories key))
            (sound.histories k));
      distinct = λ k. rw state-put (
          at_ite (λ j s. IsDistinct s.subscribers) key k t (state hub k)
            (subst IsDistinct (sym same_subscribers) (sound.distinct key)) (sound.distinct k));
      listed = λ k i. rw state-put (
          at_ite
            (λ j s. has i s.subscribers ≡ true → Listed j (Dict.get ℕ_discrete hub.subscriptions i))
            key k t (state hub k) (λ h. sound.listed key i (ap (has i) (sym same_subscribers) ∙ h))
            (sound.listed k i));
      fresh = sound.fresh;
      queues = sound.queues;
    }

    module _ (key : Key) (e : EventEnvelope D) (later : (state hub key).sequence < e.sequence) where
      abbrev pub fan_out_log : Key → List (EventEnvelope D)
      fan_out_log k = log k ++ ite (Key-discrete key k) (e ∷ []) []

      fan_out_histories :
          (k : Key) → IsHistory hub.history_limit (fan_out_log k) (state (fan_out hub key e) k)
      unfolding state_after_fan_out
      fan_out_histories k = elim (Key-discrete key k) [
        | yes p ↦
            rw (state-fan_out, if_pos _ p, if_pos _ p)
              (subst
                (λ j. IsHistory hub.history_limit (log j ++ e ∷ []) (state_after_fan_out hub key e))
                p
                (append_bounded-IsHistory hub.history_limit (log key) (state hub key) e _
                  sound.positive (sound.histories key) later))
        | no n ↦ rw (state-fan_out, if_neg _ n, if_neg _ n) (rw append-nil (sound.histories k))
      ]

      fan_out-IsDistinct : (k : Key) → IsDistinct (state (fan_out hub key e) k).subscribers
      unfolding state_after_fan_out
      fan_out-IsDistinct k = rw state-fan_out (
          at_ite (λ j s. IsDistinct s.subscribers) key k _ (state hub k)
            (kept-IsDistinct hub.subscriber_queue_limit e (state hub key).subscribers
              hub.subscriptions (sound.distinct key))
            (sound.distinct k))

      -- The heap after the loop.
      pub get-fan_out :
          (i : ℕ)
          → Dict.get ℕ_discrete (fan_out hub key e).subscriptions i ≡ (
              if has i (state hub key).subscribers
              then deliver? hub.subscriber_queue_limit e (Dict.get ℕ_discrete hub.subscriptions i)
              else Dict.get ℕ_discrete hub.subscriptions i)
      unfolding fan_out
      get-fan_out i =
          get-deliver_all hub.subscriber_queue_limit e (state hub key).subscribers hub.subscriptions
            i (sound.distinct key)

      pub kept-fan_out :
          (i : ℕ)
          → has i (state_after_fan_out hub key e).subscribers ≡ (
              has i (state hub key).subscribers
              && has_room hub.subscriber_queue_limit (Dict.get ℕ_discrete hub.subscriptions i))
      unfolding state_after_fan_out
      kept-fan_out i =
          kept-deliver_all hub.subscriber_queue_limit e (state hub key).subscribers
            hub.subscriptions i (sound.distinct key)

      fan_out-Listed :
          (k : Key) (i : ℕ)
          → has i (state (fan_out hub key e) k).subscribers ≡ true
          → Listed k (Dict.get ℕ_discrete (fan_out hub key e).subscriptions i)
      unfolding deliver
      fan_out-Listed k i h = ground (
        arith,
        h,
        state-fan_out hub key k e,
        get-fan_out i,
        kept-fan_out i,
        sound.listed k i,
        sound.listed key i,
      )

      fan_out_fresh :
          (i : ℕ) (s : Subscription D)
          → Dict.get ℕ_discrete (fan_out hub key e).subscriptions i ≡ some s
          → i < hub.next_id
      fan_out_fresh i s h = elim (Option-cases (Dict.get ℕ_discrete hub.subscriptions i)) [
        | inl missing ↦ ground (arith, get-fan_out i)
        | inr (t, found) ↦ sound.fresh i t found
      ]

      fan_out_queues :
          (i : ℕ) (s : Subscription D)
          → Dict.get ℕ_discrete (fan_out hub key e).subscriptions i ≡ some s
          → length s.queue ≤ hub.subscriber_queue_limit
      fan_out_queues i s h = elim (Option-cases (Dict.get ℕ_discrete hub.subscriptions i)) [
        | inl missing ↦ ground (arith, get-fan_out i)
        | inr (t, found) ↦ ground (
          arith,
          get-fan_out i,
          sound.queues i t found,
          deliver-length hub.subscriber_queue_limit e t sound.queue_positive,
        )
      ]

      pub fan_out-IsSound : IsSound fan_out_log (fan_out hub key e)
      fan_out-IsSound = record {
        positive = unfold fan_out in sound.positive;
        queue_positive = unfold fan_out in sound.queue_positive;
        histories = unfold fan_out in fan_out_histories;
        distinct = fan_out-IsDistinct;
        listed = fan_out-Listed;
        fresh = unfold fan_out in fan_out_fresh;
        queues = unfold fan_out in fan_out_queues;
      }

    pub publish-IsSound :
        (key : Key) (event_type method : String) (empty : D) (payload : Option D)
        (turn_id : Option String) (sequence : Option ℤ)
        → IsSound
            (λ k.
              log k
              ++ accepted key k
                  (publish hub key event_type method empty payload turn_id sequence).0)
            (publish hub key event_type method empty payload turn_id sequence).1
    unfolding publish
    publish-IsSound key event_type method empty payload turn_id sequence =
        elim (Result-cases (next_sequence (state hub key).sequence sequence)) [
          | inl (n, e) ↦
              rw (e, publish)
                (fan_out-IsSound key (envelope key event_type method empty payload turn_id n)
                  (unfold envelope in next_sequence_later (state hub key).sequence sequence n e))
          | inr (x, e) ↦
              rw (e, publish)
                (same_log (λ k. append-nil (log k))
                  (set_state-IsSound key (state hub key) refl refl (omega arith)))
        ]
