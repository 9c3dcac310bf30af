-- ===== src/Hub/Publish.antt =====
-- event_hub.py, `publish`: what one publication does to each subscription, on every branch.
use agent_app_server.Base.{
  ℕ, ◌≡◌, ◌<◌, refl, true, false, Option, some, List, [], ◌∷◌, ◌++◌, arith, ok, ℤ, ℕ_discrete,
  length, ltb, if◌then◌else◌, String,
}
use agent_app_server.Base.Dict
use agent_app_server.Keys.{Key}
use agent_app_server.Hub.{
  EventEnvelope, event, resync, EventHub, Subscription, new, state, publish, next_sequence,
  envelope, fan_out, deliver,
}
use agent_app_server.Hub.Delivery.{has}
use agent_app_server.Hub.Calls.{HubCall, run, state_after_fan_out, state-fan_out}
use agent_app_server.Hub.Soundness.{IsSound, next_sequence_later}
use agent_app_server.Hub.SoundPublish.{get-fan_out, kept-fan_out}
use agent_app_server.Hub.Invariant.{run-new-IsSound}

module _ {D : Type 0} where
  -- A subscription after its thread's event `e`.
  abbrev pub delivered : ℕ → EventEnvelope D → Subscription D → Subscription D
  delivered limit e s =
      if ltb (length s.queue) limit
      then record s { queue = s.queue ++ event e ∷ [] }
      else record s { queue = resync ∷ []; closed = true }

  fan_out_delivers :
      {log : Key → List (EventEnvelope D)} (hub : EventHub D) (key : Key) (e : EventEnvelope D)
      (i : ℕ) (s : Subscription D)
      → IsSound log hub
      → (state hub key).sequence < e.sequence
      → Dict.get ℕ_discrete hub.subscriptions i ≡ some s
      → (Dict.get ℕ_discrete (fan_out hub key e).subscriptions i
          ≡ some (
              if has i (state hub key).subscribers
              then delivered hub.subscriber_queue_limit e s
              else s))
        × (has i (state (fan_out hub key e) key).subscribers ≡ (
            if has i (state hub key).subscribers
            then ltb (length s.queue) hub.subscriber_queue_limit
            else false))
  unfolding deliver state_after_fan_out
  fan_out_delivers hub key e i s sound later found = (
    ground (arith, get-fan_out sound key e later i),
    ground (arith, state-fan_out hub key key e, kept-fan_out sound key e later i),
  )

-- A publication that is accepted, on a hub that any calls led to: its event gets the next sequence,
-- or the one that is given; each subscriber of the thread with room in its queue has the event put at
-- its end and stays; each one whose queue is full is closed, is no subscriber any more, and has the
-- reload mark alone in its queue; and no other subscription changes.
pub publish_delivers :
    {D : Type 0} (history_limit queue_limit : ℤ) (fresh : EventHub D) (calls : List (HubCall D))
    (key : Key) (event_type method : String) (empty : D) (payload : Option D)
    (turn_id : Option String) (sequence : Option ℤ) (n i : ℕ) (s : Subscription D)
    → new history_limit queue_limit ≡ ok fresh
    → let hub = run fresh calls in
      next_sequence (state hub key).sequence sequence ≡ ok n
      → Dict.get ℕ_discrete hub.subscriptions i ≡ some s
      → let e = envelope key event_type method empty payload turn_id n in
        let (answer, hub') = publish hub key event_type method empty payload turn_id sequence in
        let was = has i (state hub key).subscribers in
        (answer ≡ ok e)
        × ((state hub key).sequence < n)
        × ((state hub' key).sequence ≡ n)
        × (Dict.get ℕ_discrete hub'.subscriptions i
            ≡ some (if was then delivered hub.subscriber_queue_limit e s else s))
        × (has i (state hub' key).subscribers
            ≡ (if was then ltb (length s.queue) hub.subscriber_queue_limit else false))
unfolding publish
publish_delivers history_limit queue_limit fresh calls key event_type method empty payload turn_id
      sequence n i s made next found =
    let hub = run fresh calls in
    let later = next_sequence_later (state hub key).sequence sequence n next in
    let e = envelope key event_type method empty payload turn_id n in
    let sound = run-new-IsSound history_limit queue_limit fresh calls made in
    let step = fan_out_delivers hub key e i s sound (unfold envelope in later) found in
    rw (next, publish)
      (
        refl,
        later,
        unfold state_after_fan_out envelope in ground (arith, state-fan_out hub key key e),
        step.0,
        step.1,
      )
