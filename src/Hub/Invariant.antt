-- ===== src/Hub/Invariant.antt =====
-- event_hub.py: what every call keeps, whatever was published before.
use mathlib.Core.List.{append-nil, append_assoc}
use agent_app_server.Base.{◌≡◌, refl, sym, List, [], ◌∷◌, ◌++◌, arith, ok, ℤ, pos, negsuc, max}
use agent_app_server.Keys.{Key}
use agent_app_server.Hub.{EventEnvelope, EventHub, new, state, current_sequence, advance_sequence}
use agent_app_server.Hub.Calls.{
  HubCall, publishes, subscribes, closes, takes, reads, advances, step, run, emitted, published,
}
use agent_app_server.Hub.Soundness.{IsSound, new-IsSound, same_log}
use agent_app_server.Hub.SoundPublish.{publish-IsSound, set_state-IsSound}
use agent_app_server.Hub.SoundReaders.{close-IsSound, next_event-IsSound, subscribe-IsSound}

module _ {D : Type 0} where
  -- Every call keeps the hub sound, and the log grows by what the call publishes.
  pub step-IsSound :
      (log : Key → List (EventEnvelope D)) (hub : EventHub D) (c : HubCall D)
      → IsSound log hub
      → IsSound (λ k. log k ++ emitted hub c k) (step hub c)
  unfolding step emitted current_sequence advance_sequence
  step-IsSound log hub (publishes key event_type method empty payload turn_id sequence) s =
      publish-IsSound s key event_type method empty payload turn_id sequence
  step-IsSound log hub (subscribes key after) s =
      same_log (λ k. append-nil (log k)) (subscribe-IsSound s key after)
  step-IsSound log hub (closes i) s = same_log (λ k. append-nil (log k)) (close-IsSound s i)
  step-IsSound log hub (takes i) s = same_log (λ k. append-nil (log k)) (next_event-IsSound s i)
  step-IsSound log hub (reads key) s =
      same_log (λ k. append-nil (log k))
        (set_state-IsSound s key (state hub key) refl refl (omega arith))
  step-IsSound log hub (advances key (negsuc n)) s = same_log (λ k. append-nil (log k)) s
  step-IsSound log hub (advances key (pos n)) s =
      same_log (λ k. append-nil (log k))
        (set_state-IsSound s key
          (record (state hub key) { sequence = max (state hub key).sequence n }) refl refl
          (omega arith))

  pub run-IsSound :
      (log : Key → List (EventEnvelope D)) (hub : EventHub D) (cs : List (HubCall D))
      → IsSound log hub
      → IsSound (λ k. log k ++ published hub cs k) (run hub cs)
  unfolding run published
  run-IsSound log hub [] s = same_log (λ k. append-nil (log k)) s
  run-IsSound log hub (c ∷ cs) s =
      same_log (λ k. sym (append_assoc (log k) (emitted hub c k) (published (step hub c) cs k)))
        (run-IsSound (λ k. log k ++ emitted hub c k) (step hub c) cs (step-IsSound log hub c s))

  -- A hub that its constructor accepts, after any calls: the history of each thread is the end of
  -- what was published to it, at most `history_limit` events with rising sequences that the thread's
  -- sequence has reached; its subscribers are open subscriptions of that thread, each once; and no
  -- queue is longer than `subscriber_queue_limit`.
  pub run-new-IsSound :
      (history_limit queue_limit : ℤ) (hub : EventHub D) (cs : List (HubCall D))
      → new history_limit queue_limit ≡ ok hub
      → IsSound (published hub cs) (run hub cs)
  run-new-IsSound history_limit queue_limit hub cs e =
      run-IsSound (λ k. []) hub cs (new-IsSound history_limit queue_limit hub e)
