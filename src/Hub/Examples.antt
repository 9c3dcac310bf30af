-- ===== src/Hub/Examples.antt =====
-- event_hub.py with room for two events and one queued item.
use agent_app_server.Base.{ℕ, ◌≡◌, refl, false, none, some, List, [], ◌∷◌, ok, pos, ℕ_discrete}
use agent_app_server.Base.Dict
use agent_app_server.Keys.{Key, Key-discrete}
use agent_app_server.Hub.{
  EventHub, event, Subscription, new, state, publish, subscribe, replay, next_sequence, envelope,
  fan_out, append_bounded, deliver, deliver_one, deliver_all,
}
use agent_app_server.Hub.Calls.{HubCall, publishes, subscribes, takes, run, step, published}
use agent_app_server.Hub.Soundness.{IsSound}
use agent_app_server.Hub.Invariant.{run-new-IsSound}
use agent_app_server.Hub.Publish.{publish_delivers}

abbrev key : Key
key = record { owner_id = none; thread_id = "t1" }

abbrev fresh : EventHub ℕ
fresh = record {
  history_limit = 2;
  subscriber_queue_limit = 1;
  threads = [];
  subscriptions = [];
  next_id = 0;
  dropped_subscribers = 0;
}

made : new {D = ℕ} (pos 2) (pos 1) ≡ ok fresh
unfolding new
made = refl

abbrev say : ℕ → HubCall ℕ
say n = publishes key "codex.notification" "item/completed" 0 (some n) none none

abbrev before : List (HubCall ℕ)
before = say 10 ∷ say 11 ∷ say 12 ∷ []

abbrev after : List (HubCall ℕ)
after = say 13 ∷ takes 0 ∷ say 14 ∷ []

run-new-IsSound_example : IsSound (published fresh before) (run fresh before)
run-new-IsSound_example = run-new-IsSound (pos 2) (pos 1) fresh before made

abbrev opened : ℕ × EventHub ℕ
opened = subscribe (run fresh before) key (some (pos 1))

abbrev one_reader : List (HubCall ℕ)
one_reader = subscribes key none ∷ say 10 ∷ []

abbrev reader : Subscription ℕ
reader = record {
  key = key;
  queue = event (envelope key "codex.notification" "item/completed" 0 (some 10) none 1) ∷ [];
  initial_events = [];
  resync_required = false;
  closed = false;
}

reader_there : Dict.get ℕ_discrete (run fresh one_reader).subscriptions 0 ≡ some reader
unfolding run step publish subscribe next_sequence envelope fan_out state append_bounded deliver_all
    deliver_one deliver Dict.get Dict.put Key-discrete replay ℕ_discrete
reader_there = refl

second : next_sequence (state (run fresh one_reader) key).sequence none ≡ ok 2
unfolding run step publish subscribe next_sequence envelope fan_out state append_bounded deliver_all
    deliver_one deliver Dict.get Dict.put Key-discrete ℕ_discrete
second = refl

-- The reader's queue is full, so the second event drops it.
publish_delivers_example :
    (state
      (publish
        (run fresh one_reader)
        key
        "codex.notification"
        "item/completed"
        0
        (some 11)
        none
        none).1
      key).sequence
    ≡ 2
publish_delivers_example =
    (publish_delivers (pos 2) (pos 1) fresh one_reader key "codex.notification" "item/completed" 0
      (some 11) none none 2 0 reader made second reader_there).2
