-- ===== src/Hub/Replay.antt =====
-- event_hub.py: the replay that a subscription starts with, joined with what it reads live.
use agent_app_server.Base.{ℕ, ◌≤◌, ◌<◌, List, All}
use agent_app_server.Base.Dict
use agent_app_server.Hub.{EventEnvelope, new}

module _ {D : Type 0} where
  -- A call never lowers a thread's sequence, and what it publishes lies between the old and the new.
  record Rising (old : ℕ) (new : ℕ) (events : List (EventEnvelope D)) : Type 0 where
    grows : old ≤ new
    later : All (λ e. old < e.sequence) events
