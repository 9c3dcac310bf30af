-- ===== src/Keys.antt =====
-- The key `(owner_id, thread_id)` of turn_manager.py and event_hub.py.
use agent_app_server.Base.{String, Option, String-discrete}

pub record Key : Type 0 where
  pub owner_id : Option String
  pub thread_id : String

unfoldable pub Key-discrete : Discrete Key
unfolding String-discrete
Key-discrete = hlevel String-discrete
