-- ===== src/Turns/Release.antt =====
-- turn_manager.py, `finish`: which reservation a turn's end releases.
use agent_app_server.Base.{
  ◌≡◌, Bool, true, false, Option, none, some, ite, arith, if◌then◌else◌, String, String-discrete,
  holds,
}
use agent_app_server.Base.Dict.{get-pop}
use agent_app_server.Keys.{Key, Key-discrete}
use agent_app_server.Turns.{TurnManager, ActiveTurn, finish, is_stale, current}
use agent_app_server.Turns.Invariant.{IsSound}

-- Whether the end of a turn releases what stands under a key: no turn is named, or the entry has none
-- yet, or it has that one.
abbrev pub is_released : Option String → Option ActiveTurn → Bool
is_released turn_id none = false
is_released none (some t) = true
is_released (some id) (some t) = elim t.turn_id [
  | none ↦ true
  | some own ↦ holds (String-discrete own id)
]

-- `finish` removes the entry of its key exactly when it is given no turn, or the entry has no turn
-- yet, or has that turn; in every other case, and under every other key, all stays as it was.
pub finish_lem :
    (m : TurnManager) (key : Key) (turn_id : Option String)
    → IsSound m
    → ((k : Key)
        → current (finish m key turn_id) k ≡ (
            if is_released turn_id (current m key)
            then ite (Key-discrete key k) none (current m k)
            else current m k))
      × ((finish m key turn_id).mutating ≡ m.mutating)
      × ((finish m key turn_id).accepting_turns ≡ m.accepting_turns)
unfolding finish current is_stale
finish_lem m key turn_id s = (
  (λ k. ground (arith, get-pop Key-discrete m.active key k s.unique_active)),
  ground arith,
  ground arith,
)
