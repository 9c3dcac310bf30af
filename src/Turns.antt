-- ===== src/Turns.antt =====
-- turn_manager.py: the reservations that keep one active turn to a thread. Each method that holds
-- the manager's lock is one function on the state; what runs outside the lock is in `Turns.Shutdown`.
-- An SDK handle and an asyncio task are references, here numbers; a call on one is an effect.
pub mod Calls
pub mod Updates
pub mod Invariant
pub mod Exclusion
pub mod Release
pub mod Shutdown
pub mod Status
mod Examples
use agent_app_server.Base.{
  ℕ, String, ◌≡◌, Bool, true, false, not, ◌&&◌, ◌||◌, Option, none, some, List, [], ◌∷◌, Result, ok,
  err, if◌then◌else◌, String-discrete, holds,
}
use agent_app_server.Base.Dict
use agent_app_server.Base.Dict.{Dict, values}
use agent_app_server.Keys.{Key, Key-discrete}

-- TurnConflictError, TurnNotActiveError, TurnsUnavailableError
pub data TurnError : Type 0 where
  conflict not_active unavailable : TurnError

pub data TurnKind : Type 0 where
  turn goal : TurnKind

pub record ActiveTurn : Type 0 where
  pub thread_id : String
  pub owner_id : Option String
  pub kind : TurnKind
  pub model : Option String
  pub reasoning_effort : Option String
  pub status : String
  pub turn_id : Option String
  pub handle : Option ℕ
  pub task : Option ℕ

pub record TurnManager : Type 0 where
  pub active : Dict Key ActiveTurn
  pub mutating : Dict Key (Unit {0})
  pub accepting_turns : Bool

-- Calls on SDK handles and tasks.
pub data Effect : Type 0 where
  cancels_task : ℕ → Effect
  steers : ℕ → String → Effect
  interrupts : ℕ → Effect

abbrev pub init : TurnManager
init = record { active = []; mutating = []; accepting_turns = true }

-- The entry that a reservation writes.
abbrev pub starting : Key → TurnKind → Option String → Option String → ActiveTurn
starting key kind model reasoning_effort = record {
  thread_id = key.thread_id;
  owner_id = key.owner_id;
  kind = kind;
  model = model;
  reasoning_effort = reasoning_effort;
  status = "starting";
  turn_id = none;
  handle = none;
  task = none;
}

-- `key in self._active or key in self._mutating`
pub is_busy : TurnManager → Key → Bool
is_busy m key = Dict.contains Key-discrete m.active key || Dict.contains Key-discrete m.mutating key

pub reserve :
    TurnManager
    → Key
    → TurnKind
    → Option String
    → Option String
    → Result TurnError ActiveTurn × TurnManager
reserve m key kind model reasoning_effort =
    if not m.accepting_turns
    then (err unavailable, m)
    else if is_busy m key
    then (err conflict, m)
    else (ok entry, record m { active = Dict.put Key-discrete m.active key entry })
  where
    entry : ActiveTurn
    entry = starting key kind model reasoning_effort

pub reserve_mutation : TurnManager → Key → Result TurnError (Unit {0}) × TurnManager
reserve_mutation m key =
    if is_busy m key
    then (err conflict, m)
    else (ok tt, record m { mutating = Dict.put Key-discrete m.mutating key tt })

pub finish_mutation : TurnManager → Key → TurnManager
finish_mutation m key = record m { mutating = Dict.pop Key-discrete m.mutating key }

pub mark_running : TurnManager → Key → String → ℕ → Result TurnError (Unit {0}) × TurnManager
mark_running m key turn_id handle = elim (Dict.get Key-discrete m.active key) [
  | none ↦ (err not_active, m)
  | some entry ↦ (
    ok tt,
    record m {
      active =
          Dict.put Key-discrete m.active key
            (record entry { status = "running"; turn_id = some turn_id; handle = some handle });
    },
  )
]

-- A task that finds no reservation is cancelled.
pub attach_task : TurnManager → Key → ℕ → Result TurnError (Unit {0}) × List Effect × TurnManager
attach_task m key task = elim (Dict.get Key-discrete m.active key) [
  | none ↦ (err not_active, cancels_task task ∷ [], m)
  | some entry ↦ (
    ok tt,
    [],
    record m { active = Dict.put Key-discrete m.active key (record entry { task = some task }) },
  )
]

-- `turn_id is not None and active.turn_id not in (None, turn_id)`
pub is_stale : Option String → Option String → Bool
is_stale none current = false
is_stale (some turn_id) none = false
is_stale (some turn_id) (some current) = not (holds (String-discrete current turn_id))

pub finish : TurnManager → Key → Option String → TurnManager
finish m key turn_id = elim (Dict.get Key-discrete m.active key) [
  | none ↦ m
  | some entry ↦
      if is_stale turn_id entry.turn_id
      then m
      else record m { active = Dict.pop Key-discrete m.active key }
]

pub is_active : TurnManager → Key → Bool
is_active m key = Dict.contains Key-discrete m.active key

-- `active`: the turn, if it has a handle to control it by.
pub controllable : TurnManager → Key → Result TurnError (ActiveTurn × ℕ)
controllable m key = elim (Dict.get Key-discrete m.active key) [
  | none ↦ err not_active
  | some entry ↦ elim entry.handle [ none ↦ err not_active | some handle ↦ ok (entry, handle) ]
]

pub current : TurnManager → Key → Option ActiveTurn
current m key = Dict.get Key-discrete m.active key

pub steer : TurnManager → Key → String → Result TurnError (Unit {0}) × List Effect
unfolding controllable
steer m key prompt = elim (controllable m key) [
  | err e ↦ (err e, [])
  | ok (entry, handle) ↦ (ok tt, steers handle prompt ∷ [])
]

pub interrupt : TurnManager → Key → Result TurnError (Unit {0}) × List Effect × TurnManager
unfolding controllable
interrupt m key = elim (controllable m key) [
  | err e ↦ (err e, [], m)
  | ok (entry, handle) ↦ (
    ok tt,
    interrupts handle ∷ [],
    record m { active = Dict.put Key-discrete m.active key (record entry { status = "stopping" }) },
  )
]

pub enable : TurnManager → TurnManager
enable m = record m { accepting_turns = true }

-- The first locked part of `shutdown`: no new turns, and a snapshot of the active ones.
pub begin_shutdown : TurnManager → List ActiveTurn × TurnManager
begin_shutdown m = (values m.active, record m { accepting_turns = false })

-- Its last locked part.
pub finish_shutdown : TurnManager → TurnManager
finish_shutdown m = record m { active = []; mutating = [] }
