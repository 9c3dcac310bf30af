-- ===== src/Turns/Calls.antt =====
-- Interleavings: the lock of turn_manager.py makes each locked method one step, so concurrent
-- requests are a list of calls.
use agent_app_server.Base.{ℕ, String, Bool, true, false, Option, List, [], ◌∷◌, holds}
use agent_app_server.Keys.{Key, Key-discrete}
use agent_app_server.Turns.{
  TurnManager, TurnKind, reserve, reserve_mutation, finish_mutation, mark_running, attach_task,
  finish, interrupt, enable, begin_shutdown, finish_shutdown,
}

pub data Call : Type 0 where
  reserves : Key → TurnKind → Option String → Option String → Call
  reserves_mutation : Key → Call
  finishes_mutation : Key → Call
  marks_running : Key → String → ℕ → Call
  attaches_task : Key → ℕ → Call
  finishes : Key → Option String → Call
  interrupts_turn : Key → Call
  enables : Call
  begins_shutdown : Call
  finishes_shutdown : Call

unfoldable pub step : TurnManager → Call → TurnManager
step m (reserves key kind model effort) = (reserve m key kind model effort).1
step m (reserves_mutation key) = (reserve_mutation m key).1
step m (finishes_mutation key) = finish_mutation m key
step m (marks_running key turn_id handle) = (mark_running m key turn_id handle).1
step m (attaches_task key task) = (attach_task m key task).2
step m (finishes key turn_id) = finish m key turn_id
step m (interrupts_turn key) = (interrupt m key).2
step m enables = enable m
step m begins_shutdown = (begin_shutdown m).1
step m finishes_shutdown = finish_shutdown m

unfoldable pub run : TurnManager → List Call → TurnManager
run m [] = m
run m (c ∷ cs) = run (step m c) cs

-- The calls that may end a reservation of `key`.
abbrev pub may_release : Key → Call → Bool
may_release key (finishes_mutation j) = holds (Key-discrete j key)
may_release key (finishes j turn_id) = holds (Key-discrete j key)
may_release key finishes_shutdown = true
may_release key _ = false

abbrev pub is_enable : Call → Bool
is_enable enables = true
is_enable _ = false
