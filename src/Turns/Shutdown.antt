-- ===== src/Turns/Shutdown.antt =====
-- turn_manager.py, `shutdown`: its two locked parts, with any calls of other tasks between them,
-- and the calls that it makes on the snapshot while the lock is free.
use agent_app_server.Base.{
  ℕ, ◌≡◌, refl, Bool, true, false, Option, none, some, List, [], ◌∷◌, ◌++◌, arith, err, All,
  if◌then◌else◌, String,
}
use agent_app_server.Base.Dict
use agent_app_server.Base.Dict.{Dict, values, contains-put, contains-pop}
use agent_app_server.Keys.{Key, Key-discrete}
use agent_app_server.Turns.{
  TurnManager, ActiveTurn, TurnKind, Effect, interrupts, cancels_task, unavailable, reserve,
  reserve_mutation, is_busy, finish_mutation, finish, begin_shutdown, finish_shutdown, is_active,
}
use agent_app_server.Turns.Updates.{key_of, mark_running_cases, attach_task_cases, interrupt_cases}
use agent_app_server.Turns.Calls.{
  Call, reserves, reserves_mutation, finishes_mutation, marks_running, attaches_task, finishes,
  interrupts_turn, enables, begins_shutdown, finishes_shutdown, step, run, is_enable,
}
use agent_app_server.Turns.Invariant.{IsSound, step-IsSound, has_active}

-- `[active.handle.interrupt() for active in active_turns if active.handle is not None]`
unfoldable pub interrupts_of : List ActiveTurn → List Effect
interrupts_of [] = []
interrupts_of (t ∷ ts) =
    let rest = interrupts_of ts in
    elim t.handle [ none ↦ rest | some handle ↦ interrupts handle ∷ rest ]

-- The tasks of the snapshot that have not ended when the wait is over are cancelled.
unfoldable pub cancels_of : (ℕ → Bool) → List ActiveTurn → List Effect
cancels_of is_pending [] = []
cancels_of is_pending (t ∷ ts) =
    let rest = cancels_of is_pending ts in
    elim t.task [
      | none ↦ rest
      | some task ↦ if is_pending task then cancels_task task ∷ rest else rest
    ]

-- What `shutdown` calls between its locked parts. `later` are the entries of the snapshot as they are
-- when the wait for the interrupts is over: a task may have been attached to one meanwhile.
-- `is_pending` is the outcome of `asyncio.wait`.
unfoldable pub shutdown_effects : (ℕ → Bool) → List ActiveTurn → List ActiveTurn → List Effect
unfolding interrupts_of cancels_of
shutdown_effects is_pending snapshot later = interrupts_of snapshot ++ cancels_of is_pending later

-- The manager takes no turns, and has no key active that `m` has not.
record Drains (m n : TurnManager) : Type 0 where
  closed : n.accepting_turns ≡ false
  fewer : (k : Key) → has_active n k ≡ true → has_active m k ≡ true

Drains-put :
    (m n : TurnManager) (key : Key)
    → Drains m n
    → (t u : ActiveTurn) → Dict.get Key-discrete n.active key ≡ some t
    → key_of u ≡ key_of t
    → Drains m (record n { active = Dict.put Key-discrete n.active key u })
Drains-put m n key d t u e k = record {
  closed = d.closed;
  fewer = λ j h. ground (
    arith,
    contains-put Key-discrete n.active key j u,
    Dict.contains-get Key-discrete n.active key t e,
    d.fewer j,
  );
}

step-Drains :
    (m n : TurnManager) (c : Call)
    → IsSound n
    → is_enable c ≡ false
    → Drains m n
    → Drains m (step n c)
unfolding step reserve reserve_mutation finish_mutation finish begin_shutdown finish_shutdown
    Dict.contains
step-Drains m n (reserves key kind model effort) s e d = record {
  closed = ground (arith, d.closed);
  fewer = λ j h. ground (arith, d.closed, d.fewer j);
}
step-Drains m n (reserves_mutation key) s e d = record {
  closed = ground (arith, d.closed);
  fewer = λ j h. ground (arith, d.fewer j);
}
step-Drains m n (finishes_mutation key) s e d = record { closed = d.closed; fewer = d.fewer }
step-Drains m n (marks_running key turn_id handle) s e d =
    mark_running_cases (Drains m) n key d (Drains-put m n key d) turn_id handle
step-Drains m n (attaches_task key task) s e d =
    attach_task_cases (Drains m) n key d (Drains-put m n key d) task
step-Drains m n (finishes key turn_id) s e d = record {
  closed = ground (arith, d.closed);
  fewer =
      λ j h. ground (arith, d.fewer j, contains-pop Key-discrete n.active key j s.unique_active);
}
step-Drains m n (interrupts_turn key) s e d =
    interrupt_cases (Drains m) n key d (Drains-put m n key d)
step-Drains m n enables s e d = cc
step-Drains m n begins_shutdown s e d = record { closed = refl; fewer = d.fewer }
step-Drains m n finishes_shutdown s e d = record { closed = d.closed; fewer = λ j h. cc }

run-Drains :
    (m n : TurnManager) (cs : List Call)
    → IsSound n
    → All (λ c. is_enable c ≡ false) cs
    → Drains m n
    → Drains m (run n cs)
unfolding run
run-Drains m n [] s e d = d
run-Drains m n (c ∷ cs) s e d =
    run-Drains m (step n c) cs (step-IsSound n c s) e.1 (step-Drains m n c s e.0 d)

-- From the first locked part of `shutdown` on, and until `enable` is called, whatever other calls
-- come between: every `reserve` is refused as unavailable, and a key is active only if it was active
-- when the shutdown began. After the last locked part no key is active or under mutation.
pub shutdown_drains :
    (m : TurnManager) (cs : List Call)
    → IsSound m
    → All (λ c. is_enable c ≡ false) cs
    → let n = run (begin_shutdown m).1 cs in
      ((key : Key) (kind : TurnKind) (model effort : Option String)
        → reserve n key kind model effort ≡ (err unavailable, n))
      × ((key : Key) → is_active n key ≡ true → is_active m key ≡ true)
      × ((key : Key) → is_busy (finish_shutdown n) key ≡ false)
unfolding begin_shutdown reserve is_active finish_shutdown is_busy Dict.contains step
shutdown_drains m cs s e =
    let d =
      run-Drains m _ cs (step-IsSound m begins_shutdown s) e
        (record { closed = refl; fewer = λ k h. h }) in
    ((λ key kind model effort. ground (arith, d.closed)), d.fewer, (λ key. refl))
