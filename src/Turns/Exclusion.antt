-- ===== src/Turns/Exclusion.antt =====
-- turn_manager.py: a reservation excludes every other one of its key until it is released.
use agent_app_server.Base.{
  ◌≡◌, true, false, Option, some, List, [], ◌∷◌, arith, ok, err, All, if◌then◌else◌, String,
}
use agent_app_server.Base.Dict
use agent_app_server.Base.Dict.{contains-put, contains-pop, get-put, contains-get}
use agent_app_server.Keys.{Key, Key-discrete}
use agent_app_server.Turns.{
  TurnManager, ActiveTurn, TurnKind, conflict, unavailable, starting, is_busy, reserve,
  reserve_mutation, finish_mutation, finish, enable, begin_shutdown,
}
use agent_app_server.Turns.Updates.{key_of, mark_running_cases, attach_task_cases, interrupt_cases}
use agent_app_server.Turns.Calls.{
  Call, reserves, reserves_mutation, finishes_mutation, marks_running, attaches_task, finishes,
  interrupts_turn, enables, begins_shutdown, finishes_shutdown, step, run, may_release,
}
use agent_app_server.Turns.Invariant.{
  IsSound, step-IsSound, reserve-IsSound, reserve_mutation-IsSound,
}

replaced_busy :
    (m : TurnManager) (j key : Key)
    → is_busy m key ≡ true
    → (t u : ActiveTurn) → Dict.get Key-discrete m.active j ≡ some t
    → key_of u ≡ key_of t
    → is_busy (record m { active = Dict.put Key-discrete m.active j u }) key ≡ true
unfolding is_busy
replaced_busy m j key b t u e k = ground (arith, contains-put Key-discrete m.active j key u)

-- One call keeps a busy key busy, unless it is one that releases the key.
step-is_busy :
    (m : TurnManager) (key : Key) (c : Call)
    → IsSound m
    → may_release key c ≡ false
    → is_busy m key ≡ true
    → is_busy (step m c) key ≡ true
unfolding step is_busy reserve reserve_mutation finish_mutation finish enable begin_shutdown
step-is_busy m key (reserves j kind model effort) s r b =
    ground (arith, contains-put Key-discrete m.active j key (starting j kind model effort))
step-is_busy m key (reserves_mutation j) s r b =
    ground (arith, contains-put Key-discrete m.mutating j key tt)
step-is_busy m key (finishes_mutation j) s r b =
    ground (arith, contains-pop Key-discrete m.mutating j key s.unique_mutating)
step-is_busy m key (marks_running j turn_id handle) s r b =
    mark_running_cases (λ n. is_busy n key ≡ true) m j b (replaced_busy m j key b) turn_id handle
step-is_busy m key (attaches_task j task) s r b =
    attach_task_cases (λ n. is_busy n key ≡ true) m j b (replaced_busy m j key b) task
step-is_busy m key (finishes j turn_id) s r b =
    ground (arith, contains-pop Key-discrete m.active j key s.unique_active)
step-is_busy m key (interrupts_turn j) s r b =
    interrupt_cases (λ n. is_busy n key ≡ true) m j b (replaced_busy m j key b)
step-is_busy m key enables s r b = b
step-is_busy m key begins_shutdown s r b = b
step-is_busy m key finishes_shutdown s r b = cc

run-is_busy :
    (m : TurnManager) (key : Key) (cs : List Call)
    → IsSound m
    → All (λ c. may_release key c ≡ false) cs
    → is_busy m key ≡ true
    → is_busy (run m cs) key ≡ true
unfolding run
run-is_busy m key [] s r b = b
run-is_busy m key (c ∷ cs) s r b =
    run-is_busy (step m c) key cs (step-IsSound m c s) r.1 (step-is_busy m key c s r.0 b)

-- No reservation of the key is granted: `reserve` answers with an error, and the state stays.
abbrev pub Refuses : TurnManager → Key → Type 0
Refuses m key =
    ((kind : TurnKind) (model effort : Option String)
      → reserve m key kind model effort
        ≡ (if m.accepting_turns then err conflict else err unavailable, m))
    × (reserve_mutation m key ≡ (err conflict, m))

busy-Refuses : (m : TurnManager) (key : Key) → is_busy m key ≡ true → Refuses m key
unfolding reserve reserve_mutation
busy-Refuses m key b = ((λ kind model effort. ground arith), ground arith)

-- After a `reserve` that was granted, and after any later calls, however interleaved, none of which
-- finishes the key or ends a shutdown, every further `reserve` and `reserve_mutation` of the key is
-- refused and changes nothing.
pub reserve_excludes :
    (m : TurnManager) (key : Key) (kind : TurnKind) (model effort : Option String)
    (entry : ActiveTurn) (cs : List Call)
    → IsSound m
    → (reserve m key kind model effort).0 ≡ ok entry
    → All (λ c. may_release key c ≡ false) cs
    → Refuses (run (reserve m key kind model effort).1 cs) key
reserve_excludes m key kind model effort entry cs s granted kept = busy-Refuses _ key (
    run-is_busy _ key cs (reserve-IsSound s key kind model effort) kept (
      unfold reserve is_busy in
      ground (arith, contains-put Key-discrete m.active key key (starting key kind model effort))))

-- The same after a `reserve_mutation` that was granted.
pub reserve_mutation_excludes :
    (m : TurnManager) (key : Key) (cs : List Call)
    → IsSound m
    → (reserve_mutation m key).0 ≡ ok tt
    → All (λ c. may_release key c ≡ false) cs
    → Refuses (run (reserve_mutation m key).1 cs) key
reserve_mutation_excludes m key cs s granted kept = busy-Refuses _ key (
    run-is_busy _ key cs (reserve_mutation-IsSound s key) kept (
      unfold reserve_mutation is_busy in
      ground (arith, contains-put Key-discrete m.mutating key key tt)))
