-- ===== src/Turns/Examples.antt =====
-- turn_manager.py at one thread of one tenant: a turn starts, runs and ends while others knock.
use agent_app_server.Base.{
  ◌≡◌, ite, refl, none, some, List, [], ◌∷◌, ok, All, String-discrete, if◌then◌else◌, false,
}
use agent_app_server.Base.Dict
use agent_app_server.Keys.{Key, Key-discrete}
use agent_app_server.Turns.{
  TurnManager, turn, goal, init, starting, is_busy, reserve, reserve_mutation, finish, current,
  begin_shutdown, finish_shutdown,
}
use agent_app_server.Turns.Calls.{
  Call, reserves, marks_running, attaches_task, finishes, interrupts_turn, run, may_release,
  is_enable,
}
use agent_app_server.Turns.Invariant.{IsSound, run-init-IsSound}
use agent_app_server.Turns.Exclusion.{Refuses, reserve_excludes, reserve_mutation_excludes}
use agent_app_server.Turns.Release.{is_released, finish_lem}
use agent_app_server.Turns.Shutdown.{shutdown_drains}
use agent_app_server.Turns.Status.{status, viewed, status_own}

abbrev key : Key
key = record { owner_id = some "ann"; thread_id = "t1" }

abbrev other : Key
other = record { owner_id = some "bob"; thread_id = "t1" }

abbrev calls : List Call
calls =
    reserves key turn none none
    ∷ marks_running key "turn-1" 7
    ∷ attaches_task key 3
    ∷ reserves other goal none none
    ∷ []

abbrev busy : TurnManager
busy = run init calls

run-init-IsSound_example : IsSound busy
run-init-IsSound_example = run-init-IsSound calls

init-IsSound : IsSound init
unfolding run
init-IsSound = run-init-IsSound []

knocking :
    All
      (λ c. may_release key c ≡ false)
      (reserves key goal none none ∷ finishes other none ∷ interrupts_turn key ∷ [])
unfolding Key-discrete
knocking = (refl, (refl, (refl, tt)))

free : (reserve init key turn none none).0 ≡ ok (starting key turn none none)
unfolding reserve is_busy Dict.contains
free = refl

reserve_excludes_example :
    Refuses
      (run
        (reserve init key turn none none).1
        (reserves key goal none none ∷ finishes other none ∷ interrupts_turn key ∷ []))
      key
reserve_excludes_example =
    reserve_excludes init key turn none none (starting key turn none none)
      (reserves key goal none none ∷ finishes other none ∷ interrupts_turn key ∷ []) init-IsSound
      free knocking

free_mutation : (reserve_mutation init key).0 ≡ ok tt
unfolding reserve_mutation is_busy Dict.contains
free_mutation = refl

reserve_mutation_excludes_example :
    Refuses
      (run
        (reserve_mutation init key).1
        (reserves key goal none none ∷ finishes other none ∷ interrupts_turn key ∷ []))
      key
reserve_mutation_excludes_example =
    reserve_mutation_excludes init key
      (reserves key goal none none ∷ finishes other none ∷ interrupts_turn key ∷ []) init-IsSound
      free_mutation knocking

finish_lem_example :
    ((k : Key)
      → current (finish busy key (some "turn-0")) k ≡ (
          if is_released (some "turn-0") (current busy key)
          then ite (Key-discrete key k) none (current busy k)
          else current busy k))
    × ((finish busy key (some "turn-0")).mutating ≡ busy.mutating)
    × ((finish busy key (some "turn-0")).accepting_turns ≡ busy.accepting_turns)
finish_lem_example = finish_lem busy key (some "turn-0") (run-init-IsSound calls)

closing : All (λ c. is_enable c ≡ false) (reserves key goal none none ∷ finishes key none ∷ [])
closing = (refl, (refl, tt))

shutdown_drains_example :
    is_busy
      (finish_shutdown
        (run (begin_shutdown busy).1 (reserves key goal none none ∷ finishes key none ∷ [])))
      other
    ≡ false
shutdown_drains_example =
    (shutdown_drains busy (reserves key goal none none ∷ finishes key none ∷ [])
        (run-init-IsSound calls) closing).2
      other

status_own_example :
    Dict.get String-discrete (status busy (some "ann")).active_threads "t1"
    ≡ viewed (current busy key) none
status_own_example = status_own busy "ann" "t1" (run-init-IsSound calls)
