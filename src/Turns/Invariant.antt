-- ===== src/Turns/Invariant.antt =====
-- What every interleaving of the manager's calls keeps: each dictionary has a key once, no key is
-- both active and mutating, and an entry stands under its own owner and thread.
use agent_app_server.Base.{
  ◌≡◌, refl, Bool, true, false, Option, some, List, [], ◌∷◌, arith, inl, inr, Bool-cases, String,
}
use agent_app_server.Base.Dict
use agent_app_server.Base.Dict.{Dict, contains-put, contains-pop, put-IsUnique, pop-IsUnique}
use agent_app_server.Keys.{Key, Key-discrete}
use agent_app_server.Turns.{
  TurnManager, ActiveTurn, TurnKind, init, starting, is_busy, reserve, reserve_mutation,
  finish_mutation, finish, enable, begin_shutdown, finish_shutdown,
}
use agent_app_server.Turns.Updates.{key_of, mark_running_cases, attach_task_cases, interrupt_cases}
use agent_app_server.Turns.Calls.{
  Call, reserves, reserves_mutation, finishes_mutation, marks_running, attaches_task, finishes,
  interrupts_turn, enables, begins_shutdown, finishes_shutdown, step, run,
}

abbrev pub has_active : TurnManager → Key → Bool
has_active m k = Dict.contains Key-discrete m.active k

abbrev pub has_mutation : TurnManager → Key → Bool
has_mutation m k = Dict.contains Key-discrete m.mutating k

pub record IsSound (m : TurnManager) : Type 0 where
  pub unique_active : Dict.IsUnique Key-discrete m.active
  pub unique_mutating : Dict.IsUnique Key-discrete m.mutating
  pub exclusive : (k : Key) → has_active m k ≡ true → has_mutation m k ≡ false
  pub owned : (k : Key) (t : ActiveTurn) → Dict.get Key-discrete m.active k ≡ some t → key_of t ≡ k

pub empty-IsSound :
    (accepting : Bool)
    → IsSound (record { active = []; mutating = []; accepting_turns = accepting })
unfolding Dict.contains Dict.get
empty-IsSound accepting = record {
  unique_active = tt;
  unique_mutating = tt;
  exclusive = λ k h. refl;
  owned = λ k t e. cc;
}

-- A new entry under a key that no mutation holds.
module _ {m : TurnManager} (sound : IsSound m) (key : Key) (t : ActiveTurn)
    (its_key : key_of t ≡ key) (free : has_mutation m key ≡ false) where
  pub put-IsSound : IsSound (record m { active = Dict.put Key-discrete m.active key t })
  put-IsSound = record {
    unique_active = put-IsUnique Key-discrete m.active key t sound.unique_active;
    unique_mutating = sound.unique_mutating;
    exclusive =
        λ k h. ground (arith, contains-put Key-discrete m.active key k t, sound.exclusive k);
    owned = λ k u h. ground (arith, Dict.get-put Key-discrete m.active key k t, sound.owned k u);
  }

module _ {m : TurnManager} (sound : IsSound m) (key : Key) where
  pub reserve-IsSound :
      (kind : TurnKind) (model effort : Option String) → IsSound (reserve m key kind model effort).1
  unfolding reserve is_busy
  reserve-IsSound kind model effort =
      ground (arith, put-IsSound sound key (starting key kind model effort) refl)

  pub reserve_mutation-IsSound : IsSound (reserve_mutation m key).1
  unfolding reserve_mutation is_busy
  reserve_mutation-IsSound = elim (Bool-cases (is_busy m key)) [
    | inl busy ↦ rw busy sound
    | inr free ↦ rw free (record {
      unique_active = sound.unique_active;
      unique_mutating = put-IsUnique Key-discrete m.mutating key tt sound.unique_mutating;
      exclusive =
          λ k h. ground (arith, contains-put Key-discrete m.mutating key k tt, sound.exclusive k);
      owned = sound.owned;
    })
  ]

  pub finish_mutation-IsSound : IsSound (finish_mutation m key)
  unfolding finish_mutation
  finish_mutation-IsSound = record {
    unique_active = sound.unique_active;
    unique_mutating = pop-IsUnique Key-discrete m.mutating key sound.unique_mutating;
    exclusive = λ k h. ground (
      arith,
      contains-pop Key-discrete m.mutating key k sound.unique_mutating,
      sound.exclusive k,
    );
    owned = sound.owned;
  }

  -- A change of the entry of `key` that leaves its owner and its thread.
  pub replace-IsSound :
      (t u : ActiveTurn)
      → Dict.get Key-discrete m.active key ≡ some t
      → key_of u ≡ key_of t
      → IsSound (record m { active = Dict.put Key-discrete m.active key u })
  replace-IsSound t u e same =
      put-IsSound sound key u (ground (arith, sound.owned key t e))
        (sound.exclusive key (Dict.contains-get Key-discrete m.active key t e))

  pop-IsSound : IsSound (record m { active = Dict.pop Key-discrete m.active key })
  pop-IsSound = record {
    unique_active = pop-IsUnique Key-discrete m.active key sound.unique_active;
    unique_mutating = sound.unique_mutating;
    exclusive = λ k h.
        ground
          (arith, contains-pop Key-discrete m.active key k sound.unique_active, sound.exclusive k);
    owned = λ k u h.
        ground
          (arith, Dict.get-pop Key-discrete m.active key k sound.unique_active, sound.owned k u);
  }

  pub finish-IsSound : (turn_id : Option String) → IsSound (finish m key turn_id)
  unfolding finish
  finish-IsSound turn_id = ground (arith, pop-IsSound)

-- No call breaks the invariant.
pub step-IsSound : (m : TurnManager) (c : Call) → IsSound m → IsSound (step m c)
unfolding step enable begin_shutdown finish_shutdown
step-IsSound m (reserves key kind model effort) s = reserve-IsSound s key kind model effort
step-IsSound m (reserves_mutation key) s = reserve_mutation-IsSound s key
step-IsSound m (finishes_mutation key) s = finish_mutation-IsSound s key
step-IsSound m (marks_running key turn_id handle) s =
    mark_running_cases IsSound m key s (replace-IsSound s key) turn_id handle
step-IsSound m (attaches_task key task) s =
    attach_task_cases IsSound m key s (replace-IsSound s key) task
step-IsSound m (finishes key turn_id) s = finish-IsSound s key turn_id
step-IsSound m (interrupts_turn key) s = interrupt_cases IsSound m key s (replace-IsSound s key)
step-IsSound m enables s = record {
  unique_active = s.unique_active;
  unique_mutating = s.unique_mutating;
  exclusive = s.exclusive;
  owned = s.owned;
}
step-IsSound m begins_shutdown s = record {
  unique_active = s.unique_active;
  unique_mutating = s.unique_mutating;
  exclusive = s.exclusive;
  owned = s.owned;
}
step-IsSound m finishes_shutdown s = empty-IsSound m.accepting_turns

pub run-IsSound : (m : TurnManager) (cs : List Call) → IsSound m → IsSound (run m cs)
unfolding run
run-IsSound m [] s = s
run-IsSound m (c ∷ cs) s = run-IsSound (step m c) cs (step-IsSound m c s)

-- After any calls from a new manager, in any order, no thread key is both active and under
-- mutation, each key is reserved at most once, and an entry names the owner and thread it is
-- stored under.
pub run-init-IsSound : (cs : List Call) → IsSound (run init cs)
run-init-IsSound cs = run-IsSound init cs (empty-IsSound true)
