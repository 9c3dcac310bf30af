-- ===== src/Turns/Updates.antt =====
-- turn_manager.py: the calls that change the entry of a key in place, `mark_running`, `attach_task`
-- and `interrupt`, have one case rule each.
use agent_app_server.Base.{ℕ, ◌≡◌, refl, some, inl, inr, String, Option-cases}
use agent_app_server.Base.Dict
use agent_app_server.Keys.{Key, Key-discrete}
use agent_app_server.Turns.{TurnManager, ActiveTurn, mark_running, attach_task, interrupt}

abbrev pub key_of : ActiveTurn → Key
key_of t = record { owner_id = t.owner_id; thread_id = t.thread_id }

-- Either the state stays, or the entry is replaced by one of the same owner and thread.
module _ (P : TurnManager → Type 0) (m : TurnManager) (key : Key) (stays : P m)
    (replaced : (t u : ActiveTurn)
      → Dict.get Key-discrete m.active key ≡ some t
      → key_of u ≡ key_of t
      → P (record m { active = Dict.put Key-discrete m.active key u })) where
  pub mark_running_cases : (turn_id : String) (handle : ℕ) → P (mark_running m key turn_id handle).1
  unfolding mark_running
  mark_running_cases turn_id handle = elim (Option-cases (Dict.get Key-discrete m.active key)) [
    | inl e ↦ rw (e, mark_running) stays
    | inr (t, e) ↦ rw (e, mark_running) (replaced t _ e refl)
  ]

  pub attach_task_cases : (task : ℕ) → P (attach_task m key task).2
  unfolding attach_task
  attach_task_cases task = elim (Option-cases (Dict.get Key-discrete m.active key)) [
    | inl e ↦ rw (e, attach_task) stays
    | inr (t, e) ↦ rw (e, attach_task) (replaced t _ e refl)
  ]

  interrupt_entry_cases :
      (t : ActiveTurn) → Dict.get Key-discrete m.active key ≡ some t → P (interrupt m key).2
  unfolding interrupt
  interrupt_entry_cases t e = elim (Option-cases t.handle) [
    | inl h ↦ rw (e, h, interrupt) stays
    | inr (handle, h) ↦ rw (e, h, interrupt) (replaced t _ e refl)
  ]

  pub interrupt_cases : P (interrupt m key).2
  unfolding interrupt
  interrupt_cases = elim (Option-cases (Dict.get Key-discrete m.active key)) [
    | inl e ↦ rw (e, interrupt) stays
    | inr (t, e) ↦ interrupt_entry_cases t e
  ]
