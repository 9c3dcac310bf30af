-- ===== src/Requests/Modes.antt =====
-- schemas.py, `ThreadCreate`: what an accepted body asks for.
use agent_app_server.Base.{
  ◌≤◌, ◌≡◌, ◌⊎◌, refl, subst, arith, true, false, Option, none, some, String, ok, Result-cases, inl,
  inr, is_some,
}
use agent_app_server.Json.{is_empty}
use agent_app_server.Texts.{trim}
use agent_app_server.Requests.{
  ThreadCreate, mode_count, is_any, has_prompt_text, optional_not_blank, validate_creation_mode,
  thread_create,
}

-- What an accepted body of a new thread has.
pub record IsCreation (r : ThreadCreate) : Type 0 where
  pub one_mode : mode_count r ≤ 1
  pub prompt_for_attachments :
      (is_any r.initial_attachment_ids ≡ false) ⊎ (has_prompt_text r.initial_prompt ≡ true)
  pub effort_for_turn :
      (is_some r.reasoning_effort ≡ false)
      ⊎ ((is_some r.initial_prompt ≡ true) ⊎ (is_some r.initial_goal ≡ true))

validate_creation_mode-IsCreation :
    (r s : ThreadCreate) → validate_creation_mode r ≡ ok s → (r ≡ s) × IsCreation r
unfolding validate_creation_mode
validate_creation_mode-IsCreation r s e = (
  ground arith,
  record {
    one_mode = ground arith;
    prompt_for_attachments = ground arith;
    effort_for_turn = ground arith;
  },
)

-- A name that is given is stripped and not blank.
abbrev pub IsStripped : Option String → Option String → Type 0
IsStripped none none = Unit
IsStripped (some value) (some name) = (name ≡ trim value) × (is_empty name ≡ false)
IsStripped _ _ = ⊥

optional_not_blank-IsStripped :
    (value name : Option String) → optional_not_blank value ≡ ok name → IsStripped value name
unfolding optional_not_blank
optional_not_blank-IsStripped none none e = tt
optional_not_blank-IsStripped none (some n) e = let bad : ⊥ = ground arith in absurd bad
optional_not_blank-IsStripped (some v) none e = let bad : ⊥ = ground arith in absurd bad
optional_not_blank-IsStripped (some v) (some n) e = (ground arith, ground arith)

-- An accepted body of a new thread asks for at most one of a name, a first prompt and a goal, for attachments
-- only with a prompt that is not blank, and for an effort only with a prompt or a goal; it is the body that was
-- sent, with its name, if there is one, stripped and not blank.
pub thread_create_lem :
    (r s : ThreadCreate)
    → thread_create r ≡ ok s
    → (s ≡ record r { name = s.name }) × IsStripped r.name s.name × IsCreation s
unfolding thread_create
thread_create_lem r s e = elim (Result-cases (optional_not_blank r.name)) [
  | inr (x, refused) ↦ let bad : ⊥ = ground arith in absurd bad
  | inl (name, stripped) ↦
      let body : ThreadCreate = record r { name = name } in
      let checked : validate_creation_mode body ≡ ok s = ground arith in
      let (same, creation) = validate_creation_mode-IsCreation body s checked in
      (
        subst (λ b. b ≡ record r { name = b.name }) same refl,
        subst (λ b. IsStripped r.name b.name) same
            (optional_not_blank-IsStripped r.name name stripped),
        subst IsCreation same creation,
      )
]
