-- ===== src/Requests.antt =====
-- schemas.py: the request bodies of threads, turns and goals, after their JSON has been read into the
-- fields. Lengths count characters.
pub mod Modes
mod Examples
use Prim.Native.Char.{code}
use Prim.Native.String.{count, len}
use Prim.Native.String.{[] as empty, ◌∷◌ as ◌▹◌}
use agent_app_server.Base.{
  ℕ, zero, suc, ◌+◌, Bool, true, false, not, ◌&&◌, ◌||◌, Option, none, some, List, [], ◌∷◌, String,
  Result, ok, err, ◌>>=◌, if◌then◌else◌, ltb, leb, all, is_some, length,
}
use agent_app_server.Json.{is_empty}
use agent_app_server.Projects.{is_letter, is_key_char}
use agent_app_server.Attachments.{is_attachment_id, is_name_character}
use agent_app_server.Texts.{trim, any_character, is_one_of}

pub data RequestError : Type 0 where
  invalid_field blank missing_prompt several_modes unused_effort : RequestError

abbrev pub has_length : ℕ → ℕ → String → Bool
has_length low high s = leb low (count s) && leb (count s) high

-- A field that may be left out.
abbrev pub all_given : (String → Bool) → Option String → Bool
all_given test none = true
all_given test (some s) = test s

-- `ProjectKey`
abbrev pub is_key_field : String → Bool
is_key_field empty = false
is_key_field (c ▹ s) =
    is_letter (code c)
    && not (any_character (λ d. not (is_key_char d)) s)
    && has_length 1 64 (c ▹ s)

-- `ModelId`, `Prompt` and `GoalObjective`, `AttachmentIds`, `ReasoningEffort`
abbrev pub is_model : String → Bool
is_model s = has_length 1 100 s

abbrev pub is_prompt : String → Bool
is_prompt s = has_length 1 200000 s

abbrev pub are_attachment_ids : List String → Bool
are_attachment_ids ids = leb (length ids) 5 && all is_attachment_id ids

abbrev pub is_effort : String → Bool
is_effort s =
    is_one_of ("none" ∷ "minimal" ∷ "low" ∷ "medium" ∷ "high" ∷ "xhigh" ∷ "max" ∷ "ultra" ∷ []) s

-- `GoalTokenBudget`
abbrev pub is_budget : Option ℕ → Bool
is_budget none = true
is_budget (some n) = leb 1 n && leb n 2000000000

-- The validators that strip a text and refuse a blank one.
unfoldable pub not_blank : String → Result RequestError String
not_blank value = let stripped = trim value in if is_empty stripped then err blank else ok stripped

unfoldable pub optional_not_blank : Option String → Result RequestError (Option String)
unfolding not_blank
optional_not_blank none = ok none
optional_not_blank (some value) = not_blank value >>= λ stripped. ok (some stripped)

abbrev pub check_field : Bool → Result RequestError (Unit {0})
check_field passed = if passed then ok tt else err invalid_field

-- `ProjectCreate`
unfoldable pub project_create : String → Result RequestError String
unfolding not_blank
project_create name = check_field (has_length 1 255 name) >>= λ _. not_blank name >>= λ stripped.
    if is_one_of ("." ∷ ".." ∷ []) stripped
      || any_character (λ c. not (is_name_character c)) stripped
      || ltb 255 (len stripped)
    then err invalid_field
    else ok stripped

pub record ThreadCreate : Type 0 where
  pub project_key : String
  pub name : Option String
  pub model : Option String
  pub initial_prompt : Option String
  pub initial_attachment_ids : List String
  pub initial_goal : Option String
  pub reasoning_effort : Option String

abbrev pub has_prompt_text : Option String → Bool
has_prompt_text none = false
has_prompt_text (some s) = not (is_empty s) && not (is_empty (trim s))

abbrev pub is_any : List String → Bool
is_any [] = false
is_any (s ∷ ss) = true

abbrev pub one_if : Bool → ℕ
one_if true = 1
one_if false = 0

-- How many ways to create a thread are asked for.
abbrev pub mode_count : ThreadCreate → ℕ
mode_count r =
    one_if (is_some r.name) + (one_if (is_some r.initial_prompt) + one_if (is_some r.initial_goal))

-- `validate_creation_mode`
unfoldable pub validate_creation_mode : ThreadCreate → Result RequestError ThreadCreate
validate_creation_mode r =
    if is_any r.initial_attachment_ids && not (has_prompt_text r.initial_prompt)
    then err missing_prompt
    else if ltb 1 (mode_count r)
    then err several_modes
    else if is_some r.reasoning_effort
        && not (is_some r.initial_prompt)
        && not (is_some r.initial_goal)
    then err unused_effort
    else ok r

abbrev pub thread_fields_hold : ThreadCreate → Bool
thread_fields_hold r =
    is_key_field r.project_key
    && all_given (has_length 1 200) r.name
    && all_given is_model r.model
    && all_given is_prompt r.initial_prompt
    && are_attachment_ids r.initial_attachment_ids
    && all_given is_prompt r.initial_goal
    && all_given is_effort r.reasoning_effort

-- `ThreadCreate`
unfoldable pub thread_create : ThreadCreate → Result RequestError ThreadCreate
thread_create r = check_field (thread_fields_hold r) >>= λ _.
    optional_not_blank r.name >>= λ name. validate_creation_mode (record r { name = name })

pub record ThreadUpdate : Type 0 where
  pub name : Option String
  pub pinned : Option Bool
  pub custom_label : Option String

-- `normalize_label`
unfoldable pub normalize_label : Option String → Option String
normalize_label none = none
normalize_label (some s) =
    let stripped = trim s in if is_empty stripped then none else some stripped

-- `ThreadUpdate`
unfoldable pub thread_update : ThreadUpdate → Result RequestError ThreadUpdate
unfolding optional_not_blank normalize_label
thread_update r =
    check_field (all_given (has_length 1 200) r.name && all_given (has_length 0 200) r.custom_label)
    >>= λ _. optional_not_blank r.name >>= λ name.
        ok (record r { name = name; custom_label = normalize_label r.custom_label })

pub record TurnStart : Type 0 where
  pub prompt : String
  pub attachment_ids : List String
  pub model : Option String
  pub reasoning_effort : Option String

-- `TurnStart`
unfoldable pub turn_start : TurnStart → Result RequestError TurnStart
unfolding not_blank
turn_start r =
    check_field (
      is_prompt r.prompt
      && are_attachment_ids r.attachment_ids
      && all_given is_model r.model
      && all_given is_effort r.reasoning_effort)
    >>= λ _. not_blank r.prompt >>= λ prompt. ok (record r { prompt = prompt })

-- `TurnSteer`
unfoldable pub turn_steer : String → Result RequestError String
unfolding not_blank
turn_steer prompt = check_field (is_prompt prompt) >>= λ _. not_blank prompt

pub record GoalStart : Type 0 where
  pub objective : String
  pub token_budget : Option ℕ
  pub model : Option String
  pub reasoning_effort : Option String

-- `GoalStart`
unfoldable pub goal_start : GoalStart → Result RequestError GoalStart
unfolding not_blank
goal_start r =
    check_field (
      is_prompt r.objective
      && is_budget r.token_budget
      && all_given is_model r.model
      && all_given is_effort r.reasoning_effort)
    >>= λ _. not_blank r.objective >>= λ objective. ok (record r { objective = objective })
