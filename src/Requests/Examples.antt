-- ===== src/Requests/Examples.antt =====
-- schemas.py: the theorem at a small body.
use agent_app_server.Base.{◌≡◌, refl, none, some, [], String-discrete, ok}
use agent_app_server.Texts.{trim_left, trim_right, any_character}
use agent_app_server.Requests.{
  ThreadCreate, thread_create, optional_not_blank, validate_creation_mode,
}
use agent_app_server.Requests.Modes.{IsCreation, IsStripped, thread_create_lem}

abbrev sent : ThreadCreate
sent = record {
  project_key = "app";
  name = some " First ";
  model = none;
  initial_prompt = none;
  initial_attachment_ids = [];
  initial_goal = none;
  reasoning_effort = none;
}

abbrev taken : ThreadCreate
taken = record sent { name = some "First" }

is_taken : thread_create sent ≡ ok taken
unfolding thread_create optional_not_blank validate_creation_mode trim_left trim_right any_character
    String-discrete
is_taken = refl

thread_create_lem_example :
    (taken ≡ record sent { name = taken.name }) × IsStripped sent.name taken.name × IsCreation taken
thread_create_lem_example = thread_create_lem sent taken is_taken
