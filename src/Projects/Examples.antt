-- ===== src/Projects/Examples.antt =====
-- projects.py: the theorems at small names.
use agent_app_server.Base.{
  Bool, ℕ, zero, suc, ◌≡◌, ◌≢◌, ◌≤◌, refl, true, false, List, [], ◌∷◌, ok, any, ℕ_discrete,
}
use agent_app_server.Tenancy.{
  Text, Text-discrete, lstrip, rstrip, strip, is_control, encoded_length,
}
use agent_app_server.Projects.{
  Project, is_project_key, is_reserved, is_separator, first_free, generated_project_key,
  validate_project_name, no_projects, replace,
}
use agent_app_server.Projects.Registry.{DirEntry, Registry, Disk, entry_name, refresh, create}
use agent_app_server.Projects.Sorting.{occurs, AreDistinct}
use agent_app_server.Projects.Keyed.{IsHex}
use agent_app_server.Projects.Discovery.{Refreshed, refresh_lem}
use agent_app_server.Projects.Changes.{Created, create_lem}
use agent_app_server.Projects.Keys.{generated_project_key_lem, validate_project_name_lem}
use agent_app_server.Projects.Index.{IsIndexed, no_projects-IsIndexed, replace-IsIndexed}

abbrev zeros : ℕ → Text
zeros zero = []
zeros (suc n) = 48 ∷ zeros n

abbrev digest_of : Text → Text
digest_of name = zeros 64

-- "My app" is no key, and its first candidate is taken.
abbrev my_app : Text
my_app = 77 ∷ 121 ∷ 32 ∷ 97 ∷ 112 ∷ 112 ∷ []

abbrev taken : List Text
taken = (112 ∷ 114 ∷ 111 ∷ 106 ∷ 101 ∷ 99 ∷ 116 ∷ 45 ∷ zeros 16) ∷ []

abbrev made : Text
made = 112 ∷ 114 ∷ 111 ∷ 106 ∷ 101 ∷ 99 ∷ 116 ∷ 45 ∷ zeros 24

key_for_app : generated_project_key digest_of my_app taken ≡ ok made
unfolding generated_project_key is_project_key first_free Text-discrete ℕ_discrete
key_for_app = refl

generated_project_key_lem_example :
    (is_project_key made ≡ true)
    × (is_reserved taken made ≡ false)
    × (is_project_key my_app ≡ true → is_reserved taken my_app ≡ false → made ≡ my_app)
generated_project_key_lem_example =
    generated_project_key_lem digest_of my_app taken made refl key_for_app

abbrev spaced : Text
spaced = 32 ∷ 97 ∷ 112 ∷ 112 ∷ []

abbrev app : Text
app = 97 ∷ 112 ∷ 112 ∷ []

app_accepted : validate_project_name spaced ≡ ok app
unfolding validate_project_name lstrip rstrip Text-discrete ℕ_discrete
app_accepted = refl

validate_project_name_lem_example :
    (validate_project_name app ≡ ok app)
    × (strip app ≡ app)
    × (any is_separator app ≡ false)
    × (any is_control app ≡ false)
    × (encoded_length app ≤ 255)
    × (app ≢ [])
    × (app ≢ 46 ∷ [])
    × (app ≢ 46 ∷ 46 ∷ [])
validate_project_name_lem_example = validate_project_name_lem spaced app app_accepted

abbrev two_projects : List Project
two_projects =
    record { key = app; name = app; path = 47 ∷ app }
    ∷ record { key = made; name = my_app; path = 47 ∷ my_app }
    ∷ []

replace-IsIndexed_example : IsIndexed (replace no_projects two_projects).1
replace-IsIndexed_example = replace-IsIndexed no_projects two_projects no_projects-IsIndexed

-- A root with a project, a directory whose name is no key, and a link.
abbrev same_case : Text → Text
same_case name = name

abbrev directory : Text → Bool → DirEntry
directory name is_symlink = record { name = name; is_directory = true; is_symlink = is_symlink }

abbrev root_entries : List DirEntry
root_entries = directory (97 ∷ []) false ∷ directory my_app false ∷ directory (98 ∷ []) true ∷ []

abbrev empty_registry : Registry
empty_registry = record { has_root = true; hidden_projects = []; indexes = no_projects }

digest-IsHex : IsHex digest_of
digest-IsHex name = refl

root-AreDistinct : AreDistinct entry_name root_entries
unfolding occurs Text-discrete ℕ_discrete
root-AreDistinct = (refl, (refl, (refl, tt)))

refresh_lem_example :
    Refreshed digest_of same_case true empty_registry root_entries
      (refresh digest_of same_case true empty_registry root_entries)
refresh_lem_example =
    refresh_lem digest_of same_case true empty_registry root_entries refl digest-IsHex
      root-AreDistinct

name_b : validate_project_name (99 ∷ []) ≡ ok (99 ∷ [])
unfolding validate_project_name lstrip rstrip Text-discrete ℕ_discrete
name_b = refl

-- The root can be listed and changed.
abbrev working_disk : Disk
working_disk = record { can_find = true; can_change = true; can_read = true }

create_lem_example :
    Created digest_of same_case working_disk empty_registry root_entries
      (99 ∷ [])
      (create digest_of same_case working_disk empty_registry root_entries (99 ∷ []))
create_lem_example =
    create_lem digest_of same_case working_disk empty_registry root_entries (99 ∷ []) (99 ∷ []) refl
      name_b digest-IsHex root-AreDistinct no_projects-IsIndexed
