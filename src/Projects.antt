-- ===== src/Projects.antt =====
-- projects.py: names and keys of projects, and the two indexes of the registry. The hexadecimal
-- SHA-256 of a name is an argument, and a path is a text.
pub mod Keys
pub mod Index
pub mod Registry
pub mod Sorting
pub mod Indexing
pub mod Keyed
pub mod Discovery
pub mod Changes
mod Examples
use agent_app_server.Base.{
  ℕ, ◌+◌, Bool, true, false, not, ◌&&◌, ◌||◌, Option, none, some, List, [], ◌∷◌, ◌++◌, Result, ok,
  err, ◌>>=◌, if◌then◌else◌, ltb, leb, ◌==◌, all, any, holds, length, take,
}
use agent_app_server.Base.Dict
use agent_app_server.Base.Dict.{Dict}
use agent_app_server.Tenancy.{Text, Text-discrete, strip, encoded_length, is_control}

pub data ProjectRegistryError : Type 0 where
  unreadable_root invalid_name no_free_key invalid_key duplicate_key duplicate_path :
      ProjectRegistryError

pub record Project : Type 0 where
  pub key : Text
  pub name : Text
  pub path : Text

abbrev pub is_letter : ℕ → Bool
is_letter c = leb 97 c && leb c 122

abbrev pub is_key_char : ℕ → Bool
is_key_char c = is_letter c || leb 48 c && leb c 57 || c == 95 || c == 45

-- `PROJECT_KEY_PATTERN.fullmatch`
unfoldable pub is_project_key : Text → Bool
is_project_key [] = false
is_project_key (c ∷ s) = is_letter c && all is_key_char s && leb (length s) 63

abbrev pub is_dots : Text → Bool
is_dots s = holds (Text-discrete s (46 ∷ [])) || holds (Text-discrete s (46 ∷ 46 ∷ []))

abbrev pub is_separator : ℕ → Bool
is_separator c = c == 47 || c == 92 || c == 0

abbrev pub is_blank : Text → Bool
is_blank [] = true
is_blank (c ∷ s) = false

unfoldable pub validate_project_name : Text → Result ProjectRegistryError Text
validate_project_name value =
    let name = strip value in
    if is_blank name
      || is_dots name
      || any is_separator name
      || any is_control name
      || ltb 255 (encoded_length name)
    then err invalid_name
    else ok name

abbrev pub is_reserved : List Text → Text → Bool
is_reserved reserved key = any (λ r. holds (Text-discrete r key)) reserved

-- f"project-{digest[:n]}"
abbrev pub long_key : Text → ℕ → Text
long_key digest n = 112 ∷ 114 ∷ 111 ∷ 106 ∷ 101 ∷ 99 ∷ 116 ∷ 45 ∷ take n digest

-- f"p-{digest[:62]}"
abbrev pub short_key : Text → Text
short_key digest = 112 ∷ 45 ∷ take 62 digest

unfoldable pub first_free : List Text → List Text → Result ProjectRegistryError Text
first_free reserved [] = err no_free_key
first_free reserved (candidate ∷ rest) =
    let later = first_free reserved rest in
    if is_reserved reserved candidate then later else ok candidate

abbrev pub candidates : Text → List Text
candidates digest =
    long_key digest 16
    ∷ long_key digest 24
    ∷ long_key digest 32
    ∷ long_key digest 48
    ∷ short_key digest
    ∷ []

unfoldable pub generated_project_key :
    (Text → Text) → Text → List Text → Result ProjectRegistryError Text
unfolding first_free is_project_key
generated_project_key sha256 name reserved =
    let generated = first_free reserved (candidates (sha256 name)) in
    if is_project_key name && not (is_reserved reserved name) then ok name else generated

-- `_by_key` and `_by_path`
pub record Indexes : Type 0 where
  pub by_key : Dict Text Project
  pub by_path : Dict Text Project

unfoldable pub add_project : Indexes → Project → Result ProjectRegistryError Indexes
add_project x p =
    if is_project_key p.key
    then (if Dict.contains Text-discrete x.by_key p.key
        then err duplicate_key
        else if Dict.contains Text-discrete x.by_path p.path
        then err duplicate_path
        else ok (record {
          by_key = Dict.put Text-discrete x.by_key p.key p;
          by_path = Dict.put Text-discrete x.by_path p.path p;
        }))
    else err invalid_key

unfoldable pub add_projects : Indexes → List Project → Result ProjectRegistryError Indexes
unfolding add_project
add_projects x [] = ok x
add_projects x (p ∷ ps) = add_project x p >>= λ y. add_projects y ps

abbrev pub no_projects : Indexes
no_projects = record { by_key = []; by_path = [] }

abbrev pub installed :
    Indexes → Result ProjectRegistryError Indexes → Result ProjectRegistryError (Unit {0}) × Indexes
installed old (ok new) = (ok tt, new)
installed old (err e) = (err e, old)

-- `_replace`: new indexes, or an exception that leaves the old ones.
unfoldable pub replace : Indexes → List Project → Result ProjectRegistryError (Unit {0}) × Indexes
unfolding add_projects
replace old projects = installed old (add_projects no_projects projects)
