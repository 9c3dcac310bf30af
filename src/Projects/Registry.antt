-- ===== src/Projects/Registry.antt =====
-- projects.py: discovery of the projects under a root, and the operations that change them. A path
-- under the root is its last component; the SHA-256 and the case folding of a name are arguments.
use agent_app_server.Base.{
  Bool, true, false, not, ◌&&◌, none, some, List, [], ◌∷◌, ◌++◌, map, Result, ok, err, ◌>>=◌,
  if◌then◌else◌, ltb, ◌==◌, select, any, holds,
}
use agent_app_server.Base.Dict
use agent_app_server.Base.Dict.{Dict, values}
use agent_app_server.Tenancy.{Text, Text-discrete}
use agent_app_server.Projects.{
  unreadable_root, Project, ProjectRegistryError, Indexes, is_project_key, is_reserved,
  generated_project_key, validate_project_name, replace,
}

pub record DirEntry : Type 0 where
  pub name : Text
  pub is_directory : Bool
  pub is_symlink : Bool

pub record Registry : Type 0 where
  pub has_root : Bool
  pub hidden_projects : List Text
  pub indexes : Indexes

-- The exceptions of the operations.
pub data OperationError : Type 0 where
  registry_error : ProjectRegistryError → OperationError
  no_root already_exists creation_failed unknown_project unmanaged rename_failed delete_failed :
      OperationError

unfoldable pub leb_text : Text → Text → Bool
leb_text [] t = true
leb_text (c ∷ s) [] = false
leb_text (c ∷ s) (d ∷ t) =
    let rest = leb_text s t in if ltb c d then true else if c == d then rest else false

-- `(name.casefold(), name)` in order.
abbrev pub in_order : (Text → Text) → Text → Text → Bool
in_order casefold s t =
    if holds (Text-discrete (casefold s) (casefold t))
    then leb_text s t
    else leb_text (casefold s) (casefold t)

module _ {A : Type 0} (name_of : A → Text) (casefold : Text → Text) where
  unfoldable pub insert_sorted : A → List A → List A
  insert_sorted x [] = x ∷ []
  insert_sorted x (y ∷ ys) =
      let later = insert_sorted x ys in
      if in_order casefold (name_of x) (name_of y) then x ∷ y ∷ ys else y ∷ later

  unfoldable pub sorted : List A → List A
  unfolding insert_sorted leb_text
  sorted [] = []
  sorted (x ∷ xs) = insert_sorted x (sorted xs)

abbrev pub is_candidate : DirEntry → Bool
is_candidate e = e.is_directory && not e.is_symlink

abbrev pub entry_name : DirEntry → Text
entry_name e = e.name

abbrev pub project_name : Project → Text
project_name p = p.name

abbrev pub own_project : Text → Project
own_project name = record { key = name; name = name; path = name }

-- Keys for the names that are none themselves, one after the other.
unfoldable pub keyed_projects :
    (Text → Text) → List Text → List Text → Result ProjectRegistryError (List Project)
unfolding generated_project_key
keyed_projects sha256 reserved [] = ok []
keyed_projects sha256 reserved (name ∷ names) =
    generated_project_key sha256 name reserved >>= λ key.
    keyed_projects sha256 (key ∷ reserved) names >>= λ rest.
    ok (record { key = key; name = name; path = name } ∷ rest)

abbrev pub is_safe : Text → Bool
is_safe name = is_project_key name

-- `_discover` of a registry with a root, which may be unreadable.
unfoldable pub discover :
    (Text → Text)
    → (Text → Text)
    → Bool
    → List DirEntry
    → Result ProjectRegistryError (List Project)
unfolding sorted keyed_projects is_project_key
discover sha256 casefold can_read entries =
    let names = map entry_name (sorted entry_name casefold (select is_candidate entries)) in
    let safe = select is_safe names in
    let keyed = keyed_projects sha256 safe (select (λ n. not (is_safe n)) names) in
    if can_read
    then (keyed >>= λ others. ok (sorted project_name casefold (map own_project safe ++ others)))
    else err unreadable_root

-- `self._replace(self._discover())`
unfoldable pub reload :
    (Text → Text)
    → (Text → Text)
    → Bool
    → Registry
    → List DirEntry
    → Result ProjectRegistryError (Unit {0}) × Registry
unfolding discover replace
reload sha256 casefold can_read r entries = elim (discover sha256 casefold can_read entries) [
  | err e ↦ (err e, r)
  | ok projects ↦
      let (answer, indexes) = replace r.indexes projects in (answer, record r { indexes = indexes })
]

-- `refresh`
unfoldable pub refresh :
    (Text → Text)
    → (Text → Text)
    → Bool
    → Registry
    → List DirEntry
    → Result ProjectRegistryError (Unit {0}) × Registry
unfolding reload
refresh sha256 casefold can_read r entries =
    if r.has_root then reload sha256 casefold can_read r entries else (ok tt, r)

abbrev pub registry_result : {A : Type 0} → Result ProjectRegistryError A → Result OperationError A
registry_result (ok a) = ok a
registry_result (err e) = err (registry_error e)

-- `get`, after its refresh.
unfoldable pub get_project :
    (Text → Text)
    → (Text → Text)
    → Bool
    → Registry
    → List DirEntry
    → Text
    → Result OperationError Project × Registry
unfolding refresh
get_project sha256 casefold can_read r entries key =
    let (refreshed, r') = refresh sha256 casefold can_read r entries in
    elim refreshed [
      | err e ↦ (err (registry_error e), r')
      | ok _ ↦ (
        elim (Dict.get Text-discrete r'.indexes.by_key key) [
          | none ↦ err unknown_project
          | some p ↦ ok p
        ],
        r',
      )
    ]

-- The end of an operation: the indexes are made anew, and the project at the target is answered.
unfoldable pub answer_target :
    OperationError
    → (Text → Text)
    → (Text → Text)
    → Bool
    → Registry
    → List DirEntry
    → Text
    → Result OperationError Project × Registry
unfolding reload
answer_target missing sha256 casefold can_read r entries target =
    let (replaced, r') = reload sha256 casefold can_read r entries in
    elim replaced [
      | err e ↦ (err (registry_error e), r')
      | ok _ ↦ (
        elim (Dict.get Text-discrete r'.indexes.by_path target) [
          | none ↦ err missing
          | some p ↦ ok p
        ],
        r',
      )
    ]

abbrev pub exists_entry : Text → List DirEntry → Bool
exists_entry name entries = any (λ e. holds (Text-discrete e.name name)) entries

abbrev pub new_directory : Text → DirEntry
new_directory name = record { name = name; is_directory = true; is_symlink = false }

-- What the file system allows to one operation: to list the root before it, to change the directory, and
-- to list the root after it.
pub record Disk : Type 0 where
  pub can_find : Bool
  pub can_change : Bool
  pub can_read : Bool

-- `create` from `mkdir` on
unfoldable pub make_project :
    (Text → Text)
    → (Text → Text)
    → Disk
    → Registry
    → List DirEntry
    → Text
    → Result OperationError Project × Registry × List DirEntry
make_project sha256 casefold disk r entries target =
    if exists_entry target entries
    then (err already_exists, r, entries)
    else if not disk.can_change
    then (err creation_failed, r, entries)
    else let made = entries ++ new_directory target ∷ [] in
      let (answer, r') =
        answer_target creation_failed sha256 casefold disk.can_read r made target in
      (answer, r', made)

-- `create`
unfoldable pub create :
    (Text → Text)
    → (Text → Text)
    → Disk
    → Registry
    → List DirEntry
    → Text
    → Result OperationError Project × Registry × List DirEntry
create sha256 casefold disk r entries name = elim (validate_project_name name) [
  | err e ↦ (err (registry_error e), r, entries)
  | ok target ↦
      if not r.has_root
      then (err no_root, r, entries)
      else make_project sha256 casefold disk r entries target
]

-- `_managed_project`: the project is a directory beneath the root and no link.
unfoldable pub managed_project :
    (Text → Text)
    → (Text → Text)
    → Bool
    → Registry
    → List DirEntry
    → Text
    → Result OperationError Project × Registry
unfolding get_project
managed_project sha256 casefold can_read r entries key =
    if not r.has_root
    then (err no_root, r)
    else let (found, r') = get_project sha256 casefold can_read r entries key in
      elim found [
        | err e ↦ (err e, r')
        | ok p ↦
            if any (λ e. e.is_symlink && holds (Text-discrete e.name p.path)) entries
            then (err unmanaged, r')
            else (ok p, r')
      ]

unfoldable pub rename_entry : Text → Text → List DirEntry → List DirEntry
rename_entry old new [] = []
rename_entry old new (e ∷ entries) =
    (if holds (Text-discrete e.name old) then record e { name = new } else e)
    ∷ rename_entry old new entries

abbrev pub move_project :
    (Text → Text)
    → (Text → Text)
    → Disk
    → Registry
    → List DirEntry
    → Text
    → Project
    → Result OperationError Project × Registry × List DirEntry
move_project sha256 casefold disk r entries target p =
    if holds (Text-discrete target p.path)
    then (ok p, r, entries)
    else if exists_entry target entries
    then (err already_exists, r, entries)
    else if not disk.can_change
    then (err rename_failed, r, entries)
    else let moved = rename_entry p.path target entries in
      let (answer, r') =
        answer_target unknown_project sha256 casefold disk.can_read r moved target in
      (answer, r', moved)

-- `rename`
unfoldable pub rename :
    (Text → Text)
    → (Text → Text)
    → Disk
    → Registry
    → List DirEntry
    → Text
    → Text
    → Result OperationError Project × Registry × List DirEntry
rename sha256 casefold disk r entries key name = elim (validate_project_name name) [
  | err e ↦ (err (registry_error e), r, entries)
  | ok target ↦
      let (found, r') = managed_project sha256 casefold disk.can_find r entries key in
      elim found [
        | err e ↦ (err e, r', entries)
        | ok p ↦ move_project sha256 casefold disk r' entries target p
      ]
]

abbrev pub without_entry : Text → List DirEntry → List DirEntry
without_entry name entries = select (λ e. not (holds (Text-discrete e.name name))) entries

-- `delete`
unfoldable pub delete :
    (Text → Text)
    → (Text → Text)
    → Disk
    → Registry
    → List DirEntry
    → Text
    → Result OperationError (Unit {0}) × Registry × List DirEntry
unfolding managed_project reload
delete sha256 casefold disk r entries key =
    let (found, r') = managed_project sha256 casefold disk.can_find r entries key in
    elim found [
      | err e ↦ (err e, r', entries)
      | ok p ↦
          if not disk.can_change
          then (err delete_failed, r', entries)
          else let left = without_entry p.path entries in
            let (replaced, r'') = reload sha256 casefold disk.can_read r' left in
            (registry_result replaced, r'', left)
    ]

abbrev pub is_visible : List Text → Project → Bool
is_visible hidden p = not (is_reserved hidden p.key) && not (is_reserved hidden p.name)

-- `public_view`, after its refresh.
unfoldable pub visible_projects : Registry → List Project
visible_projects r = select (is_visible r.hidden_projects) (values r.indexes.by_key)
