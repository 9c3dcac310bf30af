-- ===== src/Projects/Changes.antt =====
-- projects.py, `create`: what becomes of the directory and of the registry on every branch.
use agent_app_server.Base.{
  ◌≡◌, ◌⊎◌, refl, sym, ap, subst, ◌∙◌, Bool, true, false, not, some, List, [], ◌∷◌, ◌++◌, select,
  select-append, arith, All, Bool-cases, Result-cases, Option-cases, inl, inr, if◌then◌else◌,
  Result, ok, err,
}
use agent_app_server.Base.Dict
use agent_app_server.Tenancy.{Text, Text-discrete}
use agent_app_server.Projects.{Project, ProjectRegistryError, validate_project_name}
use agent_app_server.Projects.Index.{IsIndexed, replace-IsIndexed}
use agent_app_server.Projects.Registry.{
  DirEntry, Registry, OperationError, is_candidate, entry_name, discover, reload, answer_target,
  exists_entry, new_directory, make_project, create, Disk,
}
use agent_app_server.Projects.Sorting.{occurs, AreDistinct, occurs-append, append-AreDistinct}
use agent_app_server.Projects.Keyed.{IsHex}
use agent_app_server.Projects.Discovery.{NoKeyIsFree, Refreshed, reload_lem}

reload-IsIndexed :
    (sha256 casefold : Text → Text) (can_read : Bool) (r : Registry) (entries : List DirEntry)
    → IsIndexed r.indexes
    → IsIndexed (reload sha256 casefold can_read r entries).1.indexes
unfolding reload
reload-IsIndexed sha256 casefold can_read r entries i =
    elim (Result-cases (discover sha256 casefold can_read entries)) [
      | inl (projects, found) ↦ rw (reload, found) (replace-IsIndexed r.indexes projects i)
      | inr (e, failed) ↦ rw (reload, failed) i
    ]

-- The project that stands at the path, under its own key.
abbrev IsProjectAt : Registry → Text → Project → Type 0
IsProjectAt r path p = (p.path ≡ path) × (Dict.get Text-discrete r.indexes.by_key p.key ≡ some p)

contains-found :
    (r : Registry) (path : Text)
    → IsIndexed r.indexes
    → Dict.contains Text-discrete r.indexes.by_path path ≡ true
    → (p : Project) × (Dict.get Text-discrete r.indexes.by_path path ≡ some p)
      × IsProjectAt r path p
contains-found r path i there =
    elim (Option-cases (Dict.get Text-discrete r.indexes.by_path path)) [
      | inl missing ↦
          let bad : ⊥ =
            ground (arith, Dict.contains-none Text-discrete r.indexes.by_path path missing) in
          absurd bad
      | inr (p, found) ↦ (p, found, i.paths path p found)
    ]

exists-occurs :
    (name : Text) (es : List DirEntry) → exists_entry name es ≡ occurs entry_name name es
unfolding occurs
exists-occurs name [] = refl
exists-occurs name (e ∷ es) = ground (arith, exists-occurs name es)

apart_from :
    (name : Text) (es : List DirEntry)
    → occurs entry_name name es ≡ false
    → All (λ e. occurs entry_name e.name (new_directory name ∷ []) ≡ false) es
unfolding occurs
apart_from name [] h = tt
apart_from name (e ∷ es) h = (ground arith, apart_from name es (ground arith))

with_directory-AreDistinct :
    (name : Text) (es : List DirEntry)
    → AreDistinct entry_name es
    → exists_entry name es ≡ false
    → AreDistinct entry_name (es ++ new_directory name ∷ [])
unfolding occurs
with_directory-AreDistinct name es d new =
    append-AreDistinct entry_name es (new_directory name ∷ []) d (refl, tt)
      (apart_from name es (sym (exists-occurs name es) ∙ new))

occurs-with_directory :
    (name : Text) (es : List DirEntry)
    → occurs entry_name name (select is_candidate (es ++ new_directory name ∷ [])) ≡ true
unfolding occurs
occurs-with_directory name es =
    ap (occurs entry_name name) (select-append is_candidate es (new_directory name ∷ []))
    ∙ ground
        (arith, occurs-append entry_name name (select is_candidate es) (new_directory name ∷ []))

-- The end of an operation whose directory is there: the root is unreadable, or some name finds no key,
-- and the registry is the old one; or the answer is the project at the directory.
abbrev IsAnswered :
    (Text → Text)
    → (Text → Text)
    → Bool
    → Registry
    → List DirEntry
    → Text
    → Result OperationError Project × Registry
    → Type 0
IsAnswered sha256 casefold can_read r entries target (answer, r') =
    ((can_read ≡ false)
      × (answer ≡ err (OperationError.registry_error ProjectRegistryError.unreadable_root))
      × (r' ≡ r))
    ⊎ (((can_read ≡ true)
          × NoKeyIsFree sha256 casefold entries
          × (answer ≡ err (OperationError.registry_error ProjectRegistryError.no_free_key))
          × (r' ≡ r))
        ⊎ ((can_read ≡ true) × ((p : Project) × (answer ≡ ok p) × IsProjectAt r' target p)))

answer_target-there :
    (missing : OperationError) (sha256 casefold : Text → Text) (can_read : Bool) (r : Registry)
    (entries : List DirEntry) (target : Text)
    → IsIndexed r.indexes
    → Refreshed sha256 casefold can_read r entries (reload sha256 casefold can_read r entries)
    → occurs entry_name target (select is_candidate entries) ≡ true
    → IsAnswered sha256 casefold can_read r entries target
        (answer_target missing sha256 casefold can_read r entries target)
unfolding answer_target
answer_target-there missing sha256 casefold can_read r entries target i reloaded there =
    elim reloaded [
      | inl (unreadable, failed, same) ↦ rw (answer_target, failed) (inl (unreadable, refl, same))
      | inr (inl (readable, exhausted, failed, same)) ↦
          rw (answer_target, failed) (inr (inl (readable, exhausted, refl, same)))
      | inr (inr (readable, made, paths)) ↦
          let (p, found, at) =
            contains-found (reload sha256 casefold can_read r entries).1 target
              (reload-IsIndexed sha256 casefold can_read r entries i) (paths target ∙ there) in
          rw (answer_target, made, found) (inr (inr (readable, (p, refl, at))))
    ]

-- The answer, the registry and the entries of the root after `create`, for an accepted name.
abbrev pub Created :
    (Text → Text)
    → (Text → Text)
    → Disk
    → Registry
    → List DirEntry
    → Text
    → Result OperationError Project × Registry × List DirEntry
    → Type 0
Created sha256 casefold disk r entries target (answer, r', after) =
    if exists_entry target entries
    then (answer ≡ err OperationError.already_exists) × (r' ≡ r) × (after ≡ entries)
    else if not disk.can_change
    then (answer ≡ err OperationError.creation_failed) × (r' ≡ r) × (after ≡ entries)
    else (after ≡ entries ++ new_directory target ∷ [])
      × IsAnswered sha256 casefold disk.can_read r (entries ++ new_directory target ∷ []) target
          (answer, r')

make_project_lem :
    (sha256 casefold : Text → Text) (disk : Disk) (r : Registry) (entries : List DirEntry)
    (target : Text)
    → IsHex sha256
    → AreDistinct entry_name entries
    → IsIndexed r.indexes
    → Created sha256 casefold disk r entries target
        (make_project sha256 casefold disk r entries target)
unfolding make_project
make_project_lem sha256 casefold disk r entries target hex d i =
    elim (Bool-cases (exists_entry target entries)) [
      | inl there ↦ rw (make_project, there) (refl, refl, refl)
      | inr new ↦ elim (Bool-cases disk.can_change) [
        | inr refused ↦ rw (make_project, new, refused) (refl, refl, refl)
        | inl allowed ↦
            let made = entries ++ new_directory target ∷ [] in
            rw (make_project, new, allowed)
              (
                refl,
                answer_target-there OperationError.creation_failed sha256 casefold disk.can_read r
                    made target i
                    (reload_lem sha256 casefold disk.can_read r made hex
                      (with_directory-AreDistinct target entries d new))
                    (occurs-with_directory target entries),
              )
      ]
    ]

create-rooted :
    (sha256 casefold : Text → Text) (disk : Disk) (r : Registry) (entries : List DirEntry)
    (name target : Text)
    → r.has_root ≡ true
    → validate_project_name name ≡ ok target
    → create sha256 casefold disk r entries name
      ≡ make_project sha256 casefold disk r entries target
unfolding create
create-rooted sha256 casefold disk r entries name target rooted valid = ground arith

-- With an accepted name, on a registry with a root and agreeing indexes: a name that is there is
-- refused, and so is a directory that cannot be made, with nothing changed; otherwise the directory
-- is added. Then the answer is the project at it, which the registry has under its key, unless the root
-- cannot be read anew or some name that is no key finds all its candidates taken: in these two cases
-- the directory is there, the registry is the old one, and the error is that of the discovery.
pub create_lem :
    (sha256 casefold : Text → Text) (disk : Disk) (r : Registry) (entries : List DirEntry)
    (name target : Text)
    → r.has_root ≡ true
    → validate_project_name name ≡ ok target
    → IsHex sha256
    → AreDistinct entry_name entries
    → IsIndexed r.indexes
    → Created sha256 casefold disk r entries target (create sha256 casefold disk r entries name)
create_lem sha256 casefold disk r entries name target rooted valid hex d i =
    subst (Created sha256 casefold disk r entries target)
      (sym (create-rooted sha256 casefold disk r entries name target rooted valid))
      (make_project_lem sha256 casefold disk r entries target hex d i)
