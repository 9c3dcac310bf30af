-- ===== src/Projects/Discovery.antt =====
-- projects.py, `refresh`: what a discovery makes of the directories under the root.
use agent_app_server.Base.{
  ◌≡◌, ◌⊎◌, refl, sym, subst, ◌∙◌, Bool, true, false, not, ◌||◌, List, [], ◌∷◌, ◌++◌, map, select,
  arith, All, All-append, Bool-cases, inl, inr, Result, ok, err,
}
use agent_app_server.Base.Dict
use agent_app_server.Tenancy.{Text, Text-discrete}
use agent_app_server.Projects.{
  Project, ProjectRegistryError, Indexes, is_project_key, is_reserved, add_projects, no_projects,
  replace,
}
use agent_app_server.Projects.Registry.{
  DirEntry, Registry, is_candidate, is_safe, entry_name, project_name, own_project, sorted,
  discover, reload, refresh,
}
use agent_app_server.Projects.Sorting.{
  occurs, AreDistinct, occurs-append, select-AreDistinct, append-AreDistinct, occurs-sorted,
  sorted-AreDistinct, sorted-All,
}
use agent_app_server.Projects.Indexing.{key_of, path_of, self, IsNew, add_projects-All}
use agent_app_server.Projects.Keyed.{
  IsHex, AreKeyed, IsExhausted, keyed_projects-cases, unreserved_tail,
}

occurs-names :
    (k : Text) (es : List DirEntry) → occurs self k (map entry_name es) ≡ occurs entry_name k es
unfolding occurs
occurs-names k [] = refl
occurs-names k (e ∷ es) = ground (arith, occurs-names k es)

names-AreDistinct :
    (es : List DirEntry) → AreDistinct entry_name es → AreDistinct self (map entry_name es)
names-AreDistinct [] d = tt
names-AreDistinct (e ∷ es) d = (occurs-names e.name es ∙ d.0, names-AreDistinct es d.1)

occurs-own :
    (k : Text) (names : List Text) → occurs path_of k (map own_project names) ≡ occurs self k names
unfolding occurs
occurs-own k [] = refl
occurs-own k (n ∷ names) = ground (arith, occurs-own k names)

occurs-own_key :
    (k : Text) (names : List Text) → occurs key_of k (map own_project names) ≡ occurs self k names
unfolding occurs
occurs-own_key k [] = refl
occurs-own_key k (n ∷ names) = ground (arith, occurs-own_key k names)

own-AreDistinct :
    (names : List Text)
    → AreDistinct self names
    → AreDistinct key_of (map own_project names) × AreDistinct path_of (map own_project names)
own-AreDistinct [] d = (tt, tt)
own-AreDistinct (n ∷ names) d =
    let (keys, places) = own-AreDistinct names d.1 in
    ((occurs-own_key n names ∙ d.0, keys), (occurs-own n names ∙ d.0, places))

own-valid :
    (names : List Text)
    → All (λ p. is_project_key p.key ≡ true) (map own_project (select is_safe names))
own-valid [] = tt
own-valid (n ∷ names) = elim (Bool-cases (is_safe n)) [
  | inl safe ↦ rw safe (safe, own-valid names)
  | inr other ↦ rw other (own-valid names)
]

abbrev is_other : Text → Bool
is_other n = not (is_safe n)

occurs-split :
    (k : Text) (names : List Text)
    → (occurs self k (select is_safe names) || occurs self k (select is_other names))
      ≡ occurs self k names
unfolding occurs
occurs-split k [] = refl
occurs-split k (n ∷ names) = elim (Bool-cases (is_safe n)) [
  | inl safe ↦ rw safe (ground (arith, occurs-split k names))
  | inr other ↦ rw other (ground (arith, occurs-split k names))
]

safe_apart :
    (k : Text) (names : List Text)
    → is_safe k ≡ true
    → occurs self k (select is_other names) ≡ false
unfolding occurs
safe_apart k [] safe = refl
safe_apart k (n ∷ names) safe = elim (Bool-cases (is_safe n)) [
  | inl safe_n ↦ rw safe_n (safe_apart k names safe)
  | inr other ↦ rw other (ground (arith, safe_apart k names))
]

places_apart :
    (names safe : List Text) (ps : List Project)
    → ((path : Text) → occurs path_of path ps ≡ occurs self path (select is_other names))
    → All (λ p. is_project_key p.key ≡ true) (map own_project safe)
    → All (λ p. occurs path_of p.path ps ≡ false) (map own_project safe)
places_apart names [] ps paths valid = tt
places_apart names (n ∷ safe) ps paths valid =
    (paths n ∙ safe_apart n names valid.0, places_apart names safe ps paths valid.1)

keys_apart :
    (safe : List Text) (ps : List Project)
    → All (λ p. is_reserved safe p.key ≡ false) ps
    → All (λ p. occurs key_of p.key ps ≡ false) (map own_project safe)
keys_apart [] ps h = tt
keys_apart (n ∷ safe) ps h =
    let (apart, rest) = unreserved_tail n safe ps h in (apart, keys_apart safe ps rest)

All-IsNew : (ps : List Project) → All (IsNew no_projects) ps
unfolding Dict.contains
All-IsNew [] = tt
All-IsNew (p ∷ ps) = ((refl, refl), All-IsNew ps)

-- The directories of a discovery, before they are sorted.
gathered-indexed :
    (casefold : Text → Text) (names : List Text) (ps : List Project)
    → AreDistinct self names
    → AreKeyed (select is_safe names) (select is_other names) ps
    → (y : Indexes) × (add_projects no_projects
          (sorted project_name casefold (map own_project (select is_safe names) ++ ps))
        ≡ ok y)
      × ((path : Text) → Dict.contains Text-discrete y.by_path path ≡ occurs self path names)
unfolding Dict.contains
gathered-indexed casefold names ps d keyed =
    let safe = select is_safe names in
    let own = map own_project safe in
    let all_projects = own ++ ps in
    let sort = sorted project_name casefold all_projects in
    let (own_keys, own_places) = own-AreDistinct safe (select-AreDistinct self is_safe names d) in
    let keys =
      append-AreDistinct key_of own ps own_keys keyed.keys (keys_apart safe ps keyed.unreserved) in
    let places =
      append-AreDistinct path_of own ps own_places keyed.places
        (places_apart names safe ps keyed.paths (own-valid names)) in
    let (y, made, there) =
      add_projects-All no_projects sort
        (sorted-All key_of project_name casefold (λ p. is_project_key p.key ≡ true) all_projects
          (All-append (λ p. is_project_key p.key ≡ true) own ps (own-valid names) keyed.valid))
        (sorted-AreDistinct key_of project_name casefold all_projects keys)
        (sorted-AreDistinct path_of project_name casefold all_projects places) (All-IsNew sort) in
    (
      y,
      made,
      λ path. ground (
        arith,
        there path,
        occurs-sorted path_of project_name casefold path all_projects,
        occurs-append path_of path own ps,
        occurs-own path safe,
        keyed.paths path,
        occurs-split path names,
      ),
    )

-- The names that a discovery looks at.
abbrev discovered_names : (Text → Text) → List DirEntry → List Text
discovered_names casefold entries =
    map entry_name (sorted entry_name casefold (select is_candidate entries))

discovered-AreDistinct :
    (casefold : Text → Text) (entries : List DirEntry)
    → AreDistinct entry_name entries
    → AreDistinct self (discovered_names casefold entries)
discovered-AreDistinct casefold entries d =
    let found = select is_candidate entries in
    names-AreDistinct (sorted entry_name casefold found) (
      sorted-AreDistinct entry_name entry_name casefold found
        (select-AreDistinct entry_name is_candidate entries d))

-- Some name without a key of its own finds all its keys taken.
abbrev pub NoKeyIsFree : (Text → Text) → (Text → Text) → List DirEntry → Type 0
NoKeyIsFree sha256 casefold entries =
    let names = discovered_names casefold entries in
    IsExhausted sha256 (select is_safe names) (select is_other names)

-- What a refresh answers: the root is unreadable, or some name finds no key, and nothing has changed; or
-- each directory has its project.
abbrev pub Refreshed :
    (Text → Text)
    → (Text → Text)
    → Bool
    → Registry
    → List DirEntry
    → Result ProjectRegistryError (Unit {0}) × Registry
    → Type 0
Refreshed sha256 casefold can_read r entries (answer, r') =
    ((can_read ≡ false) × (answer ≡ err ProjectRegistryError.unreadable_root) × (r' ≡ r))
    ⊎ (((can_read ≡ true)
          × NoKeyIsFree sha256 casefold entries
          × (answer ≡ err ProjectRegistryError.no_free_key)
          × (r' ≡ r))
        ⊎ ((can_read ≡ true)
            × (answer ≡ ok tt)
            × ((path : Text)
                → Dict.contains Text-discrete r'.indexes.by_path path
                  ≡ occurs entry_name path (select is_candidate entries))))

refresh-rooted :
    (sha256 casefold : Text → Text) (can_read : Bool) (r : Registry) (entries : List DirEntry)
    → r.has_root ≡ true
    → refresh sha256 casefold can_read r entries ≡ reload sha256 casefold can_read r entries
unfolding refresh
refresh-rooted sha256 casefold can_read r entries rooted = ground arith

reload-readable :
    (sha256 casefold : Text → Text) (r : Registry) (entries : List DirEntry)
    → IsHex sha256
    → AreDistinct entry_name entries
    → Refreshed sha256 casefold true r entries (reload sha256 casefold true r entries)
unfolding reload discover replace
reload-readable sha256 casefold r entries hex d =
    let names = discovered_names casefold entries in
    let distinct = discovered-AreDistinct casefold entries d in
    elim (keyed_projects-cases sha256 (select is_safe names) (select is_other names) hex
      (select-AreDistinct self is_other names distinct)) [
        | inl (failed, exhausted) ↦ rw (reload, failed) (inr (inl (refl, exhausted, refl, refl)))
        | inr (ps, made, keyed) ↦
            let (y, indexed, there) = gathered-indexed casefold names ps distinct keyed in
            rw (reload, made, indexed)
              (inr (
                inr (
                  refl,
                  refl,
                  λ path.
                      there path
                      ∙ occurs-names path (sorted entry_name casefold (select is_candidate entries))
                      ∙ occurs-sorted entry_name entry_name casefold path
                          (select is_candidate entries),
                )))
      ]

pub reload_lem :
    (sha256 casefold : Text → Text) (can_read : Bool) (r : Registry) (entries : List DirEntry)
    → IsHex sha256
    → AreDistinct entry_name entries
    → Refreshed sha256 casefold can_read r entries (reload sha256 casefold can_read r entries)
unfolding reload discover
reload_lem sha256 casefold false r entries hex d = inl (refl, refl, refl)
reload_lem sha256 casefold true r entries hex d = reload-readable sha256 casefold r entries hex d

-- A refresh of a registry with a root whose entries differ in names never meets an invalid key, a
-- duplicate key or a duplicate path, if the digests are made of key characters. It fails where the root
-- cannot be read, and where some name that is no key finds all its candidates among the names that are
-- keys and the keys given out before it; then the registry stays as it was. Otherwise the paths of
-- the registry are those of the directories that are no links, all of them and no others.
pub refresh_lem :
    (sha256 casefold : Text → Text) (can_read : Bool) (r : Registry) (entries : List DirEntry)
    → r.has_root ≡ true
    → IsHex sha256
    → AreDistinct entry_name entries
    → Refreshed sha256 casefold can_read r entries (refresh sha256 casefold can_read r entries)
refresh_lem sha256 casefold can_read r entries rooted hex d =
    subst (Refreshed sha256 casefold can_read r entries)
      (sym (refresh-rooted sha256 casefold can_read r entries rooted))
      (reload_lem sha256 casefold can_read r entries hex d)
