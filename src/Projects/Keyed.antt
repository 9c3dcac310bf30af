-- ===== src/Projects/Keyed.antt =====
-- projects.py, `_discover`: the keys that the names without one are given.
use agent_app_server.Base.{
  ◌≡◌, ◌⊎◌, refl, ap, ◌∙◌, true, false, not, ◌&&◌, ◌||◌, List, [], ◌∷◌, ◌++◌, all, arith, All,
  All-map, Bool-cases, Result-cases, inl, inr, ok, err,
}
use agent_app_server.Tenancy.{Text}
use agent_app_server.Projects.{
  Project, ProjectRegistryError, is_key_char, is_project_key, is_reserved, first_free, candidates,
  generated_project_key,
}
use agent_app_server.Projects.Keys.{generated_project_key_lem}
use agent_app_server.Projects.Registry.{keyed_projects}
use agent_app_server.Projects.Sorting.{occurs, AreDistinct}
use agent_app_server.Projects.Indexing.{key_of, path_of, self}

-- The digest of every name is made of key characters.
abbrev pub IsHex : (Text → Text) → Type 0
IsHex sha256 = (name : Text) → all is_key_char (sha256 name) ≡ true

-- What holds of the projects that get a key of their own.
pub record AreKeyed (reserved names : List Text) (ps : List Project) : Type 0 where
  pub valid : All (λ p. is_project_key p.key ≡ true) ps
  pub unreserved : All (λ p. is_reserved reserved p.key ≡ false) ps
  pub keys : AreDistinct key_of ps
  pub places : AreDistinct path_of ps
  pub paths : (path : Text) → occurs path_of path ps ≡ occurs self path names

-- A key that the discovery may not give out: it is reserved, or one of the projects has it.
abbrev pub IsTaken : List Text → List Project → Text → Type 0
IsTaken reserved ps k = (is_reserved reserved k || occurs key_of k ps) ≡ true

-- Some name finds all its keys taken, by the reserved ones and those of the projects before it.
abbrev pub IsExhausted : (Text → Text) → List Text → List Text → Type 0
IsExhausted sha256 reserved names =
    (before : List Text) × (name : Text) × (later : List Text) × (ps : List Project) × (names
      ≡ before ++ name ∷ later)
    × (keyed_projects sha256 reserved before ≡ ok ps)
    × All (IsTaken reserved ps) (candidates (sha256 name))

first_free-error :
    (reserved keys : List Text) (e : ProjectRegistryError)
    → first_free reserved keys ≡ err e
    → (e ≡ ProjectRegistryError.no_free_key) × All (λ k. is_reserved reserved k ≡ true) keys
unfolding first_free
first_free-error reserved [] e h = (cc, tt)
first_free-error reserved (k ∷ keys) e h = elim (Bool-cases (is_reserved reserved k)) [
  | inl taken ↦
      let rest : first_free reserved keys ≡ err e = ground (arith, taken) in
      let (same, all_taken) = first_free-error reserved keys e rest in (same, (taken, all_taken))
  | inr free ↦ let bad : ⊥ = ground (arith, free) in absurd bad
]

generated_project_key-error :
    (sha256 : Text → Text) (name : Text) (reserved : List Text) (e : ProjectRegistryError)
    → generated_project_key sha256 name reserved ≡ err e
    → (e ≡ ProjectRegistryError.no_free_key)
      × All (λ k. is_reserved reserved k ≡ true) (candidates (sha256 name))
unfolding generated_project_key
generated_project_key-error sha256 name reserved e h =
    elim (Bool-cases (is_project_key name && not (is_reserved reserved name))) [
      | inl own ↦ let bad : ⊥ = ground (arith, own) in absurd bad
      | inr other ↦ first_free-error reserved (candidates (sha256 name)) e (ground (arith, other))
    ]

IsExhausted-here :
    (sha256 : Text → Text) (reserved names : List Text) (name : Text)
    → All (λ k. is_reserved reserved k ≡ true) (candidates (sha256 name))
    → IsExhausted sha256 reserved (name ∷ names)
unfolding keyed_projects
IsExhausted-here sha256 reserved names name taken = (
  [],
  name,
  names,
  [],
  refl,
  refl,
  All-map {P = λ k. is_reserved reserved k ≡ true} {Q = IsTaken reserved []}
      (candidates (sha256 name)) (λ k h. rw h refl) taken,
)

IsTaken-before :
    (reserved : List Text) (p : Project) (ps : List Project) (k : Text)
    → IsTaken (p.key ∷ reserved) ps k
    → IsTaken reserved (p ∷ ps) k
unfolding occurs
IsTaken-before reserved p ps k h = ground arith

IsExhausted-later :
    (sha256 : Text → Text) (reserved names : List Text) (name key : Text)
    → generated_project_key sha256 name reserved ≡ ok key
    → IsExhausted sha256 (key ∷ reserved) names
    → IsExhausted sha256 reserved (name ∷ names)
unfolding keyed_projects
IsExhausted-later sha256 reserved names name key made
      (before, last, later, ps, split, rest, taken) =
    let p : Project = record { key = key; name = name; path = name } in
    (
      name ∷ before,
      last,
      later,
      p ∷ ps,
      ap (λ ns. name ∷ ns) split,
      rw (made, keyed_projects, rest) refl,
      All-map {P = IsTaken (key ∷ reserved) ps} {Q = IsTaken reserved (p ∷ ps)}
          (candidates (sha256 last)) (λ k h. IsTaken-before reserved p ps k h) taken,
    )

pub unreserved_tail :
    (key : Text) (reserved : List Text) (ps : List Project)
    → All (λ p. is_reserved (key ∷ reserved) p.key ≡ false) ps
    → (occurs key_of key ps ≡ false) × All (λ p. is_reserved reserved p.key ≡ false) ps
unfolding occurs
unreserved_tail key reserved [] h = (refl, tt)
unreserved_tail key reserved (p ∷ ps) h =
    let (new, rest) = unreserved_tail key reserved ps h.1 in (ground arith, (ground arith, rest))

with_key :
    (name key : Text) (reserved names : List Text) (ps : List Project)
    → is_project_key key ≡ true
    → is_reserved reserved key ≡ false
    → occurs self name names ≡ false
    → AreKeyed (key ∷ reserved) names ps
    → AreKeyed reserved (name ∷ names) (record { key = key; name = name; path = name } ∷ ps)
unfolding occurs
with_key name key reserved names ps valid free new keyed =
    let (apart, unreserved) = unreserved_tail key reserved ps keyed.unreserved in
    record {
      valid = (valid, keyed.valid);
      unreserved = (free, unreserved);
      keys = (apart, keyed.keys);
      places = (keyed.paths name ∙ new, keyed.places);
      paths = λ path. ground (arith, keyed.paths path);
    }

abbrev pub KeyedResult : (Text → Text) → List Text → List Text → Type 0
KeyedResult sha256 reserved names =
    ((keyed_projects sha256 reserved names ≡ err ProjectRegistryError.no_free_key)
      × IsExhausted sha256 reserved names)
    ⊎ ((ps : List Project) × (keyed_projects sha256 reserved names ≡ ok ps)
        × AreKeyed reserved names ps)

pub keyed_projects-cases :
    (sha256 : Text → Text) (reserved names : List Text)
    → IsHex sha256
    → AreDistinct self names
    → KeyedResult sha256 reserved names
unfolding keyed_projects occurs
keyed_projects-cases sha256 reserved [] hex d =
    inr (
      [],
      refl,
      record { valid = tt; unreserved = tt; keys = tt; places = tt; paths = λ path. refl },
    )
keyed_projects-cases sha256 reserved (name ∷ names) hex d =
    elim (Result-cases (generated_project_key sha256 name reserved)) [
      | inr (e, failed) ↦
          let (same, taken) = generated_project_key-error sha256 name reserved e failed in
          inl (
            rw (failed, keyed_projects) (ap err same),
            IsExhausted-here sha256 reserved names name taken,
          )
      | inl (key, made) ↦
          let (valid, free, _) =
            generated_project_key_lem sha256 name reserved key (hex name) made in
          elim (keyed_projects-cases sha256 (key ∷ reserved) names hex d.1) [
            | inl (failed, exhausted) ↦ inl (
              rw (made, keyed_projects, failed) refl,
              IsExhausted-later sha256 reserved names name key made exhausted,
            )
            | inr (ps, rest, keyed) ↦ inr (
              record { key = key; name = name; path = name } ∷ ps,
              rw (made, keyed_projects, rest) refl,
              with_key name key reserved names ps valid free d.0 keyed,
            )
          ]
    ]
