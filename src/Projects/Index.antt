-- ===== src/Projects/Index.antt =====
-- projects.py, `_replace`: the two indexes of the registry agree.
use agent_app_server.Base.{
  ◌≡◌, subst, true, false, some, List, [], ◌∷◌, ok, arith, Result-cases, inl, inr,
}
use agent_app_server.Base.Dict
use agent_app_server.Tenancy.{Text, Text-discrete}
use agent_app_server.Projects.{
  Project, Indexes, is_project_key, add_project, add_projects, no_projects, replace,
}

-- A project stands under its key in one index exactly when it stands under its path in the other.
pub record IsIndexed (x : Indexes) : Type 0 where
  pub keys :
      (k : Text) (p : Project)
      → Dict.get Text-discrete x.by_key k ≡ some p
      → (p.key ≡ k) × (is_project_key k ≡ true) × (Dict.get Text-discrete x.by_path p.path ≡ some p)
  pub paths :
      (path : Text) (p : Project)
      → Dict.get Text-discrete x.by_path path ≡ some p
      → (p.path ≡ path) × (Dict.get Text-discrete x.by_key p.key ≡ some p)

pub no_projects-IsIndexed : IsIndexed no_projects
unfolding Dict.get
no_projects-IsIndexed = record { keys = λ k p e. cc; paths = λ path p e. cc }

abbrev with_project : Indexes → Project → Indexes
with_project x p = record {
  by_key = Dict.put Text-discrete x.by_key p.key p;
  by_path = Dict.put Text-discrete x.by_path p.path p;
}

with_project-IsIndexed :
    (x : Indexes) (p : Project)
    → IsIndexed x
    → is_project_key p.key ≡ true
    → Dict.contains Text-discrete x.by_key p.key ≡ false
    → Dict.contains Text-discrete x.by_path p.path ≡ false
    → IsIndexed (with_project x p)
with_project-IsIndexed x p i valid new_key new_path = record {
  keys = λ k q e.
      let here = Dict.get-put Text-discrete x.by_key p.key k p in
      let there = Dict.get-put Text-discrete x.by_path p.path q.path p in
      let known = Dict.contains-get Text-discrete x.by_path q.path q in
      (
        ground (arith, here, i.keys k q),
        ground (arith, here, i.keys k q),
        ground (arith, here, there, i.keys k q, known),
      );
  paths = λ path q e.
      let here = Dict.get-put Text-discrete x.by_path p.path path p in
      let there = Dict.get-put Text-discrete x.by_key p.key q.key p in
      let known = Dict.contains-get Text-discrete x.by_key q.key q in
      (ground (arith, here, i.paths path q), ground (arith, here, there, i.paths path q, known));
}

add_project-IsIndexed :
    (x y : Indexes) (p : Project) → IsIndexed x → add_project x p ≡ ok y → IsIndexed y
unfolding add_project
add_project-IsIndexed x y p i e =
    let same : with_project x p ≡ y = ground arith in
    subst IsIndexed same (with_project-IsIndexed x p i (ground arith) (ground arith) (ground arith))

add_projects-IsIndexed :
    (x y : Indexes) (ps : List Project) → IsIndexed x → add_projects x ps ≡ ok y → IsIndexed y
unfolding add_projects
add_projects-IsIndexed x y [] i e = let same : x ≡ y = cc in subst IsIndexed same i
add_projects-IsIndexed x y (p ∷ ps) i e = elim (Result-cases (add_project x p)) [
  | inl (z, added) ↦
      add_projects-IsIndexed z y ps (add_project-IsIndexed x z p i added) (ground arith)
  | inr (x', failed) ↦ let bad : ⊥ = ground arith in absurd bad
]

-- After any attempt to replace the projects of an agreeing registry its indexes agree: each project
-- stands under its own valid key and its own path, in both or in neither.
pub replace-IsIndexed :
    (old : Indexes) (projects : List Project) → IsIndexed old → IsIndexed (replace old projects).1
unfolding replace
replace-IsIndexed old projects i = elim (Result-cases (add_projects no_projects projects)) [
  | inl (new, made) ↦
      rw (made, replace)
        (add_projects-IsIndexed no_projects new projects no_projects-IsIndexed made)
  | inr (e, failed) ↦ rw (failed, replace) i
]
