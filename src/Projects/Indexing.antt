-- ===== src/Projects/Indexing.antt =====
-- projects.py, `_replace`: projects that differ in keys and in paths are all indexed.
use agent_app_server.Base.{◌≡◌, refl, true, false, ◌||◌, List, [], ◌∷◌, arith, All, ok}
use agent_app_server.Base.Dict
use agent_app_server.Tenancy.{Text, Text-discrete}
use agent_app_server.Projects.{Project, Indexes, is_project_key, add_project, add_projects}
use agent_app_server.Projects.Sorting.{occurs, AreDistinct}

abbrev pub key_of : Project → Text
key_of p = p.key

abbrev pub path_of : Project → Text
path_of p = p.path

abbrev pub self : Text → Text
self s = s

-- The projects of the indexes and the listed ones differ in keys and in paths.
abbrev pub IsNew : Indexes → Project → Type 0
IsNew x p =
    (Dict.contains Text-discrete x.by_key p.key ≡ false)
    × (Dict.contains Text-discrete x.by_path p.path ≡ false)

add_project-new :
    (x : Indexes) (p : Project)
    → is_project_key p.key ≡ true
    → IsNew x p
    → add_project x p
      ≡ ok (record {
        by_key = Dict.put Text-discrete x.by_key p.key p;
        by_path = Dict.put Text-discrete x.by_path p.path p;
      })
unfolding add_project
add_project-new x p valid (key, path) = ground arith

still-IsNew :
    (x : Indexes) (p : Project) (ps : List Project)
    → occurs key_of p.key ps ≡ false
    → occurs path_of p.path ps ≡ false
    → All (IsNew x) ps
    → All
        (IsNew (record {
          by_key = Dict.put Text-discrete x.by_key p.key p;
          by_path = Dict.put Text-discrete x.by_path p.path p;
        }))
        ps
unfolding occurs
still-IsNew x p [] keys paths news = tt
still-IsNew x p (q ∷ ps) keys paths news = (
  (
    ground (arith, Dict.contains-put Text-discrete x.by_key p.key q.key p),
    ground (arith, Dict.contains-put Text-discrete x.by_path p.path q.path p),
  ),
  still-IsNew x p ps (ground arith) (ground arith) news.1,
)

-- Projects with valid keys, of which no two share a key or a path, are all indexed.
pub add_projects-All :
    (x : Indexes) (ps : List Project)
    → All (λ p. is_project_key p.key ≡ true) ps
    → AreDistinct key_of ps
    → AreDistinct path_of ps
    → All (IsNew x) ps
    → (y : Indexes) × (add_projects x ps ≡ ok y)
      × ((path : Text)
          → Dict.contains Text-discrete y.by_path path
            ≡ (Dict.contains Text-discrete x.by_path path || occurs path_of path ps))
unfolding add_projects occurs
add_projects-All x [] valid keys paths news = (x, refl, λ path. ground arith)
add_projects-All x (p ∷ ps) valid keys paths news =
    let z : Indexes = record {
      by_key = Dict.put Text-discrete x.by_key p.key p;
      by_path = Dict.put Text-discrete x.by_path p.path p;
    } in
    let (y, made, holds_y) =
      add_projects-All z ps valid.1 keys.1 paths.1 (still-IsNew x p ps keys.0 paths.0 news.1) in
    (
      y,
      rw (add_project-new x p valid.0 news.0, add_projects) made,
      λ path. ground (arith, holds_y path, Dict.contains-put Text-discrete x.by_path p.path path p),
    )
