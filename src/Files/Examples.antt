-- ===== src/Files/Examples.antt =====
-- project_files.py: the theorems at a small tree.
use agent_app_server.Base.{
  ◌≡◌, ◌↔◌, refl, false, true, some, [], ◌∷◌, String-discrete, Result, ok, All,
}
use agent_app_server.Texts.{join, any_character}
use agent_app_server.Files.{
  FileError, Node, regular, link, directory, entry, no_more, find_entry, split_path, is_bad_part,
  is_journal_path, relative_parts, existing_path,
}
use agent_app_server.Files.Paths.{relative_parts_lem}
use agent_app_server.Files.Walking.{Reaches, existing_path_lem}

abbrev project : Node
project =
    directory
      (entry "src" (directory (entry "main.py" (regular 12) no_more)) (entry "out" link no_more))

main_accepted : relative_parts false "src/main.py" ≡ ok ("src" ∷ "main.py" ∷ [])
unfolding relative_parts split_path any_character String-discrete
main_accepted = refl

relative_parts_lem_example :
    (join "/" ("src" ∷ "main.py" ∷ []) ≡ "src/main.py")
    × All (λ p. is_bad_part p ≡ false) ("src" ∷ "main.py" ∷ [])
    × (is_journal_path ("src" ∷ "main.py" ∷ []) ≡ false)
relative_parts_lem_example =
    relative_parts_lem false "src/main.py" ("src" ∷ "main.py" ∷ []) main_accepted

-- A link is refused, also on the way.
link_refused : existing_path true false project "out/etc" ≡ Result.err FileError.invalid_path
unfolding existing_path split_path any_character find_entry String-discrete
link_refused = refl

existing_path_lem_example :
    (existing_path true false project "src/main.py"
      ≡ ok ("src" ∷ "main.py" ∷ [], some (regular 12)))
    ↔ ((relative_parts true "src/main.py" ≡ ok ("src" ∷ "main.py" ∷ []))
        × Reaches project ("src" ∷ "main.py" ∷ []) (regular 12))
existing_path_lem_example =
    existing_path_lem true project (regular 12) "src/main.py" ("src" ∷ "main.py" ∷ [])
