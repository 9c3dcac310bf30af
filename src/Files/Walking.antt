-- ===== src/Files/Walking.antt =====
-- project_files.py, `_existing_path`: what it finds is what the directories beneath the root lead to.
use agent_app_server.Base.{
  ◌≡◌, ◌↔◌, refl, ap, ◌∙◌, subst, arith, Bool, false, Option, none, some, List, [], ◌∷◌, String, ok,
  Result-cases, inl, inr,
}
use agent_app_server.Files.{
  Node, regular, link, directory, special, Entries, find_entry, step, walk, relative_parts,
  existing_path,
}

abbrev IsNoLink : Node → Type 0
IsNoLink link = ⊥
IsNoLink _ = Unit

-- From a node down through directories, none of them entered by a link, to a node that is no link.
pub data Reaches : Node → List String → Node → Type 0 where
  here : {n : Node} → Reaches n [] n
  below :
      {entries : Entries} {part : String} {child target : Node} {parts : List String}
      → find_entry entries part ≡ some child
      → IsNoLink child
      → Reaches child parts target
      → Reaches (directory entries) (part ∷ parts) target

step-node : (child : Node) → IsNoLink child → step false (some child) ≡ ok (some child)
step-node (regular size) h = refl
step-node link h = absurd h
step-node (directory entries) h = refl
step-node special h = refl

walk-Reaches :
    {root target : Node} {parts : List String}
    → Reaches root parts target
    → walk false (some root) parts ≡ ok (some target)
unfolding walk
walk-Reaches here = refl
walk-Reaches (below {child = child} found real rest) =
    rw (found, step-node child real) (walk-Reaches rest)

stepped :
    (found : Option Node) (next : Option Node)
    → step false found ≡ ok next
    → (child : Node) × (found ≡ some child) × (next ≡ some child) × IsNoLink child
stepped none next e = let bad : ⊥ = ground arith in absurd bad
stepped (some (regular size)) next e = (regular size, refl, ground arith, tt)
stepped (some link) next e = let bad : ⊥ = ground arith in absurd bad
stepped (some (directory entries)) next e = (directory entries, refl, ground arith, tt)
stepped (some special) next e = (special, refl, ground arith, tt)

Reaches-walk :
    (root target : Node) (parts : List String)
    → walk false (some root) parts ≡ ok (some target)
    → Reaches root parts target
unfolding walk
Reaches-walk root target [] e =
    let same : root ≡ target = ground arith in subst (λ n. Reaches root [] n) same here
Reaches-walk (directory entries) target (part ∷ parts) e =
    elim (Result-cases (step false (find_entry entries part))) [
      | inr (x, raised) ↦ let bad : ⊥ = ground arith in absurd bad
      | inl (next, made) ↦
          let (child, found, same, real) = stepped (find_entry entries part) next made in
          let rest : walk false (some child) parts ≡ ok (some target) = ground (arith) in
          below found real (Reaches-walk child target parts rest)
    ]
Reaches-walk node target (part ∷ parts) e = let bad : ⊥ = ground arith in absurd bad

-- A path of a request is found at a node exactly when it is accepted and its parts lead from the root to that
-- node through directories, with no link on the way or at the end.
pub existing_path_lem :
    (allow_root : Bool) (root target : Node) (value : String) (parts : List String)
    → (existing_path allow_root false root value ≡ ok (parts, some target))
      ↔ ((relative_parts allow_root value ≡ ok parts) × Reaches root parts target)
unfolding existing_path
existing_path_lem allow_root root target value parts = (
  λ e. elim (Result-cases (relative_parts allow_root value)) [
    | inr (x, raised) ↦ let bad : ⊥ = ground arith in absurd bad
    | inl (made, accepted) ↦ elim (Result-cases (walk false (some root) made)) [
      | inr (x, raised) ↦ let bad : ⊥ = ground arith in absurd bad
      | inl (node, walked) ↦
          let same : made ≡ parts = ground arith in
          let there : node ≡ some target = ground arith in
          (
            accepted ∙ ap ok same,
            subst (λ ps. Reaches root ps target) same
                (Reaches-walk root target made (walked ∙ ap ok there)),
          )
    ]
  ],
  λ (accepted, reaches). rw (accepted, walk-Reaches reaches) refl,
)
