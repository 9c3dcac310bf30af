-- ===== src/Files/Paths.antt =====
-- project_files.py, `_relative_parts`: the parts of a path that is accepted.
use Prim.Native.Char.{Char, code}
use Prim.Native.Nat.{Ordering, compare as compare_ℕ}
use Prim.Native.String.{compare, then as first_then}
use Prim.Native.String.compare
use Prim.Native.String.append
use Prim.Native.String.{[] as empty, ◌∷◌ as ◌▹◌}
use package.text.Mathlib.Text.{is_eq}
use package.text.Mathlib.TextEquality.{eq_iff}
use package.text.Mathlib.TextLemmas.{nil-append}
use agent_app_server.Base.{
  ◌≡◌, refl, sym, ap, ◌∙◌, subst, arith, Bool, false, List, [], ◌∷◌, String, ok, All, any, ◌==◌,
  Bool-cases, inl, inr,
}
use agent_app_server.Json.{is_empty}
use agent_app_server.Texts.{◌<>◌, join}
use agent_app_server.Files.{split_path, in_front, is_bad_part, is_journal_path, relative_parts}

-- A character with the number of the slash, in front of a text.
slash_text : (c : Char) (s : String) → code c ≡ 47 → ("/" <> s) ≡ c ▹ s
slash_text c s e =
    let first : compare (c ▹ "") "/" ≡ first_then (compare_ℕ (code c) 47) (compare "" "") =
      compare.cons-cons c "/" "" "" in
    let equal : compare (c ▹ "") "/" ≡ Ordering.eq =
      first ∙ ap (λ k. first_then (compare_ℕ k 47) (compare "" "")) e in
    let same : c ▹ "" ≡ "/" = (eq_iff (c ▹ "") "/").0 (ap is_eq equal) in
    sym (ap (λ x. x <> s) same) ∙ append.cons c "" s ∙ ap (λ x. c ▹ x) (nil-append s)

join-cons :
    (c : Char) (parts : List String)
    → (q : String) → join "/" (in_front c (q ∷ parts)) ≡ c ▹ join "/" (q ∷ parts)
unfolding join
join-cons c [] q = refl
join-cons c (p ∷ parts) q = append.cons c q ("/" <> join "/" (p ∷ parts))

-- A split has a first part.
split-parts : (s : String) → (q : String) × (parts : List String) × (split_path s ≡ q ∷ parts)
unfolding split_path
split-parts empty = ("", [], refl)
split-parts (c ▹ s) = elim (Bool-cases (code c == 47)) [
  | inl slash ↦ rw slash ("", split_path s, refl)
  | inr other ↦ let (q, parts, e) = split-parts s in rw (other, e) (c ▹ q, parts, refl)
]

join-split : (s : String) → join "/" (split_path s) ≡ s
unfolding split_path join
join-split empty = refl
join-split (c ▹ s) = elim (Bool-cases (code c == 47)) [
  | inl slash ↦
      let (q, parts, e) = split-parts s in
      let rest : join "/" (q ∷ parts) ≡ s = ap (join "/") (sym e) ∙ join-split s in
      rw (slash, e)
        (nil-append ("/" <> join "/" (q ∷ parts))
          ∙ ap (λ x. "/" <> x) rest
          ∙ slash_text c s (ground arith))
  | inr other ↦
      let (q, parts, e) = split-parts s in
      let rest : join "/" (q ∷ parts) ≡ s = ap (join "/") (sym e) ∙ join-split s in
      rw (other, e) (join-cons c parts q ∙ ap (λ x. c ▹ x) rest)
]

-- What a checked part is.
any-All :
    (parts : List String) → any is_bad_part parts ≡ false → All (λ p. is_bad_part p ≡ false) parts
any-All [] h = tt
any-All (p ∷ parts) h = elim (Bool-cases (is_bad_part p)) [
  | inl bad ↦ let no_way : ⊥ = ground arith in absurd no_way
  | inr good ↦ (good, any-All parts (ground arith))
]

-- An accepted relative path is its parts with a slash between each two, and none of the parts is empty, a dot
-- or two dots, longer than 255 bytes, or has a control character; the first is not the directory of the journals.
pub relative_parts_lem :
    (allow_root : Bool) (value : String) (parts : List String)
    → relative_parts allow_root value ≡ ok parts
    → (join "/" parts ≡ value)
      × All (λ p. is_bad_part p ≡ false) parts
      × (is_journal_path parts ≡ false)
unfolding relative_parts join
relative_parts_lem allow_root value parts e = elim (Bool-cases (is_empty value)) [
  | inl nothing ↦
      let same : [] ≡ parts = ground arith in
      let blank : value ≡ "" = ground arith in
      subst
        (λ ps.
          (join "/" ps ≡ value)
          × All (λ p. is_bad_part p ≡ false) ps
          × (is_journal_path ps ≡ false))
        same (sym blank, tt, refl)
  | inr some_text ↦
      let same : split_path value ≡ parts = ground arith in
      let good : any is_bad_part (split_path value) ≡ false = ground arith in
      let apart : is_journal_path (split_path value) ≡ false = ground arith in
      subst
        (λ ps.
          (join "/" ps ≡ value)
          × All (λ p. is_bad_part p ≡ false) ps
          × (is_journal_path ps ≡ false))
        same (join-split value, any-All (split_path value) good, apart)
]
