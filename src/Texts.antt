-- ===== src/Texts.antt =====
-- Python's operations on texts that the normalization of events uses. A position counts the bytes of a
-- text's UTF-8, so a slice is Python's `encode()[a:b].decode(errors="ignore")`.
use Prim.Native.Char.{code}
use Prim.Native.String.{len, slice, find}
use Prim.Native.String.{[] as empty, ◌∷◌ as ◌▹◌, ◌++◌ as ◌⊕◌}
use agent_app_server.Base.{
  ℕ, ◌+◌, ◌-◌, Bool, true, false, ◌&&◌, Option, none, some, List, [], ◌∷◌, String, String-discrete,
  if◌then◌else◌, leb, holds, any,
}
use agent_app_server.Json.{is_empty}
use agent_app_server.Tenancy.{is_space}

infixr 65 ◌<>◌
-- `s + t`
abbrev pub ◌<>◌ : String → String → String
s <> t = s ⊕ t

-- `t in s`
abbrev pub includes : String → String → Bool
includes s t = leb (find s t) (len s)

-- `s.startswith(t)`
abbrev pub has_prefix : String → String → Bool
has_prefix s t = holds (String-discrete (slice s 0 (len t)) t)

-- `s.endswith(t)`
abbrev pub has_suffix : String → String → Bool
has_suffix s t = holds (String-discrete (slice s (len s - len t) (len s)) t)

-- Where the last occurrence of `t` begins.
unfoldable pub find_last : String → String → Option ℕ
find_last empty t = if is_empty t then some 0 else none
find_last (c ▹ s) t = elim (find_last s t) [
  | some n ↦ some (len (c ▹ empty) + n)
  | none ↦ if has_prefix (c ▹ s) t then some 0 else none
]

-- `s.rpartition(t)[0]`
unfoldable pub before_last : String → String → String
unfolding find_last
before_last s t = elim (find_last s t) [ none ↦ "" | some n ↦ slice s 0 n ]

-- `separator.join(texts)`
unfoldable pub join : String → List String → String
join separator [] = ""
join separator (s ∷ []) = s
join separator (s ∷ t ∷ texts) = s <> (separator <> join separator (t ∷ texts))

unfoldable pub trim_left : String → String
trim_left empty = ""
trim_left (c ▹ s) = let rest = trim_left s in if is_space (code c) then rest else c ▹ s

unfoldable pub trim_right : String → String
trim_right empty = ""
trim_right (c ▹ s) =
    let rest = trim_right s in if is_space (code c) && is_empty rest then "" else c ▹ rest

-- `s.strip()`
abbrev pub trim : String → String
trim s = trim_right (trim_left s)

unfoldable pub any_character : (ℕ → Bool) → String → Bool
any_character test empty = false
any_character test (c ▹ s) = let rest = any_character test s in if test (code c) then true else rest

-- `s in {...}`
abbrev pub is_one_of : List String → String → Bool
is_one_of texts s = any (λ t. holds (String-discrete t s)) texts
