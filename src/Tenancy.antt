-- ===== src/Tenancy.antt =====
-- tenancy.py and the table of models.py: from the identity headers of a request to its tenant and
-- workspace. A text is the list of its characters' numbers; header values are Latin-1.
pub mod Names
pub mod Rows
pub mod Resolve
pub mod Isolation
mod Examples
use agent_app_server.Base.{
  ℕ, ◌+◌, ◌≡◌, refl, Bool, true, false, ◌&&◌, ◌||◌, not, Option, none, some, List, [], ◌∷◌, ◌++◌,
  map, Result, ok, err, ◌>>=◌, if◌then◌else◌, ltb, leb, ◌==◌, all, any, holds, length, ℕ_discrete,
}
use agent_app_server.Base.Dict
use agent_app_server.Base.Dict.{Dict}

abbrev pub Text : Type 0
Text = List ℕ

unfoldable pub Text-discrete : Discrete Text
unfolding ℕ_discrete
Text-discrete [] [] = yes refl
Text-discrete [] (d ∷ t) = no (λ e. cc)
Text-discrete (c ∷ s) [] = no (λ e. cc)
Text-discrete (c ∷ s) (d ∷ t) = elim (ℕ_discrete c d) [
  | no n ↦ no (λ e. n cc)
  | yes same ↦ elim (Text-discrete s t) [
    | no n ↦ no (λ e. n cc)
    | yes rest ↦ yes (λ i. same i ∷ rest i)
  ]
]

pub data WebIdentityError : Type 0 where
  invalid required conflict unsafe_workspace : WebIdentityError

-- `str.isspace`
abbrev pub is_space : ℕ → Bool
is_space c =
    leb 9 c && leb c 13
    || leb 28 c && leb c 32
    || c == 133
    || c == 160
    || c == 5760
    || leb 8192 c && leb c 8202
    || c == 8232
    || c == 8233
    || c == 8239
    || c == 8287
    || c == 12288

unfoldable pub lstrip : Text → Text
lstrip [] = []
lstrip (c ∷ s) = let rest = lstrip s in if is_space c then rest else c ∷ s

unfoldable pub rstrip : Text → Text
rstrip [] = []
rstrip (c ∷ s) =
    let rest = rstrip s in
    elim rest [ [] ↦ if is_space c then [] else c ∷ [] | d ∷ ds ↦ c ∷ d ∷ ds ]

abbrev pub strip : Text → Text
strip s = rstrip (lstrip s)

-- `str.lower` on Latin-1.
abbrev pub lower : ℕ → ℕ
lower c = if leb 65 c && leb c 90 || leb 192 c && leb c 222 && not (c == 215) then c + 32 else c

abbrev pub is_alnum : ℕ → Bool
is_alnum c = leb 97 c && leb c 122 || leb 48 c && leb c 57

abbrev pub is_name_char : ℕ → Bool
is_name_char c = is_alnum c || c == 46 || c == 95 || c == 64 || c == 45

-- `USERNAME_PATTERN.fullmatch`
unfoldable pub is_username : Text → Bool
is_username [] = false
is_username (c ∷ s) = is_alnum c && all is_name_char s && leb (length s) 127

unfoldable pub canonical_username : Text → Result WebIdentityError Text
canonical_username value =
    let canonical = map lower (strip value) in
    if is_username canonical then ok canonical else err invalid

abbrev pub required_text : Text → Result WebIdentityError Text
required_text [] = err required
required_text (c ∷ s) = ok (c ∷ s)

-- `_single_header`: all values that the request has for one name.
unfoldable pub single_header : List Text → Result WebIdentityError Text
single_header [] = err required
single_header (value ∷ []) = required_text (strip value)
single_header (value ∷ other ∷ rest) = err required

abbrev pub utf8_length : ℕ → ℕ
utf8_length c = if ltb c 128 then 1 else if ltb c 2048 then 2 else if ltb c 65536 then 3 else 4

abbrev pub encoded_length : Text → ℕ
encoded_length [] = 0
encoded_length (c ∷ s) = utf8_length c + encoded_length s

abbrev pub is_control : ℕ → Bool
is_control c = ltb c 32 || c == 127

unfoldable pub check_subject : Text → Result WebIdentityError Text
check_subject subject =
    if ltb 255 (encoded_length subject) || any is_control subject then err invalid else ok subject

pub record Tenant : Type 0 where
  pub tenant_id : Text
  pub external_subject : Text
  pub username : Text
  pub directory_name : Text

-- The first row whose column has this value.
unfoldable pub find_by : (Tenant → Text) → Text → List Tenant → Option Tenant
find_by column value [] = none
find_by column value (t ∷ rows) = elim (Text-discrete (column t) value) [
  | yes e ↦ some t
  | no n ↦ find_by column value rows
]

abbrev pub has_value : (Tenant → Text) → Text → List Tenant → Bool
has_value column value rows = any (λ t. holds (Text-discrete (column t) value)) rows

-- The update that a commit of a changed user name makes.
unfoldable pub set_username : Text → Text → List Tenant → List Tenant
set_username id name [] = []
set_username id name (t ∷ rows) =
    (if holds (Text-discrete t.tenant_id id) then record t { username = name } else t)
    ∷ set_username id name rows

-- The commit of a new row: the unique columns must be free.
unfoldable pub insert : Tenant → List Tenant → Result WebIdentityError (Tenant × List Tenant)
unfolding find_by
insert t rows =
    if has_value (λ r. r.tenant_id) t.tenant_id rows
      || has_value (λ r. r.external_subject) t.external_subject rows
      || has_value (λ r. r.directory_name) t.directory_name rows
    then elim (find_by (λ r. r.external_subject) t.external_subject rows) [
      | none ↦ err conflict
      | some existing ↦ ok (existing, rows)
    ]
    else ok (t, rows ++ t ∷ [])

-- `_tenant`: the two queries see the rows `first` and `second`, the commit meets `rows`.
unfoldable pub tenant_for :
    List Tenant
    → List Tenant
    → List Tenant
    → Text
    → Text
    → Text
    → Text
    → Result WebIdentityError (Tenant × List Tenant)
unfolding find_by insert set_username
tenant_for first second rows fresh_id subject username directory_name =
    elim (find_by (λ r. r.external_subject) subject first) [
      | some t ↦
          if holds (Text-discrete t.username username)
          then ok (t, rows)
          else ok (record t { username = username }, set_username t.tenant_id username rows)
      | none ↦
          if has_value (λ r. r.directory_name) directory_name second
          then err conflict
          else insert
              (record {
                tenant_id = fresh_id;
                external_subject = subject;
                username = username;
                directory_name = directory_name;
              })
              rows
    ]
