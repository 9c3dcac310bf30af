-- ===== src/Tenancy/Rows.antt =====
-- tenancy.py, `_tenant`: the table of tenants, whatever other sessions commit in between.
use agent_app_server.Base.{
  ◌≡◌, refl, ap, subst, ◌∙◌, true, false, ◌||◌, Option, none, some, List, [], ◌∷◌, ◌++◌, ok, arith,
  if◌then◌else◌, holds, is_some, Option-cases, Bool-cases, inl, inr,
}
use agent_app_server.Tenancy.{
  Text, Text-discrete, Tenant, find_by, has_value, set_username, insert, tenant_for,
}

-- No two rows agree in the column.
abbrev pub Distinct : (Tenant → Text) → List Tenant → Type 0
Distinct column [] = Unit
Distinct column (t ∷ rows) = (has_value column (column t) rows ≡ false) × Distinct column rows

abbrev pub id_of : Tenant → Text
id_of t = t.tenant_id

abbrev pub subject_of : Tenant → Text
subject_of t = t.external_subject

abbrev pub directory_of : Tenant → Text
directory_of t = t.directory_name

-- The unique columns of the table.
pub record IsSound (rows : List Tenant) : Type 0 where
  pub ids : Distinct id_of rows
  pub subjects : Distinct subject_of rows
  pub directories : Distinct directory_of rows

-- The assignment of a subject, whatever its user name.
abbrev pub Assigns : List Tenant → Text → Text → Text → Type 0
Assigns rows subject id directory =
    (t : Tenant) × (find_by subject_of subject rows ≡ some t)
    × (t.tenant_id ≡ id)
    × (t.directory_name ≡ directory)

-- `rows` keeps the assignments of `seen`.
abbrev pub Keeps : List Tenant → List Tenant → Type 0
Keeps seen rows =
    (subject id directory : Text)
    → Assigns seen subject id directory
    → Assigns rows subject id directory

pub find_by-column :
    (column : Tenant → Text) (value : Text) (rows : List Tenant) (t : Tenant)
    → find_by column value rows ≡ some t
    → column t ≡ value
unfolding find_by
find_by-column column value [] t h = cc
find_by-column column value (r ∷ rows) t h = ground (arith, find_by-column column value rows t)

pub find_by-has_value :
    (column other : Tenant → Text) (value : Text) (rows : List Tenant) (t : Tenant)
    → find_by column value rows ≡ some t
    → has_value other (other t) rows ≡ true
unfolding find_by
find_by-has_value column other value [] t h = cc
find_by-has_value column other value (r ∷ rows) t h =
    ground (arith, find_by-has_value column other value rows t)

is_some-find_by :
    (column : Tenant → Text) (value : Text) (rows : List Tenant)
    → is_some (find_by column value rows) ≡ has_value column value rows
unfolding find_by
is_some-find_by column value [] = refl
is_some-find_by column value (r ∷ rows) = ground (arith, is_some-find_by column value rows)

has_value-append :
    (column : Tenant → Text) (value : Text) (rows : List Tenant) (t : Tenant)
    → has_value column value (rows ++ t ∷ [])
      ≡ (holds (Text-discrete (column t) value) || has_value column value rows)
has_value-append column value [] t = refl
has_value-append column value (r ∷ rows) t = ground (arith, has_value-append column value rows t)

Distinct-append :
    (column : Tenant → Text) (rows : List Tenant) (t : Tenant)
    → Distinct column rows
    → has_value column (column t) rows ≡ false
    → Distinct column (rows ++ t ∷ [])
Distinct-append column [] t d new = (refl, tt)
Distinct-append column (r ∷ rows) t d new = (
  ground (arith, has_value-append column (column r) rows t),
  Distinct-append column rows t d.1 (ground arith),
)

find_by-append :
    (column : Tenant → Text) (value : Text) (rows : List Tenant) (t : Tenant)
    → find_by column value (rows ++ t ∷ []) ≡ elim (find_by column value rows) [
      | some r ↦ some r
      | none ↦ if holds (Text-discrete (column t) value) then some t else none
    ]
unfolding find_by
find_by-append column value [] t = ground arith
find_by-append column value (r ∷ rows) t = ground (arith, find_by-append column value rows t)

abbrev renamed : Text → Text → Tenant → Tenant
renamed id name t = if holds (Text-discrete t.tenant_id id) then record t { username = name } else t

abbrev renamed_row : Text → Text → Option Tenant → Option Tenant
renamed_row id name none = none
renamed_row id name (some t) = some (renamed id name t)

-- A column that a change of user name leaves alone.
abbrev Ignores : (Tenant → Text) → Type 0
Ignores column = (id name : Text) (t : Tenant) → column (renamed id name t) ≡ column t

find_by-set_username :
    (column : Tenant → Text) (value id name : Text) (rows : List Tenant)
    → Ignores column
    → find_by column value (set_username id name rows)
      ≡ renamed_row id name (find_by column value rows)
unfolding find_by set_username
find_by-set_username column value id name [] same = refl
find_by-set_username column value id name (t ∷ rows) same =
    ground (arith, same id name t, find_by-set_username column value id name rows same)

has_value-set_username :
    (column : Tenant → Text) (value id name : Text) (rows : List Tenant)
    → Ignores column
    → has_value column value (set_username id name rows) ≡ has_value column value rows
unfolding set_username
has_value-set_username column value id name [] same = refl
has_value-set_username column value id name (t ∷ rows) same =
    rw (same id name t, has_value-set_username column value id name rows same) refl

Distinct-set_username :
    (column : Tenant → Text) (id name : Text) (rows : List Tenant)
    → Ignores column
    → Distinct column rows
    → Distinct column (set_username id name rows)
unfolding set_username
Distinct-set_username column id name [] same d = tt
Distinct-set_username column id name (t ∷ rows) same d = (
  rw (same id name t, has_value-set_username column (column t) id name rows same) d.0,
  Distinct-set_username column id name rows same d.1,
)

id_of-Ignores : Ignores id_of
id_of-Ignores id name t = ground arith

subject_of-Ignores : Ignores subject_of
subject_of-Ignores id name t = ground arith

directory_of-Ignores : Ignores directory_of
directory_of-Ignores id name t = ground arith

-- What a successful `_tenant` leaves: a sound table that keeps every earlier assignment, and in it
-- the assignment that was answered.
abbrev pub Settles : List Tenant → Text → Tenant × List Tenant → Type 0
Settles rows subject (t, after) =
    IsSound after
    × Keeps rows after
    × Assigns after subject t.tenant_id t.directory_name
    × (t.external_subject ≡ subject)

set_username-Keeps : (id name : Text) (rows : List Tenant) → Keeps rows (set_username id name rows)
set_username-Keeps id name rows subject tenant directory (t, found, same_id, same_dir) = (
  renamed id name t,
  find_by-set_username subject_of subject id name rows subject_of-Ignores
      ∙ ap (renamed_row id name) found,
  id_of-Ignores id name t ∙ same_id,
  directory_of-Ignores id name t ∙ same_dir,
)

set_username-IsSound :
    (id name : Text) (rows : List Tenant) → IsSound rows → IsSound (set_username id name rows)
set_username-IsSound id name rows i = record {
  ids = Distinct-set_username id_of id name rows id_of-Ignores i.ids;
  subjects = Distinct-set_username subject_of id name rows subject_of-Ignores i.subjects;
  directories = Distinct-set_username directory_of id name rows directory_of-Ignores i.directories;
}

append-Keeps : (rows : List Tenant) (new : Tenant) → Keeps rows (rows ++ new ∷ [])
append-Keeps rows new subject id directory (t, found, same_id, same_dir) =
    (t, ground (arith, find_by-append subject_of subject rows new), same_id, same_dir)

insert-Settles :
    (rows : List Tenant) (new : Tenant) (result : Tenant × List Tenant)
    → IsSound rows
    → insert new rows ≡ ok result
    → Settles rows new.external_subject result
unfolding insert
insert-Settles rows new result i made =
    elim (Bool-cases (
      has_value id_of new.tenant_id rows
      || has_value subject_of new.external_subject rows
      || has_value directory_of new.directory_name rows)) [
        | inl taken ↦ elim (Option-cases (find_by subject_of new.external_subject rows)) [
          | inl free ↦ let bad : ⊥ = ground arith in absurd bad
          | inr (existing, found) ↦
              let same : (existing, rows) ≡ result = ground arith in
              subst (Settles rows new.external_subject) same (
                i,
                λ subject id directory a. a,
                (existing, found, refl, refl),
                find_by-column subject_of new.external_subject rows existing found,
              )
        ]
        | inr free ↦
            let same : (new, rows ++ new ∷ []) ≡ result = ground arith in
            subst (Settles rows new.external_subject) same (
              record {
                ids = Distinct-append id_of rows new i.ids (ground arith);
                subjects = Distinct-append subject_of rows new i.subjects (ground arith);
                directories = Distinct-append directory_of rows new i.directories (ground arith);
              },
              append-Keeps rows new,
              (
                new,
                ground (
                  arith,
                  find_by-append subject_of new.external_subject rows new,
                  is_some-find_by subject_of new.external_subject rows,
                ),
                refl,
                refl,
              ),
              refl,
            )
      ]

pub tenant_for-Settles :
    (first second rows : List Tenant) (fresh_id subject username directory_name : Text)
    (result : Tenant × List Tenant)
    → IsSound rows
    → Keeps first rows
    → tenant_for first second rows fresh_id subject username directory_name ≡ ok result
    → Settles rows subject result
unfolding tenant_for
tenant_for-Settles first second rows fresh_id subject username directory_name result i keeps made =
    elim (Option-cases (find_by subject_of subject first)) [
      | inr (t, found) ↦
          let named = find_by-column subject_of subject first t found in
          let (r, there, same_id, same_dir) =
            keeps subject t.tenant_id t.directory_name (t, found, refl, refl) in
          elim (Bool-cases (holds (Text-discrete t.username username))) [
            | inl same_name ↦
                let same : (t, rows) ≡ result = ground arith in
                subst (Settles rows subject) same
                  (i, λ s id d a. a, (r, there, same_id, same_dir), named)
            | inr other_name ↦
                let same : (
                  record t { username = username },
                  set_username t.tenant_id username rows,
                )
                    ≡ result =
                  ground arith in
                subst (Settles rows subject) same (
                  set_username-IsSound t.tenant_id username rows i,
                  set_username-Keeps t.tenant_id username rows,
                  set_username-Keeps t.tenant_id username rows subject t.tenant_id t.directory_name
                      (r, there, same_id, same_dir),
                  named,
                )
          ]
      | inl new ↦ elim (Bool-cases (has_value directory_of directory_name second)) [
        | inl taken ↦ let bad : ⊥ = ground arith in absurd bad
        | inr free ↦
            insert-Settles rows
              (record {
                tenant_id = fresh_id;
                external_subject = subject;
                username = username;
                directory_name = directory_name;
              })
              result i (ground arith)
      ]
    ]
