-- ===== src/Tenancy/Isolation.antt =====
-- tenancy.py, `resolve`: whose workspace a request gets, over any two requests.
use agent_app_server.Base.{
  ◌≡◌, ◌↔◌, refl, sym, ap, subst, ◌∙◌, Option, none, some, List, [], ◌∷◌, ok, arith, holds, ite,
  Option-cases, Bool-cases, Result-cases, inl, inr,
}
use agent_app_server.Base.Dict
use agent_app_server.Base.Dict.{Dict}
use agent_app_server.Tenancy.{Text, Text-discrete, Tenant, find_by, tenant_for}
use agent_app_server.Tenancy.Rows.{
  Distinct, id_of, subject_of, directory_of, IsSound, Assigns, Keeps, find_by-has_value,
  find_by-column, tenant_for-Settles,
}
use agent_app_server.Tenancy.Resolve.{
  WebUserContext, TenantWorkspaceManager, Request, Entry, Identity, workspace_root, identify,
  build_context, context_for, resolve_identity, resolve, Answer, context_of, remember,
}

-- Two rows that are found in a table, and agree in a distinct column, are one.
same_row :
    (column first second : Tenant → Text) (v w : Text) (rows : List Tenant) (t u : Tenant)
    → Distinct column rows
    → find_by first v rows ≡ some t
    → find_by second w rows ≡ some u
    → column t ≡ column u
    → t ≡ u
unfolding find_by
same_row column first second v w [] t u d ft fu same = cc
same_row column first second v w (r ∷ rows) t u d ft fu same = ground (
  arith,
  same_row column first second v w rows t u d.1,
  find_by-has_value first column v rows t,
  find_by-has_value second column w rows u,
  d.0,
)

-- Every kept context is of a tenant that the table assigns to some subject.
abbrev pub IsCached : List Tenant → TenantWorkspaceManager → Type 0
IsCached rows m =
    (id : Text) (c : WebUserContext)
    → Dict.get Text-discrete m.contexts id ≡ some c
    → (c.tenant_id ≡ id)
      × ((subject : Text) × (directory : Text) × Assigns rows subject id directory
          × (c.directory_name ≡ some directory))

-- The context is the one of the subject's tenant.
abbrev pub IsOf : List Tenant → Text → WebUserContext → Type 0
IsOf rows subject c =
    (directory : Text) × Assigns rows subject c.tenant_id directory
    × (c.directory_name ≡ some directory)

abbrev Entitles : List Tenant → Text → WebUserContext → Type 0
Entitles rows id c =
    (c.tenant_id ≡ id)
    × ((subject : Text) × (directory : Text) × Assigns rows subject id directory
        × (c.directory_name ≡ some directory))

remembered :
    (t : Tenant) (rows : List Tenant) (subject id : Text) (c : WebUserContext)
    (o : Option WebUserContext) (d : Dec (t.tenant_id ≡ id))
    → Assigns rows subject t.tenant_id t.directory_name
    → (o ≡ some c → Entitles rows id c)
    → ite d (some (context_of t t.directory_name)) o ≡ some c
    → Entitles rows id c
remembered t rows subject id c o (yes same) assigned old found =
    let this : context_of t t.directory_name ≡ c = cc in
    subst (λ c. Entitles rows id c) this
      (
        same,
        (
          subject,
          t.directory_name,
          subst (λ i. Assigns rows subject i t.directory_name) same assigned,
          refl,
        ),
      )
remembered t rows subject id c o (no differs) assigned old found = old found

remember-IsCached :
    (m : TenantWorkspaceManager) (t : Tenant) (rows : List Tenant) (subject : Text)
    → IsCached rows m
    → Assigns rows subject t.tenant_id t.directory_name
    → IsCached rows (remember m (context_of t t.directory_name))
remember-IsCached m t rows subject cached assigned id c found =
    remembered t rows subject id c (Dict.get Text-discrete m.contexts id)
      (Text-discrete t.tenant_id id) assigned (cached id c)
      (sym (Dict.get-put Text-discrete m.contexts t.tenant_id id (context_of t t.directory_name))
        ∙ found)

build_context-IsOf :
    (m : TenantWorkspaceManager) (entries : Text → Entry) (t : Tenant) (rows : List Tenant)
    (subject : Text) (c : WebUserContext) (m' : TenantWorkspaceManager)
    → IsCached rows m
    → Assigns rows subject t.tenant_id t.directory_name
    → build_context m entries t ≡ ok (c, m')
    → IsOf rows subject c × IsCached rows m'
unfolding build_context workspace_root
build_context-IsOf m entries t rows subject c m' cached assigned made =
    let built : Answer =
      (context_of t t.directory_name, remember m (context_of t t.directory_name)) in
    let answer : Answer = (c, m') in
    let same : built ≡ answer = ground arith in
    subst (λ r. IsOf rows subject r.0 × IsCached rows r.1) same
      ((t.directory_name, assigned, refl), remember-IsCached m t rows subject cached assigned)

-- A kept context has the directory of its tenant's row.
kept-IsOf :
    (t : Tenant) (rows : List Tenant) (subject : Text) (kept : WebUserContext)
    → IsSound rows
    → Entitles rows t.tenant_id kept
    → Assigns rows subject t.tenant_id t.directory_name
    → IsOf rows subject kept
kept-IsOf t rows subject kept sound (id, (other, directory, (u, fu, u_id, u_dir), names))
      (r, fr, r_id, r_dir) =
    let same =
      same_row id_of subject_of subject_of subject other rows r u sound.ids fr fu
        (r_id ∙ sym u_id) in
    (directory, (r, fr, r_id ∙ sym id, ap directory_of same ∙ u_dir), names)

context_for-IsOf :
    (m : TenantWorkspaceManager) (entries : Text → Entry) (t : Tenant) (rows : List Tenant)
    (subject : Text) (c : WebUserContext) (m' : TenantWorkspaceManager)
    → IsSound rows
    → IsCached rows m
    → Assigns rows subject t.tenant_id t.directory_name
    → context_for m entries t ≡ ok (c, m')
    → IsOf rows subject c × IsCached rows m'
unfolding context_for
context_for-IsOf m entries t rows subject c m' sound cached assigned made =
    elim (Option-cases (Dict.get Text-discrete m.contexts t.tenant_id)) [
      | inl absent ↦ build_context-IsOf m entries t rows subject c m' cached assigned (ground arith)
      | inr (kept, found) ↦ elim (Bool-cases (holds (Text-discrete kept.username t.username))) [
        | inr renamed ↦
            build_context-IsOf m entries t rows subject c m' cached assigned (ground arith)
        | inl current ↦
            let old : Answer = (kept, m) in
            let answer : Answer = (c, m') in
            let same : old ≡ answer = ground arith in
            subst (λ r. IsOf rows subject r.0 × IsCached rows r.1) same
              (kept-IsOf t rows subject kept sound (cached t.tenant_id kept found) assigned, cached)
      ]
    ]

-- One call of `resolve` in the multi-tenant mode that succeeded: what it was given, what the
-- queries and the commit saw, and what it left.
pub record Resolution : Type 0 where
  pub manager : TenantWorkspaceManager
  pub entries : Text → Entry
  pub first : List Tenant
  pub second : List Tenant
  pub rows : List Tenant
  pub fresh_id : Text
  pub request : Request
  pub context : WebUserContext
  pub manager_after : TenantWorkspaceManager
  pub after : List Tenant

-- The table is sound and has lost nothing since the first query, and the kept contexts are of it.
pub record Succeeds (r : Resolution) : Type 0 where
  pub is_multi_tenant : r.manager.single_context ≡ none
  pub sound : IsSound r.rows
  pub keeps : Keeps r.first r.rows
  pub cached : IsCached r.rows r.manager
  pub resolved :
      resolve r.manager r.entries r.first r.second r.rows r.fresh_id r.request
      ≡ (ok (r.context, r.manager_after), r.after)

IsCached-Keeps :
    (rows after : List Tenant) (m : TenantWorkspaceManager)
    → Keeps rows after
    → IsCached rows m
    → IsCached after m
IsCached-Keeps rows after m keeps cached id c found =
    let (same, (subject, directory, assigned, names)) = cached id c found in
    (same, (subject, directory, keeps subject id directory assigned, names))

abbrev pub Answers : Resolution → Identity → Type 0
Answers r who =
    IsOf r.after who.subject r.context
    × IsSound r.after
    × Keeps r.rows r.after
    × IsCached r.after r.manager_after

resolve_identity-Answers :
    (r : Resolution) (who : Identity)
    → Succeeds r
    → resolve_identity r.manager r.entries r.first r.second r.rows r.fresh_id who
      ≡ (ok (r.context, r.manager_after), r.after)
    → Answers r who
unfolding resolve_identity
resolve_identity-Answers r who s made =
    elim (Result-cases
      (tenant_for r.first r.second r.rows r.fresh_id who.subject who.name who.wanted)) [
        | inr (e, failed) ↦ let bad : ⊥ = ground arith in absurd bad
        | inl ((t, after), found) ↦
            let (sound, keeps, assigned, named) =
              tenant_for-Settles r.first r.second r.rows r.fresh_id who.subject who.name who.wanted
                (t, after) s.sound s.keeps found in
            let same : after ≡ r.after = ground arith in
            let (own, cached) =
              context_for-IsOf r.manager r.entries t after who.subject r.context r.manager_after
                sound (IsCached-Keeps r.rows after r.manager keeps s.cached) assigned
                (ground arith) in
            subst
              (λ rows.
                IsOf rows who.subject r.context
                × IsSound rows
                × Keeps r.rows rows
                × IsCached rows r.manager_after)
              same (own, sound, keeps, cached)
      ]

-- A request that is resolved gets the context of the tenant whose subject its headers name; the
-- table stays sound and keeps every assignment, and the kept contexts are still of it.
pub resolve_own :
    (r : Resolution) → Succeeds r → (who : Identity) × (identify r.request ≡ ok who) × Answers r who
unfolding resolve
resolve_own r s = elim (Result-cases (identify r.request)) [
  | inr (e, failed) ↦ let bad : ⊥ = ground (arith, s.resolved, s.is_multi_tenant) in absurd bad
  | inl (who, known) ↦
      (who, known, resolve_identity-Answers r who s (ground (arith, s.resolved, s.is_multi_tenant)))
]

-- Two owners in one table.
owners_apart :
    (rows : List Tenant) (s₁ s₂ : Text) (c₁ c₂ : WebUserContext)
    → IsSound rows
    → IsOf rows s₁ c₁
    → IsOf rows s₂ c₂
    → c₁.directory_name ≡ c₂.directory_name
    → (s₁ ≡ s₂) × (c₁.tenant_id ≡ c₂.tenant_id)
owners_apart rows s₁ s₂ c₁ c₂ sound (d₁, (t, ft, t_id, t_dir), n₁) (d₂, (u, fu, u_id, u_dir), n₂)
      same =
    let dirs : t.directory_name ≡ u.directory_name = cc in
    let one =
      same_row directory_of subject_of subject_of s₁ s₂ rows t u sound.directories ft fu dirs in
    (
      sym (find_by-column subject_of s₁ rows t ft)
          ∙ ap subject_of one
          ∙ find_by-column subject_of s₂ rows u fu,
      sym t_id ∙ ap id_of one ∙ u_id,
    )

one_owner :
    (rows : List Tenant) (s₁ s₂ : Text) (c₁ c₂ : WebUserContext)
    → IsSound rows
    → IsOf rows s₁ c₁
    → IsOf rows s₂ c₂
    → s₁ ≡ s₂
    → c₁.directory_name ≡ c₂.directory_name
one_owner rows s₁ s₂ c₁ c₂ sound (d₁, (t, ft, t_id, t_dir), n₁) (d₂, (u, fu, u_id, u_dir), n₂)
      same =
    let subjects : t.external_subject ≡ u.external_subject =
      find_by-column subject_of s₁ rows t ft
      ∙ same
      ∙ sym (find_by-column subject_of s₂ rows u fu) in
    let one =
      same_row subject_of subject_of subject_of s₁ s₂ rows t u sound.subjects ft fu subjects in
    n₁ ∙ ap some (sym t_dir ∙ ap directory_of one ∙ u_dir) ∙ sym n₂

IsOf-Keeps :
    (rows after : List Tenant) (subject : Text) (c : WebUserContext)
    → Keeps rows after
    → IsOf rows subject c
    → IsOf after subject c
IsOf-Keeps rows after subject c keeps (directory, assigned, names) =
    (directory, keeps subject c.tenant_id directory assigned, names)

-- Of two requests that are resolved, the later one on a table that lost nothing since the earlier
-- one, the workspaces are one exactly when the subjects are: no user works in the directory of
-- another, and each comes back to the same one.
pub resolve_isolates :
    (r q : Resolution)
    → Succeeds r
    → Succeeds q
    → Keeps r.after q.rows
    → (a b : Identity) × (identify r.request ≡ ok a)
      × (identify q.request ≡ ok b)
      × (a.subject ≡ b.subject ↔ r.context.directory_name ≡ q.context.directory_name)
resolve_isolates r q sr sq keeps =
    let (a, known_a, (own_a, sound_a, kept_a, cached_a)) = resolve_own r sr in
    let (b, known_b, (own_b, sound_b, kept_b, cached_b)) = resolve_own q sq in
    let still =
      IsOf-Keeps q.rows q.after a.subject r.context kept_b
        (IsOf-Keeps r.after q.rows a.subject r.context keeps own_a) in
    (
      a,
      b,
      known_a,
      known_b,
      (
        one_owner q.after a.subject b.subject r.context q.context sound_b still own_b,
        λ same.
            (owners_apart q.after a.subject b.subject r.context q.context sound_b still own_b
              same).0,
      ),
    )
