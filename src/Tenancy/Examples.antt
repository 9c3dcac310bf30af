-- ===== src/Tenancy/Examples.antt =====
-- tenancy.py: the theorems at two users.
use agent_app_server.Base.{◌≡◌, ◌↔◌, refl, none, [], ◌∷◌, ok, ℕ_discrete}
use agent_app_server.Base.Dict
use agent_app_server.Tenancy.{
  Text, Text-discrete, Tenant, tenant_for, find_by, insert, single_header, check_subject,
  canonical_username, is_username, lstrip, rstrip,
}
use agent_app_server.Tenancy.Names.{IsPlainName, canonical_username_lem}
use agent_app_server.Tenancy.Rows.{IsSound}
use agent_app_server.Tenancy.Resolve.{
  TenantWorkspaceManager, nothing, directory, Identity, identify, workspace_root, build_context,
  context_for, resolve_identity, resolve, context_of, remember,
}
use agent_app_server.Tenancy.Isolation.{
  Resolution, Succeeds, Answers, resolve_own, resolve_isolates,
}

-- " Ann"
abbrev raw_name : Text
raw_name = 32 ∷ 65 ∷ 110 ∷ 110 ∷ []

abbrev ann : Text
ann = 97 ∷ 110 ∷ 110 ∷ []

ann_made : canonical_username raw_name ≡ ok ann
unfolding canonical_username is_username lstrip rstrip
ann_made = refl

canonical_username_lem_example : IsPlainName ann × (canonical_username ann ≡ ok ann)
canonical_username_lem_example = canonical_username_lem raw_name ann ann_made

abbrev empty_manager : TenantWorkspaceManager
empty_manager = record { single_context = none; contexts = [] }

abbrev ann_row : Tenant
ann_row = record {
  tenant_id = 1 ∷ [];
  external_subject = 115 ∷ 49 ∷ [];
  username = 65 ∷ 110 ∷ 110 ∷ [];
  directory_name = ann;
}

abbrev bob_row : Tenant
bob_row = record {
  tenant_id = 2 ∷ [];
  external_subject = 115 ∷ 50 ∷ [];
  username = 98 ∷ 111 ∷ 98 ∷ [];
  directory_name = 98 ∷ 111 ∷ 98 ∷ [];
}

abbrev first_request : Resolution
first_request = record {
  manager = empty_manager;
  entries = λ name. nothing;
  first = [];
  second = [];
  rows = [];
  fresh_id = ann_row.tenant_id;
  request = record { subjects = ann_row.external_subject ∷ []; usernames = raw_name ∷ [] };
  context = context_of ann_row ann;
  manager_after = remember empty_manager (context_of ann_row ann);
  after = ann_row ∷ [];
}

abbrev second_request : Resolution
second_request = record {
  manager = remember empty_manager (context_of ann_row ann);
  entries = λ name. directory;
  first = ann_row ∷ [];
  second = ann_row ∷ [];
  rows = ann_row ∷ [];
  fresh_id = bob_row.tenant_id;
  request = record { subjects = bob_row.external_subject ∷ []; usernames = bob_row.username ∷ [] };
  context = context_of bob_row bob_row.directory_name;
  manager_after =
      remember (remember empty_manager (context_of ann_row ann))
        (context_of bob_row bob_row.directory_name);
  after = ann_row ∷ bob_row ∷ [];
}

first-Succeeds : Succeeds first_request
unfolding resolve identify single_header check_subject canonical_username is_username lstrip rstrip
    resolve_identity tenant_for find_by insert context_for build_context workspace_root Dict.get
    Dict.put
first-Succeeds = record {
  is_multi_tenant = refl;
  sound = record { ids = tt; subjects = tt; directories = tt };
  keeps = λ subject id dir a. a;
  cached = λ id c found. cc;
  resolved = refl;
}

resolve_own_example :
    (who : Identity) × (identify first_request.request ≡ ok who) × Answers first_request who
resolve_own_example = resolve_own first_request first-Succeeds

ann-IsSound : IsSound (ann_row ∷ [])
ann-IsSound = record { ids = (refl, tt); subjects = (refl, tt); directories = (refl, tt) }

second-Succeeds : Succeeds second_request
unfolding resolve identify single_header check_subject canonical_username is_username lstrip rstrip
    resolve_identity tenant_for find_by insert context_for build_context workspace_root
    Text-discrete ℕ_discrete Dict.get Dict.put
second-Succeeds = record {
  is_multi_tenant = refl;
  sound = ann-IsSound;
  keeps = λ subject id dir a. a;
  cached = (resolve_own first_request first-Succeeds).2.3;
  resolved = refl;
}

resolve_isolates_example :
    (a b : Identity) × (identify first_request.request ≡ ok a)
    × (identify second_request.request ≡ ok b)
    × (a.subject ≡ b.subject
        ↔ first_request.context.directory_name ≡ second_request.context.directory_name)
resolve_isolates_example =
    resolve_isolates first_request second_request first-Succeeds second-Succeeds
      (λ subject id dir a. a)
