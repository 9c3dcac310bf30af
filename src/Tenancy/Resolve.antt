-- ===== src/Tenancy/Resolve.antt =====
-- tenancy.py: `resolve`, from a request to the context that it may work in. The directory of a tenant
-- stands for its workspace, and the directory entries under the base are an argument.
use agent_app_server.Base.{
  Bool, true, false, Option, none, some, List, Result, ok, err, ◌>>=◌, if◌then◌else◌, holds,
}
use agent_app_server.Base.Dict
use agent_app_server.Base.Dict.{Dict}
use agent_app_server.Tenancy.{
  Text, Text-discrete, WebIdentityError, unsafe_workspace, strip, is_username, canonical_username,
  single_header, check_subject, Tenant, tenant_for,
}

pub record WebUserContext : Type 0 where
  pub tenant_id : Text
  pub username : Text
  pub directory_name : Option Text

pub record TenantWorkspaceManager : Type 0 where
  pub single_context : Option WebUserContext
  pub contexts : Dict Text WebUserContext

-- The values of the two identity headers.
pub record Request : Type 0 where
  pub subjects : List Text
  pub usernames : List Text

-- What stands under a name in the base directory; `uncreatable` is nothing, and no way to make it.
pub data Entry : Type 0 where
  nothing uncreatable symlink plain_file directory : Entry

abbrev pub usable : Entry → Bool
usable nothing = true
usable uncreatable = false
usable symlink = false
usable plain_file = false
usable directory = true

-- `_workspace_root`
unfoldable pub workspace_root : (Text → Entry) → Text → Result WebIdentityError Text
workspace_root entries name =
    if is_username name
    then (if usable (entries name) then ok name else err unsafe_workspace)
    else err unsafe_workspace

pub record Identity : Type 0 where
  pub subject : Text
  pub name : Text
  pub wanted : Text

-- The first part of `resolve`: who the request is from.
unfoldable pub identify : Request → Result WebIdentityError Identity
identify request = do
  value ← single_header request.subjects
  subject ← check_subject value
  raw ← single_header request.usernames
  wanted ← canonical_username raw
  ok (record { subject = subject; name = strip raw; wanted = wanted })

abbrev pub context_of : Tenant → Text → WebUserContext
context_of t root = record {
  tenant_id = t.tenant_id;
  username = t.username;
  directory_name = some root;
}

abbrev pub remember : TenantWorkspaceManager → WebUserContext → TenantWorkspaceManager
remember m context = record m {
  contexts = Dict.put Text-discrete m.contexts context.tenant_id context;
}

abbrev pub Answer : Type 0
Answer = WebUserContext × TenantWorkspaceManager

abbrev pub Resolved : Type 0
Resolved = Result WebIdentityError Answer

unfoldable pub build_context : TenantWorkspaceManager → (Text → Entry) → Tenant → Resolved
unfolding workspace_root
build_context m entries t = do
  root ← workspace_root entries t.directory_name
  ok (context_of t root, remember m (context_of t root))

-- The last part: the context that is kept for the tenant, or a new one.
unfoldable pub context_for : TenantWorkspaceManager → (Text → Entry) → Tenant → Resolved
unfolding build_context
context_for m entries t =
    let built = build_context m entries t in
    elim (Dict.get Text-discrete m.contexts t.tenant_id) [
      | none ↦ built
      | some cached ↦
          if holds (Text-discrete cached.username t.username) then ok (cached, m) else built
    ]

unfoldable pub resolve_identity :
    TenantWorkspaceManager
    → (Text → Entry)
    → List Tenant
    → List Tenant
    → List Tenant
    → Text
    → Identity
    → Resolved × List Tenant
unfolding tenant_for context_for
resolve_identity m entries first second rows fresh_id who =
    elim (tenant_for first second rows fresh_id who.subject who.name who.wanted) [
      | err e ↦ (err e, rows)
      | ok (t, after) ↦ (context_for m entries t, after)
    ]

-- `resolve`: the outcome, and the table after it.
unfoldable pub resolve :
    TenantWorkspaceManager
    → (Text → Entry)
    → List Tenant
    → List Tenant
    → List Tenant
    → Text
    → Request
    → Resolved × List Tenant
unfolding identify resolve_identity
resolve m entries first second rows fresh_id request = elim m.single_context [
  | some context ↦ (ok (context, m), rows)
  | none ↦ elim (identify request) [
    | err e ↦ (err e, rows)
    | ok who ↦ resolve_identity m entries first second rows fresh_id who
  ]
]
