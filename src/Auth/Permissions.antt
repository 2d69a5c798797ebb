-- ===== src/Auth/Permissions.antt =====
-- app/shared/auth_context/: scope.py, dependencies.py and the methods of models.py;
-- app/auth/domain/rbac_enforcer.py: who may do what, and to whose data.
use ai_interviewer.Prelude.{
  ℕ, String, Bool, true, false, not, ◌&&◌, Option, none, some, str_eq, ltb, ◌==◌, if◌then◌else◌,
}
use ai_interviewer.Prelude.Result.{Result, ok, err, ◌>>◌, raise_if}
use ai_interviewer.Auth.Model.{
  admin, candidate, AdminRole, superadmin, administrator, read_only, IdentityContext,
}

pub data AccessError : Type 0 where
  admin_required candidate_required superadmin_required : AccessError
  tenant_isolation : ℕ → AccessError
  not_owner : ℕ → AccessError
  insufficient_role : String → AccessError
  no_role : AccessError

abbrev same_id : Option ℕ → ℕ → Bool
same_id none n = false
same_id (some m) n = m == n

unfoldable pub is_admin : IdentityContext → Bool
is_admin i = elim i.user_type [ admin ↦ true | candidate ↦ false ]

unfoldable pub is_candidate : IdentityContext → Bool
is_candidate i = elim i.user_type [ admin ↦ false | candidate ↦ true ]

unfoldable pub top_role : Option AdminRole → Bool
top_role (some superadmin) = true
top_role _ = false

unfoldable pub is_superadmin : IdentityContext → Bool
is_superadmin i = is_admin i && top_role i.admin_role

unfoldable pub belongs_to_organization : IdentityContext → ℕ → Bool
belongs_to_organization i o = is_admin i && same_id i.organization_id o

unfoldable pub can_access_organization : IdentityContext → ℕ → Bool
can_access_organization i o =
    if is_superadmin i then true else is_admin i && same_id i.organization_id o

unfoldable pub enforce_organization_scope : IdentityContext → ℕ → Result AccessError Unit
enforce_organization_scope i o =
    if not (is_admin i)
    then err admin_required
    else if is_superadmin i
    then ok tt
    else raise_if (not (same_id i.organization_id o)) (tenant_isolation o)

unfoldable pub enforce_candidate_scope : IdentityContext → ℕ → Result AccessError Unit
enforce_candidate_scope i d =
    if not (is_candidate i)
    then err candidate_required
    else raise_if (not (same_id i.candidate_id d)) (not_owner d)

-- `role_hierarchy`
unfoldable pub role_level : AdminRole → ℕ
role_level superadmin = 3
role_level administrator = 2
role_level read_only = 1

unfoldable pub level_of : String → ℕ
level_of role =
    if str_eq role "superadmin"
    then 3
    else if str_eq role "admin"
    then 2
    else if str_eq role "read_only"
    then 1
    else 0

unfoldable pub level_checked : Option AdminRole → String → Result AccessError Unit
level_checked none minimum = err no_role
level_checked (some r) minimum =
    raise_if (ltb (role_level r) (level_of minimum)) (insufficient_role minimum)

unfoldable pub require_organization_admin : IdentityContext → ℕ → String → Result AccessError Unit
require_organization_admin i o minimum =
    if not (is_admin i)
    then err admin_required
    else if not (is_superadmin i) && not (same_id i.organization_id o)
    then err (tenant_isolation o)
    else level_checked i.admin_role minimum

unfoldable pub require_superadmin : IdentityContext → Result AccessError Unit
require_superadmin i = do
  raise_if (not (is_admin i)) admin_required
  raise_if (not (is_superadmin i)) superadmin_required

pub data Permission : Type 0 where
  manage_admins manage_organization create_templates edit_templates delete_templates : Permission
  create_interviews view_submissions download_reports manage_candidates view_analytics : Permission

-- `PERMISSION_MATRIX`: the whole of it, all but three, and three.
unfoldable pub permission_matrix : AdminRole → Permission → Bool
permission_matrix superadmin p = true
permission_matrix administrator manage_admins = false
permission_matrix administrator manage_organization = false
permission_matrix administrator delete_templates = false
permission_matrix administrator p = true
permission_matrix read_only view_submissions = true
permission_matrix read_only download_reports = true
permission_matrix read_only view_analytics = true
permission_matrix read_only p = false

unfoldable pub role_allows : Option AdminRole → Permission → Bool
role_allows none p = false
role_allows (some r) p = permission_matrix r p

unfoldable pub has_permission : IdentityContext → Permission → Bool
has_permission i p = is_admin i && role_allows i.admin_role p
