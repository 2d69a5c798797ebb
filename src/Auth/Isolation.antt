-- ===== src/Auth/Isolation.antt =====
-- What an identity of one organization can reach.
use ai_interviewer.Prelude.{
  ℕ, ◌≡◌, refl, sym, ap, ◌∙◌, ◌≢◌, inl, inr, Bool, true, false, ◌&&◌, Option, none, some, arith,
  ◌==◌, Bool-cases, Option-cases,
}
use ai_interviewer.Prelude.Result.{ok, err}
use ai_interviewer.Auth.Model.{AdminRole, superadmin, administrator, read_only, IdentityContext}
use ai_interviewer.Auth.Entry.{UserType-cases}
use ai_interviewer.Auth.Permissions.{
  is_admin, is_candidate, is_superadmin, enforce_organization_scope, enforce_candidate_scope,
  has_permission, Permission, permission_matrix, top_role, role_allows, candidate_required,
  can_access_organization,
}

pub within :
    (i : IdentityContext) (o : ℕ)
    → enforce_organization_scope i o ≡ ok tt
    → is_superadmin i ≡ false
    → i.organization_id ≡ some o
unfolding enforce_organization_scope
within i o passes below = elim (Bool-cases (is_admin i)) [
  | inr other ↦ absurd (cc (rw (other, enforce_organization_scope) at passes))
  | inl by ↦ elim (Option-cases i.organization_id) [
    | inl none_there ↦
        absurd (cc (rw (by, below, none_there, enforce_organization_scope) at passes))
    | inr (n, there) ↦ elim (Bool-cases (n == o)) [
      | inr off ↦ absurd (cc (rw (by, below, there, off, enforce_organization_scope) at passes))
      | inl on ↦ there ∙ ap some (ground arith)
    ]
  ]
]

top_of : (role : Option AdminRole) → top_role role ≡ true → role ≡ some superadmin
unfolding top_role
top_of none e = cc
top_of (some superadmin) e = refl
top_of (some administrator) e = cc
top_of (some read_only) e = cc

both_true : (a b : Bool) → a && b ≡ true → (a ≡ true) × (b ≡ true)
both_true a b e = ground arith

one_kind : (i : IdentityContext) → is_admin i ≡ true → is_candidate i ≡ false
unfolding is_admin is_candidate
one_kind i by = elim (UserType-cases i.user_type) [
  | inl kind ↦ rw (kind, is_candidate) refl
  | inr kind ↦ absurd (cc (rw (kind, is_admin) at by))
]

-- Whoever passes for two organizations is a superadmin, has every permission, can access every
-- organization, and does not pass as the owner of a candidate's data.
pub tenants_isolated :
    (i : IdentityContext) (o p d : ℕ)
    → enforce_organization_scope i o ≡ ok tt
    → enforce_organization_scope i p ≡ ok tt
    → o ≢ p
    → (is_superadmin i ≡ true)
      × ((q : Permission) → has_permission i q ≡ true)
      × ((n : ℕ) → can_access_organization i n ≡ true)
      × (enforce_candidate_scope i d ≢ ok tt)
unfolding has_permission can_access_organization enforce_candidate_scope is_superadmin role_allows
    permission_matrix
tenants_isolated i o p d one two apart = elim (Bool-cases (is_superadmin i)) [
  | inr below ↦ absurd (apart (cc (within i o one below, within i p two below)))
  | inl top ↦
      let (by, role) = both_true (is_admin i) (top_role i.admin_role) top in
      let all : (q : Permission) → has_permission i q ≡ true =
        λ q. rw (by, top_of i.admin_role role, has_permission) refl in
      let reach : (n : ℕ) → can_access_organization i n ≡ true =
        λ n. rw (by, role, can_access_organization) refl in
      let other : enforce_candidate_scope i d ≡ err candidate_required =
        rw (one_kind i by, enforce_candidate_scope) refl in
      (top, all, reach, λ e. cc (sym e ∙ other))
]
