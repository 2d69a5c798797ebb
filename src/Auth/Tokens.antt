-- ===== src/Auth/Tokens.antt =====
-- app/auth/domain/jwt_service.py and the validation of access tokens in auth_service.py.
use ai_interviewer.Prelude.{
  ℕ, ◌+◌, String, Bool, false, not, ◌&&◌, Option, none, some, ltb, ◌==◌, if◌then◌else◌, is_some,
  find?,
}
use ai_interviewer.Prelude.Result.{Result, ok, err, ◌>>=◌}
use ai_interviewer.Auth.Model.{
  UserType, admin, candidate, Status, is_active, is_suspended, User, Admin, Candidate, Db, Claims,
  IdentityContext, JwtError, AuthError, claims_incomplete, Crypto,
}

-- Python's truth of an optional id.
abbrev pub given : Option ℕ → Bool
given none = false
given (some n) = not (n == 0)

abbrev pub map_option {ℓ κ} : {A : Type ℓ} {B : Type κ} → (A → B) → Option A → Option B
map_option f none = none
map_option f (some a) = some (f a)

abbrev base_claims : Crypto → ℕ → User → Claims
base_claims c now u = record {
  sub = some u.id;
  user_type = some u.user_type;
  token_version = some u.token_version;
  admin_id = none;
  organization_id = none;
  role = none;
  candidate_id = none;
  iat = some now;
  exp = some (now + c.access_token_ttl);
}

admin_claims : Claims → Option Admin → Result AuthError Claims
admin_claims base none = err claims_incomplete
admin_claims base (some a) =
    if given (some a.id) && given (some a.organization_id)
    then ok (record base {
      admin_id = some a.id;
      organization_id = some a.organization_id;
      role = some a.role;
    })
    else err claims_incomplete

candidate_claims : Claims → Option Candidate → Result AuthError Claims
candidate_claims base none = err claims_incomplete
candidate_claims base (some d) =
    if given (some d.id)
    then ok (record base { candidate_id = some d.id })
    else err claims_incomplete

claims_for : Crypto → ℕ → User → Option Admin → Option Candidate → Result AuthError Claims
unfolding admin_claims candidate_claims
claims_for c now u a d = elim u.user_type [
  | admin ↦ admin_claims (base_claims c now u) a
  | candidate ↦ candidate_claims (base_claims c now u) d
]

-- `generate_access_token`, with what the service reads off the user, admin and candidate rows.
unfoldable pub generate_access_token :
    Crypto → ℕ → User → Option Admin → Option Candidate → Result AuthError String
unfolding claims_for
generate_access_token c now u a d = do claims ← claims_for c now u a d; ok (c.encode claims)

-- `TokenValidationResult`
pub data ValidationError : Type 0 where
  jwt : JwtError → ValidationError
  missing_subject user_inactive token_revoked : ValidationError
  organization_not_found org_suspended validation_error : ValidationError

abbrev pub Validation : Type 0
Validation = Result ValidationError (Claims × IdentityContext)

-- `IdentityContext(…)` with the checks of its `__post_init__`.
abbrev pub identity_ok : IdentityContext → Bool
identity_ok i =
    (elim i.user_type [
      | admin ↦ is_some i.organization_id && (is_some i.admin_role && not (is_some i.candidate_id))
      | candidate ↦
          not (is_some i.organization_id) && (not (is_some i.admin_role) && is_some i.candidate_id)
    ])
    && ltb i.issued_at i.expires_at

checked_identity : Claims → IdentityContext → Validation
checked_identity claims i = if identity_ok i then ok (claims, i) else err validation_error

abbrev pub or_one : Option ℕ → ℕ
or_one none = 1
or_one (some v) = v

-- An absent key is a `KeyError`.
required : {A : Type 0} → Option A → Result ValidationError A
required none = err validation_error
required (some a) = ok a

-- `_build_identity_context`
unfoldable pub build_identity_context : Claims → Validation
unfolding checked_identity required
build_identity_context claims = do
  kind ← required claims.user_type
  sub ← required claims.sub
  iat ← required claims.iat
  exp ← required claims.exp
  checked_identity claims (record {
    user_id = sub;
    user_type = kind;
    token_version = or_one claims.token_version;
    issued_at = iat;
    expires_at = exp;
    candidate_id = none;
    organization_id = claims.organization_id;
    admin_role = claims.role;
  })

abbrev pub or_zero : Option ℕ → ℕ
or_zero none = 0
or_zero (some v) = v

organization_checked : Claims → Option Status → Validation
organization_checked claims none = err organization_not_found
organization_checked claims (some s) =
    if is_suspended s then err org_suspended else build_identity_context claims

organization_of : Db → Claims → Option ℕ → Validation
unfolding organization_checked
organization_of db claims none = build_identity_context claims
organization_of db claims (some o) =
    if o == 0
    then build_identity_context claims
    else organization_checked claims (db.organizations o)

typed : Db → Claims → Option UserType → Validation
unfolding organization_of
typed db claims (some admin) = organization_of db claims claims.organization_id
typed db claims _ = build_identity_context claims

user_checked : Db → Claims → Option User → Validation
unfolding typed
user_checked db claims none = err user_inactive
user_checked db claims (some u) =
    if not (is_active u.status)
    then err user_inactive
    else if ltb (or_zero claims.token_version) u.token_version
    then err token_revoked
    else typed db claims claims.user_type

abbrev pub has_id : ℕ → User → Bool
has_id i u = u.id == i

subject : Db → Claims → Option ℕ → Validation
unfolding user_checked
subject db claims none = err missing_subject
subject db claims (some i) =
    if i == 0 then err missing_subject else user_checked db claims (find? (has_id i) db.users)

-- `validate_access_token`
unfoldable pub validate_access_token : Crypto → ℕ → String → Db → Validation
unfolding subject
validate_access_token c now token db = elim (c.decode now token) [
  | err e ↦ err (jwt e)
  | ok claims ↦ subject db claims claims.sub
]
