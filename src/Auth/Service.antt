-- ===== src/Auth/Service.antt =====
-- app/auth/domain/auth_service.py: login, refresh, logout and the change of a password. Each method
-- is given the session's rows and answers them as it leaves them; what a request makes of them is
-- `requested`.
use ai_interviewer.Prelude.{
  ℕ, ◌+◌, String, Bool, not, Option, none, some, [], ◌∷◌, ◌++◌, map, str_eq, ◌==◌, if◌then◌else◌,
  find?,
}
use ai_interviewer.Prelude.Result.{Result, ok, err}
use ai_interviewer.Auth.Model.{
  admin, candidate, Status, is_active, is_suspended, User, Admin, Candidate, RefreshToken,
  FailureReason, user_not_found, invalid_password, organization_suspended, user_is, admin_is,
  organization_is, AuditEvent, login_failure, login_success, Db, AuthError, invalid_credentials,
  admin_missing, organization_missing, candidate_missing, Crypto, Call, UserProfile,
  AuthenticationResult,
}
use ai_interviewer.Auth.Tokens.{generate_access_token, map_option}

abbrev pub Outcome : Type 0 → Type 0
Outcome A = Result AuthError A × Db

-- `get_db_session_with_commit`: an exception rolls the request's writes back.
abbrev pub requested : {A : Type 0} → Outcome A → Db → Outcome A
requested (ok a, after) before = (ok a, after)
requested (err e, after) before = (err e, before)

-- `_log_audit_event`
abbrev pub logged : Option ℕ → AuditEvent → Call → Db → Db
logged who event call db = record db {
  audit = db.audit ++ record { user_id = who; event = event; ip_address = call.request_ip } ∷ [];
}

-- `_log_failed_login`, then the exception.
abbrev failed : {A : Type 0} → Option ℕ → FailureReason → Call → Db → Outcome A
failed who reason call db =
    (err (invalid_credentials reason), logged who (login_failure reason) call db)

unfoldable pub profile_of : User → Option Admin → Option Candidate → UserProfile
profile_of u (some a) d = record {
  user_id = u.id;
  email = u.email;
  user_type = admin;
  user_status = u.status;
  admin_id = some a.id;
  organization_id = some a.organization_id;
  admin_role = some a.role;
  candidate_id = none;
  full_name = none;
}
profile_of u none d = record {
  user_id = u.id;
  email = u.email;
  user_type = candidate;
  user_status = u.status;
  admin_id = none;
  organization_id = none;
  admin_role = none;
  candidate_id = map_option (λ (x : Candidate). x.id) d;
  full_name = elim d [ none ↦ none | some x ↦ x.full_name ];
}

abbrev pub new_token : Crypto → Call → ℕ → User → Option String → RefreshToken
new_token c call id u device = record {
  id = id;
  user_id = u.id;
  token_hash = c.hash_token call.fresh_token;
  device_info = device;
  ip_address = call.request_ip;
  expires_at = call.now + c.refresh_token_ttl;
  revoked_at = none;
  revoked_reason = none;
}

abbrev pub with_token : RefreshToken → Db → Db
with_token t db = record db {
  refresh_tokens = db.refresh_tokens ++ t ∷ [];
  next_id = db.next_id + 1;
}

abbrev pub logged_in : ℕ → ℕ → User → User
logged_in id now u = if u.id == id then record u { last_login_at = some now } else u

abbrev pub belongs_admin : ℕ → Admin → Bool
belongs_admin i a = a.user_id == i

abbrev pub belongs_candidate : ℕ → Candidate → Bool
belongs_candidate i d = d.user_id == i

module _ (c : Crypto) (call : Call) where
  -- From the access token on.
  issue_on :
      User
      → Option Admin
      → Option Candidate
      → Db
      → Result AuthError String
      → Outcome AuthenticationResult
  unfolding profile_of
  issue_on u a d db (err e) = (err e, db)
  issue_on u a d db (ok access) = (
    ok (record {
      access_token = access;
      refresh_token = call.fresh_token;
      expires_in = c.access_token_ttl;
      user_profile = profile_of u a d;
    }),
    logged (some u.id) (login_success u.user_type) call (
        with_token (new_token c call db.next_id u call.device_info)
          (record db { users = map (logged_in u.id call.now) db.users })),
  )

  unfoldable pub issue : User → Option Admin → Option Candidate → Db → Outcome AuthenticationResult
  unfolding issue_on
  issue u a d db = issue_on u a d db (generate_access_token c call.now u a d)

  organization_admitted : User → Admin → Db → Option Status → Outcome AuthenticationResult
  unfolding issue
  organization_admitted u a db none = (err (organization_missing a.organization_id), db)
  organization_admitted u a db (some s) =
      if is_suspended s
      then failed (some u.id) organization_suspended call db
      else if not (is_active s)
      then failed (some u.id) (organization_is s) call db
      else issue u (some a) none db

  admin_admitted : User → Db → Option Admin → Outcome AuthenticationResult
  unfolding organization_admitted
  admin_admitted u db none = (err (admin_missing u.id), db)
  admin_admitted u db (some a) =
      if not (is_active a.status)
      then failed (some u.id) (admin_is a.status) call db
      else organization_admitted u a db (db.organizations a.organization_id)

  candidate_admitted : User → Db → Option Candidate → Outcome AuthenticationResult
  unfolding issue
  candidate_admitted u db none = (err (candidate_missing u.id), db)
  candidate_admitted u db (some d) = issue u none (some d) db

  user_admitted : String → Db → Option User → Outcome AuthenticationResult
  unfolding admin_admitted candidate_admitted
  user_admitted password db none = failed none user_not_found call db
  user_admitted password db (some u) =
      if not (c.verify_password password u.password_hash)
      then failed (some u.id) invalid_password call db
      else if not (is_active u.status)
      then failed (some u.id) (user_is u.status) call db
      else elim u.user_type [
        | admin ↦ admin_admitted u db (find? (belongs_admin u.id) db.admins)
        | candidate ↦ candidate_admitted u db (find? (belongs_candidate u.id) db.candidates)
      ]

  abbrev pub has_email : String → User → Bool
  has_email email u = str_eq (c.lower u.email) (c.lower email)

  unfoldable pub login : String → String → Db → Outcome AuthenticationResult
  unfolding user_admitted
  login email password db = user_admitted password db (find? (has_email email) db.users)
