-- ===== src/Auth/Model.antt =====
-- app/auth/persistence/models.py, domain/contracts.py and app/shared/auth_context/models.py: the
-- rows, the commands and the errors. Times are seconds.
use ai_interviewer.Prelude.{ℕ, String, Bool, true, false, Option, List}
use ai_interviewer.Prelude.Result.{Result}

pub data UserType : Type 0 where
  admin candidate : UserType

pub data AdminRole : Type 0 where
  superadmin administrator read_only : AdminRole

-- The statuses that the columns of users, admins and organizations hold.
pub data Status : Type 0 where
  active inactive suspended banned : Status

abbrev pub is_active : Status → Bool
is_active active = true
is_active _ = false

abbrev pub is_suspended : Status → Bool
is_suspended suspended = true
is_suspended _ = false

pub record User : Type 0 where
  pub id : ℕ
  pub name : String
  pub email : String
  pub password_hash : String
  pub user_type : UserType
  pub status : Status
  pub token_version : ℕ
  pub last_login_at : Option ℕ

pub record Admin : Type 0 where
  pub id : ℕ
  pub user_id : ℕ
  pub organization_id : ℕ
  pub role : AdminRole
  pub status : Status

pub record Candidate : Type 0 where
  pub id : ℕ
  pub user_id : ℕ
  pub plan : String
  pub status : Status
  pub full_name : Option String

pub data RevokedReason : Type 0 where
  rotation token_reuse logged_out password_change : RevokedReason

pub record RefreshToken : Type 0 where
  pub id : ℕ
  pub user_id : ℕ
  pub token_hash : String
  pub device_info : Option String
  pub ip_address : Option String
  pub expires_at : ℕ
  pub revoked_at : Option ℕ
  pub revoked_reason : Option RevokedReason

pub data FailureReason : Type 0 where
  user_not_found invalid_password organization_suspended : FailureReason
  user_is admin_is organization_is : Status → FailureReason

-- The events of the audit log, with the metadata that tells them apart.
pub data AuditEvent : Type 0 where
  user_registered : UserType → AuditEvent
  login_failure : FailureReason → AuditEvent
  login_success token_refreshed : UserType → AuditEvent
  suspicious_activity logout_event : AuditEvent
  -- the number of tokens that the change revoked
  password_changed : ℕ → AuditEvent

pub record AuditEntry : Type 0 where
  pub user_id : Option ℕ
  pub event : AuditEvent
  pub ip_address : Option String

-- The tables; an id that is not in a table of organizations has no organization.
pub record Db : Type 0 where
  pub users : List User
  pub admins : List Admin
  pub candidates : List Candidate
  pub organizations : ℕ → Option Status
  pub refresh_tokens : List RefreshToken
  pub audit : List AuditEntry
  pub next_id : ℕ

-- The payload of an access token; an absent field is `none`.
pub record Claims : Type 0 where
  pub sub : Option ℕ
  pub user_type : Option UserType
  pub token_version : Option ℕ
  pub admin_id : Option ℕ
  pub organization_id : Option ℕ
  pub role : Option AdminRole
  pub candidate_id : Option ℕ
  pub iat : Option ℕ
  pub exp : Option ℕ

pub record IdentityContext : Type 0 where
  pub user_id : ℕ
  pub user_type : UserType
  pub token_version : ℕ
  pub issued_at : ℕ
  pub expires_at : ℕ
  pub candidate_id : Option ℕ
  pub organization_id : Option ℕ
  pub admin_role : Option AdminRole

pub data JwtError : Type 0 where
  expired invalid_signature unknown : JwtError

pub data AuthError : Type 0 where
  invalid_credentials : FailureReason → AuthError
  -- rows that belong to a user and are not there
  admin_missing organization_missing candidate_missing : ℕ → AuthError
  -- the `ValueError` of the token generator
  claims_incomplete : AuthError
  token_not_found token_expired token_reused user_inactive : AuthError
  user_unknown : ℕ → AuthError
  current_password_incorrect weak_password email_taken : AuthError
  organization_unknown : ℕ → AuthError
  organization_not_active : Status → AuthError

-- What the service calls: bcrypt, SHA-256, the JWT library, `str.lower` and `re.search`.
pub record Crypto : Type 0 where
  pub verify_password : String → String → Bool
  -- with the salt of the call
  pub hash_password : String → String → String
  pub hash_token : String → String
  pub encode : Claims → String
  -- with the time of the call
  pub decode : ℕ → String → Result JwtError Claims
  pub lower : String → String
  pub search : String → String → Bool
  pub access_token_ttl : ℕ
  pub refresh_token_ttl : ℕ

-- One call: the clock, the random refresh token and the salt it draws.
pub record Call : Type 0 where
  pub now : ℕ
  pub fresh_token : String
  pub salt : String
  pub request_ip : Option String
  pub device_info : Option String

pub record UserProfile : Type 0 where
  pub user_id : ℕ
  pub email : String
  pub user_type : UserType
  pub user_status : Status
  pub admin_id : Option ℕ
  pub organization_id : Option ℕ
  pub admin_role : Option AdminRole
  pub candidate_id : Option ℕ
  pub full_name : Option String

pub record AuthenticationResult : Type 0 where
  pub access_token : String
  pub refresh_token : String
  pub expires_in : ℕ
  pub user_profile : UserProfile
