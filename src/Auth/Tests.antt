-- ===== src/Auth/Tests.antt =====
-- Accounts of one organization, run through the definitions.
use ai_interviewer.Prelude.{
  ℕ, String, ◌≡◌, refl, ◌≢◌, ◌⊎◌, true, false, Option, none, some, List, [], ◌∷◌, arith, str_eq,
  ◌==◌, if◌then◌else◌, any,
}
use ai_interviewer.Prelude.Result.{ok, err}
use ai_interviewer.Auth.Model.{
  superadmin, administrator, read_only, admin, candidate, active, User, Admin, RefreshToken, Db,
  Crypto, Call, token_expired, token_reused, AuthenticationResult, UserProfile, IdentityContext,
  Claims,
}
use ai_interviewer.Auth.Tokens.{generate_access_token, validate_access_token}
use ai_interviewer.Auth.Service.{login, issue, requested, profile_of}
use ai_interviewer.Auth.Refresh.{
  refresh_token, refresh_over, refreshed_for, rotated, change_password, is_live, admin_at,
  candidate_at, complex,
}
use ai_interviewer.Auth.Rotation.{refreshed_once_unless_overlapping, reuse_rolled_back}
use ai_interviewer.Auth.Revocation.{change_password_cuts_off, refused}
use ai_interviewer.Auth.Validity.{candidate_never_valid, login_validates}
use ai_interviewer.Auth.Registration.{RegisterAdminCommand, register_admin, add_admin, before_at}
use ai_interviewer.Auth.Enrolment.{registered_logs_in}
use ai_interviewer.Auth.Requests.{dispatch, authenticate_websocket, from_jwt_claims}
use ai_interviewer.Auth.Admission.{authorization, Same, login_admits, password_change_unseen}
use ai_interviewer.Auth.Permissions.{
  Permission, is_admin, is_superadmin, top_role, has_permission, role_allows, permission_matrix,
  can_access_organization, enforce_candidate_scope, enforce_organization_scope, view_submissions,
  tenant_isolation,
}
use ai_interviewer.Auth.Isolation.{tenants_isolated}
use ai_interviewer.Auth.Unary.{encode, decode, decode-encode}

abbrev plain : Crypto
plain = record {
  verify_password = str_eq;
  hash_password = λ salt p. p;
  hash_token = λ t. t;
  encode = encode;
  decode = decode;
  lower = λ s. s;
  search = λ pattern s. true;
  access_token_ttl = 10;
  refresh_token_ttl = 100;
}

abbrev at_time : ℕ → String → Call
at_time now fresh = record {
  now = now;
  fresh_token = fresh;
  salt = "";
  request_ip = none;
  device_info = none;
}

abbrev ada : User
ada = record {
  id = 1;
  name = "ada";
  email = "ada";
  password_hash = "password1";
  user_type = admin;
  status = active;
  token_version = 1;
  last_login_at = none;
}

abbrev ada_admin : Admin
ada_admin = record {
  id = 2;
  user_id = 1;
  organization_id = 3;
  role = administrator;
  status = active;
}

abbrev session_of : Option ℕ → RefreshToken
session_of at = record {
  id = 4;
  user_id = 1;
  token_hash = "t";
  device_info = none;
  ip_address = none;
  expires_at = 100;
  revoked_at = at;
  revoked_reason = none;
}

abbrev office : List User → List Admin → List RefreshToken → Db
office us admins ts = record {
  users = us;
  admins = admins;
  candidates = [];
  organizations = λ i. if i == 3 then some active else none;
  refresh_tokens = ts;
  audit = [];
  next_id = 5;
}

abbrev staffed : Option ℕ → Db
staffed at = office (ada ∷ []) (ada_admin ∷ []) (session_of at ∷ [])

refresh_runs :
    (r : AuthenticationResult) × (after : Db) × (requested
        (refresh_token plain (at_time 5 "n") "t" (staffed none))
        (staffed none)
      ≡ (ok r, after))
unfolding refresh_token refreshed_for rotated generate_access_token profile_of admin_at candidate_at
refresh_runs = (_, _, refl)

refreshed_once_unless_overlapping_example :
    let (r, after, _) = refresh_runs in
    ((requested (refresh_token plain (at_time 6 "m") "t" after) after ≡ (err token_expired, after))
      ⊎ (requested (refresh_token plain (at_time 6 "m") "t" after) after
          ≡ (err token_reused, after)))
    × ((requested (refresh_over plain (at_time 6 "o") "t" (staffed none) after) after).0
        ≡ (requested (refresh_token plain (at_time 6 "o") "t" (staffed none)) (staffed none)).0)
refreshed_once_unless_overlapping_example =
    refreshed_once_unless_overlapping plain (at_time 5 "n") (at_time 6 "m") (at_time 6 "o") "t"
      (staffed none) refresh_runs.1 refresh_runs.1 refresh_runs.0 refresh_runs.2 refl

-- Two overlapping requests: both exchange the token.
exchanged_twice :
    (r : AuthenticationResult) × ((requested
        (refresh_over plain (at_time 6 "o") "t" (staffed none) refresh_runs.1)
        refresh_runs.1).0
      ≡ ok r)
unfolding refresh_over refreshed_for rotated generate_access_token profile_of admin_at candidate_at
exchanged_twice = (_, refl)

reuse_rolled_back_example :
    ((refresh_token plain (at_time 5 "n") "t" (staffed (some 2))).0 ≡ err token_reused)
    × (any (is_live 1) (refresh_token plain (at_time 5 "n") "t" (staffed (some 2))).1.refresh_tokens
        ≡ false)
    × (requested (refresh_token plain (at_time 5 "n") "t" (staffed (some 2))) (staffed (some 2))
        ≡ (err token_reused, staffed (some 2)))
reuse_rolled_back_example =
    reuse_rolled_back plain (at_time 5 "n") "t" (staffed (some 2)) (session_of (some 2)) 2 refl refl
      (omega arith)

candidate_never_valid_example :
    refused (
      validate_access_token plain 6
        (encode (record {
          sub = some 1;
          user_type = some candidate;
          token_version = some 1;
          admin_id = none;
          organization_id = none;
          role = none;
          candidate_id = some 2;
          iat = some 5;
          exp = some 15;
        }))
        (staffed none))
    ≡ true
candidate_never_valid_example =
    candidate_never_valid plain 6 _ (staffed none) _ (decode-encode 6 _ 15 refl (omega arith)) refl

login_runs :
    (r : AuthenticationResult) × (after : Db) × (login plain
        (at_time 5 "n")
        "ada"
        "password1"
        (staffed none)
      ≡ (ok r, after))
unfolding login issue generate_access_token profile_of
login_runs = (_, _, refl)

login_is_valid :
    let (r, after, _) = login_runs in
    (claims : Claims) × (i : IdentityContext) × (validate_access_token plain 6 r.access_token after
      ≡ ok (claims, i))
    × (i.user_id ≡ r.user_profile.user_id)
    × (some i.user_type ≡ claims.user_type)
    × (i.organization_id ≡ r.user_profile.organization_id)
    × (i.admin_role ≡ r.user_profile.admin_role)
unfolding login_runs
login_is_valid =
    login_validates plain (at_time 5 "n") "ada" "password1" (staffed none) login_runs.1 login_runs.0
      ada 6 (decode-encode 6) login_runs.2 refl refl refl (omega arith) (omega arith) (omega arith)

abbrev bob : RegisterAdminCommand
bob = record {
  email = "bob@here";
  password = "password1";
  organization_id = 3;
  admin_role = administrator;
  full_name = none;
}

register_runs :
    (p : UserProfile) × (after : Db) × (register_admin plain (at_time 5 "n") bob (staffed none)
      ≡ (ok p, after))
unfolding register_admin add_admin profile_of complex
register_runs = (_, _, refl)

bob_is_named : before_at "bob@here" ≡ "bob"
unfolding before_at
bob_is_named = refl

registered_logs_in_example :
    (r : AuthenticationResult) × (next : Db) × (login plain
        (at_time 7 "m")
        "bob@here"
        "password1"
        register_runs.1
      ≡ (ok r, next))
    × (r.user_profile ≡ register_runs.0)
registered_logs_in_example =
    registered_logs_in plain (at_time 5 "n") (at_time 7 "m") bob (staffed none) register_runs.1
      register_runs.0 "bob@here" refl register_runs.2 refl refl (omega arith)

change_runs :
    (after : Db) × (change_password plain (at_time 5 "n") 1 "password1" "password2" (staffed none)
      ≡ (ok tt, after))
unfolding change_password complex
change_runs = (_, refl)

abbrev old_claims : Claims
old_claims = record {
  sub = some 1;
  user_type = some admin;
  token_version = some 1;
  admin_id = some 2;
  organization_id = some 3;
  role = some administrator;
  candidate_id = none;
  iat = some 5;
  exp = some 15;
}

abbrev old_identity : IdentityContext
old_identity = record {
  user_id = 1;
  user_type = admin;
  token_version = 1;
  issued_at = 5;
  expires_at = 15;
  candidate_id = none;
  organization_id = some 3;
  admin_role = some administrator;
}

abbrev old_session : AuthenticationResult
old_session = record {
  access_token = encode old_claims;
  refresh_token = "m";
  expires_in = 10;
  user_profile = record {
    user_id = 1;
    email = "ada";
    user_type = admin;
    user_status = active;
    admin_id = some 2;
    organization_id = some 3;
    admin_role = some administrator;
    candidate_id = none;
    full_name = none;
  };
}

change_password_cuts_off_example :
    (refresh_token plain (at_time 6 "m") "t" change_runs.0 ≢ (ok old_session, change_runs.0))
    × (validate_access_token plain 6 (encode old_claims) change_runs.0
        ≢ ok (old_claims, old_identity))
change_password_cuts_off_example =
    change_password_cuts_off plain (at_time 5 "n") (at_time 6 "m") 1 "password1" "password2"
      (staffed none) change_runs.0 change_runs.1 "t" (encode old_claims) old_session change_runs.0
      ada old_claims (old_claims, old_identity) refl refl
      (decode-encode 6 old_claims 15 refl (omega arith)) refl (omega arith)

password_change_unseen_example :
    (validate_access_token plain 6 (encode old_claims) change_runs.0
      ≢ ok (old_claims, old_identity))
    × (dispatch true plain 6 (some (authorization (encode old_claims))) ≡ ok (some old_identity))
    × (authenticate_websocket plain 6 (encode old_claims) ≡ ok old_identity)
unfolding from_jwt_claims
password_change_unseen_example =
    password_change_unseen plain (at_time 5 "n") (at_time 6 "m") 1 "password1" "password2"
      (staffed none) change_runs.0 (encode old_claims) ada old_claims old_identity
      (old_claims, old_identity) true change_runs.1 refl
      (decode-encode 6 old_claims 15 refl (omega arith)) refl (omega arith) refl (omega arith)

login_admits_example :
    (i : IdentityContext) × (dispatch true plain 6 (some (authorization login_runs.0.access_token))
      ≡ ok (some i))
    × (authenticate_websocket plain 6 login_runs.0.access_token ≡ ok i)
    × Same i login_runs.0.user_profile
login_admits_example =
    login_admits plain (at_time 5 "n") "ada" "password1" (staffed none) login_runs.1 login_runs.0 6
      true (λ claims at end _ until _ young. decode-encode 6 claims end until young) login_runs.2
      (omega arith) (omega arith) (omega arith)

abbrev root : IdentityContext
root = record old_identity { admin_role = some superadmin }

root_is_everywhere :
    (is_superadmin root ≡ true)
    × ((q : Permission) → has_permission root q ≡ true)
    × ((n : ℕ) → can_access_organization root n ≡ true)
    × (enforce_candidate_scope root 7 ≢ ok tt)
unfolding enforce_organization_scope is_admin is_superadmin top_role
root_is_everywhere = tenants_isolated root 3 4 7 refl refl (omega arith)

ada_is_confined : enforce_organization_scope old_identity 4 ≡ err (tenant_isolation 4)
unfolding enforce_organization_scope is_admin is_superadmin top_role
ada_is_confined = refl

reader_may_view :
    has_permission (record old_identity { admin_role = some read_only }) view_submissions ≡ true
unfolding has_permission is_admin role_allows permission_matrix
reader_may_view = refl
