-- ===== src/Auth/Registration.antt =====
-- app/auth/domain/auth_service.py: the registration of administrators and candidates, and the
-- profile of the current user. One counter,
-- `next_id`, stands for the sequences of the tables. Of a candidate's profile the full name is kept.
use ai_interviewer.Prelude.{
  ℕ, ◌+◌, String, not, Option, none, some, [], ◌∷◌, ◌++◌, ◌==◌, if◌then◌else◌, any, find?,
}
use ai_interviewer.Prelude.Result.{Result, ok, err}
use Prim.Native.Char.{code}
use ai_interviewer.Auth.Model.{
  AdminRole, UserType, admin, candidate, Status, active, is_active, User, Admin, Candidate,
  user_registered, Db, AuthError, weak_password, email_taken, organization_unknown,
  organization_not_active, admin_missing, candidate_missing, user_unknown, Crypto, Call,
  UserProfile,
}
use ai_interviewer.Auth.Tokens.{has_id}
use ai_interviewer.Auth.Service.{
  Outcome, logged, profile_of, has_email, belongs_admin, belongs_candidate,
}
use ai_interviewer.Auth.Refresh.{complex}

pub record RegisterAdminCommand : Type 0 where
  pub email : String
  pub password : String
  pub organization_id : ℕ
  pub admin_role : AdminRole
  pub full_name : Option String

pub record RegisterCandidateCommand : Type 0 where
  pub email : String
  pub password : String
  pub full_name : Option String

-- `email.split('@')[0]`
unfoldable pub before_at : String → String
before_at String.[] = String.[]
before_at (String.◌∷◌ ch s) =
    let rest = before_at s in if code ch == 64 then String.[] else String.◌∷◌ ch rest

abbrev truthy : Option String → Option String
truthy none = none
truthy (some String.[]) = none
truthy (some (String.◌∷◌ ch s)) = some (String.◌∷◌ ch s)

abbrev shown_name : Option String → String → String
shown_name none email = before_at email
shown_name (some name) email = name

module _ (c : Crypto) (call : Call) where
  -- `User(…)`
  abbrev pub new_user : ℕ → Option String → String → String → UserType → User
  new_user id full_name email password kind = record {
    id = id;
    name = shown_name (truthy full_name) email;
    email = email;
    password_hash = c.hash_password call.salt password;
    user_type = kind;
    status = active;
    token_version = 1;
    last_login_at = none;
  }

  abbrev pub new_admin : ℕ → ℕ → RegisterAdminCommand → Admin
  new_admin id user_id command = record {
    id = id;
    user_id = user_id;
    organization_id = command.organization_id;
    role = command.admin_role;
    status = active;
  }

  abbrev pub new_candidate : ℕ → ℕ → RegisterCandidateCommand → Candidate
  new_candidate id user_id command = record {
    id = id;
    user_id = user_id;
    plan = "free";
    status = active;
    full_name = truthy command.full_name;
  }

  -- From the hash of the password on.
  unfoldable pub add_admin : RegisterAdminCommand → Db → Outcome UserProfile
  add_admin command db =
      let u = new_user db.next_id command.full_name command.email command.password admin in
      let a = new_admin (db.next_id + 1) u.id command in
      (
        ok (profile_of u (some a) none),
        logged (some u.id) (user_registered admin) call (record db {
          users = db.users ++ u ∷ [];
          admins = db.admins ++ a ∷ [];
          next_id = db.next_id + 2;
        }),
      )

  unfoldable pub add_candidate : RegisterCandidateCommand → Db → Outcome UserProfile
  add_candidate command db =
      let u = new_user db.next_id command.full_name command.email command.password candidate in
      let d = new_candidate (db.next_id + 1) u.id command in
      (
        ok (profile_of u none (some d)),
        logged (some u.id) (user_registered candidate) call (record db {
          users = db.users ++ u ∷ [];
          candidates = db.candidates ++ d ∷ [];
          next_id = db.next_id + 2;
        }),
      )

  in_organization : RegisterAdminCommand → Db → Option Status → Outcome UserProfile
  unfolding add_admin
  in_organization command db none = (err (organization_unknown command.organization_id), db)
  in_organization command db (some s) =
      if is_active s then add_admin command db else (err (organization_not_active s), db)

  unfoldable pub register_admin : RegisterAdminCommand → Db → Outcome UserProfile
  unfolding in_organization
  register_admin command db =
      if not (complex c command.password)
      then (err weak_password, db)
      else if any (has_email c call command.email) db.users
      then (err email_taken, db)
      else in_organization command db (db.organizations command.organization_id)

  unfoldable pub register_candidate : RegisterCandidateCommand → Db → Outcome UserProfile
  unfolding add_candidate
  register_candidate command db =
      if not (complex c command.password)
      then (err weak_password, db)
      else if any (has_email c call command.email) db.users
      then (err email_taken, db)
      else add_candidate command db

admin_profile : User → Option Admin → Result AuthError UserProfile
admin_profile u none = err (admin_missing u.id)
admin_profile u (some a) = ok (profile_of u (some a) none)

candidate_profile : User → Option Candidate → Result AuthError UserProfile
candidate_profile u none = err (candidate_missing u.id)
candidate_profile u (some d) = ok (profile_of u none (some d))

profile_found : ℕ → Db → Option User → Result AuthError UserProfile
unfolding admin_profile candidate_profile
profile_found id db none = err (user_unknown id)
profile_found id db (some u) = elim u.user_type [
  | admin ↦ admin_profile u (find? (belongs_admin u.id) db.admins)
  | candidate ↦ candidate_profile u (find? (belongs_candidate u.id) db.candidates)
]

unfoldable pub get_current_user : ℕ → Db → Result AuthError UserProfile
unfolding profile_found
get_current_user id db = profile_found id db (find? (has_id id) db.users)
