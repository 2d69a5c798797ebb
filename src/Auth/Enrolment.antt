-- ===== src/Auth/Enrolment.antt =====
-- Whoever has registered can log in.
use ai_interviewer.Prelude.{
  ◌+◌, String, ◌≡◌, refl, sym, ap, ◌∙◌, ◌≢◌, inl, inr, true, false, ◌&&◌, none, some, [], ◌∷◌, ◌++◌,
  arith, str_eq, Bool-cases, Option-cases, any, find?,
}
use ai_interviewer.Prelude.Result.{ok, err}
use mathlib.Core.Path.{subst}
use ai_interviewer.Prelude.Search.{find?-append_free, find?-hit}
use text.Mathlib.TextPositions.{eq_refl}
use ai_interviewer.Auth.Model.{
  admin, Status, is_active, is_suspended, User, Admin, Db, Crypto, Call, UserProfile,
  AuthenticationResult,
}
use ai_interviewer.Auth.Tokens.{generate_access_token, given}
use ai_interviewer.Auth.Service.{Outcome, login, has_email, belongs_admin, profile_of, issue}
use ai_interviewer.Auth.Refresh.{complex}
use ai_interviewer.Auth.Registration.{
  RegisterAdminCommand, register_admin, add_admin, new_user, new_admin,
}

-- What a registration that succeeds has written.
abbrev Registered : Crypto → Call → RegisterAdminCommand → Db → Outcome UserProfile → Type 0
Registered c call command db (err e, after) = Unit
Registered c call command db (ok profile, after) =
    let u = new_user c call db.next_id command.full_name command.email command.password admin in
    let a = new_admin c call (db.next_id + 1) u.id command in
    (any (has_email c call command.email) db.users ≡ false)
    × (s : Status) × (db.organizations command.organization_id ≡ some s)
    × (is_active s ≡ true)
    × (profile ≡ profile_of u (some a) none)
    × (after.users ≡ db.users ++ u ∷ [])
    × (after.admins ≡ db.admins ++ a ∷ [])
    × (after.organizations ≡ db.organizations)

register_admin-Registered :
    (c : Crypto) (call : Call) (command : RegisterAdminCommand) (db : Db)
    → Registered c call command db (register_admin c call command db)
unfolding register_admin add_admin
register_admin-Registered c call command db = elim (Bool-cases (complex c command.password)) [
  | inr weak ↦ rw (weak, register_admin) tt
  | inl strong ↦ elim (Bool-cases (any (has_email c call command.email) db.users)) [
    | inl taken ↦ rw (strong, taken, register_admin) tt
    | inr free ↦ elim (Option-cases (db.organizations command.organization_id)) [
      | inl no_org ↦ rw (strong, free, no_org, register_admin) tt
      | inr (s, org) ↦ elim (Bool-cases (is_active s)) [
        | inr closed ↦ rw (strong, free, org, closed, register_admin) tt
        | inl opened ↦
            rw (strong, free, org, opened, register_admin)
              (free, s, org, opened, refl, refl, refl, refl)
      ]
    ]
  ]
]

-- A login of an administrator through all its tests.
login_through :
    (c : Crypto) (call : Call) (email password : String) (db : Db) (v : User) (a : Admin)
    (s : Status)
    → let u = record v { user_type = admin } in
      find? (has_email c call email) db.users ≡ some u
      → c.verify_password password v.password_hash ≡ true
      → is_active v.status ≡ true
      → find? (belongs_admin v.id) db.admins ≡ some a
      → is_active a.status ≡ true
      → db.organizations a.organization_id ≡ some s
      → is_active s ≡ true
      → login c call email password db ≡ issue c call u (some a) none db
unfolding login
login_through c call email password db v a s found right here had on org opened =
    let up : is_suspended s ≡ false = ground arith in
    rw (found, right, here, had, on, org, up, opened, login) refl

issued :
    (c : Crypto) (call : Call) (db : Db) (u : User) (a : Admin)
    → u.user_type ≡ admin
    → given (some a.id) && given (some a.organization_id) ≡ true
    → (r : AuthenticationResult) × (later : Db) × (issue c call u (some a) none db ≡ (ok r, later))
      × (r.user_profile ≡ profile_of u (some a) none)
unfolding issue generate_access_token profile_of
issued c call db u a kind both = rw (kind, both, issue, generate_access_token) (_, _, refl, refl)

-- With hashes that verify and organizations that have no id 0: an administrator who has registered
-- can log in at once, in whatever case the email is written, and is answered with the same profile,
-- if no row of an administrator was there for the new user's id.
pub registered_logs_in :
    (c : Crypto) (call later : Call) (command : RegisterAdminCommand) (db after : Db)
    (profile : UserProfile) (email : String)
    → c.verify_password command.password (c.hash_password call.salt command.password) ≡ true
    → register_admin c call command db ≡ (ok profile, after)
    → c.lower email ≡ c.lower command.email
    → any (belongs_admin db.next_id) db.admins ≡ false
    → command.organization_id ≢ 0
    → (r : AuthenticationResult) × (next : Db) × (login c later email command.password after
        ≡ (ok r, next))
      × (r.user_profile ≡ profile)
registered_logs_in c call later command db after profile email verifies done same fresh org_id =
    let (free, s, org, opened, made, users, admins, orgs) =
      subst (Registered c call command db) done (register_admin-Registered c call command db) in
    let u = new_user c call db.next_id command.full_name command.email command.password admin in
    let a = new_admin c call (db.next_id + 1) u.id command in
    let found : find? (has_email c later email) after.users ≡ some u =
      ap (find? (has_email c later email)) users
      ∙ find?-append_free (has_email c later email) db.users (u ∷ [])
          (ap (λ l. any (λ (x : User). str_eq (c.lower x.email) l) db.users) same ∙ free)
      ∙ find?-hit (has_email c later email) u []
          (ap (str_eq (c.lower command.email)) same ∙ eq_refl (c.lower command.email)) in
    let had : find? (belongs_admin u.id) after.admins ≡ some a =
      ap (find? (belongs_admin u.id)) admins
      ∙ find?-append_free (belongs_admin u.id) db.admins (a ∷ []) fresh
      ∙ find?-hit (belongs_admin u.id) a [] (ground arith) in
    let (r, next, e, p) = issued c later after u a refl (ground (arith, org_id)) in
    (
      r,
      next,
      login_through c later email command.password after u a s found verifies refl had refl
            (ap (λ f. f command.organization_id) orgs ∙ org) opened
          ∙ e,
      p ∙ sym made,
    )
