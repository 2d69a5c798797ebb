-- ===== src/Auth/Entry.antt =====
-- The ways a login can end.
use ai_interviewer.Prelude.{
  String, ◌≡◌, refl, ◌⊎◌, inl, inr, true, none, some, Bool-cases, Option-cases, find?,
}
use ai_interviewer.Prelude.Result.{err}
use ai_interviewer.Auth.Model.{
  User, Admin, Candidate, Db, Crypto, Call, AuthError, UserType, admin, candidate, is_active,
  is_suspended, Status, AuthenticationResult,
}
use ai_interviewer.Auth.Service.{Outcome, login, has_email, belongs_admin, belongs_candidate, issue}

pub UserType-cases : (t : UserType) → (t ≡ admin) ⊎ (t ≡ candidate)
UserType-cases admin = inl refl
UserType-cases candidate = inr refl

-- A login fails, or is a candidate's or an administrator's.
module _ (c : Crypto) (call : Call) (email password : String) (db : Db)
    (P : Outcome AuthenticationResult → Type 0)
    (on_error : (e : AuthError) (after : Db) → P (err e, after))
    (on_candidate : (u : User) (d : Candidate)
      → u.user_type ≡ candidate
      → P (issue c call u none (some d) db))
    (on_admin : (u : User) (a : Admin) (s : Status)
      → find? (has_email c call email) db.users ≡ some u
      → u.user_type ≡ admin
      → is_active u.status ≡ true
      → db.organizations a.organization_id ≡ some s
      → is_active s ≡ true
      → P (issue c call u (some a) none db)) where
  pub login_either : P (login c call email password db)
  unfolding login
  login_either = elim (Option-cases (find? (has_email c call email) db.users)) [
    | inl gone ↦ rw (gone, login) (on_error _ _)
    | inr (u, found) ↦ elim (Bool-cases (c.verify_password password u.password_hash)) [
      | inr wrong ↦ rw (found, wrong, login) (on_error _ _)
      | inl right ↦ elim (Bool-cases (is_active u.status)) [
        | inr away ↦ rw (found, right, away, login) (on_error _ _)
        | inl here ↦ elim (UserType-cases u.user_type) [
          | inr kind ↦ elim (Option-cases (find? (belongs_candidate u.id) db.candidates)) [
            | inl none_there ↦ rw (found, right, here, kind, none_there, login) (on_error _ _)
            | inr (d, had) ↦ rw (found, right, here, kind, had, login) (on_candidate u d kind)
          ]
          | inl kind ↦ elim (Option-cases (find? (belongs_admin u.id) db.admins)) [
            | inl none_there ↦ rw (found, right, here, kind, none_there, login) (on_error _ _)
            | inr (a, had) ↦ elim (Bool-cases (is_active a.status)) [
              | inr off ↦ rw (found, right, here, kind, had, off, login) (on_error _ _)
              | inl on ↦ elim (Option-cases (db.organizations a.organization_id)) [
                | inl no_org ↦ rw (found, right, here, kind, had, on, no_org, login) (on_error _ _)
                | inr (s, org) ↦ elim (Bool-cases (is_suspended s)) [
                  | inl shut ↦
                      rw (found, right, here, kind, had, on, org, shut, login) (on_error _ _)
                  | inr not_shut ↦ elim (Bool-cases (is_active s)) [
                    | inr closed ↦
                        rw (found, right, here, kind, had, on, org, not_shut, closed, login)
                          (on_error _ _)
                    | inl opened ↦
                        rw (found, right, here, kind, had, on, org, not_shut, opened, login)
                          (on_admin u a s found kind here org opened)
                  ]
                ]
              ]
            ]
          ]
        ]
      ]
    ]
  ]
