-- ===== src/Auth/Validity.antt =====
-- The access tokens that a login hands out, sent back to the validation.
use ai_interviewer.Prelude.{
  ℕ, ◌+◌, ◌<◌, String, ◌≡◌, refl, sym, ap, ◌∙◌, ◌≢◌, ◌⊎◌, inl, inr, true, false, ◌&&◌, none, some,
  List, map, arith, ltb, ◌==◌, Bool-cases, Option-cases, is_some, find?,
}
use ai_interviewer.Prelude.Result.{ok, err, Result-cases}
use mathlib.Core.Option
use mathlib.Core.Path.{subst}
use ai_interviewer.Prelude.Search.{find?-map}
use ai_interviewer.Auth.Model.{
  User, Admin, Candidate, Db, Claims, IdentityContext, Crypto, Call, claims_incomplete, UserProfile,
  admin, candidate, is_active, is_suspended, Status, AuthenticationResult,
}
use ai_interviewer.Auth.Tokens.{
  validate_access_token, has_id, or_zero, generate_access_token, build_identity_context, given,
}
use ai_interviewer.Auth.Service.{Outcome, login, has_email, profile_of, issue, logged_in}
use ai_interviewer.Auth.Revocation.{refused}
use ai_interviewer.Auth.Entry.{login_either}

-- No identity is built for a candidate.
candidate_unbuilt :
    (claims : Claims)
    → claims.user_type ≡ some candidate
    → refused (build_identity_context claims) ≡ true
unfolding build_identity_context
candidate_unbuilt claims e = elim (Option-cases claims.sub) [
  | inl gone ↦ rw (e, gone, build_identity_context) refl
  | inr (i, had) ↦ elim (Option-cases claims.iat) [
    | inl gone ↦ rw (e, had, gone, build_identity_context) refl
    | inr (s, begun) ↦ elim (Option-cases claims.exp) [
      | inl gone ↦ rw (e, had, begun, gone, build_identity_context) refl
      | inr (x, ends) ↦ elim (Bool-cases (is_some claims.organization_id)) [
        | inl here ↦ rw (e, had, begun, ends, here, build_identity_context) refl
        | inr away ↦ elim (Bool-cases (is_some claims.role)) [
          | inl role ↦ rw (e, had, begun, ends, away, role, build_identity_context) refl
          | inr free ↦ rw (e, had, begun, ends, away, free, build_identity_context) refl
        ]
      ]
    ]
  ]
]

-- Whatever the rows and the time: a token whose claims are a candidate's is never valid.
pub candidate_never_valid :
    (c : Crypto) (now : ℕ) (token : String) (db : Db) (claims : Claims)
    → c.decode now token ≡ ok claims
    → claims.user_type ≡ some candidate
    → refused (validate_access_token c now token db) ≡ true
unfolding validate_access_token
candidate_never_valid c now token db claims decoded kind = elim (Option-cases claims.sub) [
  | inl gone ↦ rw (decoded, gone, validate_access_token) refl
  | inr (i, of_user) ↦ elim (Bool-cases (i == 0)) [
    | inl nobody ↦ rw (decoded, of_user, nobody, validate_access_token) refl
    | inr somebody ↦ elim (Option-cases (find? (has_id i) db.users)) [
      | inl lost ↦ rw (decoded, of_user, somebody, lost, validate_access_token) refl
      | inr (u, had) ↦ elim (Bool-cases (is_active u.status)) [
        | inr away ↦ rw (decoded, of_user, somebody, had, away, validate_access_token) refl
        | inl here ↦ elim (Bool-cases (ltb (or_zero claims.token_version) u.token_version)) [
          | inl old ↦ rw (decoded, of_user, somebody, had, here, old, validate_access_token) refl
          | inr young ↦
              rw (decoded, of_user, somebody, had, here, young, kind, validate_access_token)
                (candidate_unbuilt (record claims { sub = some i; user_type = some candidate })
                  refl)
        ]
      ]
    ]
  ]
]

-- What a login of an administrator has made of the row of the user.
abbrev Login : Crypto → Call → String → Db → Outcome AuthenticationResult → Type 0
Login c call email db (err e, after) = Unit
Login c call email db (ok r, after) =
    (r.user_profile.user_type ≡ candidate)
    ⊎ ((u : User) × (a : Admin) × (s : Status) × (find? (has_email c call email) db.users ≡ some u)
        × (u.user_type ≡ admin)
        × (is_active u.status ≡ true)
        × (db.organizations a.organization_id ≡ some s)
        × (is_active s ≡ true)
        × (generate_access_token c call.now u (some a) none ≡ ok r.access_token)
        × (r.user_profile ≡ profile_of u (some a) none)
        × (after.users ≡ map (logged_in u.id call.now) db.users)
        × (after.organizations ≡ db.organizations))

candidate-Login :
    (c : Crypto) (call : Call) (email : String) (db : Db) (u : User) (d : Candidate)
    → Login c call email db (issue c call u none (some d) db)
unfolding issue profile_of
candidate-Login c call email db u d =
    elim (Result-cases (generate_access_token c call.now u none (some d))) [
      | inr (e, bad) ↦ rw (bad, issue) tt
      | inl (access, good) ↦ rw (good, issue) (inl refl)
    ]

admin-Login :
    (c : Crypto) (call : Call) (email : String) (db : Db) (u : User) (a : Admin) (s : Status)
    → find? (has_email c call email) db.users ≡ some u
    → u.user_type ≡ admin
    → is_active u.status ≡ true
    → db.organizations a.organization_id ≡ some s
    → is_active s ≡ true
    → Login c call email db (issue c call u (some a) none db)
unfolding issue
admin-Login c call email db u a s found kind here org opened =
    elim (Result-cases (generate_access_token c call.now u (some a) none)) [
      | inr (e, bad) ↦ rw (bad, issue) tt
      | inl (access, good) ↦
          rw (good, issue) (inr (u, a, s, found, kind, here, org, opened, good, refl, refl, refl))
    ]

login-Login :
    (c : Crypto) (call : Call) (email password : String) (db : Db)
    → Login c call email db (login c call email password db)
login-Login c call email password db =
    login_either c call email password db (Login c call email db) (λ e after. tt)
      (λ u d kind. candidate-Login c call email db u d)
      (λ u a s found kind here org opened.
        admin-Login c call email db u a s found kind here org opened)

abbrev admin_claims_of : Crypto → ℕ → User → Admin → Claims
admin_claims_of c now u a = record {
  sub = some u.id;
  user_type = some admin;
  token_version = some u.token_version;
  admin_id = some a.id;
  organization_id = some a.organization_id;
  role = some a.role;
  candidate_id = none;
  iat = some now;
  exp = some (now + c.access_token_ttl);
}

admin_token :
    (c : Crypto) (now : ℕ) (u : User) (a : Admin) (access : String)
    → u.user_type ≡ admin
    → generate_access_token c now u (some a) none ≡ ok access
    → access ≡ c.encode (admin_claims_of c now u a)
unfolding generate_access_token
admin_token c now u a access kind e =
    elim (Bool-cases (given (some a.id) && given (some a.organization_id))) [
      | inl both ↦
          let made : generate_access_token c now u (some a) none
              ≡ ok (c.encode (admin_claims_of c now u a)) =
            rw (kind, both, generate_access_token) refl in
          cc (sym e ∙ made)
      | inr missing ↦
          let made : generate_access_token c now u (some a) none ≡ err claims_incomplete =
            rw (kind, missing, generate_access_token) refl in
          absurd (cc (sym e ∙ made))
    ]

same_user :
    (now : ℕ) (u : User) (us : List User)
    → find? (has_id u.id) us ≡ some u
    → find? (has_id u.id) (map (logged_in u.id now) us) ≡ some (logged_in u.id now u)
same_user now u us e =
    find?-map (has_id u.id) (logged_in u.id now) (λ x. ground arith) us
    ∙ ap (Option.map (logged_in u.id now)) e

abbrev identity_of : Crypto → ℕ → User → Admin → IdentityContext
identity_of c at u a = record {
  user_id = u.id;
  user_type = admin;
  token_version = u.token_version;
  issued_at = at;
  expires_at = at + c.access_token_ttl;
  candidate_id = none;
  organization_id = some a.organization_id;
  admin_role = some a.role;
}

active_up : (s : Status) → is_active s ≡ true → is_suspended s ≡ false
active_up s e = ground arith

admin_valid :
    (c : Crypto) (at now : ℕ) (after : Db) (u v : User) (a : Admin) (s : Status)
    → c.decode now (c.encode (admin_claims_of c at u a)) ≡ ok (admin_claims_of c at u a)
    → find? (has_id u.id) after.users ≡ some v
    → is_active v.status ≡ true
    → v.token_version ≡ u.token_version
    → after.organizations a.organization_id ≡ some s
    → is_active s ≡ true
    → u.id ≢ 0
    → 0 < c.access_token_ttl
    → validate_access_token c now (c.encode (admin_claims_of c at u a)) after
      ≡ ok (admin_claims_of c at u a, identity_of c at u a)
unfolding validate_access_token build_identity_context
admin_valid c at now after u v a s decoded had here same org opened real lasts =
    let somebody : u.id == 0 ≡ false = ground arith in
    let young : ltb u.token_version v.token_version ≡ false = ground arith in
    let timely : ltb at (at + c.access_token_ttl) ≡ true = ground arith in
    let up : is_suspended s ≡ false = active_up s opened in
    elim (Bool-cases (a.organization_id == 0)) [
      | inl zero_org ↦
          rw (decoded, somebody, had, here, young, zero_org, timely, validate_access_token) refl
      | inr some_org ↦
          rw (decoded, somebody, had, here, young, some_org, org, up, timely, validate_access_token)
            refl
    ]

-- With tokens that decode to what was encoded until they expire: the access token of an
-- administrator's login is valid until then, on the rows as the login leaves them and with no other
-- row of the user's id before it, and names the user, the organization and the role of the profile.
pub login_validates :
    (c : Crypto) (call : Call) (email password : String) (db after : Db) (r : AuthenticationResult)
    (u : User) (now : ℕ)
    → ((claims : Claims) (end : ℕ)
        → claims.exp ≡ some end
        → now < end
        → c.decode now (c.encode claims) ≡ ok claims)
    → login c call email password db ≡ (ok r, after)
    → r.user_profile.user_type ≡ admin
    → find? (has_email c call email) db.users ≡ some u
    → find? (has_id u.id) db.users ≡ some u
    → u.id ≢ 0
    → now < call.now + c.access_token_ttl
    → 0 < c.access_token_ttl
    → (claims : Claims) × (i : IdentityContext) × (validate_access_token c now r.access_token after
        ≡ ok (claims, i))
      × (i.user_id ≡ r.user_profile.user_id)
      × (some i.user_type ≡ claims.user_type)
      × (i.organization_id ≡ r.user_profile.organization_id)
      × (i.admin_role ≡ r.user_profile.admin_role)
unfolding profile_of
login_validates c call email password db after r u now decodes logged_on kind found own real young
      lasts =
    elim (subst (Login c call email db) logged_on (login-Login c call email password db)) [
      | inl as_candidate ↦ absurd (cc (sym kind ∙ as_candidate))
      | inr (x, a, s, found_x, kind_x, here, org, opened, good, profile, users, orgs) ↦
          let same : x ≡ u = cc (sym found_x ∙ found) in
          let made = admin_token c call.now x a r.access_token kind_x good in
          let back =
            admin_valid c call.now now after x (logged_in x.id call.now x) a s
              (decodes (admin_claims_of c call.now x a) (call.now + c.access_token_ttl) refl young)
              (ap (find? (has_id x.id)) users
                ∙ same_user call.now x db.users
                    (subst (λ y. find? (has_id y.id) db.users ≡ some y) (sym same) own))
              (ground (arith, here)) (ground arith) (ap (λ f. f a.organization_id) orgs ∙ org)
              opened (subst (λ y. y.id ≢ 0) (sym same) real) lasts in
          (
            admin_claims_of c call.now x a,
            identity_of c call.now x a,
            ap (λ t. validate_access_token c now t after) made ∙ back,
            sym (ap (λ (y : UserProfile). y.user_id) profile),
            refl,
            sym (ap (λ (y : UserProfile). y.organization_id) profile),
            sym (ap (λ (y : UserProfile). y.admin_role) profile),
          )
    ]
