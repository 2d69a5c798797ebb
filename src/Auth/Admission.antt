-- ===== src/Auth/Admission.antt =====
-- A token that a login hands out, as the middleware takes it: until it expires, whatever is done to
-- the account in the meantime.
use ai_interviewer.Prelude.{
  ℕ, ◌+◌, ◌≤◌, ◌<◌, String, ◌≡◌, refl, sym, ap, ◌∙◌, ◌≢◌, ◌⊎◌, inl, inr, Bool, true, false, ◌&&◌,
  none, some, arith, ltb, if◌then◌else◌, Bool-cases, find?,
}
use ai_interviewer.Prelude.Result.{ok, err}
use mathlib.Core.Path.{subst}
use ai_interviewer.Auth.Model.{
  User, Admin, Candidate, Db, Claims, IdentityContext, Crypto, Call, UserProfile, admin, candidate,
  AuthenticationResult,
}
use ai_interviewer.Auth.Tokens.{
  generate_access_token, given, has_id, or_zero, validate_access_token,
}
use ai_interviewer.Auth.Service.{Outcome, login, profile_of, issue}
use ai_interviewer.Auth.Requests.{
  dispatch, authenticate_websocket, validate_token, from_jwt_claims, after_prefix, token_expired,
  is_expired, of_claims, identified,
}
use ai_interviewer.Auth.Refresh.{change_password}
use ai_interviewer.Auth.Revocation.{change_password_access}
use ai_interviewer.Auth.Entry.{login_either}

abbrev pub of_admin : Crypto → ℕ → User → Admin → Claims
of_admin c now u a = record {
  sub = some u.id;
  user_type = some admin;
  token_version = some u.token_version;
  admin_id = some a.id;
  organization_id = some a.organization_id;
  role = some a.role;
  candidate_id = none;
  iat = some now;
  exp = some (now + c.access_token_ttl);
}

abbrev pub of_candidate : Crypto → ℕ → User → Candidate → Claims
of_candidate c now u d = record {
  sub = some u.id;
  user_type = some candidate;
  token_version = some u.token_version;
  admin_id = none;
  organization_id = none;
  role = none;
  candidate_id = some d.id;
  iat = some now;
  exp = some (now + c.access_token_ttl);
}

-- The token and the profile of a login that succeeds.
abbrev Handed : Crypto → Call → Outcome AuthenticationResult → Type 0
Handed c call (err e, after) = Unit
Handed c call (ok r, after) =
    ((u : User) × (a : Admin) × (r.access_token ≡ c.encode (of_admin c call.now u a))
      × (r.user_profile ≡ profile_of u (some a) none))
    ⊎ ((u : User) × (d : Candidate) × (r.access_token ≡ c.encode (of_candidate c call.now u d))
        × (r.user_profile ≡ profile_of u none (some d)))

admin-Handed :
    (c : Crypto) (call : Call) (db : Db) (u : User) (a : Admin)
    → u.user_type ≡ admin
    → Handed c call (issue c call u (some a) none db)
unfolding issue generate_access_token
admin-Handed c call db u a kind =
    elim (Bool-cases (given (some a.id) && given (some a.organization_id))) [
      | inl both ↦ rw (kind, both, issue, generate_access_token) (inl (u, a, refl, refl))
      | inr missing ↦ rw (kind, missing, issue, generate_access_token) tt
    ]

candidate-Handed :
    (c : Crypto) (call : Call) (db : Db) (u : User) (d : Candidate)
    → u.user_type ≡ candidate
    → Handed c call (issue c call u none (some d) db)
unfolding issue generate_access_token
candidate-Handed c call db u d kind = elim (Bool-cases (given (some d.id))) [
  | inl there ↦ rw (kind, there, issue, generate_access_token) (inr (u, d, refl, refl))
  | inr missing ↦ rw (kind, missing, issue, generate_access_token) tt
]

login-Handed :
    (c : Crypto) (call : Call) (email password : String) (db : Db)
    → Handed c call (login c call email password db)
login-Handed c call email password db =
    login_either c call email password db (Handed c call) (λ e after. tt)
      (λ u d kind. candidate-Handed c call db u d kind)
      (λ u a s _ kind _ _ _. admin-Handed c call db u a kind)

-- `f"Bearer {token}"`
abbrev pub authorization : String → String
authorization token = String.◌∷◌ "B" (
    String.◌∷◌ "e"
      (String.◌∷◌ "a" (String.◌∷◌ "r" (String.◌∷◌ "e" (String.◌∷◌ "r" (String.◌∷◌ " " token))))))

dispatch-authorization :
    (required : Bool) (c : Crypto) (now : ℕ) (token : String) (i : IdentityContext)
    → authenticate_websocket c now token ≡ ok i
    → dispatch required c now (some (authorization token)) ≡ ok (some i)
unfolding dispatch after_prefix
dispatch-authorization required c now token i e = rw (e, dispatch) refl

-- Where the claims decode and make an identity.
admitted :
    (c : Crypto) (now : ℕ) (token : String) (claims : Claims) (i : IdentityContext)
    → c.decode now token ≡ ok claims
    → from_jwt_claims claims ≡ ok i
    → now ≤ i.expires_at
    → authenticate_websocket c now token ≡ ok i
unfolding authenticate_websocket validate_token of_claims identified
admitted c now token claims i decoded built young =
    let valid : validate_token c now token ≡ ok claims = rw (decoded, validate_token) refl in
    let in_time : is_expired now i ≡ false = ground arith in
    ap (of_claims now) valid
    ∙ ap (identified now) built
    ∙ ap (λ b. if b then err token_expired else ok i) in_time

abbrev identity_admin : Crypto → ℕ → User → Admin → IdentityContext
identity_admin c at u a = record {
  user_id = u.id;
  user_type = admin;
  token_version = u.token_version;
  issued_at = at;
  expires_at = at + c.access_token_ttl;
  candidate_id = none;
  organization_id = some a.organization_id;
  admin_role = some a.role;
}

admin_identity :
    (c : Crypto) (at : ℕ) (u : User) (a : Admin)
    → 0 < c.access_token_ttl
    → from_jwt_claims (of_admin c at u a) ≡ ok (identity_admin c at u a)
unfolding from_jwt_claims
admin_identity c at u a lasts =
    let timely : ltb at (at + c.access_token_ttl) ≡ true = ground arith in rw timely refl

abbrev identity_candidate : Crypto → ℕ → User → Candidate → IdentityContext
identity_candidate c at u d = record {
  user_id = u.id;
  user_type = candidate;
  token_version = u.token_version;
  issued_at = at;
  expires_at = at + c.access_token_ttl;
  candidate_id = some d.id;
  organization_id = none;
  admin_role = none;
}

candidate_identity :
    (c : Crypto) (at : ℕ) (u : User) (d : Candidate)
    → 0 < c.access_token_ttl
    → from_jwt_claims (of_candidate c at u d) ≡ ok (identity_candidate c at u d)
unfolding from_jwt_claims
candidate_identity c at u d lasts =
    let timely : ltb at (at + c.access_token_ttl) ≡ true = ground arith in rw timely refl

-- An identity that says what a profile says.
abbrev pub Same : IdentityContext → UserProfile → Type 0
Same i p =
    (i.user_id ≡ p.user_id)
    × (i.user_type ≡ p.user_type)
    × (i.organization_id ≡ p.organization_id)
    × (i.admin_role ≡ p.admin_role)
    × (i.candidate_id ≡ p.candidate_id)

-- With tokens that decode to what was encoded from their time of issue until they expire: between
-- the login and then, the access token of any login is taken by the middleware, and by the
-- WebSocket, for the identity of the profile that the login answered with.
pub login_admits :
    (c : Crypto) (call : Call) (email password : String) (db after : Db) (r : AuthenticationResult)
    (now : ℕ) (required : Bool)
    → ((claims : Claims) (at end : ℕ)
        → claims.iat ≡ some at
        → claims.exp ≡ some end
        → at ≤ now
        → now < end
        → c.decode now (c.encode claims) ≡ ok claims)
    → login c call email password db ≡ (ok r, after)
    → call.now ≤ now
    → now < call.now + c.access_token_ttl
    → 0 < c.access_token_ttl
    → (i : IdentityContext) × (dispatch required c now (some (authorization r.access_token))
        ≡ ok (some i))
      × (authenticate_websocket c now r.access_token ≡ ok i)
      × Same i r.user_profile
unfolding profile_of
login_admits c call email password db after r now required decodes logged_on since young lasts =
    elim (subst (Handed c call) logged_on (login-Handed c call email password db)) [
      | inl (u, a, token, profile) ↦
          let cl = of_admin c call.now u a in
          let seen =
            ap (authenticate_websocket c now) token
            ∙ admitted c now (c.encode cl) cl _
                (decodes cl call.now (call.now + c.access_token_ttl) refl refl since young)
                (admin_identity c call.now u a lasts) (omega arith) in
          (
            _,
            dispatch-authorization required c now r.access_token _ seen,
            seen,
            subst (Same (identity_admin c call.now u a)) (sym profile)
                (refl, refl, refl, refl, refl),
          )
      | inr (u, d, token, profile) ↦
          let cl = of_candidate c call.now u d in
          let seen =
            ap (authenticate_websocket c now) token
            ∙ admitted c now (c.encode cl) cl _
                (decodes cl call.now (call.now + c.access_token_ttl) refl refl since young)
                (candidate_identity c call.now u d lasts) (omega arith) in
          (
            _,
            dispatch-authorization required c now r.access_token _ seen,
            seen,
            subst (Same (identity_candidate c call.now u d)) (sym profile)
                (refl, refl, refl, refl, refl),
          )
    ]

-- After a change of the password, an access token from before it that has not expired and makes an
-- identity is no longer valid for the service; the middleware and the WebSocket still take it.
pub password_change_unseen :
    (c : Crypto) (call later : Call) (id : ℕ) (current new : String) (db after : Db)
    (token : String) (u : User) (claims : Claims) (i : IdentityContext)
    (x : Claims × IdentityContext) (required : Bool)
    → change_password c call id current new db ≡ (ok tt, after)
    → find? (has_id id) db.users ≡ some u
    → c.decode later.now token ≡ ok claims
    → claims.sub ≡ some id
    → or_zero claims.token_version ≤ u.token_version
    → from_jwt_claims claims ≡ ok i
    → later.now ≤ i.expires_at
    → (validate_access_token c later.now token after ≢ ok x)
      × (dispatch required c later.now (some (authorization token)) ≡ ok (some i))
      × (authenticate_websocket c later.now token ≡ ok i)
password_change_unseen c call later id current new db after token u claims i x required done had
      decoded of_user old built young =
    let seen = admitted c later.now token claims i decoded built young in
    (
      change_password_access c call later id current new db after done token u claims x had decoded
          of_user old,
      dispatch-authorization required c later.now token i seen,
      seen,
    )
