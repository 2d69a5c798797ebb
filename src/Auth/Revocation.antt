-- ===== src/Auth/Revocation.antt =====
-- What a change of the password leaves of the sessions that were open.
use ai_interviewer.Prelude.{
  ℕ, ◌≤◌, ◌<◌, String, ◌≡◌, refl, sym, ap, ◌∙◌, ◌≢◌, inl, inr, Bool, true, false, none, some, List,
  [], ◌∷◌, map, arith, ltb, ◌==◌, Bool-cases, Option-cases, is_some, any, find?,
}
use ai_interviewer.Prelude.Result.{ok, err}
use mathlib.Core.Option
use mathlib.Core.Path.{subst}
use ai_interviewer.Prelude.Search.{found_passes, found_fails, find?-map}
use ai_interviewer.Auth.Model.{
  User, Db, RefreshToken, Claims, IdentityContext, Crypto, Call, AuthenticationResult, is_active,
  password_change,
}
use ai_interviewer.Auth.Tokens.{validate_access_token, Validation, has_id, or_zero}
use ai_interviewer.Auth.Service.{Outcome}
use ai_interviewer.Auth.Refresh.{
  change_password, changed, revoke_live, is_live, has_hash, refresh_token, complex,
}
use ai_interviewer.Auth.Rotation.{Rotated, refresh_token-Rotated}

no_live_left :
    (now who : ℕ) (ts : List RefreshToken)
    → any (is_live who) (map (revoke_live now password_change who) ts) ≡ false
no_live_left now who [] = refl
no_live_left now who (t ∷ ts) = ground (arith, no_live_left now who ts)

user_changed :
    (hash : String) (id : ℕ) (us : List User) {u : User}
    → find? (has_id id) us ≡ some u
    → find? (has_id id) (map (changed hash id) us) ≡ some (changed hash id u)
user_changed hash id us e =
    find?-map (has_id id) (changed hash id) (λ u. ground arith) us
    ∙ ap (Option.map (changed hash id)) e

-- What a change that succeeds has written.
abbrev Changed : ℕ → Db → Outcome Unit → Type 0
Changed id db (err e, after) = Unit
Changed id db (ok _, after) =
    (hash : String) × (after.users ≡ map (changed hash id) db.users)
    × (any (is_live id) after.refresh_tokens ≡ false)

change_password-Changed :
    (c : Crypto) (call : Call) (id : ℕ) (current new : String) (db : Db)
    → Changed id db (change_password c call id current new db)
unfolding change_password
change_password-Changed c call id current new db =
    elim (Option-cases (find? (has_id id) db.users)) [
      | inl gone ↦ rw (gone, change_password) tt
      | inr (u, found) ↦ elim (Bool-cases (c.verify_password current u.password_hash)) [
        | inr wrong ↦ rw (found, wrong, change_password) tt
        | inl right ↦ elim (Bool-cases (complex c new)) [
          | inr weak ↦ rw (found, right, weak, change_password) tt
          | inl strong ↦
              let same : u.id ≡ id = ground (arith, found_passes (has_id id) db.users found) in
              rw (found, right, strong, change_password)
                (
                  c.hash_password call.salt new,
                  ap (λ i. map (changed (c.hash_password call.salt new) i) db.users) same,
                  subst
                      (λ i.
                        any (is_live id)
                          (map (revoke_live call.now password_change i) db.refresh_tokens)
                        ≡ false)
                      (sym same) (no_live_left call.now id db.refresh_tokens),
                )
        ]
      ]
    ]

live_token :
    (who : ℕ) (t : RefreshToken) → is_live who t ≡ false → t.revoked_at ≡ none → t.user_id ≢ who
live_token who t dead unused same = ground (arith, ap is_some unused)

abbrev pub refused : Validation → Bool
refused (ok x) = false
refused (err e) = true

-- A token of a version that the user's row has left behind.
outdated :
    (c : Crypto) (now : ℕ) (token : String) (db : Db) (claims : Claims) (id : ℕ) (u : User)
    → find? (has_id id) db.users ≡ some u
    → c.decode now token ≡ ok claims
    → claims.sub ≡ some id
    → or_zero claims.token_version < u.token_version
    → refused (validate_access_token c now token db) ≡ true
unfolding validate_access_token
outdated c now token db claims id u had decoded of_user old =
    let behind : ltb (or_zero claims.token_version) u.token_version ≡ true = ground arith in
    elim (Bool-cases (id == 0)) [
      | inl nobody ↦ rw (decoded, of_user, nobody, validate_access_token) refl
      | inr somebody ↦ elim (Bool-cases (is_active u.status)) [
        | inl here ↦ rw (decoded, of_user, somebody, had, here, behind, validate_access_token) refl
        | inr away ↦ rw (decoded, of_user, somebody, had, away, validate_access_token) refl
      ]
    ]

-- The access tokens and the refresh tokens that a user had when the password was changed.
module _ (c : Crypto) (call later : Call) (id : ℕ) (current new : String) (db after : Db)
    (done : change_password c call id current new db ≡ (ok tt, after)) where
  written : Changed id db (ok tt, after)
  written = subst (Changed id db) done (change_password-Changed c call id current new db)

  change_password_refresh :
      (token : String) (r : AuthenticationResult) (next : Db)
      → refresh_token c later token after ≡ (ok r, next)
      → r.user_profile.user_id ≢ id
  change_password_refresh token r next refreshed same =
      let (t, more, found, unused, _, owner) =
        subst (Rotated c later token after) refreshed (refresh_token-Rotated c later token after) in
      let (hash, _, free) = written in
      let dead =
        found_fails (has_hash (c.hash_token token)) (is_live id) after.refresh_tokens free found in
      live_token id t dead unused (sym owner ∙ same)

  pub change_password_access :
      (token : String) (u : User) (claims : Claims) (x : Claims × IdentityContext)
      → find? (has_id id) db.users ≡ some u
      → c.decode later.now token ≡ ok claims
      → claims.sub ≡ some id
      → or_zero claims.token_version ≤ u.token_version
      → validate_access_token c later.now token after ≢ ok x
  change_password_access token u claims x had decoded of_user old =
      let (hash, rows, _) = written in
      let behind =
        outdated c later.now token after claims id (changed hash id u)
          (ap (find? (has_id id)) rows ∙ user_changed hash id db.users had) decoded of_user
          (ground (arith, old, found_passes (has_id id) db.users had)) in
      λ e. cc (sym (ap refused e) ∙ behind)

  -- After a change of the password: a refresh that succeeds is never one of that user's, and no
  -- access token of the user's version before the change, or of an older one, is valid.
  pub change_password_cuts_off :
      (refresh access : String) (r : AuthenticationResult) (next : Db) (u : User) (claims : Claims)
      (x : Claims × IdentityContext)
      → find? (has_id id) db.users ≡ some u
      → r.user_profile.user_id ≡ id
      → c.decode later.now access ≡ ok claims
      → claims.sub ≡ some id
      → or_zero claims.token_version ≤ u.token_version
      → (refresh_token c later refresh after ≢ (ok r, next))
        × (validate_access_token c later.now access after ≢ ok x)
  change_password_cuts_off refresh access r next u claims x had own decoded of_user old = (
    λ refreshed. change_password_refresh refresh r next refreshed own,
    change_password_access access u claims x had decoded of_user old,
  )
