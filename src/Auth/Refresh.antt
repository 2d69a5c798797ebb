-- ===== src/Auth/Refresh.antt =====
-- app/auth/domain/auth_service.py: refresh, logout and the change of a password.
use ai_interviewer.Prelude.{
  ℕ, ◌+◌, String, Bool, not, ◌&&◌, Option, none, some, List, map, str_eq, ltb, leb, ◌==◌,
  if◌then◌else◌, is_some, length, keep, find?,
}
use ai_interviewer.Prelude.Result.{Result, ok, err}
use ai_interviewer.Auth.Model.{
  UserType, admin, candidate, is_active, User, Admin, Candidate, RevokedReason, rotation,
  token_reuse, logged_out, password_change, RefreshToken, token_refreshed, suspicious_activity,
  logout_event, password_changed, Db, AuthError, token_not_found, token_expired, token_reused,
  user_inactive, user_unknown, current_password_incorrect, weak_password, Crypto, Call,
  AuthenticationResult,
}
use Prim.Native.String.{count}
use ai_interviewer.Auth.Tokens.{generate_access_token, has_id}
use ai_interviewer.Auth.Service.{
  Outcome, logged, new_token, with_token, belongs_admin, belongs_candidate, profile_of,
}

abbrev pub revoked : ℕ → RevokedReason → RefreshToken → RefreshToken
revoked now reason t = record t { revoked_at = some now; revoked_reason = some reason }

-- `stored_token.revoked_at = …`, on the row of that id.
abbrev pub revoke_one : ℕ → RevokedReason → ℕ → RefreshToken → RefreshToken
revoke_one now reason id t = if t.id == id then revoked now reason t else t

abbrev pub is_live : ℕ → RefreshToken → Bool
is_live who t = (t.user_id == who) && not (is_some t.revoked_at)

-- `UPDATE refresh_tokens SET revoked_at, revoked_reason WHERE user_id = :who AND revoked_at IS NULL`
abbrev pub revoke_live : ℕ → RevokedReason → ℕ → RefreshToken → RefreshToken
revoke_live now reason who t = if is_live who t then revoked now reason t else t

abbrev pub has_hash : String → RefreshToken → Bool
has_hash h t = str_eq t.token_hash h

-- `token_version or 1`
abbrev pub version_or_one : ℕ → ℕ
version_or_one v = if v == 0 then 1 else v

abbrev pub changed : String → ℕ → User → User
changed hash id u =
    if u.id == id
    then record u { password_hash = hash; token_version = version_or_one u.token_version + 1 }
    else u

abbrev pub with_tokens : (RefreshToken → RefreshToken) → Db → Db
with_tokens f db = record db { refresh_tokens = map f db.refresh_tokens }

-- `validate_complexity` finds no error.
unfoldable pub complex : Crypto → String → Bool
complex c password =
    leb 8 (count password)
    && (c.search "[A-Z]" password
        && (c.search "[a-z]" password
            && (c.search "\\d" password && c.search "[!@#$%^&*(),.?\":{}|<>]" password)))

-- The two rows that a refresh looks for, by the user's type.
unfoldable pub admin_at : UserType → ℕ → List Admin → Option Admin
admin_at admin i rows = find? (belongs_admin i) rows
admin_at candidate i rows = none

unfoldable pub candidate_at : UserType → ℕ → List Candidate → Option Candidate
candidate_at admin i rows = none
candidate_at candidate i rows = find? (belongs_candidate i) rows

abbrev pub admin_row : User → Db → Option Admin
admin_row u db = admin_at u.user_type u.id db.admins

abbrev pub candidate_row : User → Db → Option Candidate
candidate_row u db = candidate_at u.user_type u.id db.candidates

module _ (c : Crypto) (call : Call) where
  unfoldable pub rotated :
      RefreshToken
      → User
      → Option Admin
      → Option Candidate
      → Db
      → Result AuthError String
      → Outcome AuthenticationResult
  rotated stored u a d db (err e) = (err e, with_tokens (revoke_one call.now rotation stored.id) db)
  rotated stored u a d db (ok access) = (
    ok (record {
      access_token = access;
      refresh_token = call.fresh_token;
      expires_in = c.access_token_ttl;
      user_profile = profile_of u a d;
    }),
    logged (some u.id) (token_refreshed u.user_type) call (
        with_token (new_token c call db.next_id u stored.device_info)
          (with_tokens (revoke_one call.now rotation stored.id) db)),
  )

  -- `_build_candidate_profile(user, None)` raises, but the token generator has before it.
  unfoldable pub refreshed_for : RefreshToken → Db → Db → Option User → Outcome AuthenticationResult
  unfolding rotated admin_at candidate_at
  refreshed_for stored seen db none = (err user_inactive, db)
  refreshed_for stored seen db (some u) =
      if not (is_active u.status)
      then (err user_inactive, db)
      else let a = admin_row u seen in
        let d = candidate_row u seen in
        rotated stored u a d db (generate_access_token c call.now u a d)

  refresh_stored : Db → Db → Option RefreshToken → Outcome AuthenticationResult
  unfolding refreshed_for
  refresh_stored seen db none = (err token_not_found, db)
  refresh_stored seen db (some t) =
      if ltb t.expires_at call.now
      then (err token_expired, db)
      else if is_some t.revoked_at
      then (
        err token_reused,
        logged (some t.user_id) suspicious_activity call
            (with_tokens (revoke_live call.now token_reuse t.user_id) db),
      )
      else refreshed_for t seen db (find? (has_id t.user_id) seen.users)

  -- The queries lock no row, and the statements that write test none: a request that has read the
  -- rows `seen` writes on the rows `db`, as other requests have left them by then.
  unfoldable pub refresh_over : String → Db → Db → Outcome AuthenticationResult
  unfolding refresh_stored
  refresh_over token seen db =
      refresh_stored seen db (find? (has_hash (c.hash_token token)) seen.refresh_tokens)

  -- A request that nobody writes in between.
  unfoldable pub refresh_token : String → Db → Outcome AuthenticationResult
  unfolding refresh_over
  refresh_token token db = refresh_over token db db

  logout_stored : Db → Option RefreshToken → Db
  logout_stored db none = db
  logout_stored db (some t) =
      if is_some t.revoked_at
      then db
      else logged (some t.user_id) logout_event call
          (with_tokens (revoke_one call.now logged_out t.id) db)

  unfoldable pub logout : String → Db → Outcome Unit
  unfolding logout_stored
  logout token db =
      (ok tt, logout_stored db (find? (has_hash (c.hash_token token)) db.refresh_tokens))

  change_for : ℕ → String → String → Db → Option User → Outcome Unit
  unfolding complex
  change_for id current new db none = (err (user_unknown id), db)
  change_for id current new db (some u) =
      if not (c.verify_password current u.password_hash)
      then (err current_password_incorrect, db)
      else if not (complex c new)
      then (err weak_password, db)
      else (
        ok tt,
        logged (some u.id) (password_changed (length (keep (is_live u.id) db.refresh_tokens))) call
            (with_tokens (revoke_live call.now password_change u.id)
              (record db { users = map (changed (c.hash_password call.salt new) u.id) db.users })),
      )

  unfoldable pub change_password : ℕ → String → String → Db → Outcome Unit
  unfolding change_for
  change_password id current new db = change_for id current new db (find? (has_id id) db.users)
