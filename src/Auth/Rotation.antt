-- ===== src/Auth/Rotation.antt =====
-- What becomes of a refresh token that was used.
use ai_interviewer.Prelude.{
  ℕ, ◌≤◌, String, ◌≡◌, refl, sym, ap, ◌∙◌, ◌⊎◌, inl, inr, false, Option, none, some, List, [], ◌∷◌,
  ◌++◌, map, arith, ltb, Bool-cases, Option-cases, is_some, any, find?,
}
use ai_interviewer.Prelude.Result.{Result, ok, err, Result-cases}
use mathlib.Core.Option
use mathlib.Core.Path.{subst}
use ai_interviewer.Prelude.Search.{found_passes, find?-map, find?-append}
use ai_interviewer.Auth.Model.{
  RefreshToken, Db, User, Admin, Candidate, AuthError, token_expired, token_reused, rotation,
  Crypto, Call, AuthenticationResult, is_active, token_reuse,
}
use ai_interviewer.Auth.Tokens.{generate_access_token, has_id}
use ai_interviewer.Auth.Service.{Outcome, requested, profile_of}
use ai_interviewer.Auth.Refresh.{
  revoked, revoke_one, revoke_live, is_live, has_hash, refresh_token, refresh_over, refreshed_for,
  rotated, admin_row, candidate_row,
}
use ai_interviewer.Auth.Overlap.{refresh_answer}

revoke_self : (now : ℕ) (t : RefreshToken) → revoke_one now rotation t.id t ≡ revoked now rotation t
revoke_self now t = ground arith

revoke_hash :
    (h : String) (now id : ℕ) (t : RefreshToken)
    → has_hash h (revoke_one now rotation id t) ≡ has_hash h t
revoke_hash h now id t = ground arith

-- The first row of a hash, after the row of that id was revoked and others were added.
find-revoke :
    (h : String) (now : ℕ) (ts more : List RefreshToken) (t : RefreshToken)
    → find? (has_hash h) ts ≡ some t
    → find? (has_hash h) (map (revoke_one now rotation t.id) ts ++ more)
      ≡ some (revoked now rotation t)
find-revoke h now ts more t e =
    find?-append (has_hash h) (map (revoke_one now rotation t.id) ts) more (
      find?-map (has_hash h) (revoke_one now rotation t.id) (revoke_hash h now t.id) ts
      ∙ ap (Option.map (revoke_one now rotation t.id)) e
      ∙ ap some (revoke_self now t))

-- What a refresh that succeeds has done to the tokens.
abbrev pub Rotated : Crypto → Call → String → Db → Outcome AuthenticationResult → Type 0
Rotated c call token db (err e, after) = Unit
Rotated c call token db (ok r, after) =
    (t : RefreshToken) × (more : List RefreshToken) × (find? (has_hash (c.hash_token token))
        db.refresh_tokens
      ≡ some t)
    × (t.revoked_at ≡ none)
    × (after.refresh_tokens ≡ map (revoke_one call.now rotation t.id) db.refresh_tokens ++ more)
    × (r.user_profile.user_id ≡ t.user_id)

owner_of :
    (a : Option Admin) (d : Option Candidate) (u : User) (t : RefreshToken) (db : Db)
    → find? (has_id t.user_id) db.users ≡ some u
    → (profile_of u a d).user_id ≡ t.user_id
unfolding profile_of
owner_of none d u t db e = ground (arith, found_passes (has_id t.user_id) db.users e)
owner_of (some a) d u t db e = ground (arith, found_passes (has_id t.user_id) db.users e)

refreshed_for-Rotated :
    (c : Crypto) (call : Call) (token : String) (db : Db) (t : RefreshToken)
    → find? (has_hash (c.hash_token token)) db.refresh_tokens ≡ some t
    → t.revoked_at ≡ none
    → (who : Option User) → who ≡ find? (has_id t.user_id) db.users
    → Rotated c call token db (refreshed_for c call t db db who)
unfolding refreshed_for rotated
refreshed_for-Rotated c call token db t found unused none e = tt
refreshed_for-Rotated c call token db t found unused (some u) e =
    elim (Bool-cases (is_active u.status)) [
      | inr away ↦ rw (away, refreshed_for) tt
      | inl here ↦
          elim (Result-cases
            (generate_access_token c call.now u (admin_row u db) (candidate_row u db))) [
              | inr (e, bad) ↦ rw (here, bad, refreshed_for) tt
              | inl (access, good) ↦
                  rw (here, good, refreshed_for)
                    (
                      t,
                      _,
                      found,
                      unused,
                      refl,
                      owner_of (admin_row u db) (candidate_row u db) u t db (sym e),
                    )
            ]
    ]

pub refresh_token-Rotated :
    (c : Crypto) (call : Call) (token : String) (db : Db)
    → Rotated c call token db (refresh_token c call token db)
unfolding refresh_token
refresh_token-Rotated c call token db =
    elim (Option-cases (find? (has_hash (c.hash_token token)) db.refresh_tokens)) [
      | inl gone ↦ rw (gone, refresh_token) tt
      | inr (t, found) ↦ elim (Bool-cases (ltb t.expires_at call.now)) [
        | inl old ↦ rw (found, old, refresh_token) tt
        | inr fresh ↦ elim (Option-cases t.revoked_at) [
          | inr (at, used) ↦ rw (found, fresh, used, refresh_token) tt
          | inl unused ↦
              let free : is_some t.revoked_at ≡ false = ap is_some unused in
              rw (found, fresh, free, refresh_token)
                (refreshed_for-Rotated c call token db t found unused
                  (find? (has_id t.user_id) db.users) refl)
        ]
      ]
    ]

-- A token that has been refreshed is refused from then on.
second_refused :
    (c : Crypto) (call : Call) (token : String) (db : Db) (t : RefreshToken) (at : ℕ)
    → find? (has_hash (c.hash_token token)) db.refresh_tokens ≡ some t
    → t.revoked_at ≡ some at
    → ((refresh_token c call token db).0 ≡ err token_expired)
      ⊎ ((refresh_token c call token db).0 ≡ err token_reused)
unfolding refresh_token
second_refused c call token db t at found used = elim (Bool-cases (ltb t.expires_at call.now)) [
  | inl old ↦ inl (rw (found, old, refresh_token) refl)
  | inr fresh ↦ inr (rw (found, fresh, ap is_some used, refresh_token) refl)
]

requested-Rotated :
    (c : Crypto) (call : Call) (token : String) (db : Db) (x : Outcome AuthenticationResult)
    → Rotated c call token db x
    → Rotated c call token db (requested x db)
requested-Rotated c call token db (ok r, after) h = h
requested-Rotated c call token db (err e, after) h = tt

requested_err :
    {A : Type 0} (x : Outcome A) (db : Db) (e : AuthError)
    → x.0 ≡ err e
    → requested x db ≡ (err e, db)
requested_err (ok a, after) db e h = cc
requested_err (err f, after) db e h = ap (λ (r : Result AuthError _). (r, db)) h

answer-requested :
    {A : Type 0} (x y : Outcome A) (a b : Db) → x.0 ≡ y.0 → (requested x a).0 ≡ (requested y b).0
answer-requested (ok r, _) (ok q, _) a b e = e
answer-requested (err r, _) (err q, _) a b e = e
answer-requested (ok r, _) (err q, _) a b e = cc
answer-requested (err r, _) (ok q, _) a b e = cc

-- Of a refresh token that a request has exchanged: a request that reads the token's row as the first
-- one has left it, with whatever other rows, is refused, as expired or as reused, and the rows stay
-- as they are; but a request that had read the rows before the first one wrote answers after it
-- what it would have answered alone, so that it exchanges the token once more where it would have
-- then.
pub refreshed_once_unless_overlapping :
    (c : Crypto) (call later other : Call) (token : String) (db after rows : Db)
    (r : AuthenticationResult)
    → requested (refresh_token c call token db) db ≡ (ok r, after)
    → find? (has_hash (c.hash_token token)) rows.refresh_tokens
      ≡ find? (has_hash (c.hash_token token)) after.refresh_tokens
    → ((requested (refresh_token c later token rows) rows ≡ (err token_expired, rows))
        ⊎ (requested (refresh_token c later token rows) rows ≡ (err token_reused, rows)))
      × ((requested (refresh_over c other token db after) after).0
          ≡ (requested (refresh_token c other token db) db).0)
refreshed_once_unless_overlapping c call later other token db after rows r done as_left =
    let (t, more, found, _, kept, _) = subst (Rotated c call token db) done (
      requested-Rotated c call token db (refresh_token c call token db)
        (refresh_token-Rotated c call token db)) in
    let now_found =
      as_left
      ∙ ap (find? (has_hash (c.hash_token token))) kept
      ∙ find-revoke (c.hash_token token) call.now db.refresh_tokens more t found in
    (
      elim (second_refused c later token rows (revoked call.now rotation t) call.now now_found
          refl) [
            | inl old ↦
                inl (requested_err (refresh_token c later token rows) rows token_expired old)
            | inr used ↦
                inr (requested_err (refresh_token c later token rows) rows token_reused used)
          ],
      answer-requested (refresh_over c other token db after) (refresh_token c other token db) after
          db (refresh_answer c other token db after),
    )

no_live_after :
    (now who : ℕ) (ts : List RefreshToken)
    → any (is_live who) (map (revoke_live now token_reuse who) ts) ≡ false
no_live_after now who [] = refl
no_live_after now who (t ∷ ts) = ground (arith, no_live_after now who ts)

-- Where a revoked, unexpired token is sent again, the service revokes every token of its owner, and
-- then raises; the request, which ends in the exception, rolls that back.
pub reuse_rolled_back :
    (c : Crypto) (call : Call) (token : String) (db : Db) (t : RefreshToken) (at : ℕ)
    → find? (has_hash (c.hash_token token)) db.refresh_tokens ≡ some t
    → t.revoked_at ≡ some at
    → call.now ≤ t.expires_at
    → ((refresh_token c call token db).0 ≡ err token_reused)
      × (any (is_live t.user_id) (refresh_token c call token db).1.refresh_tokens ≡ false)
      × (requested (refresh_token c call token db) db ≡ (err token_reused, db))
unfolding refresh_token
reuse_rolled_back c call token db t at found used fresh =
    let not_old : ltb t.expires_at call.now ≡ false = ground arith in
    let reused : (refresh_token c call token db).0 ≡ err token_reused =
      rw (found, not_old, ap is_some used, refresh_token) refl in
    (
      reused,
      rw (found, not_old, ap is_some used, refresh_token)
          (no_live_after call.now t.user_id db.refresh_tokens),
      requested_err (refresh_token c call token db) db token_reused reused,
    )
