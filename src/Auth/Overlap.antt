-- ===== src/Auth/Overlap.antt =====
-- Refreshes that overlap: one that has read the rows before another one writes.
use ai_interviewer.Prelude.{
  String, ◌≡◌, refl, inl, inr, Option, none, some, ltb, Bool-cases, Option-cases, is_some, find?,
}
use ai_interviewer.Prelude.Result.{Result, ok, err}
use ai_interviewer.Auth.Model.{
  RefreshToken, Db, User, Admin, Candidate, AuthError, Crypto, Call, is_active,
}
use ai_interviewer.Auth.Tokens.{generate_access_token, has_id}
use ai_interviewer.Auth.Refresh.{
  has_hash, refresh_token, refresh_over, refreshed_for, rotated, admin_row, candidate_row,
}

rotated_answer :
    (c : Crypto) (call : Call) (t : RefreshToken) (u : User) (a : Option Admin)
    (d : Option Candidate) (db seen : Db) (x : Result AuthError String)
    → (rotated c call t u a d db x).0 ≡ (rotated c call t u a d seen x).0
unfolding rotated
rotated_answer c call t u a d db seen (err e) = refl
rotated_answer c call t u a d db seen (ok access) = refl

refreshed_answer :
    (c : Crypto) (call : Call) (t : RefreshToken) (seen db : Db) (who : Option User)
    → (refreshed_for c call t seen db who).0 ≡ (refreshed_for c call t seen seen who).0
unfolding refreshed_for
refreshed_answer c call t seen db none = refl
refreshed_answer c call t seen db (some u) = elim (Bool-cases (is_active u.status)) [
  | inr away ↦ rw (away, refreshed_for) refl
  | inl here ↦
      rw (here, refreshed_for)
        (rotated_answer c call t u (admin_row u seen) (candidate_row u seen) db seen
          (generate_access_token c call.now u (admin_row u seen) (candidate_row u seen)))
]

-- The answer of a refresh depends on the rows that it read, not on those that it writes.
pub refresh_answer :
    (c : Crypto) (call : Call) (token : String) (seen db : Db)
    → (refresh_over c call token seen db).0 ≡ (refresh_token c call token seen).0
unfolding refresh_over refresh_token
refresh_answer c call token seen db =
    elim (Option-cases (find? (has_hash (c.hash_token token)) seen.refresh_tokens)) [
      | inl gone ↦ rw (gone, refresh_token) refl
      | inr (t, found) ↦ elim (Bool-cases (ltb t.expires_at call.now)) [
        | inl old ↦ rw (found, old, refresh_token) refl
        | inr fresh ↦ elim (Bool-cases (is_some t.revoked_at)) [
          | inl used ↦ rw (found, fresh, used, refresh_token) refl
          | inr unused ↦
              rw (found, fresh, unused, refresh_token)
                (refreshed_answer c call t seen db (find? (has_id t.user_id) seen.users))
        ]
      ]
    ]
