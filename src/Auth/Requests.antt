-- ===== src/Auth/Requests.antt =====
-- app/shared/auth_context/: what a request and a WebSocket make of an access token. The claims are
-- those of tokens that the service has signed, so that a type or a role is one of the known ones.
use ai_interviewer.Prelude.{ℕ, String, Bool, Option, none, some, ltb, ◌==◌, if◌then◌else◌}
use ai_interviewer.Prelude.Result.{Result, ok, err, ◌>>=◌}
use Prim.Native.Char.{code}
use ai_interviewer.Auth.Model.{
  UserType, admin, candidate, AdminRole, Claims, IdentityContext, JwtError, Crypto,
}
use ai_interviewer.Auth.Tokens.{identity_ok}

pub data RequestError : Type 0 where
  header_missing header_malformed : RequestError
  token_refused : JwtError → RequestError
  claims_invalid token_expired : RequestError

present : {A : Type 0} → Option A → Result RequestError A
present none = err claims_invalid
present (some a) = ok a

admin_role_of : UserType → Claims → Result RequestError (Option AdminRole)
unfolding present
admin_role_of admin claims = do role ← present claims.role; ok (some role)
admin_role_of candidate claims = ok none

candidate_id_of : UserType → Claims → Option ℕ
candidate_id_of admin claims = none
candidate_id_of candidate claims = claims.candidate_id

checked : IdentityContext → Result RequestError IdentityContext
checked i = if identity_ok i then ok i else err claims_invalid

-- `IdentityBuilder.from_jwt_claims`, on the keys that `validate_token` has renamed.
unfoldable pub from_jwt_claims : Claims → Result RequestError IdentityContext
unfolding present admin_role_of candidate_id_of checked
from_jwt_claims claims = do
  kind ← present claims.user_type
  role ← admin_role_of kind claims
  sub ← present claims.sub
  version ← present claims.token_version
  iat ← present claims.iat
  exp ← present claims.exp
  checked (record {
    user_id = sub;
    user_type = kind;
    token_version = version;
    issued_at = iat;
    expires_at = exp;
    candidate_id = candidate_id_of kind claims;
    organization_id = claims.organization_id;
    admin_role = role;
  })

abbrev pub is_expired : ℕ → IdentityContext → Bool
is_expired now i = ltb i.expires_at now

-- `get_token_validator()`: the signature and the expiry, nothing of the rows.
unfoldable pub validate_token : Crypto → ℕ → String → Result RequestError Claims
validate_token c now token = elim (c.decode now token) [
  | err e ↦ err (token_refused e)
  | ok claims ↦ ok claims
]

unfoldable pub identified :
    ℕ → Result RequestError IdentityContext → Result RequestError IdentityContext
identified now (err e) = err e
identified now (ok i) = if is_expired now i then err token_expired else ok i

unfoldable pub of_claims : ℕ → Result RequestError Claims → Result RequestError IdentityContext
of_claims now (err e) = err e
of_claims now (ok claims) = identified now (from_jwt_claims claims)

-- `authenticate_websocket`
unfoldable pub authenticate_websocket : Crypto → ℕ → String → Result RequestError IdentityContext
authenticate_websocket c now token = of_claims now (validate_token c now token)

-- What follows a prefix.
unfoldable pub after_prefix : String → String → Option String
after_prefix String.[] s = some s
after_prefix (String.◌∷◌ p ps) String.[] = none
after_prefix (String.◌∷◌ p ps) (String.◌∷◌ ch s) =
    let rest = after_prefix ps s in if code p == code ch then rest else none

-- Without required authentication the request goes on, as nobody's.
abbrev settled :
    Bool → Result RequestError IdentityContext → Result RequestError (Option IdentityContext)
settled required (ok i) = ok (some i)
settled required (err e) = if required then err e else ok none

bearer : Crypto → ℕ → String → Result RequestError IdentityContext
bearer c now header = elim (after_prefix "Bearer " header) [
  | none ↦ err header_malformed
  | some token ↦ authenticate_websocket c now token
]

authenticated : Crypto → ℕ → Option String → Result RequestError IdentityContext
unfolding bearer
authenticated c now none = err header_missing
authenticated c now (some String.[]) = err header_missing
authenticated c now (some (String.◌∷◌ ch s)) = bearer c now (String.◌∷◌ ch s)

-- `IdentityInjectionMiddleware.dispatch`, up to the handler: the identity it is given.
unfoldable pub dispatch :
    Bool → Crypto → ℕ → Option String → Result RequestError (Option IdentityContext)
unfolding authenticated
dispatch required c now header = settled required (authenticated c now header)
