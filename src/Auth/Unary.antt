-- ===== src/Auth/Unary.antt =====
-- A token format that decodes, to run the definitions with: every field in unary.
use ai_interviewer.Prelude.{
  ℕ, zero, suc, ◌<◌, String, ◌≡◌, refl, ap, ◌∙◌, true, Option, none, some, List, [], ◌∷◌, arith,
  ltb, ◌==◌, if◌then◌else◌, length,
}
use ai_interviewer.Prelude.Result.{Result, ok, err}
use Prim.Native.Char.{code}
use ai_interviewer.Auth.Model.{
  UserType, admin, candidate, AdminRole, superadmin, administrator, read_only, Claims, JwtError,
  expired, invalid_signature,
}

write : ℕ → String → String
write zero s = String.◌∷◌ "b" s
write (suc n) s = String.◌∷◌ "a" (write n s)

one_more : Option (ℕ × String) → Option (ℕ × String)
one_more none = none
one_more (some (n, s)) = some (suc n, s)

read : String → Option (ℕ × String)
unfolding one_more
read String.[] = none
read (String.◌∷◌ ch s) =
    let rest = read s in if code ch == 97 then one_more rest else some (zero, s)

read-write : (n : ℕ) (s : String) → read (write n s) ≡ some (n, s)
unfolding read write one_more
read-write zero s = refl
read-write (suc n) s = rw (read-write n s) refl

write_all : List ℕ → String
unfolding write
write_all [] = String.[]
write_all (n ∷ ns) = write n (write_all ns)

-- As many numbers as asked for.
read_all : ℕ → String → Option (List ℕ)
read_all zero s = some []
read_all (suc k) s = elim (read s) [
  | none ↦ none
  | some (n, rest) ↦ elim (read_all k rest) [ none ↦ none | some ns ↦ some (n ∷ ns) ]
]

read_all-write_all : (ns : List ℕ) → read_all (length ns) (write_all ns) ≡ some ns
unfolding read_all write_all
read_all-write_all [] = refl
read_all-write_all (n ∷ ns) =
    rw (read-write n (write_all ns), read_all-write_all ns, read_all, write_all) refl

of_option : Option ℕ → ℕ
of_option none = 0
of_option (some n) = suc n

to_option : ℕ → Option ℕ
to_option zero = none
to_option (suc n) = some n

option_lem : (o : Option ℕ) → to_option (of_option o) ≡ o
unfolding to_option of_option
option_lem none = refl
option_lem (some n) = refl

of_type : Option UserType → ℕ
of_type none = 0
of_type (some admin) = 1
of_type (some candidate) = 2

to_type : ℕ → Option UserType
to_type n = if n == 0 then none else if n == 1 then some admin else some candidate

type_lem : (o : Option UserType) → to_type (of_type o) ≡ o
unfolding to_type of_type
type_lem none = refl
type_lem (some admin) = refl
type_lem (some candidate) = refl

of_role : Option AdminRole → ℕ
of_role none = 0
of_role (some superadmin) = 1
of_role (some administrator) = 2
of_role (some read_only) = 3

to_role : ℕ → Option AdminRole
to_role n =
    if n == 0
    then none
    else if n == 1
    then some superadmin
    else if n == 2
    then some administrator
    else some read_only

role_lem : (o : Option AdminRole) → to_role (of_role o) ≡ o
unfolding to_role of_role
role_lem none = refl
role_lem (some superadmin) = refl
role_lem (some administrator) = refl
role_lem (some read_only) = refl

fields : Claims → List ℕ
unfolding of_option of_type of_role
fields c =
    of_option c.sub
    ∷ of_type c.user_type
    ∷ of_option c.token_version
    ∷ of_option c.admin_id
    ∷ of_option c.organization_id
    ∷ of_role c.role
    ∷ of_option c.candidate_id
    ∷ of_option c.iat
    ∷ of_option c.exp
    ∷ []

claims_of : List ℕ → Result JwtError Claims
unfolding to_option to_type to_role
claims_of (sub ∷ kind ∷ version ∷ by ∷ org ∷ role ∷ who ∷ iat ∷ exp ∷ []) = ok (record {
  sub = to_option sub;
  user_type = to_type kind;
  token_version = to_option version;
  admin_id = to_option by;
  organization_id = to_option org;
  role = to_role role;
  candidate_id = to_option who;
  iat = to_option iat;
  exp = to_option exp;
})
claims_of _ = err invalid_signature

claims_of-fields : (c : Claims) → claims_of (fields c) ≡ ok c
unfolding claims_of fields
claims_of-fields c =
    rw
      (
        option_lem c.sub,
        type_lem c.user_type,
        option_lem c.token_version,
        option_lem c.admin_id,
        option_lem c.organization_id,
        role_lem c.role,
        option_lem c.candidate_id,
        option_lem c.iat,
        option_lem c.exp,
      )
      refl

unfoldable pub encode : Claims → String
unfolding write_all fields
encode c = write_all (fields c)

in_time : ℕ → Claims → Option ℕ → Result JwtError Claims
in_time now c none = ok c
in_time now c (some e) = if ltb now e then ok c else err expired

live_claims : ℕ → Result JwtError Claims → Result JwtError Claims
unfolding in_time
live_claims now (err e) = err e
live_claims now (ok c) = in_time now c c.exp

from_fields : ℕ → Option (List ℕ) → Result JwtError Claims
unfolding live_claims claims_of
from_fields now none = err invalid_signature
from_fields now (some ns) = live_claims now (claims_of ns)

unfoldable pub decode : ℕ → String → Result JwtError Claims
unfolding from_fields read read_all
decode now s = from_fields now (read_all 9 s)

pub decode-encode :
    (now : ℕ) (c : Claims) (end : ℕ) → c.exp ≡ some end → now < end → decode now (encode c) ≡ ok c
unfolding decode encode in_time live_claims from_fields
decode-encode now c end until young =
    let early : ltb now end ≡ true = ground arith in
    ap (from_fields now) (read_all-write_all (fields c))
    ∙ ap (live_claims now) (claims_of-fields c)
    ∙ ap (in_time now c) until
    ∙ ap (λ b. if b then ok c else err expired) early
