-- ===== src/Auth/Jwt.antt =====
-- jwtExp of src/pkg/auth/oidc.go: the expiry that a JWT claims. The decoding of base64 and JSON are
-- arguments; the expiry is in seconds.
use qcontroller.Base.{ℕ, String, List, ◌+◌, Option, none, some, eqb, if◌then◌else◌, find?}
use Prim.Native.String.{slice, len}

-- int64 as what encoding/json reads of a claim
pub data ℤ : Type 0 where
  pos negsuc : ℕ → ℤ

-- The text before and behind the first ".".
abbrev cut : String → Option (String × String)
cut s = elim (find? s ".") [ none ↦ none | some i ↦ some (slice s 0 i, slice s (i + 1) (len s)) ]

-- The second of exactly three parts of `strings.Split(jwt, ".")`
abbrev claims_part : String → Option String
claims_part jwt = elim (cut jwt) [
  | none ↦ none
  | some (_, rest) ↦ elim (cut rest) [
    | none ↦ none
    | some (payload, signature) ↦ elim (find? signature ".") [ none ↦ some payload | some _ ↦ none ]
  ]
]

-- `c.Exp <= 0` is the zero time.
abbrev positive : ℤ → Option ℕ
positive (pos n) = if eqb n 0 then none else some n
positive (negsuc n) = none

-- jwtExp; none is the zero time
unfoldable pub jwt_exp : (String → Option (List ℕ)) → (List ℕ → Option ℤ) → String → Option ℕ
jwt_exp decode unmarshal jwt = elim (claims_part jwt) [
  | none ↦ none
  | some payload ↦ elim (decode payload) [
    | none ↦ none
    | some b ↦ elim (unmarshal b) [ none ↦ none | some exp ↦ positive exp ]
  ]
]
