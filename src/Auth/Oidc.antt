-- ===== src/Auth/Oidc.antt =====
-- src/pkg/auth/oidc.go: bearer tokens and the session cookie, its renewal, and the login flow.
-- github.com/coreos/go-oidc and golang.org/x/oauth2 are fields of an `Issuer`; the signed cookies
-- are the parameters `read_session`, `write_session`, `read_state` and `write_state`.
pub mod Callback
pub mod Renewal
use qcontroller.Base.{
  String, ◌<>◌, ℕ, Bool, true, false, not, ◌&&◌, ◌||◌, List, [], ◌∷◌, ◌++◌, if◌then◌else◌, Option,
  some, none, starts_with, is_empty, ◌==◌, Result, ok, err, Dict, lookup, ltb, ◌*◌,
}
use Prim.Native.String.{slice, len}
use qcontroller.Auth.Jwt.{ℤ, jwt_exp}
use qcontroller.Auth.Http.{Identity, Request, AuthErr, unauthenticated, other, Verifier}

-- An ID token that the issuer's verifier accepted, with its claims.
pub record Token : Type 0 where
  pub subject : String
  pub email : String
  pub name : String
  pub groups : List String

-- The answer of the token endpoint; `id_token` is none if it has no such text.
pub record Tokens : Type 0 where
  pub id_token : Option String
  pub refresh_token : String

-- oauth2.Config: the exchange of a code, the refresh, and the URL of the login page
pub record Login : Type 0 where
  pub exchange : String → Option Tokens
  pub refresh : String → Option Tokens
  pub auth_code_url : String → String

pub record Issuer : Type 0 where
  pub name : String
  pub client_id : String
  pub verify : String → Result String Token
  pub oauth2 : Option Login
  pub end_session_endpoint : String

pub record Session : Type 0 where
  pub identity : Option Identity
  pub id_token : String
  pub refresh_token : String
  pub provider : String

pub record StatePayload : Type 0 where
  pub state : String
  pub provider : String

-- verifyJWT
unfoldable pub verify_jwt : Issuer → String → Result String Identity
verify_jwt iss raw = elim (iss.verify raw) [
  | err e ↦ err e
  | ok tok ↦ ok (record {
    subject = tok.subject;
    email = tok.email;
    name = tok.name;
    groups = tok.groups;
    issued_by = "oidc:" <> iss.name;
  })
]

pub data SetCookie : Type 0 where
  set_session : String → SetCookie
  clear_session : SetCookie
  set_state : String → SetCookie
  clear_state : SetCookie

-- The texts of error pages are kept without the causes that some print behind them.
pub data Page : Type 0 where
  page_error : ℕ → String → Page
  redirect : List SetCookie → String → Page

-- OIDCVerifier with what its methods call: the signed cookies under its secret, and base64 and JSON
-- for the claims of a JWT.
pub record OidcVerifier : Type 0 where
  pub issuers : Dict Issuer
  pub external_url : String
  pub read_session : String → Option Session
  pub write_session : Session → Option String
  pub read_state : String → Option StatePayload
  pub write_state : StatePayload → Option String
  pub decode_base64 : String → Option (List ℕ)
  pub unmarshal_exp : List ℕ → Option ℤ

abbrev session_cookie_name : String
session_cookie_name = "qcontroller_session"

abbrev state_cookie_name : String
state_cookie_name = "qcontroller_oauth_state"

-- `strings.TrimPrefix(h, "Bearer ")` of a text with that prefix
abbrev pub bearer_token : String → String
bearer_token h = slice h 7 (len h)

-- The loop over the issuers; the order is that of the dictionary.
unfoldable pub try_issuers : Dict Issuer → String → Result AuthErr Identity
unfolding verify_jwt
try_issuers [] token = err (other "invalid bearer token")
try_issuers ((_, iss) ∷ rest) token = elim (verify_jwt iss token) [
  | ok id ↦ ok id
  | err _ ↦ try_issuers rest token
]

abbrev session_identity : Option Session → Result AuthErr Identity
session_identity none = err unauthenticated
session_identity (some sp) = elim sp.identity [ none ↦ err unauthenticated | some id ↦ ok id ]

abbrev read_cookie {ℓ} : {A : Type ℓ} → (String → Option A) → Option String → Option A
read_cookie read none = none
read_cookie read (some c) = read c

-- Verify
unfoldable pub verify : OidcVerifier → Verifier
unfolding try_issuers
verify v r =
    if starts_with (r.header "Authorization") "Bearer "
    then try_issuers v.issuers (bearer_token (r.header "Authorization"))
    else session_identity (read_cookie v.read_session (r.cookie session_cookie_name))

abbrev pub keep_or : String → String → String
keep_or new old = if is_empty new then old else new

-- The refresh in Renewal: the session with the new ID token and its identity.
unfoldable pub refreshed : Issuer → Login → Session → Option Session
unfolding verify_jwt
refreshed iss login sp = elim (login.refresh sp.refresh_token) [
  | none ↦ none
  | some tok ↦ elim tok.id_token [
    | none ↦ none
    | some raw ↦ elim (verify_jwt iss raw) [
      | err _ ↦ none
      | ok id ↦ some (record sp {
        identity = some id;
        id_token = raw;
        refresh_token = keep_or tok.refresh_token sp.refresh_token;
      })
    ]
  ]
]

-- time.Now().After, of `now` in nanoseconds and an expiry in seconds
abbrev pub is_past : Option ℕ → ℕ → Bool
is_past none now = false
is_past (some exp) now = ltb (exp * 1000000000) now

abbrev pub id_token_exp : OidcVerifier → Session → Option ℕ
id_token_exp v sp = jwt_exp v.decode_base64 v.unmarshal_exp sp.id_token

-- The session that Renewal writes back; `none` if its ID token has expired and cannot be renewed.
abbrev pub renewed : OidcVerifier → ℕ → Session → Option Session
renewed v now sp = elim (lookup sp.provider v.issuers) [
  | none ↦ some sp
  | some iss ↦ elim iss.oauth2 [
    | none ↦ some sp
    | some login ↦
        if not (is_empty sp.refresh_token) && is_past (id_token_exp v sp) now
        then refreshed iss login sp
        else some sp
  ]
]

abbrev rewrite_session : OidcVerifier → ℕ → Session → Option SetCookie
rewrite_session v now sp = elim (renewed v now sp) [
  | none ↦ some clear_session
  | some sp' ↦ elim (v.write_session sp') [ none ↦ none | some enc ↦ some (set_session enc) ]
]

-- Renewal: the cookie that it sets. The request is always passed on, unchanged.
unfoldable pub renewal : OidcVerifier → ℕ → Request → Option SetCookie
unfolding refreshed
renewal v now r = elim (read_cookie v.read_session (r.cookie session_cookie_name)) [
  | none ↦ none
  | some sp ↦ elim sp.identity [ none ↦ none | some _ ↦ rewrite_session v now sp ]
]

-- handleLogin; `random` is the encoded random state, or a failure of the random source
unfoldable pub handle_login : OidcVerifier → Option String → Request → Page
handle_login v random r =
    let name = r.query "provider" in
    elim (lookup name v.issuers) [
      | none ↦ page_error 400 "unknown or non-login provider"
      | some iss ↦ elim iss.oauth2 [
        | none ↦ page_error 400 "unknown or non-login provider"
        | some login ↦ elim random [
          | none ↦ page_error 500 "rand error"
          | some state ↦ elim (v.write_state (record { state = state; provider = name })) [
            | none ↦ page_error 500 "encode state cookie"
            | some enc ↦ redirect (set_state enc ∷ []) (login.auth_code_url state)
          ]
        ]
      ]
    ]

-- handleCallback behind the exchange of the code.
unfoldable pub open_session : OidcVerifier → Issuer → Tokens → Page
open_session v iss tok = elim tok.id_token [
  | none ↦ page_error 400 "no id_token in response"
  | some raw ↦ elim (verify_jwt iss raw) [
    | err e ↦ page_error 400 "id_token verify failed"
    | ok id ↦
        elim (v.write_session (record {
          identity = some id;
          id_token = raw;
          refresh_token = tok.refresh_token;
          provider = iss.name;
        })) [
          | none ↦ page_error 500 "encode session cookie"
          | some enc ↦ redirect (set_session enc ∷ clear_state ∷ []) "/ui/"
        ]
  ]
]

-- handleCallback behind the check of the state.
unfoldable pub exchange_code : OidcVerifier → String → String → Page
unfolding open_session
exchange_code v provider code = elim (lookup provider v.issuers) [
  | none ↦ page_error 400 "unknown provider"
  | some iss ↦ elim iss.oauth2 [
    | none ↦ page_error 400 "unknown provider"
    | some login ↦ elim (login.exchange code) [
      | none ↦ page_error 400 "token exchange failed"
      | some tok ↦ open_session v iss tok
    ]
  ]
]

-- handleCallback
unfoldable pub handle_callback : OidcVerifier → Request → Page
unfolding exchange_code verify_jwt
handle_callback v r =
    if is_empty (r.query "code") || is_empty (r.query "state")
    then page_error 400 "missing code or state"
    else (elim (r.cookie state_cookie_name) [
      | none ↦ page_error 400 "missing state cookie"
      | some c ↦ elim (v.read_state c) [
        | none ↦ page_error 400 "invalid state cookie"
        | some sp ↦
            if not (sp.state == r.query "state")
            then page_error 400 "state mismatch"
            else exchange_code v sp.provider (r.query "code")
      ]
    ])
