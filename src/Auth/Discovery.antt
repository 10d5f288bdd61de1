-- ===== src/Auth/Discovery.antt =====
-- src/pkg/auth/oidc.go, NewOIDCVerifier and LoginProviders, and the answers of grpc_server.go that
-- rest on them. go-oidc and oauth2 are what `discover` returns for the URL of an issuer.
pub mod Configured
pub mod Logout
use qcontroller.Base.{
  String, ◌<>◌, ℕ, Bool, true, false, not, ◌&&◌, ◌||◌, List, [], ◌∷◌, ◌++◌, if◌then◌else◌, Option,
  some, none, is_empty, is_none, ◌==◌, Result, ok, err, ◌>>=◌, ◌>>◌, Dict, lookup, insert,
}
use qcontroller.Auth.Http.{Identity, Request, from_context}
use qcontroller.Auth.Oidc.{Token, Login, Issuer, Session, OidcVerifier}

-- settingsv1.AuthConfig and its issuers
pub record IssuerConfig : Type 0 where
  pub name : String
  pub issuer_url : String
  pub audiences : List String
  pub client_id : String
  pub client_secret : String

pub record AuthConfig : Type 0 where
  pub issuers : List IssuerConfig
  pub external_url : String

-- oidc.Provider: its verifier for an audience, none to skip the check of the client id; its login
-- for a client id, a client secret and a redirect URL; and the claim "end_session_endpoint".
pub record Provider : Type 0 where
  pub verifier : Option String → String → Result String Token
  pub login : String → String → String → Login
  pub end_session_endpoint : String

abbrev pub callback_path : String
callback_path = "/auth/callback"

abbrev pub audience : IssuerConfig → String
audience i = elim i.audiences [ [] ↦ i.client_id | a ∷ _ ↦ a ]

abbrev pub checked_audience : String → Option String
checked_audience a = if is_empty a then none else some a

abbrev pub oauth2_config : String → IssuerConfig → Provider → Result String (Option Login)
oauth2_config external i p =
    if is_empty i.client_id
    then ok none
    else if is_empty external
    then err "issuer has client_id but auth.external_url is empty"
    else ok (some (p.login i.client_id i.client_secret (external <> callback_path)))

abbrev pub as_issuer : IssuerConfig → Provider → Option Login → Issuer
as_issuer i p login = record {
  name = i.name;
  client_id = i.client_id;
  verify = p.verifier (checked_audience (audience i));
  oauth2 = login;
  end_session_endpoint = p.end_session_endpoint;
}

abbrev pub named : IssuerConfig → Dict Issuer → Result String (Unit {0})
named i issuers =
    if is_empty i.name
    then err "issuer.name must be set"
    else if not (is_none (lookup i.name issuers))
    then err "duplicate issuer name"
    else ok tt

abbrev pub with_url : String → Dict Issuer → Dict Issuer × String
with_url url issuers = (issuers, url)

module _ (discover : String → Result String Provider) where
  -- One round of the loop of NewOIDCVerifier.
  unfoldable pub configure : String → IssuerConfig → Dict Issuer → Result String (Dict Issuer)
  unfolding lookup insert
  configure external i issuers =
      named i issuers
      >> (discover i.issuer_url >>= λ p.
          oauth2_config external i p >>= λ login. ok (insert i.name (as_issuer i p login) issuers))

  unfoldable pub configure_all :
      String → List IssuerConfig → Dict Issuer → Result String (Dict Issuer)
  unfolding configure
  configure_all external [] issuers = ok issuers
  configure_all external (i ∷ is) issuers =
      configure external i issuers >>= configure_all external is

  -- NewOIDCVerifier: the issuers and the external URL of the new verifier
  unfoldable pub new_oidc_verifier :
      (String → String) → Option AuthConfig → Result String (Dict Issuer × String)
  unfolding configure_all
  new_oidc_verifier trim_slashes none = err "nil auth config"
  new_oidc_verifier trim_slashes (some cfg) = elim cfg.issuers [
    | [] ↦ err "auth.issuers must not be empty"
    | i ∷ is ↦ configure_all (trim_slashes cfg.external_url) (i ∷ is) [] >>= λ issuers.
        ok (with_url (trim_slashes cfg.external_url) issuers)
  ]

-- The loop of LoginProviders, in the order of the dictionary.
unfoldable pub login_names : Dict Issuer → List String
login_names [] = []
login_names ((name, iss) ∷ issuers) =
    let rest = login_names issuers in if is_none iss.oauth2 then rest else name ∷ rest

-- LoginProviders
abbrev pub login_providers : (List String → List String) → OidcVerifier → List String
login_providers sort v = sort (login_names v.issuers)

-- GetConfig; without authentication there is no verifier.
unfoldable pub get_config : (List String → List String) → Option OidcVerifier → List String
unfolding login_names
get_config sort none = []
get_config sort (some v) = login_providers sort v

-- GetMe
unfoldable pub get_me : Request → Result String Identity
unfolding from_context
get_me r = elim (from_context r) [ none ↦ err "identity missing from context" | some id ↦ ok id ]

-- The loop of Logout over the cookie headers: the first one with a session cookie is read.
unfoldable pub incoming_session :
    (String → Option String) → (String → Option Session) → List String → Option Session
incoming_session session_cookie read [] = none
incoming_session session_cookie read (raw ∷ raws) =
    let rest = incoming_session session_cookie read raws in
    elim (session_cookie raw) [ none ↦ rest | some c ↦ read c ]

abbrev pub empty_session : Session
empty_session = record { identity = none; id_token = ""; refresh_token = ""; provider = "" }

abbrev pub or_empty : Option Session → Session
or_empty none = empty_session
or_empty (some sp) = sp

abbrev pub param : String → String → List (String × String)
param key value = if is_empty value then [] else (key, value) ∷ []

abbrev pub logout_params : OidcVerifier → Issuer → Session → List (String × String)
logout_params v iss sp =
    let back = if is_empty v.external_url then "" else v.external_url <> "/ui/" in
    param "id_token_hint" sp.id_token
    ++ (param "client_id" iss.client_id ++ param "post_logout_redirect_uri" back)

abbrev pub logout_url : (List (String × String) → String) → OidcVerifier → Session → String
logout_url encode v sp = elim (lookup sp.provider v.issuers) [
  | none ↦ ""
  | some iss ↦
      if is_empty iss.end_session_endpoint
      then ""
      else iss.end_session_endpoint <> ("?" <> encode (logout_params v iss sp))
]

-- Logout: whether the session cookie is cleared, and the URL of the answer. `session_cookie` reads
-- the cookie off a header, and `encode` is url.Values.Encode.
unfoldable pub logout :
    (String → Option String)
    → (List (String × String) → String)
    → Option OidcVerifier
    → List String
    → Bool × String
unfolding incoming_session lookup
logout session_cookie encode none raws = (false, "")
logout session_cookie encode (some v) raws =
    (true, logout_url encode v (or_empty (incoming_session session_cookie v.read_session raws)))
