-- ===== src/Tests/Logins.antt =====
-- The theorems on the configuration of issuers and on Logout with one issuer.
use qcontroller.Base.{
  String, ◌≡◌, ◌≢◌, arith, refl, eq_iff, List, [], ◌∷◌, Option, some, none, Result, ok, err, Dict,
  lookup, insert, delete, All,
}
use qcontroller.Auth.Oidc.{Issuer, Session, OidcVerifier}
use qcontroller.Auth.Discovery.{
  IssuerConfig, AuthConfig, Provider, new_oidc_verifier, configure_all, configure, as_issuer,
  logout, incoming_session,
}
use qcontroller.Auth.Discovery.Configured.{IsConfigured, IsPresent, new_oidc_verifier-IsConfigured}

abbrev keycloak : Provider
keycloak = record {
  verifier = λ audience raw. err "expired";
  login = λ id secret url. record {
    exchange = λ code. none;
    refresh = λ token. none;
    auth_code_url = λ state. url;
  };
  end_session_endpoint = "https://id.example/logout";
}

abbrev company : IssuerConfig
company = record {
  name = "company";
  issuer_url = "https://id.example";
  audiences = [];
  client_id = "qcontroller";
  client_secret = "secret";
}

abbrev robots : IssuerConfig
robots = record {
  name = "robots";
  issuer_url = "https://ci.example";
  audiences = "api" ∷ [];
  client_id = "";
  client_secret = "";
}

abbrev settings : AuthConfig
settings = record { issuers = company ∷ robots ∷ []; external_url = "https://vms.example" }

abbrev discovered : String → Result String Provider
discovered url = ok keycloak

abbrev untrimmed : String → String
untrimmed url = url

abbrev both : Dict Issuer
both =
    ("robots", as_issuer robots keycloak none)
    ∷ (
      "company",
      as_issuer company keycloak
          (some (keycloak.login "qcontroller" "secret" "https://vms.example/auth/callback")),
    )
    ∷ []

configured :
    new_oidc_verifier discovered untrimmed (some settings) ≡ ok (both, "https://vms.example")
unfolding new_oidc_verifier configure_all configure lookup insert delete
configured = refl

new_oidc_verifier-IsConfigured_example :
    (settings.external_url ≡ untrimmed settings.external_url)
    × (IsConfigured "https://vms.example" both × All (IsPresent both) (company ∷ robots ∷ []))
new_oidc_verifier-IsConfigured_example =
    new_oidc_verifier-IsConfigured discovered untrimmed settings both "https://vms.example"
      configured

both-IsConfigured : IsConfigured "https://vms.example" both
both-IsConfigured =
    (new_oidc_verifier-IsConfigured discovered untrimmed settings both "https://vms.example"
      configured).1.0

abbrev opened : Session
opened = record { identity = none; id_token = "jwt"; refresh_token = ""; provider = "company" }

abbrev verifier : OidcVerifier
verifier = record {
  issuers = both;
  external_url = "https://vms.example";
  read_session = λ c. some opened;
  write_session = λ s. none;
  read_state = λ c. none;
  write_state = λ s. none;
  decode_base64 = λ text. none;
  unmarshal_exp = λ claims. none;
}

abbrev cookie_value : String → Option String
cookie_value raw = some raw

abbrev encoded : List (String × String) → String
encoded params = "query"

went_to :
    (logout cookie_value encoded (some verifier) ("c" ∷ [])).1 ≡ "https://id.example/logout?query"
unfolding logout incoming_session lookup
went_to = refl

abbrev logout_page : String
logout_page = "https://id.example/logout?query"

some_url : logout_page ≢ ""
some_url e = absurd (ground (arith, (eq_iff "https://id.example/logout?query" "").1 e))
