-- ===== src/Tests/Auth.antt =====
-- The theorems on package auth at concrete inputs.
use qcontroller.Base.{
  String, ℕ, ◌≡◌, ◌≢◌, false, arith, Option, none, some, ◌==◌, [], ◌∷◌, refl, ok, err,
  if◌then◌else◌, lookup, All, eqb, ◌+◌, ◌-◌, ◌↔◌,
}
use qcontroller.Auth.Http.{Identity, Request, Verifier, next, unauthenticated, with_identity}
use qcontroller.Auth.Middleware.{middleware, Accepts, middleware-Accepts}
use qcontroller.Auth.Cookie.{
  Bytes, Primitives, IsFaithful, encode_signed, decode_signed, decode_signed-encode_signed,
}
use qcontroller.Auth.Oidc.{
  Issuer, Login, Session, OidcVerifier, verify_jwt, handle_callback, set_session, clear_state,
  renewal, refreshed,
}
use qcontroller.Auth.Oidc.Callback.{Opened, callback_opens}
use qcontroller.Auth.Jwt.{pos, jwt_exp}
use qcontroller.Auth.Oidc.Renewal.{IsRenewed, renewal-IsRenewed}

abbrev alice : Identity
alice = record {
  subject = "alice";
  email = "alice@example.com";
  name = "";
  groups = "admins" ∷ [];
  issued_by = "oidc:main";
}

abbrev request : Request
request = record {
  method = "POST";
  path = "/v1/vms";
  header = λ name. if name == "Authorization" then "Bearer token" else "";
  query = λ key. if key == "code" then "code" else if key == "state" then "random" else "";
  cookie = λ name. if name == "qcontroller_oauth_state" then some "signed" else none;
  context = none;
}

abbrev abstains : Verifier
abstains r = err unauthenticated

abbrev accepts : Verifier
accepts r = ok alice

middleware-Accepts_example :
    (middleware (abstains ∷ accepts ∷ []) [] request ≡ next (with_identity alice request))
    ↔ Accepts request alice (abstains ∷ accepts ∷ [])
middleware-Accepts_example = middleware-Accepts abstains (accepts ∷ []) [] request alice refl

-- Values are lists of bytes, an envelope is the expiry and then the data, and the encoding adds 47
-- to every byte, so that none is the dot.
abbrev shift : Bytes → Bytes
shift [] = []
shift (c ∷ cs) = (c + 47) ∷ shift cs

abbrev unshift : Bytes → Bytes
unshift [] = []
unshift (c ∷ cs) = (c - 47) ∷ unshift cs

abbrev split_envelope : Bytes → Option (Bytes × ℕ)
split_envelope [] = none
split_envelope (e ∷ data_bytes) = some (data_bytes, e)

abbrev plain : Primitives Bytes
plain = record {
  marshal = λ v. some v;
  unmarshal = λ b. some b;
  marshal_envelope = λ d e. some (e ∷ d);
  unmarshal_envelope = split_envelope;
  encode_base64 = shift;
  decode_base64 = λ b. some (unshift b);
  hmac = λ secret b. secret;
}

unshift-shift : (b : Bytes) → unshift (shift b) ≡ b
unshift-shift [] = refl
unshift-shift (c ∷ cs) = ground (arith, unshift-shift cs)

shift-no_dot : (b : Bytes) → All (λ c. eqb c b'.' ≡ false) (shift b)
shift-no_dot [] = tt
shift-no_dot (c ∷ cs) = (ground arith, shift-no_dot cs)

plain-IsFaithful : IsFaithful plain
plain-IsFaithful = record {
  value = λ v b h. ground (arith, h);
  envelope = λ d e b h. ground (arith, h);
  base64 = λ b. ground (arith, unshift-shift b);
  no_dot = shift-no_dot;
}

abbrev cookie : Bytes
cookie = 117 ∷ 49 ∷ 46 ∷ 54 ∷ []

decode_signed-encode_signed_example : decode_signed plain (7 ∷ []) cookie 50 ≡ ok (2 ∷ [])
unfolding encode_signed
decode_signed-encode_signed_example =
    decode_signed-encode_signed plain (7 ∷ []) (2 ∷ []) 30 40 50 cookie plain-IsFaithful refl

abbrev login : Login
login = record {
  exchange = λ code. some (record { id_token = some "jwt"; refresh_token = "refresh" });
  refresh = λ token. none;
  auth_code_url = λ state. "https://idp/?state=random";
}

abbrev issuer : Issuer
issuer = record {
  name = "main";
  client_id = "qcontroller";
  verify = λ raw. ok (record { subject = "alice"; email = ""; name = ""; groups = [] });
  oauth2 = some login;
  end_session_endpoint = "";
}

abbrev verifier : OidcVerifier
verifier = record {
  issuers = ("main", issuer) ∷ [];
  external_url = "https://q";
  read_session = λ c. none;
  write_session = λ s. some "session";
  read_state = λ c. some (record { state = "random"; provider = "main" });
  write_state = λ s. some "signed";
  decode_base64 = λ text. none;
  unmarshal_exp = λ claims. none;
}

callback_opens_example :
    Opened verifier request (set_session "session" ∷ clear_state ∷ [])
    × ◌≡◌ {A = String} "/ui/" "/ui/"
unfolding handle_callback verify_jwt lookup
callback_opens_example =
    callback_opens verifier request (set_session "session" ∷ clear_state ∷ []) "/ui/" refl

-- A session whose ID token has expired, at an issuer that exchanges its refresh token
abbrev refreshing : Issuer
refreshing = record issuer {
  oauth2 = some (record login {
    refresh = λ token. some (record { id_token = some "new"; refresh_token = "" });
  });
}

abbrev expired_session : Session
expired_session = record {
  identity = some alice;
  id_token = "e30.e30.c2ln";
  refresh_token = "refresh";
  provider = "main";
}

abbrev renewing : OidcVerifier
renewing = record verifier {
  issuers = ("main", refreshing) ∷ [];
  read_session = λ c. some expired_session;
  decode_base64 = λ text. if text == "e30" then some (123 ∷ 125 ∷ []) else none;
  unmarshal_exp = λ claims. some (pos 10);
}

abbrev with_cookie : Request
with_cookie = record request { cookie = λ name. some "cookie" }

renewal-IsRenewed_example :
    (c : String) × (sp : Session) × (sp' : Session) × (with_cookie.cookie "qcontroller_session"
      ≡ some c)
    × (renewing.read_session c ≡ some sp)
    × (sp.identity ≢ none)
    × (renewing.write_session sp' ≡ some "session")
    × IsRenewed renewing 20000000000 sp sp'
unfolding renewal refreshed verify_jwt lookup jwt_exp
renewal-IsRenewed_example = renewal-IsRenewed renewing 20000000000 with_cookie "session" refl
