-- ===== src/Commands/Gateway.antt =====
-- src/qcontrollerd/cmd/orchestrator.go: the chain of handlers in front of the routes of the
-- orchestrator, and the WebSocket handler.
pub mod Gate
use qcontroller.Base.{
  ℕ, String, ◌<>◌, Bool, true, false, not, ◌&&◌, ◌||◌, List, [], ◌∷◌, ◌++◌, if◌then◌else◌, ◌==◌,
  Option, none, some, Result, ok, err, is_empty, Dict, ◌>>=◌,
}
use qcontroller.Auth.Http.{Request, Verifier, Outcome, next, deny}
use qcontroller.Auth.Middleware.{middleware, public_paths}
use qcontroller.Auth.Guards.{security_headers, require_csrf_header}
use qcontroller.Auth.Oidc.{OidcVerifier, SetCookie, verify, renewal}
use qcontroller.Auth.Discovery.{AuthConfig}

-- What the command keeps for its handlers.
pub record Gateway : Type 0 where
  pub verifiers : List Verifier
  pub oidc : Option OidcVerifier
  pub external_url : String
  pub allowed_origin : String

-- The scheme and the host of `url.Parse`.
abbrev origin_of : Option (String × String) → String
origin_of none = ""
origin_of (some (scheme, host)) =
    if is_empty scheme || is_empty host then "" else scheme <> "://" <> host

abbrev url_of : Option AuthConfig → String
url_of none = ""
url_of (some cfg) = cfg.external_url

abbrev open_gateway : Option AuthConfig → Gateway
open_gateway cfg = record {
  verifiers = [];
  oidc = none;
  external_url = url_of cfg;
  allowed_origin = "";
}

abbrev guarded_gateway : (String → Option (String × String)) → AuthConfig → OidcVerifier → Gateway
guarded_gateway parse cfg v = record {
  verifiers = verify v ∷ [];
  oidc = some v;
  external_url = cfg.external_url;
  allowed_origin = origin_of (parse cfg.external_url);
}

-- The set-up of authentication: `secret` is the answer of LoadOrCreateSecret, and `new_verifier` that
-- of NewOIDCVerifier.
unfoldable pub set_up :
    (String → Option (String × String))
    → Result String String
    → (AuthConfig → String → Result String OidcVerifier)
    → Option AuthConfig
    → Result String Gateway
set_up parse secret new_verifier none = ok (open_gateway none)
set_up parse secret new_verifier (some cfg) = elim cfg.issuers [
  | [] ↦ ok (open_gateway (some cfg))
  | _ ∷ _ ↦ elim secret [
    | err e ↦ err ("load session secret: " <> e)
    | ok key ↦ elim (new_verifier cfg key) [
      | err e ↦ err ("init oidc verifier: " <> e)
      | ok v ↦ ok (guarded_gateway parse cfg v)
    ]
  ]
]

-- The paths behind which no identity is asked for.
unfoldable pub exempt : List String
unfolding public_paths
exempt = public_paths ++ "/ui/" ∷ "/ui" ∷ "/healthz" ∷ []

abbrev with_csrf : List Verifier → Request → Outcome
with_csrf [] r = next r
with_csrf (v ∷ vs) r = require_csrf_header r

abbrev renewed_by : Option OidcVerifier → ℕ → Request → Option SetCookie
renewed_by none now r = none
renewed_by (some v) now r = renewal v now r

-- The cookie that the answer sets, and whether the request reaches the routes.
abbrev pub inner : Gateway → ℕ → Outcome → Option SetCookie × Outcome
inner g now (deny code message) = (none, deny code message)
inner g now (next r) = (renewed_by g.oidc now r, with_csrf g.verifiers r)

-- The handler of the server, on the headers of the response.
unfoldable pub serve :
    Gateway → ℕ → Request → Dict String → Dict String × Option SetCookie × Outcome
serve g now r h =
    let (cookie, o) = inner g now (middleware g.verifiers exempt r) in
    (security_headers g.external_url r h, cookie, o)

-- CheckOrigin of the upgrader
unfoldable pub check_origin : String → Request → Bool
check_origin allowed r = if allowed == "" then true else r.header "Origin" == allowed

-- What the loop of the WebSocket handler meets: the end of the request, the closed channel, or an
-- event with its encoding; a client that takes the message or not.
pub data Next (E : Type 0) : Type 0 where
  context_done channel_closed : Next E
  event : E → Option String → Bool → Next E

pub data WsCall : Type 0 where
  subscribed unsubscribed : WsCall
  written : String → WsCall

abbrev ws_loop : {E : Type 0} → List (Next E) → List WsCall
ws_loop [] = []
ws_loop (context_done ∷ rest) = []
ws_loop (channel_closed ∷ rest) = []
ws_loop (event e none takes ∷ rest) = []
ws_loop (event e (some b) false ∷ rest) = written b ∷ []
ws_loop (event e (some b) true ∷ rest) = written b ∷ ws_loop rest

-- orchWsHandler: `upgrades` and `reads` are the answers of Upgrade, behind CheckOrigin, and of the
-- first ReadMessage.
unfoldable pub orch_ws_handler :
    {E : Type 0} → String → Bool → Bool → Request → List (Next E) → List WsCall
unfolding check_origin
orch_ws_handler allowed upgrades reads r met =
    if not (check_origin allowed r)
    then []
    else if not upgrades
    then []
    else if not reads
    then []
    else subscribed ∷ (ws_loop met ++ unsubscribed ∷ [])
