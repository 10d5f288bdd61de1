-- ===== src/Auth/Oidc/Callback.antt =====
-- What a login that the callback of oidc.go completes has established.
use qcontroller.Base.{
  String, ◌≡◌, inl, inr, arith, List, [], ◌∷◌, some, eq_iff, ok, lookup, Option-cases,
}
use qcontroller.Auth.Http.{Identity, Request}
use qcontroller.Auth.Oidc.{
  Issuer, Login, Tokens, StatePayload, OidcVerifier, redirect, SetCookie, set_session, clear_state,
  verify_jwt, handle_callback, open_session, exchange_code,
}
use qcontroller.Db.View.{answer}

-- A session that a callback opens was asked for: the query's state is that of the signed cookie,
-- the code was exchanged by that cookie's provider, and the ID token of the answer was verified.
pub record Opened (v : OidcVerifier) (r : Request) (cookies : List SetCookie) : Type 0 where
  pub cookie : String
  pub asked : StatePayload
  pub issuer : Issuer
  pub login : Login
  pub tokens : Tokens
  pub raw : String
  pub identity : Identity
  pub session : String
  pub had_cookie : r.cookie "qcontroller_oauth_state" ≡ some cookie
  pub signed : v.read_state cookie ≡ some asked
  pub same_state : asked.state ≡ r.query "state"
  pub known : lookup asked.provider v.issuers ≡ some issuer
  pub can_login : issuer.oauth2 ≡ some login
  pub exchanged : login.exchange (r.query "code") ≡ some tokens
  pub has_token : tokens.id_token ≡ some raw
  pub verified : verify_jwt issuer raw ≡ ok identity
  pub written :
      v.write_session (record {
        identity = some identity;
        id_token = raw;
        refresh_token = tokens.refresh_token;
        provider = issuer.name;
      })
      ≡ some session
  pub sets : cookies ≡ set_session session ∷ clear_state ∷ []

-- What `open_session` has done when it redirects.
open_session-redirect :
    (v : OidcVerifier) (iss : Issuer) (tok : Tokens) (cookies : List SetCookie) (url : String)
    → open_session v iss tok ≡ redirect cookies url
    → (raw : String) × (id : Identity) × (enc : String) × (tok.id_token ≡ some raw)
      × (verify_jwt iss raw ≡ ok id)
      × (v.write_session (record {
        identity = some id;
        id_token = raw;
        refresh_token = tok.refresh_token;
        provider = iss.name;
      })
          ≡ some enc)
      × (cookies ≡ set_session enc ∷ clear_state ∷ [])
      × (url ≡ "/ui/")
unfolding open_session
open_session-redirect v iss tok cookies url h = elim (Option-cases tok.id_token) [
  | inl e ↦ absurd (ground (arith, e))
  | inr (raw, e₁) ↦ elim (Option-cases (answer (verify_jwt iss raw))) [
    | inl e ↦ absurd (ground (arith, e₁, e))
    | inr (id, e₂) ↦
        elim (Option-cases (
          v.write_session (record {
            identity = some id;
            id_token = raw;
            refresh_token = tok.refresh_token;
            provider = iss.name;
          }))) [
            | inl e ↦ absurd (ground (arith, e₁, e₂, e))
            | inr (enc, e₃) ↦ (
              raw,
              id,
              enc,
              e₁,
              ground (arith, e₂),
              e₃,
              ground (arith, e₁, e₂, e₃),
              ground (arith, e₁, e₂, e₃),
            )
          ]
  ]
]

-- What `exchange_code` has done when it redirects.
exchange_code-redirect :
    (v : OidcVerifier) (provider code : String) (cookies : List SetCookie) (url : String)
    → exchange_code v provider code ≡ redirect cookies url
    → (iss : Issuer) × (login : Login) × (tok : Tokens) × (lookup provider v.issuers ≡ some iss)
      × (iss.oauth2 ≡ some login)
      × (login.exchange code ≡ some tok)
      × (open_session v iss tok ≡ redirect cookies url)
unfolding exchange_code
exchange_code-redirect v provider code cookies url h =
    elim (Option-cases (lookup provider v.issuers)) [
      | inl e ↦ absurd (ground (arith, e))
      | inr (iss, e₁) ↦ elim (Option-cases iss.oauth2) [
        | inl e ↦ absurd (ground (arith, e₁, e))
        | inr (login, e₂) ↦ elim (Option-cases (login.exchange code)) [
          | inl e ↦ absurd (ground (arith, e₁, e₂, e))
          | inr (tok, e₃) ↦ (iss, login, tok, e₁, e₂, e₃, ground (arith, e₁, e₂, e₃))
        ]
      ]
    ]

-- A session that a callback opens was asked for: the query's state is that of the signed cookie,
-- the code was exchanged by that cookie's provider, and the ID token of the answer was verified.
-- A callback that redirects has opened such a session, and goes to the user interface.
pub callback_opens :
    (v : OidcVerifier) (r : Request) (cookies : List SetCookie) (url : String)
    → handle_callback v r ≡ redirect cookies url
    → Opened v r cookies × (url ≡ "/ui/")
unfolding handle_callback
callback_opens v r cookies url h = elim (Option-cases (r.cookie "qcontroller_oauth_state")) [
  | inl e ↦ absurd (ground (arith, e))
  | inr (c, e₁) ↦ elim (Option-cases (v.read_state c)) [
    | inl e ↦ absurd (ground (arith, e₁, e))
    | inr (sp, e₂) ↦
        let (iss, login, tok, e₃, e₄, e₅, q) =
          exchange_code-redirect v sp.provider (r.query "code") cookies url
            (ground (arith, e₁, e₂, eq_iff sp.state (r.query "state"))) in
        let (raw, id, enc, f₁, f₂, f₃, f₄, f₅) = open_session-redirect v iss tok cookies url q in
        (
          record {
            cookie = c;
            asked = sp;
            issuer = iss;
            login = login;
            tokens = tok;
            raw = raw;
            identity = id;
            session = enc;
            had_cookie = e₁;
            signed = e₂;
            same_state = ground (arith, e₁, e₂, eq_iff sp.state (r.query "state"));
            known = e₃;
            can_login = e₄;
            exchanged = e₅;
            has_token = f₁;
            verified = f₂;
            written = f₃;
            sets = f₄;
          },
          f₅,
        )
  ]
]
