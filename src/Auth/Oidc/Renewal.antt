-- ===== src/Auth/Oidc/Renewal.antt =====
-- What the middleware Renewal of oidc.go has asked of the issuer when it writes a session back.
use qcontroller.Base.{
  ℕ, String, ◌≡◌, ◌≢◌, ◌⊎◌, inl, inr, arith, true, false, not, ◌&&◌, some, none, ok, is_empty,
  lookup, Option-cases, Bool-cases,
}
use qcontroller.Auth.Http.{Identity, Request}
use qcontroller.Auth.Oidc.{
  Issuer, Login, Tokens, Session, OidcVerifier, set_session, verify_jwt, refreshed, renewed,
  renewal, is_past, keep_or, id_token_exp,
}
use qcontroller.Db.View.{answer}

-- The session's ID token has expired, and there is a refresh token for its issuer's login.
pub record IsDue (v : OidcVerifier) (now : ℕ) (sp : Session) : Type 0 where
  pub issuer : Issuer
  pub login : Login
  pub known : lookup sp.provider v.issuers ≡ some issuer
  pub can_login : issuer.oauth2 ≡ some login
  pub has_refresh : is_empty sp.refresh_token ≡ false
  pub expired : is_past (id_token_exp v sp) now ≡ true

-- The login has exchanged the refresh token for an ID token that the issuer's verifier accepts, and
-- the new session has that and its identity.
pub record IsRefreshed (iss : Issuer) (login : Login) (sp sp' : Session) : Type 0 where
  pub tokens : Tokens
  pub raw : String
  pub identity : Identity
  pub answered : login.refresh sp.refresh_token ≡ some tokens
  pub has_token : tokens.id_token ≡ some raw
  pub verified : verify_jwt iss raw ≡ ok identity
  pub replaces : sp' ≡ record sp {
    identity = some identity;
    id_token = raw;
    refresh_token = keep_or tokens.refresh_token sp.refresh_token;
  }

-- The session that is written back: the same if no refresh is due, or the refreshed one if it is.
abbrev pub IsRenewed : OidcVerifier → ℕ → Session → Session → Type 0
IsRenewed v now sp sp' =
    ((sp' ≡ sp) × ¬ IsDue v now sp)
    ⊎ ((due : IsDue v now sp) × IsRefreshed due.issuer due.login sp sp')

refreshed-IsRefreshed :
    (iss : Issuer) (login : Login) (sp sp' : Session)
    → refreshed iss login sp ≡ some sp'
    → IsRefreshed iss login sp sp'
unfolding refreshed
refreshed-IsRefreshed iss login sp sp' h = elim (Option-cases (login.refresh sp.refresh_token)) [
  | inl e ↦ absurd (ground (arith, e, h))
  | inr (tok, e) ↦ elim (Option-cases tok.id_token) [
    | inl f ↦ absurd (ground (arith, e, f, h))
    | inr (raw, f) ↦ elim (Option-cases (answer (verify_jwt iss raw))) [
      | inl g ↦ absurd (ground (arith, e, f, g, h))
      | inr (id, g) ↦ record {
        tokens = tok;
        raw = raw;
        identity = id;
        answered = e;
        has_token = f;
        verified = ground (arith, g);
        replaces = ground (arith, e, f, g, h);
      }
    ]
  ]
]

renewed-IsRenewed :
    (v : OidcVerifier) (now : ℕ) (sp sp' : Session)
    → renewed v now sp ≡ some sp'
    → IsRenewed v now sp sp'
renewed-IsRenewed v now sp sp' h = elim (Option-cases (lookup sp.provider v.issuers)) [
  | inl e ↦ inl (ground (arith, e, h), λ due. absurd (cc (e, due.known)))
  | inr (iss, e) ↦ elim (Option-cases iss.oauth2) [
    | inl f ↦
        inl
          (ground (arith, e, f, h), λ due. absurd (ground (arith, e, f, due.known, due.can_login)))
    | inr (login, f) ↦
        elim (Bool-cases (not (is_empty sp.refresh_token) && is_past (id_token_exp v sp) now)) [
          | inr g ↦ inl (
            ground (arith, e, f, g, h),
            λ due. absurd (ground (arith, g, due.has_refresh, due.expired)),
          )
          | inl g ↦ inr (
            record {
              issuer = iss;
              login = login;
              known = e;
              can_login = f;
              has_refresh = ground (arith, g);
              expired = ground (arith, g);
            },
            refreshed-IsRefreshed iss login sp sp' (ground (arith, e, f, g, h)),
          )
        ]
  ]
]

-- When Renewal sets the session cookie to a value, the request had one that reads as a session with
-- an identity, and the value is written from that session if its ID token has not expired or there
-- is no refresh token for its issuer's login; and else from the session with the identity and the
-- token of an ID token that the issuer has given for the refresh token and its verifier accepts.
pub renewal-IsRenewed :
    (v : OidcVerifier) (now : ℕ) (r : Request) (enc : String)
    → renewal v now r ≡ some (set_session enc)
    → (cookie : String) × (sp : Session) × (sp' : Session) × (r.cookie "qcontroller_session"
        ≡ some cookie)
      × (v.read_session cookie ≡ some sp)
      × (sp.identity ≢ none)
      × (v.write_session sp' ≡ some enc)
      × IsRenewed v now sp sp'
unfolding renewal
renewal-IsRenewed v now r enc h = elim (Option-cases (r.cookie "qcontroller_session")) [
  | inl e ↦ absurd (ground (arith, e, h))
  | inr (c, e) ↦ elim (Option-cases (v.read_session c)) [
    | inl f ↦ absurd (ground (arith, e, f, h))
    | inr (sp, f) ↦ elim (Option-cases sp.identity) [
      | inl g ↦ absurd (ground (arith, e, f, g, h))
      | inr (id, g) ↦ elim (Option-cases (renewed v now sp)) [
        | inl k ↦ absurd (ground (arith, e, f, g, k, h))
        | inr (sp', k) ↦ (
          c,
          sp,
          sp',
          e,
          f,
          λ gone. absurd (cc (g, gone)),
          ground (arith, e, f, g, k, h),
          renewed-IsRenewed v now sp sp' k,
        )
      ]
    ]
  ]
]
