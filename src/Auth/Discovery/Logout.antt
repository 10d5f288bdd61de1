-- ===== src/Auth/Discovery/Logout.antt =====
-- Where Logout sends the user.
use qcontroller.Base.{
  String, ◌<>◌, ◌≡◌, ◌≢◌, arith, refl, ap, ◌∙◌, Bool, true, List, Option, some, is_empty, lookup,
  Option-cases, Bool-cases, inl, inr,
}
use qcontroller.Auth.Oidc.{Issuer, Session, OidcVerifier}
use qcontroller.Auth.Discovery.{incoming_session, logout, logout_url, logout_params, or_empty}
use qcontroller.Auth.Discovery.Configured.{IsConfigured}

-- For a verifier with configured issuers, a Logout whose answer has a URL clears the session
-- cookie; the request had a session that the secret of the verifier opens, and the URL is that
-- of the logout endpoint of the issuer of the session, with the ID token of the session.
pub logout-ends_session :
    (session_cookie : String → Option String) (encode : List (String × String) → String)
    (v : OidcVerifier) (raws : List String)
    → IsConfigured v.external_url v.issuers
    → (logout session_cookie encode (some v) raws).1 ≢ ""
    → (sp : Session) × (iss : Issuer) × ((incoming_session session_cookie v.read_session raws
          ≡ some sp)
        × ((lookup sp.provider v.issuers ≡ some iss)
            × ((logout session_cookie encode (some v) raws)
                ≡ (true, iss.end_session_endpoint <> ("?" <> encode (logout_params v iss sp))))))
unfolding logout
logout-ends_session session_cookie encode v raws C h =
    elim (Option-cases (incoming_session session_cookie v.read_session raws)) [
      | inl no_session ↦
          let url = ap (λ (o : Option Session). logout_url encode v (or_empty o)) no_session in
          elim (Option-cases (lookup "" v.issuers)) [
            | inl nameless ↦ absurd (h (url ∙ rw (logout_url, nameless) refl))
            | inr (iss, found) ↦ absurd (ground (arith, C "" iss found))
          ]
      | inr (sp, session) ↦
          let url = ap (λ (o : Option Session). logout_url encode v (or_empty o)) session in
          elim (Option-cases (lookup sp.provider v.issuers)) [
            | inl unknown ↦ absurd (h (url ∙ rw (logout_url, unknown) refl))
            | inr (iss, found) ↦ elim (Bool-cases (is_empty iss.end_session_endpoint)) [
              | inl no_endpoint ↦ absurd (h (url ∙ rw (logout_url, found, no_endpoint) refl))
              | inr endpoint ↦ (
                sp,
                iss,
                (
                  session,
                  (
                    found,
                    ap (λ (t : String). answer t) (url ∙ rw (logout_url, found, endpoint) refl),
                  ),
                ),
              )
            ]
          ]
    ]
  where
    answer : String → Bool × String
    answer t = (true, t)
