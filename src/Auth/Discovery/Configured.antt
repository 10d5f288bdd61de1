-- ===== src/Auth/Discovery/Configured.antt =====
-- What a new verifier holds of its configuration.
use qcontroller.Base.{
  String, ◌≡◌, arith, refl, sym, ap, subst, ◌∙◌, eq_iff, true, false, List, [], ◌∷◌, Option, some,
  none, is_empty, Result, ok, ◌>>=◌, Dict, lookup, insert, lookup-insert, bind_ok, All,
  Option-cases, List-cases, Bool-cases, String-cases, inl, inr,
}
use qcontroller.Auth.Oidc.{Issuer, Login}
use qcontroller.Auth.Discovery.{
  IssuerConfig, AuthConfig, Provider, configure, configure_all, new_oidc_verifier, with_url, named,
  oauth2_config, as_issuer,
}

-- Every issuer stands under its own name, which is not empty, and without an external URL none has
-- a login.
abbrev pub IsConfigured : String → Dict Issuer → Type 0
IsConfigured external issuers =
    (k : String) (iss : Issuer)
    → lookup k issuers ≡ some iss
    → (iss.name ≡ k) × ((is_empty k ≡ false) × (is_empty external ≡ true → iss.oauth2 ≡ none))

-- The issuer of a configuration is there, for its client.
abbrev pub IsPresent : Dict Issuer → IssuerConfig → Type 0
IsPresent issuers i =
    (iss : Issuer) × ((lookup i.name issuers ≡ some iss) × (iss.client_id ≡ i.client_id))

module _ (discover : String → Result String Provider) where
  -- What a successful round has added.
  configured_parts :
      (external : String) (i : IssuerConfig) (issuers d : Dict Issuer)
      → configure discover external i issuers ≡ ok d
      → (p : Provider) × (login : Option Login) × ((d ≡ insert i.name (as_issuer i p login) issuers)
          × ((is_empty i.name ≡ false)
              × ((lookup i.name issuers ≡ none) × (oauth2_config external i p ≡ ok login))))
  unfolding configure
  configured_parts external i issuers d h =
      let (_, checked, rest) =
        bind_ok (named i issuers)
          (λ _. discover i.issuer_url >>= λ p. oauth2_config external i p >>= λ login.
            ok (insert i.name (as_issuer i p login) issuers))
          h in
      let (p, _, with_login) =
        bind_ok (discover i.issuer_url)
          (λ p. oauth2_config external i p >>= λ login.
            ok (insert i.name (as_issuer i p login) issuers))
          rest in
      let (login, has_login, added) =
        bind_ok (oauth2_config external i p)
          (λ login. ok (insert i.name (as_issuer i p login) issuers)) with_login in
      (
        p,
        login,
        (
          ground (arith, added),
          (
            ground (arith, checked),
            (ground (arith, checked, Option-cases (lookup i.name issuers)), has_login),
          ),
        ),
      )

  no_login :
      (external : String) (i : IssuerConfig) (p : Provider) (login : Option Login)
      → oauth2_config external i p ≡ ok login
      → is_empty external ≡ true
      → login ≡ none
  no_login external i p login h e = ground (arith, h, e, Bool-cases (is_empty i.client_id))

  configure-IsConfigured :
      (external : String) (i : IssuerConfig) (issuers d : Dict Issuer)
      → IsConfigured external issuers
      → configure discover external i issuers ≡ ok d
      → IsConfigured external d
  configure-IsConfigured external i issuers d C h k iss found =
      let (p, login, (added, (has_name, (_, logs_in)))) = configured_parts external i issuers d h in
      let new = as_issuer i p login in
      let found' : lookup k (insert i.name new issuers) ≡ some iss = rw added at found in
      elim (String-cases i.name k) [
        | inl same ↦
            let is_new : new ≡ iss =
              ground (arith, found', lookup-insert k i.name new issuers, same, eq_iff i.name k) in
            (
              ap (λ (t : Issuer). t.name) (sym is_new) ∙ same,
              (
                rw (← same) has_name,
                λ e.
                    ap (λ (t : Issuer). t.oauth2) (sym is_new)
                    ∙ no_login external i p login logs_in e,
              ),
            )
        | inr other ↦
            C k iss
              (ground (arith, found', lookup-insert k i.name new issuers, other, eq_iff i.name k))
      ]

  -- A round keeps the issuers that are there and adds its own.
  keeps :
      (external : String) (i : IssuerConfig) (issuers d : Dict Issuer) (k : String) (iss : Issuer)
      → configure discover external i issuers ≡ ok d
      → lookup k issuers ≡ some iss
      → lookup k d ≡ some iss
  keeps external i issuers d k iss h found =
      let (p, login, (added, (_, (free, _)))) = configured_parts external i issuers d h in
      rw added (
        ground (
          arith,
          found,
          free,
          lookup-insert k i.name (as_issuer i p login) issuers,
          eq_iff i.name k,
          String-cases i.name k,
          ap (λ (t : String). lookup t issuers),
        ))

  keeps_all :
      (external : String) (is : List IssuerConfig) (issuers d : Dict Issuer) (k : String)
      (iss : Issuer)
      → configure_all discover external is issuers ≡ ok d
      → lookup k issuers ≡ some iss
      → lookup k d ≡ some iss
  unfolding configure_all
  keeps_all external [] issuers d k iss h found = ground (arith, h, found)
  keeps_all external (i ∷ is) issuers d k iss h found =
      let (mid, first, rest) =
        bind_ok (configure discover external i issuers) (configure_all discover external is) h in
      keeps_all external is mid d k iss rest (keeps external i issuers mid k iss first found)

  configure_all-IsConfigured :
      (external : String) (is : List IssuerConfig) (issuers d : Dict Issuer)
      → IsConfigured external issuers
      → configure_all discover external is issuers ≡ ok d
      → IsConfigured external d × All (IsPresent d) is
  unfolding configure_all
  configure_all-IsConfigured external [] issuers d C h =
      ((λ k iss found. C k iss (ground (arith, h, found))), tt)
  configure_all-IsConfigured external (i ∷ is) issuers d C h =
      let (mid, first, rest) =
        bind_ok (configure discover external i issuers) (configure_all discover external is) h in
      let (done, present) =
        configure_all-IsConfigured external is mid d
          (configure-IsConfigured external i issuers mid C first) rest in
      let (p, login, (added, _)) = configured_parts external i issuers mid first in
      let there : lookup i.name mid ≡ some (as_issuer i p login) = rw added (
        ground (
          arith,
          lookup-insert i.name i.name (as_issuer i p login) issuers,
          eq_iff i.name i.name,
        )) in
      (
        done,
        (
          (
            as_issuer i p login,
            (keeps_all external is mid d i.name (as_issuer i p login) rest there, refl),
          ),
          present,
        ),
      )

  -- When NewOIDCVerifier succeeds, every issuer of the verifier stands under its own name, which is not
  -- empty, none has a login if the external URL is empty without its slashes at the end, and every issuer of the
  -- configuration is there with its client id.
  pub new_oidc_verifier-IsConfigured :
      (trim_slashes : String → String) (cfg : AuthConfig) (issuers : Dict Issuer)
      (external : String)
      → new_oidc_verifier discover trim_slashes (some cfg) ≡ ok (issuers, external)
      → (external ≡ trim_slashes cfg.external_url)
        × (IsConfigured external issuers × All (IsPresent issuers) cfg.issuers)
  unfolding new_oidc_verifier lookup
  new_oidc_verifier-IsConfigured trim_slashes cfg issuers external h =
      elim (List-cases cfg.issuers) [
        | inl empty ↦ absurd (ground (arith, rw (new_oidc_verifier, empty) at h))
        | inr (i, is, listed) ↦
            let url = trim_slashes cfg.external_url in
            let (d, done, same) =
              bind_ok (configure_all discover url (i ∷ is) [])
                (λ issuers. ok (with_url url issuers)) (rw (new_oidc_verifier, listed) at h) in
            let (C, present) =
              configure_all-IsConfigured url (i ∷ is) [] d (λ k iss found. cc) done in
            let is_url : url ≡ external = ground (arith, same) in
            let is_dict : d ≡ issuers = ground (arith, same) in
            (
              sym is_url,
              (
                subst (λ t. IsConfigured external t) is_dict
                    (subst (λ t. IsConfigured t d) is_url C),
                subst (λ t. All (IsPresent issuers) t) (sym listed)
                    (subst (λ t. All (IsPresent t) (i ∷ is)) is_dict present),
              ),
            )
      ]
