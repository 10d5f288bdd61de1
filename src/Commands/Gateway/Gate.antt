-- ===== src/Commands/Gateway/Gate.antt =====
-- Who reaches the routes of the orchestrator.
use qcontroller.Base.{
  ℕ, String, ◌≡◌, ◌≢◌, ◌⊎◌, inl, inr, arith, true, not, ◌||◌, refl, sym, subst, List-cases, [], ◌∷◌,
  Option, some, Result, ok, is_empty, starts_with, Dict, Bool-cases, Result-cases,
}
use qcontroller.Auth.Http.{
  Identity, Request, with_identity, Outcome, next, deny, unauthenticated, other,
}
use qcontroller.Auth.Middleware.{has_prefix, middleware, try_verifiers}
use qcontroller.Auth.Guards.{require_csrf_header, is_mutating}
use qcontroller.Auth.Oidc.{OidcVerifier, verify}
use qcontroller.Auth.Discovery.{AuthConfig}
use qcontroller.Commands.Gateway.{Gateway, set_up, exempt, serve, inner}

-- A request may mutate with a bearer token or the header that a browser does not send by itself.
abbrev pub IsIntended : Request → Type 0
IsIntended r =
    is_mutating r.method ≡ true
    → (starts_with (r.header "Authorization") "Bearer ")
        || not (is_empty (r.header "X-Requested-With"))
      ≡ true

-- A request reaches the routes as it is on an exempt path, and otherwise with the identity that the
-- verifier has given it.
abbrev pub IsAdmitted : OidcVerifier → Request → Request → Type 0
IsAdmitted v r r' =
    ((has_prefix exempt r.path ≡ true) × (r' ≡ r))
    ⊎ ((id : Identity) × (verify v r ≡ ok id) × (r' ≡ with_identity id r))

csrf-IsIntended : (r r' : Request) → require_csrf_header r ≡ next r' → (r' ≡ r) × IsIntended r
unfolding require_csrf_header
csrf-IsIntended r r' h = (ground arith, λ m. ground (arith, m))

one_verifier :
    (v : OidcVerifier) (r r' : Request)
    → middleware (verify v ∷ []) exempt r ≡ next r'
    → IsAdmitted v r r'
unfolding middleware try_verifiers
one_verifier v r r' h = elim (Bool-cases (has_prefix exempt r.path)) [
  | inl e ↦ inl (e, ground (arith, e))
  | inr e ↦ elim (Result-cases (verify v r)) [
    | inr (id, f) ↦ inr (id, f, ground (arith, e, f))
    | inl (unauthenticated, f) ↦ absurd (ground (arith, e, f))
    | inl (other x, f) ↦ absurd (ground (arith, e, f))
  ]
]

with_identity-IsIntended :
    (id : Identity) (r : Request) → IsIntended (with_identity id r) → IsIntended r
unfolding with_identity
with_identity-IsIntended id r h = h

admitted-IsIntended :
    (v : OidcVerifier) (r r' : Request) → IsAdmitted v r r' → IsIntended r' → IsIntended r
admitted-IsIntended v r r' (inl (e, same)) h = subst (λ x. IsIntended x) same h
admitted-IsIntended v r r' (inr (id, e, same)) h =
    with_identity-IsIntended id r (subst (λ x. IsIntended x) same h)

passed :
    (g : Gateway) (v : OidcVerifier) (now : ℕ) (r r'' : Request) (o : Outcome)
    → g.verifiers ≡ verify v ∷ []
    → middleware (verify v ∷ []) exempt r ≡ o
    → (inner g now o).1 ≡ next r''
    → IsAdmitted v r r'' × IsIntended r
passed g v now r r'' (deny code message) e f h = absurd (ground (arith, h))
passed g v now r r'' (next r') e f h =
    let (same, intended) = csrf-IsIntended r' r'' (ground (arith, e, h)) in
    let admitted = one_verifier v r r' f in
    (
      subst (λ x. IsAdmitted v r x) (sym same) admitted,
      admitted-IsIntended v r r' admitted intended,
    )

-- If issuers are configured and the set-up succeeds, the secret was loaded and a verifier made of the
-- configuration, and a request reaches the routes only on an exempt path, as it is, or with the
-- identity for which that verifier accepts it; and if its method mutates, only with a bearer token or
-- with the header X-Requested-With.
pub serve-IsAdmitted :
    (parse : String → Option (String × String)) (secret : Result String String)
    (new_verifier : AuthConfig → String → Result String OidcVerifier) (cfg : AuthConfig)
    (g : Gateway) (now : ℕ) (r r' : Request) (h : Dict String)
    → cfg.issuers ≢ []
    → set_up parse secret new_verifier (some cfg) ≡ ok g
    → (serve g now r h).2 ≡ next r'
    → (key : String) × (v : OidcVerifier) × (secret ≡ ok key)
      × (new_verifier cfg key ≡ ok v)
      × IsAdmitted v r r'
      × IsIntended r
unfolding set_up serve
serve-IsAdmitted parse secret new_verifier cfg g now r r' h some_issuer s e =
    elim (List-cases cfg.issuers) [
      | inl f ↦ absurd (some_issuer f)
      | inr (i, is, f) ↦ elim (Result-cases secret) [
        | inl (x, k) ↦ absurd (ground (arith, f, k))
        | inr (key, k) ↦ elim (Result-cases (new_verifier cfg key)) [
          | inl (x, l) ↦ absurd (ground (arith, f, k, l))
          | inr (v, l) ↦
              let vs : g.verifiers ≡ verify v ∷ [] = ground (arith, f, k, l) in
              let (admitted, intended) =
                passed g v now r r' (middleware (verify v ∷ []) exempt r) vs refl
                  (ground (arith, vs, e)) in
              (key, v, k, l, admitted, intended)
        ]
      ]
    ]
