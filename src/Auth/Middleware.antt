-- ===== src/Auth/Middleware.antt =====
-- `Middleware` of src/pkg/auth/middleware.go, and `PublicPaths` of handlers.go.
use qcontroller.Base.{
  String, Bool, true, false, ◌≡◌, ◌↔◌, arith, List, [], ◌∷◌, if◌then◌else◌, starts_with, Result, ok,
  err, refl,
}
use qcontroller.Auth.Http.{
  Identity, anonymous, Request, with_identity, AuthErr, unauthenticated, other, Verifier, Outcome,
  next, deny,
}

abbrev pub has_prefix : List String → String → Bool
has_prefix [] path = false
has_prefix (p ∷ ps) path = if starts_with path p then true else has_prefix ps path

-- The loop over the verifiers.
unfoldable pub try_verifiers : List Verifier → Request → Outcome
try_verifiers [] r = deny 401 "unauthenticated"
try_verifiers (v ∷ vs) r = elim (v r) [
  | ok id ↦ next (with_identity id r)
  | err unauthenticated ↦ try_verifiers vs r
  | err (other e) ↦ deny 401 "unauthenticated"
]

-- Middleware
unfoldable pub middleware : List Verifier → List String → Request → Outcome
unfolding try_verifiers
middleware [] exempt r = next (with_identity anonymous r)
middleware (v ∷ vs) exempt r = if has_prefix exempt r.path then next r else try_verifiers (v ∷ vs) r

-- PublicPaths
unfoldable pub public_paths : List String
public_paths = "/auth/login" ∷ "/auth/callback" ∷ "/auth/logout" ∷ "/auth/config" ∷ []

-- The first verifier with an opinion on the request accepts it as `id`: all before it abstain.
pub data Accepts (r : Request) (id : Identity) : List Verifier → Type 0 where
  first : {v : Verifier} {vs : List Verifier} → v r ≡ ok id → Accepts r id (v ∷ vs)
  later :
      {v : Verifier} {vs : List Verifier}
      → v r ≡ err unauthenticated
      → Accepts r id vs
      → Accepts r id (v ∷ vs)

module _ (r : Request) (id : Identity) (v : Verifier) (vs : List Verifier) where
  same_identity : (i : Identity) → next (with_identity i r) ≡ next (with_identity id r) → i ≡ id
  unfolding with_identity
  same_identity i e = ground arith

  by_answer :
      (a : Result AuthErr Identity)
      → v r ≡ a
      → (try_verifiers vs r ≡ next (with_identity id r) → Accepts r id vs)
      → try_verifiers (v ∷ vs) r ≡ next (with_identity id r)
      → Accepts r id (v ∷ vs)
  unfolding try_verifiers
  by_answer (ok i) e ih h = first (ground (arith, e, same_identity i))
  by_answer (err unauthenticated) e ih h = later e (ih (ground (arith, e)))
  by_answer (err (other x)) e ih h = absurd (ground (arith, e))

  denied_by_answer :
      (a : Result AuthErr Identity)
      → v r ≡ a
      → (((i : Identity) → ¬ Accepts r i vs) → try_verifiers vs r ≡ deny 401 "unauthenticated")
      → ((i : Identity) → ¬ Accepts r i (v ∷ vs))
      → try_verifiers (v ∷ vs) r ≡ deny 401 "unauthenticated"
  unfolding try_verifiers
  denied_by_answer (ok i) e ih none_of = absurd (none_of i (first e))
  denied_by_answer (err unauthenticated) e ih none_of = rw e (ih (λ i a. none_of i (later e a)))
  denied_by_answer (err (other x)) e ih none_of = ground (arith, e)

try_verifiers_sound :
    (vs : List Verifier) (r : Request) (id : Identity)
    → try_verifiers vs r ≡ next (with_identity id r)
    → Accepts r id vs
unfolding try_verifiers
try_verifiers_sound [] r id h = absurd (cc h)
try_verifiers_sound (v ∷ vs) r id h = by_answer r id v vs (v r) refl (try_verifiers_sound vs r id) h

try_verifiers-deny :
    (vs : List Verifier) (r : Request)
    → ((id : Identity) → ¬ Accepts r id vs)
    → try_verifiers vs r ≡ deny 401 "unauthenticated"
unfolding try_verifiers
try_verifiers-deny [] r none_of = refl
try_verifiers-deny (v ∷ vs) r none_of =
    denied_by_answer r anonymous v vs (v r) refl (try_verifiers-deny vs r) none_of

try_verifiers_complete :
    {r : Request} {id : Identity} {vs : List Verifier}
    → Accepts r id vs
    → try_verifiers vs r ≡ next (with_identity id r)
unfolding try_verifiers
try_verifiers_complete (first e) = ground (arith, e)
try_verifiers_complete (later e a) = ground (arith, e, try_verifiers_complete a)

-- With a verifier configured and no exempt prefix, a request is passed on with an identity exactly
-- if the first verifier that has an opinion accepts it with that identity.
pub middleware-Accepts :
    (v : Verifier) (vs : List Verifier) (exempt : List String) (r : Request) (id : Identity)
    → has_prefix exempt r.path ≡ false
    → (middleware (v ∷ vs) exempt r ≡ next (with_identity id r)) ↔ Accepts r id (v ∷ vs)
unfolding middleware
middleware-Accepts v vs exempt r id n = (
  λ h. try_verifiers_sound (v ∷ vs) r id (ground (arith, n)),
  λ a. rw n (try_verifiers_complete a),
)

-- With a verifier configured and no exempt prefix, a request for which the first verifier that has
-- an opinion accepts no identity is answered with 401.
pub middleware_denies :
    (v : Verifier) (vs : List Verifier) (exempt : List String) (r : Request)
    → has_prefix exempt r.path ≡ false
    → ((id : Identity) → ¬ Accepts r id (v ∷ vs))
    → middleware (v ∷ vs) exempt r ≡ deny 401 "unauthenticated"
unfolding middleware
middleware_denies v vs exempt r n none_of = rw n (try_verifiers-deny (v ∷ vs) r none_of)
