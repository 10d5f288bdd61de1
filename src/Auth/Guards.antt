-- ===== src/Auth/Guards.antt =====
-- `SecurityHeaders` and `RequireCSRFHeader` of src/pkg/auth/middleware.go, and the attributes that
-- slog.go adds to a log record.
use qcontroller.Base.{
  String, Bool, true, false, not, ◌&&◌, ◌||◌, ◌≡◌, arith, List, [], ◌∷◌, ◌++◌, if◌then◌else◌,
  starts_with, Option, some, none, Dict, lookup, insert, is_empty, ◌==◌, lookup-insert,
}
use qcontroller.Auth.Http.{Identity, Request, Outcome, next, deny}

abbrev pub strict_csp : String
strict_csp =
    "default-src 'self'; script-src 'self'; style-src 'self' 'unsafe-inline'; img-src 'self' data: blob:; connect-src 'self'; font-src 'self' data:; frame-ancestors 'none'; base-uri 'self'; form-action 'self'"

-- What SecurityHeaders sets; `hsts` and `swagger` are its two tests.
abbrev with_headers : Bool → Bool → Dict String → Dict String
with_headers hsts swagger h =
    let h₁ = insert "X-Content-Type-Options" "nosniff" h in
    let h₂ = insert "X-Frame-Options" "DENY" h₁ in
    let h₃ = insert "Referrer-Policy" "strict-origin-when-cross-origin" h₂ in
    let h₄ =
      if hsts
      then insert "Strict-Transport-Security" "max-age=31536000; includeSubDomains" h₃
      else h₃ in
    if not swagger then insert "Content-Security-Policy" strict_csp h₄ else h₄

-- SecurityHeaders, on the headers of the response; the request is always passed on.
unfoldable pub security_headers : String → Request → Dict String → Dict String
security_headers external_url r h =
    with_headers (starts_with external_url "https://") (starts_with r.path "/v1/swagger/") h

abbrev pub is_mutating : String → Bool
is_mutating m = m == "POST" || m == "PUT" || m == "PATCH" || m == "DELETE"

-- RequireCSRFHeader
unfoldable pub require_csrf_header : Request → Outcome
require_csrf_header r =
    if is_mutating r.method
    then (if starts_with (r.header "Authorization") "Bearer "
        then next r
        else if is_empty (r.header "X-Requested-With")
        then deny 403 "missing X-Requested-With header"
        else next r)
    else next r

-- A request is refused exactly if it mutates, carries no bearer token and no X-Requested-With
-- header; any other is passed on unchanged.
pub require_csrf_exact :
    (r : Request)
    → require_csrf_header r ≡ (
        if is_mutating r.method
          && not (starts_with (r.header "Authorization") "Bearer ")
          && is_empty (r.header "X-Requested-With")
        then deny 403 "missing X-Requested-With header"
        else next r)
unfolding require_csrf_header
require_csrf_exact r = ground arith

-- The response may not be framed, HSTS is set if the external URL is HTTPS and is otherwise what it
-- was, and the strict policy is set on every path but those of Swagger UI.
pub security_headers_exact :
    (url : String) (r : Request) (h : Dict String)
    → (lookup "X-Frame-Options" (security_headers url r h) ≡ some "DENY")
      × (lookup "Strict-Transport-Security" (security_headers url r h) ≡ (
          if starts_with url "https://"
          then some "max-age=31536000; includeSubDomains"
          else lookup "Strict-Transport-Security" h))
      × (lookup "Content-Security-Policy" (security_headers url r h) ≡ (
          if starts_with r.path "/v1/swagger/"
          then lookup "Content-Security-Policy" h
          else some strict_csp))
unfolding security_headers
security_headers_exact url r h =
    exact (starts_with url "https://") (starts_with r.path "/v1/swagger/")
  where
    exact :
        (hsts swagger : Bool)
        → (lookup "X-Frame-Options" (with_headers hsts swagger h) ≡ some "DENY")
          × (lookup "Strict-Transport-Security" (with_headers hsts swagger h) ≡ (
              if hsts
              then some "max-age=31536000; includeSubDomains"
              else lookup "Strict-Transport-Security" h))
          × (lookup "Content-Security-Policy" (with_headers hsts swagger h)
              ≡ (if swagger then lookup "Content-Security-Policy" h else some strict_csp))
    exact true true = (simp lookup-insert, simp lookup-insert, simp lookup-insert)
    exact true false = (simp lookup-insert, simp lookup-insert, simp lookup-insert)
    exact false true = (simp lookup-insert, simp lookup-insert, simp lookup-insert)
    exact false false = (simp lookup-insert, simp lookup-insert, simp lookup-insert)

-- The attributes that `Handle` of slog.go adds to a record: `user` is the first of the e-mail, the
-- name and the subject that is set, and `subject` is added if it differs.
abbrev display : Identity → String
display id =
    if is_empty id.email then (if is_empty id.name then id.subject else id.name) else id.email

unfoldable pub log_attrs : Option Identity → List (String × String)
log_attrs none = []
log_attrs (some id) =
    let d = display id in
    ("user", d)
    ∷ ((if d == id.subject then [] else ("subject", id.subject) ∷ [])
        ++ ("issuedBy", id.issued_by) ∷ [])
