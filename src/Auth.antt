-- ===== src/Auth.antt =====
-- src/pkg/auth: who makes a request, and how the identity travels. `Http` has the part of net/http
-- that the package uses.
pub mod Http
pub mod Jwt
pub mod Middleware
pub mod Guards
pub mod Metadata
pub mod Cookie
pub mod Oidc
pub mod Discovery
pub mod Secret
