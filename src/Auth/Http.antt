-- ===== src/Auth/Http.antt =====
-- src/pkg/auth/auth.go, and of net/http what the package reads of a request and does to a response.
use qcontroller.Base.{String, ℕ, Option, some, List, [], Result}

pub record Identity : Type 0 where
  pub subject : String
  pub email : String
  pub name : String
  pub groups : List String
  pub issued_by : String

unfoldable pub anonymous : Identity
anonymous = record {
  subject = "anonymous";
  email = "";
  name = "";
  groups = [];
  issued_by = "anonymous";
}

-- `header` is `Header.Get`, which is "" for a header that is absent; `context` is the identity in
-- the request's context.
pub record Request : Type 0 where
  pub method : String
  pub path : String
  pub header : String → String
  pub query : String → String
  pub cookie : String → Option String
  pub context : Option Identity

-- WithIdentity
unfoldable pub with_identity : Identity → Request → Request
with_identity id r = record r { context = some id }

-- FromContext
unfoldable pub from_context : Request → Option Identity
from_context r = r.context

pub data AuthErr : Type 0 where
  unauthenticated : AuthErr
  other : String → AuthErr

-- The interface `Verifier`.
abbrev pub Verifier : Type 0
Verifier = Request → Result AuthErr Identity

-- A handler in a chain passes a request on, or answers it with `http.Error`.
pub data Outcome : Type 0 where
  next : Request → Outcome
  deny : ℕ → String → Outcome
