-- ===== src/Server/Http.antt =====
-- What the handlers of server/api*.go see of a request and write as a response. The JSON decoder of
-- the body is part of Go's library: a handler is given its result, `none` for an error.
use gca_backend.Base.{ℕ, Option}

pub data Method : Type 0 where
  get post other : Method

pub record Request (A : Type 0) : Type 0 where
  pub method : Method
  pub body : Option A

-- The status of the response. `crashed` is a handler that panics: the connection is closed.
pub data Response : Type 0 where
  respond : ℕ → Response
  crashed : Response
