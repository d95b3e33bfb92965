-- ===== src/Invoke/Invoker.antt =====
-- pkg/invokeapi/invoker.go: the interface by which the servers hand an invocation on. S is the state
-- that an implementation keeps; an invocation that returns gives the new state and the response.
use lambda_runtime_api_daemo.Base.{ℕ, Option, nat_eq, Bytes, bytes_eq}

-- The arguments of `invoke`. A zero timestamp is `none`.
pub record Invocation : Type 0 where
  pub timestamp : Option ℕ
  pub name : Bytes
  pub cid : Bytes
  pub b64_client_context : Bytes
  pub xray : Bytes
  pub body : Bytes

pub record Invoker (S : Type 0) : Type 0 where
  pub invoke : Invocation → S → S × Bytes
  pub close : S → S
