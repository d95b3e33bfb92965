-- ===== src/Invoke/Rapi.antt =====
-- pkg/invokeapi/rapiinvoker.go: the RAPIInvoker, which passes an invocation to the Runtime API of
-- its own process. An invocation blocks twice, so it is three pieces: what it builds, what it does
-- when the send select is left, and what it does when the response select is left; in between the
-- Runtime API goes on. `decode` is base64.StdEncoding.DecodeString, an error with its text. The
-- report lines on standard output are left out.
use lambda_runtime_api_daemo.Base.{
  ℕ, ◌+◌, ◌-◌, ◌*◌, ◌⊎◌, inl, inr, Option, none, some, [], ◌∷◌, ◌++◌, ltb, if◌then◌else◌, nat_eq,
  Bytes, codes, bytes_eq, is_empty, lookup, delete, itoa,
}
use lambda_runtime_api_daemo.Extensions.Slice.{Request}
use lambda_runtime_api_daemo.Runtime.Api.{RuntimeApi, delete_request}
use lambda_runtime_api_daemo.Runtime.Handlers.{send_response}
use lambda_runtime_api_daemo.Invoke.Invoker.{Invocation}

pub record RapiInvoker : Type 0 where
  pub version : Bytes
  pub timeout : ℕ
  pub memory : ℕ

-- "%.2f" of a whole number of seconds.
unfoldable pub timeout_message : Bytes → ℕ → Bytes
timeout_message id timeout =
    id ++ (codes " Task timed out after " ++ (itoa timeout ++ codes ".00 seconds"))

-- `now` is the current time as RFC3339Milli prints it.
unfoldable pub timeout_response : Bytes → Bytes → Bytes
timeout_response now message =
    codes "{\"errorType\": \"TimeoutError\", \"errorMessage\": \""
    ++ (now ++ (codes " " ++ (message ++ codes "\"}")))

-- The duration in nanoseconds, at most the timeout; the source divides it by 10^6.
unfoldable pub duration_ns : ℕ → ℕ → ℕ → ℕ
duration_ns start now timeout =
    if ltb (timeout * 1000000000) (now - start) then timeout * 1000000000 else now - start

unfoldable pub context_error : Bytes → Bytes
context_error err =
    codes
      "{\"errorType\": \"Runtime.LambdaContextUnmarshalError\", \"errorMessage\": \"Unable to decode base64: "
    ++ (err ++ codes "\"}")

abbrev pub start_time : Option ℕ → ℕ → ℕ
start_time none now = now
start_time (some t) now = t

abbrev pub correlation_id : Bytes → Bytes → Bytes
correlation_id cid uuid = if is_empty cid then uuid else cid

module _ (decode : Bytes → Bytes ⊎ Bytes) where
  -- The client context, or the response to a context that does not decode.
  unfoldable pub client_context : Bytes → Bytes ⊎ Bytes
  unfolding context_error
  client_context [] = inr []
  client_context (c ∷ s) = elim (decode (c ∷ s)) [
    | inl err ↦ inl (context_error err)
    | inr context ↦ inr context
  ]

  -- Up to the first select: the request for the Runtime API with the new channel `ch`, or the error
  -- response that invoke returns at once. Times are in milliseconds.
  unfoldable pub build : RapiInvoker → Invocation → ℕ → Bytes → ℕ → Bytes ⊎ Request
  unfolding client_context
  build v inv now uuid ch = elim (client_context inv.b64_client_context) [
    | inl error ↦ inl error
    | inr context ↦ inr (record {
      response = ch;
      function_name = inv.name;
      id = correlation_id inv.cid uuid;
      client_context = context;
      xray = inv.xray;
      body = inv.body;
      deadline = start_time inv.timestamp now + v.timeout * 1000;
    })
  ]

-- How the sends of the first selects end: a Runtime has taken the request, an init error has come
-- instead, or the context is done.
pub data Sent : Type 0 where
  taken init_failed sending_cancelled : Sent

-- The init error is received, which takes one to be in its channel, and forwarded to the invocation's
-- own channel, which has room for it.
unfoldable pub after_send : ℕ → Sent → RuntimeApi → RuntimeApi
unfolding send_response
after_send ch taken r = r
after_send ch init_failed r = elim r.init_error [
  | none ↦ r
  | some body ↦ (send_response ch body (record r { init_error = none })).0
]
after_send ch sending_cancelled r = r

-- How the wait for the response ends.
pub data Awaited : Type 0 where
  responded timed_out closed : Awaited

abbrev received : Option Bytes → Bytes
received none = []
received (some body) = body

-- A receive takes the value out of the channel. A connection that the client has closed gets
-- nothing.
unfoldable pub after_wait :
    RapiInvoker → Request → Bytes → Awaited → RuntimeApi → RuntimeApi × Bytes
unfolding timeout_message timeout_response delete_request
after_wait v req now responded r = (
  record r { channels = delete req.response r.channels },
  received (lookup req.response r.channels),
)
after_wait v req now timed_out r =
    (delete_request req.id r, timeout_response now (timeout_message req.id v.timeout))
after_wait v req now closed r = (delete_request req.id r, [])
