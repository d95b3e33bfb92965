-- ===== src/Invoke/Servers.antt =====
-- pkg/invokeapi/invokeapiserver.go and rpcserver.go: the two handlers that call an Invoker.
use lambda_runtime_api_daemo.Base.{
  false, Option, none, some, [], ◌∷◌, nat_eq, Bytes, codes, bytes_eq, GoMap, lookup,
}
use lambda_runtime_api_daemo.Http.{HttpResponse, plain, status_ok, status_internal_server_error}
use lambda_runtime_api_daemo.Messaging.Message.{
  Message, Table, text, other, Acknowledged, acknowledge,
}
use lambda_runtime_api_daemo.Invoke.Invoker.{Invocation, Invoker}
use lambda_runtime_api_daemo.Invoke.Rpc.{context_key, trace_key}

pub data RequestBody : Type 0 where
  absent unreadable : RequestBody
  read : Bytes → RequestBody

-- What the handler reads of an HTTP request. The names of the headers are in canonical form.
pub record HttpRequest : Type 0 where
  pub function : Bytes
  pub headers : GoMap Bytes Bytes
  pub body : RequestBody

-- headers.Get, which gives "" for a missing header.
unfoldable pub header : Bytes → GoMap Bytes Bytes → Bytes
header name hs = elim (lookup name hs) [ none ↦ [] | some v ↦ v ]

-- A header of an AMQP table, asserted to be a string: `none` is the panic of a failed assertion.
unfoldable pub table_text : Bytes → Table → Option Bytes
table_text key t = elim (lookup key t) [
  | none ↦ some []
  | some (text s) ↦ some s
  | some other ↦ none
]

-- What the RPC handler makes of a message: the arguments of invoke.
unfoldable pub rpc_invocation : Bytes → Message → Option Invocation
unfolding table_text
rpc_invocation name m = elim (table_text context_key m.headers) [
  | none ↦ none
  | some b64 ↦ elim (table_text trace_key m.headers) [
    | none ↦ none
    | some xray ↦ some (record {
      timestamp = m.timestamp;
      name = name;
      cid = m.correlation_id;
      b64_client_context = b64;
      xray = xray;
      body = m.body;
    })
  ]
]

-- The request message, turned round: its body is the response and its subject the reply queue.
unfoldable pub reply : Message → Bytes → Message
reply m body = record m { body = body; subject = m.reply_to; reply_to = [] }

unfoldable pub http_invocation : HttpRequest → Bytes → Invocation
unfolding header
http_invocation r body = record {
  timestamp = none;
  name = r.function;
  cid = header (codes "Amz-Sdk-Invocation-Id") r.headers;
  b64_client_context = header context_key r.headers;
  xray = header trace_key r.headers;
  body = body;
}

module _ {S : Type 0} (v : Invoker S) where
  -- The invocations handler. Without a body it writes nothing, which net/http sends as 200.
  unfoldable pub invocations : HttpRequest → S → S × HttpResponse
  unfolding http_invocation
  invocations r s = elim r.body [
    | absent ↦ (s, plain status_ok [])
    | unreadable ↦ (s, plain status_internal_server_error [])
    | read body ↦
        let (s', response) = v.invoke (http_invocation r body) s in (s', plain status_ok response)
  ]

  -- The RPC handler: the new state, the reply that is sent, and what the acknowledgement of that one
  -- message asks of the broker; `none` is a panic.
  unfoldable pub rpc_handler : Bytes → Message → S → Option (S × Message × Acknowledged)
  unfolding rpc_invocation reply
  rpc_handler name m s = elim (rpc_invocation name m) [
    | none ↦ none
    | some inv ↦
        let (s', response) = v.invoke inv s in
        some (s', reply m response, acknowledge m (false ∷ []))
  ]
