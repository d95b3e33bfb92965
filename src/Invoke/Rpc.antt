-- ===== src/Invoke/Rpc.antt =====
-- pkg/invokeapi/rpcinvoker.go: the RPCInvoker, which sends an invocation over AMQP. The steps of an
-- invocation are apart, since the broker and the response handler act between them: publish, store
-- the channel, wait. A Response channel is unbuffered here, so the handler's send is one rendezvous
-- with the invoker that owns the channel, and waits for ever if that invoker has left.
use lambda_runtime_api_daemo.Base.{
  ℕ, true, not, ◌&&◌, Option, none, some, [], ◌∷◌, ◌++◌, if◌then◌else◌, nat_eq, Bytes, codes,
  bytes_eq, is_empty, GoMap, lookup, delete, insert,
}
use lambda_runtime_api_daemo.Messaging.Message.{Message, Table, text, zero_message}
use lambda_runtime_api_daemo.Invoke.Invoker.{Invocation}
use lambda_runtime_api_daemo.Invoke.Rapi.{
  timeout_message, timeout_response, start_time, correlation_id,
}

pub record RpcInvoker : Type 0 where
  pub pending_requests : GoMap Bytes ℕ
  pub reply_to : Bytes
  pub timeout : ℕ

abbrev pub context_key : Bytes
context_key = codes "X-Amz-Client-Context"

abbrev pub trace_key : Bytes
trace_key = codes "X-Amzn-Trace-Id"

-- The headers of the request, by which of the two values are set.
unfoldable pub request_headers : Bytes → Bytes → Table
request_headers b64 xray =
    if not (is_empty b64) && not (is_empty xray)
    then (context_key, text b64) ∷ (trace_key, text xray) ∷ []
    else if not (is_empty b64)
    then (context_key, text b64) ∷ []
    else if not (is_empty xray)
    then (trace_key, text xray) ∷ []
    else []

unfoldable pub rpc_request : RpcInvoker → Invocation → ℕ → Bytes → Message
unfolding request_headers
rpc_request v inv now uuid = record zero_message {
  subject = inv.name;
  content_type = codes "application/json";
  reply_to = v.reply_to;
  correlation_id = correlation_id inv.cid uuid;
  timestamp = some (start_time inv.timestamp now);
  headers = request_headers inv.b64_client_context inv.xray;
  body = inv.body;
  mandatory = true;
}

-- The critical section that follows the publishing of the request.
unfoldable pub store : Bytes → ℕ → RpcInvoker → RpcInvoker
store cid ch v = record v { pending_requests = insert cid ch v.pending_requests }

-- The channel that the handler sends the body on, if a requestor is found.
unfoldable pub response_handler : Message → RpcInvoker → RpcInvoker × Option (ℕ × Bytes)
response_handler m v = elim (lookup m.correlation_id v.pending_requests) [
  | none ↦ (v, none)
  | some ch ↦ (
    record v { pending_requests = delete m.correlation_id v.pending_requests },
    some (ch, m.body),
  )
]

unfoldable pub unreachable : Message → Message
unreachable m = record m {
  body =
      codes "{\"errorType\": \"ResourceNotFoundException\", \"errorMessage\": \""
      ++ (m.subject ++ codes " is Unreachable\"}");
}

-- An event of the main loop: a message of the consumer, or one that the broker returns.
pub data Incoming : Type 0 where
  consumed returned : Message → Incoming

unfoldable pub on_incoming : Incoming → RpcInvoker → RpcInvoker × Option (ℕ × Bytes)
unfolding response_handler unreachable
on_incoming (consumed m) v = response_handler m v
on_incoming (returned m) v = response_handler (unreachable m) v

-- How the wait ends: with the body that a handler hands over, by the timeout, or since the client
-- has closed its connection.
pub data Awaited : Type 0 where
  responded : Bytes → Awaited
  timed_out closed : Awaited

unfoldable pub after_wait : Bytes → Bytes → Awaited → RpcInvoker → RpcInvoker × Bytes
unfolding timeout_message timeout_response
after_wait cid now (responded body) v = (v, body)
after_wait cid now timed_out v = (
  record v { pending_requests = delete cid v.pending_requests },
  timeout_response now (timeout_message cid v.timeout),
)
after_wait cid now closed v = (record v { pending_requests = delete cid v.pending_requests }, [])
