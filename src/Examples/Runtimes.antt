-- ===== src/Examples/Runtimes.antt =====
-- Invocations through the Runtime API and over AMQP at concrete inputs.
use lambda_runtime_api_daemo.Base.{
  ℕ, suc, ◌≡◌, refl, ◌≢◌, true, false, Option, none, some, [], nat_eq, Bytes, codes, bytes_beq,
  bytes_eq, lookup, insert,
}
use lambda_runtime_api_daemo.Extensions.Slice.{Request}
use lambda_runtime_api_daemo.Extensions.Api.{ExtensionsApi}
use lambda_runtime_api_daemo.Runtime.Api.{RuntimeApi, new_runtime_api}
use lambda_runtime_api_daemo.Runtime.Handlers.{
  initerror, next, invocation, store_request, response, blocked, delivered,
}
use lambda_runtime_api_daemo.Runtime.Delivery.{Ready, Fresh, response_delivers, store_request-Ready}
use lambda_runtime_api_daemo.Runtime.Traces.{here, later, takes, response-ne-blocked}
use lambda_runtime_api_daemo.Invoke.Invoker.{Invocation, Invoker}
use lambda_runtime_api_daemo.Invoke.Rapi.{
  RapiInvoker, after_wait, after_send, responded, init_failed,
}
use lambda_runtime_api_daemo.Invoke.Rendezvous.{rendezvous, init_error_forwarded}
use lambda_runtime_api_daemo.Invoke.Rpc.{RpcInvoker, rpc_request, response_handler, store}
use lambda_runtime_api_daemo.Invoke.Servers.{reply}
use lambda_runtime_api_daemo.Invoke.RpcRoundTrip.{carried, rpc_round_trip}
use lambda_runtime_api_daemo.Messaging.Message.{Message}
use lambda_runtime_api_daemo.Messaging.Wire.{publish, from_delivery}

abbrev two_instances : ExtensionsApi
two_instances = record {
  function_name = codes "echo";
  version = codes "$LATEST";
  handler = codes "echo.handler";
  heap = [];
  next_handle = 0;
  extensions = [];
  extensions_by_addr = [];
  extension_by_id = [];
  extension_paths = [];
  timeout = 3;
  max_concurrency = 2;
  enabled = true;
  registered = false;
}

abbrev idle : RuntimeApi
idle = new_runtime_api 2 1800 two_instances

abbrev request : ℕ → Bytes → Request
request ch id = record {
  response = ch;
  function_name = codes "echo";
  id = id;
  client_context = [];
  xray = [];
  body = codes "{}";
  deadline = 3000;
}

abbrev first : Request
first = request 7 (codes "id-1")

abbrev invoker : RapiInvoker
invoker = record { version = codes "$LATEST"; timeout = 3; memory = 128 }

abbrev peer : Bytes
peer = codes "127.0.0.1:4000"

idle-Ready : Ready idle
unfolding new_runtime_api lookup
idle-Ready = record { empty = λ id ch l. refl; own = λ i j ch li lj. cc }

idle-Fresh : Fresh first.response idle
unfolding new_runtime_api lookup
idle-Fresh = (refl, λ id. λ h. cc)

rendezvous_example :
    (after_wait invoker first
      (codes "now")
      responded
      (response first.id (some (codes "ok")) (next peer 5 none (invocation first) idle).0).0).1
    ≡ codes "ok"
rendezvous_example =
    (rendezvous invoker peer (codes "now") 5 none first (codes "ok") idle idle-Ready idle-Fresh).0

response-ne-blocked_example :
    (response first.id (some (codes "ok")) (next peer 5 none (invocation first) idle).0).1 ≢ blocked
response-ne-blocked_example =
    response-ne-blocked idle (next peer 5 none (invocation first) idle).0 first.id
      (some (codes "ok")) idle-Ready (later here (takes peer 5 none first idle idle-Fresh))

abbrev waiting : RuntimeApi
waiting = store_request 5 first idle

waiting-pending : lookup first.id waiting.pending_requests ≡ some 7
unfolding store_request new_runtime_api lookup insert bytes_beq
waiting-pending = refl

response_delivers_example : (response first.id (some (codes "ok")) waiting).1 ≡ delivered
response_delivers_example =
    (response_delivers first.id (codes "ok") waiting 7
      (store_request-Ready 5 first idle idle-Fresh idle-Ready) waiting-pending).0

init_error_forwarded_example :
    (after_wait invoker first
      (codes "now")
      responded
      (after_send first.response init_failed (initerror (some (codes "no handler")) idle).0)).1
    ≡ codes "no handler"
unfolding new_runtime_api
init_error_forwarded_example =
    (init_error_forwarded invoker (codes "now") first (codes "no handler") idle refl idle-Fresh).0

abbrev rpc : RpcInvoker
rpc = record { pending_requests = []; reply_to = codes "reply-queue"; timeout = 3 }

abbrev call : Invocation
call = record {
  timestamp = none;
  name = codes "echo";
  cid = codes "id-1";
  b64_client_context = [];
  xray = codes "Root=1";
  body = codes "{}";
}

-- Answers the body that it is given, and counts.
abbrev echo : Invoker ℕ
echo = record { invoke = λ inv n. (suc n, inv.body); close = λ n. n }

abbrev no_number : Bytes → Option (Option ℕ)
no_number s = none

abbrev asked : Message
asked = carried no_number false (codes "tag") 1 (rpc_request rpc call 5 [])

rpc_round_trip_example :
    (response_handler
      (carried no_number true (codes "reply-tag") 2 (reply asked (codes "{}")))
      (store (rpc_request rpc call 5 []).correlation_id 7 rpc)).1
    ≡ some (7, codes "{}")
unfolding reply rpc_request publish from_delivery
rpc_round_trip_example =
    (rpc_round_trip echo no_number rpc call 5 7 1 2 [] (codes "echo") (codes "tag")
      (codes "reply-tag") true 0).3
