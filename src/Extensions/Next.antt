-- ===== src/Extensions/Next.antt =====
-- pkg/runtimeapi/extensionsapi.go: the handler of the Extensions API next method. The select is
-- decided by the environment: an event with a generated UUID and the time, or a cancelled request.
use lambda_runtime_api_daemo.Base.{
  ℕ, ◌+◌, ◌*◌, Option, none, some, [], ◌∷◌, ◌++◌, if◌then◌else◌, ◌==◌, nat_eq, Bytes, codes,
  bytes_eq, is_empty, lookup, insert, itoa,
}
use lambda_runtime_api_daemo.Http.{HttpResponse, plain, status_ok}
use lambda_runtime_api_daemo.Extensions.Slice.{Request, Extension}
use lambda_runtime_api_daemo.Extensions.Api.{ExtensionsApi, extension_by_id_of}
use lambda_runtime_api_daemo.Extensions.Register.{forbidden}

pub data Wait : Type 0 where
  received : Request → Bytes → ℕ → Wait
  cancelled : Wait

tracing : Bytes → Bytes
tracing xray =
    if is_empty xray
    then []
    else codes ",\"tracing\":{\"type\":\"X-Amzn-Trace-Id\",\"value\":\"" ++ xray ++ codes "\"}"

-- The time is in milliseconds.
shutdown_body : ℕ → ℕ → Bytes → Bytes
shutdown_body now timeout reason =
    codes "{\"eventType\":\"SHUTDOWN\",\"shutdownReason\":\""
    ++ reason
    ++ codes "\",\"deadlineMs\":"
    ++ itoa (now + timeout * 1000)
    ++ codes "}"

invoke_body : Request → Bytes
unfolding tracing
invoke_body event =
    codes "{\"eventType\":\"INVOKE\",\"deadlineMs\":"
    ++ itoa event.deadline
    ++ codes ",\"requestId\":\""
    ++ event.id
    ++ codes "\",\"invokedFunctionArn\":\""
    ++ event.function_name
    ++ codes "\""
    ++ tracing event.xray
    ++ codes "}"

unfoldable pub event_body : ℕ → ℕ → Request → Bytes
unfolding shutdown_body invoke_body
event_body now timeout event =
    if event.id == codes "SHUTDOWN" then shutdown_body now timeout event.body else invoke_body event

abbrev stamped : Extension → ℕ → Extension
stamped x now = record x { timestamp = some now }

-- A handle whose Extension waits. A cancelled handler writes nothing, which net/http sends as 200.
unfoldable pub await_event : ℕ → Extension → Wait → ExtensionsApi → ExtensionsApi × HttpResponse
unfolding event_body
await_event h x cancelled e = (e, plain status_ok [])
await_event h x (received event uuid now) e = (
  record e { heap = insert h (stamped x now) e.heap },
  record {
    status = status_ok;
    headers = (codes "Lambda-Extension-Event-Identifier", uuid) ∷ [];
    body = event_body now e.timeout event;
  },
)

unfoldable pub missing_identifier : HttpResponse
unfolding forbidden
missing_identifier =
    forbidden (codes "Extension.MissingExtensionIdentifier")
      (codes "Missing Lambda-Extension-Identifier header")

unfoldable pub invalid_identifier : HttpResponse
unfolding forbidden
invalid_identifier =
    forbidden (codes "Extension.InvalidExtensionIdentifier")
      (codes "Invalid Lambda-Extension-Identifier")

-- The handle and its struct, for an identifier that is known.
unfoldable pub deref : Option ℕ → ExtensionsApi → Option (ℕ × Extension)
deref none e = none
deref (some h) e = elim (lookup h e.heap) [ none ↦ none | some x ↦ some (h, x) ]

unfoldable pub next : Bytes → Wait → ExtensionsApi → ExtensionsApi × HttpResponse
unfolding await_event missing_identifier invalid_identifier deref extension_by_id_of
next id wait e =
    if is_empty id then (e, missing_identifier) else elim (deref (extension_by_id_of id e) e) [
      | none ↦ (e, invalid_identifier)
      | some (h, x) ↦ await_event h x wait e
    ]
