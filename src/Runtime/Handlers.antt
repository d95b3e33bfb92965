-- ===== src/Runtime/Handlers.antt =====
-- pkg/runtimeapi/runtimeapi.go: the handlers of the Runtime API. What a select waits for is an
-- argument. A handler gives the new state and what it writes, and `next` also the events that it
-- sends to Extensions and the signals, in their order.
use lambda_runtime_api_daemo.Base.{
  ℕ, ◌-◌, ◌/◌, false, ◌||◌, Option, none, some, List, [], ◌∷◌, ◌++◌, ltb, nat_beq, if◌then◌else◌,
  nat_eq, length, Bytes, codes, bytes_eq, is_empty, lookup, delete, insert, itoa,
}
use lambda_runtime_api_daemo.Http.{HttpResponse, plain, status_ok, status_accepted}
use lambda_runtime_api_daemo.Process.Manager.{Kill, to_group, sigterm, sigkill}
use lambda_runtime_api_daemo.Extensions.Slice.{Request, send_invoke_event, send_shutdown_event}
use lambda_runtime_api_daemo.Extensions.Api.{ExtensionsApi, indexed_by_addr, disable_events}
use lambda_runtime_api_daemo.Runtime.Api.{RuntimeApi}

abbrev pub nanoseconds : ℕ
nanoseconds = 1000000000

pub record Effects : Type 0 where
  pub events : List (ℕ × Request)
  pub kills : List Kill

abbrev none_sent : Effects
none_sent = record { events = []; kills = [] }

-- The part of `next` that the extensions see of an invocation.
unfoldable pub forward : Bytes → Request → ExtensionsApi → ExtensionsApi × List (ℕ × Request)
forward addr req e =
    if e.registered
    then (e, send_invoke_event e.heap (indexed_by_addr addr e).0 req)
    else (disable_events e, [])

-- The critical section of `next`: the Response channel is stored under the request's ID, and the
-- time since the instances were last all in use decides on a notice on the shutdown channel.
unfoldable pub store_request : ℕ → Request → RuntimeApi → RuntimeApi
store_request now req r =
    let pending = insert req.id req.response r.pending_requests in
    let busy = if nat_beq (length pending) r.lambda_count then now else r.timestamp in
    let overdue = ltb r.idle_timeout ((now - busy) / nanoseconds) in
    record r {
      pending_requests = pending;
      timestamp = if overdue then now else busy;
      shutdown = r.shutdown || overdue;
    }

optional_header : Bytes → Bytes → List (Bytes × Bytes)
optional_header name value = if is_empty value then [] else (name, value) ∷ []

unfoldable pub invocation_response : Request → HttpResponse
unfolding optional_header
invocation_response req = record {
  status = status_ok;
  headers =
      (codes "Lambda-Runtime-Aws-Request-Id", req.id)
      ∷ (codes "Lambda-Runtime-Deadline-Ms", itoa req.deadline)
      ∷ (codes "Lambda-Runtime-Invoked-Function-Arn", req.function_name)
      ∷ (optional_header (codes "Lambda-Runtime-Trace-Id") req.xray
          ++ (optional_header (codes "Lambda-Runtime-Client-Context") req.client_context
              ++ (codes "Content-Type", codes "application/json") ∷ []));
  body = req.body;
}

-- `terminateIdleInstance`: `runtime_pgid` is the process group that the lookup of the address finds
-- where no Extension has registered. A kill of -pgid at pgid 0 signals the caller's own group.
unfoldable pub terminate_idle_instance : Bytes → Option ℕ → ExtensionsApi → Effects
terminate_idle_instance addr runtime_pgid e =
    let (slice, pid, pgid) = indexed_by_addr addr e in
    if e.registered
    then record {
      events = send_shutdown_event e.heap slice (codes "SPINDOWN");
      kills = to_group pgid sigterm ∷ to_group pgid sigkill ∷ [];
    }
    else record {
      events = [];
      kills = elim runtime_pgid [ none ↦ [] | some g ↦ to_group g sigkill ∷ [] ];
    }

pub data NextEvent : Type 0 where
  invocation : Request → NextEvent
  idle_timeout shutdown_notice : NextEvent

unfoldable pub next :
    Bytes → ℕ → Option ℕ → NextEvent → RuntimeApi → RuntimeApi × HttpResponse × Effects
unfolding forward store_request invocation_response terminate_idle_instance
next addr now runtime_pgid (invocation req) r =
    let (e, events) = forward addr req r.extensions in
    (
      store_request now req (record r { extensions = e }),
      invocation_response req,
      record { events = events; kills = [] },
    )
next addr now runtime_pgid idle_timeout r =
    (r, plain status_ok [], terminate_idle_instance addr runtime_pgid r.extensions)
next addr now runtime_pgid shutdown_notice r = (
  record r { shutdown = false },
  plain status_ok [],
  terminate_idle_instance addr runtime_pgid r.extensions,
)

-- A send on a Response channel: it blocks while a value waits in it.
pub data Delivery : Type 0 where
  unmatched no_body delivered blocked : Delivery

unfoldable pub send_response : ℕ → Bytes → RuntimeApi → RuntimeApi × Delivery
send_response ch body r = elim (lookup ch r.channels) [
  | none ↦ (record r { channels = insert ch body r.channels }, delivered)
  | some waiting ↦ (r, blocked)
]

answer : Option Bytes → ℕ → RuntimeApi → RuntimeApi × Delivery
unfolding send_response
answer none ch r = (r, no_body)
answer (some body) ch r = send_response ch body r

-- The handler of the invocation response and error methods. It has written 202 before it looks up
-- the request.
unfoldable pub response : Bytes → Option Bytes → RuntimeApi → RuntimeApi × Delivery × HttpResponse
unfolding answer
response id body r = elim (lookup id r.pending_requests) [
  | none ↦ (r, unmatched, plain status_accepted [])
  | some ch ↦
      let (r', d) = answer body ch (record r { pending_requests = delete id r.pending_requests }) in
      (r', d, plain status_accepted [])
]

-- A non-blocking send on the init error channel.
unfoldable pub initerror : Option Bytes → RuntimeApi → RuntimeApi × HttpResponse
initerror none r = (r, plain status_accepted [])
initerror (some body) r = (
  record r { init_error = elim r.init_error [ none ↦ some body | some old ↦ some old ] },
  plain status_accepted [],
)
