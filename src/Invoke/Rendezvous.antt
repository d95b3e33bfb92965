-- ===== src/Invoke/Rendezvous.antt =====
-- An invocation from the RAPIInvoker through the Runtime API to a Runtime, and the way back.
use lambda_runtime_api_daemo.Base.{
  ℕ, ◌≡◌, refl, ◌≢◌, Option, none, some, [], arith, if◌then◌else◌, ◌==◌, nat_eq, Bytes, bytes_eq,
  lookup, insert, lookup-delete, lookup-insert, lookup-insert_self, lookup-delete_self,
}
use lambda_runtime_api_daemo.Http.{plain, status_accepted}
use lambda_runtime_api_daemo.Extensions.Slice.{Request}
use lambda_runtime_api_daemo.Runtime.Api.{RuntimeApi, delete_request}
use lambda_runtime_api_daemo.Runtime.Handlers.{
  next, invocation, store_request, forward, response, unmatched, send_response, initerror,
}
use lambda_runtime_api_daemo.Runtime.Delivery.{
  Ready, Fresh, store_request-Ready, response_delivers, response_unmatched, Ready-of,
}
use lambda_runtime_api_daemo.Invoke.Rapi.{
  RapiInvoker, after_wait, responded, timed_out, closed, Awaited, after_send, init_failed,
}

next-Ready :
    (addr : Bytes) (now : ℕ) (pgid : Option ℕ) (req : Request) (r : RuntimeApi)
    → Fresh req.response r
    → Ready r
    → Ready (next addr now pgid (invocation req) r).0
unfolding next
next-Ready addr now pgid req r f v =
    store_request-Ready now req (record r { extensions = (forward addr req r.extensions).0 }) f
      (Ready-of r _ refl refl v)

-- If every pending channel is empty and belongs to one request, and the request's own channel is
-- fresh: a Runtime takes the invocation and responds to its ID, and the invoker that waits gets
-- exactly the body of that response. Afterwards nothing is pending under the ID, and all other
-- entries of the table and all channels are as before.
pub rendezvous :
    (v : RapiInvoker) (addr clock : Bytes) (now : ℕ) (pgid : Option ℕ) (req : Request)
    (body : Bytes) (r : RuntimeApi)
    → Ready r
    → Fresh req.response r
    → let r1 = (next addr now pgid (invocation req) r).0 in
      let r2 = (response req.id (some body) r1).0 in
      let (r3, answer) = after_wait v req clock responded r2 in
      (answer ≡ body)
      × ((j : Bytes)
          → lookup j r3.pending_requests
            ≡ (if req.id == j then none else lookup j r.pending_requests))
      × ((c : ℕ) → lookup c r3.channels ≡ lookup c r.channels)
unfolding after_wait next store_request
rendezvous v addr clock now pgid req body r ready fresh =
    let ch = req.response in
    let r1 = (next addr now pgid (invocation req) r).0 in
    let r2 = (response req.id (some body) r1).0 in
    let got =
      response_delivers req.id body r1 ch (next-Ready addr now pgid req r fresh ready)
        (lookup-insert_self req.id ch r.pending_requests) in
    (
      ground (arith, got.3 ch),
      λ j. ground (arith, got.2 j, lookup-insert j req.id ch r.pending_requests),
      λ c. ground (arith, got.3 c, lookup-delete c ch r2.channels, fresh.0),
    )

-- Once an invoker has given up, by its timeout or by a closed connection, a response with its ID
-- matches nothing and changes nothing.
late_response-unmatched :
    (v : RapiInvoker) (clock : Bytes) (req : Request) (how : Awaited) (body : Option Bytes)
    (r : RuntimeApi)
    → how ≢ responded
    → let r1 = (after_wait v req clock how r).0 in
      response req.id body r1 ≡ (r1, unmatched, plain status_accepted [])
unfolding after_wait delete_request
late_response-unmatched v clock req responded body r h = absurd (h refl)
late_response-unmatched v clock req timed_out body r h =
    response_unmatched req.id body _ (lookup-delete_self req.id r.pending_requests)
late_response-unmatched v clock req closed body r h =
    response_unmatched req.id body _ (lookup-delete_self req.id r.pending_requests)

-- A Runtime that reports an init error while no other one waits in its channel, and an invoker whose
-- invocation was not sent and whose channel is fresh: the invoker receives exactly the body of that
-- report as its response. The init error's channel is empty again, and the table and all
-- channels are as before.
pub init_error_forwarded :
    (v : RapiInvoker) (clock : Bytes) (req : Request) (body : Bytes) (r : RuntimeApi)
    → r.init_error ≡ none
    → Fresh req.response r
    → let r1 = (initerror (some body) r).0 in
      let (r2, answer) =
        after_wait v req clock responded (after_send req.response init_failed r1) in
      (answer ≡ body)
      × (r2.init_error ≡ none)
      × (r2.pending_requests ≡ r.pending_requests)
      × ((c : ℕ) → lookup c r2.channels ≡ lookup c r.channels)
unfolding after_wait after_send send_response initerror
init_error_forwarded v clock req body r no_error fresh =
    let ch = req.response in
    let sent = insert ch body r.channels in
    (
      ground (arith, no_error, fresh.0, lookup-insert_self ch body r.channels),
      ground (arith, no_error, fresh.0),
      ground (arith, no_error, fresh.0),
      λ c.
          ground
            (arith, no_error, fresh.0, lookup-delete c ch sent, lookup-insert c ch body r.channels),
    )
