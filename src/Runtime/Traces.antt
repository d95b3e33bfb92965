-- ===== src/Runtime/Traces.antt =====
-- The Runtime API over any order of requests, responses, failures and timeouts.
use lambda_runtime_api_daemo.Base.{
  ℕ, refl, ◌≢◌, inl, inr, Option, none, some, arith, Option-cases, nat_eq, Bytes, bytes_eq, lookup,
  delete, lookup-delete,
}
use lambda_runtime_api_daemo.Extensions.Slice.{Request}
use lambda_runtime_api_daemo.Runtime.Api.{RuntimeApi, delete_request}
use lambda_runtime_api_daemo.Runtime.Handlers.{
  next, invocation, idle_timeout, shutdown_notice, forward, blocked, response, initerror,
}
use lambda_runtime_api_daemo.Runtime.Delivery.{
  Ready-of, Ready, Fresh, store_request-Ready, delete_request-Ready, response-Ready,
  response_delivers,
}

-- What may happen to the Runtime API between two states: a Runtime asks for its next invocation, and
-- an invocation comes with its new channel or none does; a Runtime responds or reports that its
-- initialisation failed; an invoker gives up, or takes the value out of its channel.
pub data Step : RuntimeApi → RuntimeApi → Type 0 where
  takes :
      (addr : Bytes) (now : ℕ) (pgid : Option ℕ) (req : Request) (r : RuntimeApi)
      → Fresh req.response r
      → Step r (next addr now pgid (invocation req) r).0
  idles :
      (addr : Bytes) (now : ℕ) (pgid : Option ℕ) (r : RuntimeApi)
      → Step r (next addr now pgid idle_timeout r).0
  shuts :
      (addr : Bytes) (now : ℕ) (pgid : Option ℕ) (r : RuntimeApi)
      → Step r (next addr now pgid shutdown_notice r).0
  responds : (id : Bytes) (body : Option Bytes) (r : RuntimeApi) → Step r (response id body r).0
  fails : (body : Option Bytes) (r : RuntimeApi) → Step r (initerror body r).0
  gives_up : (id : Bytes) (r : RuntimeApi) → Step r (delete_request id r)
  receives : (ch : ℕ) (r : RuntimeApi) → Step r (record r { channels = delete ch r.channels })

pub data Reach (r : RuntimeApi) : RuntimeApi → Type 0 where
  here : Reach r r
  later : {s t : RuntimeApi} → Reach r s → Step s t → Reach r t

receives-Ready :
    (ch : ℕ) (r : RuntimeApi) → Ready r → Ready (record r { channels = delete ch r.channels })
receives-Ready ch r v = record {
  empty = λ id c l. ground (arith, lookup-delete c ch r.channels, v.empty id c);
  own = v.own;
}

Step-Ready : {r s : RuntimeApi} → Step r s → Ready r → Ready s
unfolding next initerror
Step-Ready (takes addr now pgid req r f) v =
    store_request-Ready now req (record r { extensions = (forward addr req r.extensions).0 }) f
      (Ready-of r _ refl refl v)
Step-Ready (idles addr now pgid r) v = v
Step-Ready (shuts addr now pgid r) v = Ready-of r _ refl refl v
Step-Ready (responds id body r) v = response-Ready id body r v
Step-Ready (fails none r) v = v
Step-Ready (fails (some body) r) v = Ready-of r _ refl refl v
Step-Ready (gives_up id r) v = delete_request-Ready id r v
Step-Ready (receives ch r) v = receives-Ready ch r v

pub Reach-Ready : {r s : RuntimeApi} → Ready r → Reach r s → Ready s
Reach-Ready v here = v
Reach-Ready v (later before st) = Step-Ready st (Reach-Ready v before)

-- From a state in which every pending channel is empty and belongs to one request, however requests
-- with fresh channels, responses, failures and timeouts follow one another, a response never waits
-- for its channel.
pub response-ne-blocked :
    (r s : RuntimeApi) (id : Bytes) (body : Option Bytes)
    → Ready r
    → Reach r s
    → (response id body s).1 ≢ blocked
unfolding response
response-ne-blocked r s id none v path = elim (Option-cases (lookup id s.pending_requests)) [
  | inl e ↦ rw (e, response) (cc)
  | inr (ch, e) ↦ rw (e, response) (cc)
]
response-ne-blocked r s id (some body) v path = elim (Option-cases (lookup id s.pending_requests)) [
  | inl e ↦ rw (e, response) (cc)
  | inr (ch, e) ↦
      λ h. absurd (ground (arith, h, response_delivers id body s ch (Reach-Ready v path) e))
]
