-- ===== src/Runtime/Delivery.antt =====
-- Requests and the responses that reach them: at most one for each, and none to another's channel.
use mathlib.Core.Path.{subst}
use lambda_runtime_api_daemo.Base.{
  ℕ, ◌≡◌, refl, sym, ◌≢◌, inl, inr, Option, none, some, [], arith, if◌then◌else◌, Option-cases,
  ◌==◌, nat_eq, Bytes, bytes_beq_iff, bytes_eq, GoMap, lookup, delete, insert, lookup-delete,
  lookup-insert, lookup-insert_self, lookup-delete_self,
}
use lambda_runtime_api_daemo.Http.{plain, status_accepted}
use lambda_runtime_api_daemo.Extensions.Slice.{Request}
use lambda_runtime_api_daemo.Runtime.Api.{RuntimeApi, delete_request}
use lambda_runtime_api_daemo.Runtime.Handlers.{
  next, invocation, store_request, unmatched, delivered, response, send_response,
}

-- Each pending channel is empty, and no two requests share one.
pub record Ready (r : RuntimeApi) : Type 0 where
  pub empty :
      (id : Bytes) (ch : ℕ) → lookup id r.pending_requests ≡ some ch → lookup ch r.channels ≡ none
  pub own :
      (i j : Bytes) (ch : ℕ)
      → lookup i r.pending_requests ≡ some ch
      → lookup j r.pending_requests ≡ some ch
      → i ≡ j

-- `Ready` reads two fields.
pub Ready-of :
    (r s : RuntimeApi)
    → s.pending_requests ≡ r.pending_requests
    → s.channels ≡ r.channels
    → Ready r
    → Ready s
Ready-of r s p c v = record {
  empty = λ id ch l. rw c (v.empty id ch (rw (← p) l));
  own = λ i j ch li lj. v.own i j ch (rw (← p) li) (rw (← p) lj);
}

-- A channel as the invoker makes it for one invocation: empty, and in nobody else's hands.
abbrev pub Fresh : ℕ → RuntimeApi → Type 0
Fresh ch r = (lookup ch r.channels ≡ none) × ((id : Bytes) → lookup id r.pending_requests ≢ some ch)

pub store_request-Ready :
    (now : ℕ) (req : Request) (r : RuntimeApi)
    → Fresh req.response r
    → Ready r
    → Ready (store_request now req r)
unfolding store_request
store_request-Ready now req r f v = record {
  empty = λ id ch l.
      ground (arith, lookup-insert id req.id req.response r.pending_requests, f.0, v.empty id ch);
  own = λ i j ch li lj. ground (
    arith,
    lookup-insert i req.id req.response r.pending_requests,
    lookup-insert j req.id req.response r.pending_requests,
    f.1 i,
    f.1 j,
    v.own i j ch,
    bytes_beq_iff req.id i,
    bytes_beq_iff req.id j,
  );
}

pub delete_request-Ready : (id : Bytes) (r : RuntimeApi) → Ready r → Ready (delete_request id r)
unfolding delete_request
delete_request-Ready id r v = record {
  empty = λ i ch l. ground (arith, lookup-delete i id r.pending_requests, v.empty i ch);
  own = λ i j ch li lj. ground (
    arith,
    lookup-delete i id r.pending_requests,
    lookup-delete j id r.pending_requests,
    v.own i j ch,
  );
}

-- Where every pending channel is empty and belongs to one request, a response with a body to a
-- pending request is answered 202, frees its entry and reaches its channel with no wait, and
-- touches no other request and no other channel.
pub response_delivers :
    (id : Bytes) (body : Bytes) (r : RuntimeApi) (ch : ℕ)
    → Ready r
    → lookup id r.pending_requests ≡ some ch
    → let (r', d, h) = response id (some body) r in
      (d ≡ delivered)
      × (h.status ≡ status_accepted)
      × ((j : Bytes)
          → lookup j r'.pending_requests ≡ (if id == j then none else lookup j r.pending_requests))
      × ((c : ℕ) → lookup c r'.channels ≡ (if ch == c then some body else lookup c r.channels))
unfolding response send_response
response_delivers id body r ch v l =
    rw (l, response)
      (rw (v.empty id ch l, send_response)
        (
          refl,
          refl,
          λ j. lookup-delete j id r.pending_requests,
          λ c. lookup-insert c ch body r.channels,
        ))

-- An entry of the table that stays is not of the channel that is filled.
filled-Ready :
    (id : Bytes) (body : Bytes) (ch : ℕ) (r : RuntimeApi)
    → Ready r
    → lookup id r.pending_requests ≡ some ch
    → Ready (record r {
      pending_requests = delete id r.pending_requests;
      channels = insert ch body r.channels;
    })
filled-Ready id body ch r v l = record {
  empty = λ i c li. ground (
    arith,
    lookup-delete i id r.pending_requests,
    lookup-insert c ch body r.channels,
    v.empty i c,
    v.own i id c,
    bytes_beq_iff id i,
  );
  own = λ i j c li lj. ground (
    arith,
    lookup-delete i id r.pending_requests,
    lookup-delete j id r.pending_requests,
    v.own i j c,
  );
}

pub response-Ready :
    (id : Bytes) (body : Option Bytes) (r : RuntimeApi) → Ready r → Ready (response id body r).0
unfolding response send_response
response-Ready id none r v = elim (Option-cases (lookup id r.pending_requests)) [
  | inl e ↦ rw (e, response) v
  | inr (ch, e) ↦ rw (e, response) (unfold delete_request in delete_request-Ready id r v)
]
response-Ready id (some body) r v = elim (Option-cases (lookup id r.pending_requests)) [
  | inl e ↦ rw (e, response) v
  | inr (ch, e) ↦
      rw (e, response) (rw (v.empty id ch e, send_response) (filled-Ready id body ch r v e))
]

pub response_unmatched :
    (id : Bytes) (body : Option Bytes) (r : RuntimeApi)
    → lookup id r.pending_requests ≡ none
    → response id body r ≡ (r, unmatched, plain status_accepted [])
unfolding response
response_unmatched id body r e = rw (e, response)

lookup-delete_same : (i j : Bytes) (m : GoMap Bytes ℕ) → i ≡ j → lookup j (delete i m) ≡ none
lookup-delete_same i j m e = subst (λ k. lookup k (delete i m) ≡ none) e (lookup-delete_self i m)

lookup-insert_same :
    (i j : Bytes) (ch : ℕ) (m : GoMap Bytes ℕ) → i ≡ j → lookup i (insert j ch m) ≡ some ch
lookup-insert_same i j ch m e =
    subst (λ k. lookup k (insert j ch m) ≡ some ch) (sym e) (lookup-insert_self j ch m)

-- Two invocations that share an ID share one entry: the later one's channel replaces the earlier
-- one's. When the first one's ID is then deleted, as an invoker does that gives up, a response with
-- the second one's ID matches nothing and changes nothing.
shared_id-unmatched :
    (addr1 addr2 : Bytes) (now1 now2 : ℕ) (pgid1 pgid2 : Option ℕ) (first second : Request)
    (body : Option Bytes) (r : RuntimeApi)
    → first.id ≡ second.id
    → let r1 = (next addr1 now1 pgid1 (invocation first) r).0 in
      let r2 = (next addr2 now2 pgid2 (invocation second) r1).0 in
      let r3 = delete_request first.id r2 in
      (lookup first.id r2.pending_requests ≡ some second.response)
      × (response second.id body r3 ≡ (r3, unmatched, plain status_accepted []))
unfolding next store_request delete_request
shared_id-unmatched addr1 addr2 now1 now2 pgid1 pgid2 first second body r same =
    let r1 = (next addr1 now1 pgid1 (invocation first) r).0 in
    let r2 = (next addr2 now2 pgid2 (invocation second) r1).0 in
    (
      lookup-insert_same first.id second.id second.response r1.pending_requests same,
      response_unmatched second.id body (delete_request first.id r2)
          (lookup-delete_same first.id second.id r2.pending_requests same),
    )
