-- ===== src/Invoke/RpcRoundTrip.antt =====
-- An invocation over AMQP: from the RPCInvoker to the handler of an RPC server, and back.
use lambda_runtime_api_daemo.Base.{
  ℕ, ◌*◌, ◌/◌, ◌≡◌, refl, ◌↔◌, ◌⊎◌, inl, inr, Bool, true, false, Option, none, some, [], ◌∷◌, arith,
  if◌then◌else◌, Bool-cases, ◌==◌, nat_eq, Bytes, bytes_beq, bytes_eq, is_empty, GoMap, lookup,
  delete, insert, lookup-delete, lookup-insert, lookup-insert_self,
}
use lambda_runtime_api_daemo.Messaging.Message.{Message, other, acked, acknowledge}
use lambda_runtime_api_daemo.Messaging.Wire.{publish, from_delivery, delivered}
use lambda_runtime_api_daemo.Invoke.Invoker.{Invocation, Invoker}
use lambda_runtime_api_daemo.Invoke.Rapi.{start_time, correlation_id}
use lambda_runtime_api_daemo.Invoke.Rpc.{
  RpcInvoker, rpc_request, request_headers, store, response_handler, context_key, trace_key,
}
use lambda_runtime_api_daemo.Invoke.Servers.{table_text, rpc_invocation, reply, rpc_handler}

-- The headers that an RPCInvoker writes give back both values, set or not.
table_text-request_headers :
    (b64 xray : Bytes)
    → (table_text context_key (request_headers b64 xray) ≡ some b64)
      × (table_text trace_key (request_headers b64 xray) ≡ some xray)
unfolding table_text request_headers lookup bytes_beq
table_text-request_headers [] [] = (refl, refl)
table_text-request_headers [] (c ∷ s) = (refl, refl)
table_text-request_headers (b ∷ r) [] = (refl, refl)
table_text-request_headers (b ∷ r) (c ∷ s) = (refl, refl)

-- Times go over AMQP in whole seconds.
abbrev pub whole_seconds : ℕ → ℕ
whole_seconds t = t / 1000000000 * 1000000000

-- A message that is published with the default exchange and delivered, to a consumer that
-- acknowledges by itself or not, by a broker that gives it a tag.
abbrev pub carried : (Bytes → Option (Option ℕ)) → Bool → Bytes → ℕ → Message → Message
carried to_int auto_ack consumer_tag tag m =
    let p = publish to_int [] [] m in
    from_delivery auto_ack (record (delivered p consumer_tag tag false) {
      timestamp = elim p.timestamp [ none ↦ none | some t ↦ some (whole_seconds t) ];
    })

-- What the RPC server's handler calls invoke with: the name that it serves and otherwise what the
-- RPCInvoker was called with, the time, in whole seconds, and the correlation ID filled in.
abbrev pub remote_call : Bytes → ℕ → Bytes → Invocation → Invocation
remote_call name now uuid inv = record inv {
  timestamp = some (whole_seconds (start_time inv.timestamp now));
  name = name;
  cid = correlation_id inv.cid uuid;
}

rpc_invocation-rpc_request :
    (to_int : Bytes → Option (Option ℕ)) (v : RpcInvoker) (inv : Invocation) (now tag : ℕ)
    (uuid name consumer_tag : Bytes)
    → rpc_invocation name (carried to_int false consumer_tag tag (rpc_request v inv now uuid))
      ≡ some (remote_call name now uuid inv)
unfolding rpc_invocation rpc_request table_text publish from_delivery
rpc_invocation-rpc_request to_int v inv now tag uuid name consumer_tag =
    let (b64, xray) = table_text-request_headers inv.b64_client_context inv.xray in
    ground (arith, b64, xray)

-- The handler panics on exactly those messages in which one of the two headers is not a string.
rpc_invocation_panics :
    (name : Bytes) (m : Message)
    → (rpc_invocation name m ≡ none)
      ↔ ((lookup context_key m.headers ≡ some other) ⊎ (lookup trace_key m.headers ≡ some other))
unfolding rpc_invocation table_text
rpc_invocation_panics name m = (λ h. ground arith, λ h. ground arith)

response_handler-found :
    (m : Message) (v : RpcInvoker) (ch : ℕ)
    → lookup m.correlation_id v.pending_requests ≡ some ch
    → response_handler m v ≡ (
      record v { pending_requests = delete m.correlation_id v.pending_requests },
      some (ch, m.body),
    )
unfolding response_handler
response_handler-found m v ch e = rw (e, response_handler)

response_handler-missing :
    (m : Message) (v : RpcInvoker)
    → lookup m.correlation_id v.pending_requests ≡ none
    → response_handler m v ≡ (v, none)
unfolding response_handler
response_handler-missing m v e = rw (e, response_handler)

lookup-delete-insert :
    (j cid : Bytes) (ch : ℕ) (m : GoMap Bytes ℕ)
    → lookup j (delete cid (insert cid ch m)) ≡ (if cid == j then none else lookup j m)
lookup-delete-insert j cid ch m =
    ground (arith, lookup-delete j cid (insert cid ch m), lookup-insert j cid ch m)

rpc_handler-invokes :
    {S : Type 0} (w : Invoker S) (name : Bytes) (m : Message) (s : S) (inv : Invocation)
    → rpc_invocation name m ≡ some inv
    → rpc_handler w name m s
      ≡ some ((w.invoke inv s).0, reply m (w.invoke inv s).1, acknowledge m (false ∷ []))
unfolding rpc_handler
rpc_handler-invokes w name m s inv e = rw (e, rpc_handler)

is_empty-nil : (s : Bytes) → is_empty s ≡ true → s ≡ []
is_empty-nil [] h = refl
is_empty-nil (c ∷ s) h = absurd (ground arith)

routing_key-publish :
    (to_int : Bytes → Option (Option ℕ)) (m : Message)
    → (publish to_int [] [] m).routing_key ≡ m.subject
unfolding publish
routing_key-publish to_int m = elim (Bool-cases (is_empty m.subject)) [
  | inl e ↦ ground (arith, e, is_empty-nil m.subject e)
  | inr f ↦ ground (arith, f)
]

module _ {S : Type 0} (w : Invoker S) (to_int : Bytes → Option (Option ℕ)) where
  -- An invocation over AMQP, with a broker that delivers what is published, in order and with its
  -- times in whole seconds. The request is published with the function's name as its routing key.
  -- The RPC server's handler calls its invoker with the arguments of the invocation, the time and
  -- the correlation ID filled in, and asks the broker to acknowledge that one delivery. It sends a
  -- reply that goes to the reply queue. If the channel of the invocation is stored when the reply
  -- is handled, it gets the invoker's response, and the table is as before but for that entry.
  pub rpc_round_trip :
      (v : RpcInvoker) (inv : Invocation) (now ch tag reply_tag : ℕ)
      (uuid name consumer_tag reply_consumer_tag : Bytes) (auto_ack : Bool) (s : S)
      → let m = rpc_request v inv now uuid in
        let request = carried to_int false consumer_tag tag m in
        let (s', response) = w.invoke (remote_call name now uuid inv) s in
        let rep = reply request response in
        let got = carried to_int auto_ack reply_consumer_tag reply_tag rep in
        let after = response_handler got (store m.correlation_id ch v) in
        ((publish to_int [] [] m).routing_key ≡ inv.name)
        × (rpc_handler w name request s ≡ some (s', rep, acked tag false))
        × ((publish to_int [] [] rep).routing_key ≡ v.reply_to)
        × (after.1 ≡ some (ch, response))
        × ((j : Bytes)
            → lookup j after.0.pending_requests
              ≡ (if correlation_id inv.cid uuid == j then none else lookup j v.pending_requests))
  unfolding store rpc_request reply publish from_delivery acknowledge
  rpc_round_trip v inv now ch tag reply_tag uuid name consumer_tag reply_consumer_tag auto_ack s =
      let m = rpc_request v inv now uuid in
      let cid = correlation_id inv.cid uuid in
      let request = carried to_int false consumer_tag tag m in
      let call = remote_call name now uuid inv in
      let rep = reply request (w.invoke call s).1 in
      let got = carried to_int auto_ack reply_consumer_tag reply_tag rep in
      let found =
        response_handler-found got (store cid ch v) ch
          (lookup-insert_self cid ch v.pending_requests) in
      (
        routing_key-publish to_int m,
        rpc_handler-invokes w name request s call
            (rpc_invocation-rpc_request to_int v inv now tag uuid name consumer_tag),
        routing_key-publish to_int rep,
        rw found,
        λ j. rw found (lookup-delete-insert j cid ch v.pending_requests),
      )
