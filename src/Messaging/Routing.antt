-- ===== src/Messaging/Routing.antt =====
-- Where the messages of a producer go, and which queue a consumer reads.
use lambda_runtime_api_daemo.Base.{
  ℕ, ◌≡◌, refl, ap, ◌∙◌, ◌⊎◌, inl, inr, Bool, true, false, Option, none, some, [], arith, nat_beq,
  if◌then◌else◌, ◌==◌, nat_eq, length, Bytes, bytes_eq, is_empty,
}
use lambda_runtime_api_daemo.Messaging.Message.{Message}
use lambda_runtime_api_daemo.Messaging.Address.{Declare}
use lambda_runtime_api_daemo.Messaging.Wire.{publish}
use lambda_runtime_api_daemo.Messaging.Session.{Session, first_channel}
use lambda_runtime_api_daemo.Messaging.Broker.{Broker, Passive, exists, exception, exchange_calls}
use lambda_runtime_api_daemo.Messaging.Producer.{
  Producer, route, open_parsed, declared, declared_route,
}

-- The exchange and the routing key of a message that a producer publishes.
abbrev pub route_of : (Bytes → Option (Option ℕ)) → Message → Producer → Bytes × Bytes
route_of to_int m p = let out = publish to_int p.name p.subject m in (out.exchange, out.routing_key)

abbrev pub is_exists : Passive → Bool
is_exists exists = true
is_exists _ = false

open_parsed-named :
    (b : Broker) (s : Session) (d : Declare) (p : Producer)
    → is_empty p.name ≡ false
    → first_channel s.connection b.temporary_channel ≡ some none
    → open_parsed b s d p ≡ declared_route s d (route (b.passive p.name) d p)
unfolding open_parsed
open_parsed-named b s d p named temp = rw (open_parsed, named, temp)

declared_route-some :
    (s : Session) (d : Declare) (p : Producer)
    → nat_beq (length s.channels) 0 ≡ false
    → declared_route s d (some p) ≡ some (p, exchange_calls d, none)
unfolding declared_route declared
declared_route-some s d p chan = ground (arith, chan)

route-missing :
    (d : Declare) (p : Producer) (reason : Bytes)
    → (p.name == d.exchange) ≡ false
    → route (exception 404 reason) d p ≡ some (record p { name = []; subject = p.name })
unfolding route
route-missing d p reason ne = ground (arith, ne)

-- A producer with a name, on a session with a channel and a broker that gives it a temporary one.
-- If an exchange of its name exists, its messages go to that exchange, by their own subject or else
-- by that of the address. If the broker says that there is none, and the address declares none of
-- that name, they go to the default exchange, by their own subject or else by the name. In both
-- cases nothing but the declared exchange is asked of the broker.
pub producer-routes :
    (to_int : Bytes → Option (Option ℕ)) (m : Message) (b : Broker) (s : Session) (d : Declare)
    (p : Producer) (reason : Bytes)
    → is_empty p.name ≡ false
    → nat_beq (length s.channels) 0 ≡ false
    → first_channel s.connection b.temporary_channel ≡ some none
    → ((b.passive p.name ≡ exists)
        ⊎ ((b.passive p.name ≡ exception 404 reason) × ((p.name == d.exchange) ≡ false)))
    → (q : Producer) × (open_parsed b s d p ≡ some (q, exchange_calls d, none))
      × (q.pool_size ≡ p.pool_size)
      × (route_of to_int m q ≡ (
          if is_exists (b.passive p.name)
          then (p.name, if is_empty m.subject then p.subject else m.subject)
          else ([], if is_empty m.subject then p.name else m.subject)))
unfolding publish route
producer-routes to_int m b s d p reason named chan temp (inl e) = (
  p,
  open_parsed-named b s d p named temp
      ∙ ap (λ a. declared_route s d (route a d p)) e
      ∙ declared_route-some s d p chan,
  refl,
  rw e,
)
producer-routes to_int m b s d p reason named chan temp (inr (e, ne)) =
    let q : Producer = record p { name = []; subject = p.name } in
    (
      q,
      open_parsed-named b s d p named temp
          ∙ ap (λ a. declared_route s d (route a d p)) e
          ∙ ap (declared_route s d) (route-missing d p reason ne)
          ∙ declared_route-some s d q chan,
      refl,
      rw e,
    )
