-- ===== src/Examples/Destinations.antt =====
-- Addresses, producers and consumers at concrete inputs.
use lambda_runtime_api_daemo.Base.{
  ℕ, ◌≡◌, refl, Bool, true, false, not, ◌&&◌, Option, none, some, [], ◌∷◌, arith, nat_beq,
  if◌then◌else◌, ◌==◌, nat_eq, Bytes, codes, bytes_beq, bytes_eq, is_empty, trim_space, pos,
}
use lambda_runtime_api_daemo.Messaging.Session.{first_channel}
use lambda_runtime_api_daemo.Messaging.Address.{
  Options, parse_address, default_options, Destination,
}
use lambda_runtime_api_daemo.Messaging.AddressText.{Free, resolved, parse_address-address_text}
use lambda_runtime_api_daemo.Messaging.Broker.{
  Broker, exists, exception, queue_named, declares_queue, binds_queue, exchange_calls,
}
use lambda_runtime_api_daemo.Messaging.Producer.{Producer}
use lambda_runtime_api_daemo.Messaging.Consumer.{
  Consumer, open_parsed as consumer_open_parsed, set_qos,
}
use lambda_runtime_api_daemo.Messaging.Subscription.{consumer-subscribes}
use lambda_runtime_api_daemo.Examples.Messages.{small_session}

abbrev has_none : ℕ → Bytes → Bool
has_none sep [] = true
has_none sep (c ∷ s) = not (nat_beq c sep) && has_none sep s

has_none-Free : (sep : ℕ) (s : Bytes) → has_none sep s ≡ true → Free sep s
has_none-Free sep [] h = tt
has_none-Free sep (c ∷ s) h = (ground (arith, h), has_none-Free sep s (ground (arith, h)))

-- A decoder that makes the node durable, whatever the text.
abbrev durable_node : Bytes → Options → Option Options
durable_node s o =
    if is_empty s then none else some (record o { node = record o.node { durable = true } })

abbrev lasting : Bytes
lasting = codes " {\"node\": {\"durable\": true}}"

parse_address-address_text_example :
    parse_address durable_node (codes "orders/new; {\"node\": {\"durable\": true}}")
    ≡ resolved (codes "orders") (codes "new") (durable_node lasting default_options)
unfolding trim_space
parse_address-address_text_example =
    parse_address-address_text durable_node (codes "orders") (some (codes "new")) (some lasting)
      (has_none-Free b';' (codes "orders") refl) (has_none-Free b'/' (codes "orders") refl)
      (has_none-Free b';' (codes "new") refl) (has_none-Free b'/' (codes "new") refl)
      (has_none-Free b';' lasting refl) refl

-- A broker with one exchange, "events", that names the queues that it is asked to name.
abbrev broker : Broker
broker = record {
  temporary_channel = none;
  passive = λ n. if n == codes "events" then exists else exception 404 (codes "no exchange");
  qos = λ i. none;
  queue_declare = λ n. queue_named (if is_empty n then codes "amq.gen-1" else n);
}

abbrev echo_producer : Producer
echo_producer = record {
  address = codes "echo";
  name = codes "echo";
  subject = [];
  pool_size = 1;
  buf_size = pos 1000;
  closed = true;
}

abbrev plain_decoder : Bytes → Options → Option Options
plain_decoder s o = some o

abbrev echo_destination : Destination
echo_destination = record { options = default_options; name = codes "echo"; subject = [] }

abbrev events_consumer : Consumer
events_consumer = record {
  address = codes "events/new";
  name = codes "events";
  subject = codes "new";
  pool_size = 1;
  capacity = 500;
}

consumer-subscribes_example :
    consumer_open_parsed broker small_session default_options events_consumer
    ≡ some (
      record events_consumer { name = codes "amq.gen-1" },
      declares_queue [] false true true []
          ∷ binds_queue (codes "amq.gen-1") (codes "new") (codes "events") []
          ∷ [],
      none,
    )
unfolding first_channel exchange_calls bytes_beq set_qos
consumer-subscribes_example =
    consumer-subscribes broker small_session default_options events_consumer (codes "amq.gen-1")
      refl refl refl refl refl refl refl refl refl
