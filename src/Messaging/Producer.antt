-- ===== src/Messaging/Producer.antt =====
-- pkg/messaging/amqp091.go: Producer, producerAMQP091.open and Send. `none` is a panic.
use lambda_runtime_api_daemo.Base.{
  ℕ, zero, suc, ◌*◌, Bool, false, not, ◌&&◌, Option, none, some, List, [], nat_beq, if◌then◌else◌,
  ◌==◌, nat_eq, length, Bytes, bytes_beq, bytes_eq, is_empty, ℤ, pos, negsuc,
}
use lambda_runtime_api_daemo.Messaging.Address.{Options, Declare, split_address, parse_address}
use lambda_runtime_api_daemo.Messaging.Session.{Session, first_channel, create_pool}
use lambda_runtime_api_daemo.Messaging.Broker.{
  Broker, Passive, exists, exception, other_error, Call, OpenError, address_error, broker_error,
  exchange_calls,
}

-- The size of a pool and of its buffer, as the options give them.
pub record Pool : Type 0 where
  pub size : ℤ
  pub buf_size : ℤ

-- A pool of less than one connection is made one of one, and a buffer of 0 a thousand for each.
abbrev pub at_least_one : ℤ → ℕ
at_least_one (pos zero) = 1
at_least_one (pos (suc n)) = suc n
at_least_one (negsuc n) = 1

abbrev or_thousand : ℕ → ℤ → ℤ
or_thousand size (pos zero) = pos (size * 1000)
or_thousand size (pos (suc n)) = pos (suc n)
or_thousand size (negsuc n) = negsuc n

pub record Producer : Type 0 where
  pub address : Bytes
  pub name : Bytes
  pub subject : Bytes
  pub pool_size : ℕ
  pub buf_size : ℤ
  pub closed : Bool

unfoldable pub new_producer : Bytes → Pool → Producer
new_producer address p = record {
  address = address;
  name = [];
  subject = [];
  pool_size = at_least_one p.size;
  buf_size = or_thousand (at_least_one p.size) p.buf_size;
  closed = false;
}

-- Where no exchange has the name and none is declared by it, it is the routing key of the default
-- exchange. An error that is not the broker's fails a type assertion.
unfoldable pub route : Passive → Declare → Producer → Option Producer
unfolding bytes_beq
route exists d p = some p
route (exception code e) d p =
    if code == 404 && not (p.name == d.exchange)
    then some (record p { name = []; subject = p.name })
    else some p
route (other_error e) d p = none

abbrev Opened : Type 0
Opened = Producer × List Call × Option OpenError

-- The declaration of the exchange, on the session's first channel.
unfoldable pub declared : Session → Declare → Producer → Option Opened
unfolding exchange_calls
declared s d p =
    if not (is_empty d.exchange) && nat_beq (length s.channels) 0
    then none
    else some (p, exchange_calls d, none)

unfoldable pub declared_route : Session → Declare → Option Producer → Option Opened
unfolding declared
declared_route s d none = none
declared_route s d (some p) = declared s d p

-- From the parsed address on.
unfoldable pub open_parsed : Broker → Session → Declare → Producer → Option Opened
unfolding declared declared_route route first_channel
open_parsed b s d p =
    if is_empty p.name
    then declared s d p
    else elim (first_channel s.connection b.temporary_channel) [
      | none ↦ none
      | some (some e) ↦ some (p, [], some (broker_error e))
      | some none ↦ declared_route s d (route (b.passive p.name) d p)
    ]

abbrev with_session : Session → Option Opened → Option (Session × Opened)
with_session s none = none
with_session s (some o) = some (s, o)

module _ (unmarshal : Bytes → Options → Option Options) where
  unfoldable pub open_in : Broker → Producer → Session → Option (Session × Opened)
  unfolding open_parsed parse_address split_address
  open_in b p s = elim (parse_address unmarshal p.address) [
    | none ↦
        let parts = split_address p.address in
        some (s, (record p { name = parts.name; subject = parts.subject }, [], some address_error))
    | some d ↦
        with_session s (
          open_parsed b s d.options.node.x_declare
            (record p { name = d.name; subject = d.subject }))
  ]

  -- open: the session after it, the producer, what the broker was asked for, and the error.
  unfoldable pub open_producer :
      (ℕ → Bool) → (ℕ → Bool) → Broker → Producer → Session → Option (Session × Opened)
  unfolding open_in create_pool
  open_producer dials opens b p s = elim (create_pool dials opens p.pool_size s) [
    | none ↦ none
    | some s' ↦ open_in b p s'
  ]
