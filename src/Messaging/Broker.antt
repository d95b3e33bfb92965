-- ===== src/Messaging/Broker.antt =====
-- pkg/messaging/amqp091.go: what the broker answers while a producer or a consumer opens, and what
-- it is asked for. Of the calls whose result the program ignores only the request is kept.
use lambda_runtime_api_daemo.Base.{
  ℕ, Bool, Option, List, [], ◌∷◌, if◌then◌else◌, nat_eq, Bytes, bytes_eq, is_empty,
}
use lambda_runtime_api_daemo.Messaging.Address.{Arguments, Declare}

-- The answer to a passive declaration of an exchange: it exists, or the broker gives an exception
-- with its code, or the error is not one of the broker's.
pub data Passive : Type 0 where
  exists : Passive
  exception : ℕ → Bytes → Passive
  other_error : Bytes → Passive

pub data QueueAnswer : Type 0 where
  queue_named : Bytes → QueueAnswer
  queue_refused : Bytes → QueueAnswer

pub record Broker : Type 0 where
  pub temporary_channel : Option Bytes
  pub passive : Bytes → Passive
  pub qos : ℕ → Option Bytes
  pub queue_declare : Bytes → QueueAnswer

pub data Call : Type 0 where
  declares_exchange : Bytes → Bytes → Bool → Bool → Bool → Arguments → Call
  declares_queue : Bytes → Bool → Bool → Bool → Arguments → Call
  binds_queue : Bytes → Bytes → Bytes → Arguments → Call

pub data OpenError : Type 0 where
  address_error : OpenError
  broker_error : Bytes → OpenError

-- The exchange of a declaration, if it has one.
unfoldable pub exchange_calls : Declare → List Call
exchange_calls d =
    if is_empty d.exchange
    then []
    else declares_exchange d.exchange d.exchange_type d.durable d.auto_delete d.internal d.arguments
      ∷ []
