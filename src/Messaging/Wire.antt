-- ===== src/Messaging/Wire.antt =====
-- pkg/messaging/amqp091.go: publish, and the adapters from amqp.Delivery and amqp.Return.
-- `to_int` is what strconv.ParseFloat followed by a conversion to int makes of a text: `none` where
-- ParseFloat fails, `some none` where the integer is not positive, `some (some n)` for n > 0.
use lambda_runtime_api_daemo.Base.{
  ℕ, Bool, false, Option, none, some, [], nat_beq, if◌then◌else◌, nat_eq, Bytes, codes, bytes_eq,
  is_empty, itoa,
}
use lambda_runtime_api_daemo.Messaging.Message.{
  Message, Table, channel, auto_acknowledger, zero_message,
}

-- amqp.Publishing, with the exchange, the routing key and the flags of the call that publishes it.
pub record Publishing : Type 0 where
  pub exchange : Bytes
  pub routing_key : Bytes
  pub mandatory : Bool
  pub immediate : Bool
  pub headers : Table
  pub content_type : Bytes
  pub content_encoding : Bytes
  pub delivery_mode : ℕ
  pub priority : ℕ
  pub correlation_id : Bytes
  pub reply_to : Bytes
  pub expiration : Bytes
  pub message_id : Bytes
  pub timestamp : Option ℕ
  pub type_name : Bytes
  pub user_id : Bytes
  pub app_id : Bytes
  pub body : Bytes

-- amqp.Delivery, in the fields that the adapter reads.
pub record Delivery : Type 0 where
  pub headers : Table
  pub content_type : Bytes
  pub content_encoding : Bytes
  pub delivery_mode : ℕ
  pub priority : ℕ
  pub correlation_id : Bytes
  pub reply_to : Bytes
  pub expiration : Bytes
  pub message_id : Bytes
  pub timestamp : Option ℕ
  pub type_name : Bytes
  pub user_id : Bytes
  pub app_id : Bytes
  pub consumer_tag : Bytes
  pub delivery_tag : ℕ
  pub redelivered : Bool
  pub routing_key : Bytes
  pub body : Bytes

-- A number that is not positive, or no number, becomes "0"; nothing stays nothing.
unfoldable pub clamp_expiration : (Bytes → Option (Option ℕ)) → Bytes → Bytes
clamp_expiration to_int s =
    if is_empty s
    then []
    else elim (to_int s) [ none ↦ codes "0" | some none ↦ codes "0" | some (some n) ↦ itoa n ]

-- The producer's name is its exchange; its subject is used where the message has none.
unfoldable pub publish : (Bytes → Option (Option ℕ)) → Bytes → Bytes → Message → Publishing
unfolding clamp_expiration
publish to_int name subject m = record {
  exchange = name;
  routing_key = if is_empty m.subject then subject else m.subject;
  mandatory = m.mandatory;
  immediate = m.immediate;
  headers = m.headers;
  content_type = m.content_type;
  content_encoding = m.content_encoding;
  delivery_mode = if m.durable then 2 else 1;
  priority = m.priority;
  correlation_id = m.correlation_id;
  reply_to = m.reply_to;
  expiration = clamp_expiration to_int m.expiration;
  message_id = m.message_id;
  timestamp = m.timestamp;
  type_name = m.type_name;
  user_id = m.user_id;
  app_id = m.app_id;
  body = m.body;
}

-- The zero value of amqp.Delivery, which a receive from a closed channel of deliveries gives.
abbrev pub zero_delivery : Delivery
zero_delivery = record {
  headers = [];
  content_type = [];
  content_encoding = [];
  delivery_mode = 0;
  priority = 0;
  correlation_id = [];
  reply_to = [];
  expiration = [];
  message_id = [];
  timestamp = none;
  type_name = [];
  user_id = [];
  app_id = [];
  consumer_tag = [];
  delivery_tag = 0;
  redelivered = false;
  routing_key = [];
  body = [];
}

-- What a receive from the deliveries gives, `none` for a channel that is closed.
unfoldable pub received : Option Delivery → Delivery
received none = zero_delivery
received (some d) = d

-- The consumer's adapter.
unfoldable pub from_delivery : Bool → Delivery → Message
from_delivery auto_ack d = record {
  acknowledger = if auto_ack then some auto_acknowledger else some channel;
  headers = d.headers;
  content_type = d.content_type;
  content_encoding = d.content_encoding;
  correlation_id = d.correlation_id;
  reply_to = d.reply_to;
  expiration = d.expiration;
  message_id = d.message_id;
  timestamp = d.timestamp;
  type_name = d.type_name;
  user_id = d.user_id;
  app_id = d.app_id;
  consumer_tag = d.consumer_tag;
  subject = d.routing_key;
  body = d.body;
  delivery_tag = d.delivery_tag;
  message_count = 0;
  priority = d.priority;
  redelivered = d.redelivered;
  durable = nat_beq d.delivery_mode 2;
  mandatory = false;
  immediate = false;
}

-- The producer's adapter of a returned message, which has no acknowledger, tag or flag.
unfoldable pub from_return : Publishing → Message
from_return p = record zero_message {
  headers = p.headers;
  content_type = p.content_type;
  content_encoding = p.content_encoding;
  correlation_id = p.correlation_id;
  reply_to = p.reply_to;
  expiration = p.expiration;
  message_id = p.message_id;
  timestamp = p.timestamp;
  type_name = p.type_name;
  user_id = p.user_id;
  app_id = p.app_id;
  subject = p.routing_key;
  body = p.body;
  priority = p.priority;
  durable = nat_beq p.delivery_mode 2;
}

-- The zero value of amqp.Return, which a receive from a closed channel of returns gives.
abbrev pub zero_return : Publishing
zero_return = record {
  exchange = [];
  routing_key = [];
  mandatory = false;
  immediate = false;
  headers = [];
  content_type = [];
  content_encoding = [];
  delivery_mode = 0;
  priority = 0;
  correlation_id = [];
  reply_to = [];
  expiration = [];
  message_id = [];
  timestamp = none;
  type_name = [];
  user_id = [];
  app_id = [];
  body = [];
}

-- What a receive from the returns gives, `none` for a channel that is closed.
unfoldable pub returned : Option Publishing → Publishing
returned none = zero_return
returned (some p) = p

-- A broker that delivers what was published, unchanged, with a tag of its own.
abbrev pub delivered : Publishing → Bytes → ℕ → Bool → Delivery
delivered p consumer_tag tag redelivered = record {
  headers = p.headers;
  content_type = p.content_type;
  content_encoding = p.content_encoding;
  delivery_mode = p.delivery_mode;
  priority = p.priority;
  correlation_id = p.correlation_id;
  reply_to = p.reply_to;
  expiration = p.expiration;
  message_id = p.message_id;
  timestamp = p.timestamp;
  type_name = p.type_name;
  user_id = p.user_id;
  app_id = p.app_id;
  consumer_tag = consumer_tag;
  delivery_tag = tag;
  redelivered = redelivered;
  routing_key = p.routing_key;
  body = p.body;
}
