-- ===== src/Messaging/Message.antt =====
-- pkg/messaging/api.go: the Message type and Acknowledge; pkg/messaging/amqp091.go: how a Message is
-- published and how a delivery becomes one. What strconv.ParseFloat and int make of an expiration
-- is an argument. A zero time is `none`.
use lambda_runtime_api_daemo.Base.{
  ℕ, Bool, true, false, Option, none, some, List, [], ◌∷◌, nat_eq, Bytes, bytes_eq, GoMap,
}

-- A value of an AMQP table: a string, or one of another type.
pub data TableValue : Type 0 where
  text : Bytes → TableValue
  other : TableValue

abbrev pub Table : Type 0
Table = GoMap Bytes TableValue

pub data Acknowledger : Type 0 where
  channel auto_acknowledger : Acknowledger

pub record Message : Type 0 where
  pub acknowledger : Option Acknowledger
  pub headers : Table
  pub content_type : Bytes
  pub content_encoding : Bytes
  pub correlation_id : Bytes
  pub reply_to : Bytes
  pub expiration : Bytes
  pub message_id : Bytes
  pub timestamp : Option ℕ
  pub type_name : Bytes
  pub user_id : Bytes
  pub app_id : Bytes
  pub consumer_tag : Bytes
  pub subject : Bytes
  pub body : Bytes
  pub delivery_tag : ℕ
  pub message_count : ℕ
  pub priority : ℕ
  pub redelivered : Bool
  pub durable : Bool
  pub mandatory : Bool
  pub immediate : Bool

abbrev pub zero_message : Message
zero_message = record {
  acknowledger = none;
  headers = [];
  content_type = [];
  content_encoding = [];
  correlation_id = [];
  reply_to = [];
  expiration = [];
  message_id = [];
  timestamp = none;
  type_name = [];
  user_id = [];
  app_id = [];
  consumer_tag = [];
  subject = [];
  body = [];
  delivery_tag = 0;
  message_count = 0;
  priority = 0;
  redelivered = false;
  durable = false;
  mandatory = false;
  immediate = false;
}

-- What Acknowledge asks of the message's channel.
pub data Acknowledged : Type 0 where
  not_initialized : Acknowledged
  ignored : Acknowledged
  acked : ℕ → Bool → Acknowledged

abbrev ack_by : Acknowledger → ℕ → Bool → Acknowledged
ack_by channel tag multiple = acked tag multiple
ack_by auto_acknowledger tag multiple = ignored

-- Only a single option of `false` stops the acknowledgement of all earlier messages.
abbrev multiple_of : List Bool → Bool
multiple_of (false ∷ []) = false
multiple_of _ = true

unfoldable pub acknowledge : Message → List Bool → Acknowledged
acknowledge m opts = elim m.acknowledger [
  | none ↦ not_initialized
  | some a ↦ ack_by a m.delivery_tag (multiple_of opts)
]
