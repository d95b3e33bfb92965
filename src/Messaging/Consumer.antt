-- ===== src/Messaging/Consumer.antt =====
-- pkg/messaging/amqp091.go: Consumer and consumerAMQP091.open. `none` is a panic. The flag that open
-- sets in the parsed options is kept in the declaration that it sends, since the options are parsed
-- again at each open.
use lambda_runtime_api_daemo.Base.{
  ℕ, suc, Bool, not, ◌&&◌, ◌||◌, Option, none, some, List, [], ◌∷◌, ◌++◌, nat_beq, if◌then◌else◌,
  ◌==◌, nat_eq, length, Bytes, bytes_beq, bytes_eq, is_empty,
}
use lambda_runtime_api_daemo.Messaging.Address.{
  Options, Declare, Binding, split_address, parse_address,
}
use lambda_runtime_api_daemo.Messaging.Session.{Session, Channel, first_channel, create_pool}
use lambda_runtime_api_daemo.Messaging.Broker.{
  Broker, Passive, exists, exception, other_error, queue_named, queue_refused, Call, declares_queue,
  binds_queue, OpenError, address_error, broker_error, exchange_calls,
}
use lambda_runtime_api_daemo.Messaging.Producer.{Pool, at_least_one}

pub record Consumer : Type 0 where
  pub address : Bytes
  pub name : Bytes
  pub subject : Bytes
  pub pool_size : ℕ
  pub capacity : ℕ

abbrev pub default_capacity : ℕ
default_capacity = 500

unfoldable pub new_consumer : Bytes → Pool → Consumer
new_consumer address p = record {
  address = address;
  name = [];
  subject = [];
  pool_size = at_least_one p.size;
  capacity = default_capacity;
}

-- SetCapacity on the channels from place i: it ends at the first that fails.
unfoldable pub set_qos : (ℕ → Option Bytes) → ℕ → List Channel → Option Bytes
set_qos qos i [] = none
set_qos qos i (c ∷ cs) =
    let rest = set_qos qos (suc i) cs in elim (qos i) [ some e ↦ some e | none ↦ rest ]

abbrev pub Outcome : Type 0
Outcome = Consumer × List Call × Option OpenError

-- The exchange of the address, "" for none; a refusal is returned where the address has a subject
-- and its exchange is not declared.
pub data Exchange : Type 0 where
  found : Bytes → Exchange
  refused : Bytes → Exchange

abbrev missing_exchange : Bytes → Declare → Consumer → Exchange
missing_exchange e d c =
    if is_empty c.subject
    then found []
    else if c.name == d.exchange
    then found c.name
    else refused e

unfoldable pub exchange_of : Passive → Declare → Consumer → Exchange
unfolding bytes_beq
exchange_of exists d c = found c.name
exchange_of (exception code e) d c = missing_exchange e d c
exchange_of (other_error e) d c = missing_exchange e d c

-- The name of the queue: that of the address, or of the declarations where the address is an
-- exchange.
unfoldable pub queue_name : Bytes → Options → Bytes → Bytes
queue_name exchange o name =
    if is_empty exchange
    then name
    else if not (is_empty o.node.x_declare.queue)
    then o.node.x_declare.queue
    else o.link.x_declare.queue

-- The bindings of the node; for an exchange with a subject and no bindings, that of the subject.
unfoldable pub bindings_of : Bytes → Bytes → Bytes → List Binding → List Binding
bindings_of exchange queue subject (b ∷ bs) = b ∷ bs
bindings_of exchange queue subject [] =
    if is_empty exchange || is_empty subject
    then []
    else record { arguments = []; exchange = exchange; queue = queue; key = subject } ∷ []

unfoldable pub queue_declaration : Bytes → Bytes → Options → Declare
queue_declaration exchange name o =
    let d =
      if not (is_empty exchange) && is_empty o.node.x_declare.queue
      then o.link.x_declare
      else o.node.x_declare in
    record d { auto_delete = is_empty name || d.auto_delete }

-- A binding to the default exchange is left out.
unfoldable pub binding_calls : Bytes → List Binding → List Call
binding_calls queue [] = []
binding_calls queue (b ∷ bs) =
    let rest = binding_calls queue bs in
    if is_empty b.exchange then rest else binds_queue queue b.key b.exchange b.arguments ∷ rest

abbrev queue_call : Bytes → Declare → Call
queue_call name d = declares_queue name d.durable d.auto_delete d.exclusive d.arguments

-- From the exchange on: the exchange, the queue and the bindings.
unfoldable pub declare_all : Broker → Options → Consumer → Bytes → Outcome
unfolding queue_name bindings_of queue_declaration binding_calls exchange_calls
declare_all b o c exchange =
    let name = queue_name exchange o c.name in
    let calls =
      exchange_calls o.node.x_declare ++ queue_call name (queue_declaration exchange name o) ∷ [] in
    elim (b.queue_declare name) [
      | queue_refused e ↦ (record c { name = name }, calls, some (broker_error e))
      | queue_named q ↦ (
        record c { name = q },
        calls ++ binding_calls q (bindings_of exchange name c.subject o.node.x_bindings),
        none,
      )
    ]

-- All of these go over the session's first channel: a panic where there is none.
unfoldable pub declare_on : Session → Broker → Options → Consumer → Bytes → Option Outcome
unfolding declare_all
declare_on s b o c exchange =
    if nat_beq (length s.channels) 0 then none else some (declare_all b o c exchange)

unfoldable pub declare_found : Session → Broker → Options → Consumer → Exchange → Option Outcome
unfolding declare_on
declare_found s b o c (found exchange) = declare_on s b o c exchange
declare_found s b o c (refused e) = some (c, [], some (broker_error e))

-- From the parsed address on.
unfoldable pub open_parsed : Broker → Session → Options → Consumer → Option Outcome
unfolding set_qos declare_found declare_on exchange_of first_channel
open_parsed b s o c = elim (set_qos b.qos 0 s.channels) [
  | some e ↦ some (c, [], some (broker_error e))
  | none ↦
      if is_empty c.name
      then declare_on s b o c []
      else elim (first_channel s.connection b.temporary_channel) [
        | none ↦ none
        | some (some e) ↦ some (c, [], some (broker_error e))
        | some none ↦ declare_found s b o c (exchange_of (b.passive c.name) o.node.x_declare c)
      ]
]

abbrev with_session : Session → Option Outcome → Option (Session × Outcome)
with_session s none = none
with_session s (some o) = some (s, o)

module _ (unmarshal : Bytes → Options → Option Options) where
  unfoldable pub open_in : Broker → Consumer → Session → Option Outcome
  unfolding open_parsed parse_address split_address
  open_in b c s = elim (parse_address unmarshal c.address) [
    | none ↦
        let parts = split_address c.address in
        some (record c { name = parts.name; subject = parts.subject }, [], some address_error)
    | some d ↦ open_parsed b s d.options (record c { name = d.name; subject = d.subject })
  ]

  -- open: the session after it, the consumer, what the broker was asked for, and the error.
  unfoldable pub open_consumer :
      (ℕ → Bool) → (ℕ → Bool) → Broker → Consumer → Session → Option (Session × Outcome)
  unfolding open_in create_pool
  open_consumer dials opens b c s = elim (create_pool dials opens c.pool_size s) [
    | none ↦ none
    | some s' ↦ with_session s' (open_in b c s')
  ]
