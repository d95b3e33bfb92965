-- ===== src/Messaging/Subscription.antt =====
-- Which queue a consumer of an exchange reads.
use lambda_runtime_api_daemo.Base.{
  ◌≡◌, ap, ◌∙◌, true, false, ◌||◌, none, some, [], ◌∷◌, ◌++◌, nat_beq, nat_eq, length, Bytes,
  bytes_eq, is_empty,
}
use lambda_runtime_api_daemo.Messaging.Address.{Options}
use lambda_runtime_api_daemo.Messaging.Session.{Session, first_channel}
use lambda_runtime_api_daemo.Messaging.Broker.{
  Broker, exists, queue_named, declares_queue, binds_queue, exchange_calls,
}
use lambda_runtime_api_daemo.Messaging.Consumer.{
  Consumer, declare_all, declare_on, declare_found, exchange_of, open_parsed, set_qos, bindings_of,
  binding_calls, queue_name, queue_declaration,
}

open_parsed-exists :
    (b : Broker) (s : Session) (o : Options) (c : Consumer)
    → set_qos b.qos 0 s.channels ≡ none
    → is_empty c.name ≡ false
    → first_channel s.connection b.temporary_channel ≡ some none
    → b.passive c.name ≡ exists
    → nat_beq (length s.channels) 0 ≡ false
    → open_parsed b s o c ≡ some (declare_all b o c c.name)
unfolding open_parsed declare_found declare_on exchange_of
open_parsed-exists b s o c q named temp e chan = rw (open_parsed, q, named, temp, e, chan)

-- A consumer of an exchange that exists, with a subject, whose address names no queue for its node
-- and no bindings, on a session with a channel and a broker that refuses nothing. It declares the
-- exchange that the address declares, if any, and the queue of the link's declaration, which is
-- deleted with its last consumer if the broker names it; it binds the queue, by the name that the
-- broker gives it, to the exchange by the subject, and that is the queue that it reads.
pub consumer-subscribes :
    (b : Broker) (s : Session) (o : Options) (c : Consumer) (q : Bytes)
    → set_qos b.qos 0 s.channels ≡ none
    → is_empty c.name ≡ false
    → is_empty c.subject ≡ false
    → first_channel s.connection b.temporary_channel ≡ some none
    → nat_beq (length s.channels) 0 ≡ false
    → b.passive c.name ≡ exists
    → is_empty o.node.x_declare.queue ≡ true
    → o.node.x_bindings ≡ []
    → b.queue_declare o.link.x_declare.queue ≡ queue_named q
    → let l = o.link.x_declare in
      open_parsed b s o c
      ≡ some (
        record c { name = q },
        (exchange_calls o.node.x_declare
              ++ declares_queue l.queue l.durable
                  (is_empty l.queue || l.auto_delete)
                  l.exclusive
                  l.arguments
                ∷ [])
            ++ binds_queue q c.subject c.name [] ∷ [],
        none,
      )
unfolding declare_all queue_name bindings_of queue_declaration binding_calls
consumer-subscribes b s o c q qos named subject temp chan e queue bindings answer =
    open_parsed-exists b s o c qos named temp e chan
    ∙ ap some (
        rw (declare_all, named, queue, answer, bindings, subject)
          (rw (queue_declaration, queue_name, binding_calls, named, queue) (rw named)))
