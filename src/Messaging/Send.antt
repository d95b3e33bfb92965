-- ===== src/Messaging/Send.antt =====
-- pkg/messaging/amqp091.go: producerAMQP091.Send, for one caller. A producer whose channel has
-- closed waits for its session, opens again, whatever error that gives, and starts its dispatchers,
-- each of which takes a channel of the session.
use lambda_runtime_api_daemo.Base.{
  ℕ, Bool, false, not, Option, none, some, List, [], ltb, nat_beq, if◌then◌else◌, nat_eq, length,
  Bytes, bytes_eq,
}
use lambda_runtime_api_daemo.Messaging.Message.{Message}
use lambda_runtime_api_daemo.Messaging.Wire.{Publishing, publish}
use lambda_runtime_api_daemo.Messaging.Session.{Session, wait}
use lambda_runtime_api_daemo.Messaging.Address.{Options}
use lambda_runtime_api_daemo.Messaging.Broker.{Broker, Call, OpenError}
use lambda_runtime_api_daemo.Messaging.Producer.{Producer, open_producer}

-- How Send ends: the message is published on the first channel or queued for the dispatchers, after
-- what opening has asked of the broker; it waits on a barrier; or it panics.
pub data Sent : Type 0 where
  published : Session → Producer → List Call → Publishing → Sent
  queued : Session → Producer → List Call → Message → Sent
  blocked : ℕ → Sent
  panicked : Sent

module _ (to_int : Bytes → Option (Option ℕ)) where
  -- From the end of the loop on.
  unfoldable pub dispatch : Message → Session → Producer → List Call → Sent
  unfolding publish
  dispatch m s p calls =
      if nat_beq p.pool_size 1
      then if nat_beq (length s.channels) 0
        then panicked
        else published s p calls (publish to_int p.name p.subject m)
      else queued s p calls m

  unfoldable pub started :
      Message → Option (Session × (Producer × List Call × Option OpenError)) → Sent
  unfolding dispatch
  started m none = panicked
  started m (some (s, (p, calls, e))) =
      if ltb (length s.channels) p.pool_size then panicked else dispatch m s p calls

  unfoldable pub send :
      (Bytes → Options → Option Options)
      → (ℕ → Bool)
      → (ℕ → Bool)
      → Broker
      → Message
      → Producer
      → Session
      → Sent
  unfolding started dispatch open_producer wait
  send unmarshal dials opens b m p s = if not p.closed then dispatch m s p [] else elim (wait s) [
    | some barrier ↦ blocked barrier
    | none ↦ started m (open_producer unmarshal dials opens b (record p { closed = false }) s)
  ]
