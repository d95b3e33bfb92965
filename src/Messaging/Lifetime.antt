-- ===== src/Messaging/Lifetime.antt =====
-- pkg/messaging/amqp091.go: a session over many losses. Each successful reconnect starts a close
-- listener for the new channel, and a listener that has seen its channel close ends after its
-- reconnect.
use lambda_runtime_api_daemo.Base.{
  ℕ, Bool, true, false, Option, none, some, List, [], ◌∷◌, nat_eq, Bytes, bytes_eq,
}
use lambda_runtime_api_daemo.Messaging.Connection.{Connection, Attempt, Link, absent, down}
use lambda_runtime_api_daemo.Messaging.Session.{Session, Channel, shut, close_listener}

-- A loss of the session's channel, perhaps with its connection, and what the broker then answers: to
-- each dial, and to the call of Channel.
pub record Loss : Type 0 where
  pub with_connection : Bool
  pub attempt : ℕ → Attempt
  pub answer : Option Bytes

abbrev pub dropped : List Link → List Link
dropped [] = []
dropped (absent ∷ ls) = absent ∷ ls
dropped (_ ∷ ls) = down ∷ ls

abbrev drop_connection : Bool → Connection → Connection
drop_connection false c = c
drop_connection true c = record c { connections = dropped c.connections }

abbrev pub shut_first : List Channel → List Channel
shut_first [] = []
shut_first (c ∷ cs) = shut ∷ cs

unfoldable pub lose_session : Bool → Session → Session
lose_session too s = record s {
  channels = shut_first s.channels;
  connection = drop_connection too s.connection;
}

-- The listeners, each on the session that the one before has left; `none` is a panic.
unfoldable pub listen : List Loss → Session → Option Session
unfolding lose_session close_listener
listen [] s = some s
listen (e ∷ es) s = elim (close_listener e.attempt e.answer (lose_session e.with_connection s)) [
  | none ↦ none
  | some (t, err) ↦ elim t.closed [ true ↦ some t | false ↦ listen es t ]
]
