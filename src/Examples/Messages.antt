-- ===== src/Examples/Messages.antt =====
-- Connections, sessions and addresses at concrete inputs.
use lambda_runtime_api_daemo.Base.{
  ℕ, zero, suc, ◌≡◌, refl, inl, Bool, true, false, not, ◌||◌, none, some, List, [], ◌∷◌, arith, leb,
  nat_beq, is_some, nat_eq, Bytes, codes, bytes_beq, bytes_eq, lookup, index_of, pos,
}
use lambda_runtime_api_daemo.Messaging.Opening.{UriOps, unopened, parameter}
use lambda_runtime_api_daemo.Messaging.Connecting.{Connects, described, open_connection-Settles}
use lambda_runtime_api_daemo.Messaging.Connection.{
  absent, new_connection, Connection, Attempt, connected, refused, up, waiting,
  is_closed as connection_is_closed,
}
use lambda_runtime_api_daemo.Messaging.Session.{
  Session, live, close, wait, create_pool, is_closed, is_released,
}
use lambda_runtime_api_daemo.Messaging.Dialling.{Ends, reconnect-Ends}
use lambda_runtime_api_daemo.Messaging.Reconnection.{Usable}
use lambda_runtime_api_daemo.Messaging.Lifetime.{Loss, listen}
use lambda_runtime_api_daemo.Messaging.Lasting.{Lasts, listen-Lasts}
use lambda_runtime_api_daemo.Messaging.Waiting.{here, later, changes, wait-stranded}
use lambda_runtime_api_daemo.Messaging.Pooling.{failures, is_some-create_pool}

-- A broker that comes up after it has been dialled once.
abbrev late_broker : ℕ → Attempt
late_broker zero = refused absent (codes "connection refused")
late_broker (suc i) = connected

abbrev broker_link : Connection
broker_link = record {
  connections = [];
  err = none;
  name = codes "rpc";
  uri = codes "amqp://localhost";
  close_listeners = waiting ∷ [];
  connection_attempts = pos 3;
  heartbeat = pos 60;
  retry_delay = pos 5;
  started = true;
}

reconnect-Ends_example : Ends late_broker broker_link
unfolding connection_is_closed
reconnect-Ends_example = reconnect-Ends late_broker broker_link refl refl (refl, tt)

abbrev lost_session : Session
lost_session = record {
  connection = broker_link;
  channels = [];
  barrier = 4;
  opts = record { name = codes "Session"; transactional = false; auto_ack = true };
  closed = false;
}

broker_link-Usable : Usable broker_link
unfolding connection_is_closed
broker_link-Usable = record {
  known = (true, refl);
  no_error = refl;
  unnotified = (refl, tt);
  tries = omega arith;
}

abbrev open_session : Session
open_session = record lost_session {
  connection = record broker_link { connections = up ∷ [] };
  channels = live ∷ [];
}

open_session-Usable : Usable open_session.connection
unfolding connection_is_closed
open_session-Usable = record {
  known = (false, refl);
  no_error = refl;
  unnotified = (refl, tt);
  tries = omega arith;
}

-- The connection is lost and made again; then only the channel is, and the broker gives no other.
abbrev two_losses : List Loss
two_losses =
    record { with_connection = true; attempt = late_broker; answer = none }
    ∷ record { with_connection = false; attempt = late_broker; answer = some (codes "limit") }
    ∷ []

listen-Lasts_example : Lasts open_session two_losses (listen two_losses open_session)
unfolding is_closed
listen-Lasts_example = listen-Lasts two_losses open_session open_session-Usable refl refl

wait-stranded_example :
    is_released 4 (record (close lost_session) {
      connection = record broker_link { connections = up ∷ [] };
      channels = live ∷ [];
    })
    ≡ false
unfolding wait close is_closed
wait-stranded_example =
    wait-stranded lost_session (record { session = close lost_session; reconnecting = 0 })
      (record {
        session = record (close lost_session) {
          connection = record broker_link { connections = up ∷ [] };
          channels = live ∷ [];
        };
        reconnecting = 0;
      })
      4 refl (inl refl) refl
      (later here (
        changes (record broker_link { connections = up ∷ [] }) (live ∷ [])
          (record { session = close lost_session; reconnecting = 0 })))

-- A session with one connection, of which the dial for the third place fails.
abbrev pub small_session : Session
small_session = record lost_session {
  connection = record broker_link { connections = up ∷ [] };
  channels = live ∷ [];
}

abbrev pub third_fails : ℕ → Bool
third_fails i = not (nat_beq i 2)

is_some-create_pool_example :
    is_some (create_pool third_fails (λ i. true) 4 small_session)
    ≡ (leb 4 1 || nat_beq (failures third_fails 3 1) 0)
is_some-create_pool_example =
    is_some-create_pool third_fails (λ i. true) 4 small_session (omega arith) ((λ e. cc), tt)

-- Every text is a URI of the scheme amqps that asks for three attempts.
abbrev uris : UriOps
uris = record {
  Uri = Bytes;
  parse = λ s. some s;
  scheme = λ u. codes "amqps";
  query = λ u. (codes "connection_attempts", codes "3" ∷ []) ∷ [];
  parse_duration = λ s. none;
  parse_int = λ s. some (pos 3);
}

open_connection-Settles_example :
    Connects uris late_broker late_broker none
      (codes "amqps://broker")
      []
      []
      (codes "amqps://broker")
unfolding index_of described unopened parameter lookup bytes_beq new_connection
open_connection-Settles_example =
    open_connection-Settles uris late_broker late_broker none (codes "amqps://broker") [] []
      (codes "amqps://broker") refl refl (omega arith)
