-- ===== src/Messaging/Session.antt =====
-- pkg/messaging/amqp091.go: sessionAMQP091, with the connection that it points to. What the library
-- answers to Channel is an argument. A `*amqp.Channel` of the pool is open or closed; a nil pointer
-- is never stored. The barrier is counted: `barrier` is the number of the one in the barrier store,
-- and those before it have been closed, so that whoever waits on them goes on.
use lambda_runtime_api_daemo.Base.{
  ℕ, zero, suc, ◌-◌, Bool, true, false, not, ◌&&◌, Option, none, some, List, [], ◌∷◌, ◌++◌, ltb,
  if◌then◌else◌, nat_eq, length, get_elem?, Bytes, codes, bytes_eq,
}
use lambda_runtime_api_daemo.Messaging.Connection.{
  Connection, ConnectionError, Attempt, Link, absent, up, down, is_closed as connection_is_closed,
  reconnect as connection_reconnect, create_pool as connection_create_pool,
}

pub data Channel : Type 0 where
  live shut : Channel

pub record SessionOpts : Type 0 where
  pub name : Bytes
  pub transactional : Bool
  pub auto_ack : Bool

-- The options are functions that set one field each, applied in their order.
pub data SessionOption : Type 0 where
  session_name : Bytes → SessionOption
  transactional_option auto_ack_option : SessionOption

unfoldable pub apply_option : SessionOption → SessionOpts → SessionOpts
apply_option (session_name n) o = record o { name = n }
apply_option transactional_option o = record o { transactional = true }
apply_option auto_ack_option o = record o { auto_ack = true }

unfoldable pub apply_options : List SessionOption → SessionOpts → SessionOpts
unfolding apply_option
apply_options [] o = o
apply_options (f ∷ fs) o = apply_options fs (apply_option f o)

pub record Session : Type 0 where
  pub connection : Connection
  pub channels : List Channel
  pub barrier : ℕ
  pub opts : SessionOpts
  pub closed : Bool

pub data SessionError : Type 0 where
  session_closed : SessionError
  connection_error : ConnectionError → SessionError
  channel_error : Bytes → SessionError

unfoldable pub is_closed : Session → Bool
is_closed s = elim s.channels [ [] ↦ true | c ∷ cs ↦ elim c [ live ↦ false | shut ↦ true ] ]

-- connections[0].Channel(): a panic where the pool is empty or its first pointer is nil.
unfoldable pub first_channel : Connection → Option Bytes → Option (Option Bytes)
first_channel c answer = elim c.connections [
  | [] ↦ none
  | l ∷ ls ↦ elim l [ absent ↦ none | up ↦ some answer | down ↦ some answer ]
]

abbrev failed : SessionError → Session → Option (Session × Option SessionError)
failed e s = some (record s { closed = true }, some e)

-- From the call of Channel on: the error sets `closed`; a channel makes the pool, and the barrier is
-- closed and replaced.
unfoldable pub open_channel : Option Bytes → Session → Option (Session × Option SessionError)
unfolding first_channel
open_channel answer s = elim (first_channel s.connection answer) [
  | none ↦ none
  | some (some e) ↦ failed (channel_error e) s
  | some none ↦ some (record s { channels = live ∷ []; barrier = suc s.barrier }, none)
]

unfoldable pub after_connection :
    Option Bytes
    → Session
    → Connection × Option ConnectionError
    → Option (Session × Option SessionError)
unfolding open_channel
after_connection answer s (c, some e) = failed (connection_error e) (record s { connection = c })
after_connection answer s (c, none) = open_channel answer (record s { connection = c })

unfoldable pub reopen :
    (ℕ → Attempt) → Option Bytes → Session → Option (Session × Option SessionError)
unfolding after_connection
reopen attempt answer s = elim (connection_is_closed s.connection) [
  | none ↦ none
  | some false ↦ open_channel answer s
  | some true ↦ elim (connection_reconnect attempt s.connection) [
    | none ↦ none
    | some r ↦ after_connection answer s r
  ]
]

-- reconnect from its lock on: the session after it, and the error that it returns.
unfoldable pub reconnect_locked :
    (ℕ → Attempt) → Option Bytes → Session → Option (Session × Option SessionError)
unfolding reopen is_closed
reconnect_locked attempt answer s = if is_closed s then reopen attempt answer s else some (s, none)

-- A whole call of reconnect, which tests `closed` before it takes the lock. Close takes no lock, so
-- that it may also come after that test; what is proved of this function is about a call during
-- which the session is not closed.
unfoldable pub reconnect :
    (ℕ → Attempt) → Option Bytes → Session → Option (Session × Option SessionError)
unfolding reconnect_locked
reconnect attempt answer s =
    if s.closed then some (s, some session_closed) else reconnect_locked attempt answer s

-- The session before its first reconnect, with the barrier store and its first barrier.
unfoldable pub unopened_session : List SessionOption → Connection → Session
unfolding apply_options
unopened_session options c = record {
  connection = c;
  channels = [];
  barrier = 0;
  opts =
      apply_options options
        (record { name = codes "Session"; transactional = false; auto_ack = false });
  closed = false;
}

-- connection.Session.
unfoldable pub new_session :
    (ℕ → Attempt)
    → Option Bytes
    → List SessionOption
    → Connection
    → Option (Session × Option SessionError)
unfolding reconnect unopened_session
new_session attempt answer options c = reconnect attempt answer (unopened_session options c)

-- The first call of the close listener after the channel has been closed.
unfoldable pub close_listener :
    (ℕ → Attempt) → Option Bytes → Session → Option (Session × Option SessionError)
unfolding reconnect
close_listener attempt answer s = if s.closed then some (s, none) else reconnect attempt answer s

unfoldable pub close : Session → Session
close s = record s { closed = true; channels = [] }

-- Wait: it returns, or it blocks until the barrier of that number is closed.
unfoldable pub wait : Session → Option ℕ
unfolding is_closed
wait s = if is_closed s && not s.closed then some s.barrier else none

-- Whoever has blocked on a barrier goes on once it has been replaced.
abbrev pub is_released : ℕ → Session → Bool
is_released b s = ltb b s.barrier

-- connections[i].Channel() in the loop of createPool: a panic out of range or on a nil pointer.
unfoldable pub link_usable : List Link → ℕ → Bool
link_usable ls i = elim (get_elem? ls i) [
  | none ↦ false
  | some l ↦ elim l [ absent ↦ false | up ↦ true | down ↦ true ]
]

unfoldable pub add_channels : (ℕ → Bool) → List Link → ℕ → ℕ → List Channel → Option (List Channel)
unfolding link_usable
add_channels opens ls zero i cs = some cs
add_channels opens ls (suc k) i cs = elim (link_usable ls i) [
  | true ↦ add_channels opens ls k (suc i) (if opens i then cs ++ live ∷ [] else cs)
  | false ↦ none
]

abbrev pub with_channels : Session → Option (List Channel) → Option Session
with_channels s none = none
with_channels s (some cs) = some (record s { channels = cs })

-- createPool: the pool of connections first, then a channel of each further connection.
unfoldable pub create_pool : (ℕ → Bool) → (ℕ → Bool) → ℕ → Session → Option Session
unfolding add_channels
create_pool dials opens size s =
    let s' = record s { connection = connection_create_pool dials size s.connection } in
    let n = length s.channels in
    if ltb 1 size
    then with_channels s' (add_channels opens s'.connection.connections (size - n) n s.channels)
    else some s
