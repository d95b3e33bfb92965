-- ===== src/Messaging/Connection.antt =====
-- pkg/messaging/amqp091.go: connectionAMQP091. The broker's part is in the arguments: what each dial
-- gives, and whether the wait that follows a refusal is cancelled. The lock makes each method one
-- step. A nil pointer of the pool is `absent`; a method call on it is a panic, which is `none`.
use lambda_runtime_api_daemo.Base.{
  ℕ, zero, suc, ◌-◌, Bool, true, false, not, ◌&&◌, Option, none, some, List, [], ◌∷◌, ◌++◌, ltb,
  if◌then◌else◌, is_some, nat_eq, length, Bytes, bytes_eq, ℤ, pos, negsuc,
}

-- A `*amqp.Connection`: nil, open, or closed by either side.
pub data Link : Type 0 where
  absent up down : Link

pub data ConnectionError : Type 0 where
  refused_with : Bytes → ConnectionError
  connection_cancelled : ConnectionError

-- A channel that CloseNotify has made: it has room for one error, and is closed once it has it.
pub data Listener : Type 0 where
  waiting : Listener
  notified : ConnectionError → Listener

pub record Connection : Type 0 where
  pub connections : List Link
  pub err : Option ConnectionError
  pub name : Bytes
  pub uri : Bytes
  pub close_listeners : List Listener
  pub connection_attempts : ℤ
  pub heartbeat : ℤ
  pub retry_delay : ℤ
  pub started : Bool

-- What comes of one attempt: a connection, or an error after which the delay runs out or the context
-- is cancelled. `refused` has the pointer that the library gives together with its error.
pub data Attempt : Type 0 where
  connected : Attempt
  refused : Link → Bytes → Attempt
  refused_cancelled : Bytes → Attempt

pub data Dialled : Type 0 where
  finished : Link → Option ConnectionError → Dialled
  cancelled : Dialled

abbrev pub one_more : Dialled × ℕ → Dialled × ℕ
one_more (d, n) = (d, suc n)

-- The loop over the attempts, from attempt i with k left: how it ends, and how often it has dialled.
-- `d` is how it ends if none is left.
unfoldable pub dial : (ℕ → Attempt) → ℕ → ℕ → Dialled → Dialled × ℕ
dial attempt zero i d = (d, 0)
dial attempt (suc k) i d = elim (attempt i) [
  | connected ↦ (finished up none, 1)
  | refused l e ↦ one_more (dial attempt k (suc i) (finished l (some (refused_with e))))
  | refused_cancelled e ↦ (cancelled, 1)
]

abbrev pub rounds : ℤ → ℕ
rounds (pos n) = n
rounds (negsuc n) = 0

unfoldable pub link_closed : Link → Option Bool
link_closed absent = none
link_closed up = some false
link_closed down = some true

unfoldable pub is_closed : Connection → Option Bool
unfolding link_closed
is_closed c = elim c.connections [ [] ↦ some true | l ∷ ls ↦ link_closed l ]

-- Close drops the pool; the connections that it closes are not seen again.
unfoldable pub close : Connection → Connection
close c = record c { connections = [] }

unfoldable pub close_notify : Connection → Connection
close_notify c = record c { close_listeners = c.close_listeners ++ waiting ∷ [] }

unfoldable pub start : Connection → Connection
start c = record c { started = true }

unfoldable pub stop : Connection → Connection
stop c = record c { started = false }

abbrev with_notified : ConnectionError → Option (List Listener) → Option (List Listener)
with_notified e none = none
with_notified e (some ls) = some (notified e ∷ ls)

-- The error is sent on each channel, which is then closed: a send on a closed channel is a panic.
unfoldable pub notify : ConnectionError → List Listener → Option (List Listener)
notify e [] = some []
notify e (waiting ∷ ls) = with_notified e (notify e ls)
notify e (notified e' ∷ ls) = none

-- What the end of the loop makes of the connection.
unfoldable pub settle : Dialled → Connection → Option (Connection × Option ConnectionError)
unfolding close notify
settle cancelled c = some (record c { err = some connection_cancelled }, some connection_cancelled)
settle (finished l none) c = some (record (close c) { connections = l ∷ []; err = none }, none)
settle (finished l (some e)) c = elim (notify e c.close_listeners) [
  | none ↦ none
  | some ls ↦
      some (record (close c) { connections = l ∷ []; err = some e; close_listeners = ls }, some e)
]

unfoldable pub reopen : (ℕ → Attempt) → Connection → Option (Connection × Option ConnectionError)
unfolding settle dial
reopen attempt c = settle (dial attempt (rounds c.connection_attempts) 0 (finished absent none)).0 c

-- reconnect: the connection after it, and the error that it returns.
unfoldable pub reconnect : (ℕ → Attempt) → Connection → Option (Connection × Option ConnectionError)
unfolding is_closed reopen
reconnect attempt c = elim (is_closed c) [
  | none ↦ none
  | some closed ↦ if closed && not (is_some c.err) then reopen attempt c else some (c, c.err)
]

-- The loop of createPool: a dial that fails adds nothing. `dials i` says whether the dial for place
-- i succeeds, and k places are left from place i.
unfoldable pub add_links : (ℕ → Bool) → ℕ → ℕ → List Link → List Link
add_links dials zero i ls = ls
add_links dials (suc k) i ls = add_links dials k (suc i) (if dials i then ls ++ up ∷ [] else ls)

unfoldable pub create_pool : (ℕ → Bool) → ℕ → Connection → Connection
unfolding add_links
create_pool dials size c =
    let n = length c.connections in
    if ltb 1 size then record c { connections = add_links dials (size - n) n c.connections } else c

-- The connection that NewConnection makes: the number of attempts and the durations, in nanoseconds,
-- are what the query of its URI gives.
unfoldable pub new_connection : Bytes → Bytes → ℤ → ℤ → ℤ → Connection
new_connection name uri attempts heartbeat retry_delay = record {
  connections = [];
  err = none;
  name = name;
  uri = uri;
  close_listeners = [];
  connection_attempts = attempts;
  heartbeat = heartbeat;
  retry_delay = retry_delay;
  started = false;
}
