-- ===== src/Messaging/Opening.antt =====
-- pkg/messaging/api.go: NewConnection and its options. net/url, time.ParseDuration, and
-- strconv.ParseFloat with the conversion to int are arguments. The context is that of the attempts.
use lambda_runtime_api_daemo.Base.{
  ℕ, ◌*◌, Option, none, some, List, [], ◌∷◌, ◌++◌, if◌then◌else◌, is_some, nat_eq, Bytes, codes,
  bytes_eq, GoMap, lookup, index_of, ℤ, pos,
}
use lambda_runtime_api_daemo.Messaging.Connection.{
  Connection, ConnectionError, Attempt, reconnect, new_connection,
}

-- What the program uses of net/url, and the two parsers of numbers; durations are in nanoseconds.
pub record UriOps : Type 1 where
  pub Uri : Type 0
  pub parse : Bytes → Option Uri
  pub scheme : Uri → Bytes
  pub query : Uri → GoMap Bytes (List Bytes)
  pub parse_duration : Bytes → Option ℤ
  pub parse_int : Bytes → Option ℤ

-- The context of an option is part of the attempts.
pub data ConnectionOption : Type 0 where
  context_option : ConnectionOption
  connection_name : Bytes → ConnectionOption

unfoldable pub connection_named : List ConnectionOption → Bytes → Bytes
connection_named [] name = name
connection_named (context_option ∷ os) name = connection_named os name
connection_named (connection_name n ∷ os) name = connection_named os n

abbrev first_value : Option (List Bytes) → Option Bytes
first_value (some (v ∷ vs)) = some v
first_value _ = none

-- What a parser gives for the first value of a key, or the default.
unfoldable pub parameter : (Bytes → Option ℤ) → ℤ → Bytes → GoMap Bytes (List Bytes) → ℤ
parameter parser default key params = elim (first_value (lookup key params)) [
  | none ↦ default
  | some v ↦ elim (parser v) [ none ↦ default | some n ↦ n ]
]

abbrev pub second : ℕ
second = 1000000000

abbrev pub default_connection_attempts : ℤ
default_connection_attempts = pos 1

-- What NewConnection gives: an error of the URI, a scheme that is not supported, or the connection
-- with the error of its first reconnect.
pub data Opening : Type 0 where
  uri_invalid : Opening
  unsupported : Bytes → Opening
  made : Connection → Option ConnectionError → Opening

abbrev pub made_from : Option (Connection × Option ConnectionError) → Option Opening
made_from none = none
made_from (some (c, e)) = some (made c e)

module _ (ops : UriOps) where
  open ops use {Uri, parse, scheme, query, parse_duration, parse_int}

  abbrev seconds : Bytes → Option ℤ
  seconds v = parse_duration (v ++ codes "s")

  -- The connection, not yet open, for a URI and a name.
  unfoldable pub unopened : Bytes → Bytes → Uri → Connection
  unfolding new_connection parameter
  unopened name uri u =
      new_connection name uri
        (parameter parse_int default_connection_attempts (codes "connection_attempts") (query u))
        (parameter seconds (pos (10 * second)) (codes "heartbeat") (query u))
        (parameter seconds (pos (2 * second)) (codes "retry_delay") (query u))

  unfoldable pub open_parsed : (ℕ → Attempt) → Bytes → List ConnectionOption → Uri → Option Opening
  unfolding unopened reconnect connection_named index_of
  open_parsed attempt uri options u =
      if is_some (index_of (codes "amqp") (scheme u))
      then made_from
          (reconnect attempt (unopened (connection_named options (codes "Connection")) uri u))
      else some (unsupported (scheme u))

  unfoldable pub open_connection : (ℕ → Attempt) → Bytes → List ConnectionOption → Option Opening
  unfolding open_parsed
  open_connection attempt uri options = elim (parse uri) [
    | none ↦ some uri_invalid
    | some u ↦ open_parsed attempt uri options u
  ]
