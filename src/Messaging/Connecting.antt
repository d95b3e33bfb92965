-- ===== src/Messaging/Connecting.antt =====
-- How a connection is opened by its URI, and a session on it.
use mathlib.Core.Path.{subst}
use lambda_runtime_api_daemo.Base.{
  ℕ, ◌<◌, ◌≡◌, refl, sym, ap, ◌∙◌, ◌⊎◌, inl, inr, true, false, Option, none, some, List, [],
  is_some, nat_eq, Bytes, codes, bytes_eq, index_of,
}
use lambda_runtime_api_daemo.Messaging.Connection.{
  Connection, ConnectionError, Attempt, connected, refused_cancelled, up, is_closed, rounds,
  reconnect, new_connection, connection_cancelled, link_closed,
}
use lambda_runtime_api_daemo.Messaging.Opening.{
  UriOps, ConnectionOption, made, made_from, unopened, connection_named, open_parsed,
  open_connection,
}
use lambda_runtime_api_daemo.Messaging.Dialling.{
  link_left, Unnotified, Refused, reconnect-Ends, settled,
}
use lambda_runtime_api_daemo.Messaging.Session.{
  SessionOption, unopened_session, new_session, is_closed as session_is_closed,
}
use lambda_runtime_api_daemo.Messaging.Reconnection.{
  Usable, Settles, reconnect-Settles, error_left-some,
}

module _ (ops : UriOps) where
  -- The connection that the options and the URI describe.
  unfoldable pub described : Bytes → List ConnectionOption → ops.Uri → Connection
  unfolding connection_named
  described uri options u = unopened ops (connection_named options (codes "Connection")) uri u

  open_connection-amqp :
      (attempt : ℕ → Attempt) (uri : Bytes) (options : List ConnectionOption) (u : ops.Uri)
      → ops.parse uri ≡ some u
      → is_some (index_of (codes "amqp") (ops.scheme u)) ≡ true
      → open_connection ops attempt uri options
        ≡ made_from (reconnect attempt (described uri options u))
  unfolding open_connection open_parsed described
  open_connection-amqp attempt uri options u e amqp = rw (open_connection, e, open_parsed, amqp)

  described-new :
      (uri : Bytes) (options : List ConnectionOption) (u : ops.Uri)
      → let c = described uri options u in
        (is_closed c ≡ some true) × (c.err ≡ none) × (c.close_listeners ≡ []) × (c.uri ≡ uri)
  unfolding described unopened new_connection is_closed
  described-new uri options u = (refl, refl, refl, refl)

  -- How NewConnection and a Session on its connection end.
  abbrev pub Connects :
      (ℕ → Attempt)
      → (ℕ → Attempt)
      → Option Bytes
      → Bytes
      → List ConnectionOption
      → List SessionOption
      → ops.Uri
      → Type 0
  Connects attempt later answer uri options session_options u =
      let n = rounds (described uri options u).connection_attempts in
      ((j : ℕ) × (j < n)
        × Refused attempt j
        × (attempt j ≡ connected)
        × ((c : Connection) × (open_connection ops attempt uri options ≡ some (made c none))
            × (is_closed c ≡ some false)
            × (c.uri ≡ uri)
            × Settles (unopened_session session_options c)
                (new_session later answer session_options c)))
      ⊎ (((c : Connection) × ((e : ConnectionError) × (open_connection ops attempt uri options
                ≡ some (made c (some e)))))
          × (Refused attempt n
              ⊎ ((j : ℕ) × (j < n)
                  × Refused attempt j
                  × ((e : Bytes) × (attempt j ≡ refused_cancelled e)))))

  -- For a URI that parses, with a scheme for AMQP, of at least one attempt. If an attempt connects,
  -- after refusals only, NewConnection gives an open connection without an error, and Session on it
  -- does not panic: it gives an open session, or an error and a session that is closed for good.
  -- Otherwise NewConnection gives an error: all attempts were refused, or one was cancelled after
  -- refusals only.
  pub open_connection-Settles :
      (attempt later : ℕ → Attempt) (answer : Option Bytes) (uri : Bytes)
      (options : List ConnectionOption) (session_options : List SessionOption) (u : ops.Uri)
      → ops.parse uri ≡ some u
      → is_some (index_of (codes "amqp") (ops.scheme u)) ≡ true
      → 0 < rounds (described uri options u).connection_attempts
      → Connects attempt later answer uri options session_options u
  unfolding is_closed link_closed new_session unopened_session session_is_closed
  open_connection-Settles attempt later answer uri options session_options u e amqp tries =
      let c0 = described uri options u in
      let n = rounds c0.connection_attempts in
      let (shut, clear, listeners, at) = described-new uri options u in
      let unnotified = subst Unnotified (sym listeners) tt in
      let run = open_connection-amqp attempt uri options u e amqp in
      elim (reconnect-Ends attempt c0 shut clear unnotified) [
        | inl (j, lt, earlier, a, count, ended) ↦
            let c = settled up none c0 in
            let usable : Usable c = record {
              known = (false, refl);
              no_error = refl;
              unnotified = unnotified;
              tries = tries;
            } in
            inl (
              j,
              lt,
              earlier,
              a,
              (
                c,
                run ∙ ap made_from ended,
                refl,
                at,
                reconnect-Settles later answer (unopened_session session_options c) usable refl
                    refl,
              ),
            )
        | inr (inl (j, lt, earlier, a, count, ended)) ↦
            inr ((_, (connection_cancelled, run ∙ ap made_from ended)), inr (j, lt, earlier, a))
        | inr (inr (earlier, count, ended)) ↦
            let (x, left) = error_left-some attempt n earlier tries in
            inr (
              (
                _,
                (
                  x,
                  run
                      ∙ ap made_from
                          (ended ∙ ap (λ y. some (settled (link_left attempt n) y c0, y)) left),
                ),
              ),
              inl earlier,
            )
      ]
