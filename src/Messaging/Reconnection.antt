-- ===== src/Messaging/Reconnection.antt =====
-- How a session reconnects.
use mathlib.Core.Path.{subst}
use lambda_runtime_api_daemo.Base.{
  ℕ, zero, suc, ◌<◌, ◌≡◌, refl, sym, ◌≢◌, ◌⊎◌, inl, inr, Bool, true, false, Option, none, some,
  List, [], ◌∷◌, arith, Option-cases, nat_eq, Bytes, bytes_eq,
}
use lambda_runtime_api_daemo.Messaging.Connection.{
  Connection, ConnectionError, Attempt, Link, absent, up, down, rounds, link_closed,
  is_closed as connection_is_closed, reconnect as connection_reconnect, refused_with,
}
use lambda_runtime_api_daemo.Messaging.Session.{
  Session, SessionError, connection_error, channel_error, live, first_channel, open_channel,
  after_connection, reopen, reconnect, is_closed,
}
use lambda_runtime_api_daemo.Messaging.Dialling.{
  Unnotified, Refused, reconnect-Ends, error_left, settled,
}

-- A connection that can be used or reconnected: its first pointer is not nil, it has not failed for
-- good, its listeners wait and it makes at least one attempt.
pub record Usable (c : Connection) : Type 0 where
  pub known : (closed : Bool) × (connection_is_closed c ≡ some closed)
  pub no_error : c.err ≡ none
  pub unnotified : Unnotified c.close_listeners
  pub tries : 0 < rounds c.connection_attempts

-- What a call of reconnect comes to: the session is open on a usable connection and its old barrier
-- is closed; or it has an error, is closed for good, and its barrier and channels are as earlier.
abbrev pub Settles : Session → Option (Session × Option SessionError) → Type 0
Settles s r =
    ((t : Session) × (r ≡ some (t, none))
      × (is_closed t ≡ false)
      × (t.closed ≡ false)
      × (t.barrier ≡ suc s.barrier)
      × Usable t.connection)
    ⊎ ((t : Session) × ((e : SessionError) × (r ≡ some (t, some e)))
        × (t.closed ≡ true)
        × (t.barrier ≡ s.barrier)
        × (t.channels ≡ s.channels))

open_channel-Settles :
    (answer : Option Bytes) (s : Session) (l : Link) (ls : List Link)
    → s.connection.connections ≡ l ∷ ls
    → l ≢ absent
    → s.closed ≡ false
    → Usable s.connection
    → Settles s (open_channel answer s)
unfolding open_channel first_channel is_closed
open_channel-Settles answer s absent ls e ne h u = absurd (ne refl)
open_channel-Settles none s up ls e ne h u = inl (
  record s { channels = live ∷ []; barrier = suc s.barrier },
  rw (e, first_channel),
  refl,
  h,
  refl,
  u,
)
open_channel-Settles none s down ls e ne h u = inl (
  record s { channels = live ∷ []; barrier = suc s.barrier },
  rw (e, first_channel),
  refl,
  h,
  refl,
  u,
)
open_channel-Settles (some x) s up ls e ne h u =
    inr (record s { closed = true }, (channel_error x, rw (e, first_channel)), refl, refl, refl)
open_channel-Settles (some x) s down ls e ne h u =
    inr (record s { closed = true }, (channel_error x, rw (e, first_channel)), refl, refl, refl)

pub error_left-some :
    (attempt : ℕ → Attempt) (n : ℕ)
    → Refused attempt n
    → 0 < n
    → (e : ConnectionError) × (error_left attempt n ≡ some e)
error_left-some attempt zero r h = absurd (omega arith)
error_left-some attempt (suc n) (r, (l, (e, a))) h = (refused_with e, rw a)

failed-Settles :
    (s : Session) (c : Connection) (x : ConnectionError) (answer : Option Bytes)
    → Settles s (after_connection answer s (c, some x))
unfolding after_connection
failed-Settles s c x answer =
    inr (record s { connection = c; closed = true }, (connection_error x, refl), refl, refl, refl)

settled-Usable : (c : Connection) → Usable c → Usable (settled up none c)
unfolding connection_is_closed
settled-Usable c u = record {
  known = (false, refl);
  no_error = refl;
  unnotified = u.unnotified;
  tries = u.tries;
}

settled-Settles :
    (s : Session) (c : Connection) (answer : Option Bytes)
    → s.closed ≡ false
    → Usable c
    → Settles s (after_connection answer s (settled up none c, none))
unfolding after_connection
settled-Settles s c answer h u =
    open_channel-Settles answer (record s { connection = settled up none c }) up [] refl (λ e. cc) h
      (settled-Usable c u)

after_reconnect :
    (attempt : ℕ → Attempt) (answer : Option Bytes) (s : Session)
    → Option (Connection × Option ConnectionError)
    → Option (Session × Option SessionError)
after_reconnect attempt answer s none = none
after_reconnect attempt answer s (some r) = after_connection answer s r

reconnected-Settles :
    (attempt : ℕ → Attempt) (answer : Option Bytes) (s : Session)
    → Usable s.connection
    → connection_is_closed s.connection ≡ some true
    → s.closed ≡ false
    → Settles s (after_reconnect attempt answer s (connection_reconnect attempt s.connection))
unfolding after_reconnect
reconnected-Settles attempt answer s u down' h =
    let n = rounds s.connection.connection_attempts in
    elim (reconnect-Ends attempt s.connection down' u.no_error u.unnotified) [
      | inl (j, lt, earlier, a, count, run) ↦ rw run (settled-Settles s s.connection answer h u)
      | inr (inl (j, lt, earlier, a, count, run)) ↦ rw run (failed-Settles s _ _ answer)
      | inr (inr (earlier, count, run)) ↦
          let (x, left) = error_left-some attempt n earlier u.tries in
          rw (run, left) (failed-Settles s _ x answer)
    ]

open_link :
    (c : Connection)
    → connection_is_closed c ≡ some false
    → (ls : List Link) × (c.connections ≡ up ∷ ls)
unfolding connection_is_closed link_closed
open_link c h = link_at c.connections refl h
  where
    link_at :
        (ls : List Link)
        → c.connections ≡ ls
        → elim ls [ [] ↦ some true | l ∷ ls' ↦ link_closed l ] ≡ some false
        → (ls' : List Link) × (c.connections ≡ up ∷ ls')
    link_at [] e x = cc
    link_at (absent ∷ ls) e x = cc
    link_at (up ∷ ls) e x = (ls, e)
    link_at (down ∷ ls) e x = cc

reopen-closed :
    (attempt : ℕ → Attempt) (answer : Option Bytes) (s : Session)
    → connection_is_closed s.connection ≡ some true
    → reopen attempt answer s
      ≡ after_reconnect attempt answer s (connection_reconnect attempt s.connection)
unfolding reopen after_reconnect
reopen-closed attempt answer s e = elim (Option-cases (connection_reconnect attempt s.connection)) [
  | inl n ↦ rw (e, n, reopen, after_reconnect)
  | inr (r, n) ↦ rw (e, n, reopen, after_reconnect)
]

reopen-Settles :
    (attempt : ℕ → Attempt) (answer : Option Bytes) (s : Session) (closed : Bool)
    → Usable s.connection
    → connection_is_closed s.connection ≡ some closed
    → s.closed ≡ false
    → Settles s (reopen attempt answer s)
unfolding reopen
reopen-Settles attempt answer s true u e h =
    subst (Settles s) (sym (reopen-closed attempt answer s e))
      (reconnected-Settles attempt answer s u e h)
reopen-Settles attempt answer s false u e h =
    let (ls, at) = open_link s.connection e in
    rw (e, reopen) (open_channel-Settles answer s up ls at (λ x. cc) h u)

reconnect-lost :
    (attempt : ℕ → Attempt) (answer : Option Bytes) (s : Session)
    → s.closed ≡ false
    → is_closed s ≡ true
    → reconnect attempt answer s ≡ reopen attempt answer s
unfolding reconnect
reconnect-lost attempt answer s h lost = ground (arith, h, lost)

-- A session that has lost its channel and is not closed for good, on a connection that can be used
-- or reconnected, reconnects without a panic, whatever the broker answers: either it is open, and
-- whoever waits for it goes on; or an error is returned, the session is closed for good, and the
-- barrier on which others wait is as before.
pub reconnect-Settles :
    (attempt : ℕ → Attempt) (answer : Option Bytes) (s : Session)
    → Usable s.connection
    → s.closed ≡ false
    → is_closed s ≡ true
    → Settles s (reconnect attempt answer s)
reconnect-Settles attempt answer s u h lost =
    subst (Settles s) (sym (reconnect-lost attempt answer s h lost))
      (reopen-Settles attempt answer s u.known.0 u u.known.1 h)
