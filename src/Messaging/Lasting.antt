-- ===== src/Messaging/Lasting.antt =====
-- How long a session lasts.
use lambda_runtime_api_daemo.Base.{
  suc, ◌+◌, ◌<◌, ◌≡◌, refl, sym, ap, ◌∙◌, ◌⊎◌, inl, inr, Bool, true, false, Option, none, some,
  List, [], ◌∷◌, arith, if◌then◌else◌, Option-cases, nat_eq, length, bytes_eq,
}
use lambda_runtime_api_daemo.Messaging.Connection.{
  Connection, Link, absent, up, down, link_closed, is_closed as connection_is_closed,
}
use lambda_runtime_api_daemo.Messaging.Session.{
  Session, SessionError, Channel, live, shut, close_listener, is_closed, reconnect,
}
use lambda_runtime_api_daemo.Messaging.Reconnection.{Usable, reconnect-Settles}
use lambda_runtime_api_daemo.Messaging.Lifetime.{Loss, dropped, shut_first, lose_session, listen}

-- After some losses: open and usable, with as many barriers closed; or closed for good at one of
-- them.
abbrev pub Lasts : Session → List Loss → Option Session → Type 0
Lasts s es r =
    (t : Session) × (r ≡ some t)
    × (((is_closed t ≡ false) × (t.closed ≡ false) × (t.barrier ≡ s.barrier + length es))
        ⊎ ((t.closed ≡ true) × (t.barrier < s.barrier + length es)))

abbrev first_closed : List Link → Option Bool
first_closed [] = some true
first_closed (l ∷ ls) = link_closed l

dropped-known :
    (ls : List Link) (b : Bool)
    → first_closed ls ≡ some b
    → (c : Bool) × (first_closed (dropped ls) ≡ some c)
unfolding link_closed
dropped-known [] b e = (true, refl)
dropped-known (absent ∷ ls) b e = absurd cc
dropped-known (up ∷ ls) b e = (true, refl)
dropped-known (down ∷ ls) b e = (true, refl)

closed-first :
    (c : Connection) (ls : List Link)
    → c.connections ≡ ls
    → connection_is_closed c ≡ first_closed ls
unfolding connection_is_closed
closed-first c [] e = rw e
closed-first c (l ∷ ls) e = rw e

lose_session-Usable :
    (too : Bool) (s : Session) → Usable s.connection → Usable (lose_session too s).connection
unfolding lose_session
lose_session-Usable false s u = u
lose_session-Usable true s u =
    let c = s.connection in
    let (b, e) =
      dropped-known c.connections u.known.0 (sym (closed-first c c.connections refl) ∙ u.known.1) in
    record {
      known = (
        b,
        closed-first (record c { connections = dropped c.connections }) (dropped c.connections) refl
            ∙ e,
      );
      no_error = u.no_error;
      unnotified = u.unnotified;
      tries = u.tries;
    }

shut_first-closed :
    (cs : List Channel)
    → elim (shut_first cs) [ [] ↦ true | c ∷ ds ↦ elim c [ live ↦ false | shut ↦ true ] ] ≡ true
shut_first-closed [] = refl
shut_first-closed (c ∷ cs) = refl

lost-closed : (too : Bool) (s : Session) → is_closed (lose_session too s) ≡ true
unfolding lose_session is_closed
lost-closed too s = shut_first-closed s.channels

-- How the listeners go on after a reconnect.
next : List Loss → Option (Session × Option SessionError) → Option Session
next es none = none
next es (some (t, err)) = elim t.closed [ true ↦ some t | false ↦ listen es t ]

listen-next :
    (e : Loss) (es : List Loss) (s : Session)
    → listen (e ∷ es) s
      ≡ next es (close_listener e.attempt e.answer (lose_session e.with_connection s))
unfolding listen next
listen-next e es s =
    elim (Option-cases (close_listener e.attempt e.answer (lose_session e.with_connection s))) [
      | inl r ↦ rw (r, listen, next)
      | inr (p, r) ↦ rw (r, listen, next)
    ]

close_listener-reconnect :
    (e : Loss) (s : Session)
    → s.closed ≡ false
    → close_listener e.attempt e.answer s ≡ reconnect e.attempt e.answer s
unfolding close_listener
close_listener-reconnect e s h = rw h

next-some :
    (es : List Loss) (t : Session) (err : Option SessionError) (b : Bool)
    → t.closed ≡ b
    → next es (some (t, err)) ≡ (if b then some t else listen es t)
unfolding next
next-some es t err b h = ap (λ c. elim c [ true ↦ some t | false ↦ listen es t ]) h ∙ either b
  where
    either :
        (c : Bool)
        → elim c [ true ↦ some t | false ↦ listen es t ] ≡ (if c then some t else listen es t)
    either true = refl
    either false = refl

-- A session that is open on a usable connection, over any number of losses of its channel, with or
-- without its connection, if the program does not close it, and whatever the broker answers to the
-- reconnects: there is no panic; after all of them it is open and has let its waiters go on once
-- for each loss, or a reconnect has failed and it is closed for good.
pub listen-Lasts :
    (es : List Loss) (s : Session)
    → Usable s.connection
    → s.closed ≡ false
    → is_closed s ≡ false
    → Lasts s es (listen es s)
unfolding listen
listen-Lasts [] s u h working = (s, refl, inl (working, h, omega arith))
listen-Lasts (e ∷ es) s u h working =
    let s1 = lose_session e.with_connection s in
    let run : listen (e ∷ es) s ≡ next es (reconnect e.attempt e.answer s1) =
      listen-next e es s ∙ ap (next es) (close_listener-reconnect e s1 h) in
    elim (reconnect-Settles e.attempt e.answer s1 (lose_session-Usable e.with_connection s u) h
      (lost-closed e.with_connection s)) [
        | inl (t, r, o, c, b, v) ↦
            let (last, rest, outcome) = listen-Lasts es t v c o in
            (
              last,
              run ∙ ap (next es) r ∙ next-some es t none false c ∙ rest,
              later last t b outcome,
            )
        | inr (t, (err, r), c, b, d) ↦
            (t, run ∙ ap (next es) r ∙ next-some es t (some err) true c, inr (c, omega (arith, b)))
      ]
  where
    later :
        (last t : Session)
        → t.barrier ≡ suc s.barrier
        → ((is_closed last ≡ false)
            × (last.closed ≡ false)
            × (last.barrier ≡ t.barrier + length es))
          ⊎ ((last.closed ≡ true) × (last.barrier < t.barrier + length es))
        → ((is_closed last ≡ false)
            × (last.closed ≡ false)
            × (last.barrier ≡ s.barrier + suc (length es)))
          ⊎ ((last.closed ≡ true) × (last.barrier < s.barrier + suc (length es)))
    later last t b (inl (o, c, n)) = inl (o, c, omega arith)
    later last t b (inr (c, n)) = inr (c, omega arith)
