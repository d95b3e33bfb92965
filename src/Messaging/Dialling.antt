-- ===== src/Messaging/Dialling.antt =====
-- How the loop over the attempts of a connection ends.
use mathlib.Core.Path.{subst}
use lambda_runtime_api_daemo.Base.{
  ℕ, zero, suc, ◌+◌, ◌<◌, ◌≡◌, refl, sym, ap, ◌∙◌, ◌⊎◌, inl, inr, true, Option, none, some, List,
  [], ◌∷◌, map, arith, nat_eq, All, Bytes, bytes_eq, before,
}
use lambda_runtime_api_daemo.Messaging.Connection.{
  Link, absent, up, Connection, Attempt, connected, refused, refused_cancelled, ConnectionError,
  refused_with, Dialled, finished, cancelled, one_more, dial, rounds, settle, reconnect, reopen,
  close, is_closed, notify, Listener, waiting, notified, connection_cancelled,
}

abbrev IsRefused : (ℕ → Attempt) → ℕ → Type 0
IsRefused attempt i = (l : Link) × ((e : Bytes) × (attempt i ≡ refused l e))

-- The first n attempts are refused, and their delays run out.
abbrev pub Refused : (ℕ → Attempt) → ℕ → Type 0
Refused attempt zero = Unit
Refused attempt (suc n) = Refused attempt n × IsRefused attempt n

-- The error of the last of n refused attempts.
abbrev pub error_of : Attempt → Option ConnectionError
error_of (refused l e) = some (refused_with e)
error_of _ = none

abbrev pub error_left : (ℕ → Attempt) → ℕ → Option ConnectionError
error_left attempt zero = none
error_left attempt (suc n) = error_of (attempt n)

-- The pointer of the last of n refused attempts: nil if there is none.
abbrev link_of : Attempt → Link
link_of (refused l e) = l
link_of _ = absent

abbrev pub link_left : (ℕ → Attempt) → ℕ → Link
link_left attempt zero = absent
link_left attempt (suc n) = link_of (attempt n)

-- What n refused attempts leave: the pointer and the error of the last.
abbrev left_by : (ℕ → Attempt) → ℕ → Dialled
left_by attempt n = finished (link_left attempt n) (error_left attempt n)

Attempt-cases :
    (a : Attempt)
    → (a ≡ connected)
      ⊎ ((l : Link) × ((e : Bytes) × (a ≡ refused l e)))
      ⊎ ((e : Bytes) × (a ≡ refused_cancelled e))
Attempt-cases connected = inl refl
Attempt-cases (refused l e) = inr (inl (l, (e, refl)))
Attempt-cases (refused_cancelled e) = inr (inr (e, refl))

-- How the loop ends that has dialled i times and may dial k times more.
abbrev Ending : (ℕ → Attempt) → ℕ → ℕ → Dialled × ℕ → Type 0
Ending attempt i k r =
    ((j m : ℕ) × (j ≡ i + m)
      × (m < k)
      × Refused attempt j
      × (attempt j ≡ connected)
      × (r ≡ (finished up none, suc m)))
    ⊎ ((j m : ℕ) × (j ≡ i + m)
        × (m < k)
        × Refused attempt j
        × ((e : Bytes) × (attempt j ≡ refused_cancelled e))
        × (r ≡ (cancelled, suc m)))
    ⊎ ((j : ℕ) × (j ≡ i + k) × Refused attempt j × (r ≡ (left_by attempt j, k)))

Ending-one_more :
    (attempt : ℕ → Attempt) (i k : ℕ) (r : Dialled × ℕ)
    → Ending attempt (suc i) k r
    → Ending attempt i (suc k) (one_more r)
Ending-one_more attempt i k r (inl (j, m, e, lt, before, a, p)) =
    inl (j, suc m, omega arith, omega arith, before, a, ap one_more p)
Ending-one_more attempt i k r (inr (inl (j, m, e, lt, before, a, p))) =
    inr (inl (j, suc m, omega arith, omega arith, before, a, ap one_more p))
Ending-one_more attempt i k r (inr (inr (j, e, before, p))) =
    inr (inr (j, omega arith, before, ap one_more p))

dial-refused :
    (attempt : ℕ → Attempt) (k i : ℕ) (l : Link) (e : Bytes) (d : Dialled)
    → attempt i ≡ refused l e
    → dial attempt (suc k) i d ≡ one_more (dial attempt k (suc i) (left_by attempt (suc i)))
unfolding dial
dial-refused attempt k i l e d a = rw (a, dial)

dial-Ending :
    (attempt : ℕ → Attempt) (k i : ℕ)
    → Refused attempt i
    → Ending attempt i k (dial attempt k i (left_by attempt i))
unfolding dial
dial-Ending attempt zero i before = inr (inr (i, omega arith, before, refl))
dial-Ending attempt (suc k) i before = elim (Attempt-cases (attempt i)) [
  | inl a ↦ inl (i, 0, omega arith, omega arith, before, a, rw (a, dial))
  | inr (inl (l, (e, a))) ↦
      subst (Ending attempt i (suc k)) (sym (dial-refused attempt k i l e (left_by attempt i) a)) (
        Ending-one_more attempt i k (dial attempt k (suc i) (left_by attempt (suc i)))
          (dial-Ending attempt k (suc i) (before, (l, (e, a)))))
  | inr (inr (e, a)) ↦ inr (inl (i, 0, omega arith, omega arith, before, (e, a), rw (a, dial)))
]

-- A settled connection. If it has the error of the last refusal, each listener has got it.
abbrev pub notified_all : Option ConnectionError → List Listener → List Listener
notified_all none ls = ls
notified_all (some e) ls = map (λ l. notified e) ls

abbrev pub settled : Link → Option ConnectionError → Connection → Connection
settled l e c = record c {
  connections = l ∷ [];
  err = e;
  close_listeners = notified_all e c.close_listeners;
}

abbrev pub Unnotified : List Listener → Type 0
Unnotified = All (λ l. l ≡ waiting)

notify-waiting :
    (e : ConnectionError) (ls : List Listener)
    → Unnotified ls
    → notify e ls ≡ some (map (λ l. notified e) ls)
unfolding notify
notify-waiting e [] u = refl
notify-waiting e (waiting ∷ ls) u = rw (notify-waiting e ls u.1)
notify-waiting e (notified e' ∷ ls) u = cc

settle-finished :
    (l : Link) (e : Option ConnectionError) (c : Connection)
    → Unnotified c.close_listeners
    → c.err ≡ none
    → settle (finished l e) c ≡ some (settled l e c, e)
unfolding settle close
settle-finished l none c u n = refl
settle-finished l (some e) c u n = rw (notify-waiting e c.close_listeners u, settle)

settle-cancelled :
    (c : Connection)
    → settle cancelled c
      ≡ some (record c { err = some connection_cancelled }, some connection_cancelled)
unfolding settle
settle-cancelled c = refl

reconnect-closed :
    (attempt : ℕ → Attempt) (c : Connection)
    → is_closed c ≡ some true
    → c.err ≡ none
    → reconnect attempt c
      ≡ settle (dial attempt (rounds c.connection_attempts) 0 (finished absent none)).0 c
unfolding reconnect reopen
reconnect-closed attempt c s n = ground (arith, s, n)

-- The three ways in which a reconnection ends, with the number of dials that it has made.
abbrev pub Ends : (ℕ → Attempt) → Connection → Type 0
Ends attempt c =
    let n = rounds c.connection_attempts in
    let dials = (dial attempt n 0 (finished absent none)).1 in
    ((j : ℕ) × (j < n)
      × Refused attempt j
      × (attempt j ≡ connected)
      × (dials ≡ suc j)
      × (reconnect attempt c ≡ some (settled up none c, none)))
    ⊎ ((j : ℕ) × (j < n)
        × Refused attempt j
        × ((e : Bytes) × (attempt j ≡ refused_cancelled e))
        × (dials ≡ suc j)
        × (reconnect attempt c
            ≡ some (record c { err = some connection_cancelled }, some connection_cancelled)))
    ⊎ (Refused attempt n
        × (dials ≡ n)
        × (reconnect attempt c
            ≡ some (settled (link_left attempt n) (error_left attempt n) c, error_left attempt n)))

-- A connection that is closed, has no error and whose listeners wait, reconnects within its number
-- of attempts. Either an attempt connects, after refusals only: the connection is open, without an
-- error. Or one is cancelled, after refusals only: just the error is set. Or all are refused: the
-- pool holds the pointer that the last dial gave with its error, and that error is the connection's,
-- which every listener has got. With no attempt, the last case leaves a nil pointer and no error.
-- The number of dials is that of the attempts up to the one that ends the loop.
pub reconnect-Ends :
    (attempt : ℕ → Attempt) (c : Connection)
    → is_closed c ≡ some true
    → c.err ≡ none
    → Unnotified c.close_listeners
    → Ends attempt c
reconnect-Ends attempt c s n u =
    let k = rounds c.connection_attempts in
    let run = reconnect-closed attempt c s n in
    elim (dial-Ending attempt k 0 tt) [
      | inl (j, m, e, lt, before, a, p) ↦
          let count = dials_of p in
          inl
            (j, omega arith, before, a, omega arith, run ∙ ended p ∙ settle-finished up none c u n)
      | inr (inl (j, m, e, lt, before, a, p)) ↦
          let count = dials_of p in
          inr (inl (j, omega arith, before, a, omega arith, run ∙ ended p ∙ settle-cancelled c))
      | inr (inr (j, e, before, p)) ↦
          let same : j ≡ k = omega arith in
          let q =
            subst (λ i. dial attempt k 0 (left_by attempt 0) ≡ (left_by attempt i, k)) same p in
          inr (
            inr (
              subst (Refused attempt) same before,
              dials_of p,
              run ∙ ended q ∙ settle-finished (link_left attempt k) (error_left attempt k) c u n,
            ))
    ]
  where
    dials_of :
        {r : Dialled × ℕ}
        → dial attempt (rounds c.connection_attempts) 0 (finished absent none) ≡ r
        → (dial attempt (rounds c.connection_attempts) 0 (finished absent none)).1 ≡ r.1
    dials_of p = ap (λ (r : Dialled × ℕ). r.1) p

    ended :
        {r : Dialled × ℕ}
        → dial attempt (rounds c.connection_attempts) 0 (finished absent none) ≡ r
        → settle (dial attempt (rounds c.connection_attempts) 0 (finished absent none)).0 c
          ≡ settle r.0 c
    ended p = ap (λ (r : Dialled × ℕ). settle r.0 c) p
