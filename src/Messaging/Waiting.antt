-- ===== src/Messaging/Waiting.antt =====
-- Who waits for a session in vain.
use mathlib.Core.Path.{subst}
use mathlib.Core.Option.{some-injective}
use lambda_runtime_api_daemo.Base.{
  ℕ, suc, ◌≡◌, refl, sym, ◌∙◌, ◌⊎◌, inl, inr, Bool, true, false, Option, none, some, List, arith,
  ltb, Bool-cases, nat_eq, Bytes, bytes_eq,
}
use lambda_runtime_api_daemo.Messaging.Connection.{
  Connection, Attempt, create_pool as connection_create_pool,
}
use lambda_runtime_api_daemo.Messaging.Pooling.{create_pool-large}
use lambda_runtime_api_daemo.Messaging.Session.{
  Session, SessionError, Channel, with_channels, reconnect_locked, close, wait, is_released,
  create_pool,
}

-- A session with the number of the calls of reconnect that have found `closed` unset and have not
-- returned.
pub record Shared : Type 0 where
  pub session : Session
  pub reconnecting : ℕ

-- What may happen to a session: a call of reconnect tests `closed`, or runs from its lock on; the
-- session is closed or gets a larger pool; or the broker, other sessions and the owner of the
-- connection change the state of its channels and its connection.
pub data Step : Shared → Shared → Type 0 where
  enters :
      (s : Shared)
      → s.session.closed ≡ false
      → Step s (record s { reconnecting = suc s.reconnecting })
  reconnects :
      (attempt : ℕ → Attempt) (answer : Option Bytes) (n : ℕ) (s : Shared) (t : Session)
      (e : Option SessionError)
      → s.reconnecting ≡ suc n
      → reconnect_locked attempt answer s.session ≡ some (t, e)
      → Step s (record { session = t; reconnecting = n })
  pools :
      (dials opens : ℕ → Bool) (size : ℕ) (s : Shared) (t : Session)
      → create_pool dials opens size s.session ≡ some t
      → Step s (record s { session = t })
  closes : (s : Shared) → Step s (record s { session = close s.session })
  changes :
      (c : Connection) (cs : List Channel) (s : Shared)
      → Step s (record s { session = record s.session { connection = c; channels = cs } })

pub data Reach (s : Shared) : Shared → Type 0 where
  here : Reach s s
  later : {t u : Shared} → Reach s t → Step t u → Reach s u

-- A session that is closed for good, with its barrier.
abbrev ClosedAt : ℕ → Session → Type 0
ClosedAt b s = (s.closed ≡ true) × (s.barrier ≡ b)

with_channels-ClosedAt :
    (b : ℕ) (s t : Session) (cs : Option (List Channel))
    → with_channels s cs ≡ some t
    → ClosedAt b s
    → ClosedAt b t
with_channels-ClosedAt b s t none e v = cc
with_channels-ClosedAt b s t (some cs) e v = subst (ClosedAt b) (some-injective _ t e) v

pub create_pool-small :
    (dials opens : ℕ → Bool) (size : ℕ) (s : Session)
    → ltb 1 size ≡ false
    → create_pool dials opens size s ≡ some s
unfolding create_pool
create_pool-small dials opens size s h = ground (arith, h)

pools-ClosedAt :
    (dials opens : ℕ → Bool) (size b : ℕ) (s t : Session)
    → create_pool dials opens size s ≡ some t
    → ClosedAt b s
    → ClosedAt b t
pools-ClosedAt dials opens size b s t e v = elim (Bool-cases (ltb 1 size)) [
  | inl many ↦
      with_channels-ClosedAt b
        (record s { connection = connection_create_pool dials size s.connection }) t _
        (sym (create_pool-large dials opens size s many) ∙ e) v
  | inr few ↦
      subst (ClosedAt b) (some-injective s t (sym (create_pool-small dials opens size s few) ∙ e)) v
]

-- A session that is closed for good, and of which no reconnect is under way.
abbrev Still : ℕ → Shared → Type 0
Still b s = ClosedAt b s.session × (s.reconnecting ≡ 0)

Step-Still : {b : ℕ} {s t : Shared} → Step s t → Still b s → Still b t
unfolding close
Step-Still (enters s open') ((c, same), idle) = cc
Step-Still (reconnects attempt answer n s t e busy run) (v, idle) =
    absurd (ground (arith, busy, idle))
Step-Still {b} (pools dials opens size s t e) (v, idle) =
    (pools-ClosedAt dials opens size b s.session t e v, idle)
Step-Still (closes s) ((c, same), idle) = ((refl, same), idle)
Step-Still (changes c cs s) (v, idle) = (v, idle)

Reach-Still : {b : ℕ} {s t : Shared} → Reach s t → Still b s → Still b t
Reach-Still here v = v
Reach-Still (later r st) v = Step-Still st (Reach-Still r v)

-- Whoever waits for a session when it is closed, or when a reconnect of it fails and leaves the
-- barrier as it is, waits for ever if no call of reconnect is under way then: whatever happens to
-- the session afterwards, the barrier that it waits on is not closed.
pub wait-stranded :
    (s : Session) (t u : Shared) (b : ℕ)
    → wait s ≡ some b
    → (t.session ≡ close s) ⊎ ((t.session.closed ≡ true) × (t.session.barrier ≡ s.barrier))
    → t.reconnecting ≡ 0
    → Reach t u
    → is_released b u.session ≡ false
unfolding wait close
wait-stranded s t u b w how idle path =
    let at : s.barrier ≡ b = ground (arith, w) in
    let v = Reach-Still {b = b} path (closed_at how at, idle) in ground (arith, v.0.1)
  where
    closed_at :
        (t.session ≡ close s) ⊎ ((t.session.closed ≡ true) × (t.session.barrier ≡ s.barrier))
        → s.barrier ≡ b
        → ClosedAt b t.session
    closed_at (inl e) at = subst (ClosedAt b) (sym e) (refl, at)
    closed_at (inr (c, same)) at = (c, same ∙ at)
