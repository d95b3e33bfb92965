-- ===== src/Messaging/Draining.antt =====
-- When Close of a pooled producer returns.
use lambda_runtime_api_daemo.Base.{
  ℕ, zero, suc, ◌+◌, ◌*◌, ◌≤◌, ◌<◌, ◌≡◌, refl, ap, ◌⊎◌, inl, inr, true, false, Option, none, some,
  List, [], ◌∷◌, arith, ltb, ltb→lt, Bool-cases, nat_eq, length, get_elem?, total, total-set,
  total-le, bytes_eq,
}
use lambda_runtime_api_daemo.Messaging.Message.{Message}
use lambda_runtime_api_daemo.Messaging.Dispatcher.{
  Worker, idle, holding, checking, ended, Dispatchers, receive, publish_held, check, is_drained,
  Work, receives, publishes, checks,
}

-- The steps that a dispatcher makes until it is in its select again.
abbrev pub weight : Worker → ℕ
weight idle = 0
weight (holding m) = 2
weight checking = 1
weight ended = 0

abbrev pub alive : Worker → ℕ
alive ended = 0
alive _ = 1

abbrev pub measure : Dispatchers → ℕ
measure d = 3 * length d.queue + total weight d.workers

-- Some number of steps of the dispatchers.
pub data Works (d : Dispatchers) : ℕ → Dispatchers → Type 0 where
  none_yet : Works d 0 d
  more : {k : ℕ} {e f : Dispatchers} → Works d k e → Work e f → Works d (suc k) f

-- A dispatcher is between its select and its test, or the queue has a message and a dispatcher is
-- there to take it.
abbrev pub Pending : Dispatchers → Type 0
Pending d = (0 < total weight d.workers) ⊎ ((0 < length d.queue) × (0 < total alive d.workers))

-- The waiter is there, and has been signalled or something is pending.
abbrev Owed : Dispatchers → Type 0
Owed d = (n : ℕ) × (d.waiter ≡ some n) × ((0 < n) ⊎ Pending d)

check-measure :
    (i : ℕ) (d : Dispatchers)
    → get_elem? d.workers i ≡ some checking
    → suc (measure (check i d)) ≡ measure d
unfolding check
check-measure i d e = elim (Bool-cases (is_drained d.queue d.waiter)) [
  | inl drained ↦ rw (check, drained) (omega (arith, total-set weight d.workers i checking ended e))
  | inr other ↦ rw (check, other) (omega (arith, total-set weight d.workers i checking idle e))
]

Work-measure : {d e : Dispatchers} → Work d e → suc (measure e) ≡ measure d
unfolding receive publish_held
Work-measure (receives i m rest d e q) =
    let whole : length d.queue ≡ suc (length rest) = ap length q in
    omega (arith, total-set weight d.workers i idle (holding m) e)
Work-measure (publishes i accepted m d e) =
    omega (arith, total-set weight d.workers i (holding m) checking e)
Work-measure (checks i d e) = check-measure i d e

drained-cases :
    (q : List Message) (o : Option ℕ) (n : ℕ) → o ≡ some n → is_drained q o ≡ false → 0 < length q
drained-cases [] none n e f = cc
drained-cases [] (some k) n e f = cc
drained-cases (m ∷ q) o n e f = omega arith

check-Owed :
    (i : ℕ) (d : Dispatchers) → get_elem? d.workers i ≡ some checking → Owed d → Owed (check i d)
unfolding check
check-Owed i d e (n, w, o) = elim (Bool-cases (is_drained d.queue d.waiter)) [
  | inl drained ↦ rw (check, drained, w) (suc n, refl, inl (omega arith))
  | inr other ↦
      let some_left = drained-cases d.queue d.waiter n w other in
      let there = total-le alive d.workers i checking e in
      let one = total-set alive d.workers i checking idle e in
      rw (check, other) (n, w, inr (inr (some_left, omega (arith, one, there))))
]

Work-Owed : {d e : Dispatchers} → Work d e → Owed d → Owed e
unfolding receive publish_held
Work-Owed (receives i m rest d e q) (n, w, o) =
    (n, w, inr (inl (omega (arith, total-set weight d.workers i idle (holding m) e))))
Work-Owed (publishes i accepted m d e) (n, w, o) =
    let there = total-le weight d.workers i (holding m) e in
    (n, w, inr (inl (omega (arith, there, total-set weight d.workers i (holding m) checking e))))
Work-Owed (checks i d e) o = check-Owed i d e o

Works-Owed : {d : Dispatchers} {k : ℕ} {e : Dispatchers} → Works d k e → Owed d → Owed e
Works-Owed none_yet o = o
Works-Owed (more ws w) o = Work-Owed w (Works-Owed ws o)

Works-measure :
    {d : Dispatchers} {k : ℕ} {e : Dispatchers} → Works d k e → k + measure e ≡ measure d
Works-measure none_yet = omega arith
Works-measure (more ws w) = omega (arith, Works-measure ws, Work-measure w)

-- A dispatcher that counts.
find :
    (g : Worker → ℕ) (ws : List Worker)
    → 0 < total g ws
    → (i : ℕ) × ((w : Worker) × (get_elem? ws i ≡ some w) × (0 < g w))
find g [] h = absurd (omega arith)
find g (w ∷ ws) h = elim (Bool-cases (ltb 0 (g w))) [
  | inl yes' ↦ (0, (w, refl, ltb→lt 0 (g w) yes'))
  | inr no' ↦ let (i, (v, e, k)) = find g ws (ground (arith, no', h)) in (suc i, (v, e, k))
]

busy-works :
    (i : ℕ) (w : Worker) (d : Dispatchers)
    → get_elem? d.workers i ≡ some w
    → 0 < weight w
    → (e : Dispatchers) × Work d e
busy-works i idle d e h = absurd (omega arith)
busy-works i (holding m) d e h = (publish_held i true m d, publishes i true m d e)
busy-works i checking d e h = (check i d, checks i d e)
busy-works i ended d e h = absurd (omega arith)

alive-works :
    (i : ℕ) (w : Worker) (m : Message) (rest : List Message) (d : Dispatchers)
    → get_elem? d.workers i ≡ some w
    → 0 < alive w
    → d.queue ≡ m ∷ rest
    → (e : Dispatchers) × Work d e
alive-works i idle m rest d e h q = (receive i m rest d, receives i m rest d e q)
alive-works i (holding n) m rest d e h q = busy-works i (holding n) d e (omega arith)
alive-works i checking m rest d e h q = busy-works i checking d e (omega arith)
alive-works i ended m rest d e h q = absurd (omega arith)

Pending-works : (d : Dispatchers) → Pending d → (e : Dispatchers) × Work d e
Pending-works d (inl busy) = let (i, (w, e, h)) = find weight d.workers busy in busy-works i w d e h
Pending-works d (inr (some_left, there)) =
    let (i, (w, e, h)) = find alive d.workers there in take_from d.queue refl i w e h
  where
    take_from :
        (q : List Message)
        → d.queue ≡ q
        → (i : ℕ) (w : Worker) → get_elem? d.workers i ≡ some w
        → 0 < alive w
        → (e : Dispatchers) × Work d e
    take_from [] q i w e h = absurd (ground (arith, q, some_left))
    take_from (m ∷ rest) q i w e h = alive-works i w m rest d e h q

-- Close has made the waiter while a dispatcher is between its select and its test, or while the
-- queue has a message and a dispatcher is there to take it. Then whatever the dispatchers do, with
-- no other step in between, is at most three steps for each message of the queue and what is left
-- of the messages that they hold; and when none of them can do anything more, one has signalled the
-- waiter, so that Close returns.
pub Close-returns :
    (d : Dispatchers)
    → d.waiter ≡ some 0
    → Pending d
    → (k : ℕ) (e : Dispatchers) → Works d k e
    → (k ≤ measure d) × (((n : ℕ) × (e.waiter ≡ some (suc n))) ⊎ ((f : Dispatchers) × Work e f))
Close-returns d w p k e ws =
    (omega (arith, Works-measure ws), signalled (Works-Owed ws (0, w, inr p)))
  where
    signalled : Owed e → ((n : ℕ) × (e.waiter ≡ some (suc n))) ⊎ ((f : Dispatchers) × Work e f)
    signalled (zero, v, inl h) = absurd (omega arith)
    signalled (suc n, v, inl h) = inl (n, v)
    signalled (n, v, inr q) = inr (Pending-works e q)
