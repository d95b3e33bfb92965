-- ===== src/Messaging/Conservation.antt =====
-- The messages of a pooled producer are neither lost nor published twice by its dispatchers.
use lambda_runtime_api_daemo.Base.{
  ℕ, zero, suc, ◌+◌, ◌≡◌, refl, ap, inl, inr, Bool, true, false, some, List, [], ◌∷◌, ◌++◌, arith,
  if◌then◌else◌, Bool-cases, nat_eq, get_elem?, total, total-set, total-append, bytes_eq,
}
use lambda_runtime_api_daemo.Messaging.Message.{Message}
use lambda_runtime_api_daemo.Messaging.Dispatcher.{
  Worker, idle, holding, checking, ended, Dispatchers, idle_workers, start_dispatchers, enqueue,
  receive, publish_held, check, lose, stop, begin_close, make_waiter, end_close, is_drained, Work,
  receives, publishes, panics, crash, checks, Step, works, starts, sends, loses, stops, cancels,
  begins, waits, ends, Run, here, later,
}

module _ (test : Message → Bool) where
  abbrev one_if : Message → ℕ
  one_if m = if test m then 1 else 0

  -- How many of the messages pass the test.
  abbrev pub count : List Message → ℕ
  count [] = 0
  count (m ∷ ms) = one_if m + count ms

  abbrev pub held : Worker → ℕ
  held (holding m) = one_if m
  held _ = 0

  abbrev pub count_published : List (ℕ × Message) → ℕ
  count_published [] = 0
  count_published ((i, m) ∷ ps) = one_if m + count_published ps

  -- Published, dropped, held by a dispatcher, or still in the queue.
  abbrev pub count_all : Dispatchers → ℕ
  count_all d = count_published d.published + count d.dropped + total held d.workers + count d.queue

  count-append : (ms ns : List Message) → count (ms ++ ns) ≡ count ms + count ns
  count-append [] ns = omega arith
  count-append (m ∷ ms) ns = omega (arith, count-append ms ns)

  count_published-last :
      (i : ℕ) (m : Message) (ps : List (ℕ × Message))
      → count_published (ps ++ (i, m) ∷ []) ≡ count_published ps + one_if m
  count_published-last i m [] = omega arith
  count_published-last i m ((j, n) ∷ ps) = omega (arith, count_published-last i m ps)

  total-idle_workers : (n : ℕ) → total held (idle_workers n) ≡ 0
  total-idle_workers zero = refl
  total-idle_workers (suc n) = omega (arith, total-idle_workers n)

  check-count :
      (i : ℕ) (d : Dispatchers)
      → get_elem? d.workers i ≡ some checking
      → count_all (check i d) ≡ count_all d
  unfolding check
  check-count i d e = elim (Bool-cases (is_drained d.queue d.waiter)) [
    | inl drained ↦ rw (check, drained) (omega (arith, total-set held d.workers i checking ended e))
    | inr other ↦ rw (check, other) (omega (arith, total-set held d.workers i checking idle e))
  ]

  Work-count : {d e : Dispatchers} → Work d e → count_all e ≡ count_all d
  unfolding receive publish_held
  Work-count (receives i m rest d e q) =
      let whole = ap count q in omega (arith, total-set held d.workers i idle (holding m) e)
  Work-count (publishes i true m d e) = omega (
    arith,
    total-set held d.workers i (holding m) checking e,
    count_published-last i m d.published,
  )
  Work-count (publishes i false m d e) =
      omega
        (arith, total-set held d.workers i (holding m) checking e, count-append d.dropped (m ∷ []))
  Work-count (checks i d e) = check-count i d e

  begin_close-count : (d : Dispatchers) → count_all (begin_close d) ≡ count_all d
  unfolding begin_close
  begin_close-count d = ground arith

  Step-count :
      {d e : Dispatchers} {ms : List Message} → Step d ms e → count_all e ≡ count_all d + count ms
  unfolding start_dispatchers enqueue lose stop crash make_waiter end_close
  Step-count (works w) = omega (arith, Work-count w)
  Step-count (starts size d) =
      omega (arith, total-append held d.workers (idle_workers size), total-idle_workers size)
  Step-count (sends m d room) = omega (arith, count-append d.queue (m ∷ []))
  Step-count (loses i d e) = omega (arith, total-set held d.workers i idle ended e)
  Step-count (panics i m d e) =
      omega (arith, total-set held d.workers i (holding m) ended e, count-append d.dropped (m ∷ []))
  Step-count (stops i d e c) = omega (arith, total-set held d.workers i idle ended e)
  Step-count (cancels d) = omega arith
  Step-count (begins d e) = omega (arith, begin_close-count d)
  Step-count (waits d e) = omega arith
  Step-count (ends n d e w) = omega arith

  -- Over any interleaving of senders, dispatchers that start, work and end, losses of channels,
  -- publishes that the library refuses, a panic and Close, whatever messages are counted: those
  -- handed over by Send are published once, or dropped by a publish that fails or panics, or a
  -- dispatcher holds them, or they are still in the queue.
  pub Run-count :
      {d e : Dispatchers} {ms : List Message} → Run d ms e → count_all e ≡ count_all d + count ms
  Run-count here = omega arith
  Run-count (later {ms} {ns} r s) = omega (arith, Run-count r, Step-count s, count-append ms ns)
