-- ===== src/Messaging/Stranding.antt =====
-- When Close of a pooled producer never returns.
use mathlib.Core.List.{append-eq-nil_iff}
use lambda_runtime_api_daemo.Base.{
  ℕ, zero, suc, ◌≡◌, refl, some, List, [], arith, nat_eq, total, total-set, total-le, total-append,
  bytes_eq,
}
use lambda_runtime_api_daemo.Messaging.Message.{Message}
use lambda_runtime_api_daemo.Messaging.Dispatcher.{
  idle, holding, checking, ended, waiting, Dispatchers, idle_workers, start_dispatchers, lose, stop,
  make_waiter, Work, receives, publishes, checks, Step, works, starts, sends, loses, stops, cancels,
  begins, waits, ends, panics, Run, here, later,
}
use lambda_runtime_api_daemo.Messaging.Draining.{weight}

-- Close waits, unsignalled, for dispatchers that have nothing to do.
abbrev pub Stranded : Dispatchers → Type 0
Stranded d =
    (d.closing ≡ waiting) × (d.waiter ≡ some 0) × (d.queue ≡ []) × (total weight d.workers ≡ 0)

total-idle_workers : (n : ℕ) → total weight (idle_workers n) ≡ 0
total-idle_workers zero = refl
total-idle_workers (suc n) = omega (arith, total-idle_workers n)

Work-Stranded : {d e : Dispatchers} → Work d e → ¬ Stranded d
Work-Stranded (receives i m rest d e q) (c, w, empty, none_busy) = cc
Work-Stranded (publishes i accepted m d e) (c, w, empty, none_busy) =
    omega (arith, total-le weight d.workers i (holding m) e)
Work-Stranded (checks i d e) (c, w, empty, none_busy) =
    omega (arith, total-le weight d.workers i checking e)

Step-Stranded :
    {d e : Dispatchers} {ms : List Message} → Step d ms e → ms ≡ [] → Stranded d → Stranded e
unfolding start_dispatchers lose stop
Step-Stranded (works w) n s = absurd (Work-Stranded w s)
Step-Stranded (starts size d) n (c, w, empty, none_busy) = (
  c,
  w,
  empty,
  omega (arith, total-append weight d.workers (idle_workers size), total-idle_workers size),
)
Step-Stranded (sends m d room) n s = cc
Step-Stranded (panics i m d e) n (c, w, empty, none_busy) =
    absurd (omega (arith, total-le weight d.workers i (holding m) e, none_busy))
Step-Stranded (loses i d e) n (c, w, empty, none_busy) =
    (c, w, empty, omega (arith, total-set weight d.workers i idle ended e))
Step-Stranded (stops i d e x) n (c, w, empty, none_busy) =
    (c, w, empty, omega (arith, total-set weight d.workers i idle ended e))
Step-Stranded (cancels d) n s = s
Step-Stranded (begins d e) n (c, w, empty, none_busy) = cc
Step-Stranded (waits d e) n (c, w, empty, none_busy) = cc
Step-Stranded (ends k d e x) n (c, w, empty, none_busy) = cc

-- If the dispatchers empty the queue and are done with its messages after Close has tested it and
-- before Close has made the waiter, Close does not return: whatever happens then, as long as no
-- message is sent, the waiter is not signalled.
pub Close-Stranded :
    (d : Dispatchers) {e : Dispatchers} {ms : List Message}
    → Run (make_waiter d) ms e
    → ms ≡ []
    → d.queue ≡ []
    → total weight d.workers ≡ 0
    → Stranded e
unfolding make_waiter
Close-Stranded d here n empty none_busy = (refl, refl, empty, none_busy)
Close-Stranded d (later {ms} {ns} r s) n empty none_busy =
    Step-Stranded s (append-eq-nil_iff.0 n).1
      (Close-Stranded d r (append-eq-nil_iff.0 n).0 empty none_busy)
