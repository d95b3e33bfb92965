-- ===== src/Messaging/Tending.antt =====
-- A consumer keeps a dispatcher that reads its first channel, or that opens it again.
use mathlib.Core.Path.{subst}
use lambda_runtime_api_daemo.Base.{
  ℕ, zero, suc, ◌<◌, ◌≡◌, refl, sym, ◌∙◌, ◌⊎◌, inl, inr, Bool, true, false, not, ◌&&◌, Option, some,
  List, [], ◌∷◌, ◌++◌, arith, nat_beq, if◌then◌else◌, Bool-cases, nat_eq, get_elem?, total,
  total-set, total-append, bytes_eq,
}
use lambda_runtime_api_daemo.Messaging.Message.{Message, zero_message}
use lambda_runtime_api_daemo.Messaging.Wire.{Delivery, from_delivery, received}
use lambda_runtime_api_daemo.Messaging.Receiver.{
  Receiver, awaiting, handing, left, reopening, gone, Receivers, new_receivers, start_receivers,
  consume, put, take_delivery, hand_over, lose_channel, cancel_receiver, leave_loop,
  reopen_receivers, shut, Step, consumes, takes, hands, loses, drops, cancels, leaves, reopens,
  shuts, Run, here, later,
}

-- A dispatcher of the first channel in its loop, and one that is about to open it again.
abbrev pub serving : ℕ × Receiver → ℕ
serving (zero, awaiting) = 1
serving (zero, handing m) = 1
serving _ = 0

abbrev pub mending : ℕ × Receiver → ℕ
mending (zero, left) = 1
mending (zero, reopening) = 1
mending _ = 0

-- The session is closed for good, or the first channel has its dispatcher, or the consumer's flag
-- says that it is closed and a dispatcher is about to open it again.
abbrev pub Tended : Receivers → Type 0
Tended d =
    (d.session_closed ≡ true)
    ⊎ (0 < total serving d.receivers)
    ⊎ ((d.closed ≡ true) × (0 < total mending d.receivers))

abbrev Kept : Receivers → Type 0
Kept d = (0 < d.pool_size) × (d.consuming ≡ true) × Tended d

total-new_receivers : (n : ℕ) → 0 < n → total serving (new_receivers n) ≡ 1
unfolding new_receivers
total-new_receivers zero h = absurd (omega arith)
total-new_receivers (suc zero) h = refl
total-new_receivers (suc (suc n)) h = omega (
  arith,
  total-append serving (new_receivers (suc n)) ((suc n, awaiting) ∷ []),
  total-new_receivers (suc n) (omega arith),
)

-- A dispatcher that goes on without a change of these two numbers.
put-Tended :
    (k i : ℕ) (v w : Receiver) (d : Receivers)
    → get_elem? d.receivers k ≡ some (i, v)
    → serving (i, v) ≡ serving (i, w)
    → mending (i, v) ≡ mending (i, w)
    → Tended d
    → Tended (put k i w d)
unfolding put
put-Tended k i v w d e same alike (inl s) = inl s
put-Tended k i v w d e same alike (inr (inl served)) =
    inr (inl (omega (arith, total-set serving d.receivers k (i, v) (i, w) e)))
put-Tended k i v w d e same alike (inr (inr (c, mended))) =
    inr (inr (c, omega (arith, total-set mending d.receivers k (i, v) (i, w) e)))

closed-Tended : (d : Receivers) → Tended d → Tended (record d { closed = true })
closed-Tended d (inl s) = inl s
closed-Tended d (inr (inl served)) = inr (inl served)
closed-Tended d (inr (inr (c, mended))) = inr (inr (refl, mended))

lose_channel-Tended :
    (k i : ℕ) (v : Receiver) (d : Receivers)
    → get_elem? d.receivers k ≡ some (i, v)
    → mending (i, v) ≡ 0
    → Tended d
    → Tended (lose_channel k i d)
unfolding lose_channel put
lose_channel-Tended k zero v d e idle t =
    inr (inr (refl, omega (arith, total-set mending d.receivers k (zero, v) (zero, left) e)))
lose_channel-Tended k (suc i) v d e idle t =
    put-Tended k (suc i) v left (record d { closed = true }) e refl refl (closed-Tended d t)

not_first : (i : ℕ) → false ≡ nat_beq (suc i) 0
not_first i = ground arith

leave_loop-Tended :
    (k i : ℕ) (d : Receivers)
    → get_elem? d.receivers k ≡ some (i, left)
    → Tended d
    → Tended (leave_loop k i d)
unfolding leave_loop put
leave_loop-Tended k (suc i) d e t =
    subst (λ b. Tended (put k (suc i) (if b && not d.session_closed then reopening else gone) d))
      (not_first i) (put-Tended k (suc i) left gone d e refl refl t)
leave_loop-Tended k zero d e t = elim (Bool-cases d.session_closed) [
  | inl s ↦ inl s
  | inr clear ↦
      subst (λ b. Tended (put k zero (if nat_beq 0 0 && not b then reopening else gone) d))
        (sym clear) (put-Tended k zero left reopening d e refl refl t)
]

start_receivers-Kept :
    (d : Receivers) → 0 < d.pool_size → d.consuming ≡ true → Kept (start_receivers d)
unfolding start_receivers
start_receivers-Kept d p c =
    let served : 0 < total serving (d.receivers ++ new_receivers d.pool_size) = omega (
      arith,
      total-append serving d.receivers (new_receivers d.pool_size),
      total-new_receivers d.pool_size p,
    ) in
    subst
      (λ b.
        Kept (if b then record d { receivers = d.receivers ++ new_receivers d.pool_size } else d))
      (sym c) (p, c, inr (inl served))

-- If the flag says open, the first channel has its dispatcher, and one that reopens ends.
gone-Tended :
    (k i : ℕ) (d : Receivers)
    → get_elem? d.receivers k ≡ some (i, reopening)
    → d.closed ≡ false
    → Tended d
    → Tended (put k i gone d)
unfolding put
gone-Tended k i d e clear (inl s) = inl s
gone-Tended k zero d e clear (inr (inl served)) =
    inr (inl (omega (arith, total-set serving d.receivers k (zero, reopening) (zero, gone) e)))
gone-Tended k (suc i) d e clear (inr (inl served)) =
    inr (inl (omega (arith, total-set serving d.receivers k (suc i, reopening) (suc i, gone) e)))
gone-Tended k i d e clear (inr (inr (c, mended))) = absurd (ground (arith, c, clear))

reopen_receivers-Kept :
    (k i : ℕ) (d : Receivers)
    → get_elem? d.receivers k ≡ some (i, reopening)
    → Kept d
    → Kept (reopen_receivers k i d)
unfolding reopen_receivers put
reopen_receivers-Kept k i d e (p, c, t) = elim (Bool-cases d.closed) [
  | inl closed ↦ subst turn (sym closed) (start_receivers-Kept (record d { closed = false }) p c)
  | inr clear ↦ subst turn (sym clear) (p, c, gone-Tended k i d e clear t)
]
  where
    turn : Bool → Type 0
    turn b = Kept (if b then start_receivers (record d { closed = false }) else put k i gone d)

serving-same : (i : ℕ) (m : Message) → serving (i, awaiting) ≡ serving (i, handing m)
serving-same zero m = refl
serving-same (suc i) m = refl

mending-none : (i : ℕ) (m : Message) → (mending (i, awaiting) ≡ 0) × (mending (i, handing m) ≡ 0)
mending-none zero m = (refl, refl)
mending-none (suc i) m = (refl, refl)

Step-Kept : {d e : Receivers} {ms : List (Option Delivery)} → Step d ms e → Kept d → Kept e
unfolding consume start_receivers put take_delivery hand_over lose_channel cancel_receiver
    leave_loop reopen_receivers shut
Step-Kept (consumes d) (p, c, t) =
    subst (λ b. Kept (if b then d else start_receivers (record d { consuming = true }))) (sym c)
      (p, c, t)
Step-Kept (takes k i msg d e) (p, c, t) = (
  p,
  c,
  put-Tended k i awaiting (handing (from_delivery d.auto_ack (received msg))) d e (serving-same i _)
      ((mending-none i (from_delivery d.auto_ack (received msg))).0
        ∙ sym (mending-none i (from_delivery d.auto_ack (received msg))).1)
      t,
)
Step-Kept (hands k i m d e) (p, c, t) = (
  p,
  c,
  put-Tended k i (handing m) awaiting d e (sym (serving-same i m))
      ((mending-none i m).1 ∙ sym (mending-none i m).0) t,
)
Step-Kept (loses k i d e) (p, c, t) =
    (p, c, lose_channel-Tended k i awaiting d e (mending-none i zero_message).0 t)
Step-Kept (drops k i m d e) (p, c, t) =
    (p, c, lose_channel-Tended k i (handing m) d e (mending-none i m).1 t)
Step-Kept (cancels k i d e) (p, c, t) = (p, c, inl refl)
Step-Kept (leaves k i d e) (p, c, t) = (p, c, leave_loop-Tended k i d e t)
Step-Kept (reopens k i d e x) kept = reopen_receivers-Kept k i d e kept
Step-Kept (shuts d) (p, c, t) = (p, c, inl refl)

Run-Kept : {d e : Receivers} {ms : List (Option Delivery)} → Run d ms e → Kept d → Kept e
Run-Kept here k = k
Run-Kept (later r s) k = Step-Kept s (Run-Kept r k)

-- A consumer with a pool of at least one on which Consume is called for the first time. Whatever
-- deliveries, handed-over messages, closing channels, cancelled contexts and closed sessions follow:
-- the session is closed for good, or a dispatcher reads the first channel, or the consumer is
-- marked as closed and a dispatcher is about to open it again.
pub Run-Tended :
    (d : Receivers) {e : Receivers} {ms : List (Option Delivery)}
    → 0 < d.pool_size
    → d.consuming ≡ false
    → Run (consume d) ms e
    → Tended e
unfolding consume
Run-Tended d p idle r =
    let begun = start_receivers-Kept (record d { consuming = true }) p refl in
    let kept =
      subst (λ b. Kept (if b then d else start_receivers (record d { consuming = true })))
        (sym idle) begun in
    (Run-Kept r kept).2
