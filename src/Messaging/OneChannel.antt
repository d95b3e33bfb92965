-- ===== src/Messaging/OneChannel.antt =====
-- What each step of a consumer of one channel does to the messages and their order.
use mathlib.Core.Path.{subst}
use mathlib.Core.List.{append-nil}
use lambda_runtime_api_daemo.Base.{
  ℕ, ◌+◌, ◌≤◌, ◌≡◌, refl, sym, ap, ◌∙◌, inl, inr, Bool, true, false, Option, some, List, [], ◌∷◌,
  ◌++◌, arith, if◌then◌else◌, Bool-cases, nat_eq, get_elem?, set, total, total-set, total-append,
  bytes_eq,
}
use lambda_runtime_api_daemo.Messaging.Message.{Message}
use lambda_runtime_api_daemo.Messaging.Wire.{Delivery, from_delivery, received}
use lambda_runtime_api_daemo.Messaging.Receiver.{
  Receiver, awaiting, handing, left, reopening, gone, Receivers, new_receivers, start_receivers,
  consume, put, take_delivery, hand_over, lose_channel, cancel_receiver, reopen_receivers,
}
use lambda_runtime_api_daemo.Messaging.Held.{
  Sub, Sub-last, Sub-front, in_hand, held, active, held-set, held-set_idle, held-get, held-append,
}

abbrev pub one_if : Bool → ℕ
one_if b = if b then 1 else 0

-- A consumer of one channel after some deliveries, as messages.
abbrev pub InOrder : Bool → List Message → Receivers → Type 0
InOrder auto ns d =
    (d.pool_size ≡ 1)
    × (d.consuming ≡ true)
    × (d.auto_ack ≡ auto)
    × (total active d.receivers + one_if d.closed ≤ 1)
    × Sub (d.taken ++ held d.receivers) ns

pub start_receivers-InOrder :
    (auto : Bool) (ns : List Message) (d : Receivers)
    → InOrder auto ns d
    → total active d.receivers ≡ 0
    → d.closed ≡ false
    → InOrder auto ns (start_receivers d)
unfolding start_receivers new_receivers
start_receivers-InOrder auto ns d (p, c, a, one, s) none_active clear =
    let rs = d.receivers ++ (0, awaiting) ∷ [] in
    let e : held d.receivers ≡ held rs =
      sym (held-append d.receivers ((0, awaiting) ∷ []) ∙ append-nil (held d.receivers)) in
    let few : total active rs + one_if d.closed ≤ 1 =
      omega (
        arith,
        total-append active d.receivers ((0, awaiting) ∷ []),
        none_active,
        ap one_if clear,
      ) in
    let begun : InOrder auto ns (record d { receivers = rs }) =
      (p, c, a, few, subst (λ x. Sub (d.taken ++ x) ns) e s) in
    subst
      (λ b.
        InOrder auto ns
          (if b then record d { receivers = d.receivers ++ new_receivers d.pool_size } else d))
      (sym c)
      (subst (λ n. InOrder auto ns (record d { receivers = d.receivers ++ new_receivers n }))
        (sym p) begun)

-- A dispatcher at work that ends its loop drops what it holds.
left-Sub :
    (k i : ℕ) (v w : ℕ × Receiver) (ns : List Message) (d : Receivers)
    → total active d.receivers ≤ 1
    → get_elem? d.receivers k ≡ some v
    → active v ≡ 1
    → in_hand w ≡ []
    → Sub (d.taken ++ held d.receivers) ns
    → Sub (d.taken ++ held (set d.receivers k w)) ns
left-Sub k i v w ns d few e h g s =
    let lone = held-set d.receivers k v w few e h ∙ g in
    subst (λ x. Sub (d.taken ++ x) ns) (sym lone)
      (subst (λ x. Sub x ns) (sym (append-nil d.taken))
        (Sub-front d.taken (held d.receivers) s refl))

pub take_delivery-InOrder :
    (auto : Bool) (ns : List Message) (k i : ℕ) (msg : Option Delivery) (d : Receivers)
    → get_elem? d.receivers k ≡ some (i, awaiting)
    → InOrder auto ns d
    → InOrder auto (ns ++ from_delivery auto (received msg) ∷ []) (take_delivery k i msg d)
unfolding take_delivery put
take_delivery-InOrder auto ns k i msg d e (p, c, a, one, s) =
    let m = from_delivery d.auto_ack (received msg) in
    let few : total active d.receivers ≤ 1 = omega (arith, one) in
    let lone = held-set d.receivers k (i, awaiting) (i, handing m) few e refl in
    let more = Sub-last m (Sub-front d.taken (held d.receivers) s refl) in
    (
      p,
      c,
      a,
      omega (arith, one, total-set active d.receivers k (i, awaiting) (i, handing m) e),
      subst
          (λ b.
            Sub (d.taken ++ held (set d.receivers k (i, handing m)))
              (ns ++ from_delivery b (received msg) ∷ []))
          a (subst (λ x. Sub (d.taken ++ x) (ns ++ m ∷ [])) (sym lone) more),
    )

pub hand_over-InOrder :
    (auto : Bool) (ns : List Message) (k i : ℕ) (m : Message) (d : Receivers)
    → get_elem? d.receivers k ≡ some (i, handing m)
    → InOrder auto ns d
    → InOrder auto ns (hand_over k i m d)
unfolding hand_over put
hand_over-InOrder auto ns k i m d e (p, c, a, one, s) =
    let few : total active d.receivers ≤ 1 = omega (arith, one) in
    let lone = held-set d.receivers k (i, handing m) (i, awaiting) few e refl in
    let whole =
      subst (λ x. Sub (d.taken ++ x) ns) (held-get d.receivers k (i, handing m) few e refl) s in
    (
      p,
      c,
      a,
      omega (arith, one, total-set active d.receivers k (i, handing m) (i, awaiting) e),
      subst (λ x. Sub ((d.taken ++ m ∷ []) ++ x) ns) (sym lone)
          (subst (λ x. Sub x ns) (sym (append-nil (d.taken ++ m ∷ []))) whole),
    )

-- The flag is set by a dispatcher at work, when it is clear.
pub lose_channel-InOrder :
    (auto : Bool) (ns : List Message) (k i : ℕ) (v : Receiver) (d : Receivers)
    → get_elem? d.receivers k ≡ some (i, v)
    → active (i, v) ≡ 1
    → InOrder auto ns d
    → InOrder auto ns (lose_channel k i d)
unfolding lose_channel put
lose_channel-InOrder auto ns k i v d e h (p, c, a, one, s) =
    let few : total active d.receivers ≤ 1 = omega (arith, one) in
    (
      p,
      c,
      a,
      omega (arith, one, h, total-set active d.receivers k (i, v) (i, left) e),
      left-Sub k i (i, v) (i, left) ns d few e h refl s,
    )

pub cancel_receiver-InOrder :
    (auto : Bool) (ns : List Message) (k i : ℕ) (d : Receivers)
    → get_elem? d.receivers k ≡ some (i, awaiting)
    → InOrder auto ns d
    → InOrder auto ns (cancel_receiver k i d)
unfolding cancel_receiver put
cancel_receiver-InOrder auto ns k i d e (p, c, a, one, s) =
    let few : total active d.receivers ≤ 1 = omega (arith, one) in
    (
      p,
      c,
      a,
      omega (arith, one, total-set active d.receivers k (i, awaiting) (i, left) e),
      left-Sub k i (i, awaiting) (i, left) ns d few e refl refl s,
    )

-- A dispatcher that is not at work and goes on.
pub put-InOrder :
    (auto : Bool) (ns : List Message) (k i : ℕ) (v w : Receiver) (d : Receivers)
    → get_elem? d.receivers k ≡ some (i, v)
    → active (i, v) ≡ 0
    → active (i, w) ≡ 0
    → InOrder auto ns d
    → InOrder auto ns (put k i w d)
unfolding put
put-InOrder auto ns k i v w d e h g (p, c, a, one, s) = (
  p,
  c,
  a,
  omega (arith, one, h, g, total-set active d.receivers k (i, v) (i, w) e),
  subst (λ x. Sub (d.taken ++ x) ns) (sym (held-set_idle d.receivers k (i, v) (i, w) e h g)) s,
)

pub active-choice : (i : ℕ) (b : Bool) → active (i, (if b then reopening else gone)) ≡ 0
active-choice i true = refl
active-choice i false = refl

pub reopen_receivers-InOrder :
    (auto : Bool) (ns : List Message) (k i : ℕ) (d : Receivers)
    → get_elem? d.receivers k ≡ some (i, reopening)
    → InOrder auto ns d
    → InOrder auto ns (reopen_receivers k i d)
unfolding reopen_receivers
reopen_receivers-InOrder auto ns k i d e (p, c, a, one, s) = elim (Bool-cases d.closed) [
  | inl closed ↦
      let none_active : total active d.receivers ≡ 0 = omega (arith, one, ap one_if closed) in
      let begun =
        start_receivers-InOrder auto ns (record d { closed = false })
          (p, c, a, omega (arith, none_active), s) none_active refl in
      subst turn (sym closed) begun
  | inr clear ↦
      subst turn (sym clear)
        (put-InOrder auto ns k i reopening gone d e refl refl (p, c, a, one, s))
]
  where
    turn : Bool → Type 0
    turn b =
        InOrder auto ns
          (if b then start_receivers (record d { closed = false }) else put k i gone d)

pub consume-InOrder :
    (auto : Bool) (ns : List Message) (d : Receivers)
    → InOrder auto ns d
    → InOrder auto ns (consume d)
unfolding consume
consume-InOrder auto ns d (p, c, a, one, s) =
    subst (λ b. InOrder auto ns (if b then d else start_receivers (record d { consuming = true })))
      (sym c) (p, c, a, one, s)
