-- ===== src/Messaging/Ordering.antt =====
-- A consumer of one channel hands its messages over in their order.
use mathlib.Core.Path.{subst}
use mathlib.Core.List.{append-nil}
use lambda_runtime_api_daemo.Base.{
  ◌+◌, ◌≤◌, ◌≡◌, refl, sym, ap, Bool, true, false, not, ◌&&◌, Option, List, [], ◌∷◌, ◌++◌, map,
  arith, nat_beq, if◌then◌else◌, nat_eq, total, bytes_eq,
}
use lambda_runtime_api_daemo.Messaging.Message.{Message}
use lambda_runtime_api_daemo.Messaging.Wire.{Delivery, from_delivery, received}
use lambda_runtime_api_daemo.Messaging.Receiver.{
  awaiting, handing, left, reopening, gone, Receivers, start_receivers, consume, hand_over,
  lose_channel, cancel_receiver, leave_loop, reopen_receivers, shut, Step, consumes, takes, hands,
  loses, drops, cancels, leaves, reopens, shuts, Run, here, later,
}
use lambda_runtime_api_daemo.Messaging.Held.{Sub, done, Sub-front, held, active}
use lambda_runtime_api_daemo.Messaging.OneChannel.{
  one_if, InOrder, start_receivers-InOrder, take_delivery-InOrder, hand_over-InOrder,
  lose_channel-InOrder, cancel_receiver-InOrder, put-InOrder, active-choice,
  reopen_receivers-InOrder, consume-InOrder,
}

-- The messages of what is read from the deliveries, zero messages for reads of a closed channel.
abbrev pub messages : Bool → List (Option Delivery) → List Message
messages auto ds = map (λ x. from_delivery auto (received x)) ds

quiet :
    (auto : Bool) (ns : List Message) (d : Receivers)
    → InOrder auto ns d
    → InOrder auto (ns ++ []) d
quiet auto ns d o = subst (λ x. InOrder auto x d) (sym (append-nil ns)) o

Step-InOrder :
    (auto : Bool) (ns : List Message) {es : List (Option Delivery)} {d e : Receivers}
    → Step d es e
    → InOrder auto ns d
    → InOrder auto (ns ++ messages auto es) e
unfolding leave_loop shut
Step-InOrder auto ns (takes k i msg d e) o = take_delivery-InOrder auto ns k i msg d e o
Step-InOrder auto ns (consumes d) o = quiet auto ns (consume d) (consume-InOrder auto ns d o)
Step-InOrder auto ns (hands k i m d e) o =
    quiet auto ns (hand_over k i m d) (hand_over-InOrder auto ns k i m d e o)
Step-InOrder auto ns (loses k i d e) o =
    quiet auto ns (lose_channel k i d) (lose_channel-InOrder auto ns k i awaiting d e refl o)
Step-InOrder auto ns (drops k i m d e) o =
    quiet auto ns (lose_channel k i d) (lose_channel-InOrder auto ns k i (handing m) d e refl o)
Step-InOrder auto ns (cancels k i d e) o =
    quiet auto ns (cancel_receiver k i d) (cancel_receiver-InOrder auto ns k i d e o)
Step-InOrder auto ns (leaves k i d e) o =
    let stays = nat_beq i 0 && not d.session_closed in
    quiet auto ns (leave_loop k i d) (
      put-InOrder auto ns k i left (if stays then reopening else gone) d e refl
        (active-choice i stays) o)
Step-InOrder auto ns (reopens k i d e x) o =
    quiet auto ns (reopen_receivers k i d) (reopen_receivers-InOrder auto ns k i d e o)
Step-InOrder auto ns (shuts d) o = quiet auto ns (shut d) o

messages-append :
    (auto : Bool) (ds es : List (Option Delivery))
    → messages auto (ds ++ es) ≡ messages auto ds ++ messages auto es
messages-append auto [] es = refl
messages-append auto (x ∷ ds) es =
    ap (λ ms. from_delivery auto (received x) ∷ ms) (messages-append auto ds es)

Run-InOrder :
    (auto : Bool) {d : Receivers} {ds : List (Option Delivery)} {e : Receivers}
    → Run d ds e
    → InOrder auto [] d
    → InOrder auto (messages auto ds) e
Run-InOrder auto here o = o
Run-InOrder auto (later {ds} {es} {e} {f} r s) o =
    subst (λ ms. InOrder auto ms f) (sym (messages-append auto ds es))
      (Step-InOrder auto (messages auto ds) s (Run-InOrder auto r o))

-- A new consumer of one channel, on which Consume is called. Whatever happens then, but for a
-- session that is closed while a dispatcher reopens, also when its channel is lost and opened again
-- any number of times: the program has received some of the messages that the dispatchers have read,
-- in their order, and none of them twice. They are the messages that were delivered and, for each
-- read from a channel of deliveries that the library has closed, a zero message.
pub Run-in_order :
    (d : Receivers) {ds : List (Option Delivery)} {e : Receivers}
    → d.pool_size ≡ 1
    → d.consuming ≡ false
    → d.closed ≡ false
    → d.receivers ≡ []
    → d.taken ≡ []
    → Run (consume d) ds e
    → Sub e.taken (messages d.auto_ack ds)
unfolding consume
Run-in_order d p idle clear none_yet nothing r =
    let none_active : total active d.receivers ≡ 0 = ap (total active) none_yet in
    let few : total active d.receivers + one_if d.closed ≤ 1 =
      omega (arith, none_active, ap one_if clear) in
    let empty =
      subst (λ ts. Sub (ts ++ held d.receivers) []) (sym nothing)
        (subst (λ rs. Sub (held rs) []) (sym none_yet) done) in
    let begun =
      start_receivers-InOrder d.auto_ack [] (record d { consuming = true })
        (p, refl, refl, few, empty) none_active clear in
    let first =
      subst
        (λ b.
          InOrder d.auto_ack [] (if b then d else start_receivers (record d { consuming = true })))
        (sym idle) begun in
    Sub-front _ _ (Run-InOrder d.auto_ack r first).4 refl
