-- ===== src/Messaging/Receiver.antt =====
-- pkg/messaging/amqp091.go: Consume and the dispatchers that consumerAMQP091.start makes, one for
-- each channel of the pool. Each function below is what one goroutine does between two points at
-- which it can wait, and Step says at which of them it is. The queue is a Go channel without a
-- buffer, so a dispatcher hands a message to the program itself. Where the library refuses to
-- consume, the dispatcher has no deliveries, but still waits for its channel to close.
use lambda_runtime_api_daemo.Base.{
  ℕ, zero, suc, ◌≡◌, Bool, true, false, not, ◌&&◌, Option, some, List, [], ◌∷◌, ◌++◌, nat_beq,
  if◌then◌else◌, nat_eq, get_elem?, set, bytes_eq,
}
use lambda_runtime_api_daemo.Messaging.Message.{Message}
use lambda_runtime_api_daemo.Messaging.Wire.{Delivery, from_delivery, received}

-- A dispatcher: in its select, with a message for the program, out of its loop, at the loop that
-- reopens, or gone.
pub data Receiver : Type 0 where
  awaiting : Receiver
  handing : Message → Receiver
  left reopening gone : Receiver

-- A dispatcher stands with the number of its channel. `taken` is what the program has received.
pub record Receivers : Type 0 where
  pub pool_size : ℕ
  pub auto_ack : Bool
  pub consuming : Bool
  pub receivers : List (ℕ × Receiver)
  pub taken : List Message
  pub closed : Bool
  pub session_closed : Bool

-- One for each number below n.
unfoldable pub new_receivers : ℕ → List (ℕ × Receiver)
new_receivers zero = []
new_receivers (suc n) = new_receivers n ++ (n, awaiting) ∷ []

-- Without a queue there is nothing to start.
unfoldable pub start_receivers : Receivers → Receivers
unfolding new_receivers
start_receivers d =
    if d.consuming then record d { receivers = d.receivers ++ new_receivers d.pool_size } else d

unfoldable pub consume : Receivers → Receivers
unfolding start_receivers
consume d = if d.consuming then d else start_receivers (record d { consuming = true })

unfoldable pub put : ℕ → ℕ → Receiver → Receivers → Receivers
put k i w d = record d { receivers = set d.receivers k (i, w) }

-- The receive does not ask whether the channel of deliveries is closed.
unfoldable pub take_delivery : ℕ → ℕ → Option Delivery → Receivers → Receivers
unfolding put
take_delivery k i msg d = put k i (handing (from_delivery d.auto_ack (received msg))) d

unfoldable pub hand_over : ℕ → ℕ → Message → Receivers → Receivers
unfolding put
hand_over k i m d = put k i awaiting (record d { taken = d.taken ++ m ∷ [] })

-- The channel closes, in either select; a message that is at hand is dropped.
unfoldable pub lose_channel : ℕ → ℕ → Receivers → Receivers
unfolding put
lose_channel k i d = put k i left (record d { closed = true })

-- The context of the connection is cancelled.
unfoldable pub cancel_receiver : ℕ → ℕ → Receivers → Receivers
unfolding put
cancel_receiver k i d = put k i left (record d { session_closed = true })

-- After its loop, only the first dispatcher reopens.
unfoldable pub leave_loop : ℕ → ℕ → Receivers → Receivers
unfolding put
leave_loop k i d = put k i (if nat_beq i 0 && not d.session_closed then reopening else gone) d

-- One turn of the loop that reopens, with the lock; reconnect leaves `closed` false, open is
-- Consumer.open_in, and its error is not looked at.
unfoldable pub reopen_receivers : ℕ → ℕ → Receivers → Receivers
unfolding put start_receivers
reopen_receivers k i d =
    if d.closed then start_receivers (record d { closed = false }) else put k i gone d

-- Session.Close by the program.
unfoldable pub shut : Receivers → Receivers
shut d = record d { session_closed = true }

-- All that can happen once Consume has been called, with the delivery that it takes, which is
-- `none` for a receive from a channel of deliveries that the library has closed: it may close one at
-- any time, so that such a receive is always possible. A session that is closed by the program while
-- a dispatcher reopens is not covered.
pub data Step : Receivers → List (Option Delivery) → Receivers → Type 0 where
  consumes : (d : Receivers) → Step d [] (consume d)
  takes :
      (k i : ℕ) (msg : Option Delivery) (d : Receivers)
      → get_elem? d.receivers k ≡ some (i, awaiting)
      → Step d (msg ∷ []) (take_delivery k i msg d)
  hands :
      (k i : ℕ) (m : Message) (d : Receivers)
      → get_elem? d.receivers k ≡ some (i, handing m)
      → Step d [] (hand_over k i m d)
  loses :
      (k i : ℕ) (d : Receivers)
      → get_elem? d.receivers k ≡ some (i, awaiting)
      → Step d [] (lose_channel k i d)
  drops :
      (k i : ℕ) (m : Message) (d : Receivers)
      → get_elem? d.receivers k ≡ some (i, handing m)
      → Step d [] (lose_channel k i d)
  cancels :
      (k i : ℕ) (d : Receivers)
      → get_elem? d.receivers k ≡ some (i, awaiting)
      → Step d [] (cancel_receiver k i d)
  leaves :
      (k i : ℕ) (d : Receivers)
      → get_elem? d.receivers k ≡ some (i, left)
      → Step d [] (leave_loop k i d)
  reopens :
      (k i : ℕ) (d : Receivers)
      → get_elem? d.receivers k ≡ some (i, reopening)
      → d.session_closed ≡ false
      → Step d [] (reopen_receivers k i d)
  shuts : (d : Receivers) → Step d [] (shut d)

pub data Run (d : Receivers) : List (Option Delivery) → Receivers → Type 0 where
  here : Run d [] d
  later :
      {ds es : List (Option Delivery)} {e f : Receivers}
      → Run d ds e
      → Step e es f
      → Run d (ds ++ es) f
