-- ===== src/Messaging/Dispatcher.antt =====
-- pkg/messaging/amqp091.go: the dispatchers that producerAMQP091.start makes for a pool of more than
-- one, Send's enqueue, and Close. Each function below is what one goroutine does between two
-- points at which it can wait; Step says at which of them it is, and when its channel is ready. A
-- message is published with the place of its dispatcher in `workers`. Whether the library takes a
-- message that is published is an argument.
use lambda_runtime_api_daemo.Base.{
  ℕ, zero, suc, ◌<◌, ◌≡◌, Bool, true, false, ◌&&◌, Option, none, some, List, [], ◌∷◌, ◌++◌, ltb,
  if◌then◌else◌, nat_eq, length, get_elem?, set, bytes_eq,
}
use lambda_runtime_api_daemo.Messaging.Message.{Message}

-- A dispatcher: in its select, with a message to publish, at the test for a waiter, or gone.
pub data Worker : Type 0 where
  idle : Worker
  holding : Message → Worker
  checking ended : Worker

-- Close: not called, past its test of the queue, on the waiter, or done.
pub data Closing : Type 0 where
  not_called draining waiting returned : Closing

-- `waiter` counts the signals in the waiter channel; `none` is the nil channel.
pub record Dispatchers : Type 0 where
  pub queue : List Message
  pub buf_size : ℕ
  pub pool_size : ℕ
  pub workers : List Worker
  pub waiter : Option ℕ
  pub published : List (ℕ × Message)
  pub dropped : List Message
  pub closing : Closing
  pub closed : Bool
  pub cancelled : Bool
  pub panicked : Bool

abbrev pub idle_workers : ℕ → List Worker
idle_workers zero = []
idle_workers (suc n) = idle ∷ idle_workers n

-- start: a new context, the queue unless there is one, and one dispatcher more for each place of the
-- pool. A negative size of the buffer is a panic in Go, which is not covered.
unfoldable pub start_dispatchers : ℕ → Dispatchers → Dispatchers
start_dispatchers size d = record d {
  pool_size = size;
  workers = d.workers ++ idle_workers size;
  cancelled = false;
}

unfoldable pub enqueue : Message → Dispatchers → Dispatchers
enqueue m d = record d { queue = d.queue ++ m ∷ [] }

unfoldable pub receive : ℕ → Message → List Message → Dispatchers → Dispatchers
receive i m rest d = record d { queue = rest; workers = set d.workers i (holding m) }

-- The call of publish, whose error is not looked at: with one, the message is dropped.
unfoldable pub publish_held : ℕ → Bool → Message → Dispatchers → Dispatchers
publish_held i accepted m d = record d {
  published = if accepted then d.published ++ (i, m) ∷ [] else d.published;
  dropped = if accepted then d.dropped else d.dropped ++ m ∷ [];
  workers = set d.workers i checking;
}

-- The same where a reconnect has left the session fewer channels: an index out of range.
unfoldable pub crash : ℕ → Message → Dispatchers → Dispatchers
crash i m d = record d {
  panicked = true;
  dropped = d.dropped ++ m ∷ [];
  workers = set d.workers i ended;
}

abbrev pub is_drained : List Message → Option ℕ → Bool
is_drained [] (some n) = true
is_drained _ _ = false

abbrev one_more : Option ℕ → Option ℕ
one_more none = none
one_more (some n) = some (suc n)

-- The waiter is signalled once the queue is empty, and the dispatcher ends.
unfoldable pub check : ℕ → Dispatchers → Dispatchers
check i d =
    if is_drained d.queue d.waiter
    then record d { waiter = one_more d.waiter; workers = set d.workers i ended }
    else record d { workers = set d.workers i idle }

-- The channel of a dispatcher closes, or its context is cancelled.
unfoldable pub lose : ℕ → Dispatchers → Dispatchers
lose i d = record d { closed = true; workers = set d.workers i ended }

unfoldable pub stop : ℕ → Dispatchers → Dispatchers
stop i d = record d { workers = set d.workers i ended }

-- Close, up to its test; from there to its wait; and after it.
unfoldable pub begin_close : Dispatchers → Dispatchers
begin_close d =
    if ltb 1 d.pool_size && ltb 0 (length d.queue)
    then record d { closing = draining }
    else record d { closing = returned; cancelled = true }

unfoldable pub make_waiter : Dispatchers → Dispatchers
make_waiter d = record d { waiter = some 0; closing = waiting }

unfoldable pub end_close : ℕ → Dispatchers → Dispatchers
end_close n d = record d { waiter = some n; closing = returned; cancelled = true }

-- What a dispatcher does by itself.
pub data Work : Dispatchers → Dispatchers → Type 0 where
  receives :
      (i : ℕ) (m : Message) (rest : List Message) (d : Dispatchers)
      → get_elem? d.workers i ≡ some idle
      → d.queue ≡ m ∷ rest
      → Work d (receive i m rest d)
  publishes :
      (i : ℕ) (accepted : Bool) (m : Message) (d : Dispatchers)
      → get_elem? d.workers i ≡ some (holding m)
      → Work d (publish_held i accepted m d)
  checks : (i : ℕ) (d : Dispatchers) → get_elem? d.workers i ≡ some checking → Work d (check i d)

-- All that can happen, with the message that a Send hands over.
pub data Step : Dispatchers → List Message → Dispatchers → Type 0 where
  works : {d e : Dispatchers} → Work d e → Step d [] e
  starts : (size : ℕ) (d : Dispatchers) → Step d [] (start_dispatchers size d)
  sends :
      (m : Message) (d : Dispatchers) → length d.queue < d.buf_size → Step d (m ∷ []) (enqueue m d)
  loses : (i : ℕ) (d : Dispatchers) → get_elem? d.workers i ≡ some idle → Step d [] (lose i d)
  panics :
      (i : ℕ) (m : Message) (d : Dispatchers)
      → get_elem? d.workers i ≡ some (holding m)
      → Step d [] (crash i m d)
  stops :
      (i : ℕ) (d : Dispatchers)
      → get_elem? d.workers i ≡ some idle
      → d.cancelled ≡ true
      → Step d [] (stop i d)
  cancels : (d : Dispatchers) → Step d [] (record d { cancelled = true })
  begins : (d : Dispatchers) → d.closing ≡ not_called → Step d [] (begin_close d)
  waits : (d : Dispatchers) → d.closing ≡ draining → Step d [] (make_waiter d)
  ends :
      (n : ℕ) (d : Dispatchers)
      → d.closing ≡ waiting
      → d.waiter ≡ some (suc n)
      → Step d [] (end_close n d)

pub data Run (d : Dispatchers) : List Message → Dispatchers → Type 0 where
  here : Run d [] d
  later : {ms ns : List Message} {e f : Dispatchers} → Run d ms e → Step e ns f → Run d (ms ++ ns) f
