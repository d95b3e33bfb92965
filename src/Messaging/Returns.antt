-- ===== src/Messaging/Returns.antt =====
-- pkg/messaging/amqp091.go: Return and the dispatchers that startReceivers makes, which pass the
-- messages that the broker returns on to the channel of the program, without a wait. A buffer of a
-- negative size is a panic in Go, which is not covered.
use lambda_runtime_api_daemo.Base.{
  ℕ, ◌+◌, ◌-◌, ◌*◌, Option, none, some, List, [], ◌∷◌, ◌++◌, ltb, nat_beq, if◌then◌else◌, nat_eq,
  length, bytes_eq,
}
use lambda_runtime_api_daemo.Messaging.Message.{Message}
use lambda_runtime_api_daemo.Messaging.Wire.{Publishing, from_return, returned}

-- `returns` is what the channel holds; `none` is the nil channel. `started` counts the dispatchers.
pub record Returns : Type 0 where
  pub pool_size : ℕ
  pub buf_size : ℕ
  pub returns : Option (List Message)
  pub started : ℕ

unfoldable pub start_returns : Returns → Returns
start_returns s = elim s.returns [
  | none ↦ s
  | some ms ↦ record s { started = s.started + s.pool_size }
]

-- The size is the option's, or 5000 for each channel of the pool if that is 0.
unfoldable pub return_size : ℕ → ℕ → ℕ
return_size pool asked = if nat_beq asked 0 then pool * 5000 else asked

-- Return, with its option BufferSize.
unfoldable pub make_returns : ℕ → Returns → Returns
unfolding start_returns return_size
make_returns asked s = elim s.returns [
  | none ↦ start_returns (record s { returns = some []; buf_size = return_size s.pool_size asked })
  | some ms ↦ s
]

-- The arm of the select at which a dispatcher has a returned message: it sends it or, if the channel
-- is full, drops it; or its own channel has closed or the context is cancelled, and it ends.
pub data Arm : Type 0 where
  sends ends : Arm

-- The receive does not ask whether the channel of returns is closed.
unfoldable pub forward_return : Arm → Option Publishing → Returns → Returns
forward_return ends msg s = record s { started = s.started - 1 }
forward_return sends msg s = elim s.returns [
  | none ↦ s
  | some ms ↦
      if ltb (length ms) s.buf_size
      then record s { returns = some (ms ++ from_return (returned msg) ∷ []) }
      else s
]

-- What the dispatchers receive, in the order in which they have it, with the arm that each takes.
unfoldable pub forward_returns : List (Arm × Option Publishing) → Returns → Returns
forward_returns [] s = s
forward_returns ((arm, msg) ∷ msgs) s = forward_returns msgs (forward_return arm msg s)
