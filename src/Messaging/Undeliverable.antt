-- ===== src/Messaging/Undeliverable.antt =====
-- What a program finds in the channel that Return gives it.
use mathlib.Core.List.{append-nil, append_assoc}
use lambda_runtime_api_daemo.Base.{
  ℕ, ◌+◌, ◌-◌, ◌*◌, ◌≤◌, ◌≡◌, refl, sym, ap, ◌∙◌, inl, inr, true, false, Option, none, some, List,
  [], ◌∷◌, ◌++◌, arith, ltb, nat_beq, if◌then◌else◌, ltb→lt, Bool-cases, nat_eq, length, take,
  take-all, take-append, length-append, bytes_eq,
}
use lambda_runtime_api_daemo.Messaging.Message.{Message}
use lambda_runtime_api_daemo.Messaging.Wire.{Publishing, from_return, returned}
use lambda_runtime_api_daemo.Messaging.Returns.{
  Arm, sends, ends, Returns, start_returns, return_size, make_returns, forward_return,
  forward_returns,
}

-- The messages at which no dispatcher ends, as the program gets them.
abbrev pub passing : List (Arm × Option Publishing) → List Message
passing [] = []
passing ((sends, msg) ∷ msgs) = from_return (returned msg) ∷ passing msgs
passing ((ends, msg) ∷ msgs) = passing msgs

-- The state whose channel holds these messages.
abbrev with_returns : Returns → List Message → Returns
with_returns s ms = record s { returns = some ms }

forward_return-room :
    (msg : Option Publishing) (s : Returns) (ms : List Message)
    → ltb (length ms) s.buf_size ≡ true
    → forward_return sends msg (with_returns s ms)
      ≡ with_returns s (ms ++ from_return (returned msg) ∷ [])
unfolding forward_return
forward_return-room msg s ms t = rw t

forward_return-full :
    (msg : Option Publishing) (s : Returns) (ms : List Message)
    → ltb (length ms) s.buf_size ≡ false
    → forward_return sends msg (with_returns s ms) ≡ with_returns s ms
unfolding forward_return
forward_return-full msg s ms f = rw f

forward_return-ends :
    (msg : Option Publishing) (s : Returns) (ms : List Message)
    → forward_return ends msg (with_returns s ms)
      ≡ with_returns (record s { started = s.started - 1 }) ms
unfolding forward_return
forward_return-ends msg s ms = refl

forward_returns-take :
    (msgs : List (Arm × Option Publishing)) (s : Returns) (ms : List Message)
    → length ms ≤ s.buf_size
    → (forward_returns msgs (with_returns s ms)).returns
      ≡ some (take s.buf_size (ms ++ passing msgs))
unfolding forward_returns
forward_returns-take [] s ms h =
    ap some (sym (ap (take s.buf_size) (append-nil ms) ∙ take-all s.buf_size ms h))
forward_returns-take ((ends, msg) ∷ msgs) s ms h =
    ap (λ x. (forward_returns msgs x).returns) (forward_return-ends msg s ms)
    ∙ forward_returns-take msgs (record s { started = s.started - 1 }) ms h
forward_returns-take ((sends, msg) ∷ msgs) s ms h = elim (Bool-cases (ltb (length ms) s.buf_size)) [
  | inl t ↦
      let m = from_return (returned msg) in
      let room : length (ms ++ m ∷ []) ≤ s.buf_size =
        omega (arith, ltb→lt (length ms) s.buf_size t, length-append ms (m ∷ [])) in
      ap (λ x. (forward_returns msgs x).returns) (forward_return-room msg s ms t)
      ∙ forward_returns-take msgs s (ms ++ m ∷ []) room
      ∙ ap (λ x. some (take s.buf_size x)) (append_assoc ms (m ∷ []) (passing msgs))
  | inr f ↦
      let full : length ms ≡ s.buf_size = ground (arith, f, h) in
      ap (λ x. (forward_returns msgs x).returns) (forward_return-full msg s ms f)
      ∙ forward_returns-take msgs s ms h
      ∙ ap some (
          take-append s.buf_size ms (passing msgs) full
          ∙ sym (take-append s.buf_size ms (passing ((sends, msg) ∷ msgs)) full))
]

-- The size that the program asks for, or 5000 for each channel of the pool if that is 0.
abbrev pub channel_size : ℕ → ℕ → ℕ
channel_size pool asked = if nat_beq asked 0 then pool * 5000 else asked

make_returns-new :
    (asked : ℕ) (s : Returns)
    → s.returns ≡ none
    → (n : ℕ) × (make_returns asked s
        ≡ record s { returns = some []; buf_size = channel_size s.pool_size asked; started = n })
unfolding make_returns start_returns return_size
make_returns-new asked s e = (s.started + s.pool_size, rw e)

-- The first call of Return makes a channel of the size that is asked for, or of 5000 for each
-- channel of the pool if that is 0. If the program receives nothing from it, then after any number
-- of returned messages, and of zero messages of channels of returns that are closed, the channel
-- holds the first of those at which no dispatcher ends, as many as its size, in order. The others
-- are dropped: those for which there is no room, and those that a dispatcher has when it ends, since
-- its channel has closed or the context is cancelled.
pub make_returns-take :
    (asked : ℕ) (s : Returns) (msgs : List (Arm × Option Publishing))
    → s.returns ≡ none
    → (forward_returns msgs (make_returns asked s)).returns
      ≡ some (take (if nat_beq asked 0 then s.pool_size * 5000 else asked) (passing msgs))
make_returns-take asked s msgs e =
    let (n, made) = make_returns-new asked s e in
    let size = channel_size s.pool_size asked in
    ap (λ x. (forward_returns msgs x).returns) made
    ∙ forward_returns-take msgs (record s { buf_size = size; started = n }) [] (omega arith)
