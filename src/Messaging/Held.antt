-- ===== src/Messaging/Held.antt =====
-- What a consumer's dispatchers hold, and lists of some of the messages of another.
use mathlib.Core.Path.{subst}
use mathlib.Core.Option.{some-injective}
use mathlib.Core.List.{append-nil, append_assoc}
use lambda_runtime_api_daemo.Base.{
  ℕ, zero, suc, ◌≤◌, ◌≡◌, refl, sym, ap, ◌∙◌, some, List, [], ◌∷◌, ◌++◌, arith, nat_eq, get_elem?,
  set, total, total-le, bytes_eq,
}
use lambda_runtime_api_daemo.Messaging.Message.{Message}
use lambda_runtime_api_daemo.Messaging.Receiver.{Receiver, awaiting, handing, left, reopening, gone}

-- Some of the messages of a list, in their order.
pub data Sub : List Message → List Message → Type 0 where
  done : Sub [] []
  keep : (m : Message) {ms ns : List Message} → Sub ms ns → Sub (m ∷ ms) (m ∷ ns)
  skip : (n : Message) {ms ns : List Message} → Sub ms ns → Sub ms (n ∷ ns)

pub Sub-last : (m : Message) {ms ns : List Message} → Sub ms ns → Sub (ms ++ m ∷ []) (ns ++ m ∷ [])
Sub-last m done = keep m done
Sub-last m (keep n s) = keep n (Sub-last m s)
Sub-last m (skip n s) = skip n (Sub-last m s)

Sub-nil : (ns : List Message) → Sub [] ns
Sub-nil [] = done
Sub-nil (n ∷ ns) = skip n (Sub-nil ns)

pub Sub-front :
    (ms hs : List Message) {xs ns : List Message} → Sub xs ns → xs ≡ ms ++ hs → Sub ms ns
Sub-front [] hs {ns} s e = Sub-nil _
Sub-front (m ∷ ms) hs done e = absurd cc
Sub-front (m ∷ ms) hs (keep n {ns} s) e =
    let same : n ≡ m = cc in subst (λ x. Sub (x ∷ ms) (n ∷ ns)) same (keep n (Sub-front ms hs s cc))
Sub-front (m ∷ ms) hs (skip n s) e = skip n (Sub-front (m ∷ ms) hs s e)

abbrev pub in_hand : ℕ × Receiver → List Message
in_hand (i, handing m) = m ∷ []
in_hand _ = []

abbrev pub held : List (ℕ × Receiver) → List Message
held [] = []
held (w ∷ ws) = in_hand w ++ held ws

abbrev pub active : ℕ × Receiver → ℕ
active (i, awaiting) = 1
active (i, handing m) = 1
active _ = 0

in_hand-none : (w : ℕ × Receiver) → active w ≡ 0 → in_hand w ≡ []
in_hand-none (i, awaiting) h = refl
in_hand-none (i, handing m) h = absurd (omega (arith, h))
in_hand-none (i, left) h = refl
in_hand-none (i, reopening) h = refl
in_hand-none (i, gone) h = refl

held-none : (ws : List (ℕ × Receiver)) → total active ws ≡ 0 → held ws ≡ []
held-none [] h = refl
held-none (w ∷ ws) h = rw (in_hand-none w (omega arith), held-none ws (omega arith))

-- The place of the one dispatcher at work holds all that is held.
pub held-set :
    (ws : List (ℕ × Receiver)) (k : ℕ) (v w : ℕ × Receiver)
    → total active ws ≤ 1
    → get_elem? ws k ≡ some v
    → active v ≡ 1
    → held (set ws k w) ≡ in_hand w
held-set [] k v w few e h = cc
held-set (x ∷ ws) zero v w few e h =
    let same = ap active (some-injective x v e) in
    rw (held-none ws (omega arith)) (append-nil (in_hand w))
held-set (x ∷ ws) (suc k) v w few e h =
    rw (
      in_hand-none x (omega (arith, total-le active ws k v e)),
      held-set ws k v w (omega arith) e h,
    )

-- A dispatcher that is not at work holds nothing.
pub held-set_idle :
    (ws : List (ℕ × Receiver)) (k : ℕ) (v w : ℕ × Receiver)
    → get_elem? ws k ≡ some v
    → active v ≡ 0
    → active w ≡ 0
    → held (set ws k w) ≡ held ws
held-set_idle [] k v w e h g = refl
held-set_idle (x ∷ ws) zero v w e h g =
    let same = some-injective x v e in rw (in_hand-none w g, in_hand-none x (ap active same ∙ h))
held-set_idle (x ∷ ws) (suc k) v w e h g = rw (held-set_idle ws k v w e h g)

set-same :
    (ws : List (ℕ × Receiver)) (k : ℕ) (v : ℕ × Receiver)
    → get_elem? ws k ≡ some v
    → set ws k v ≡ ws
set-same [] k v e = refl
set-same (x ∷ ws) zero v e = rw (some-injective x v e)
set-same (x ∷ ws) (suc k) v e = rw (set-same ws k v e)

pub held-append : (ws vs : List (ℕ × Receiver)) → held (ws ++ vs) ≡ held ws ++ held vs
held-append [] vs = refl
held-append (w ∷ ws) vs =
    ap (λ x. in_hand w ++ x) (held-append ws vs)
    ∙ sym (append_assoc (in_hand w) (held ws) (held vs))

-- What is held at the place of a dispatcher that is at work.
pub held-get :
    (ws : List (ℕ × Receiver)) (k : ℕ) (v : ℕ × Receiver)
    → total active ws ≤ 1
    → get_elem? ws k ≡ some v
    → active v ≡ 1
    → held ws ≡ in_hand v
held-get ws k v few e h = sym (ap held (set-same ws k v e)) ∙ held-set ws k v v few e h
