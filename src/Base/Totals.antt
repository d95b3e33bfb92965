-- ===== src/Base/Totals.antt =====
-- Sums over a list.
use Prim.Native.Nat.{ℕ, zero, suc, ◌+◌, ◌≤◌}
use mathlib.Core.Path.{◌≡◌, ap}
use mathlib.Core.Option.{some, some-injective}
use mathlib.Core.List.{List, [], ◌∷◌, ◌++◌}
use native.Mathlib.Omega.{arith}
use lambda_runtime_api_daemo.Base.Lists.{get_elem?, set}

-- The sum of a weight over a list.
abbrev pub total {ℓ} : {A : Type ℓ} → (A → ℕ) → List A → ℕ
total g [] = 0
total g (w ∷ ws) = g w + total g ws

pub total-set {ℓ} :
    {A : Type ℓ} (g : A → ℕ) (ws : List A) (i : ℕ) (v w : A)
    → get_elem? ws i ≡ some v
    → total g (set ws i w) + g v ≡ total g ws + g w
total-set g [] i v w e = cc
total-set g (x ∷ ws) zero v w e = let same = ap g (some-injective x v e) in omega arith
total-set g (x ∷ ws) (suc i) v w e = omega (arith, total-set g ws i v w e)

pub total-le {ℓ} :
    {A : Type ℓ} (g : A → ℕ) (ws : List A) (i : ℕ) (v : A)
    → get_elem? ws i ≡ some v
    → g v ≤ total g ws
total-le g [] i v e = cc
total-le g (x ∷ ws) zero v e = let same = ap g (some-injective x v e) in omega arith
total-le g (x ∷ ws) (suc i) v e = omega (arith, total-le g ws i v e)

pub total-append {ℓ} :
    {A : Type ℓ} (g : A → ℕ) (vs ws : List A) → total g (vs ++ ws) ≡ total g vs + total g ws
total-append g [] ws = omega arith
total-append g (v ∷ vs) ws = omega (arith, total-append g vs ws)
