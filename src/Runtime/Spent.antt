-- ===== src/Runtime/Spent.antt =====
-- The initialisers: how many have been called, and what each says when the first n of m have been.
use lambda_runtime_api_daemo.Base.{
  ℕ, zero, suc, ◌≤◌, ◌<◌, ◌≡◌, refl, ap, some, List, [], ◌∷◌, arith, nat_eq, length, get_elem?, set,
  bytes_eq,
}
use lambda_runtime_api_daemo.Runtime.Api.{Once, untouched, underway, over, replicate}

-- The first n of m initialisers have been called.
abbrev pub spent : ℕ → ℕ → List Once
spent n zero = []
spent zero (suc m) = untouched ∷ spent zero m
spent (suc n) (suc m) = over ∷ spent n m

pub length-spent : (n m : ℕ) → length (spent n m) ≡ m
length-spent n zero = refl
length-spent zero (suc m) = omega (arith, length-spent zero m)
length-spent (suc n) (suc m) = omega (arith, length-spent n m)

pub spent-next : (n m : ℕ) → n < m → get_elem? (spent n m) n ≡ some untouched
spent-next n zero h = absurd (omega arith)
spent-next zero (suc m) h = refl
spent-next (suc n) (suc m) h = spent-next n m (omega arith)

pub spent-last : (m : ℕ) → get_elem? (spent (suc m) (suc m)) m ≡ some over
spent-last zero = refl
spent-last (suc m) = spent-last m

pub set-spent-over : (n m : ℕ) → n < m → set (spent n m) n over ≡ spent (suc n) m
set-spent-over n zero h = refl
set-spent-over zero (suc m) h = refl
set-spent-over (suc n) (suc m) h = ap (λ is. over ∷ is) (set-spent-over n m (omega arith))

pub set-spent-untouched : (n m : ℕ) → n < m → set (spent (suc n) m) n untouched ≡ spent n m
set-spent-untouched n zero h = refl
set-spent-untouched zero (suc m) h = refl
set-spent-untouched (suc n) (suc m) h = ap (λ is. over ∷ is) (set-spent-untouched n m (omega arith))

pub replicate-spent : (m : ℕ) → replicate m untouched ≡ spent 0 m
replicate-spent zero = refl
replicate-spent (suc m) = ap (λ is. untouched ∷ is) (replicate-spent m)

-- The initialisers whose Do has called its argument.
abbrev pub fired : List Once → ℕ
fired [] = 0
fired (untouched ∷ is) = fired is
fired (underway ∷ is) = suc (fired is)
fired (over ∷ is) = suc (fired is)

pub fired-set-underway :
    (is : List Once) (i : ℕ)
    → get_elem? is i ≡ some untouched
    → fired (set is i underway) ≡ suc (fired is)
fired-set-underway [] i h = cc
fired-set-underway (o ∷ is) zero h = ground arith
fired-set-underway (untouched ∷ is) (suc i) h = fired-set-underway is i h
fired-set-underway (underway ∷ is) (suc i) h = omega (arith, fired-set-underway is i h)
fired-set-underway (over ∷ is) (suc i) h = omega (arith, fired-set-underway is i h)

pub fired-set-over :
    (is : List Once) (i : ℕ) → get_elem? is i ≡ some underway → fired (set is i over) ≡ fired is
fired-set-over [] i h = cc
fired-set-over (o ∷ is) zero h = ground arith
fired-set-over (untouched ∷ is) (suc i) h = fired-set-over is i h
fired-set-over (underway ∷ is) (suc i) h = omega (arith, fired-set-over is i h)
fired-set-over (over ∷ is) (suc i) h = omega (arith, fired-set-over is i h)

pub fired-set-untouched : (is : List Once) (i : ℕ) → fired is ≤ suc (fired (set is i untouched))
fired-set-untouched [] i = omega arith
fired-set-untouched (untouched ∷ is) zero = omega arith
fired-set-untouched (underway ∷ is) zero = omega arith
fired-set-untouched (over ∷ is) zero = omega arith
fired-set-untouched (untouched ∷ is) (suc i) = fired-set-untouched is i
fired-set-untouched (underway ∷ is) (suc i) = omega (arith, fired-set-untouched is i)
fired-set-untouched (over ∷ is) (suc i) = omega (arith, fired-set-untouched is i)

pub fired-length : (is : List Once) → fired is ≤ length is
fired-length [] = omega arith
fired-length (untouched ∷ is) = omega (arith, fired-length is)
fired-length (underway ∷ is) = omega (arith, fired-length is)
fired-length (over ∷ is) = omega (arith, fired-length is)
