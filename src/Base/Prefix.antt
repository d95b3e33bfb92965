-- ===== src/Base/Prefix.antt =====
-- The first elements of a list.
use Prim.Native.Nat.{ℕ, zero, suc, ◌≤◌, ◌<◌}
use mathlib.Core.Path.{◌≡◌, refl, ap}
use mathlib.Core.Option.{some}
use mathlib.Core.List.{List, [], ◌∷◌, ◌++◌}
use native.Mathlib.Omega.{arith}
use lambda_runtime_api_daemo.Base.Lists.{get_elem?, length, set}

abbrev pub take {ℓ} : {A : Type ℓ} → ℕ → List A → List A
take n [] = []
take zero (m ∷ ms) = []
take (suc n) (m ∷ ms) = m ∷ take n ms

pub take-all {ℓ} : {A : Type ℓ} (n : ℕ) (ms : List A) → length ms ≤ n → take n ms ≡ ms
take-all n [] h = refl
take-all zero (m ∷ ms) h = absurd (omega arith)
take-all (suc n) (m ∷ ms) h = rw (take-all n ms (omega arith))

pub take-append {ℓ} : {A : Type ℓ} (n : ℕ) (ms ns : List A) → length ms ≡ n → take n (ms ++ ns) ≡ ms
take-append zero [] [] h = refl
take-append zero [] (m ∷ ns) h = refl
take-append (suc n) [] ns h = absurd (omega arith)
take-append zero (m ∷ ms) ns h = absurd (omega arith)
take-append (suc n) (m ∷ ms) ns h = rw (take-append n ms ns (omega arith))

take-zero {ℓ} : {A : Type ℓ} (xs : List A) (x : A) → take (suc zero) (x ∷ xs) ≡ x ∷ []
take-zero [] x = refl
take-zero (y ∷ xs) x = refl

-- The element behind the first n is written.
pub take-set {ℓ} :
    {A : Type ℓ} (n : ℕ) (xs : List A) (x : A)
    → n < length xs
    → take (suc n) (set xs n x) ≡ take n xs ++ x ∷ []
take-set n [] x h = absurd (omega arith)
take-set zero (y ∷ xs) x h = take-zero xs x
take-set (suc n) (y ∷ xs) x h = ap (λ zs. y ∷ zs) (take-set n xs x (omega arith))

-- What is written behind the first n is not among them.
pub take-set_behind {ℓ} :
    {A : Type ℓ} (n : ℕ) (xs : List A) (x : A) → take n (set xs n x) ≡ take n xs
take-set_behind n [] x = refl
take-set_behind zero (y ∷ xs) x = refl
take-set_behind (suc n) (y ∷ xs) x = ap (λ zs. y ∷ zs) (take-set_behind n xs x)

pub set-set {ℓ} : {A : Type ℓ} (n : ℕ) (xs : List A) (x y : A) → set (set xs n x) n y ≡ set xs n y
set-set n [] x y = refl
set-set zero (z ∷ xs) x y = refl
set-set (suc n) (z ∷ xs) x y = ap (λ zs. z ∷ zs) (set-set n xs x y)

pub take-append_one {ℓ} :
    {A : Type ℓ} (n : ℕ) (xs ys : List A) (x : A)
    → length xs ≡ n
    → take (suc n) (xs ++ x ∷ ys) ≡ xs ++ x ∷ []
take-append_one zero [] ys x h = take-zero ys x
take-append_one (suc n) [] ys x h = absurd (omega arith)
take-append_one zero (z ∷ xs) ys x h = absurd (omega arith)
take-append_one (suc n) (z ∷ xs) ys x h =
    ap (λ zs. z ∷ zs) (take-append_one n xs ys x (omega arith))

pub get_elem?-front {ℓ} :
    {A : Type ℓ} (xs ys : List A) (i : ℕ) (x : A)
    → get_elem? xs i ≡ some x
    → get_elem? (xs ++ ys) i ≡ some x
get_elem?-front [] ys i x e = absurd cc
get_elem?-front (z ∷ xs) ys zero x e = e
get_elem?-front (z ∷ xs) ys (suc i) x e = get_elem?-front xs ys i x e

pub get_elem?-last {ℓ} :
    {A : Type ℓ} (xs : List A) (x : A) → get_elem? (xs ++ x ∷ []) (length xs) ≡ some x
get_elem?-last [] x = refl
get_elem?-last (z ∷ xs) x = get_elem?-last xs x

pub get_elem?-lt {ℓ} :
    {A : Type ℓ} (xs : List A) (i : ℕ) (x : A) → get_elem? xs i ≡ some x → i < length xs
get_elem?-lt [] i x e = absurd cc
get_elem?-lt (z ∷ xs) zero x e = omega arith
get_elem?-lt (z ∷ xs) (suc i) x e = omega (arith, get_elem?-lt xs i x e)
