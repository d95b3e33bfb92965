-- ===== src/Base/Decimal.antt =====
-- strconv.Itoa and strconv.Atoi on unsigned decimals.
use Prim.Native.Nat.{ℕ, zero, suc, ◌+◌, ◌-◌, ◌*◌, ◌/◌, ◌%◌, ◌<◌}
use mathlib.Core.Path.{◌≡◌, refl}
use mathlib.Core.Logic.{◌≢◌, inl, inr}
use mathlib.Core.Bool.{◌&&◌}
use mathlib.Core.Option.{Option, none, some}
use mathlib.Core.List.{[], ◌∷◌, ◌++◌}
use native.Mathlib.Omega.{arith}
use lambda_runtime_api_daemo.Base.Tests.{ltb, leb, if◌then◌else◌, Bool-cases}
use lambda_runtime_api_daemo.Base.Text.{Bytes}

-- The digits of n, most significant first; n + 1 rounds are enough.
itoa_fuel : ℕ → ℕ → Bytes
itoa_fuel zero n = []
itoa_fuel (suc f) n =
    let rest = itoa_fuel f (n / 10) in
    if ltb n 10 then (48 + n) ∷ [] else rest ++ (48 + n % 10) ∷ []

unfoldable pub itoa : ℕ → Bytes
unfolding itoa_fuel
itoa n = itoa_fuel (suc n) n

-- The value of a string of digits, from the value read so far.
unfoldable pub digits_from : ℕ → Bytes → Option ℕ
digits_from acc [] = some acc
digits_from acc (c ∷ s) =
    let rest = digits_from (acc * 10 + (c - 48)) s in if leb 48 c && leb c 57 then rest else none

unfoldable pub atoi : Bytes → Option ℕ
unfolding digits_from
atoi [] = none
atoi (c ∷ s) = digits_from 0 (c ∷ s)

digits_from-append :
    (acc : ℕ) (s : Bytes) (v d : ℕ)
    → digits_from acc s ≡ some v
    → d < 10
    → digits_from acc (s ++ (48 + d) ∷ []) ≡ some (v * 10 + d)
unfolding digits_from
digits_from-append acc [] v d h lt = ground arith
digits_from-append acc (c ∷ s) v d h lt =
    ground (arith, digits_from-append (acc * 10 + (c - 48)) s v d)

digits-itoa_fuel : (f n : ℕ) → n < f → digits_from 0 (itoa_fuel f n) ≡ some n
unfolding digits_from itoa_fuel
digits-itoa_fuel zero n h = elim h [ ]
digits-itoa_fuel (suc f) n h = elim (Bool-cases (ltb n 10)) [
  | inl small ↦ ground arith
  | inr big ↦ rw big (
      ground (
        arith,
        digits_from-append 0 (itoa_fuel f (n / 10)) (n / 10) (n % 10),
        digits-itoa_fuel f (n / 10),
      ))
]

atoi-digits : (s : Bytes) (n : ℕ) → s ≢ [] → digits_from 0 s ≡ some n → atoi s ≡ some n
unfolding atoi
atoi-digits [] n ne h = absurd (ne refl)
atoi-digits (c ∷ s) n ne h = h

append-ne-nil : (s : Bytes) (c : ℕ) → s ++ c ∷ [] ≢ []
append-ne-nil [] c = cc
append-ne-nil (a ∷ s) c = cc

pub itoa-ne-nil : (n : ℕ) → itoa n ≢ []
unfolding itoa
itoa-ne-nil n = elim (Bool-cases (ltb n 10)) [
  | inl small ↦ rw small (cc)
  | inr big ↦ rw big (append-ne-nil _ _)
]

-- What Itoa prints, Atoi reads back.
pub atoi-itoa : (n : ℕ) → atoi (itoa n) ≡ some n
atoi-itoa n =
    atoi-digits (itoa n) n (itoa-ne-nil n) (unfold itoa in digits-itoa_fuel (suc n) n (omega arith))
