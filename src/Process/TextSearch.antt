-- ===== src/Process/TextSearch.antt =====
-- Searches in a text that is put together of parts.
use lambda_runtime_api_daemo.Base.{
  ℕ, zero, suc, ◌+◌, ◌<◌, ◌≡◌, refl, ap, Bool, true, false, not, ◌&&◌, Option, none, some, [], ◌∷◌,
  ◌++◌, arith, nat_beq, nat_eq, length, Bytes, bytes_beq, bytes_eq, is_prefix, shift, index_of,
}
use lambda_runtime_api_daemo.Process.HexAddress.{spaceless}
use lambda_runtime_api_daemo.Process.Tcp.{pattern, index_byte, take, drop}

-- No colon is followed by a space, and the last byte is not a colon.
abbrev pub unmarked : Bytes → Bool
unmarked [] = true
unmarked (c ∷ []) = not (nat_beq c b':')
unmarked (c ∷ d ∷ s) = not (nat_beq c b':' && nat_beq d b' ') && unmarked (d ∷ s)

abbrev pub shift_by : ℕ → Option ℕ → Option ℕ
shift_by zero o = o
shift_by (suc n) o = shift (shift_by n o)

unmarked-is_prefix :
    (c : ℕ) (q s t : Bytes)
    → unmarked (c ∷ s) ≡ true
    → is_prefix (b':' ∷ b' ' ∷ q) (c ∷ (s ++ t)) ≡ false
unmarked-is_prefix c q [] t h = ground (arith, h)
unmarked-is_prefix c q (d ∷ s) t h = ground (arith, h)

unmarked-tail : (c : ℕ) (s : Bytes) → unmarked (c ∷ s) ≡ true → unmarked s ≡ true
unmarked-tail c [] h = refl
unmarked-tail c (d ∷ s) h = ground (arith, h)

pub index_of-skip :
    (a p t : Bytes)
    → unmarked p ≡ true
    → index_of (pattern a) (p ++ t) ≡ shift_by (length p) (index_of (pattern a) t)
unfolding index_of
index_of-skip a [] t h = refl
index_of-skip a (c ∷ p) t h =
    rw (unmarked-is_prefix c (a ++ b' ' ∷ []) p t h)
      (ap shift (index_of-skip a p t (unmarked-tail c p h)))

pub is_prefix-spaceless :
    (a b t : Bytes)
    → spaceless a ≡ true
    → spaceless b ≡ true
    → is_prefix (a ++ b' ' ∷ []) (b ++ b' ' ∷ t) ≡ bytes_beq a b
unfolding bytes_beq
is_prefix-spaceless [] [] t h k = refl
is_prefix-spaceless [] (d ∷ b) t h k = ground (arith, k)
is_prefix-spaceless (c ∷ a) [] t h k = ground (arith, h)
is_prefix-spaceless (c ∷ a) (d ∷ b) t h k = ground (arith, h, k, is_prefix-spaceless a b t)

pub drop-append : (p u : Bytes) (k n : ℕ) → k ≡ length p + n → drop k (p ++ u) ≡ drop n u
drop-append [] u k n e = let same : k ≡ n = omega (arith, e) in ap (λ i. drop i u) same
drop-append (c ∷ p) u zero n e = absurd (omega (arith, e))
drop-append (c ∷ p) u (suc k) n e = drop-append p u k n (omega (arith, e))

pub take-append : (p u : Bytes) → take (length p) (p ++ u) ≡ p
take-append [] u = refl
take-append (c ∷ p) u = ap (λ s. c ∷ s) (take-append p u)

pub index_byte-take :
    (s t : Bytes) (k : ℕ)
    → spaceless s ≡ true
    → length s < k
    → index_byte b' ' (take k (s ++ b' ' ∷ t)) ≡ some (length s)
unfolding index_byte
index_byte-take s t zero h lt = absurd (omega arith)
index_byte-take [] t (suc k) h lt = refl
index_byte-take (c ∷ s) t (suc k) h lt = ground (arith, h, index_byte-take s t k)

pub shift_by-some : (n : ℕ) → shift_by n (some 0) ≡ some n
shift_by-some zero = refl
shift_by-some (suc n) = ap shift (shift_by-some n)

pub shift_by-append :
    (p q : Bytes) (o : Option ℕ)
    → shift_by (length p) (shift_by (length q) o) ≡ shift_by (length (p ++ q)) o
shift_by-append [] q o = refl
shift_by-append (c ∷ p) q o = ap shift (shift_by-append p q o)

pub shift_by-none : (n : ℕ) → shift_by n none ≡ none
shift_by-none zero = refl
shift_by-none (suc n) = ap shift (shift_by-none n)
