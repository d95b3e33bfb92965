-- ===== src/Messaging/RoundTrip.antt =====
-- A message that goes over the broker and is published again.
use lambda_runtime_api_daemo.Base.{
  ℕ, ◌≤◌, ◌<◌, ◌≡◌, refl, ◌≢◌, Bool, false, Option, none, some, [], ◌∷◌, arith, nat_eq, Bytes,
  codes, bytes_eq, is_empty, itoa, itoa-ne-nil,
}
use lambda_runtime_api_daemo.Messaging.Message.{Message}
use lambda_runtime_api_daemo.Messaging.Wire.{publish, clamp_expiration, from_delivery, delivered}

-- The integers that a float64 represents, each of them, are those up to this one.
abbrev pub exact : ℕ
exact = 9007199254740992

-- What ParseFloat and int are documented to do on the decimals that Itoa writes, as far as a float64
-- is exact, and the reading of `some (some n)` as a positive number.
pub record ReadsDecimals (to_int : Bytes → Option (Option ℕ)) : Type 0 where
  pub positive : (s : Bytes) (n : ℕ) → to_int s ≡ some (some n) → 0 < n
  pub decimal : (n : ℕ) → 0 < n → n ≤ exact → to_int (itoa n) ≡ some (some n)
  pub zero_text : to_int (codes "0") ≡ some none

module _ (to_int : Bytes → Option (Option ℕ)) (reads : ReadsDecimals to_int) where
  not_empty : (s : Bytes) → s ≢ [] → is_empty s ≡ false
  not_empty [] h = absurd (h refl)
  not_empty (c ∷ s) h = refl

  clamp_zero : clamp_expiration to_int (codes "0") ≡ codes "0"
  unfolding clamp_expiration
  clamp_zero = rw reads.zero_text

  clamp_decimal : (n : ℕ) → 0 < n → n ≤ exact → clamp_expiration to_int (itoa n) ≡ itoa n
  unfolding clamp_expiration
  clamp_decimal n h b = rw (not_empty (itoa n) (itoa-ne-nil n), reads.decimal n h b)

  -- The number that is read in a text, or 0.
  abbrev pub number_in : Bytes → ℕ
  number_in s = elim (to_int s) [ none ↦ 0 | some none ↦ 0 | some (some n) ↦ n ]

  -- A clamped expiration is clamped to itself.
  clamp-clamp :
      (s : Bytes)
      → number_in s ≤ exact
      → clamp_expiration to_int (clamp_expiration to_int s) ≡ clamp_expiration to_int s
  unfolding clamp_expiration
  clamp-clamp [] b = refl
  clamp-clamp (c ∷ s) b = clamp_read (to_int (c ∷ s)) refl
    where
      clamp_read :
          (o : Option (Option ℕ))
          → to_int (c ∷ s) ≡ o
          → clamp_expiration to_int (clamp_expiration to_int (c ∷ s))
            ≡ clamp_expiration to_int (c ∷ s)
      clamp_read none e = rw (e, clamp_expiration) (clamp_zero)
      clamp_read (some none) e = rw (e, clamp_expiration) (clamp_zero)
      clamp_read (some (some n)) e =
          rw (e, clamp_expiration)
            (clamp_decimal n (reads.positive (c ∷ s) n e) (ground (arith, e, b)))

  -- A message whose expiration is no number above 2^53, and that is published with a routing key,
  -- delivered by the broker as it was published, and published again under any subject of the
  -- producer goes out as it did before: the routing key, the delivery mode, the properties, headers
  -- and body are the same. Only the flags mandatory and immediate, which a delivery does not carry,
  -- are cleared.
  pub republish :
      (exchange subject subject' tag_name : Bytes) (tag : ℕ) (auto_ack again : Bool) (m : Message)
      → number_in m.expiration ≤ exact
      → is_empty (publish to_int exchange subject m).routing_key ≡ false
      → let p = publish to_int exchange subject m in
        publish to_int exchange subject' (from_delivery auto_ack (delivered p tag_name tag again))
        ≡ record p { mandatory = false; immediate = false }
  unfolding publish from_delivery
  republish exchange subject subject' tag_name tag auto_ack again m b key =
      ground (arith, key, clamp-clamp m.expiration b)
