-- ===== src/Config/Credentials.antt =====
-- pkg/config/util/util.go: InjectAMQPCredentials, applied again.
use lambda_runtime_api_daemo.Base.{
  ◌≡◌, inl, inr, Bool, true, false, none, some, Bool-cases, Option-cases, nat_eq, Bytes, bytes_eq,
  is_empty,
}
use lambda_runtime_api_daemo.Config.Util.{UrlOps, inject_amqp_credentials, inject_parsed}

-- What net/url documents of String and Parse: a URL with a host that is printed with its user
-- information parses to one that has user information.
pub record KeepsUser (ops : UrlOps) : Type 0 where
  pub has_host : ops.Url → Bool
  pub parse_printed :
      (name password : Bytes) (u : ops.Url)
      → has_host u ≡ true
      → (v : ops.Url) × (ops.parse (ops.to_text (ops.with_user name password u)) ≡ some v)
        × (ops.has_user v ≡ true)

module _ (ops : UrlOps) (keeps : KeepsUser ops) where
  unparsed : (raw n p : Bytes) → ops.parse raw ≡ none → inject_amqp_credentials ops raw n p ≡ raw
  unfolding inject_amqp_credentials
  unparsed raw n p e = rw (e, inject_amqp_credentials)

  with_user-kept :
      (raw n p : Bytes) (u : ops.Url)
      → ops.parse raw ≡ some u
      → ops.has_user u ≡ true
      → inject_amqp_credentials ops raw n p ≡ raw
  unfolding inject_amqp_credentials inject_parsed
  with_user-kept raw n p u e h = rw (e, inject_amqp_credentials, inject_parsed, h)

  without_user :
      (raw n p : Bytes) (u : ops.Url)
      → ops.parse raw ≡ some u
      → ops.has_user u ≡ false
      → is_empty n ≡ false
      → is_empty p ≡ false
      → inject_amqp_credentials ops raw n p ≡ ops.to_text (ops.with_user n p u)
  unfolding inject_amqp_credentials inject_parsed
  without_user raw n p u e h ne pe = rw (e, inject_amqp_credentials, inject_parsed, h, ne, pe)

  -- If the URI has a host or does not parse, and a user name and a password have been given once:
  -- credentials that are injected later change nothing, whether the URI had user information or not.
  inject-inject :
      (raw n p n' p' : Bytes)
      → ((u : ops.Url) → ops.parse raw ≡ some u → keeps.has_host u ≡ true)
      → is_empty n ≡ false
      → is_empty p ≡ false
      → inject_amqp_credentials ops (inject_amqp_credentials ops raw n p) n' p'
        ≡ inject_amqp_credentials ops raw n p
  inject-inject raw n p n' p' host ne pe = elim (Option-cases (ops.parse raw)) [
    | inl e ↦ rw (unparsed raw n p e) (unparsed raw n' p' e)
    | inr (u, e) ↦ elim (Bool-cases (ops.has_user u)) [
      | inl h ↦ rw (with_user-kept raw n p u e h) (with_user-kept raw n' p' u e h)
      | inr h ↦
          let (v, printed, has) = keeps.parse_printed n p u (host u e) in
          rw (without_user raw n p u e h ne pe) (with_user-kept _ n' p' v printed has)
    ]
  ]
