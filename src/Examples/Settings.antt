-- ===== src/Examples/Settings.antt =====
-- The configuration and messages at concrete inputs.
use lambda_runtime_api_daemo.Base.{
  ℕ, zero, suc, ◌<◌, ◌≡◌, refl, ap, ◌∙◌, true, false, Option, none, some, [], ◌∷◌, arith, nat_eq,
  Bytes, codes, bytes_beq, bytes_eq, atoi, digits_from, atoi-itoa, before, ℤ,
}
use lambda_runtime_api_daemo.Config.Util.{UrlOps}
use lambda_runtime_api_daemo.Config.Rapid.{
  Config, System, not_exist, get_config, config_of, command_of, is_denied,
}
use lambda_runtime_api_daemo.Config.ChildEnv.{effective, overriding, own_entries, child_environment}
use lambda_runtime_api_daemo.Messaging.Message.{Message, zero_message}
use lambda_runtime_api_daemo.Messaging.Wire.{publish, from_delivery, delivered}
use lambda_runtime_api_daemo.Messaging.RoundTrip.{ReadsDecimals, republish}

abbrev positive_of : Option ℕ → Option (Option ℕ)
positive_of none = none
positive_of (some zero) = some none
positive_of (some (suc n)) = some (some (suc n))

abbrev reading : Bytes → Option (Option ℕ)
reading s = positive_of (atoi s)

positive_of-positive : (o : Option ℕ) (n : ℕ) → positive_of o ≡ some (some n) → 0 < n
positive_of-positive none n h = ground arith
positive_of-positive (some zero) n h = ground arith
positive_of-positive (some (suc m)) n h = ground arith

positive_of-suc : (n : ℕ) → 0 < n → positive_of (some n) ≡ some (some n)
positive_of-suc zero h = ground arith
positive_of-suc (suc n) h = refl

reading-ReadsDecimals : ReadsDecimals reading
unfolding atoi digits_from
reading-ReadsDecimals = record {
  positive = λ s n h. positive_of-positive (atoi s) n h;
  decimal = λ n h b. ap positive_of (atoi-itoa n) ∙ positive_of-suc n h;
  zero_text = refl;
}

abbrev message : Message
message = record zero_message { subject = codes "echo"; expiration = codes "60"; mandatory = true }

republish_example :
    publish reading []
      (codes "other")
      (from_delivery false (delivered (publish reading [] [] message) (codes "tag") 1 false))
    ≡ record (publish reading [] [] message) { mandatory = false; immediate = false }
unfolding publish atoi digits_from
republish_example =
    republish reading reading-ReadsDecimals [] [] (codes "other") (codes "tag") 1 false false
      message (omega arith) refl

-- No URL parses and no text is a number.
abbrev no_urls : UrlOps
no_urls = record {
  Url = Unit;
  parse = λ s. none;
  has_user = λ u. false;
  with_user = λ n p u. u;
  to_text = λ u. [];
}

abbrev no_number : Bytes → Option ℤ
no_number s = none

-- Started with a command whose last argument is the handler, in /app, with two inherited variables.
abbrev container : System
container = record {
  env = [];
  environ = codes "_HANDLER=inherited" ∷ codes "PWD=/root" ∷ [];
  args = codes "lambda-rapid" ∷ codes "python3" ∷ codes "echo.handler" ∷ [];
  getwd = some (codes "/app");
  stat = λ path. not_exist;
}

abbrev started : Config
started = config_of no_number no_urls container (record {
  cmd = codes "python3" ∷ codes "echo.handler" ∷ [];
  cwd = codes "/app";
  handler = codes "echo.handler";
})

container-started : get_config no_number no_urls container ≡ some started
unfolding get_config command_of
container-started = refl

child_environment_example :
    effective (codes "_HANDLER") started.env ≡ some (codes "_HANDLER=inherited")
unfolding effective overriding own_entries is_denied bytes_beq before
child_environment_example =
    child_environment no_number no_urls container started (codes "_HANDLER") container-started
