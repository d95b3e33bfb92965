-- ===== src/Config/Util.antt =====
-- pkg/config/util/util.go. The process environment is a map; strconv.ParseFloat followed by the
-- conversion to int is an argument, and so is net/url.
use lambda_runtime_api_daemo.Base.{
  Bool, not, ◌&&◌, Option, none, some, if◌then◌else◌, nat_eq, Bytes, bytes_eq, is_empty, GoMap,
  lookup, ℤ,
}

abbrev pub Environment : Type 0
Environment = GoMap Bytes Bytes

unfoldable pub getenv : Environment → Bytes → Bytes → Bytes
getenv env key fallback = elim (lookup key env) [ none ↦ fallback | some value ↦ value ]

unfoldable pub getenv_int : (Bytes → Option ℤ) → Environment → Bytes → ℤ → ℤ
getenv_int parse_float env key fallback = elim (lookup key env) [
  | none ↦ fallback
  | some text ↦ elim (parse_float text) [ none ↦ fallback | some value ↦ value ]
]

-- What the program uses of net/url.
pub record UrlOps : Type 1 where
  pub Url : Type 0
  pub parse : Bytes → Option Url
  pub has_user : Url → Bool
  pub with_user : Bytes → Bytes → Url → Url
  pub to_text : Url → Bytes

module _ (ops : UrlOps) where
  open ops use {Url, parse, has_user, with_user, to_text}

  unfoldable pub inject_parsed : Bytes → Bytes → Bytes → Url → Bytes
  inject_parsed raw username password u =
      if has_user u
      then raw
      else if not (is_empty username) && not (is_empty password)
      then to_text (with_user username password u)
      else raw

  unfoldable pub inject_amqp_credentials : Bytes → Bytes → Bytes → Bytes
  unfolding inject_parsed
  inject_amqp_credentials raw username password = elim (parse raw) [
    | none ↦ raw
    | some u ↦ inject_parsed raw username password u
  ]
