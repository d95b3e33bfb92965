-- ===== src/Config/ChildEnv.antt =====
-- pkg/config/rapid/config.go: the environment that the Lambda is started with. Where a key stands
-- more than once in it, os/exec documents that the last one counts.
use mathlib.Core.Option.{some-injective, none-ne-some}
use lambda_runtime_api_daemo.Base.{
  ◌≡◌, refl, sym, ap, ◌∙◌, not, Option, none, some, List, [], ◌∷◌, ◌++◌, arith, if◌then◌else◌, ◌==◌,
  nat_eq, select, Bytes, bytes_eq, ℤ,
}
use lambda_runtime_api_daemo.Config.Util.{UrlOps}
use lambda_runtime_api_daemo.Config.Rapid.{
  Config, System, Command, config_of, command_of, get_config, forwarded, allowed, deny, is_denied,
  key_of,
}

unfoldable pub effective : Bytes → List Bytes → Option Bytes
effective key [] = none
effective key (e ∷ es) =
    let rest = effective key es in
    elim rest [ some found ↦ some found | none ↦ if key_of e == key then some e else none ]

-- The entry that the process sees: the later list overrides the earlier.
unfoldable pub overriding : Option Bytes → Option Bytes → Option Bytes
overriding own none = own
overriding own (some e) = some e

overriding-none : (own : Option Bytes) → overriding own none ≡ own
unfolding overriding
overriding-none own = refl

effective-append :
    (key : Bytes) (xs ys : List Bytes)
    → effective key (xs ++ ys) ≡ overriding (effective key xs) (effective key ys)
unfolding effective overriding
effective-append key [] ys = ground arith
effective-append key (x ∷ xs) ys = ground (arith, effective-append key xs ys)

effective-select :
    (ds : List Bytes) (key : Bytes) (es : List Bytes)
    → effective key (select (λ e. not (is_denied ds (key_of e))) es)
      ≡ (if is_denied ds key then none else effective key es)
unfolding effective
effective-select ds key [] = ground arith
effective-select ds key (e ∷ es) =
    ground (arith, effective-select ds key es, bytes_eq.beq_iff (key_of e) key)

unfoldable pub own_entries : Config → List Bytes
unfolding forwarded
own_entries c = forwarded c.runtime_api_server_uri c.function_name c.handler c.cwd

module _ (parse_float : Bytes → Option ℤ) (ops : UrlOps) where
  config_of-environment :
      (s : System) (d : Command) (key : Bytes)
      → effective key (config_of parse_float ops s d).env
        ≡ overriding
            (effective key (own_entries (config_of parse_float ops s d)))
            (if is_denied deny key then none else effective key s.environ)
  unfolding config_of own_entries
  config_of-environment s d key =
      effective-append key (own_entries (config_of parse_float ops s d)) (allowed s.environ)
      ∙ ap (overriding (effective key (own_entries (config_of parse_float ops s d))))
          (effective-select deny key s.environ)

  -- The environment of the Lambda, for every configuration that GetConfig returns and every key: an
  -- entry that the daemon inherits overrides the one that the daemon sets, unless its key is on the
  -- deny list, and then only what the daemon sets counts.
  pub child_environment :
      (s : System) (c : Config) (key : Bytes)
      → get_config parse_float ops s ≡ some c
      → effective key c.env
        ≡ overriding
            (effective key (own_entries c))
            (if is_denied deny key then none else effective key s.environ)
  unfolding get_config
  child_environment s c key h =
      elim (command_of s s.args)
          as (λ r.
            (elim r [ none ↦ none | some d ↦ some (config_of parse_float ops s d) ] ≡ some c)
            → effective key c.env
              ≡ overriding (effective key (own_entries c))
                  (if is_denied deny key then none else effective key s.environ)) [
                    | none ↦ λ e. elim (none-ne-some c e) [ ]
                    | some d ↦ λ e.
                        rw (sym (some-injective (config_of parse_float ops s d) c e))
                          (config_of-environment s d key)
                  ]
        h
