-- ===== src/Runtime/Firing.antt =====
-- A whole Do on an initialiser, by what its Once says.
use lambda_runtime_api_daemo.Base.{
  ℕ, ◌≡◌, refl, ap, ◌∙◌, some, arith, nat_eq, get_elem?, set, set-set, get_elem?-lt,
  get_elem?-set_self, bytes_eq,
}
use lambda_runtime_api_daemo.Runtime.Api.{
  RuntimeApi, Once, untouched, underway, over, do_begin, do_end,
}
use lambda_runtime_api_daemo.Runtime.Instances.{Daemon, Child, launch, enter, finish, fire}

abbrev pub marked : ℕ → Once → RuntimeApi → RuntimeApi
marked index o r = record r { initialisers = set r.initialisers index o }

enter-untouched :
    (index : ℕ) (d : Daemon) (r : RuntimeApi)
    → d.client ≡ some r
    → get_elem? r.initialisers index ≡ some untouched
    → enter index d ≡ some (record d { client = some (marked index underway r) })
unfolding enter do_begin
enter-untouched index d r alive e = ground arith

finish-underway :
    (index : ℕ) (d : Daemon) (r : RuntimeApi)
    → d.client ≡ some r
    → get_elem? r.initialisers index ≡ some underway
    → finish index d ≡ some (record d { client = some (marked index over r) })
unfolding finish do_end
finish-underway index d r alive e = ground arith

fire-enter :
    (index now : ℕ) (c : Child) (d e f : Daemon)
    → enter index d ≡ some e
    → finish index (launch now c e) ≡ some f
    → fire index now c d ≡ f
unfolding fire
fire-enter index now c d e f x y = ground arith

-- A whole Do on an initialiser that is untouched registers the Runtime and marks it as done.
pub fire-new :
    (index now : ℕ) (c : Child) (d : Daemon) (r : RuntimeApi)
    → d.client ≡ some r
    → get_elem? r.initialisers index ≡ some untouched
    → fire index now c d ≡ launch now c (record d { client = some (marked index over r) })
unfolding launch
fire-new index now c d r alive e =
    let is = r.initialisers in
    let held = get_elem?-set_self is index underway (get_elem?-lt is index untouched e) in
    let d' : Daemon = record d { client = some (marked index underway r) } in
    fire-enter index now c d d' _ (enter-untouched index d r alive e)
      (finish-underway index (launch now c d') _ refl held)
    ∙ ap (λ x. launch now c (record d { client = some (record r { initialisers = x }) }))
        (set-set index is underway over)

pub fire-over :
    (index now : ℕ) (c : Child) (d : Daemon) (r : RuntimeApi)
    → d.client ≡ some r
    → get_elem? r.initialisers index ≡ some over
    → fire index now c d ≡ d
unfolding fire enter do_begin
fire-over index now c d r alive e = ground arith
