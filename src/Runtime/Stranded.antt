-- ===== src/Runtime/Stranded.antt =====
-- An invoker that reads the index of its initialiser and is overtaken before it calls Do, and one
-- whose Runtime exits while Do runs.
use lambda_runtime_api_daemo.Base.{
  ℕ, suc, ◌≡◌, true, Option, none, some, arith, is_some, nat_eq, beq_refl, length, bytes_eq, lookup,
  delete, insert,
}
use lambda_runtime_api_daemo.Extensions.Api.{ExtensionsApi}
use lambda_runtime_api_daemo.Runtime.Api.{init_index}
use lambda_runtime_api_daemo.Runtime.Instances.{
  Daemon, Child, enter, launch, finish, fire, exit, new_daemon,
}

-- The index that Init reads from the daemon's Runtime API.
abbrev pub index_of : Daemon → Option ℕ
index_of d = elim d.client [ none ↦ none | some r ↦ init_index r ]

-- The daemon after the first instance `a` has come and gone, and the invoker that read its index
-- while `a` ran has started `b`.
abbrev pub overtaken : ℕ → ℕ → Child → Child → ExtensionsApi → Daemon
overtaken max idle a b e = fire 1 0 b (exit a.pid (fire 0 0 a (new_daemon max idle e)))

-- For any MAX_CONCURRENCY of two or more: an invoker reads index 1 while the first instance runs;
-- the instance exits; the invoker then starts an instance on initialiser 1. One instance runs, the
-- index that is read next is 1 again, and Do on that initialiser starts nothing and changes
-- nothing.
pub overtaken_stuck :
    (n idle now : ℕ) (a b c : Child) (e : ExtensionsApi)
    → let d = overtaken (suc (suc n)) idle a b e in
      (index_of (fire 0 0 a (new_daemon (suc (suc n)) idle e)) ≡ some 1)
      × (length d.processes ≡ 1)
      × (index_of d ≡ some 1)
      × (fire 1 now c d ≡ d)
unfolding fire exit new_daemon init_index lookup delete insert
overtaken_stuck n idle now a b c e = (
  ground arith,
  ground (arith, beq_refl a.pid),
  ground (arith, beq_refl a.pid),
  ground (arith, beq_refl a.pid),
)

-- The daemon when Do on the first initialiser has called its argument.
abbrev pub begun : Daemon → Daemon
begun d = elim (enter 0 d) [ none ↦ d | some e ↦ e ]

-- The first Do has registered the Runtime `a`, and `a` has exited while Do runs.
abbrev pub left_in_do : ℕ → ℕ → Child → ExtensionsApi → Daemon
left_in_do max idle a e = exit a.pid (launch 0 a (begun (new_daemon max idle e)))

-- For any MAX_CONCURRENCY of one or more, if the first Runtime exits while the Do that registered it
-- runs: the return of that Do is fatal, and it is too if another Do on the initialiser has been and
-- gone in between. If another Do has called its argument in between, the first returns, and the
-- return of the other is fatal.
pub exit_in_do :
    (n idle now : ℕ) (a b : Child) (e : ExtensionsApi)
    → let d = left_in_do (suc n) idle a e in
      let both = finish 0 (launch now b (begun d)) in
      (is_some (enter 0 (new_daemon (suc n) idle e)) ≡ true)
      × (finish 0 d ≡ none)
      × (finish 0 (fire 0 now b d) ≡ none)
      × (is_some both ≡ true)
      × (elim both [ none ↦ none | some g ↦ finish 0 g ] ≡ none)
unfolding enter launch fire finish exit new_daemon lookup delete insert
exit_in_do n idle now a b e = (
  ground arith,
  ground (arith, beq_refl a.pid),
  ground (arith, beq_refl a.pid),
  ground (arith, beq_refl a.pid),
  ground (arith, beq_refl a.pid),
)
