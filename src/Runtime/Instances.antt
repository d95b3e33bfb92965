-- ===== src/Runtime/Instances.antt =====
-- The Lambda instances that the daemon runs: the initialisers of the Runtime API together with the
-- process table, with the two objects joined by the handlers that NewRuntimeAPIServer sets. An
-- invoker reads the index of an initialiser in one step and calls its Do in later ones: Do takes the
-- lock of the Once, its argument starts a Runtime, which registers it, and may then wait for
-- Extensions, and Do marks the Once as done and unlocks it.
use lambda_runtime_api_daemo.Base.{
  ℕ, ◌≡◌, Option, none, some, List, ◌∷◌, ◌++◌, nat_eq, bytes_eq, lookup,
}
use lambda_runtime_api_daemo.Extensions.Api.{ExtensionsApi}
use lambda_runtime_api_daemo.Process.Manager.{
  ProcessManager, new_process_manager, unregister, start,
}
use lambda_runtime_api_daemo.Runtime.Api.{
  RuntimeApi, new_runtime_api, do_begin, do_end, register_lambda_runtime, unregister_lambda_runtime,
}

-- The daemon's state; a client of `none` is a panic in a handler.
abbrev pub Daemon : Type 0
Daemon = ProcessManager (Option RuntimeApi)

unfoldable pub on_register : ℕ → ℕ → ℕ → Option RuntimeApi → Option RuntimeApi
unfolding register_lambda_runtime
on_register now pid nproc none = none
on_register now pid nproc (some r) = some (register_lambda_runtime now pid nproc r)

unfoldable pub on_unregister : ℕ → ℕ → Option RuntimeApi → Option RuntimeApi
unfolding unregister_lambda_runtime
on_unregister pid nproc none = none
on_unregister pid nproc (some r) = unregister_lambda_runtime pid nproc r

unfoldable pub new_daemon : ℕ → ℕ → ExtensionsApi → Daemon
unfolding new_runtime_api
new_daemon max idle e = new_process_manager (some (new_runtime_api max idle e))

-- A new process, as exec gives it: its pid and what Getpgid says of it.
pub record Child : Type 0 where
  pub pid : ℕ
  pub own_pgid : Option ℕ

-- The argument of Do up to the registration of the Runtime that it starts.
unfoldable pub launch : ℕ → Child → Daemon → Daemon
unfolding start on_register
launch now c d = (start (on_register now) c.pid 0 c.own_pgid d).1

-- Do on the initialiser of an index, up to the call of its argument, if it calls it.
unfoldable pub enter : ℕ → Daemon → Option Daemon
unfolding do_begin
enter index d = elim d.client [
  | none ↦ none
  | some r ↦ elim (do_begin index r) [
    | none ↦ none
    | some r' ↦ some (record d { client = some r' })
  ]
]

-- The return of that Do; `none` is its fatal error.
unfoldable pub finish : ℕ → Daemon → Option Daemon
unfolding do_end
finish index d = elim d.client [
  | none ↦ none
  | some r ↦ elim (do_end index r) [ none ↦ none | some r' ↦ some (record d { client = some r' }) ]
]

-- A whole Do, between whose parts nothing else happens.
unfoldable pub fire : ℕ → ℕ → Child → Daemon → Daemon
unfolding enter launch finish
fire index now c d = elim (enter index d) [
  | none ↦ d
  | some e ↦ elim (finish index (launch now c e)) [ none ↦ record e { client = none } | some f ↦ f ]
]

-- A child is reaped.
unfoldable pub exit : ℕ → Daemon → Daemon
unfolding unregister on_unregister
exit pid d = unregister on_unregister pid d

-- The daemon with the calls of Do that have called their argument and not returned, by the index of
-- their initialiser: those that have not yet registered a Runtime, and those that have.
pub record Calls : Type 0 where
  pub daemon : Daemon
  pub entered : List ℕ
  pub registered : List ℕ

-- What can happen, in any order. A return of Do whose unlock is fatal ends the process, so that no
-- step follows it. A Runtime that exec fails to start is not covered.
pub data Step : Calls → Calls → Type 0 where
  enters :
      (index : ℕ) (s : Calls) (d : Daemon)
      → enter index s.daemon ≡ some d
      → Step s (record s { daemon = d; entered = index ∷ s.entered })
  registers :
      (before after : List ℕ) (index now : ℕ) (c : Child) (s : Calls)
      → s.entered ≡ before ++ index ∷ after
      → lookup c.pid s.daemon.processes ≡ none
      → Step s (record s {
        daemon = launch now c s.daemon;
        entered = before ++ after;
        registered = index ∷ s.registered;
      })
  finishes :
      (before after : List ℕ) (index : ℕ) (s : Calls) (d : Daemon)
      → s.registered ≡ before ++ index ∷ after
      → finish index s.daemon ≡ some d
      → Step s (record s { daemon = d; registered = before ++ after })
  exits : (pid : ℕ) (s : Calls) → Step s (record s { daemon = exit pid s.daemon })

pub data Reach (s : Calls) : Calls → Type 0 where
  here : Reach s s
  later : {t u : Calls} → Reach s t → Step t u → Reach s u
