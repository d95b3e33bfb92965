-- ===== src/Runtime/Refinement.antt =====
-- The initialisers, the instance count and the process table together implement a bounded set of
-- processes.
use mathlib.Core.Path.{subst}
use lambda_runtime_api_daemo.Base.{
  ℕ, suc, ◌<◌, ◌≡◌, refl, sym, ap, ◌∙◌, inl, inr, Bool, false, ◌||◌, none, some, List, [], ◌∷◌,
  arith, ltb, if◌then◌else◌, ltb→lt, Bool-cases, Option-cases, is_some, ◌==◌, nat_eq, length,
  get_elem?, set, bytes_eq, GoMap, lookup, delete, insert, delete_absent,
}
use lambda_runtime_api_daemo.Extensions.Api.{ExtensionsApi}
use lambda_runtime_api_daemo.Process.Manager.{ManagedProcess, unregister, start}
use lambda_runtime_api_daemo.Runtime.Api.{RuntimeApi, over, init_index}
use lambda_runtime_api_daemo.Runtime.Spent.{spent-next}
use lambda_runtime_api_daemo.Runtime.Instances.{new_daemon, Daemon, Child, launch, exit}
use lambda_runtime_api_daemo.Runtime.Firing.{fire-new}
use lambda_runtime_api_daemo.Runtime.Capacity.{
  init, Packed, SomePacked, init-full, init-alive, init_index-Packed, exit-missing, exit-SomePacked,
  init-SomePacked, new_daemon-Packed,
}

pub data Event : Type 0 where
  invoked : ℕ → Child → Event
  exited : ℕ → Event

-- The daemon at an invocation that starts an instance if it may, and at the exit of a process.
abbrev pub follow : Event → Daemon → Daemon
follow (invoked now c) d = init now c d
follow (exited pid) d = exit pid d

abbrev pub run : List Event → Daemon → Daemon
run [] d = d
run (e ∷ es) d = run es (follow e d)

-- The specification: the pids of the instances, newest first, of which there are at most m.
abbrev pub without : ℕ → List ℕ → List ℕ
without pid [] = []
without pid (p ∷ ps) = let rest = without pid ps in if p == pid then rest else p ∷ rest

abbrev pub has : ℕ → List ℕ → Bool
has pid [] = false
has pid (p ∷ ps) = p == pid || has pid ps

abbrev pub admit : ℕ → ℕ → List ℕ → List ℕ
admit m pid ps = if ltb (length ps) m then pid ∷ ps else ps

abbrev pub specify : ℕ → List Event → List ℕ → List ℕ
specify m [] ps = ps
specify m (invoked now c ∷ es) ps = specify m es (admit m c.pid ps)
specify m (exited pid ∷ es) ps = specify m es (without pid ps)

-- The pid that exec gives to an instance is that of no process that is managed.
abbrev pub Fresh : ℕ → List Event → List ℕ → Type 0
Fresh m [] ps = Unit
Fresh m (invoked now c ∷ es) ps = (has c.pid ps ≡ false) × Fresh m es (admit m c.pid ps)
Fresh m (exited pid ∷ es) ps = Fresh m es (without pid ps)

abbrev pub pids : GoMap ℕ ManagedProcess → List ℕ
pids [] = []
pids ((pid, mp) ∷ t) = pid ∷ pids t

length-pids : (t : GoMap ℕ ManagedProcess) → length (pids t) ≡ length t
length-pids [] = refl
length-pids ((pid, mp) ∷ t) = ap suc (length-pids t)

pids-delete : (pid : ℕ) (t : GoMap ℕ ManagedProcess) → pids (delete pid t) ≡ without pid (pids t)
unfolding delete
pids-delete pid [] = refl
pids-delete pid ((p, mp) ∷ t) = ground (arith, pids-delete pid t)

has-pids : (pid : ℕ) (t : GoMap ℕ ManagedProcess) → has pid (pids t) ≡ is_some (lookup pid t)
unfolding lookup
has-pids pid [] = refl
has-pids pid ((p, mp) ∷ t) = ground (arith, has-pids pid t)

without-has : (pid : ℕ) (ps : List ℕ) → has pid ps ≡ false → without pid ps ≡ ps
without-has pid [] h = refl
without-has pid (p ∷ ps) h = ground (arith, without-has pid ps)

lookup-fresh :
    (pid : ℕ) (t : GoMap ℕ ManagedProcess) → has pid (pids t) ≡ false → lookup pid t ≡ none
lookup-fresh pid t h = elim (Option-cases (lookup pid t)) [
  | inl e ↦ e
  | inr (mp, e) ↦ absurd (ground (arith, has-pids pid t, h, e))
]

exit-pids : (pid : ℕ) (d : Daemon) → pids (exit pid d).processes ≡ without pid (pids d.processes)
unfolding exit
exit-pids pid d = elim (Option-cases (lookup pid d.processes)) [
  | inl e ↦
      ap (λ (t : Daemon). pids t.processes) (exit-missing pid d e)
      ∙ sym (without-has pid (pids d.processes) (has-pids pid d.processes ∙ ap is_some e))
  | inr (mp, e) ↦ rw (e, exit, unregister) (pids-delete pid d.processes)
]

init-pids :
    (m n now : ℕ) (c : Child) (d : Daemon)
    → lookup c.pid d.processes ≡ none
    → n < suc m
    → Packed (suc m) n d
    → pids (init now c d).processes ≡ c.pid ∷ pids d.processes
unfolding launch start insert
init-pids m n now c d f room p =
    let r' : RuntimeApi = record p.rapi { initialisers = set p.rapi.initialisers n over } in
    let index : init_index p.rapi ≡ some n = init_index-Packed m n d p ∙ ground arith in
    let free = ap (λ is. get_elem? is n) p.packed ∙ spent-next n (suc m) room in
    rw (init-alive now c d p.rapi n p.alive index, fire-new n now c d p.rapi p.alive free)
      (ap (λ t. c.pid ∷ pids t) (delete_absent c.pid d.processes f))

init-admit :
    (m now : ℕ) (c : Child) (d : Daemon)
    → lookup c.pid d.processes ≡ none
    → SomePacked (suc m) d
    → pids (init now c d).processes ≡ admit (suc m) c.pid (pids d.processes)
init-admit m now c d f (n, p) =
    let count : length (pids d.processes) ≡ n = length-pids d.processes ∙ p.running in
    elim (Bool-cases (ltb n (suc m))) [
      | inl room ↦ init-pids m n now c d f (ltb→lt n (suc m) room) p ∙ ground (arith, count, room)
      | inr full ↦
          let same : n ≡ suc m = ground (arith, p.fits) in
          ap (λ (t : Daemon). pids t.processes)
            (init-full m now c d (subst (λ k. Packed (suc m) k d) same p))
          ∙ ground (arith, count, full)
    ]

run-specify :
    (m : ℕ) (es : List Event) (d : Daemon)
    → SomePacked (suc m) d
    → Fresh (suc m) es (pids d.processes)
    → pids (run es d).processes ≡ specify (suc m) es (pids d.processes)
run-specify m [] d v f = refl
run-specify m (invoked now c ∷ es) d v (new, f) =
    let absent = lookup-fresh c.pid d.processes new in
    let p = init-admit m now c d absent v in
    run-specify m es (init now c d) (init-SomePacked m now c d absent v)
      (subst (Fresh (suc m) es) (sym p) f)
    ∙ ap (specify (suc m) es) p
run-specify m (exited pid ∷ es) d v f =
    let p = exit-pids pid d in
    run-specify m es (exit pid d) (exit-SomePacked (suc m) pid d v)
      (subst (Fresh (suc m) es) (sym p) f)
    ∙ ap (specify (suc m) es) p

-- The daemon with a MAX_CONCURRENCY of at least one refines a bounded set of pids. Over any
-- sequence of invocations and exits in which nothing else happens between an invocation's reading
-- of its index and the return of its Do, the managed processes are those that the specification
-- says: an invocation adds the pid that exec gives it if fewer than MAX_CONCURRENCY are in the set,
-- an exit removes its pid. No pid is given to an instance while a managed process has it.
pub run-new_daemon :
    (m idle : ℕ) (e : ExtensionsApi) (es : List Event)
    → Fresh (suc m) es []
    → pids (run es (new_daemon (suc m) idle e)).processes ≡ specify (suc m) es []
unfolding new_daemon
run-new_daemon m idle e es f =
    run-specify m es (new_daemon (suc m) idle e) (0, new_daemon-Packed (suc m) idle e) f
