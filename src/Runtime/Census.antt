-- ===== src/Runtime/Census.antt =====
-- The number of Lambda instances, whatever steps interleave.
use mathlib.Core.Path.{subst}
use lambda_runtime_api_daemo.Extensions.Api.{unregister_lambda_runtime as unregister_extensions}
use lambda_runtime_api_daemo.Base.{
  ℕ, zero, suc, ◌+◌, ◌≤◌, ◌<◌, ◌≡◌, refl, ap, ◌∙◌, inl, inr, Option, none, some, [], ◌∷◌, ◌++◌,
  arith, Option-cases, nat_eq, length, get_elem?, set, length-append, length-set, bytes_eq, GoMap,
  lookup, delete, insert, Distinct, delete-Distinct, insert-Distinct, delete_absent, length-delete,
  before,
}
use lambda_runtime_api_daemo.Extensions.Api.{ExtensionsApi}
use lambda_runtime_api_daemo.Process.Manager.{ManagedProcess, unregister}
use lambda_runtime_api_daemo.Runtime.Api.{
  do_begin, do_end, RuntimeApi, new_runtime_api, replicate, untouched, underway, over,
  register_lambda_runtime,
}
use lambda_runtime_api_daemo.Runtime.Spent.{
  fired, fired-set-underway, fired-set-over, fired-set-untouched, fired-length,
}
use lambda_runtime_api_daemo.Runtime.Instances.{
  Calls, Step, Reach, enters, registers, finishes, exits, here, later, Daemon, Child, launch, enter,
  finish, exit, new_daemon, on_unregister,
}

-- No handler has panicked, each initialiser accounts for at most one instance or call that is to
-- start one, and the Runtime API counts the process table right.
pub record Accounted (max : ℕ) (starting : ℕ) (d : Daemon) : Type 0 where
  pub rapi : RuntimeApi
  pub alive : d.client ≡ some rapi
  pub sized : length rapi.initialisers ≡ max
  pub counted : rapi.lambda_count ≡ length d.processes
  pub fits : length d.processes + starting ≤ fired rapi.initialisers
  pub distinct : Distinct d.processes

pub length-insert_new :
    {V : Type 0} (k : ℕ) (v : V) (m : GoMap ℕ V)
    → lookup k m ≡ none
    → length (insert k v m) ≡ suc (length m)
unfolding insert
length-insert_new k v m e = rw (delete_absent k m e)

-- A Do calls its argument exactly on an initialiser that is untouched.
enter-some :
    (index : ℕ) (d e : Daemon) (r : RuntimeApi)
    → d.client ≡ some r
    → enter index d ≡ some e
    → (get_elem? r.initialisers index ≡ some untouched)
      × (record d { client = some (record r { initialisers = set r.initialisers index underway }) }
          ≡ e)
unfolding enter do_begin
enter-some index d e r alive h = elim (Option-cases (get_elem? r.initialisers index)) [
  | inl x ↦ absurd (ground arith)
  | inr (untouched, x) ↦ (x, ground arith)
  | inr (underway, x) ↦ absurd (ground arith)
  | inr (over, x) ↦ absurd (ground arith)
]

-- It returns without a fatal error exactly on one that is underway.
finish-some :
    (index : ℕ) (d e : Daemon) (r : RuntimeApi)
    → d.client ≡ some r
    → finish index d ≡ some e
    → (get_elem? r.initialisers index ≡ some underway)
      × (record d { client = some (record r { initialisers = set r.initialisers index over }) } ≡ e)
unfolding finish do_end
finish-some index d e r alive h = elim (Option-cases (get_elem? r.initialisers index)) [
  | inl x ↦ absurd (ground arith)
  | inr (untouched, x) ↦ absurd (ground arith)
  | inr (underway, x) ↦ (x, ground arith)
  | inr (over, x) ↦ absurd (ground arith)
]

enter-Accounted :
    (max n index : ℕ) (d e : Daemon)
    → enter index d ≡ some e
    → Accounted max n d
    → Accounted max (suc n) e
enter-Accounted max n index d e h v =
    let (free, same) = enter-some index d e v.rapi v.alive h in
    let is = v.rapi.initialisers in
    subst (Accounted max (suc n)) same (record {
      rapi = record v.rapi { initialisers = set is index underway };
      alive = refl;
      sized = length-set is index underway ∙ v.sized;
      counted = v.counted;
      fits = omega (arith, fired-set-underway is index free, v.fits);
      distinct = v.distinct;
    })

finish-Accounted :
    (max n index : ℕ) (d e : Daemon)
    → finish index d ≡ some e
    → Accounted max n d
    → Accounted max n e
finish-Accounted max n index d e h v =
    let (held, same) = finish-some index d e v.rapi v.alive h in
    let is = v.rapi.initialisers in
    subst (Accounted max n) same (record {
      rapi = record v.rapi { initialisers = set is index over };
      alive = refl;
      sized = length-set is index over ∙ v.sized;
      counted = v.counted;
      fits = omega (arith, fired-set-over is index held, v.fits);
      distinct = v.distinct;
    })

launch-on :
    (now : ℕ) (c : Child) (d : Daemon) (r : RuntimeApi)
    → d.client ≡ some r
    → (launch now c d).client
      ≡ some (register_lambda_runtime now c.pid (length (launch now c d).processes) r)
unfolding launch
launch-on now c d r e = rw e

launch-Accounted :
    (max n now : ℕ) (c : Child) (d : Daemon)
    → lookup c.pid d.processes ≡ none
    → Accounted max (suc n) d
    → Accounted max n (launch now c d)
unfolding launch
launch-Accounted max n now c d f v =
    let longer = λ (mp : ManagedProcess). length-insert_new c.pid mp d.processes f in
    record {
      rapi = register_lambda_runtime now c.pid _ v.rapi;
      alive = launch-on now c d v.rapi v.alive;
      sized = v.sized;
      counted = refl;
      fits = omega (arith, longer _, v.fits);
      distinct = insert-Distinct c.pid _ d.processes v.distinct;
    }

abbrev pub unregistered : ℕ → ℕ → RuntimeApi → RuntimeApi
unregistered pid n r = record r {
  extensions = unregister_extensions pid n r.extensions;
  initialisers = set r.initialisers n untouched;
  lambda_count = n;
}

pub on_unregister-alive :
    (pid n : ℕ) (o : Option RuntimeApi) (r : RuntimeApi)
    → o ≡ some r
    → n < length r.initialisers
    → on_unregister pid n o ≡ some (unregistered pid n r)
unfolding on_unregister
on_unregister-alive pid n o r e lt = ground arith

-- The entry of the initialisers that an exit clears is in range, since each instance that is left
-- and the one that has gone had one of their own.
exit-Accounted : (max n pid : ℕ) (d : Daemon) → Accounted max n d → Accounted max n (exit pid d)
unfolding exit
exit-Accounted max n pid d v = elim (Option-cases (lookup pid d.processes)) [
  | inl e ↦ rw (e, exit, unregister) v
  | inr (mp, e) ↦
      let k = length (delete pid d.processes) in
      let shorter = length-delete pid mp d.processes v.distinct e in
      let is = v.rapi.initialisers in
      rw (e, exit, unregister)
        (record {
          rapi = unregistered pid k v.rapi;
          alive =
              on_unregister-alive pid k d.client v.rapi v.alive
                (omega (arith, shorter, v.fits, fired-length is));
          sized = length-set is k untouched ∙ v.sized;
          counted = refl;
          fits = omega (arith, shorter, v.fits, fired-set-untouched is k);
          distinct = delete-Distinct pid d.processes v.distinct;
        })
]

length-replicate : (n : ℕ) → length (replicate n untouched) ≡ n
length-replicate zero = refl
length-replicate (suc n) = omega (arith, length-replicate n)

new_daemon-Accounted : (max idle : ℕ) (e : ExtensionsApi) → Accounted max 0 (new_daemon max idle e)
unfolding new_daemon
new_daemon-Accounted max idle e = record {
  rapi = new_runtime_api max idle e;
  alive = refl;
  sized = length-replicate max;
  counted = refl;
  fits = omega arith;
  distinct = tt;
}

abbrev Holds : ℕ → Calls → Type 0
Holds max s = Accounted max (length s.entered) s.daemon

Step-Holds : {max : ℕ} {s t : Calls} → Step s t → Holds max s → Holds max t
Step-Holds {max} (enters index s d h) v =
    enter-Accounted max (length s.entered) index s.daemon d h v
Step-Holds {max} (registers before after index now c s h f) v =
    let fewer : length s.entered ≡ suc (length (before ++ after)) =
      omega
        (arith, ap length h, length-append before (index ∷ after), length-append before after) in
    launch-Accounted max (length (before ++ after)) now c s.daemon f
      (subst (λ k. Accounted max k s.daemon) fewer v)
Step-Holds {max} (finishes before after index s d h e) v =
    finish-Accounted max (length s.entered) index s.daemon d e v
Step-Holds {max} (exits pid s) v = exit-Accounted max (length s.entered) pid s.daemon v

Reach-Holds : {max : ℕ} {s t : Calls} → Reach s t → Holds max s → Holds max t
Reach-Holds here v = v
Reach-Holds (later r st) v = Step-Holds st (Reach-Holds r v)

-- From the daemon's start, however the calls of Do, the Runtimes that they register, their returns
-- and the exits of processes interleave, and whatever index each invoker has read: no handler
-- panics, the Runtime API counts the instances right, and they and the calls that are to start one
-- are together never more than MAX_CONCURRENCY. An exit while a Do runs can overwrite its Once, so
-- that its return is fatal; the theorem speaks of the daemon up to then.
pub instances-le-max :
    (max idle : ℕ) (e : ExtensionsApi) (s : Calls)
    → Reach (record { daemon = new_daemon max idle e; entered = []; registered = [] }) s
    → (r : RuntimeApi) × (s.daemon.client ≡ some r)
      × (r.lambda_count ≡ length s.daemon.processes)
      × (length s.daemon.processes + length s.entered ≤ max)
instances-le-max max idle e s path =
    let v = Reach-Holds path (new_daemon-Accounted max idle e) in
    (v.rapi, v.alive, v.counted, omega (arith, v.fits, v.sized, fired-length v.rapi.initialisers))
