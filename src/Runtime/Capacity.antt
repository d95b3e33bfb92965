-- ===== src/Runtime/Capacity.antt =====
-- What the initialisers promise as long as no process exits and no other invoker comes between an
-- invoker's reading of its index and the return of its Do: an instance starts whenever there is room
-- for one.
use mathlib.Core.Path.{subst}
use lambda_runtime_api_daemo.Extensions.Api.{ExtensionsApi}
use lambda_runtime_api_daemo.Base.{
  ℕ, zero, suc, ◌≤◌, ◌<◌, ◌≡◌, refl, sym, ap, ◌∙◌, ◌⊎◌, inl, inr, none, some, arith, ltb,
  if◌then◌else◌, ltb→lt, Bool-cases, Option-cases, nat_eq, length, get_elem?, set, bytes_eq, lookup,
  delete, Distinct, delete-Distinct, insert-Distinct, length-delete,
}
use lambda_runtime_api_daemo.Process.Manager.{ManagedProcess, unregister}
use lambda_runtime_api_daemo.Runtime.Api.{
  new_runtime_api, RuntimeApi, untouched, over, init_index, register_lambda_runtime,
}
use lambda_runtime_api_daemo.Runtime.Spent.{
  spent, length-spent, spent-next, spent-last, set-spent-over, set-spent-untouched, replicate-spent,
}
use lambda_runtime_api_daemo.Runtime.Instances.{new_daemon, Daemon, Child, launch, fire, exit}
use lambda_runtime_api_daemo.Runtime.Firing.{fire-new, fire-over}
use lambda_runtime_api_daemo.Runtime.Census.{length-insert_new, on_unregister-alive, unregistered}

-- Init with nothing in between: the index is read, and Do on its initialiser returns.
unfoldable pub init : ℕ → Child → Daemon → Daemon
unfolding init_index fire
init now c d = elim d.client [
  | none ↦ d
  | some r ↦ elim (init_index r) [ none ↦ d | some index ↦ fire index now c d ]
]

-- The daemon with n instances running of at most m: the first n initialisers have been called.
pub record Packed (m n : ℕ) (d : Daemon) : Type 0 where
  pub rapi : RuntimeApi
  pub alive : d.client ≡ some rapi
  pub packed : rapi.initialisers ≡ spent n m
  pub counted : rapi.lambda_count ≡ n
  pub running : length d.processes ≡ n
  pub fits : n ≤ m
  pub distinct : Distinct d.processes

pub init-alive :
    (now : ℕ) (c : Child) (d : Daemon) (r : RuntimeApi) (i : ℕ)
    → d.client ≡ some r
    → init_index r ≡ some i
    → init now c d ≡ fire i now c d
unfolding init
init-alive now c d r i e f = ground arith

pub init_index-Packed :
    (m n : ℕ) (d : Daemon) (p : Packed (suc m) n d)
    → init_index p.rapi ≡ some (if ltb m n then m else n)
unfolding init_index
init_index-Packed m n d p = ground (arith, p.packed, p.counted, length-spent n (suc m))

-- With room for another instance, Init starts one.
init-room :
    (m n now : ℕ) (c : Child) (d : Daemon)
    → lookup c.pid d.processes ≡ none
    → n < suc m
    → Packed (suc m) n d
    → Packed (suc m) (suc n) (init now c d)
unfolding launch
init-room m n now c d f room p =
    let r' : RuntimeApi = record p.rapi { initialisers = set p.rapi.initialisers n over } in
    let index : init_index p.rapi ≡ some n = init_index-Packed m n d p ∙ ground arith in
    let free = ap (λ is. get_elem? is n) p.packed ∙ spent-next n (suc m) room in
    rw (init-alive now c d p.rapi n p.alive index, fire-new n now c d p.rapi p.alive free)
      (record {
        rapi = register_lambda_runtime now c.pid _ r';
        alive = refl;
        packed = ap (λ is. set is n over) p.packed ∙ set-spent-over n (suc m) room;
        counted = omega (arith, length-insert_new c.pid _ d.processes f, p.running);
        running = omega (arith, length-insert_new c.pid _ d.processes f, p.running);
        fits = omega (arith, room);
        distinct = insert-Distinct c.pid _ d.processes p.distinct;
      })

-- Without room, Init does nothing.
pub init-full : (m now : ℕ) (c : Child) (d : Daemon) → Packed (suc m) (suc m) d → init now c d ≡ d
unfolding launch
init-full m now c d p =
    let index : init_index p.rapi ≡ some m = init_index-Packed m (suc m) d p ∙ ground arith in
    let done_last = ap (λ is. get_elem? is m) p.packed ∙ spent-last m in
    rw (init-alive now c d p.rapi m p.alive index, fire-over m now c d p.rapi p.alive done_last)

-- The exit of an instance frees the initialiser that was called last.
exit-found :
    (m n pid : ℕ) (d : Daemon) (mp : ManagedProcess)
    → lookup pid d.processes ≡ some mp
    → Packed m (suc n) d
    → Packed m n (exit pid d)
unfolding exit
exit-found m n pid d mp e p =
    let k = length (delete pid d.processes) in
    let shorter = length-delete pid mp d.processes p.distinct e in
    let same : k ≡ n = omega (arith, shorter, p.running) in
    rw (e, exit, unregister)
      (record {
        rapi = unregistered pid k p.rapi;
        alive =
            on_unregister-alive pid k d.client p.rapi p.alive
              (ground (arith, p.packed, same, p.fits, length-spent (suc n) m));
        packed =
            ap (λ i. set p.rapi.initialisers i untouched) same
            ∙ ap (λ is. set is n untouched) p.packed
            ∙ set-spent-untouched n m p.fits;
        counted = same;
        running = same;
        fits = omega (arith, p.fits);
        distinct = delete-Distinct pid d.processes p.distinct;
      })

pub exit-missing : (pid : ℕ) (d : Daemon) → lookup pid d.processes ≡ none → exit pid d ≡ d
unfolding exit
exit-missing pid d e = rw (e, exit, unregister)

pub data Step : Daemon → Daemon → Type 0 where
  inits :
      (now : ℕ) (c : Child) (d : Daemon) → lookup c.pid d.processes ≡ none → Step d (init now c d)
  exits : (pid : ℕ) (d : Daemon) → Step d (exit pid d)

pub data Reach (d : Daemon) : Daemon → Type 0 where
  here : Reach d d
  later : {s t : Daemon} → Reach d s → Step s t → Reach d t

abbrev pub SomePacked : ℕ → Daemon → Type 0
SomePacked m d = (n : ℕ) × Packed m n d

pub init-SomePacked :
    (m now : ℕ) (c : Child) (d : Daemon)
    → lookup c.pid d.processes ≡ none
    → SomePacked (suc m) d
    → SomePacked (suc m) (init now c d)
init-SomePacked m now c d f (n, p) = elim (Bool-cases (ltb n (suc m))) [
  | inl room ↦ (suc n, init-room m n now c d f (ltb→lt n (suc m) room) p)
  | inr full ↦
      let same : n ≡ suc m = ground (arith, p.fits) in
      (
        n,
        subst (Packed (suc m) n)
            (sym (init-full m now c d (subst (λ k. Packed (suc m) k d) same p))) p,
      )
]

pub exit-SomePacked : (m pid : ℕ) (d : Daemon) → SomePacked m d → SomePacked m (exit pid d)
exit-SomePacked m pid d (n, p) = elim (Option-cases (lookup pid d.processes)) [
  | inl e ↦ (n, subst (Packed m n) (sym (exit-missing pid d e)) p)
  | inr (mp, e) ↦ exit_counted n p (length-delete pid mp d.processes p.distinct e) mp e
]
  where
    exit_counted :
        (k : ℕ)
        → Packed m k d
        → length d.processes ≡ suc (length (delete pid d.processes))
        → (mp : ManagedProcess) → lookup pid d.processes ≡ some mp
        → SomePacked m (exit pid d)
    exit_counted zero q l mp e = absurd (omega (arith, l, q.running))
    exit_counted (suc k) q l mp e = (k, exit-found m k pid d mp e q)

Step-SomePacked : {m : ℕ} {s t : Daemon} → Step s t → SomePacked (suc m) s → SomePacked (suc m) t
Step-SomePacked {m} (inits now c d f) v = init-SomePacked m now c d f v
Step-SomePacked {m} (exits pid d) v = exit-SomePacked (suc m) pid d v

Reach-SomePacked : {m : ℕ} {s t : Daemon} → Reach s t → SomePacked (suc m) s → SomePacked (suc m) t
Reach-SomePacked here v = v
Reach-SomePacked (later r st) v = Step-SomePacked st (Reach-SomePacked r v)

pub new_daemon-Packed : (m idle : ℕ) (e : ExtensionsApi) → Packed m 0 (new_daemon m idle e)
unfolding new_daemon
new_daemon-Packed m idle e = record {
  rapi = new_runtime_api m idle e;
  alive = refl;
  packed = replicate-spent m;
  counted = refl;
  running = refl;
  fits = omega arith;
  distinct = tt;
}

-- From the daemon's start with a MAX_CONCURRENCY of at least one, over any sequence of invocations
-- and exits in which nothing else happens between an invoker's reading of its index and the return
-- of its Do: either fewer than MAX_CONCURRENCY instances run and an invocation starts one more, or
-- as many run and it changes nothing.
pub init-capacity :
    (m idle now : ℕ) (e : ExtensionsApi) (c : Child) (d : Daemon)
    → Reach (new_daemon (suc m) idle e) d
    → lookup c.pid d.processes ≡ none
    → ((length d.processes < suc m) × (length (init now c d).processes ≡ suc (length d.processes)))
      ⊎ ((length d.processes ≡ suc m) × (init now c d ≡ d))
init-capacity m idle now e c d path f =
    let (n, p) = Reach-SomePacked path (0, new_daemon-Packed (suc m) idle e) in
    elim (Bool-cases (ltb n (suc m))) [
      | inl room ↦
          let lt = ltb→lt n (suc m) room in
          inl (
            omega (arith, p.running, lt),
            omega (arith, (init-room m n now c d f lt p).running, p.running),
          )
      | inr full ↦
          let same : n ≡ suc m = ground (arith, p.fits) in
          inr (p.running ∙ same, init-full m now c d (subst (λ k. Packed (suc m) k d) same p))
    ]
