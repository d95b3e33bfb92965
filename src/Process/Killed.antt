-- ===== src/Process/Killed.antt =====
-- The log of signals, and the processes whose group it has a SIGKILL for.
use mathlib.Core.Path.{subst}
use mathlib.Core.List.{append_assoc}
use lambda_runtime_api_daemo.Base.{
  ℕ, ◌≡◌, refl, Bool, true, false, ◌||◌, List, [], ◌∷◌, ◌++◌, map, arith, if◌then◌else◌, ◌==◌,
  nat_eq, beq_refl, All, bytes_eq, GoMap, delete, before,
}
use lambda_runtime_api_daemo.Process.Manager.{
  ProcessManager, ManagedProcess, sigterm, sigstop, sigcont, sigkill, values, Kill, to_group,
  to_process,
}
use lambda_runtime_api_daemo.Process.Signals.{no_processes}

-- Whether the log has a SIGKILL for a process group.
abbrev pub was_killed : ℕ → List Kill → Bool
was_killed g [] = false
was_killed g (to_group h sigkill ∷ ks) = h == g || was_killed g ks
was_killed g (_ ∷ ks) = was_killed g ks

-- The log has a SIGKILL for the group of each process that is managed.
abbrev pub AllKilled : {S : Type 0} → ProcessManager S → Type 0
AllKilled pm = All (λ mp. was_killed mp.pgid pm.kills ≡ true) (values pm.processes)

was_killed-append :
    (g : ℕ) (ks more : List Kill)
    → was_killed g (ks ++ more) ≡ (was_killed g ks || was_killed g more)
was_killed-append g [] more = refl
was_killed-append g (to_group h sigkill ∷ ks) more = ground (arith, was_killed-append g ks more)
was_killed-append g (to_group h sigterm ∷ ks) more = was_killed-append g ks more
was_killed-append g (to_group h sigstop ∷ ks) more = was_killed-append g ks more
was_killed-append g (to_group h sigcont ∷ ks) more = was_killed-append g ks more
was_killed-append g (to_process p s ∷ ks) more = was_killed-append g ks more

abbrev pub InLog : List Kill → List ManagedProcess → Type 0
InLog ks = All (λ mp. was_killed mp.pgid ks ≡ true)

pub still_killed :
    (ks more : List Kill) (mps : List ManagedProcess) → InLog ks mps → InLog (ks ++ more) mps
still_killed ks more [] h = tt
still_killed ks more (mp ∷ mps) (k, h) =
    (ground (arith, was_killed-append mp.pgid ks more, k), still_killed ks more mps h)

pub all_sent :
    (before : List Kill) (mps : List ManagedProcess)
    → InLog (before ++ map (λ mp. to_group mp.pgid sigkill) mps) mps
all_sent before [] = tt
all_sent before (mp ∷ mps) =
    let kill = to_group mp.pgid sigkill in
    let more = map (λ mp. to_group mp.pgid sigkill) mps in
    (
      ground (arith, was_killed-append mp.pgid before (kill ∷ more), beq_refl mp.pgid),
      subst (λ ks. InLog ks mps) (append_assoc before (kill ∷ []) more)
          (all_sent (before ++ kill ∷ []) mps),
    )

pub values-delete :
    (ks : List Kill) (pid : ℕ) (m : GoMap ℕ ManagedProcess)
    → InLog ks (values m)
    → InLog ks (values (delete pid m))
unfolding values delete
values-delete ks pid [] h = tt
values-delete ks pid ((p, mp) ∷ m) (k, h) =
    if_values (p == pid) ks mp (delete pid m) k (values-delete ks pid m h)
  where
    if_values :
        (b : Bool) (ks : List Kill) (mp : ManagedProcess) (m : GoMap ℕ ManagedProcess)
        → was_killed mp.pgid ks ≡ true
        → InLog ks (values m)
        → InLog ks (values (if b then m else (p, mp) ∷ m))
    if_values true ks mp m k h = h
    if_values false ks mp m k h = (k, h)

pub none_managed :
    (m : GoMap ℕ ManagedProcess) (ks : List Kill) → no_processes m ≡ true → InLog ks (values m)
unfolding values
none_managed [] ks h = tt
none_managed (x ∷ m) ks h = absurd (ground arith)
