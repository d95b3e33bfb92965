-- ===== src/Process/Shutdown.antt =====
-- HandleSignals as a shutdown: it ends, and not before it has reason to.
use mathlib.Core.List.{append-nil, append_assoc}
use lambda_runtime_api_daemo.Base.{
  ℕ, suc, ◌+◌, ◌-◌, ◌≤◌, ◌≡◌, refl, sym, ◌∙◌, ◌⊎◌, inl, inr, true, List, [], ◌∷◌, ◌++◌, map, arith,
  if◌then◌else◌, Bool-cases, nat_eq, bytes_eq,
}
use lambda_runtime_api_daemo.Process.Manager.{
  ProcessManager, ManagedProcess, Signal, signal_each, signal_group, to_group,
}
use lambda_runtime_api_daemo.Process.Signals.{
  Reaped, exited, failed, Event, sigchld, termination, deadline, Loop, no_processes, reap_one, reap,
  on_termination, on_deadline, step, handle_signals,
}

module _ {S : Type 0} where
  -- One signal to each process's group, in the map's order.
  pub kills-signal_each :
      (mps : List ManagedProcess) (s : Signal) (pm : ProcessManager S)
      → ((signal_each mps s pm).kills ≡ pm.kills ++ map (λ mp. to_group mp.pgid s) mps)
        × ((signal_each mps s pm).processes ≡ pm.processes)
        × ((signal_each mps s pm).client ≡ pm.client)
  unfolding signal_each
  kills-signal_each [] s pm = (sym (append-nil pm.kills), refl, refl)
  kills-signal_each (mp ∷ mps) s pm =
      let ih = kills-signal_each mps s (signal_group mp s pm) in
      (
        unfold signal_group in ih.0 ∙ append_assoc pm.kills (to_group mp.pgid s ∷ []) _,
        unfold signal_group in ih.1,
        unfold signal_group in ih.2,
      )

abbrev pub deadlines : List Event → ℕ
deadlines [] = 0
deadlines (deadline ∷ evs) = suc (deadlines evs)
deadlines (sigchld rs ∷ evs) = deadlines evs
deadlines (termination ∷ evs) = deadlines evs

-- The deadlines that still have to fire until the loop is left.
abbrev waits : {S : Type 0} → Loop S → ℕ
waits l = if l.stopped then 0 else if l.kill_sent then 1 else 2

waits-le : {S : Type 0} (l : Loop S) → waits l ≤ 2
waits-le l = ground arith

no_waits : {S : Type 0} (l : Loop S) → waits l ≤ 0 → l.stopped ≡ true
no_waits l h = ground arith

deadlines-cons :
    (ev : Event) (evs : List Event) → deadlines (ev ∷ evs) ≡ deadlines (ev ∷ []) + deadlines evs
deadlines-cons (sigchld rs) evs = omega arith
deadlines-cons termination evs = omega arith
deadlines-cons deadline evs = omega arith

module _ {S : Type 0} (on_unregister : ℕ → ℕ → S → S) where
  reap-flags :
      (rs : List Reaped) (l : Loop S)
      → ((reap on_unregister rs l).armed ≡ l.armed)
        × ((reap on_unregister rs l).kill_sent ≡ l.kill_sent)
  unfolding reap
  reap-flags [] l = (refl, refl)
  reap-flags (failed ∷ rs) l = reap-flags rs l
  reap-flags (exited pid ∷ rs) l = ground (arith, reap-flags rs (reap_one on_unregister pid l))

  stopped-step : (ev : Event) (l : Loop S) → l.stopped ≡ true → step on_unregister ev l ≡ l
  unfolding step
  stopped-step ev l h = ground arith

  stopped-handle_signals :
      (evs : List Event) (l : Loop S) → l.stopped ≡ true → handle_signals on_unregister evs l ≡ l
  unfolding handle_signals
  stopped-handle_signals [] l h = refl
  stopped-handle_signals (ev ∷ evs) l h = rw (stopped-step ev l h) (stopped-handle_signals evs l h)

  -- Once the deadline is armed it stays armed, and each event leaves no more deadlines to wait for.
  armed-step :
      (ev : Event) (l : Loop S)
      → l.armed ≡ true
      → ((step on_unregister ev l).armed ≡ true)
        × (waits (step on_unregister ev l) ≤ waits l - deadlines (ev ∷ []))
  unfolding step on_termination on_deadline
  armed-step (sigchld rs) l h = ground (arith, reap-flags rs l)
  armed-step termination l h = ground arith
  armed-step deadline l h = ground arith

  waits-handle_signals :
      (evs : List Event) (l : Loop S)
      → l.armed ≡ true
      → waits (handle_signals on_unregister evs l) ≤ waits l - deadlines evs
  unfolding handle_signals
  waits-handle_signals [] l h = omega arith
  waits-handle_signals (ev ∷ evs) l h =
      let (armed, fewer) = armed-step ev l h in
      let rest = waits-handle_signals evs (step on_unregister ev l) armed in
      omega (arith, deadlines-cons ev evs, fewer, rest)

  termination-step :
      (l : Loop S)
      → ((step on_unregister termination l).armed ≡ true)
        ⊎ ((step on_unregister termination l).stopped ≡ true)
  unfolding step on_termination
  termination-step l = elim (Bool-cases l.stopped) [
    | inl s ↦ inr (ground arith)
    | inr r ↦ elim (Bool-cases (no_processes l.pm.processes)) [
      | inl none' ↦ inr (ground arith)
      | inr some' ↦ inl (ground arith)
    ]
  ]

  -- From any state of the loop: after a termination signal, whatever events follow it, the loop has
  -- been left once two deadlines have fired among them, with children left unreaped or not.
  pub handle_signals-stops :
      (evs : List Event) (l : Loop S)
      → 2 ≤ deadlines evs
      → (handle_signals on_unregister (termination ∷ evs) l).stopped ≡ true
  unfolding handle_signals
  handle_signals-stops evs l two = elim (termination-step l) [
    | inl armed ↦ no_waits (handle_signals on_unregister evs (step on_unregister termination l)) (
        omega (
          arith,
          waits-handle_signals evs (step on_unregister termination l) armed,
          waits-le (step on_unregister termination l),
        ))
    | inr out ↦ rw (stopped-handle_signals evs (step on_unregister termination l) out) out
  ]
