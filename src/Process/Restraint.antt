-- ===== src/Process/Restraint.antt =====
-- What HandleSignals does not do: leave its loop or send SIGKILL before it has reason to.
use lambda_runtime_api_daemo.Base.{
  ℕ, ◌≡◌, Bool, true, false, List, [], ◌∷◌, arith, nat_eq, if-intro, All, bytes_eq,
}
use lambda_runtime_api_daemo.Process.Manager.{sigkill, Kill, to_group, to_process}
use lambda_runtime_api_daemo.Process.Signals.{
  Reaped, exited, failed, Event, sigchld, termination, deadline, Loop, reap_one, reap, step,
  handle_signals,
}
use lambda_runtime_api_daemo.Process.Killed.{AllKilled}

abbrev pub is_sigkill : Kill → Bool
is_sigkill (to_group g sigkill) = true
is_sigkill (to_process p sigkill) = true
is_sigkill _ = false

abbrev pub Gentle : List Kill → Type 0
Gentle = All (λ k. is_sigkill k ≡ false)

abbrev pub is_termination : Event → Bool
is_termination termination = true
is_termination _ = false

abbrev pub has_deadline : List Event → Bool
has_deadline [] = false
has_deadline (deadline ∷ evs) = true
has_deadline (_ ∷ evs) = has_deadline evs

-- SIGKILL has been sent to all that is managed where `kill_sent` says so and where the loop has been
-- left, and to none before.
record Restrained {S : Type 0} (l : Loop S) : Type 0 where
  reason : l.stopped ≡ true → AllKilled l.pm
  killed : l.kill_sent ≡ true → AllKilled l.pm
  gentle : l.kill_sent ≡ false → Gentle l.pm.kills

abbrev pub IsQuiet : {S : Type 0} → Loop S → Type 0
IsQuiet l = (l.stopped ≡ false) × (l.armed ≡ false)

module _ {S : Type 0} (on_unregister : ℕ → ℕ → S → S) where
  abbrev Unsent : Loop S → Type 0
  Unsent l = l.kill_sent ≡ false

  reap-IsQuiet : (rs : List Reaped) (l : Loop S) → IsQuiet l → IsQuiet (reap on_unregister rs l)
  unfolding reap reap_one
  reap-IsQuiet [] l q = q
  reap-IsQuiet (failed ∷ rs) l q = reap-IsQuiet rs l q
  reap-IsQuiet (exited pid ∷ rs) l q =
      let l' = reap_one on_unregister pid l in
      let still : IsQuiet l' = (ground (arith, q), q.1) in
      if-intro IsQuiet l'.stopped l' (reap on_unregister rs l') still (reap-IsQuiet rs l' still)

  step-IsQuiet :
      (ev : Event) (l : Loop S)
      → is_termination ev ≡ false
      → IsQuiet l
      → IsQuiet (step on_unregister ev l)
  unfolding step
  step-IsQuiet (sigchld rs) l t q = if-intro IsQuiet l.stopped l _ q (reap-IsQuiet rs l q)
  step-IsQuiet termination l t q = cc
  step-IsQuiet deadline l t q = ground (arith, q)

  -- From a state in which the loop is running and no deadline is armed, without a termination
  -- signal the loop is not left and no deadline is armed.
  handle_signals-stays :
      (evs : List Event) (l : Loop S)
      → IsQuiet l
      → All (λ ev. is_termination ev ≡ false) evs
      → IsQuiet (handle_signals on_unregister evs l)
  unfolding handle_signals
  handle_signals-stays [] l q t = q
  handle_signals-stays (ev ∷ evs) l q t =
      handle_signals-stays evs (step on_unregister ev l) (step-IsQuiet ev l t.0 q) t.1
