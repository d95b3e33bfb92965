-- ===== src/Process/Signals.antt =====
-- pkg/process/process-manager.go: HandleSignals. The select is driven by a list of events: a SIGCHLD
-- with what each Wait4 of its loop returns, a termination signal, or the deadline. A deadline that
-- has not been set never fires.
use lambda_runtime_api_daemo.Base.{
  ℕ, Bool, true, false, ◌&&◌, List, [], ◌∷◌, if◌then◌else◌, nat_eq, bytes_eq,
}
use lambda_runtime_api_daemo.Process.Manager.{ProcessManager, terminate_all, kill_all, unregister}

-- A call of Wait4 before the one that says that no child is left to reap.
pub data Reaped : Type 0 where
  exited : ℕ → Reaped
  failed : Reaped

pub data Event : Type 0 where
  sigchld : List Reaped → Event
  termination : Event
  deadline : Event

-- `armed` is `timeoutCh != nil`; `stopped` says that the loop has been left.
pub record Loop (S : Type 0) : Type 0 where
  pub pm : ProcessManager S
  pub armed : Bool
  pub kill_sent : Bool
  pub stopped : Bool

abbrev pub no_processes {ℓ} : {A : Type ℓ} → List A → Bool
no_processes [] = true
no_processes (x ∷ xs) = false

abbrev pub start_loop : {S : Type 0} → ProcessManager S → Loop S
start_loop pm = record { pm = pm; armed = false; kill_sent = false; stopped = false }

module _ {S : Type 0} where
  unfoldable pub on_termination : Loop S → Loop S
  on_termination l =
      if no_processes l.pm.processes
      then record l { stopped = true }
      else record l { pm = terminate_all l.pm; armed = true }

  unfoldable pub on_deadline : Loop S → Loop S
  on_deadline l =
      if l.kill_sent
      then record l { stopped = true }
      else record l { pm = kill_all l.pm; kill_sent = true; armed = true }

module _ {S : Type 0} (on_unregister : ℕ → ℕ → S → S) where
  -- Unregister, then leave if nothing is left to manage and termination has been signalled.
  unfoldable pub reap_one : ℕ → Loop S → Loop S
  reap_one pid l =
      let pm' = unregister on_unregister pid l.pm in
      record l { pm = pm'; stopped = no_processes pm'.processes && l.armed }

  unfoldable pub reap : List Reaped → Loop S → Loop S
  unfolding reap_one
  reap [] l = l
  reap (failed ∷ rs) l = reap rs l
  reap (exited pid ∷ rs) l =
      let l' = reap_one pid l in let rest = reap rs l' in if l'.stopped then l' else rest

  running_step : Event → Loop S → Loop S
  unfolding reap on_termination on_deadline
  running_step (sigchld rs) l = reap rs l
  running_step termination l = on_termination l
  running_step deadline l = if l.armed then on_deadline l else l

  unfoldable pub step : Event → Loop S → Loop S
  unfolding running_step
  step ev l = if l.stopped then l else running_step ev l

  unfoldable pub handle_signals : List Event → Loop S → Loop S
  unfolding step
  handle_signals [] l = l
  handle_signals (ev ∷ evs) l = handle_signals evs (step ev l)
