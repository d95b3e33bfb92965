-- ===== src/Process/Manager.antt =====
-- pkg/process/process-manager.go: ProcessManager and ManagedProcess. The register and unregister
-- handlers act on a state of their owner's, `client`. A call of kill(2) is an entry of `kills`,
-- oldest first; its pid is negative in the program, so the entry names the process group. The lock
-- makes each operation one step.
use lambda_runtime_api_daemo.Base.{
  ℕ, Option, none, some, List, [], ◌∷◌, ◌++◌, if◌then◌else◌, ◌==◌, nat_eq, length, bytes_eq, GoMap,
  lookup, delete, insert,
}

pub data Signal : Type 0 where
  sigterm sigkill sigstop sigcont : Signal

pub record ManagedProcess : Type 0 where
  pub pid : ℕ
  pub pgid : ℕ

pub data Kill : Type 0 where
  to_group : ℕ → Signal → Kill
  to_process : ℕ → Signal → Kill

pub record ProcessManager (S : Type 0) : Type 0 where
  pub processes : GoMap ℕ ManagedProcess
  pub kills : List Kill
  pub client : S

-- NewProcessManager. Its handlers are the section's parameters below.
abbrev pub new_process_manager : {S : Type 0} → S → ProcessManager S
new_process_manager s = record { processes = []; kills = []; client = s }

-- The values of the map, in the order of its entries.
unfoldable pub values : GoMap ℕ ManagedProcess → List ManagedProcess
values [] = []
values ((pid, mp) ∷ m) = mp ∷ values m

module _ {S : Type 0} where
  -- kill(2) of a process group, as Terminate and Kill call it.
  unfoldable pub signal_group : ManagedProcess → Signal → ProcessManager S → ProcessManager S
  signal_group mp s pm = record pm { kills = pm.kills ++ to_group mp.pgid s ∷ [] }

  unfoldable pub terminate : ManagedProcess → ProcessManager S → ProcessManager S
  unfolding signal_group
  terminate mp = signal_group mp sigterm

  unfoldable pub kill : ManagedProcess → ProcessManager S → ProcessManager S
  unfolding signal_group
  kill mp = signal_group mp sigkill

  -- Stop and Continue signal the process alone.
  unfoldable pub stop : ManagedProcess → ProcessManager S → ProcessManager S
  stop mp pm = record pm { kills = pm.kills ++ to_process mp.pid sigstop ∷ [] }

  unfoldable pub continue : ManagedProcess → ProcessManager S → ProcessManager S
  continue mp pm = record pm { kills = pm.kills ++ to_process mp.pid sigcont ∷ [] }

  unfoldable pub size : ProcessManager S → ℕ
  size pm = length pm.processes

  unfoldable pub signal_each : List ManagedProcess → Signal → ProcessManager S → ProcessManager S
  unfolding signal_group
  signal_each [] s pm = pm
  signal_each (mp ∷ mps) s pm = signal_each mps s (signal_group mp s pm)

  unfoldable pub terminate_all : ProcessManager S → ProcessManager S
  unfolding signal_each values
  terminate_all pm = signal_each (values pm.processes) sigterm pm

  unfoldable pub kill_all : ProcessManager S → ProcessManager S
  unfolding signal_each values
  kill_all pm = signal_each (values pm.processes) sigkill pm

module _ {S : Type 0} (on_unregister : ℕ → ℕ → S → S) where
  unregister_found : ℕ → ManagedProcess → ProcessManager S → ProcessManager S
  unfolding terminate
  unregister_found pid mp pm =
      let ps = delete pid pm.processes in
      record (terminate mp pm) { processes = ps; client = on_unregister pid (length ps) pm.client }

  unfoldable pub unregister : ℕ → ProcessManager S → ProcessManager S
  unfolding unregister_found
  unregister pid pm = elim (lookup pid pm.processes) [
    | none ↦ pm
    | some mp ↦ unregister_found pid mp pm
  ]

module _ {S : Type 0} (on_register : ℕ → ℕ → S → S) where
  unfoldable pub register : ManagedProcess → ProcessManager S → ProcessManager S
  register mp pm =
      let ps = insert mp.pid mp pm.processes in
      record pm { processes = ps; client = on_register mp.pid (length ps) pm.client }

  -- The part of Start that follows a successful exec: `own_pgid` is what Getpgid says of the new
  -- process, `none` if it fails.
  unfoldable pub start : ℕ → ℕ → Option ℕ → ProcessManager S → ManagedProcess × ProcessManager S
  unfolding register
  start pid pgid own_pgid pm =
      let group = if pgid == 0 then elim own_pgid [ none ↦ pid | some g ↦ g ] else pgid in
      let mp : ManagedProcess = record { pid = pid; pgid = group } in (mp, register mp pm)
