-- ===== src/Process/Proc.antt =====
-- pkg/process/proc.go: GetPids and FindPidFromInode, and FindPidFromAddress of
-- pkg/process/process-manager.go, over what the process file system answers. A read that fails is
-- `none`.
use mathlib.Core.List.{reverse}
use lambda_runtime_api_daemo.Base.{
  ℕ, Bool, true, false, Option, none, some, List, [], ◌∷◌, ◌++◌, if◌then◌else◌, ◌==◌, nat_eq, Bytes,
  codes, bytes_eq, lookup, itoa, atoi,
}
use lambda_runtime_api_daemo.Process.Manager.{ProcessManager}

pub record ProcFs : Type 0 where
  pub proc_entries : Option (List Bytes)
  pub fd_entries : ℕ → Option (List Bytes)
  pub readlink : Bytes → Option Bytes
  pub getpgid : ℕ → Option ℕ

unfoldable pub first_such {ℓ} : {A : Type ℓ} → (A → Bool) → List A → Option A
first_such p [] = none
first_such p (x ∷ xs) = let rest = first_such p xs in if p x then some x else rest

-- The entries of /proc up to the first that is not a number, those that pass the filter.
unfoldable pub numbered : (ℕ → Bool) → List Bytes → List ℕ
unfolding atoi
numbered filter [] = []
numbered filter (e ∷ es) =
    let rest = numbered filter es in
    elim (atoi e) [ none ↦ [] | some pid ↦ if filter pid then pid ∷ rest else rest ]

unfoldable pub get_pids : ProcFs → (ℕ → Bool) → List ℕ
unfolding numbered
get_pids fs filter = elim fs.proc_entries [ none ↦ [] | some es ↦ numbered filter es ]

abbrev fd_dir : ℕ → Bytes
fd_dir pid = codes "/proc/" ++ (itoa pid ++ codes "/fd")

unfoldable pub is_socket : ProcFs → Bytes → ℕ → Bytes → Bool
is_socket fs inode pid name = elim (fs.readlink (fd_dir pid ++ (codes "/" ++ name))) [
  | none ↦ false
  | some target ↦ target == codes "socket:[" ++ (inode ++ codes "]")
]

-- Whether some entry of /proc/<PID>/fd, from the last to the first, is the socket.
unfoldable pub has_socket : ProcFs → Bytes → ℕ → Bool
unfolding first_such is_socket
has_socket fs inode pid = elim (fs.fd_entries pid) [
  | none ↦ false
  | some es ↦ elim (first_such (is_socket fs inode pid) (reverse es)) [
    | none ↦ false
    | some e ↦ true
  ]
]

unfoldable pub find_pid_from_inode : ProcFs → List ℕ → Bytes → ℕ
unfolding has_socket first_such
find_pid_from_inode fs pids inode = elim (first_such (has_socket fs inode) (reverse pids)) [
  | none ↦ 0
  | some pid ↦ pid
]

module _ {S : Type 0} (fs : ProcFs) (pm : ProcessManager S) where
  -- The filter: the pids whose process group is that of a managed process.
  unfoldable pub is_managed : ℕ → Bool
  is_managed pid = elim (fs.getpgid pid) [
    | none ↦ false
    | some pgid ↦ elim (lookup pgid pm.processes) [ none ↦ false | some mp ↦ true ]
  ]

  -- `inode` is what FindTCPInodeFromAddress gives for the address.
  unfoldable pub find_pid_from_address : Bytes → ℕ
  unfolding get_pids is_managed find_pid_from_inode
  find_pid_from_address inode = elim (get_pids fs is_managed) [
    | [] ↦ 0
    | pid ∷ pids ↦ find_pid_from_inode fs (pid ∷ pids) inode
  ]
