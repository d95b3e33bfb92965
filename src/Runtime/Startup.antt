-- ===== src/Runtime/Startup.antt =====
-- pkg/invokeapi/rapiinvoker.go: RAPIInvoker.init up to its wait for the External Extensions. The
-- start of the Runtime gives a process, by what exec says of it; `exec` says which Extension
-- starts, with the identifier that Add generates for it. The wait is registration_complete of the
-- process group's slice, and after it the Runtime continues. A failed start of the Runtime is not
-- covered.
use lambda_runtime_api_daemo.Base.{
  ℕ, Option, none, some, List, [], ◌∷◌, nat_eq, get_last?, Bytes, bytes_eq, split_on,
}
use lambda_runtime_api_daemo.Extensions.Api.{ExtensionsApi, add}
use lambda_runtime_api_daemo.Process.Manager.{ManagedProcess, start, stop}
use lambda_runtime_api_daemo.Runtime.Api.{RuntimeApi}
use lambda_runtime_api_daemo.Runtime.Instances.{Daemon, Child, on_register}

abbrev or_empty : Option Bytes → Bytes
or_empty none = []
or_empty (some s) = s

-- path.Base of a path that does not end in a slash.
unfoldable pub base_name : Bytes → Bytes
unfolding split_on
base_name path = or_empty (get_last? (split_on b'/' path))

abbrev pub add_started : ℕ → Bytes → Option Bytes → ExtensionsApi → ExtensionsApi
add_started pgid path none e = e
add_started pgid path (some uuid) e = add (base_name path) pgid uuid e

-- The loop over the paths: an Extension that does not start is logged and left out.
unfoldable pub add_all : ℕ → (Bytes → Option Bytes) → List Bytes → ExtensionsApi → ExtensionsApi
add_all pgid exec [] e = e
add_all pgid exec (p ∷ ps) e = add_all pgid exec ps (add_started pgid p (exec p) e)

abbrev pub with_extensions :
    ManagedProcess → (Bytes → Option Bytes) → List Bytes → RuntimeApi → Daemon → Daemon
with_extensions mp exec [] r d = d
with_extensions mp exec (p ∷ ps) r d = record (stop mp d) {
  client = some (record r { extensions = add_all mp.pid exec (p ∷ ps) r.extensions });
}

-- With paths of External Extensions the Runtime is stopped while they start.
unfoldable pub start_extensions : (Bytes → Option Bytes) → ManagedProcess × Daemon → Daemon
unfolding add_all stop
start_extensions exec (mp, d) = elim d.client [
  | none ↦ d
  | some r ↦ with_extensions mp exec r.extensions.extension_paths r d
]

unfoldable pub start_runtime : ℕ → Child → (Bytes → Option Bytes) → Daemon → Daemon
unfolding start start_extensions on_register
start_runtime now c exec d = start_extensions exec (start (on_register now) c.pid 0 c.own_pgid d)
