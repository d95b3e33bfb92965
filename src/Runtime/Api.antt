-- ===== src/Runtime/Api.antt =====
-- pkg/runtimeapi/runtimeapi.go: the RuntimeAPI struct and its methods, but for the handlers. The
-- read lock and write lock make each method one step. `channels` holds the value that waits in each
-- Response channel, which has room for one; `init_error` and `shutdown` are channels with room for
-- one as well. Times are nanoseconds. `none` is a Go panic: an index out of range.
use lambda_runtime_api_daemo.Base.{
  ℕ, zero, suc, ◌-◌, Bool, false, Option, none, some, List, [], ◌∷◌, ltb, nat_beq, if◌then◌else◌,
  nat_eq, length, get_elem?, set, Bytes, bytes_eq, GoMap, delete,
}
use lambda_runtime_api_daemo.Extensions.Api.{
  ExtensionsApi, register_lambda_runtime as register_extensions,
  unregister_lambda_runtime as unregister_extensions,
}

-- A sync.Once: not called, with its lock held by a call that runs its argument, or done.
pub data Once : Type 0 where
  untouched underway over : Once

pub record RuntimeApi : Type 0 where
  pub extensions : ExtensionsApi
  pub init_error : Option Bytes
  pub pending_requests : GoMap Bytes ℕ
  pub timestamp : ℕ
  pub shutdown : Bool
  pub initialisers : List Once
  pub idle_timeout : ℕ
  pub lambda_count : ℕ
  pub channels : GoMap ℕ Bytes

abbrev pub replicate {ℓ} : {A : Type ℓ} → ℕ → A → List A
replicate zero a = []
replicate (suc n) a = a ∷ replicate n a

-- NewRuntimeAPIServer: the struct that it makes, from MAX_CONCURRENCY and the idle timeout.
unfoldable pub new_runtime_api : ℕ → ℕ → ExtensionsApi → RuntimeApi
new_runtime_api max_concurrency idle_timeout extensions = record {
  extensions = extensions;
  init_error = none;
  pending_requests = [];
  timestamp = 0;
  shutdown = false;
  initialisers = replicate max_concurrency untouched;
  idle_timeout = idle_timeout;
  lambda_count = 0;
  channels = [];
}

-- Init: the index of the initialiser, the count of instances but at most the last one. The bound
-- is -1 where there is no initialiser, and then the access panics.
unfoldable pub init_index : RuntimeApi → Option ℕ
init_index r =
    let bound = length r.initialisers - 1 in
    if nat_beq (length r.initialisers) 0
    then none
    else some (if ltb bound r.lambda_count then bound else r.lambda_count)

-- once.Do on the initialiser of an index, up to the call of its argument; `none` where it does not
-- call it, since it has been called or since another call holds the lock and will have called it.
unfoldable pub do_begin : ℕ → RuntimeApi → Option RuntimeApi
do_begin index r = elim (get_elem? r.initialisers index) [
  | none ↦ none
  | some untouched ↦ some (record r { initialisers = set r.initialisers index underway })
  | some underway ↦ none
  | some over ↦ none
]

-- once.Do from the return of its argument on: it marks the Once as done and unlocks it. `none` is
-- the fatal error of an unlock of a mutex that is not locked, as when the Once has been overwritten.
unfoldable pub do_end : ℕ → RuntimeApi → Option RuntimeApi
do_end index r = elim (get_elem? r.initialisers index) [
  | none ↦ none
  | some untouched ↦ none
  | some underway ↦ some (record r { initialisers = set r.initialisers index over })
  | some over ↦ none
]

unfoldable pub register_lambda_runtime : ℕ → ℕ → ℕ → RuntimeApi → RuntimeApi
register_lambda_runtime now pid nproc r = record r {
  extensions = register_extensions pid nproc r.extensions;
  lambda_count = nproc;
  timestamp = now;
}

unfoldable pub unregister_lambda_runtime : ℕ → ℕ → RuntimeApi → Option RuntimeApi
unregister_lambda_runtime pid nproc r =
    if ltb nproc (length r.initialisers)
    then some (record r {
      extensions = unregister_extensions pid nproc r.extensions;
      initialisers = set r.initialisers nproc untouched;
      lambda_count = nproc;
    })
    else none

unfoldable pub delete_request : Bytes → RuntimeApi → RuntimeApi
delete_request id r = record r { pending_requests = delete id r.pending_requests }
