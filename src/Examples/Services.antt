-- ===== src/Examples/Services.antt =====
-- The services' goroutines and a starting Runtime at concrete inputs.
use lambda_runtime_api_daemo.Base.{
  ◌≡◌, refl, true, false, Option, none, some, List, [], ◌∷◌, arith, if◌then◌else◌, ◌==◌, nat_eq,
  Bytes, codes, bytes_beq, bytes_eq, is_empty,
}
use lambda_runtime_api_daemo.Messaging.Message.{zero_message}
use lambda_runtime_api_daemo.Invoke.Rpc.{Incoming, consumed}
use lambda_runtime_api_daemo.Invoke.Service.{
  Stage, consumes, Event, arrives, close_notified, server_stages, invoker_stages, incoming_message,
  rpc_server, rpc_invoker,
}
use lambda_runtime_api_daemo.Invoke.Release.{Completes, services-Completes}
use lambda_runtime_api_daemo.Extensions.Slice.{registration_complete}
use lambda_runtime_api_daemo.Extensions.Api.{ExtensionsApi, indexed_by_pgid, new_extension}
use lambda_runtime_api_daemo.Process.Manager.{to_process, sigstop}
use lambda_runtime_api_daemo.Runtime.Api.{new_runtime_api}
use lambda_runtime_api_daemo.Runtime.Instances.{Child, new_daemon}
use lambda_runtime_api_daemo.Runtime.Startup.{start_runtime, base_name}
use lambda_runtime_api_daemo.Runtime.Waiting.{extensions_of, members, start_runtime-waits}
use lambda_runtime_api_daemo.Runtime.InstanceEnv.{
  Memory, Slice, read_slice, instance_entry, instance_env,
}
use lambda_runtime_api_daemo.Runtime.SharedArray.{Hold, instance_env-shared}
use lambda_runtime_api_daemo.Examples.Daemons.{no_extensions}

-- A broker that refuses the consumers whose queue it is not asked to name.
abbrev picky : Stage → Option Bytes
picky (consumes address capacity) = if is_empty address then none else some (codes "refused")
picky _ = none

abbrev one_reply : List (Event Incoming)
one_reply = arrives (consumed zero_message) ∷ close_notified none ∷ []

services-Completes_example :
    Completes true [] (rpc_server (codes "amqp://localhost") (codes "echo") 2 picky [])
    × Completes false (zero_message ∷ []) (rpc_invoker picky one_reply)
unfolding server_stages invoker_stages incoming_message
services-Completes_example =
    services-Completes (codes "amqp://localhost") (codes "echo") 2 picky [] one_reply refl

-- Of the two External Extensions, only the logger can be started.
abbrev two_extensions : ExtensionsApi
two_extensions = record no_extensions {
  extension_paths = codes "/opt/extensions/broken" ∷ codes "/opt/extensions/logger" ∷ [];
}

abbrev only_logger : Bytes → Option Bytes
only_logger path = if path == codes "/opt/extensions/logger" then some (codes "id-1") else none

abbrev new_child : Child
new_child = record { pid = 77; own_pgid = none }

start_runtime-waits_example :
    let d = start_runtime 5 new_child only_logger (new_daemon 1 0 two_extensions) in
    (e : ExtensionsApi) × (extensions_of d.client ≡ some e)
    × (members 77 e ≡ new_extension (codes "logger") (codes "id-1") ∷ [])
    × (registration_complete e.heap (indexed_by_pgid 77 e) ≡ false)
    × (d.kills ≡ to_process 77 sigstop ∷ [])
unfolding new_daemon base_name bytes_beq
start_runtime-waits_example =
    start_runtime-waits 5 new_child only_logger (new_daemon 1 0 two_extensions)
      (new_runtime_api 1 0 two_extensions) (codes "/opt/extensions/broken")
      (codes "/opt/extensions/logger" ∷ []) refl refl

-- One variable, in an array with room for another.
abbrev one_array : Memory
one_array = (codes "A=1" ∷ [] ∷ []) ∷ []

abbrev one_variable : Slice
one_variable = record { array = 0; len = 1; cap = 2 }

instance_env-shared_example :
    let (m1, first) = instance_env (λ n. n) 0 one_variable one_array in
    let (m2, second) = instance_env (λ n. n) 1 one_variable m1 in
    Hold (codes "A=1" ∷ []) (instance_entry 1) (instance_entry 1) m2 first second one_variable
unfolding read_slice
instance_env-shared_example =
    instance_env-shared (λ n. n) 0 1 one_variable one_array (codes "A=1" ∷ [] ∷ [])
      (refl, refl, omega arith)
