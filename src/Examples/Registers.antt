-- ===== src/Examples/Registers.antt =====
-- Requests of Extensions at concrete inputs.
use lambda_runtime_api_daemo.Base.{
  ◌≡◌, refl, true, false, none, some, List, [], ◌∷◌, nat_eq, Bytes, codes, bytes_beq, bytes_eq,
  lookup, insert,
}
use lambda_runtime_api_daemo.Http.{status_forbidden, status_ok}
use lambda_runtime_api_daemo.Extensions.Slice.{Extension, find_by_name, registration_is_closed}
use lambda_runtime_api_daemo.Extensions.Api.{
  new_extensions_api, ExtensionsApi, add, new_extension, indexed_by_pgid, extension_by_id_of,
  unregister_lambda_runtime,
}
use lambda_runtime_api_daemo.Extensions.Register.{external, events, register, registered_as}
use lambda_runtime_api_daemo.Extensions.Subscriptions.{subscribed}
use lambda_runtime_api_daemo.Extensions.Retry.{OneInstance, refused_handle, register_internal_retry}
use lambda_runtime_api_daemo.Extensions.Identity.{here, later, adds, extension_by_id-own}
use lambda_runtime_api_daemo.Extensions.Lifecycle.{Indexed, unregister-indexed}

-- One Lambda instance, of process group 40, and no Extension.
abbrev bare : ExtensionsApi
bare = record {
  function_name = codes "echo";
  version = codes "$LATEST";
  handler = codes "echo.handler";
  heap = [];
  next_handle = 0;
  extensions = (40, []) ∷ [];
  extensions_by_addr = [];
  extension_by_id = [];
  extension_paths = [];
  timeout = 3;
  max_concurrency = 1;
  enabled = true;
  registered = false;
}

abbrev logger : Extension
logger = new_extension (codes "logger") (codes "u-0")

-- The External Extension has been added and has not registered yet.
abbrev with_logger : ExtensionsApi
with_logger = record bare {
  heap = (0, logger) ∷ [];
  next_handle = 1;
  extensions = (40, 0 ∷ []) ∷ [];
  extension_by_id = (codes "u-0", 0) ∷ [];
}

abbrev peer : Bytes
peer = codes "127.0.0.1:4000"

abbrev both_events : List Bytes
both_events = codes "INVOKE" ∷ codes "SHUTDOWN" ∷ []

bare-one : OneInstance bare 40 []
bare-one = ([], refl, refl)

unknown : find_by_name bare.heap [] (codes "metrics") ≡ none
unfolding find_by_name
unknown = refl

still_open : registration_is_closed bare.heap [] ≡ false
unfolding registration_is_closed
still_open = refl

register_internal_retry_example :
    let first = register (codes "metrics") (events both_events) peer (codes "u-1") bare in
    (first.1.status ≡ status_forbidden)
    × ((register (codes "metrics") (events both_events) peer (codes "u-2") first.0).1.status
        ≡ status_ok)
    × (lookup 0 (register (codes "metrics") (events both_events) peer (codes "u-2") first.0).0.heap
        ≡ some (
            registered_as (
              subscribed external both_events
                (refused_handle (codes "metrics") both_events (codes "u-1")))))
unfolding bytes_beq
register_internal_retry_example =
    register_internal_retry (codes "metrics") both_events peer (codes "u-1") (codes "u-2") bare 40
      [] refl bare-one tt unknown refl still_open refl refl

unregister-indexed_example :
    extension_by_id_of (codes "u-0") (unregister_lambda_runtime 40 0 with_logger) ≡ none
unfolding indexed_by_pgid lookup bytes_beq
unregister-indexed_example = (unregister-indexed 40 0 40 (codes "u-0") with_logger).1

bare-Indexed : Indexed bare
unfolding lookup
bare-Indexed = record { old = λ h s. cc; named = λ id h l. cc }

abbrev started : ExtensionsApi
started = new_extensions_api (codes "echo") (codes "$LATEST") (codes "echo.handler") 3 1 false []

abbrev logging : ExtensionsApi
logging = add (codes "logger") 40 (codes "u-0") started

logging-known : extension_by_id_of (codes "u-0") logging ≡ some 0
unfolding extension_by_id_of add new_extensions_api lookup insert bytes_beq
logging-known = refl

extension_by_id-own_example :
    (x : Extension) × (lookup 0 logging.heap ≡ some x) × (x.id ≡ codes "u-0")
extension_by_id-own_example =
    extension_by_id-own (codes "echo") (codes "$LATEST") (codes "echo.handler") 3 1 false [] logging
      (later here (adds (codes "logger") 40 (codes "u-0") started)) (codes "u-0") 0 logging-known
