-- ===== src/Extensions/Identity.antt =====
-- The identifiers of the Extensions API over any order of its operations.
use lambda_runtime_api_daemo.Base.{
  ℕ, ◌≡◌, Bool, Option, some, List, nat_eq, Bytes, bytes_eq, lookup,
}
use lambda_runtime_api_daemo.Extensions.Slice.{Extension}
use lambda_runtime_api_daemo.Extensions.Api.{
  ExtensionsApi, DirEntry, ConnState, new_extensions_api, add, disable_events,
  register_lambda_runtime, unregister_lambda_runtime, map_remote_addr_to_extensions,
  extension_by_id_of,
}
use lambda_runtime_api_daemo.Extensions.Register.{ParsedBody, register}
use lambda_runtime_api_daemo.Extensions.Next.{Wait, next}
use lambda_runtime_api_daemo.Extensions.Preservation.{
  register-Indexed, next-Indexed, unregister-Indexed, map-Indexed,
}
use lambda_runtime_api_daemo.Extensions.Lifecycle.{Indexed, add-Indexed}

-- Whatever may happen to the Extensions API between two states.
pub data Step : ExtensionsApi → ExtensionsApi → Type 0 where
  instance_starts :
      (pid nproc : ℕ) (e : ExtensionsApi) → Step e (register_lambda_runtime pid nproc e)
  instance_exits :
      (pid nproc : ℕ) (e : ExtensionsApi) → Step e (unregister_lambda_runtime pid nproc e)
  adds :
      (name : Bytes) (pgid : ℕ) (uuid : Bytes) (e : ExtensionsApi) → Step e (add name pgid uuid e)
  registers :
      (name : Bytes) (parsed : ParsedBody) (addr uuid : Bytes) (e : ExtensionsApi)
      → Step e (register name parsed addr uuid e).0
  asks_next : (id : Bytes) (wait : Wait) (e : ExtensionsApi) → Step e (next id wait e).0
  connects :
      (state : ConnState) (address : Bytes) (peer : Option (ℕ × ℕ)) (e : ExtensionsApi)
      → Step e (map_remote_addr_to_extensions state address peer e)
  disables : (e : ExtensionsApi) → Step e (disable_events e)

pub data Reach (e : ExtensionsApi) : ExtensionsApi → Type 0 where
  here : Reach e e
  later : {s t : ExtensionsApi} → Reach e s → Step s t → Reach e t

Step-Indexed : {s t : ExtensionsApi} → Step s t → Indexed s → Indexed t
unfolding register_lambda_runtime disable_events
Step-Indexed (instance_starts pid nproc e) v = record { old = v.old; named = v.named }
Step-Indexed (instance_exits pid nproc e) v = unregister-Indexed pid nproc e v
Step-Indexed (adds name pgid uuid e) v = (add-Indexed name pgid uuid e v).0
Step-Indexed (registers name parsed addr uuid e) v = register-Indexed name parsed addr uuid e v
Step-Indexed (asks_next id wait e) v = next-Indexed id wait e v
Step-Indexed (connects state address peer e) v = map-Indexed state address peer e v
Step-Indexed (disables e) v = record { old = v.old; named = v.named }

Reach-Indexed : {s t : ExtensionsApi} → Reach s t → Indexed s → Indexed t
Reach-Indexed here v = v
Reach-Indexed (later r st) v = Step-Indexed st (Reach-Indexed r v)

new_extensions_api-Indexed :
    (function_name version handler : Bytes) (timeout max : ℕ) (disabled : Bool)
    (entries : List DirEntry)
    → Indexed (new_extensions_api function_name version handler timeout max disabled entries)
unfolding new_extensions_api lookup
new_extensions_api-Indexed function_name version handler timeout max disabled entries = record {
  old = λ h s. cc;
  named = λ id h l. cc;
}

-- From the API's start, whatever instances start and exit, Extensions are added, register and ask
-- for events, and connections open and close: an identifier that the API knows is that of the handle
-- that it names.
pub extension_by_id-own :
    (function_name version handler : Bytes) (timeout max : ℕ) (disabled : Bool)
    (entries : List DirEntry) (e : ExtensionsApi)
    → Reach (new_extensions_api function_name version handler timeout max disabled entries) e
    → (id : Bytes) (h : ℕ) → extension_by_id_of id e ≡ some h
    → (x : Extension) × (lookup h e.heap ≡ some x) × (x.id ≡ id)
unfolding extension_by_id_of
extension_by_id-own function_name version handler timeout max disabled entries e path id h l =
    (Reach-Indexed path (
        new_extensions_api-Indexed function_name version handler timeout max disabled
          entries)).named
      id h l
