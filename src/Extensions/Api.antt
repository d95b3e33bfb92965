-- ===== src/Extensions/Api.antt =====
-- pkg/runtimeapi/extensionsapi.go: the ExtensionsAPI struct, its maps and the methods that keep
-- them. A generated UUID and the results of the /proc lookups are arguments. A Go map is ranged
-- over in an unspecified order: here the latest entry comes first.
use lambda_runtime_api_daemo.Base.{
  ℕ, suc, Bool, false, not, Option, none, some, List, [], ◌∷◌, ◌++◌, if◌then◌else◌, ◌==◌, nat_eq,
  Bytes, codes, bytes_eq, GoMap, lookup, delete, insert,
}
use lambda_runtime_api_daemo.Extensions.Slice.{Extension, Heap, ExtensionSlice}

-- The container that extensionsByAddr holds. The slice is a copy made when the connection opened.
pub record Extensions : Type 0 where
  pub slice : ExtensionSlice
  pub pid : ℕ
  pub pgid : ℕ

pub record ExtensionsApi : Type 0 where
  pub function_name : Bytes
  pub version : Bytes
  pub handler : Bytes
  pub heap : Heap
  pub next_handle : ℕ
  pub extensions : GoMap ℕ ExtensionSlice
  pub extensions_by_addr : GoMap Bytes Extensions
  pub extension_by_id : GoMap Bytes ℕ
  pub extension_paths : List Bytes
  pub timeout : ℕ
  pub max_concurrency : ℕ
  pub enabled : Bool
  pub registered : Bool

-- An entry of a directory: its name, and whether it is a directory itself.
abbrev pub DirEntry : Type 0
DirEntry = Bytes × Bool

unfoldable pub extension_files : List DirEntry → List Bytes
extension_files [] = []
extension_files ((name, is_dir) ∷ es) =
    let rest = extension_files es in
    if is_dir then rest else (codes "/opt/extensions/" ++ name) ∷ rest

-- NewExtensionsAPI: `disabled` says that the file that disables Extensions exists, and the entries
-- are those of /opt/extensions, none where it cannot be read.
unfoldable pub new_extensions_api :
    Bytes → Bytes → Bytes → ℕ → ℕ → Bool → List DirEntry → ExtensionsApi
unfolding extension_files
new_extensions_api function_name version handler timeout max_concurrency disabled entries = record {
  function_name = function_name;
  version = version;
  handler = handler;
  heap = [];
  next_handle = 0;
  extensions = [];
  extensions_by_addr = [];
  extension_by_id = [];
  extension_paths = if disabled then [] else extension_files entries;
  timeout = timeout;
  max_concurrency = max_concurrency;
  enabled = not disabled;
  registered = false;
}

unfoldable pub disable_events : ExtensionsApi → ExtensionsApi
disable_events e = record e { enabled = false }

unfoldable pub register_lambda_runtime : ℕ → ℕ → ExtensionsApi → ExtensionsApi
register_lambda_runtime pid nproc e = record e { extensions = insert pid [] e.extensions }

-- extensions[pgid], which is nil for a missing key.
abbrev pub slice_of : Option ExtensionSlice → ExtensionSlice
slice_of none = []
slice_of (some es) = es

unfoldable pub indexed_by_pgid : ℕ → ExtensionsApi → ExtensionSlice
indexed_by_pgid pgid e = slice_of (lookup pgid e.extensions)

abbrev delete_id : Option Extension → GoMap Bytes ℕ → GoMap Bytes ℕ
delete_id none m = m
delete_id (some x) m = delete x.id m

-- The loop that deletes each handle's entry of extensionByID.
unfoldable pub delete_ids : Heap → ExtensionSlice → GoMap Bytes ℕ → GoMap Bytes ℕ
delete_ids heap [] m = m
delete_ids heap (h ∷ es) m = delete_ids heap es (delete_id (lookup h heap) m)

unfoldable pub unregister_lambda_runtime : ℕ → ℕ → ExtensionsApi → ExtensionsApi
unfolding delete_ids indexed_by_pgid
unregister_lambda_runtime pid nproc e = record e {
  extension_by_id = delete_ids e.heap (indexed_by_pgid pid e) e.extension_by_id;
  extensions = delete pid e.extensions;
}

abbrev pub new_extension : Bytes → Bytes → Extension
new_extension name id = record {
  await_closed = false;
  timestamp = none;
  name = name;
  id = id;
  registered = false;
  invoke_is_registered = false;
  shutdown_is_registered = false;
}

-- Add: the new handle is the `next_handle` of the state that it is called in.
unfoldable pub add : Bytes → ℕ → Bytes → ExtensionsApi → ExtensionsApi
unfolding indexed_by_pgid
add name pgid uuid e = record e {
  heap = insert e.next_handle (new_extension name uuid) e.heap;
  next_handle = suc e.next_handle;
  extensions = insert pgid (indexed_by_pgid pgid e ++ e.next_handle ∷ []) e.extensions;
  extension_by_id = insert uuid e.next_handle e.extension_by_id;
}

abbrev first_entry : GoMap ℕ ExtensionSlice → ExtensionSlice × ℕ × ℕ
first_entry [] = ([], 0, 0)
first_entry ((pgid, es) ∷ m) = (es, pgid, pgid)

abbrev addr_entry : Option Extensions → ExtensionSlice × ℕ × ℕ
addr_entry none = ([], 0, 0)
addr_entry (some x) = (x.slice, x.pid, x.pgid)

unfoldable pub indexed_by_addr : Bytes → ExtensionsApi → ExtensionSlice × ℕ × ℕ
indexed_by_addr addr e =
    if e.max_concurrency == 1
    then first_entry e.extensions
    else addr_entry (lookup addr e.extensions_by_addr)

unfoldable pub extension_by_id_of : Bytes → ExtensionsApi → Option ℕ
extension_by_id_of id e = lookup id e.extension_by_id

-- http.ConnState, of which the method reads two.
pub data ConnState : Type 0 where
  state_new state_closed state_other : ConnState

-- `peer` is what the lookups give for the address: the pid and its process group, or `none` where
-- Getpgid fails.
unfoldable pub map_remote_addr_to_extensions :
    ConnState → Bytes → Option (ℕ × ℕ) → ExtensionsApi → ExtensionsApi
unfolding indexed_by_pgid
map_remote_addr_to_extensions state address peer e = if not e.enabled then e else mapped state peer
  where
    mapped : ConnState → Option (ℕ × ℕ) → ExtensionsApi
    mapped state_new none = e
    mapped state_new (some (pid, pgid)) = record e {
      extensions_by_addr =
          insert address (record { slice = indexed_by_pgid pgid e; pid = pid; pgid = pgid })
            e.extensions_by_addr;
    }
    mapped state_closed p = record e { extensions_by_addr = delete address e.extensions_by_addr }
    mapped state_other p = e
