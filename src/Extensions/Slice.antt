-- ===== src/Extensions/Slice.antt =====
-- pkg/runtimeapi/extensionsapi.go: Extension, ExtensionSlice and the slice's methods.
-- A `*Extension` is a number that the heap maps to the struct, so that the three maps of the
-- Extensions API share it as the program's pointers do. Channels: `events` is unbuffered, so a send
-- is one rendezvous, and the sends of a method are listed in their order; `await_closed` says that
-- the `awaitRegister` channel has been closed.
use lambda_runtime_api_daemo.Base.{
  ℕ, Bool, true, false, ◌&&◌, ◌||◌, Option, none, some, List, [], ◌∷◌, if◌then◌else◌, is_some, ◌==◌,
  nat_eq, Bytes, codes, bytes_eq, GoMap, lookup,
}

-- runtimeapi.go: Request. The Response channel is named by the number of its allocation.
pub record Request : Type 0 where
  pub response : ℕ
  pub function_name : Bytes
  pub id : Bytes
  pub client_context : Bytes
  pub xray : Bytes
  pub body : Bytes
  pub deadline : ℕ

-- The zero time.Time is `none`.
pub record Extension : Type 0 where
  pub await_closed : Bool
  pub timestamp : Option ℕ
  pub name : Bytes
  pub id : Bytes
  pub registered : Bool
  pub invoke_is_registered : Bool
  pub shutdown_is_registered : Bool

abbrev pub Heap : Type 0
Heap = GoMap ℕ Extension

abbrev pub ExtensionSlice : Type 0
ExtensionSlice = List ℕ

-- The sends of a loop that sends `event` to each handle whose struct passes the test.
unfoldable pub send_where :
    (Extension → Bool) → Heap → ExtensionSlice → Request → List (ℕ × Request)
send_where test heap [] event = []
send_where test heap (h ∷ es) event =
    let rest = send_where test heap es event in
    elim (lookup h heap) [ none ↦ rest | some x ↦ if test x then (h, event) ∷ rest else rest ]

unfoldable pub send_invoke_event : Heap → ExtensionSlice → Request → List (ℕ × Request)
unfolding send_where
send_invoke_event = send_where (λ x. x.invoke_is_registered)

abbrev pub shutdown_request : Bytes → Request
shutdown_request reason = record {
  response = 0;
  function_name = [];
  id = codes "SHUTDOWN";
  client_context = [];
  xray = [];
  body = reason;
  deadline = 0;
}

unfoldable pub send_shutdown_event : Heap → ExtensionSlice → Bytes → List (ℕ × Request)
unfolding send_where
send_shutdown_event heap es reason =
    send_where (λ x. x.shutdown_is_registered) heap es (shutdown_request reason)

-- The first handle of that name.
unfoldable pub find_by_name : Heap → ExtensionSlice → Bytes → Option (ℕ × Extension)
find_by_name heap [] name = none
find_by_name heap (h ∷ es) name =
    let rest = find_by_name heap es name in
    elim (lookup h heap) [ none ↦ rest | some x ↦ if x.name == name then some (h, x) else rest ]

unfoldable pub registration_is_closed : Heap → ExtensionSlice → Bool
registration_is_closed heap [] = false
registration_is_closed heap (h ∷ es) =
    let rest = registration_is_closed heap es in
    elim (lookup h heap) [ none ↦ rest | some x ↦ is_some x.timestamp || rest ]

-- AwaitExtensionRegistration returns once each channel of the slice has been closed.
unfoldable pub registration_complete : Heap → ExtensionSlice → Bool
registration_complete heap [] = true
registration_complete heap (h ∷ es) =
    let rest = registration_complete heap es in
    elim (lookup h heap) [ none ↦ rest | some x ↦ x.await_closed && rest ]
