-- ===== src/Extensions/Register.antt =====
-- pkg/runtimeapi/extensionsapi.go: the handlers of the register and next methods. What
-- json.Unmarshal makes of the request body is an argument, and so are a generated UUID and the
-- current time.
use lambda_runtime_api_daemo.Base.{
  ℕ, Bool, true, false, not, ◌&&◌, Option, none, some, List, [], ◌∷◌, ◌++◌, if◌then◌else◌, ◌==◌,
  nat_eq, Bytes, codes, bytes_beq, bytes_eq, is_empty, insert,
}
use lambda_runtime_api_daemo.Http.{HttpResponse, plain, status_ok, status_forbidden}
use lambda_runtime_api_daemo.Extensions.Slice.{
  Extension, ExtensionSlice, find_by_name, registration_is_closed,
}
use lambda_runtime_api_daemo.Extensions.Api.{ExtensionsApi, add, indexed_by_addr, new_extension}

unfoldable pub err_msg : Bytes → Bytes → Bytes
err_msg etype msg =
    codes "{\"errorType\": \"" ++ etype ++ codes "\", \"errorMessage\": \"" ++ msg ++ codes "\"}"

unfoldable pub forbidden : Bytes → Bytes → HttpResponse
unfolding err_msg
forbidden etype msg = plain status_forbidden (err_msg etype msg)

-- The body of a register request: absent or unreadable with the error's text, or its events.
pub data ParsedBody : Type 0 where
  unreadable : Bytes → ParsedBody
  events : List Bytes → ParsedBody

pub data ExtensionType : Type 0 where
  external internal : ExtensionType

abbrev is_external : ExtensionType → Bool
is_external external = true
is_external internal = false

abbrev event_error_type : Bytes → Bytes
event_error_type event =
    if event == codes "SHUTDOWN"
    then codes "ShutdownEventNotSupportedForInternalExtension"
    else codes "Extension.InvalidEventType"

invalid_event : Bytes → Bytes → HttpResponse
unfolding forbidden
invalid_event name event =
    forbidden (event_error_type event)
      (codes "ExtensionsAPI Failed to Register " ++ name ++ codes ": event " ++ event)

-- The loop over the events. It writes the flags as it goes, so an error leaves the earlier writes.
unfoldable pub subscribe :
    ExtensionType → Bytes → List Bytes → Extension → Extension × Option HttpResponse
unfolding invalid_event bytes_beq
subscribe t name [] x = (x, none)
subscribe t name (event ∷ es) x =
    let as_invoke = subscribe t name es (record x { invoke_is_registered = true }) in
    let as_shutdown = subscribe t name es (record x { shutdown_is_registered = true }) in
    if event == codes "INVOKE"
    then as_invoke
    else if event == codes "SHUTDOWN" && is_external t
    then as_shutdown
    else (x, some (invalid_event name event))

unfoldable pub register_response : ExtensionsApi → Bytes → HttpResponse
register_response e id = record {
  status = status_ok;
  headers = (codes "Lambda-Extension-Identifier", id) ∷ [];
  body =
      codes "{\"functionName\":\""
      ++ e.function_name
      ++ codes "\",\"functionVersion\":\""
      ++ e.version
      ++ codes "\",\"handler\":\""
      ++ e.handler
      ++ codes "\"}";
}

abbrev pub registered_as : Extension → Extension
registered_as x = record x { registered = true; await_closed = true }

-- From the loop over the events to the end, on the handle that was found or added.
unfoldable pub complete :
    ExtensionType
    → Bytes
    → List Bytes
    → ℕ
    → Extension
    → ExtensionsApi
    → ExtensionsApi × HttpResponse
unfolding subscribe register_response
complete t name es h x e =
    let (x', refusal) = subscribe t name es x in
    elim refusal [
      | some r ↦ (record e { heap = insert h x' e.heap }, r)
      | none ↦ (
        record e { heap = insert h (registered_as x') e.heap; registered = true },
        register_response e x'.id,
      )
    ]

abbrev pub off_message : Bytes → Bytes
off_message name = codes "ExtensionsAPI failed to register Internal Extension " ++ name ++ codes ":"

-- No handle has the name: an Internal Extension, if registration is still open.
unfoldable pub register_internal :
    Bytes → List Bytes → ExtensionSlice → ℕ → Bytes → ExtensionsApi → ExtensionsApi × HttpResponse
unfolding complete add registration_is_closed forbidden
register_internal name es slice pgid uuid e =
    if e.enabled && not (registration_is_closed e.heap slice)
    then complete internal name es e.next_handle (new_extension name uuid) (add name pgid uuid e)
    else (e, forbidden (codes "Extension.RegistrationServiceOff") (off_message name))

unfoldable pub register_found :
    Bytes → List Bytes → ℕ → Extension → ExtensionsApi → ExtensionsApi × HttpResponse
unfolding complete forbidden
register_found name es h x e =
    if x.registered
    then (
      e,
      forbidden (codes "Extension.AlreadyRegistered")
          (codes "ExtensionsAPI failed to register " ++ name ++ codes ":"),
    )
    else complete external name es h x e

unfoldable pub register_events :
    Bytes → List Bytes → Bytes → Bytes → ExtensionsApi → ExtensionsApi × HttpResponse
unfolding register_internal register_found find_by_name indexed_by_addr
register_events name es addr uuid e =
    let (slice, pid, pgid) = indexed_by_addr addr e in
    elim (find_by_name e.heap slice name) [
      | none ↦ register_internal name es slice pgid uuid e
      | some (h, x) ↦ register_found name es h x e
    ]

-- The register handler, from the header to the response.
unfoldable pub register :
    Bytes → ParsedBody → Bytes → Bytes → ExtensionsApi → ExtensionsApi × HttpResponse
unfolding register_events forbidden
register name parsed addr uuid e =
    if is_empty name
    then (e, forbidden (codes "Extension.InvalidExtensionName") (codes "Empty extension name"))
    else elim parsed [
      | unreadable message ↦ (e, forbidden (codes "InvalidRequestFormat") message)
      | events es ↦ register_events name es addr uuid e
    ]
