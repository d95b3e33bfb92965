-- ===== src/Extensions/Subscriptions.antt =====
-- What the loop over the events of a register request does to the handle's flags.
use lambda_runtime_api_daemo.Base.{
  ◌≡◌, refl, Bool, true, false, not, ◌&&◌, ◌||◌, none, some, List, [], ◌∷◌, arith, is_some, ◌==◌,
  nat_eq, beq-eq, Bytes, codes, bytes_beq, bytes_eq,
}
use lambda_runtime_api_daemo.Extensions.Slice.{Extension}
use lambda_runtime_api_daemo.Extensions.Register.{
  ExtensionType, external, internal, subscribe, forbidden,
}
use lambda_runtime_api_daemo.Http.{HttpResponse, status_forbidden}

abbrev pub contains : Bytes → List Bytes → Bool
contains a [] = false
contains a (x ∷ xs) = x == a || contains a xs

-- An event that may be subscribed to by an Extension of that type.
abbrev pub is_valid_event : ExtensionType → Bytes → Bool
is_valid_event external event = event == codes "INVOKE" || event == codes "SHUTDOWN"
is_valid_event internal event = event == codes "INVOKE"

abbrev pub all_valid : ExtensionType → List Bytes → Bool
all_valid t [] = true
all_valid t (event ∷ es) = is_valid_event t event && all_valid t es

abbrev has_shutdown : ExtensionType → List Bytes → Bool
has_shutdown external es = contains (codes "SHUTDOWN") es
has_shutdown internal es = false

-- The handle after a loop that met no error.
abbrev pub subscribed : ExtensionType → List Bytes → Extension → Extension
subscribed t es x = record x {
  invoke_is_registered = x.invoke_is_registered || contains (codes "INVOKE") es;
  shutdown_is_registered = x.shutdown_is_registered || has_shutdown t es;
}

invoke_not_shutdown :
    (event : Bytes) → (event == codes "INVOKE") ≡ true → (event == codes "SHUTDOWN") ≡ false
unfolding bytes_beq
invoke_not_shutdown event h = rw (beq-eq {a = event} h)

-- If every event may be subscribed to, the loop sets exactly the flags of the events named and
-- reports no error.
pub subscribe-subscribed :
    (t : ExtensionType) (name : Bytes) (es : List Bytes) (x : Extension)
    → all_valid t es ≡ true
    → subscribe t name es x ≡ (subscribed t es x, none)
unfolding subscribe
subscribe-subscribed external name [] x h = ground arith
subscribe-subscribed internal name [] x h = ground arith
subscribe-subscribed external name (event ∷ es) x h = ground (
  arith,
  invoke_not_shutdown event,
  subscribe-subscribed external name es (record x { invoke_is_registered = true }),
  subscribe-subscribed external name es (record x { shutdown_is_registered = true }),
)
subscribe-subscribed internal name (event ∷ es) x h =
    ground (arith, subscribe-subscribed internal name es (record x { invoke_is_registered = true }))

-- The loop refuses exactly the lists that hold an event that may not be subscribed to.
pub subscribe-all_valid :
    (t : ExtensionType) (name : Bytes) (es : List Bytes) (x : Extension)
    → is_some (subscribe t name es x).1 ≡ not (all_valid t es)
unfolding subscribe
subscribe-all_valid t name [] x = refl
subscribe-all_valid external name (event ∷ es) x = ground (
  arith,
  subscribe-all_valid external name es (record x { invoke_is_registered = true }),
  subscribe-all_valid external name es (record x { shutdown_is_registered = true }),
)
subscribe-all_valid internal name (event ∷ es) x =
    ground (arith, subscribe-all_valid internal name es (record x { invoke_is_registered = true }))

-- A refusal of the loop is a 403, and the loop never touches what is not a subscription flag.
pub subscribe_refusal :
    (t : ExtensionType) (name : Bytes) (es : List Bytes) (x : Extension) (r : HttpResponse)
    → (subscribe t name es x).1 ≡ some r
    → r.status ≡ status_forbidden
unfolding subscribe forbidden
subscribe_refusal t name [] x r h = ground arith
subscribe_refusal t name (event ∷ es) x r h = ground (
  arith,
  subscribe_refusal t name es (record x { invoke_is_registered = true }) r,
  subscribe_refusal t name es (record x { shutdown_is_registered = true }) r,
)

pub subscribe_keeps :
    (t : ExtensionType) (name : Bytes) (es : List Bytes) (x : Extension)
    → let y = (subscribe t name es x).0 in
      (y.registered ≡ x.registered)
      × (y.await_closed ≡ x.await_closed)
      × (y.name ≡ x.name)
      × (y.id ≡ x.id)
      × (y.timestamp ≡ x.timestamp)
unfolding subscribe
subscribe_keeps t name [] x = (refl, refl, refl, refl, refl)
subscribe_keeps t name (event ∷ es) x = ground (
  arith,
  subscribe_keeps t name es (record x { invoke_is_registered = true }),
  subscribe_keeps t name es (record x { shutdown_is_registered = true }),
)
