-- ===== src/Extensions/Registration.antt =====
-- What a register request leads to: refused, accepted, and repeated.
use lambda_runtime_api_daemo.Base.{
  ℕ, ◌<◌, ◌≡◌, ◌∙◌, inl, inr, true, false, none, some, List, [], ◌∷◌, ◌++◌, arith, Option-cases,
  nat_eq, All, Bytes, bytes_beq_iff, bytes_eq, is_empty, lookup, insert, lookup-insert,
  lookup-insert_self,
}
use lambda_runtime_api_daemo.Http.{status_forbidden}
use lambda_runtime_api_daemo.Extensions.Slice.{
  Extension, Heap, ExtensionSlice, find_by_name, registration_is_closed,
}
use lambda_runtime_api_daemo.Extensions.Api.{ExtensionsApi, add, indexed_by_addr, new_extension}
use lambda_runtime_api_daemo.Extensions.Register.{
  ExtensionType, external, internal, events, subscribe, complete, register_internal, register_found,
  register_events, register, registered_as, register_response,
}
use lambda_runtime_api_daemo.Extensions.Subscriptions.{
  all_valid, subscribed, subscribe-subscribed, subscribe-all_valid, subscribe_refusal,
}

pub find_by_name-lookup :
    (heap : Heap) (es : ExtensionSlice) (name : Bytes) (h : ℕ) (x : Extension)
    → find_by_name heap es name ≡ some (h, x)
    → (lookup h heap ≡ some x) × (x.name ≡ name)
unfolding find_by_name
find_by_name-lookup heap [] name h x f = ground arith
find_by_name-lookup heap (k ∷ es) name h x f = elim (Option-cases (lookup k heap)) [
  | inl e ↦ ground (arith, find_by_name-lookup heap es name h x)
  | inr (y, e) ↦ ground (arith, find_by_name-lookup heap es name h x, bytes_beq_iff y.name name)
]

-- A found handle is found again after a write that keeps its name.
pub find_by_name-insert :
    (heap : Heap) (es : ExtensionSlice) (name : Bytes) (h : ℕ) (x y : Extension)
    → find_by_name heap es name ≡ some (h, x)
    → y.name ≡ name
    → find_by_name (insert h y heap) es name ≡ some (h, y)
unfolding find_by_name
find_by_name-insert heap [] name h x y f n = ground arith
find_by_name-insert heap (k ∷ es) name h x y f n = elim (Option-cases (lookup k heap)) [
  | inl e ↦ ground (
    arith,
    find_by_name-lookup heap es name h x,
    lookup-insert k h y heap,
    bytes_beq_iff y.name name,
    find_by_name-insert heap es name h x y,
  )
  | inr (z, e) ↦ ground (
    arith,
    find_by_name-lookup heap es name h x,
    lookup-insert k h y heap,
    bytes_beq_iff y.name name,
    bytes_beq_iff z.name name,
    find_by_name-insert heap es name h x y,
  )
]

-- A handle that is added to the end is found, if none before it has the name.
pub find_by_name-append :
    (heap : Heap) (es : ExtensionSlice) (name : Bytes) (h : ℕ) (y : Extension)
    → find_by_name heap es name ≡ none
    → All (λ k. k < h) es
    → y.name ≡ name
    → find_by_name (insert h y heap) (es ++ h ∷ []) name ≡ some (h, y)
unfolding find_by_name
find_by_name-append heap [] name h y f a n =
    ground (arith, lookup-insert_self h y heap, bytes_beq_iff y.name name)
find_by_name-append heap (k ∷ es) name h y f a n = elim (Option-cases (lookup k heap)) [
  | inl e ↦ ground (arith, lookup-insert k h y heap, find_by_name-append heap es name h y)
  | inr (z, e) ↦ ground (
    arith,
    lookup-insert k h y heap,
    bytes_beq_iff z.name name,
    find_by_name-append heap es name h y,
  )
]

pub complete-valid :
    (t : ExtensionType) (name : Bytes) (es : List Bytes) (h : ℕ) (x : Extension) (e : ExtensionsApi)
    → all_valid t es ≡ true
    → complete t name es h x e ≡ (
      record e { heap = insert h (registered_as (subscribed t es x)) e.heap; registered = true },
      register_response e x.id,
    )
unfolding complete
complete-valid t name es h x e v = ground (arith, subscribe-subscribed t name es x v)

pub complete-invalid :
    (t : ExtensionType) (name : Bytes) (es : List Bytes) (h : ℕ) (x : Extension) (e : ExtensionsApi)
    → all_valid t es ≡ false
    → ((complete t name es h x e).1.status ≡ status_forbidden)
      × ((complete t name es h x e).0
          ≡ record e { heap = insert h (subscribe t name es x).0 e.heap })
unfolding complete
complete-invalid t name es h x e v = elim (Option-cases (subscribe t name es x).1) [
  | inl n ↦ absurd (ground (arith, subscribe-all_valid t name es x))
  | inr (r, s) ↦ (rw (s, complete) (subscribe_refusal t name es x r s), rw (s, complete))
]

-- The slice of the connection that a request came over.
abbrev pub peers : Bytes → ExtensionsApi → ExtensionSlice
peers addr e = (indexed_by_addr addr e).0

register-found :
    (name : Bytes) (es : List Bytes) (addr uuid : Bytes) (e : ExtensionsApi) (h : ℕ) (x : Extension)
    → is_empty name ≡ false
    → find_by_name e.heap (peers addr e) name ≡ some (h, x)
    → register name (events es) addr uuid e ≡ register_found name es h x e
unfolding register
register-found name es addr uuid e h x n f = rw (n, f, register_events)

register-not_found :
    (name : Bytes) (es : List Bytes) (addr uuid : Bytes) (e : ExtensionsApi)
    → is_empty name ≡ false
    → find_by_name e.heap (peers addr e) name ≡ none
    → register name (events es) addr uuid e
      ≡ register_internal name es (peers addr e) (indexed_by_addr addr e).2 uuid e
unfolding register
register-not_found name es addr uuid e n f = rw (n, f, register_events)

abbrev pub registered_in : ExtensionsApi → ℕ → Extension → ExtensionsApi
registered_in e h x = record e { heap = insert h (registered_as x) e.heap; registered = true }

register_found-open :
    (name : Bytes) (es : List Bytes) (h : ℕ) (x : Extension) (e : ExtensionsApi)
    → x.registered ≡ false
    → register_found name es h x e ≡ complete external name es h x e
unfolding register_found
register_found-open name es h x e u = ground arith

pub register-external :
    (name : Bytes) (es : List Bytes) (addr uuid : Bytes) (e : ExtensionsApi) (h : ℕ) (x : Extension)
    → is_empty name ≡ false
    → find_by_name e.heap (peers addr e) name ≡ some (h, x)
    → x.registered ≡ false
    → all_valid external es ≡ true
    → register name (events es) addr uuid e
      ≡ (registered_in e h (subscribed external es x), register_response e x.id)
register-external name es addr uuid e h x n f u v =
    register-found name es addr uuid e h x n f
    ∙ register_found-open name es h x e u
    ∙ complete-valid external name es h x e v

-- An Internal Extension, which has no handle yet, registers for INVOKE events while registration is
-- open: a new handle is added to the slice of its process group and to extensionByID.
pub register-internal :
    (name : Bytes) (es : List Bytes) (addr uuid : Bytes) (e : ExtensionsApi)
    → is_empty name ≡ false
    → find_by_name e.heap (peers addr e) name ≡ none
    → e.enabled ≡ true
    → registration_is_closed e.heap (peers addr e) ≡ false
    → register name (events es) addr uuid e
      ≡ complete internal name es e.next_handle
          (new_extension name uuid)
          (add name (indexed_by_addr addr e).2 uuid e)
unfolding register_internal
register-internal name es addr uuid e n f on open' =
    register-not_found name es addr uuid e n f ∙ ground (arith, on, open')
