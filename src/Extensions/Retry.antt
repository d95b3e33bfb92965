-- ===== src/Extensions/Retry.antt =====
-- An Internal Extension that asks for SHUTDOWN, and asks again.
use mathlib.Core.Path.{subst}
use lambda_runtime_api_daemo.Base.{
  ℕ, ◌<◌, ◌≡◌, refl, sym, ap, true, false, none, some, List, [], ◌∷◌, ◌++◌, arith, nat_eq, beq_refl,
  All, Bytes, bytes_eq, is_empty, GoMap, lookup, delete, insert, lookup-insert_self,
}
use lambda_runtime_api_daemo.Http.{HttpResponse, status_forbidden, status_ok}
use lambda_runtime_api_daemo.Extensions.Slice.{
  Extension, ExtensionSlice, find_by_name, registration_is_closed,
}
use lambda_runtime_api_daemo.Extensions.Api.{
  ExtensionsApi, add, indexed_by_addr, indexed_by_pgid, new_extension,
}
use lambda_runtime_api_daemo.Extensions.Register.{
  external, internal, events, subscribe, register, registered_as, register_response,
}
use lambda_runtime_api_daemo.Extensions.Subscriptions.{all_valid, subscribed, subscribe_keeps}
use lambda_runtime_api_daemo.Extensions.Registration.{
  find_by_name-insert, find_by_name-append, complete-invalid, peers, register-internal,
  register-external,
}

-- With one Lambda instance every request is taken to come from its process group.
abbrev pub OneInstance : ExtensionsApi → ℕ → ExtensionSlice → Type 0
OneInstance e pgid slice =
    (m : GoMap ℕ ExtensionSlice) × (e.max_concurrency ≡ 1) × (e.extensions ≡ (pgid, slice) ∷ m)

indexed_by_addr-one :
    (addr : Bytes) (e : ExtensionsApi) (pgid : ℕ) (slice : ExtensionSlice)
    → OneInstance e pgid slice
    → indexed_by_addr addr e ≡ (slice, pgid, pgid)
unfolding indexed_by_addr
indexed_by_addr-one addr e pgid slice (m, c, x) = ground arith

peers-one :
    (addr : Bytes) (e : ExtensionsApi) (pgid : ℕ) (slice : ExtensionSlice)
    → OneInstance e pgid slice
    → slice ≡ peers addr e
peers-one addr e pgid slice one =
    sym (ap (λ (t : ExtensionSlice × ℕ × ℕ). t.0) (indexed_by_addr-one addr e pgid slice one))

-- The handle that a refused request of an Internal Extension leaves.
abbrev pub refused_handle : Bytes → List Bytes → Bytes → Extension
refused_handle name es uuid = (subscribe internal name es (new_extension name uuid)).0

-- The state that a refused request of an Internal Extension leaves.
abbrev left_behind : Bytes → List Bytes → ℕ → Bytes → ExtensionsApi → ExtensionsApi
left_behind name es pgid uuid e = record (add name pgid uuid e) {
  heap =
      insert e.next_handle (subscribe internal name es (new_extension name uuid)).0
        (insert e.next_handle (new_extension name uuid) e.heap);
}

internal-left_behind :
    (name : Bytes) (es : List Bytes) (addr uuid : Bytes) (e : ExtensionsApi) (pgid : ℕ)
    (slice : ExtensionSlice)
    → is_empty name ≡ false
    → OneInstance e pgid slice
    → find_by_name e.heap slice name ≡ none
    → e.enabled ≡ true
    → registration_is_closed e.heap slice ≡ false
    → all_valid internal es ≡ false
    → ((register name (events es) addr uuid e).1.status ≡ status_forbidden)
      × ((register name (events es) addr uuid e).0 ≡ left_behind name es pgid uuid e)
unfolding add
internal-left_behind name es addr uuid e pgid slice n one f on open' bad =
    let at = indexed_by_addr-one addr e pgid slice one in
    let run =
      register-internal name es addr uuid e n
        (subst (λ s. find_by_name e.heap s name ≡ none) (peers-one addr e pgid slice one) f) on
        (subst (λ s. registration_is_closed e.heap s ≡ false) (peers-one addr e pgid slice one)
          open') in
    let r =
      complete-invalid internal name es e.next_handle (new_extension name uuid)
        (add name pgid uuid e) bad in
    rw (run, at) r

left_behind-one :
    (name : Bytes) (es : List Bytes) (uuid : Bytes) (e : ExtensionsApi) (pgid : ℕ)
    (slice : ExtensionSlice)
    → OneInstance e pgid slice
    → OneInstance (left_behind name es pgid uuid e) pgid (slice ++ e.next_handle ∷ [])
unfolding add indexed_by_pgid lookup insert
left_behind-one name es uuid e pgid slice (m, c, x) =
    (delete pgid m, ground arith, ground (arith, beq_refl pgid))

-- With one Lambda instance and registration open, a named Internal Extension without a handle asks
-- for known events that include SHUTDOWN, and is answered 403. But the handle that the request
-- added stays, and the same request, made again, is taken for one of an External Extension: it is
-- answered 200, and the handle is registered for what the list names, SHUTDOWN included.
pub register_internal_retry :
    (name : Bytes) (es : List Bytes) (addr uuid uuid' : Bytes) (e : ExtensionsApi) (pgid : ℕ)
    (slice : ExtensionSlice)
    → is_empty name ≡ false
    → OneInstance e pgid slice
    → All (λ k. k < e.next_handle) slice
    → find_by_name e.heap slice name ≡ none
    → e.enabled ≡ true
    → registration_is_closed e.heap slice ≡ false
    → all_valid internal es ≡ false
    → all_valid external es ≡ true
    → let first = register name (events es) addr uuid e in
      let second = register name (events es) addr uuid' first.0 in
      (first.1.status ≡ status_forbidden)
      × (second.1.status ≡ status_ok)
      × (lookup e.next_handle second.0.heap
          ≡ some (registered_as (subscribed external es (refused_handle name es uuid))))
unfolding register_response
register_internal_retry name es addr uuid uuid' e pgid slice n one fresh f on open' bad good =
    let h = e.next_handle in
    let new = new_extension name uuid in
    let x = (subscribe internal name es new).0 in
    let keeps = subscribe_keeps internal name es new in
    let heap' = insert h new e.heap in
    let first = internal-left_behind name es addr uuid e pgid slice n one f on open' bad in
    let e' = left_behind name es pgid uuid e in
    let found =
      find_by_name-insert heap' (slice ++ h ∷ []) name h new x
        (find_by_name-append e.heap slice name h new f fresh refl) keeps.2 in
    let one' = left_behind-one name es uuid e pgid slice one in
    let found' =
      subst (λ s. find_by_name e'.heap s name ≡ some (h, x))
        (peers-one addr e' pgid (slice ++ h ∷ []) one') found in
    let second = register-external name es addr uuid' e' h x n found' keeps.0 good in
    (
      first.0,
      rw (first.1) (ap (λ (r : ExtensionsApi × HttpResponse). r.1.status) second),
      rw (first.1, second)
          (lookup-insert_self h (registered_as (subscribed external es x)) e'.heap),
    )
