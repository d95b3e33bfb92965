-- ===== src/Extensions/Preservation.antt =====
-- Each operation of the Extensions API keeps heap and identifiers consistent.
use mathlib.Core.Path.{subst}
use mathlib.Core.Option.{some-injective}
use lambda_runtime_api_daemo.Base.{
  ℕ, ◌<◌, ◌≡◌, refl, sym, ap, ◌∙◌, inl, inr, Bool, true, false, not, Option, none, some, List,
  arith, if◌then◌else◌, Bool-cases, Option-cases, ◌==◌, nat_eq, beq-eq, if-intro, Bytes, bytes_eq,
  is_empty, lookup, insert, lookup-insert, lookup-insert_self,
}
use lambda_runtime_api_daemo.Http.{HttpResponse}
use lambda_runtime_api_daemo.Extensions.Slice.{Extension, ExtensionSlice, find_by_name}
use lambda_runtime_api_daemo.Extensions.Api.{
  ExtensionsApi, ConnState, state_new, state_closed, state_other, new_extension, add,
  unregister_lambda_runtime, map_remote_addr_to_extensions, indexed_by_addr, indexed_by_pgid,
  extension_by_id_of,
}
use lambda_runtime_api_daemo.Extensions.Register.{
  ExtensionType, external, internal, ParsedBody, unreadable, events, subscribe, registered_as,
  complete, register_internal, register_found, register_events, register,
}
use lambda_runtime_api_daemo.Extensions.Next.{Wait, received, cancelled, await_event, deref, next}
use lambda_runtime_api_daemo.Extensions.Subscriptions.{all_valid, subscribed, subscribe_keeps}
use lambda_runtime_api_daemo.Extensions.Registration.{
  find_by_name-lookup, complete-valid, complete-invalid,
}
use lambda_runtime_api_daemo.Extensions.Lifecycle.{Indexed, add-Indexed, lookup-delete_ids}

-- A write to a handle of the heap that keeps its identifier.
rewritten-Indexed :
    (h : ℕ) (x y : Extension) (e : ExtensionsApi)
    → lookup h e.heap ≡ some x
    → y.id ≡ x.id
    → Indexed e
    → Indexed (record e { heap = insert h y e.heap })
rewritten-Indexed h x y e at same v = record {
  old = λ k s. elim (Bool-cases (h == k)) [
    | inl here ↦ subst (λ j. j < e.next_handle) (beq-eq here) (v.old h (ground (arith, at)))
    | inr other ↦ v.old k (ground (arith, lookup-insert k h y e.heap))
  ];
  named = λ id k l.
      let (z, where', named) = v.named id k l in
      elim (Bool-cases (h == k)) [
        | inl here ↦ (
          y,
          ground (arith, lookup-insert k h y e.heap),
          same
              ∙ ap (λ (w : Extension). w.id)
                  (some-injective x z (sym at ∙ ap (λ j. lookup j e.heap) (beq-eq here) ∙ where'))
              ∙ named,
        )
        | inr other ↦ (z, ground (arith, lookup-insert k h y e.heap), named)
      ];
}

complete-Indexed :
    (t : ExtensionType) (name : Bytes) (es : List Bytes) (h : ℕ) (x : Extension) (e : ExtensionsApi)
    → lookup h e.heap ≡ some x
    → Indexed e
    → Indexed (complete t name es h x e).0
complete-Indexed t name es h x e at v = elim (Bool-cases (all_valid t es)) [
  | inl good ↦
      let w = rewritten-Indexed h x (registered_as (subscribed t es x)) e at refl v in
      rw (complete-valid t name es h x e good) (record { old = w.old; named = w.named })
  | inr bad ↦
      subst Indexed (sym (complete-invalid t name es h x e bad).1)
        (rewritten-Indexed h x (subscribe t name es x).0 e at (subscribe_keeps t name es x).3 v)
]

if-Indexed :
    (b : Bool) (r s : ExtensionsApi × HttpResponse)
    → Indexed r.0
    → Indexed s.0
    → Indexed (if b then r else s).0
if-Indexed true r s hr hs = hr
if-Indexed false r s hr hs = hs

register_internal-Indexed :
    (name : Bytes) (es : List Bytes) (slice : ExtensionSlice) (pgid : ℕ) (uuid : Bytes)
    (e : ExtensionsApi)
    → Indexed e
    → Indexed (register_internal name es slice pgid uuid e).0
unfolding register_internal
register_internal-Indexed name es slice pgid uuid e v =
    let new = new_extension name uuid in
    if-Indexed _ (complete internal name es e.next_handle new (add name pgid uuid e)) _
      (complete-Indexed internal name es e.next_handle new (add name pgid uuid e)
        (unfold add in lookup-insert_self e.next_handle new e.heap)
        (add-Indexed name pgid uuid e v).0)
      v

register_events-Indexed :
    (name : Bytes) (es : List Bytes) (addr uuid : Bytes) (e : ExtensionsApi)
    → Indexed e
    → Indexed (register_events name es addr uuid e).0
unfolding register_events register_found
register_events-Indexed name es addr uuid e v =
    elim (Option-cases (find_by_name e.heap (indexed_by_addr addr e).0 name)) [
      | inl n ↦ rw (n, register_events) (register_internal-Indexed name es _ _ uuid e v)
      | inr ((h, x), f) ↦
          rw (f, register_events)
            (if-Indexed x.registered _ _ v (
              complete-Indexed external name es h x e
                (find_by_name-lookup e.heap (indexed_by_addr addr e).0 name h x f).0 v))
    ]

pub register-Indexed :
    (name : Bytes) (parsed : ParsedBody) (addr uuid : Bytes) (e : ExtensionsApi)
    → Indexed e
    → Indexed (register name parsed addr uuid e).0
unfolding register
register-Indexed name (unreadable m) addr uuid e v = if-Indexed (is_empty name) _ _ v v
register-Indexed name (events es) addr uuid e v =
    if-Indexed (is_empty name) _ _ v (register_events-Indexed name es addr uuid e v)

deref-lookup :
    (o : Option ℕ) (e : ExtensionsApi) (h : ℕ) (x : Extension)
    → deref o e ≡ some (h, x)
    → lookup h e.heap ≡ some x
unfolding deref
deref-lookup none e h x d = ground arith
deref-lookup (some k) e h x d = elim (Option-cases (lookup k e.heap)) [
  | inl n ↦ ground (arith, n)
  | inr (y, s) ↦ ground (arith, s)
]

await_event-Indexed :
    (h : ℕ) (x : Extension) (wait : Wait) (e : ExtensionsApi)
    → lookup h e.heap ≡ some x
    → Indexed e
    → Indexed (await_event h x wait e).0
unfolding await_event
await_event-Indexed h x cancelled e at v = v
await_event-Indexed h x (received event uuid now) e at v = rewritten-Indexed h x _ e at refl v

pub next-Indexed :
    (id : Bytes) (wait : Wait) (e : ExtensionsApi) → Indexed e → Indexed (next id wait e).0
unfolding next
next-Indexed id wait e v =
    if-Indexed (is_empty id) _ _ v (elim (Option-cases (deref (extension_by_id_of id e) e)) [
      | inl n ↦ rw (n, next) v
      | inr ((h, x), d) ↦ rw (d, next) (await_event-Indexed h x wait e (deref-lookup _ e h x d) v)
    ])

pub unregister-Indexed :
    (pid nproc : ℕ) (e : ExtensionsApi)
    → Indexed e
    → Indexed (unregister_lambda_runtime pid nproc e)
unfolding unregister_lambda_runtime
unregister-Indexed pid nproc e v = record {
  old = v.old;
  named = λ id h l.
      v.named id h
        (ground (arith, lookup-delete_ids id e.heap (indexed_by_pgid pid e) e.extension_by_id));
}

pub map-Indexed :
    (state : ConnState) (address : Bytes) (peer : Option (ℕ × ℕ)) (e : ExtensionsApi)
    → Indexed e
    → Indexed (map_remote_addr_to_extensions state address peer e)
unfolding map_remote_addr_to_extensions
map-Indexed state_new address none e v = if-intro Indexed (not e.enabled) e _ v v
map-Indexed state_new address (some (pid, pgid)) e v =
    if-intro Indexed (not e.enabled) e _ v (record { old = v.old; named = v.named })
map-Indexed state_closed address peer e v =
    if-intro Indexed (not e.enabled) e _ v (record { old = v.old; named = v.named })
map-Indexed state_other address peer e v = if-intro Indexed (not e.enabled) e _ v v
