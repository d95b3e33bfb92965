-- ===== src/Extensions/Lifecycle.antt =====
-- The three maps of the Extensions API over the life of a Lambda instance.
use lambda_runtime_api_daemo.Extensions.Api.{new_extension}
use lambda_runtime_api_daemo.Base.{
  ℕ, suc, ◌<◌, ◌≡◌, refl, inl, inr, Bool, true, false, ◌||◌, none, some, [], ◌∷◌, ◌++◌, arith,
  if◌then◌else◌, Bool-cases, Option-cases, is_some, ◌==◌, nat_eq, beq-eq, Bytes, bytes_eq, GoMap,
  lookup, delete, insert, lookup-delete, lookup-insert, lookup-insert_self,
}
use lambda_runtime_api_daemo.Extensions.Slice.{Extension, Heap, ExtensionSlice}
use lambda_runtime_api_daemo.Extensions.Api.{
  ExtensionsApi, add, indexed_by_pgid, extension_by_id_of, delete_ids, unregister_lambda_runtime,
}

-- One of the slice's handles has the identifier.
abbrev pub has_id : Heap → ExtensionSlice → Bytes → Bool
has_id heap [] id = false
has_id heap (h ∷ es) id =
    elim (lookup h heap) [ none ↦ false | some x ↦ x.id == id ] || has_id heap es id

pub lookup-delete_ids :
    (id : Bytes) (heap : Heap) (es : ExtensionSlice) (m : GoMap Bytes ℕ)
    → lookup id (delete_ids heap es m) ≡ (if has_id heap es id then none else lookup id m)
unfolding delete_ids
lookup-delete_ids id heap [] m = refl
lookup-delete_ids id heap (h ∷ es) m = elim (Option-cases (lookup h heap)) [
  | inl e ↦ rw (e, delete_ids) (lookup-delete_ids id heap es m)
  | inr (x, e) ↦
      rw (e, delete_ids)
        (ground (arith, lookup-delete_ids id heap es (delete x.id m), lookup-delete id x.id m))
]

-- Unregistering a Lambda instance drops the slice of its process group and the identifiers of that
-- slice's handles, and keeps every other entry of both maps and every handle.
pub unregister-indexed :
    (pid nproc pgid : ℕ) (id : Bytes) (e : ExtensionsApi)
    → let e' = unregister_lambda_runtime pid nproc e in
      (indexed_by_pgid pgid e' ≡ (if pid == pgid then [] else indexed_by_pgid pgid e))
      × (extension_by_id_of id e'
          ≡ (if has_id e.heap (indexed_by_pgid pid e) id then none else extension_by_id_of id e))
      × (e'.heap ≡ e.heap)
unfolding unregister_lambda_runtime indexed_by_pgid extension_by_id_of
unregister-indexed pid nproc pgid id e = (
  ground (arith, lookup-delete pgid pid e.extensions),
  lookup-delete_ids id e.heap (indexed_by_pgid pid e) e.extension_by_id,
  refl,
)

-- Each handle of the heap is older than the next, and each identifier names a handle that has it.
pub record Indexed (e : ExtensionsApi) : Type 0 where
  pub old : (h : ℕ) → is_some (lookup h e.heap) ≡ true → h < e.next_handle
  pub named :
      (id : Bytes) (h : ℕ)
      → lookup id e.extension_by_id ≡ some h
      → (x : Extension) × (lookup h e.heap ≡ some x) × (x.id ≡ id)

add-old :
    (x : Extension) (e : ExtensionsApi) (h : ℕ)
    → Indexed e
    → is_some (lookup h (insert e.next_handle x e.heap)) ≡ true
    → h < suc e.next_handle
add-old x e h v s = elim (Bool-cases (e.next_handle == h)) [
  | inl same ↦ ground arith
  | inr other ↦
      let before = v.old h (ground (arith, lookup-insert h e.next_handle x e.heap)) in omega arith
]

add-named :
    (x : Extension) (e : ExtensionsApi) (id : Bytes) (h : ℕ)
    → Indexed e
    → lookup id (insert x.id e.next_handle e.extension_by_id) ≡ some h
    → (y : Extension) × (lookup h (insert e.next_handle x e.heap) ≡ some y) × (y.id ≡ id)
add-named x e id h v l = elim (Bool-cases (x.id == id)) [
  | inl same ↦ (
    x,
    ground (
      arith,
      lookup-insert id x.id e.next_handle e.extension_by_id,
      lookup-insert h e.next_handle x e.heap,
    ),
    beq-eq same,
  )
  | inr other ↦
      let (y, at, named) =
        v.named id h (ground (arith, lookup-insert id x.id e.next_handle e.extension_by_id)) in
      let before = v.old h (rw at) in
      (y, ground (arith, lookup-insert h e.next_handle x e.heap, before), named)
]

-- Where each handle is older than the next one and each identifier names a handle that has it,
-- adding a handle keeps both so, makes its identifier name it and puts it last in the slice of its
-- process group.
pub add-Indexed :
    (name : Bytes) (pgid : ℕ) (uuid : Bytes) (e : ExtensionsApi)
    → Indexed e
    → Indexed (add name pgid uuid e)
      × (extension_by_id_of uuid (add name pgid uuid e) ≡ some e.next_handle)
      × (indexed_by_pgid pgid (add name pgid uuid e) ≡ indexed_by_pgid pgid e ++ e.next_handle ∷ [])
unfolding add indexed_by_pgid extension_by_id_of
add-Indexed name pgid uuid e v =
    let x = new_extension name uuid in
    (
      record { old = λ h. add-old x e h v; named = λ id h. add-named x e id h v },
      lookup-insert_self uuid e.next_handle e.extension_by_id,
      rw (lookup-insert_self pgid (indexed_by_pgid pgid e ++ e.next_handle ∷ []) e.extensions),
    )
