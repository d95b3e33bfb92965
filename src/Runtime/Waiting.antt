-- ===== src/Runtime/Waiting.antt =====
-- What a Runtime that has just started waits for.
use mathlib.Core.Path.{subst}
use mathlib.Core.List.{append-nil, append_assoc}
use lambda_runtime_api_daemo.Base.{
  ℕ, suc, ◌<◌, ◌≡◌, refl, sym, ap, ◌∙◌, Bool, true, false, ◌&&◌, Option, none, some, List, [], ◌∷◌,
  ◌++◌, arith, nat_eq, length, All, Bytes, bytes_eq, lookup, insert, lookup-insert,
  lookup-insert_self,
}
use lambda_runtime_api_daemo.Extensions.Slice.{
  Extension, Heap, ExtensionSlice, registration_complete,
}
use lambda_runtime_api_daemo.Extensions.Api.{
  register_lambda_runtime, ExtensionsApi, add, new_extension, indexed_by_pgid,
}
use lambda_runtime_api_daemo.Process.Manager.{ManagedProcess, start, stop, to_process, sigstop}
use lambda_runtime_api_daemo.Runtime.Api.{register_lambda_runtime as register_runtime, RuntimeApi}
use lambda_runtime_api_daemo.Runtime.Instances.{Daemon, Child, on_register}
use lambda_runtime_api_daemo.Runtime.Startup.{
  start_extensions, with_extensions, start_extensions, start_runtime, base_name, add_started,
  add_all,
}

abbrev pub cons_some : Option Extension → List Extension → List Extension
cons_some none xs = xs
cons_some (some x) xs = x ∷ xs

abbrev pub new_started : Bytes → Option Bytes → Option Extension
new_started path none = none
new_started path (some uuid) = some (new_extension (base_name path) uuid)

-- The Extensions that start, new, in the order of their paths.
abbrev pub started : (Bytes → Option Bytes) → List Bytes → List Extension
started exec [] = []
started exec (p ∷ ps) = cons_some (new_started p (exec p)) (started exec ps)

-- The structs of a slice's handles.
abbrev pub structs : Heap → ExtensionSlice → List Extension
structs heap [] = []
structs heap (h ∷ es) = cons_some (lookup h heap) (structs heap es)

cons_some-append :
    (o : Option Extension) (xs ys : List Extension) → cons_some o xs ++ ys ≡ cons_some o (xs ++ ys)
cons_some-append none xs ys = refl
cons_some-append (some x) xs ys = refl

abbrev pub members : ℕ → ExtensionsApi → List Extension
members pgid e = structs e.heap (indexed_by_pgid pgid e)

-- Each handle of the process group's slice is older than the next.
abbrev Older : ℕ → ExtensionsApi → Type 0
Older pgid e = All (λ h. h < e.next_handle) (indexed_by_pgid pgid e)

structs-new :
    (heap : Heap) (next : ℕ) (x : Extension) (es : ExtensionSlice)
    → All (λ h. h < next) es
    → structs (insert next x heap) (es ++ next ∷ []) ≡ structs heap es ++ x ∷ []
structs-new heap next x [] a = ap (λ o. cons_some o []) (lookup-insert_self next x heap)
structs-new heap next x (h ∷ es) (lt, a) =
    let same : lookup h (insert next x heap) ≡ lookup h heap =
      ground (arith, lookup-insert h next x heap, lt) in
    ap (λ o. cons_some o (structs (insert next x heap) (es ++ next ∷ []))) same
    ∙ ap (cons_some (lookup h heap)) (structs-new heap next x es a)
    ∙ sym (cons_some-append (lookup h heap) (structs heap es) (x ∷ []))

indexed-add :
    (name : Bytes) (pgid : ℕ) (uuid : Bytes) (e : ExtensionsApi)
    → indexed_by_pgid pgid (add name pgid uuid e) ≡ indexed_by_pgid pgid e ++ e.next_handle ∷ []
unfolding add indexed_by_pgid
indexed-add name pgid uuid e =
    rw (lookup-insert_self pgid (indexed_by_pgid pgid e ++ e.next_handle ∷ []) e.extensions)

members-add :
    (name : Bytes) (pgid : ℕ) (uuid : Bytes) (e : ExtensionsApi)
    → Older pgid e
    → members pgid (add name pgid uuid e) ≡ members pgid e ++ new_extension name uuid ∷ []
unfolding add
members-add name pgid uuid e a =
    ap (structs (add name pgid uuid e).heap) (indexed-add name pgid uuid e)
    ∙ structs-new e.heap e.next_handle (new_extension name uuid) (indexed_by_pgid pgid e) a

Older-suc :
    (n : ℕ) (es : ExtensionSlice) → All (λ h. h < n) es → All (λ h. h < suc n) (es ++ n ∷ [])
Older-suc n [] a = (omega arith, tt)
Older-suc n (h ∷ es) (lt, a) = (omega arith, Older-suc n es a)

add-Older :
    (name : Bytes) (pgid : ℕ) (uuid : Bytes) (e : ExtensionsApi)
    → Older pgid e
    → Older pgid (add name pgid uuid e)
unfolding add
add-Older name pgid uuid e a =
    subst (All (λ h. h < suc e.next_handle)) (sym (indexed-add name pgid uuid e))
      (Older-suc e.next_handle (indexed_by_pgid pgid e) a)

members-add_started :
    (pgid : ℕ) (path : Bytes) (o : Option Bytes) (e : ExtensionsApi) (xs : List Extension)
    → Older pgid e
    → Older pgid (add_started pgid path o e)
      × (members pgid (add_started pgid path o e) ++ xs
          ≡ members pgid e ++ cons_some (new_started path o) xs)
members-add_started pgid path none e xs a = (a, refl)
members-add_started pgid path (some uuid) e xs a = (
  add-Older (base_name path) pgid uuid e a,
  ap (λ l. l ++ xs) (members-add (base_name path) pgid uuid e a)
      ∙ append_assoc (members pgid e) (new_extension (base_name path) uuid ∷ []) xs,
)

members-add_all :
    (pgid : ℕ) (exec : Bytes → Option Bytes) (ps : List Bytes) (e : ExtensionsApi)
    → Older pgid e
    → members pgid (add_all pgid exec ps e) ≡ members pgid e ++ started exec ps
unfolding add_all
members-add_all pgid exec [] e a = sym (append-nil (members pgid e))
members-add_all pgid exec (p ∷ ps) e a =
    let (older, grown) = members-add_started pgid p (exec p) e (started exec ps) a in
    members-add_all pgid exec ps (add_started pgid p (exec p) e) older ∙ grown

abbrev all_registered : List Extension → Bool
all_registered [] = true
all_registered (x ∷ xs) = x.await_closed && all_registered xs

registration_complete-structs :
    (heap : Heap) (es : ExtensionSlice)
    → registration_complete heap es ≡ all_registered (structs heap es)
unfolding registration_complete
registration_complete-structs heap [] = refl
registration_complete-structs heap (h ∷ es) = ground (arith, registration_complete-structs heap es)

abbrev pub is_none : List Extension → Bool
is_none [] = true
is_none (x ∷ xs) = false

all_registered-started :
    (exec : Bytes → Option Bytes) (ps : List Bytes)
    → all_registered (started exec ps) ≡ is_none (started exec ps)
all_registered-started exec [] = refl
all_registered-started exec (p ∷ ps) = ground (arith, all_registered-started exec ps)

registered-extensions :
    (pid nproc : ℕ) (e : ExtensionsApi)
    → indexed_by_pgid pid (register_lambda_runtime pid nproc e) ≡ []
unfolding register_lambda_runtime indexed_by_pgid
registered-extensions pid nproc e = rw (lookup-insert_self pid [] e.extensions)

-- From the Runtime's registration on.
with_extensions-members :
    (mp : ManagedProcess) (exec : Bytes → Option Bytes) (p : Bytes) (ps : List Bytes)
    (r : RuntimeApi)
    → indexed_by_pgid mp.pid r.extensions ≡ []
    → let e = add_all mp.pid exec (p ∷ ps) r.extensions in
      (members mp.pid e ≡ started exec (p ∷ ps))
      × (registration_complete e.heap (indexed_by_pgid mp.pid e) ≡ is_none (started exec (p ∷ ps)))
with_extensions-members mp exec p ps r empty =
    let e = add_all mp.pid exec (p ∷ ps) r.extensions in
    let older = subst (All (λ h. h < r.extensions.next_handle)) (sym empty) tt in
    let all : members mp.pid e ≡ started exec (p ∷ ps) =
      members-add_all mp.pid exec (p ∷ ps) r.extensions older
      ∙ ap (λ es. structs r.extensions.heap es ++ started exec (p ∷ ps)) empty in
    (
      all,
      registration_complete-structs e.heap (indexed_by_pgid mp.pid e)
          ∙ ap all_registered all
          ∙ all_registered-started exec (p ∷ ps),
    )

abbrev pub extensions_of : Option RuntimeApi → Option ExtensionsApi
extensions_of none = none
extensions_of (some r) = some r.extensions

start_extensions-some :
    (exec : Bytes → Option Bytes) (mp : ManagedProcess) (d : Daemon) (r : RuntimeApi) (p : Bytes)
    (ps : List Bytes)
    → d.client ≡ some r
    → r.extensions.extension_paths ≡ p ∷ ps
    → start_extensions exec (mp, d) ≡ with_extensions mp exec (p ∷ ps) r d
unfolding start_extensions
start_extensions-some exec mp d r p ps e f = rw (start_extensions, e, f)

-- A Runtime is started on a daemon that has paths of External Extensions: the handles of its process
-- group are then those of the Extensions that start, in the order of their paths, none of them
-- registered; the Runtime gets SIGSTOP and no other signal is sent; and its wait for their
-- registration is over at once exactly if none has started.
pub start_runtime-waits :
    (now : ℕ) (c : Child) (exec : Bytes → Option Bytes) (d : Daemon) (r : RuntimeApi) (p : Bytes)
    (ps : List Bytes)
    → d.client ≡ some r
    → r.extensions.extension_paths ≡ p ∷ ps
    → let d' = start_runtime now c exec d in
      (e : ExtensionsApi) × (extensions_of d'.client ≡ some e)
      × (members c.pid e ≡ started exec (p ∷ ps))
      × (registration_complete e.heap (indexed_by_pgid c.pid e) ≡ is_none (started exec (p ∷ ps)))
      × (d'.kills ≡ d.kills ++ to_process c.pid sigstop ∷ [])
unfolding start_runtime start start_extensions on_register stop register_lambda_runtime
start_runtime-waits now c exec d r p ps alive paths =
    let (mp, d1) = start (on_register now) c.pid 0 c.own_pgid d in
    let r1 = register_runtime now c.pid (length d1.processes) r in
    let registered : d1.client ≡ some r1 = ap (on_register now c.pid (length d1.processes)) alive in
    let q = start_extensions-some exec mp d1 r1 p ps registered paths in
    let (all, ready) =
      with_extensions-members mp exec p ps r1
        (registered-extensions c.pid (length d1.processes) r.extensions) in
    (
      add_all c.pid exec (p ∷ ps) r1.extensions,
      ap (λ (t : Daemon). extensions_of t.client) q,
      all,
      ready,
      ap (λ (t : Daemon). t.kills) q,
    )
