-- ===== src/Invoke/Release.antt =====
-- What the RPC server and the RPCInvoker release when their goroutine ends.
use mathlib.Core.Path.{subst}
use mathlib.Core.List.{reverse, reverse-cons, append-nil}
use lambda_runtime_api_daemo.Base.{
  ℕ, ◌≡◌, refl, sym, ap, ◌∙◌, inl, inr, Bool, true, false, ◌||◌, Option, none, some, List, [], ◌∷◌,
  ◌++◌, map, if◌then◌else◌, Bool-cases, Option-cases, is_some, nat_eq, set, Bytes, bytes_eq,
  is_empty,
}
use lambda_runtime_api_daemo.Messaging.Message.{Message}
use lambda_runtime_api_daemo.Invoke.Rpc.{Incoming}
use lambda_runtime_api_daemo.Invoke.Acts.{
  opens, closes, launches, exits_last, exit_free, closes-append, opens-closing, launches-closing,
  exit_free-append, exits_last-free, exits_last-exits,
}
use lambda_runtime_api_daemo.Invoke.Service.{
  finish, Stage, Act, failed, closed, exits, Run, Event, arrives, close_notified, stopped, loop,
  is_deferred, scoped, open_stages, serve, server_stages, rpc_server, invoker_stages,
  incoming_message, rpc_invoker,
}

-- Whether a step is refused, and whether the loop is left.
abbrev pub is_refused : (Stage → Option Bytes) → List Stage → Bool
is_refused answer [] = false
is_refused answer (s ∷ ss) = is_some (answer s) || is_refused answer ss

abbrev pub is_left : {M : Type 0} → List (Event M) → Bool
is_left [] = false
is_left (arrives m ∷ es) = is_left es
is_left (close_notified e ∷ es) = is_some e || is_left es
is_left (stopped ∷ es) = true

-- The messages that arrive until the loop is left.
abbrev pub arrivals : {M : Type 0} → List (Event M) → List M
arrivals [] = []
arrivals (arrives m ∷ es) = m ∷ arrivals es
arrivals (close_notified none ∷ es) = arrivals es
arrivals (close_notified (some e) ∷ es) = []
arrivals (stopped ∷ es) = []

abbrev Released : Run → Type 0
Released r = closes r.acts ≡ (if r.ended then reverse (opens r.acts) else [])

-- What a run is, short of its exit: whether it ends, what it releases and what it hands over.
abbrev Serves : Bool → List Message → Run → Type 0
Serves ended ms r =
    (r.ended ≡ ended) × Released r × (launches r.acts ≡ ms) × (exit_free r.acts ≡ true)

loop-Serves :
    {M : Type 0} (handed : M → Message) (es : List (Event M))
    → Serves (is_left es) (map handed (arrivals es)) (loop handed es)
unfolding loop
loop-Serves handed [] = (refl, refl, refl, refl)
loop-Serves handed (arrives m ∷ es) =
    let (e, c, l, x) = loop-Serves handed es in (e, c, ap (λ ms. handed m ∷ ms) l, x)
loop-Serves handed (close_notified none ∷ es) = loop-Serves handed es
loop-Serves handed (close_notified (some e) ∷ es) = (refl, refl, refl, refl)
loop-Serves handed (stopped ∷ es) = (refl, refl, refl, refl)

scoped_closing :
    (s : Stage) (a : List Act)
    → closes a ≡ reverse (opens a)
    → closes (a ++ closed s ∷ []) ≡ reverse (s ∷ opens (a ++ closed s ∷ []))
scoped_closing s a c =
    closes-append a (closed s ∷ [])
    ∙ ap (λ l. l ++ s ∷ []) c
    ∙ sym (reverse-cons s (opens a))
    ∙ ap (λ l. reverse (s ∷ l)) (sym (opens-closing a (closed s) refl))

scoped-Serves :
    (s : Stage) (ended : Bool) (ms : List Message) (r : Run)
    → Serves ended ms r
    → Serves ended ms (scoped s r)
scoped-Serves s ended ms r (e, c, l, x) =
    let c' =
      λ (b : Bool) (en : r.ended ≡ b). c ∙ ap (λ z. if z then reverse (opens r.acts) else []) en in
    elim (Bool-cases r.ended) [
      | inl en ↦ elim (Bool-cases (is_deferred s)) [
        | inl d ↦
            rw (en, d)
              (
                sym en ∙ e,
                scoped_closing s r.acts (c' true en),
                launches-closing r.acts (closed s) refl ∙ l,
                exit_free-append r.acts (closed s) x,
              )
        | inr d ↦ rw (en, d, append-nil r.acts) (sym en ∙ e, c' true en, l, x)
      ]
      | inr en ↦ rw (en, append-nil r.acts) (sym en ∙ e, c' false en, l, x)
    ]

abbrev served :
    {M : Type 0}
    → (M → Message)
    → List Stage
    → (Stage → Option Bytes)
    → List (Event M)
    → List Message
served handed stages answer es = if is_refused answer stages then [] else map handed (arrivals es)

open_stages-opened :
    (s : Stage) (ss : List Stage) (answer : Stage → Option Bytes) (r : Run)
    → answer s ≡ none
    → open_stages answer (s ∷ ss) r ≡ scoped s (open_stages answer ss r)
unfolding open_stages
open_stages-opened s ss answer r a = rw (a, open_stages)

open_stages-refused :
    (s : Stage) (ss : List Stage) (answer : Stage → Option Bytes) (r : Run) (e : Bytes)
    → answer s ≡ some e
    → open_stages answer (s ∷ ss) r ≡ record { acts = failed e ∷ []; ended = true }
unfolding open_stages
open_stages-refused s ss answer r e a = rw (a, open_stages)

open_stages-Serves :
    {M : Type 0} (handed : M → Message) (stages : List Stage) (answer : Stage → Option Bytes)
    (es : List (Event M))
    → Serves
        (is_refused answer stages || is_left es)
        (served handed stages answer es)
        (open_stages answer stages (loop handed es))
unfolding open_stages
open_stages-Serves handed [] answer es = loop-Serves handed es
open_stages-Serves handed (s ∷ ss) answer es = elim (Option-cases (answer s)) [
  | inl a ↦
      rw (open_stages-opened s ss answer (loop handed es) a, a)
        (scoped-Serves s _ _ (open_stages answer ss (loop handed es))
          (open_stages-Serves handed ss answer es))
  | inr (e, a) ↦
      rw (open_stages-refused s ss answer (loop handed es) e a, a) (refl, refl, refl, refl)
]

-- A goroutine of a service: whether it ends, what it closes, what it hands over, and how it exits.
abbrev pub Completes : Bool → List Message → Run → Type 0
Completes ended ms r =
    (r.ended ≡ ended)
    × (closes r.acts ≡ (if ended then reverse (opens r.acts) else []))
    × (launches r.acts ≡ ms)
    × (exits_last r.acts ≡ ended)

finish-Completes :
    (ms : List Message) (r : Run) → Serves r.ended ms r → Completes r.ended ms (finish r)
finish-Completes ms r (e, c, l, x) =
    let c' =
      λ (b : Bool) (en : r.ended ≡ b). c ∙ ap (λ z. if z then reverse (opens r.acts) else []) en in
    elim (Bool-cases r.ended) [
      | inl en ↦ rw en (
        refl,
        closes-append r.acts (exits ∷ [])
            ∙ append-nil (closes r.acts)
            ∙ c' true en
            ∙ ap reverse (sym (opens-closing r.acts exits refl)),
        launches-closing r.acts exits refl ∙ l,
        exits_last-exits r.acts x,
      )
      | inr en ↦ rw en (refl, c' false en, l, exits_last-free r.acts x)
    ]

serve-Completes :
    {M : Type 0} (handed : M → Message) (stages : List Stage) (answer : Stage → Option Bytes)
    (es : List (Event M))
    → Completes
        (is_refused answer stages || is_left es)
        (served handed stages answer es)
        (serve handed stages answer es)
unfolding serve
serve-Completes handed stages answer es =
    let r = open_stages answer stages (loop handed es) in
    let (e, c, l, x) = open_stages-Serves handed stages answer es in
    subst (λ b. Completes b (served handed stages answer es) (finish r)) e
      (finish-Completes (served handed stages answer es) r (refl, c, l, x))

-- The RPC server with a URI, and likewise the RPCInvoker: its goroutine ends exactly if one of its
-- connections, sessions, its consumer or its producer is refused, or the loop is left by a close
-- notification with an error or by the cancelled context. If it ends, it closes each connection
-- and session that it has opened, once and in the reverse order, and its one exit of the process
-- is what it does last; if not, it closes none and does not exit. Handlers get the messages that
-- arrive until the loop is left, and none if a step is refused.
pub services-Completes :
    (uri name : Bytes) (concurrency : ℕ) (answer : Stage → Option Bytes) (es : List (Event Message))
    (fs : List (Event Incoming))
    → is_empty uri ≡ false
    → Completes
        (is_refused answer (server_stages name concurrency) || is_left es)
        (served (λ m. m) (server_stages name concurrency) answer es)
        (rpc_server uri name concurrency answer es)
      × Completes
          (is_refused answer invoker_stages || is_left fs)
          (served incoming_message invoker_stages answer fs)
          (rpc_invoker answer fs)
unfolding rpc_server rpc_invoker
services-Completes uri name concurrency answer es fs set = (
  rw (rpc_server, set) (serve-Completes (λ m. m) (server_stages name concurrency) answer es),
  serve-Completes incoming_message invoker_stages answer fs,
)
