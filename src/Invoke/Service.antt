-- ===== src/Invoke/Service.antt =====
-- pkg/invokeapi/rpcserver.go and rpcinvoker.go: the goroutine that NewRPCServer and NewRPCInvoker
-- start. It opens its connections, sessions, consumer and producer, with a deferred Close of the
-- first four, and then loops. exitOnError and the end of the loop leave the goroutine by the
-- deferred calls, of which the first is os.Exit. What the broker answers to each step is an
-- argument; a run is the list of what the goroutine has done, oldest first, and whether it has
-- ended. The close function of a service cancels the context, which is the event `stopped`.
use lambda_runtime_api_daemo.Base.{
  ℕ, ◌*◌, Bool, true, false, ◌&&◌, Option, none, some, List, [], ◌∷◌, ◌++◌, if◌then◌else◌, nat_eq,
  Bytes, codes, bytes_eq, is_empty,
}
use lambda_runtime_api_daemo.Messaging.Message.{Message}
use lambda_runtime_api_daemo.Messaging.Session.{SessionOption, session_name, auto_ack_option}
use lambda_runtime_api_daemo.Invoke.Rpc.{Incoming, consumed, returned, unreachable}

pub data Stage : Type 0 where
  connects : Bytes → Stage
  begins_session : List SessionOption → Stage
  consumes : Bytes → ℕ → Stage
  produces : Bytes → Stage

pub data Act : Type 0 where
  opened : Stage → Act
  launched : Message → Act
  failed : Bytes → Act
  closed : Stage → Act
  exits : Act

pub record Run : Type 0 where
  pub acts : List Act
  pub ended : Bool

-- A case of the loop's select: a message, a close notification or the cancelled context.
pub data Event (M : Type 0) : Type 0 where
  arrives : M → Event M
  close_notified : Option Bytes → Event M
  stopped : Event M

abbrev pub after_act : Act → Run → Run
after_act a r = record r { acts = a ∷ r.acts }

-- The loop: each message is handed to a handler of its own.
unfoldable pub loop : {M : Type 0} → (M → Message) → List (Event M) → Run
loop handed [] = record { acts = []; ended = false }
loop handed (arrives m ∷ es) = after_act (launched (handed m)) (loop handed es)
loop handed (close_notified none ∷ es) = loop handed es
loop handed (close_notified (some e) ∷ es) = record { acts = failed e ∷ []; ended = true }
loop handed (stopped ∷ es) = record { acts = []; ended = true }

-- Connections and sessions have a deferred Close.
abbrev pub is_deferred : Stage → Bool
is_deferred (connects name) = true
is_deferred (begins_session options) = true
is_deferred (consumes address capacity) = false
is_deferred (produces address) = false

abbrev pub deferred : Stage → Run → List Act
deferred s r = if r.ended && is_deferred s then closed s ∷ [] else []

abbrev pub scoped : Stage → Run → Run
scoped s r = record r { acts = opened s ∷ (r.acts ++ deferred s r) }

unfoldable pub open_stages : (Stage → Option Bytes) → List Stage → Run → Run
open_stages answer [] r = r
open_stages answer (s ∷ ss) r =
    let rest = open_stages answer ss r in
    elim (answer s) [
      | some e ↦ record { acts = failed e ∷ []; ended = true }
      | none ↦ scoped s rest
    ]

-- The deferred os.Exit.
abbrev pub finish : Run → Run
finish r = if r.ended then record r { acts = r.acts ++ exits ∷ [] } else r

unfoldable pub serve :
    {M : Type 0} → (M → Message) → List Stage → (Stage → Option Bytes) → List (Event M) → Run
unfolding loop open_stages
serve handed stages answer es = finish (open_stages answer stages (loop handed es))

unfoldable pub server_stages : Bytes → ℕ → List Stage
server_stages name concurrency =
    connects (codes "RPC Consumer Connection")
    ∷ connects (codes "RPC Producer Connection")
    ∷ begins_session (session_name (codes "RPC consumer Session") ∷ [])
    ∷ begins_session (session_name (codes "RPC producer Session") ∷ [])
    ∷ consumes (name ++ codes "; {\"node\": {\"auto-delete\": true}}") (5 * concurrency)
    ∷ produces []
    ∷ []

-- NewRPCServer: without a URI it starts nothing.
unfoldable pub rpc_server : Bytes → Bytes → ℕ → (Stage → Option Bytes) → List (Event Message) → Run
unfolding serve server_stages
rpc_server uri name concurrency answer es =
    if is_empty uri
    then record { acts = []; ended = false }
    else serve (λ m. m) (server_stages name concurrency) answer es

unfoldable pub invoker_stages : List Stage
invoker_stages =
    connects (codes "RPC consumer Connection")
    ∷ connects (codes "RPC producer Connection")
    ∷ begins_session (auto_ack_option ∷ session_name (codes "RPC consumer Session") ∷ [])
    ∷ begins_session (session_name (codes "RPC producer Session") ∷ [])
    ∷ consumes [] 100
    ∷ produces []
    ∷ []

unfoldable pub incoming_message : Incoming → Message
unfolding unreachable
incoming_message (consumed m) = m
incoming_message (returned m) = unreachable m

unfoldable pub rpc_invoker : (Stage → Option Bytes) → List (Event Incoming) → Run
unfolding serve invoker_stages incoming_message
rpc_invoker answer es = serve incoming_message invoker_stages answer es
