-- ===== src/Programs/Exit.antt =====
-- cmd/lambda-runtime-api-daemon/main.go and cmd/lambda-server/main.go from the return of
-- HandleSignals on, with the Close methods that they defer: pkg/invokeapi/invokeapiserver.go,
-- rpcserver.go, rpcinvoker.go, rapiinvoker.go and pkg/runtimeapi/runtimeapiserver.go. A function is
-- the list of what it does; Goexit leaves it, and the deferred calls that remain are made.
use lambda_runtime_api_daemo.Base.{
  ℕ, ◌≡◌, Bool, true, false, not, ◌||◌, List, [], ◌∷◌, ◌++◌, if◌then◌else◌, nat_eq, Bytes, bytes_eq,
  is_empty,
}

pub data Server : Type 0 where
  invoke_api runtime_api : Server

pub data Service : Type 0 where
  rpc_server rpc_invoker : Service

-- shutting down an HTTP server, cancelling the context of a service's goroutine, flushing the log.
pub data Effect : Type 0 where
  shuts_down : Server → Effect
  cancels : Service → Effect
  syncs : Effect

pub data Op : Type 0 where
  does : Effect → Op
  goexit : Op

-- What a deferred call does: its steps up to a Goexit.
unfoldable pub effects : List Op → List Effect
effects [] = []
effects (does e ∷ os) = e ∷ effects os
effects (goexit ∷ os) = []

abbrev pub leaves : List Op → Bool
leaves [] = false
leaves (does e ∷ os) = leaves os
leaves (goexit ∷ os) = true

unfoldable pub run_deferred : List (List Op) → List Effect
unfolding effects
run_deferred [] = []
run_deferred (f ∷ fs) = effects f ++ run_deferred fs

-- The main goroutine does not return if one of its deferred calls has left it.
unfoldable pub is_left : List (List Op) → Bool
is_left [] = false
is_left (f ∷ fs) = leaves f || is_left fs

unfoldable pub close_rapi_invoker : List Op
close_rapi_invoker = []

-- `ready` says whether the service's goroutine has set the close function, which is a NOOP until
-- then.
unfoldable pub close_rpc_invoker : Bool → List Op
close_rpc_invoker ready = if ready then does (cancels rpc_invoker) ∷ goexit ∷ [] else []

unfoldable pub close_rpc_server : Bytes → Bool → List Op → List Op
close_rpc_server uri ready close_invoker =
    if is_empty uri || not ready
    then []
    else close_invoker ++ does (cancels rpc_server) ∷ goexit ∷ []

unfoldable pub close_invoke_api : List Op → List Op
close_invoke_api close_invoker = close_invoker ++ does (shuts_down invoke_api) ∷ []

unfoldable pub close_runtime_api : List Op
close_runtime_api = does (shuts_down runtime_api) ∷ []

abbrev pub sync : List Op
sync = does syncs ∷ []

-- The deferred calls of the daemon's main, the last first, for a broker's URI.
unfoldable pub daemon_deferred : Bytes → Bool → List (List Op)
unfolding close_rapi_invoker close_rpc_server close_invoke_api close_runtime_api
daemon_deferred uri ready =
    close_rpc_server uri ready close_rapi_invoker
    ∷ close_invoke_api close_rapi_invoker
    ∷ close_runtime_api
    ∷ sync
    ∷ []

-- Those of the Lambda server's main.
unfoldable pub server_deferred : Bool → List (List Op)
unfolding close_rpc_invoker close_invoke_api
server_deferred ready = close_invoke_api (close_rpc_invoker ready) ∷ sync ∷ []

-- What is seen of a program with these deferred calls when it ends, and its status: if no call
-- leaves the main goroutine, all that they do, and 0. Go ends a program whose main returns with 0,
-- and lets one go on whose main goroutine is left. The goroutine of a service, if the program has
-- one, calls os.Exit(1), and the rest is not seen: when its context is cancelled, and also by itself
-- when the broker refuses or its connection is lost, so at any time.
pub data Exits (has_service : Bool) (fs : List (List Op)) : List Effect → ℕ → Type 0 where
  returns : is_left fs ≡ false → Exits has_service fs (run_deferred fs) 0
  cut :
      (seen rest : List Effect)
      → run_deferred fs ≡ seen ++ rest
      → has_service ≡ true
      → Exits has_service fs seen 1
