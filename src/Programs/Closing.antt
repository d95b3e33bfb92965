-- ===== src/Programs/Closing.antt =====
-- How the two programs end.
use lambda_runtime_api_daemo.Base.{
  ℕ, ◌≡◌, ◌⊎◌, Bool, true, false, not, ◌||◌, List, [], ◌∷◌, ◌++◌, if◌then◌else◌, nat_eq, Bytes,
  bytes_eq, is_empty,
}
use lambda_runtime_api_daemo.Programs.Exit.{
  invoke_api, runtime_api, rpc_server, Effect, shuts_down, cancels, syncs,
}

-- Whether some HTTP server has been shut down.
abbrev pub has_shutdown : List Effect → Bool
has_shutdown [] = false
has_shutdown (shuts_down s ∷ es) = true
has_shutdown (_ ∷ es) = has_shutdown es

-- What the daemon does at its end without a broker.
abbrev pub orderly : List Effect
orderly = shuts_down invoke_api ∷ shuts_down runtime_api ∷ syncs ∷ []

-- Some first part of what is done in the end.
abbrev pub Partly : List Effect → List Effect → Type 0
Partly seen all = (rest : List Effect) × (all ≡ seen ++ rest)

-- The daemon ends in order, or early by its RPC server.
abbrev pub Ends : Bytes → Bool → List Effect → ℕ → Type 0
Ends uri ready seen status =
    ((status ≡ 0) × (seen ≡ orderly) × (is_empty uri || not ready ≡ true))
    ⊎ ((status ≡ 1)
        × (is_empty uri ≡ false)
        × Partly seen (if ready then cancels rpc_server ∷ orderly else orderly))
