-- ===== src/Http.antt =====
-- What a net/http handler writes: status, headers in the order they are set, body.
use lambda_runtime_api_daemo.Base.{ℕ, List, [], nat_eq, Bytes, bytes_eq}

pub record HttpResponse : Type 0 where
  pub status : ℕ
  pub headers : List (Bytes × Bytes)
  pub body : Bytes

abbrev pub status_ok : ℕ
status_ok = 200

abbrev pub status_accepted : ℕ
status_accepted = 202

abbrev pub status_forbidden : ℕ
status_forbidden = 403

abbrev pub status_internal_server_error : ℕ
status_internal_server_error = 500

-- A status with a body and no header of the handler's own.
abbrev pub plain : ℕ → Bytes → HttpResponse
plain status body = record { status = status; headers = []; body = body }
