-- ===== src/Examples/Closings.antt =====
-- Producers that close, programs that end and loggers at concrete inputs.
use lambda_runtime_api_daemo.Base.{
  ℕ, suc, ◌≤◌, ◌≡◌, refl, ◌⊎◌, inl, Bool, true, false, Option, none, some, [], ◌∷◌, arith, leb,
  if◌then◌else◌, is_some, nat_eq, Bytes, codes, bytes_beq, bytes_eq, to_lower, ℤ, negsuc,
}
use lambda_runtime_api_daemo.Messaging.Message.{zero_message}
use lambda_runtime_api_daemo.Messaging.Dispatcher.{
  Dispatchers, Work, idle, holding, checking, not_called, draining, enqueue, make_waiter,
  begin_close, waiting, publish_held, publishes, begins, waits, sends, here, later,
}
use lambda_runtime_api_daemo.Messaging.Conservation.{count_all, Run-count}
use lambda_runtime_api_daemo.Messaging.Draining.{none_yet, more, Close-returns}
use lambda_runtime_api_daemo.Messaging.Stranding.{Stranded, Close-Stranded}
use lambda_runtime_api_daemo.Logging.Handlers.{
  LogRecord, ZapLevel, rank, initialise_logging, log, parse_level,
}
use lambda_runtime_api_daemo.Config.Util.{Environment}
use lambda_runtime_api_daemo.Logging.Backends.{with_all, initialise_logging-log}

-- Two dispatchers, the second of which has a message; another message waits.
abbrev busy : Dispatchers
busy = record {
  queue = zero_message ∷ [];
  buf_size = 10;
  pool_size = 2;
  workers = idle ∷ holding zero_message ∷ [];
  waiter = none;
  published = [];
  dropped = [];
  closing = not_called;
  closed = false;
  cancelled = false;
  panicked = false;
}

-- Close is past its test and has made the waiter.
abbrev closing_busy : Dispatchers
closing_busy = record busy { waiter = some 0; closing = waiting }

-- Close begins, another message is sent, and Close makes the waiter.
Run-count_example :
    count_all (λ m. true) (record closing_busy { queue = zero_message ∷ zero_message ∷ [] }) ≡ 3
unfolding begin_close enqueue make_waiter
Run-count_example =
    Run-count (λ m. true) {d = busy}
      (later
        (later (later here (begins busy refl))
          (sends zero_message (begin_close busy) (ground arith)))
        (waits (enqueue zero_message (begin_close busy)) refl))

Close-returns_example :
    (1 ≤ 5)
    × (((n : ℕ) × (closing_busy.waiter ≡ some (suc n)))
        ⊎ ((f : Dispatchers) × Work
              (record closing_busy {
                published = (1, zero_message) ∷ [];
                workers = idle ∷ checking ∷ [];
              })
              f))
unfolding publish_held
Close-returns_example =
    Close-returns closing_busy refl (inl (ground arith)) 1
      (record closing_busy { published = (1, zero_message) ∷ []; workers = idle ∷ checking ∷ [] })
      (more none_yet (publishes 1 true zero_message closing_busy refl))

-- The queue has become empty before Close makes the waiter.
abbrev drained : Dispatchers
drained = record busy { queue = []; workers = idle ∷ idle ∷ []; closing = draining }

Close-Stranded_example : Stranded (make_waiter drained)
Close-Stranded_example = Close-Stranded drained here refl refl refl

-- A request at the level debug, whose text is "DEBUG".
abbrev unmarshal : Bytes → Option ℤ
unmarshal s = if bytes_beq s (codes "debug") then some (negsuc 3) else none

abbrev ranked : ZapLevel → ZapLevel → Bool
ranked a b = leb (rank a) (rank b)

ranked-true : (a b : ZapLevel) → rank a ≤ rank b → ranked a b ≡ true
ranked-true a b h = ground arith

abbrev debug_record : LogRecord
debug_record = record {
  time = [];
  level = negsuc 3;
  level_text = codes "DEBUG";
  message = codes "hello";
  attrs = [];
}

abbrev structured : Environment
structured = (codes "USE_STRUCTURED_LOGGING", codes "true") ∷ []

initialise_logging-log_example :
    is_some (
      log ranked
        (with_all ([] ∷ []) (
          initialise_logging unmarshal (λ s. s) structured (codes "lambda-server") (codes "Debug")))
        debug_record)
    ≡ true
unfolding bytes_beq parse_level to_lower
initialise_logging-log_example =
    initialise_logging-log unmarshal (λ s. s) ranked ranked-true structured (codes "lambda-server")
      (codes "Debug") ([] ∷ []) debug_record
