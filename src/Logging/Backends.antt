-- ===== src/Logging/Backends.antt =====
-- The two logging back ends agree on what is logged (pkg/logging).
use lambda_runtime_api_daemo.Base.{
  ◌≤◌, ◌≡◌, ap, inl, inr, Bool, true, false, Option, none, some, List, [], ◌∷◌, arith,
  if◌then◌else◌, Bool-cases, is_some, ◌==◌, nat_eq, Bytes, codes, bytes_eq, is_empty, to_lower,
  to_lower_idem, ℤ, pos, negsuc,
}
use lambda_runtime_api_daemo.Config.Util.{Environment, getenv}
use lambda_runtime_api_daemo.Logging.Handlers.{
  Attr, LogRecord, ZapLevel, at_most, slog_to_zap_level, rank, Handler, plain, zap,
  new_slog_zap_handler, new_slog_plain_handler, enabled, with_attrs, handle_plain, handle_zap,
  handle, log, parse_level, app_name, set_default, initialise_logging,
}

-- A level that another one is at most, and the levels of zap that stand for them.
rank-le : (l m : ℤ) → at_most l m ≡ true → rank (slog_to_zap_level l) ≤ rank (slog_to_zap_level m)
unfolding slog_to_zap_level
rank-le (pos a) (pos b) p = ground arith
rank-le (pos a) (negsuc b) p = ground arith
rank-le (negsuc a) (pos b) p = ground arith
rank-le (negsuc a) (negsuc b) p = ground arith

-- A handler of either back end with the level l; zap's core has the level that stands for l.
abbrev HasLevel : ℤ → Handler → Type 0
HasLevel l (plain level attrs) = level ≡ l
HasLevel l (zap core level attrs) = (level ≡ l) × (core ≡ slog_to_zap_level l)

with_attrs-HasLevel :
    (as' : List Attr) (l : ℤ) (h : Handler) → HasLevel l h → HasLevel l (with_attrs as' h)
unfolding with_attrs
with_attrs-HasLevel as' l (plain level attrs) p = p
with_attrs-HasLevel as' l (zap core level attrs) p = p

-- The handler of a logger that was made by calls of With.
unfoldable pub with_all : List (List Attr) → Handler → Handler
with_all [] h = h
with_all (as' ∷ rest) h = with_all rest (with_attrs as' h)

with_all-HasLevel :
    (ass : List (List Attr)) (l : ℤ) (h : Handler) → HasLevel l h → HasLevel l (with_all ass h)
unfolding with_all
with_all-HasLevel [] l h p = p
with_all-HasLevel (as' ∷ rest) l h p =
    with_all-HasLevel rest l (with_attrs as' h) (with_attrs-HasLevel as' l h p)

log-HasLevel :
    (takes : ZapLevel → ZapLevel → Bool)
    → ((a b : ZapLevel) → rank a ≤ rank b → takes a b ≡ true)
    → (l : ℤ) (h : Handler) (r : LogRecord) → HasLevel l h
    → is_some (log takes h r) ≡ at_most l r.level
unfolding log enabled handle handle_zap handle_plain
log-HasLevel takes reaches l (plain level attrs) r p = elim (Bool-cases (at_most l r.level)) [
  | inl t ↦ rw (p, t)
  | inr f ↦ rw (p, f)
]
log-HasLevel takes reaches l (zap core level attrs) r (p, q) =
    elim (Bool-cases (at_most l r.level)) [
      | inl t ↦
          let taken =
            reaches (slog_to_zap_level l) (slog_to_zap_level r.level) (rank-le l r.level t) in
          rw (p, q, t, taken)
      | inr f ↦ rw (p, f)
    ]

set_default-HasLevel :
    (name : Bytes) (l : ℤ) (h : Handler) → HasLevel l h → HasLevel l (set_default name h)
unfolding set_default
set_default-HasLevel name l h p = with_attrs-HasLevel _ l h p

-- The level that slog reads in the small letters of a text, or 0, which is info, if it reads none.
abbrev pub level_read : (Bytes → Option ℤ) → Bytes → ℤ
level_read unmarshal s = elim (unmarshal (to_lower s)) [ none ↦ pos 0 | some l ↦ l ]

-- The level of a text; an empty one stands for the text "info".
abbrev pub level_named : (Bytes → Option ℤ) → Bytes → ℤ
level_named unmarshal [] = level_read unmarshal (codes "info")
level_named unmarshal (c ∷ s) = level_read unmarshal (c ∷ s)

parse_level-to_lower :
    (unmarshal : Bytes → Option ℤ) (s : Bytes)
    → parse_level unmarshal (to_lower s) ≡ level_read unmarshal s
unfolding parse_level
parse_level-to_lower unmarshal s =
    ap (λ t. elim (unmarshal t) [ none ↦ pos 0 | some l ↦ l ]) (to_lower_idem s)

level_named-chosen :
    (unmarshal : Bytes → Option ℤ) (s : Bytes)
    → parse_level unmarshal (to_lower (if is_empty s then codes "info" else s))
      ≡ level_named unmarshal s
level_named-chosen unmarshal [] = parse_level-to_lower unmarshal _
level_named-chosen unmarshal (c ∷ s) = parse_level-to_lower unmarshal _

if-HasLevel :
    (b : Bool) (l : ℤ) (h k : Handler)
    → HasLevel l h
    → HasLevel l k
    → HasLevel l (if b then h else k)
if-HasLevel true l h k p q = p
if-HasLevel false l h k p q = q

initialise_logging-HasLevel :
    (unmarshal : Bytes → Option ℤ) (base_name : Bytes → Bytes) (env : Environment)
    (args0 log_level : Bytes)
    → HasLevel
        (level_named unmarshal log_level)
        (initialise_logging unmarshal base_name env args0 log_level)
unfolding initialise_logging new_slog_zap_handler new_slog_plain_handler
initialise_logging-HasLevel unmarshal base_name env args0 log_level =
    let level =
      parse_level unmarshal (to_lower (if is_empty log_level then codes "info" else log_level)) in
    let named = level_named unmarshal log_level in
    let e = level_named-chosen unmarshal log_level in
    let name = app_name base_name args0 in
    let human = plain level [] in
    let json = zap (slog_to_zap_level level) level [] in
    if-HasLevel
      (to_lower (getenv env (codes "USE_STRUCTURED_LOGGING") (codes "false")) == codes "false")
      named (set_default name human) (set_default name json)
      (set_default-HasLevel name named human e)
      (set_default-HasLevel name named json (e, ap slog_to_zap_level e))

-- For a test of levels by zap that lets a level pass that ranks no lower than the core's: the
-- default logger that InitialiseLogging sets, and each logger that calls of With make of it, write
-- a record exactly when its level is at least the one that slog reads in the text, in any case,
-- whichever back end the environment selects. An empty text stands for "info", and the level is 0
-- for a text in which slog reads none.
pub initialise_logging-log :
    (unmarshal : Bytes → Option ℤ) (base_name : Bytes → Bytes) (takes : ZapLevel → ZapLevel → Bool)
    → ((a b : ZapLevel) → rank a ≤ rank b → takes a b ≡ true)
    → (env : Environment) (args0 log_level : Bytes) (ass : List (List Attr)) (r : LogRecord)
    → is_some
        (log takes (with_all ass (initialise_logging unmarshal base_name env args0 log_level)) r)
      ≡ at_most (level_named unmarshal log_level) r.level
initialise_logging-log unmarshal base_name takes reaches env args0 log_level ass r =
    let h = initialise_logging unmarshal base_name env args0 log_level in
    let leveled = initialise_logging-HasLevel unmarshal base_name env args0 log_level in
    log-HasLevel takes reaches _ (with_all ass h) r (with_all-HasLevel ass _ h leveled)
