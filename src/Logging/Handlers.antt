-- ===== src/Logging/Handlers.antt =====
-- pkg/logging/logging.go and sloghandlers.go. zap's test of a level against its core's is an
-- argument, `takes`, and so are Level.UnmarshalText and filepath.Base; the texts of times, levels
-- and values are fields. What reaches the writer, or zap, is an Output.
use lambda_runtime_api_daemo.Base.{
  ℕ, Bool, true, false, Option, none, some, List, [], ◌∷◌, ◌++◌, leb, if◌then◌else◌, ◌==◌, nat_eq,
  Bytes, codes, bytes_beq, bytes_eq, is_empty, to_upper, to_lower, ℤ, pos, negsuc,
}
use lambda_runtime_api_daemo.Config.Util.{Environment, getenv}

-- a.Value.String() and the format %v of a.Value.Any().
pub record Attr : Type 0 where
  pub key : Bytes
  pub text : Bytes
  pub any : Bytes

pub record LogRecord : Type 0 where
  pub time : Bytes
  pub level : ℤ
  pub level_text : Bytes
  pub message : Bytes
  pub attrs : List Attr

pub data ZapLevel : Type 0 where
  zap_debug zap_info zap_warn zap_error : ZapLevel

-- A line of text, or a level, a message and fields for zap.
pub data Output : Type 0 where
  line : Bytes → Output
  entry : ZapLevel → Bytes → List Attr → Output

-- a <= b
abbrev pub at_most : ℤ → ℤ → Bool
at_most (pos a) (pos b) = leb a b
at_most (pos a) (negsuc b) = false
at_most (negsuc a) (pos b) = true
at_most (negsuc a) (negsuc b) = leb b a

abbrev pub level_info : ℤ
level_info = pos 0

unfoldable pub slog_to_zap_level : ℤ → ZapLevel
slog_to_zap_level l =
    if at_most l (negsuc 3)
    then zap_debug
    else if at_most l level_info
    then zap_info
    else if at_most l (pos 4)
    then zap_warn
    else zap_error

abbrev pub rank : ZapLevel → ℕ
rank zap_debug = 0
rank zap_info = 1
rank zap_warn = 2
rank zap_error = 3

-- SlogPlainHandler and SlogZapHandler; `core` is the level of the zap logger.
pub data Handler : Type 0 where
  plain : ℤ → List Attr → Handler
  zap : ZapLevel → ℤ → List Attr → Handler

unfoldable pub new_slog_zap_handler : ℤ → Handler
unfolding slog_to_zap_level
new_slog_zap_handler l = zap (slog_to_zap_level l) l []

unfoldable pub new_slog_plain_handler : ℤ → Handler
new_slog_plain_handler l = plain l []

unfoldable pub enabled : Handler → ℤ → Bool
enabled (plain level attrs) l = at_most level l
enabled (zap core level attrs) l = at_most level l

unfoldable pub with_attrs : List Attr → Handler → Handler
with_attrs as' (plain level attrs) = plain level (attrs ++ as')
with_attrs as' (zap core level attrs) = zap core level (attrs ++ as')

unfoldable pub inherited_text : List Attr → Bytes
unfolding bytes_beq
inherited_text [] = []
inherited_text (a ∷ as') =
    let rest = inherited_text as' in
    if a.key == codes "app"
    then b'(' ∷ (a.text ++ (codes ") " ++ rest))
    else a.key ++ b'=' ∷ (a.any ++ b' ' ∷ rest)

unfoldable pub attrs_text : List Attr → Bytes
attrs_text [] = []
attrs_text (a ∷ as') = b' ' ∷ (a.key ++ b'=' ∷ (a.any ++ attrs_text as'))

unfoldable pub handle_plain : List Attr → LogRecord → Output
unfolding inherited_text attrs_text to_upper
handle_plain attrs r = line (
    r.time
    ++ (codes " ["
        ++ (to_upper r.level_text
            ++ (codes "] "
                ++ (inherited_text attrs ++ (r.message ++ (attrs_text r.attrs ++ codes "\n")))))))

-- The record's own attributes come first.
unfoldable pub handle_zap :
    (ZapLevel → ZapLevel → Bool) → ZapLevel → List Attr → LogRecord → Option Output
unfolding slog_to_zap_level
handle_zap takes core attrs r =
    let l = slog_to_zap_level r.level in
    if takes core l then some (entry l r.message (r.attrs ++ attrs)) else none

unfoldable pub handle : (ZapLevel → ZapLevel → Bool) → Handler → LogRecord → Option Output
unfolding handle_plain handle_zap
handle takes (plain level attrs) r = some (handle_plain attrs r)
handle takes (zap core level attrs) r = handle_zap takes core attrs r

-- A slog.Logger asks its handler whether the level is enabled.
unfoldable pub log : (ZapLevel → ZapLevel → Bool) → Handler → LogRecord → Option Output
unfolding enabled handle
log takes h r = if enabled h r.level then handle takes h r else none

unfoldable pub parse_level : (Bytes → Option ℤ) → Bytes → ℤ
parse_level unmarshal s = elim (unmarshal (to_lower s)) [ none ↦ level_info | some l ↦ l ]

unfoldable pub app_name : (Bytes → Bytes) → Bytes → Bytes
unfolding bytes_beq
app_name base_name arg =
    if base_name arg == codes "lambda-server" then codes "lambda-server" else codes "rapid"

unfoldable pub set_default : Bytes → Handler → Handler
unfolding with_attrs
set_default name h = with_attrs (record { key = codes "app"; text = name; any = name } ∷ []) h

-- The default logger's handler; `args0` is os.Args[0].
unfoldable pub initialise_logging :
    (Bytes → Option ℤ) → (Bytes → Bytes) → Environment → Bytes → Bytes → Handler
unfolding parse_level app_name set_default getenv new_slog_plain_handler new_slog_zap_handler
    to_lower bytes_beq
initialise_logging unmarshal base_name env args0 log_level =
    let chosen = if is_empty log_level then codes "info" else log_level in
    let level = parse_level unmarshal (to_lower chosen) in
    let name = app_name base_name args0 in
    if to_lower (getenv env (codes "USE_STRUCTURED_LOGGING") (codes "false")) == codes "false"
    then set_default name (new_slog_plain_handler level)
    else set_default name (new_slog_zap_handler level)
