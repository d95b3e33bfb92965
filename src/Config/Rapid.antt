-- ===== src/Config/Rapid.antt =====
-- pkg/config/rapid/config.go: GetConfig, over the parts of the operating system that it reads.
-- `none` is a panic: IsDir of the nil FileInfo of a path that exists and cannot be examined.
use lambda_runtime_api_daemo.Base.{
  Bool, false, not, ◌||◌, Option, none, some, List, [], ◌∷◌, ◌++◌, if◌then◌else◌, ◌==◌, nat_eq,
  get_last?, select, Bytes, codes, bytes_eq, is_empty, before, to_upper, ℤ, pos,
}
use lambda_runtime_api_daemo.Config.Util.{
  Environment, getenv, getenv_int, UrlOps, inject_amqp_credentials,
}

pub record Config : Type 0 where
  pub invoke_api_server_uri : Bytes
  pub runtime_api_server_uri : Bytes
  pub rpc_server_uri : Bytes
  pub function_name : Bytes
  pub version : Bytes
  pub handler : Bytes
  pub cwd : Bytes
  pub cmd : List Bytes
  pub env : List Bytes
  pub timeout : ℤ
  pub idle_timeout : ℤ
  pub memory : ℤ
  pub max_concurrency : ℤ
  pub report : Bool

-- os.Stat: a file, a directory, an error that IsNotExist accepts, or another error.
pub data Stat : Type 0 where
  file directory not_exist failed : Stat

pub record System : Type 0 where
  pub env : Environment
  pub environ : List Bytes
  pub args : List Bytes
  pub getwd : Option Bytes
  pub stat : Bytes → Stat

-- The first bootstrap candidate that is a file; `some []` where there is none.
unfoldable pub bootstrap : (Bytes → Stat) → List Bytes → Option (List Bytes)
bootstrap stat [] = some []
bootstrap stat (c ∷ cs) =
    let rest = bootstrap stat cs in
    elim (stat c) [ file ↦ some (c ∷ []) | directory ↦ rest | not_exist ↦ rest | failed ↦ none ]

abbrev pub candidates : List Bytes
candidates =
    codes "/var/task/bootstrap" ∷ codes "/opt/bootstrap" ∷ codes "/var/runtime/bootstrap" ∷ []

abbrev or_default : List Bytes → List Bytes
or_default [] = codes "/var/task/bootstrap" ∷ []
or_default (c ∷ cs) = c ∷ cs

-- Cmd, Cwd and Handler.
pub record Command : Type 0 where
  pub cmd : List Bytes
  pub cwd : Bytes
  pub handler : Bytes

abbrev last_or_empty : List Bytes → Bytes
last_or_empty args = elim (get_last? args) [ none ↦ [] | some a ↦ a ]

unfoldable pub command_of : System → List Bytes → Option Command
unfolding bootstrap getenv
command_of s (program ∷ arg ∷ args) = some (record {
  cmd = arg ∷ args;
  cwd = elim s.getwd [ none ↦ codes "/var/task" | some d ↦ d ];
  handler = elim args [
    | [] ↦ getenv s.env (codes "_HANDLER") []
    | a ∷ more ↦ last_or_empty (a ∷ more)
  ];
})
command_of s _ = elim (bootstrap s.stat candidates) [
  | none ↦ none
  | some cmd ↦ some (record { cmd = or_default cmd; cwd = codes "/var/task"; handler = [] })
]

-- AWS_LAMBDA_FUNCTION_NAME, or the module part of the handler.
unfoldable pub function_name_of : Bytes → Bytes → Bytes
unfolding before
function_name_of name handler = if is_empty name then before b'.' handler else name

abbrev pub key_of : Bytes → Bytes
key_of element = before b'=' element

abbrev pub deny : List Bytes
deny =
    codes "PWD"
    ∷ codes "TERM"
    ∷ codes "SHLVL"
    ∷ codes "_"
    ∷ codes "AWS_LAMBDA_FUNCTION_NAME"
    ∷ codes "AMQP_URI"
    ∷ []

unfoldable pub is_denied : List Bytes → Bytes → Bool
is_denied [] key = false
is_denied (d ∷ ds) key = d == key || is_denied ds key

-- The variables that the daemon sets for the Lambda.
unfoldable pub forwarded : Bytes → Bytes → Bytes → Bytes → List Bytes
forwarded uri name handler cwd =
    (codes "AWS_LAMBDA_RUNTIME_API=" ++ uri)
    ∷ (codes "AWS_LAMBDA_FUNCTION_NAME=" ++ name)
    ∷ (codes "_HANDLER=" ++ handler)
    ∷ (codes "PWD=" ++ cwd)
    ∷ []

unfoldable pub allowed : List Bytes → List Bytes
unfolding is_denied before
allowed environ = select (λ element. not (is_denied deny (key_of element))) environ

module _ (parse_float : Bytes → Option ℤ) (ops : UrlOps) where
  unfoldable pub config_of : System → Command → Config
  unfolding getenv getenv_int inject_amqp_credentials function_name_of forwarded allowed
  config_of s c =
      let get = getenv s.env in
      let get_int = getenv_int parse_float s.env in
      let runtime_uri =
        get (codes "RUNTIME_API_HOST") (codes "127.0.0.1")
        ++ (codes ":" ++ get (codes "RUNTIME_API_PORT") (codes "9001")) in
      let name = function_name_of (get (codes "AWS_LAMBDA_FUNCTION_NAME") []) c.handler in
      record {
        invoke_api_server_uri =
            get (codes "INVOKE_API_HOST") (codes "0.0.0.0")
            ++ (codes ":" ++ get (codes "PORT") (codes "8080"));
        runtime_api_server_uri = runtime_uri;
        rpc_server_uri =
            inject_amqp_credentials ops (get (codes "AMQP_URI") []) (get (codes "AMQP_USERNAME") [])
              (get (codes "AMQP_PASSWORD") []);
        function_name = name;
        version = get (codes "AWS_LAMBDA_FUNCTION_VERSION") (codes "$LATEST");
        handler = c.handler;
        cwd = c.cwd;
        cmd = c.cmd;
        env = forwarded runtime_uri name c.handler c.cwd ++ allowed s.environ;
        timeout = get_int (codes "AWS_LAMBDA_FUNCTION_TIMEOUT") (pos 3);
        idle_timeout = get_int (codes "AWS_LAMBDA_FUNCTION_IDLETIMEOUT") (pos 1800);
        memory = get_int (codes "AWS_LAMBDA_FUNCTION_MEMORY_SIZE") (pos 3008);
        max_concurrency = get_int (codes "MAX_CONCURRENCY") (pos 1);
        report = to_upper (get (codes "PRINT_REPORTS") (codes "FALSE")) == codes "TRUE";
      }

  unfoldable pub get_config : System → Option Config
  unfolding config_of command_of
  get_config s = elim (command_of s s.args) [ none ↦ none | some c ↦ some (config_of s c) ]
