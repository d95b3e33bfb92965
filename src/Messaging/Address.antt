-- ===== src/Messaging/Address.antt =====
-- pkg/messaging/amqp091.go: the options of an address string and parseAddress. json.Unmarshal into a
-- structure that holds the defaults is an argument; it gives the structure with the values that the
-- text sets, or an error. A number of an argument table is `number`, with what int() makes of it.
use lambda_runtime_api_daemo.Base.{
  Bool, true, false, ◌&&◌, ◌||◌, Option, none, some, List, [], ◌∷◌, nat_beq, if◌then◌else◌, ◌==◌,
  nat_eq, Bytes, codes, bytes_beq, bytes_eq, is_empty, GoMap, split_on, trim_space, ℤ,
}

pub data Argument : Type 0 where
  number : ℤ → Argument
  integer : ℤ → Argument
  string : Bytes → Argument
  another : Argument

abbrev pub Arguments : Type 0
Arguments = GoMap Bytes Argument

pub record Declare : Type 0 where
  pub arguments : Arguments
  pub queue : Bytes
  pub exchange : Bytes
  pub exchange_type : Bytes
  pub passive : Bool
  pub internal : Bool
  pub durable : Bool
  pub exclusive : Bool
  pub auto_delete : Bool

pub record Binding : Type 0 where
  pub arguments : Arguments
  pub exchange : Bytes
  pub queue : Bytes
  pub key : Bytes

pub record Node : Type 0 where
  pub node_type : Bytes
  pub x_declare : Declare
  pub x_bindings : List Binding
  pub durable : Bool
  pub auto_delete : Bool

pub record Subscribe : Type 0 where
  pub arguments : Arguments
  pub exclusive : Bool

pub record LinkOptions : Type 0 where
  pub name : Bytes
  pub reliability : Bytes
  pub x_declare : Declare
  pub x_subscribe : Subscribe
  pub x_bindings : List Binding
  pub durable : Bool

pub record Options : Type 0 where
  pub node : Node
  pub link : LinkOptions

-- The part of destinationAMQP091 that parseAddress sets.
pub record Destination : Type 0 where
  pub options : Options
  pub name : Bytes
  pub subject : Bytes

abbrev default_declare : Bytes → Bool → Declare
default_declare exchange_type own = record {
  arguments = [];
  queue = [];
  exchange = [];
  exchange_type = exchange_type;
  passive = false;
  internal = false;
  durable = false;
  exclusive = own;
  auto_delete = own;
}

abbrev pub default_options : Options
default_options = record {
  node = record {
    node_type = [];
    x_declare = default_declare (codes "direct") false;
    x_bindings = [];
    durable = false;
    auto_delete = false;
  };
  link = record {
    name = [];
    reliability = [];
    x_declare = default_declare [] true;
    x_subscribe = record { arguments = []; exclusive = false };
    x_bindings = [];
    durable = false;
  };
}

-- kv[1] where Split gives exactly two parts.
abbrev second_of_two : List Bytes → Option Bytes
second_of_two (a ∷ b ∷ []) = some b
second_of_two _ = none

abbrev first_of : List Bytes → Bytes
first_of [] = []
first_of (a ∷ as') = a

abbrev or_else : Option Bytes → Bytes → Bytes
or_else none d = d
or_else (some b) d = b

-- A text of at least two bytes that begins with a brace is the options string.
abbrev pub is_options : Bytes → Bool
is_options (c ∷ d ∷ s) = nat_beq c b'{'
is_options _ = false

-- Name, subject and options string.
pub record Parts : Type 0 where
  pub name : Bytes
  pub subject : Bytes
  pub options_string : Bytes

abbrev pub only_options : Parts → Parts
only_options p = if is_options p.name then record p { name = []; options_string = p.name } else p

trimmed : Option Bytes → Option Bytes
unfolding trim_space
trimmed none = none
trimmed (some s) = some (trim_space s)

unfoldable pub split_address : Bytes → Parts
unfolding split_on trim_space trimmed
split_address address =
    let kv = split_on b';' address in
    let path = split_on b'/' (first_of kv) in
    only_options (record {
      name = trim_space (first_of path);
      subject = or_else (trimmed (second_of_two path)) [];
      options_string = or_else (second_of_two kv) (codes "{}");
    })

abbrev if_empty : Bytes → Bytes → Bytes
if_empty b d = if is_empty b then d else b

-- The name for an address that is just options: that of the node's type, else the exchange, else
-- the queue.
unfoldable pub declared_name : Bytes → Declare → Bytes
unfolding bytes_beq
declared_name node_type d =
    let of_queue = if node_type == codes "queue" then d.queue else [] in
    let of_topic = if node_type == codes "topic" then d.exchange else of_queue in
    if_empty (if_empty of_topic d.exchange) d.queue

-- The declaration for an address with a name: the node's type says which name it sets.
unfoldable pub with_name : Bytes → Bytes → Declare → Declare
unfolding bytes_beq
with_name name node_type d =
    let d' =
      if node_type == codes "queue" && is_empty d.queue then record d { queue = name } else d in
    if node_type == codes "topic" && is_empty d.exchange then record d' { exchange = name } else d'

unfoldable pub with_flags : Node → Declare → Declare
with_flags n d = record d {
  durable = n.durable || d.durable;
  auto_delete = n.auto_delete || d.auto_delete;
}

unfoldable pub coerce : Arguments → Arguments
coerce [] = []
coerce ((k, number n) ∷ t) = (k, integer n) ∷ coerce t
coerce ((k, v) ∷ t) = (k, v) ∷ coerce t

abbrev coerce_declare : Declare → Declare
coerce_declare d = record d { arguments = coerce d.arguments }

-- From the decoded options on.
unfoldable pub resolve : Bytes → Bytes → Options → Destination
unfolding declared_name with_name with_flags coerce
resolve name subject o =
    let n = o.node in
    let l = o.link in
    let d = if is_empty name then n.x_declare else with_name name n.node_type n.x_declare in
    record {
      options = record {
        node = record n { x_declare = coerce_declare (with_flags n d) };
        link = record l {
          x_declare = coerce_declare l.x_declare;
          x_subscribe = record l.x_subscribe { arguments = coerce l.x_subscribe.arguments };
        };
      };
      name = if is_empty name then declared_name n.node_type n.x_declare else name;
      subject = subject;
    }

unfoldable pub parse_address : (Bytes → Options → Option Options) → Bytes → Option Destination
unfolding split_address resolve
parse_address unmarshal address =
    let p = split_address address in
    elim (unmarshal p.options_string default_options) [
      | none ↦ none
      | some o ↦ some (resolve p.name p.subject o)
    ]
