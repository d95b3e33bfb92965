-- ===== src/Lib.antt =====
-- The Lambda Runtime API Daemon: a program that gives AWS Lambda functions their Runtime API and
-- Extensions API in a container, and takes their invocations over HTTP or AMQP.
--
-- The parts, and the files that model them (source paths from the repository's root):
--   Process     pkg/process/process-manager.go and proc.go. Process.Manager holds the process
--               table, with the kill(2) calls as a log; Process.Signals is HandleSignals as a
--               state machine; Process.Tcp finds the socket behind an address in /proc/net/tcp,
--               and Process.Proc the process behind a socket. HexAddress, TextSearch, Sockets,
--               Shutdown, Killed, Restraint and Lookup are the proofs.
--   Extensions  pkg/runtimeapi/extensionsapi.go. Extensions.Slice has the handles, in a heap that
--               the API's maps share; Extensions.Api the struct and its maps; Extensions.Register
--               and Extensions.Next the two handlers. Subscriptions, Registration, Retry,
--               Lifecycle, Preservation and Identity are the proofs.
--   Runtime     pkg/runtimeapi/runtimeapi.go and runtimeapiserver.go. Runtime.Api has the struct,
--               Init's initialisers and the instance count; Runtime.Handlers the HTTP handlers;
--               Runtime.Instances joins it with the process table by the register and unregister
--               handlers, with the parts of Init as steps; Runtime.Startup starts a Runtime and its
--               External Extensions (RAPIInvoker.init), and Runtime.InstanceEnv the environment that
--               they are given, as a slice with its array. Delivery, Traces, Census, Spent, Firing,
--               Capacity, Refinement, Stranded, Waiting and SharedArray are the proofs.
--   Invoke      pkg/invokeapi. Invoke.Invoker is the interface, as a record; Invoke.Rapi the
--               RAPIInvoker, which hands requests to the Runtime API of its own process;
--               Invoke.Rpc the RPCInvoker, which sends them over AMQP; Invoke.Servers the HTTP and
--               RPC handlers that call an Invoker; Invoke.Service the goroutines of NewRPCServer and
--               NewRPCInvoker, with their deferred calls. Rendezvous, RpcRoundTrip, Acts and
--               Release are the proofs.
--   Messaging   pkg/messaging/api.go and amqp091.go. Messaging.Message and Messaging.Wire have the
--               message and its way to and from AMQP; Messaging.Connection and Messaging.Session
--               the two objects that reconnect, with their pools, and Messaging.Lifetime a session
--               over many losses; Messaging.Opening NewConnection; Messaging.Address parseAddress;
--               Messaging.Producer and Messaging.Consumer how they open on a session,
--               Messaging.Send Send, Messaging.Dispatcher the goroutines that
--               publish from the queue of a pool, with Close, as a step relation, Messaging.Receiver
--               those that consume, with Consume, Messaging.Returns Return and the messages that
--               come back, and Messaging.Broker what the broker is asked for and answers.
--               RoundTrip, Dialling, Reconnection, Lasting, Connecting, Pooling, Waiting, AddressText,
--               Routing, Sending, Subscription, Conservation, Draining, Stranding, Tending, Held,
--               OneChannel, Ordering and Undeliverable are the proofs.
--   Config      pkg/config/util/util.go, pkg/config/rapid/config.go and pkg/config/server/config.go.
--               ChildEnv and Credentials are the proofs.
--   Programs    cmd/lambda-runtime-api-daemon/main.go and cmd/lambda-server/main.go. Programs.Exit
--               has their deferred calls and the Close methods; Programs.Closing the proofs.
--   Logging     pkg/logging. Logging.Handlers has the two handlers of log/slog and
--               InitialiseLogging; Logging.Backends the proofs.
--   Base, Http  the shared names: tests, lists, bytes, Go maps, decimals; what a handler writes.
--   Examples    concrete inputs at which the theorems apply.
--
-- How an invocation goes: a server's handler calls an Invoker; the RAPIInvoker starts an instance
-- through Init if there is room, and sends a request to the Runtime API; the next handler of a
-- Runtime takes it, stores its Response channel under its ID and wakes the Extensions; the response
-- handler looks the ID up and sends the body on the channel, where the invoker waits. The process
-- manager registers and unregisters instances, and HandleSignals reaps them.
--
-- Conventions. State is passed explicitly. A lock makes a method one step; where the program lets go
-- of the lock within a method, the method is several steps, and theorems on interleavings run over a
-- step relation. What a select waits for, the clock, generated UUIDs and what the operating system
-- answers are arguments. A Go panic is `none`. A pointer is a number that a heap maps to its struct;
-- a channel is a number too, and `channels` holds the value that waits in it. Strings are lists of
-- bytes. Counts, pids and nanoseconds are natural numbers, and where the program subtracts, the
-- model says what it does at 0. Subtraction of times stops at 0. Loops recur on their list; only
-- the decimal and hexadecimal printers have fuel, one more than the number, which has at most that
-- many digits.
-- encoding/json, net/url, strconv.ParseFloat and base64 are parameters, and so are the answers of
-- the AMQP library: what each dial gives, also with its error, each channel and each declaration,
-- whether a publish is accepted, and when the channels of deliveries and returns are closed. A method
-- call on a nil pointer of that library is a panic.
--
-- A call of Init is several steps in Runtime.Instances: the index is read, Do locks its Once, the
-- Runtime is registered, and Do returns. Runtime.Census runs over any order of these steps and exits;
-- Runtime.Capacity and Runtime.Refinement are about runs in which nothing comes between the steps of
-- one call. A call of reconnect of a session is its test of `closed` and the part under its lock;
-- Messaging.Waiting counts the calls between the two, and the other modules on sessions are about
-- calls during which the session is not closed.
--
-- Not modelled: routes and listeners; the reports on standard output; a Runtime whose process does
-- not start; the copy that an init container makes of the executable. They are input and output
-- around what is modelled. The dispatchers of producers and consumers have their own record of the
-- struct that Messaging.Producer and Messaging.Consumer open, with what the goroutines keep on
-- their stacks; a session that is closed while a consumer reopens is left out.
mod Base
mod Http
mod Examples
pub mod Process
pub mod Extensions
pub mod Runtime
pub mod Messaging
pub mod Invoke
pub mod Config
pub mod Programs
pub mod Logging
