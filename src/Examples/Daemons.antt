-- ===== src/Examples/Daemons.antt =====
-- The daemon's processes at concrete inputs.
use lambda_runtime_api_daemo.Base.{
  ℕ, suc, ◌+◌, ◌≤◌, ◌<◌, ◌≡◌, refl, ◌⊎◌, true, false, none, some, List, [], ◌∷◌, ◌++◌, arith,
  if◌then◌else◌, ◌==◌, nat_eq, length, Bytes, codes, bytes_beq, bytes_eq, lookup, insert, atoi,
}
use lambda_runtime_api_daemo.Extensions.Api.{ExtensionsApi}
use lambda_runtime_api_daemo.Process.Manager.{ProcessManager}
use lambda_runtime_api_daemo.Process.Signals.{
  sigchld, exited, failed, termination, deadline, start_loop, handle_signals,
}
use lambda_runtime_api_daemo.Process.Shutdown.{handle_signals-stops}
use lambda_runtime_api_daemo.Process.Proc.{ProcFs}
use lambda_runtime_api_daemo.Runtime.Api.{init_index, RuntimeApi}
use lambda_runtime_api_daemo.Runtime.Instances.{
  Daemon, Child, enter, launch, finish, exit, fire, new_daemon, Calls, Reach, here, later, enters,
  registers, finishes, exits,
}
use lambda_runtime_api_daemo.Runtime.Census.{instances-le-max}
use lambda_runtime_api_daemo.Runtime.Capacity.{
  init, Reach as InitReach, here as started, later as followed, inits, init-capacity,
}
use lambda_runtime_api_daemo.Runtime.Stranded.{
  overtaken, index_of, overtaken_stuck, begun, left_in_do, exit_in_do,
}
use lambda_runtime_api_daemo.Runtime.Refinement.{Event, invoked, exited, run, pids, run-new_daemon}
use lambda_runtime_api_daemo.Process.Tcp.{hex_address, hex_padded, find_tcp_inode}
use lambda_runtime_api_daemo.Process.Sockets.{Entry, print_entries, find_tcp_inode-entries}

abbrev pub no_extensions : ExtensionsApi
no_extensions = record {
  function_name = codes "echo";
  version = codes "$LATEST";
  handler = codes "echo.handler";
  heap = [];
  next_handle = 0;
  extensions = [];
  extensions_by_addr = [];
  extension_by_id = [];
  extension_paths = [];
  timeout = 3;
  max_concurrency = 2;
  enabled = true;
  registered = false;
}

abbrev child : ℕ → Child
child pid = record { pid = pid; own_pgid = some pid }

abbrev fresh : Daemon
fresh = new_daemon 2 1800 no_extensions

abbrev one_running : Daemon
one_running = fire 0 5 (child 40) fresh

-- The first Do registers a Runtime and returns; then the Runtime exits.
abbrev first_entered : Daemon
first_entered = begun fresh

abbrev first_started : Daemon
first_started = launch 5 (child 40) first_entered

abbrev calls : Daemon → List ℕ → List ℕ → Calls
calls d is js = record { daemon = d; entered = is; registered = js }

abbrev first_finished : Daemon
first_finished = elim (finish 0 first_started) [ none ↦ first_started | some d ↦ d ]

entered_first : enter 0 fresh ≡ some first_entered
unfolding enter new_daemon
entered_first = refl

finished_first : finish 0 first_started ≡ some first_finished
unfolding finish launch enter new_daemon insert
finished_first = refl

first_exited-Reach : Reach (calls fresh [] []) (calls (exit 40 first_finished) [] [])
first_exited-Reach =
    later
      (later
        (later (later here (enters 0 (calls fresh [] []) first_entered entered_first)) (
          registers [] [] 0 5 (child 40) (calls first_entered (0 ∷ []) []) refl
            (unfold enter new_daemon lookup in refl)))
        (finishes [] [] 0 (calls first_started [] (0 ∷ [])) first_finished refl finished_first))
      (exits 40 (calls first_finished [] []))

instances-le-max_example :
    let d = exit 40 first_finished in
    (r : RuntimeApi) × (d.client ≡ some r)
    × (r.lambda_count ≡ length d.processes)
    × (length d.processes + 0 ≤ 2)
instances-le-max_example =
    instances-le-max 2 1800 no_extensions (calls (exit 40 first_finished) [] []) first_exited-Reach

none_yet : lookup 40 fresh.processes ≡ none
unfolding new_daemon lookup
none_yet = refl

abbrev one_started : Daemon
one_started = init 5 (child 40) fresh

not_in_one : lookup 41 one_started.processes ≡ none
unfolding init init_index new_daemon fire lookup insert
not_in_one = refl

one_started-Reach : InitReach fresh one_started
one_started-Reach = followed started (inits 5 (child 40) fresh none_yet)

init-capacity_example :
    ((length one_started.processes < 2)
      × (length (init 6 (child 41) one_started).processes ≡ suc (length one_started.processes)))
    ⊎ ((length one_started.processes ≡ 2) × (init 6 (child 41) one_started ≡ one_started))
init-capacity_example =
    init-capacity 1 1800 6 no_extensions (child 41) one_started one_started-Reach not_in_one

overtaken_stuck_example : index_of (overtaken 2 1800 (child 40) (child 41) no_extensions) ≡ some 1
overtaken_stuck_example =
    (overtaken_stuck 0 1800 9 (child 40) (child 41) (child 42) no_extensions).2

exit_in_do_example : finish 0 (left_in_do 2 1800 (child 40) no_extensions) ≡ none
exit_in_do_example = (exit_in_do 1 1800 9 (child 40) (child 41) no_extensions).1

-- Two managed processes, each its own group.
abbrev managed : ProcessManager ℕ
managed = record {
  processes = (40, record { pid = 40; pgid = 40 }) ∷ (41, record { pid = 41; pgid = 41 }) ∷ [];
  kills = [];
  client = 2;
}

abbrev count_down : ℕ → ℕ → ℕ → ℕ
count_down pid nproc n = nproc

handle_signals-stops_example :
    (handle_signals count_down
      (termination ∷ sigchld (exited 40 ∷ failed ∷ []) ∷ deadline ∷ deadline ∷ [])
      (start_loop managed)).stopped
    ≡ true
handle_signals-stops_example =
    handle_signals-stops count_down (sigchld (exited 40 ∷ failed ∷ []) ∷ deadline ∷ deadline ∷ [])
      (start_loop managed) (omega arith)

-- Process 41 alone holds the socket 9000.
abbrev proc_fs : ProcFs
proc_fs = record {
  proc_entries = some (codes "40" ∷ codes "41" ∷ codes "42" ∷ codes "acpi" ∷ []);
  fd_entries = λ pid. if pid == 41 then some (codes "3" ∷ []) else none;
  readlink = λ path. some (codes "socket:[9000]");
  getpgid = λ pid. some pid;
}

-- Four invocations, of which the third is refused, with an exit before the last.
abbrev busy_day : List Event
busy_day =
    invoked 1 (record { pid = 11; own_pgid = none })
    ∷ invoked 2 (record { pid = 12; own_pgid = none })
    ∷ invoked 3 (record { pid = 13; own_pgid = none })
    ∷ exited 11
    ∷ invoked 4 (record { pid = 14; own_pgid = none })
    ∷ []

run-new_daemon_example : pids (run busy_day (new_daemon 2 0 no_extensions)).processes ≡ 14 ∷ 12 ∷ []
run-new_daemon_example =
    run-new_daemon 1 0 no_extensions busy_day (refl, (refl, (refl, (refl, tt))))

abbrev table_header : Bytes
table_header =
    codes
      "  sl  local_address rem_address   st tx_queue rx_queue tr tm->when retrnsmt   uid  timeout inode\n   0"

abbrev socket_entry : Bytes → Bytes → Entry
socket_entry address inode = record {
  address = address;
  fields = codes "00000000:0000 0A 00000000:00000000 00:00000000 00000000     0        0 ";
  inode = inode;
  rest = codes "1 0000000000000000 100 0 0 10 0\n   1";
}

abbrev sockets : List Entry
sockets =
    socket_entry (codes "00000000:0016") (codes "4711")
    ∷ socket_entry (codes "0100007F:1F90") (codes "81549300")
    ∷ []

find_tcp_inode-entries_example :
    find_tcp_inode (some (table_header ++ print_entries sockets)) (codes "127.0.0.1:8080")
    ≡ some (codes "81549300")
unfolding hex_address hex_padded bytes_beq atoi
find_tcp_inode-entries_example =
    find_tcp_inode-entries (codes "127.0.0.1:8080") (codes "0100007F:1F90") table_header sockets
      refl refl (omega arith)
      (
        record { plain = refl; size = refl; clear = refl; numeric = refl; more = omega arith },
        (
          record { plain = refl; size = refl; clear = refl; numeric = refl; more = omega arith },
          tt,
        ),
      )
