-- ===== src/Net/Connector.antt =====
-- include/net/Connector.h and src/net/Connector.cc: connecting to a server. What the system gives is an
-- argument: a new socket, `errno` after `connect`, and the socket's error when it becomes writable.
-- Everything runs in the loop's thread. `state_` and `connect_` have no initial value in the code, so
-- they are arguments of the constructor here.
pub mod Retry
pub mod Tests
use Prim.Native.Nat.{bit_or}
use myoj.Common.{
  ℕ, Bool, true, false, not, Option, none, some, List, [], ◌∷◌, ◌++◌, ◌==◌, if◌then◌else◌,
}

pub data States : Type 0 where
  k_disconnected k_connecting k_connected : States

abbrev pub is_connecting : States → Bool
is_connecting k_connecting = true
is_connecting s = false

-- The functors in the loop's queue that belong to the connector.
pub data Task : Type 0 where
  stop_task reset_task : Task

-- `channel` is the descriptor of the channel that is set; `watched` says whether it is in the poller.
-- `handed_over` are the sockets that the new-connection callback was given, `closed` those that were
-- closed.
pub record Connector : Type 0 where
  pub connect_wanted : Bool
  pub state : States
  pub channel : Option ℕ
  pub watched : Bool
  pub retry_delay_ms : ℕ
  pub tasks : List Task
  pub handed_over : List ℕ
  pub closed : List ℕ

abbrev pub make_connector : Bool → States → ℕ → Connector
make_connector wanted state delay = record {
  connect_wanted = wanted;
  state = state;
  channel = none;
  watched = false;
  retry_delay_ms = delay;
  tasks = [];
  handed_over = [];
  closed = [];
}

-- `retry` only has a comment in it.
abbrev pub retry : ℕ → Connector → Connector
retry sockfd c = c

unfoldable pub connecting_at : Option ℕ → ℕ → Connector → Connector
connecting_at (some fd) sockfd c = record c { state = k_connecting }
connecting_at none sockfd c = record c {
  state = k_connecting;
  channel = some sockfd;
  watched = true;
}

unfoldable pub connecting : ℕ → Connector → Connector
connecting sockfd c = connecting_at c.channel sockfd c

-- `savedErrno | 0 | EINPROGRESS | EINTR | EISCONN` as a condition.
unfoldable pub in_progress : ℕ → Bool
in_progress saved_errno = not (bit_or (bit_or (bit_or (bit_or saved_errno 0) 115) 4) 106 == 0)

-- `savedErrno | EAGAIN | EADDRINUSE | EADDRNOTAVAIL | ENETUNREACH`.
unfoldable pub can_retry : ℕ → Bool
can_retry saved_errno = not (bit_or (bit_or (bit_or (bit_or saved_errno 11) 98) 99) 101 == 0)

unfoldable pub connect : ℕ → ℕ → Connector → Connector
connect sockfd saved_errno c =
    if in_progress saved_errno
    then connecting sockfd c
    else (if can_retry saved_errno
        then retry sockfd c
        else record c { closed = c.closed ++ sockfd ∷ [] })

unfoldable pub start_in_loop : ℕ → ℕ → Connector → Connector
start_in_loop sockfd saved_errno c = if c.connect_wanted then connect sockfd saved_errno c else c

unfoldable pub start : ℕ → ℕ → Connector → Connector
start sockfd saved_errno c = start_in_loop sockfd saved_errno (record c { connect_wanted = true })

unfoldable pub restart : ℕ → ℕ → Connector → Connector
restart sockfd saved_errno c =
    start_in_loop sockfd saved_errno
      (record c { state = k_disconnected; retry_delay_ms = 500; connect_wanted = true })

-- `removeAndResetChannel`; the channel itself is reset by a functor later.
abbrev pub remove_and_reset_channel : Connector → Connector
remove_and_reset_channel c = record c { watched = false; tasks = c.tasks ++ reset_task ∷ [] }

unfoldable pub stop : Connector → Connector
stop c = record c { connect_wanted = false; tasks = c.tasks ++ stop_task ∷ [] }

-- With no channel, `removeAndResetChannel` would go through a null pointer, which is none here.
unfoldable pub stop_at : Option ℕ → Connector → Option Connector
stop_at none c = none
stop_at (some fd) c =
    some (retry fd (remove_and_reset_channel (record c { state = k_disconnected })))

unfoldable pub stop_in_loop : Connector → Option Connector
stop_in_loop c = if is_connecting c.state then stop_at c.channel c else some c

unfoldable pub run_task : Task → Connector → Option Connector
run_task stop_task c = stop_in_loop c
run_task reset_task c = some (record c { channel = none })

unfoldable pub finish : ℕ → ℕ → Connector → Connector
finish sockfd err c =
    if err == 0
    then (if c.connect_wanted
        then record c { state = k_connected; handed_over = c.handed_over ++ sockfd ∷ [] }
        else record c { state = k_connected; closed = c.closed ++ sockfd ∷ [] })
    else retry sockfd c

unfoldable pub write_at : Option ℕ → ℕ → Connector → Option Connector
write_at none err c = none
write_at (some sockfd) err c = some (finish sockfd err (remove_and_reset_channel c))

-- `handleWrite`: `err` is the error of the socket, 0 when it is connected.
unfoldable pub handle_write : ℕ → Connector → Option Connector
handle_write err c = if is_connecting c.state then write_at c.channel err c else some c

unfoldable pub error_at : Option ℕ → Connector → Option Connector
error_at none c = none
error_at (some sockfd) c = some (retry sockfd (remove_and_reset_channel c))

unfoldable pub handle_error : Connector → Option Connector
handle_error c = if is_connecting c.state then error_at c.channel c else some c
