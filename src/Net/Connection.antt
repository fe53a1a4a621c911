-- ===== src/Net/Connection.antt =====
-- include/net/TcpConnection.h and src/net/TcpConnection.cc: one connection, with what the kernel took
-- from it (`wire`), the functors it queued in its loop and the callbacks it called. A callback of
-- the user is code of the client: what it does to the connection are further calls.
pub mod Phase
pub mod Sending
pub mod Invariant
pub mod Output
pub mod Shutdown
pub mod Tests
use myoj.Common.{
  ℕ, ◌+◌, ◌-◌, Bool, true, false, not, ◌&&◌, Option, none, some, List, [], ◌∷◌, ◌++◌, take, drop,
  length, ltb, leb, ◌==◌, if◌then◌else◌,
}
use myoj.Common.Bytes.{Bytes}
use myoj.Net.Buffer.{
  Buffer, make_buffer, initial_size, readable_bytes, contents, retrieve, retrieve_all, append,
  read_fd,
}

pub data StateE : Type 0 where
  disconnected connecting connected disconnecting : StateE

abbrev pub is_disconnected : StateE → Bool
is_disconnected disconnected = true
is_disconnected s = false

abbrev pub is_connected : StateE → Bool
is_connected connected = true
is_connected s = false

-- The functors in the loop's queue that belong to the connection.
pub data Task : Type 0 where
  write_complete_task : Task
  high_water_mark_task : ℕ → Task
  send_task : Bytes → Task
  shutdown_task : Task

pub data Callback : Type 0 where
  connection_callback : StateE → Callback
  message_callback : Callback
  close_callback : Callback

-- `is_reading` and `is_writing` are the channel's events; the fields that start with `has` say
-- whether a callback is set.
pub record Connection : Type 0 where
  pub state : StateE
  pub is_reading : Bool
  pub is_writing : Bool
  pub input_buffer : Buffer
  pub output_buffer : Buffer
  pub high_water_mark : ℕ
  pub has_connection_callback : Bool
  pub has_message_callback : Bool
  pub has_write_complete_callback : Bool
  pub has_high_water_mark_callback : Bool
  pub has_close_callback : Bool
  pub tasks : List Task
  pub calls : List Callback
  pub wire : Bytes
  pub write_end_shut : Bool

unfoldable pub make_connection : Connection
make_connection = record {
  state = connecting;
  is_reading = false;
  is_writing = false;
  input_buffer = make_buffer initial_size;
  output_buffer = make_buffer initial_size;
  high_water_mark = 67108864;
  has_connection_callback = false;
  has_message_callback = false;
  has_write_complete_callback = false;
  has_high_water_mark_callback = false;
  has_close_callback = false;
  tasks = [];
  calls = [];
  wire = [];
  write_end_shut = false;
}

-- The setters of the callbacks.
pub data Setter : Type 0 where
  set_connection_callback : Bool → Setter
  set_message_callback : Bool → Setter
  set_write_complete_callback : Bool → Setter
  set_close_callback : Bool → Setter
  set_high_water_mark_callback : Bool → ℕ → Setter

unfoldable pub set : Setter → Connection → Connection
set (set_connection_callback b) c = record c { has_connection_callback = b }
set (set_message_callback b) c = record c { has_message_callback = b }
set (set_write_complete_callback b) c = record c { has_write_complete_callback = b }
set (set_close_callback b) c = record c { has_close_callback = b }
set (set_high_water_mark_callback b n) c = record c {
  has_high_water_mark_callback = b;
  high_water_mark = n;
}

pub data Errno : Type 0 where
  would_block broken_pipe conn_reset other_error : Errno

-- The result of `write`.
pub data WriteResult : Type 0 where
  wrote : ℕ → WriteResult
  write_failed : Errno → WriteResult

unfoldable pub queue_task : Bool → Task → Connection → Connection
queue_task true t c = record c { tasks = c.tasks ++ t ∷ [] }
queue_task false t c = c

-- `EPIPE` and `ECONNRESET` are the faults.
abbrev pub is_fault : WriteResult → Bool
is_fault (write_failed broken_pipe) = true
is_fault (write_failed conn_reset) = true
is_fault r = false

-- The attempt to write at once: the connection and `remaining`.
unfoldable pub write_now : Bytes → WriteResult → Connection → Connection × ℕ
write_now data_ (wrote n) c = (
  queue_task (length data_ - n == 0 && c.has_write_complete_callback) write_complete_task
      (record c { wire = c.wire ++ take n data_ }),
  length data_ - n,
)
write_now data_ (write_failed e) c = (c, 0)

-- What could not be written goes to the output buffer.
unfoldable pub keep_rest : Bytes → Connection → Connection
keep_rest rest c =
    let old_len = readable_bytes c.output_buffer in
    let marked =
      queue_task
        (leb c.high_water_mark (old_len + length rest)
          && ltb old_len c.high_water_mark
          && c.has_high_water_mark_callback)
        (high_water_mark_task (old_len + length rest)) c in
    record marked { output_buffer = append rest c.output_buffer; is_writing = true }

-- The end of `sendInLoop`: `remaining` is the number of bytes that are not written.
unfoldable pub after_write : Bytes → WriteResult → Connection × ℕ → Connection
after_write data_ r (c, remaining) =
    if not (is_fault r) && ltb 0 remaining
    then keep_rest (drop (length data_ - remaining) data_) c
    else c

-- Without an attempt to write, `remaining` is still 0.
unfoldable pub send_in_loop : Bytes → WriteResult → Connection → Connection
send_in_loop data_ r c =
    if is_disconnected c.state
    then c
    else (if not c.is_writing && readable_bytes c.output_buffer == 0
        then after_write data_ r (write_now data_ r c)
        else c)

-- `send`, from the loop's thread or from another one.
unfoldable pub send : Bool → Bytes → WriteResult → Connection → Connection
send in_loop data_ r c =
    if is_connected c.state
    then (if in_loop then send_in_loop data_ r c else queue_task true (send_task data_) c)
    else c

unfoldable pub shutdown_in_loop : Connection → Connection
shutdown_in_loop c = if c.is_writing then c else record c { write_end_shut = true }

unfoldable pub shutdown : Bool → Connection → Connection
shutdown in_loop c =
    if is_connected c.state
    then (if in_loop
        then shutdown_in_loop (record c { state = disconnecting })
        else queue_task true shutdown_task (record c { state = disconnecting }))
    else c

unfoldable pub call : Bool → Callback → Connection → Connection
call true k c = record c { calls = c.calls ++ k ∷ [] }
call false k c = c

unfoldable pub connect_established : Connection → Connection
connect_established c =
    call c.has_connection_callback (connection_callback connected)
      (record c { state = connected; is_reading = true })

unfoldable pub connect_destroyed : Connection → Connection
connect_destroyed c =
    if is_connected c.state
    then call c.has_connection_callback (connection_callback disconnected)
        (record c { state = disconnected; is_reading = false; is_writing = false })
    else c

unfoldable pub output_sent : Connection → Connection
output_sent c =
    let done =
      queue_task c.has_write_complete_callback write_complete_task
        (record c { is_writing = false }) in
    if is_disconnected c.state then shutdown_in_loop done else done

unfoldable pub written : ℕ → Connection → Connection
written n c =
    let sent = record c {
      wire = c.wire ++ take n (contents c.output_buffer);
      output_buffer = retrieve n c.output_buffer;
    } in
    if readable_bytes sent.output_buffer == 0 then output_sent sent else sent

-- `writeFd` offers all that is in the buffer.
unfoldable pub write_out : WriteResult → Connection → Connection
write_out (wrote n) c = if ltb 0 n then written n c else c
write_out (write_failed e) c = c

unfoldable pub handle_write : WriteResult → Connection → Connection
handle_write r c = if c.is_writing then write_out r c else c

unfoldable pub handle_close : Connection → Connection
handle_close c =
    let closed = record c { state = disconnected; is_reading = false; is_writing = false } in
    call c.has_close_callback close_callback
      (call c.has_connection_callback (connection_callback disconnected) closed)

-- `readFd` gave an error, the end of the stream, or bytes. `handleError` logs only.
unfoldable pub handle_read : Option Bytes → Connection → Connection
handle_read none c = c
handle_read (some []) c = handle_close c
handle_read (some (x ∷ xs)) c =
    call c.has_message_callback message_callback
      (record c { input_buffer = read_fd (x ∷ xs) c.input_buffer })

-- A functor of the loop's queue is taken out and run. The user's callbacks are not modelled.
unfoldable pub run_task : Task → WriteResult → Connection → Connection
run_task (send_task data_) r c = send_in_loop data_ r c
run_task shutdown_task r c = shutdown_in_loop c
run_task _ r c = c

unfoldable pub run_next : List Task → WriteResult → Connection → Connection
run_next [] r c = c
run_next (t ∷ ts) r c = run_task t r (record c { tasks = ts })

unfoldable pub run_first : WriteResult → Connection → Connection
run_first r c = run_next c.tasks r c
