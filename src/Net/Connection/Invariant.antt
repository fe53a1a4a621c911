-- ===== src/Net/Connection/Invariant.antt =====
-- TcpConnection.cc: the calls of a connection as steps, and what holds after every sequence of them.
use myoj.Common.{◌≡◌, refl, inr, Bool, Option, List, [], ◌∷◌}
use myoj.Common.Bytes.{Bytes}
use myoj.Net.Buffer.{make_buffer}
use myoj.Net.Buffer.Contents.{make_buffer-IsValid}
use myoj.Net.Connection.{
  Connection, connecting, Task, make_connection, Setter, set, WriteResult, send, shutdown,
  connect_established, connect_destroyed, handle_write, handle_close, handle_read, run_task,
  run_next, run_first, send_task, shutdown_task,
}
use myoj.Net.Connection.Phase.{
  IsSound, connect_destroyed-IsSound, connect_established-IsSound, handle_close-IsSound,
  handle_read-IsSound, set-IsSound, shutdown-IsSound, shutdown_in_loop-IsSound,
}
use myoj.Net.Connection.Sending.{handle_write-IsSound, send-IsSound, send_in_loop-IsSound}

-- A connection is established once, by the server or client that made it; the code does not check that,
-- so that it is a condition here. Everything else may happen at any time.
pub data Step (c : Connection) : Connection → Type 0 where
  sets : (s : Setter) → Step c (set s c)
  establishes : c.state ≡ connecting → Step c (connect_established c)
  destroys : Step c (connect_destroyed c)
  sends : (in_loop : Bool) (data_ : Bytes) (r : WriteResult) → Step c (send in_loop data_ r c)
  shuts : (in_loop : Bool) → Step c (shutdown in_loop c)
  reads : (o : Option Bytes) → Step c (handle_read o c)
  writes : (r : WriteResult) → Step c (handle_write r c)
  closes : Step c (handle_close c)
  runs : (r : WriteResult) → Step c (run_first r c)

pub data Reachable : Connection → Type 0 where
  start : Reachable make_connection
  next : (c c' : Connection) → Reachable c → Step c c' → Reachable c'

run_task-IsSound :
    (t : Task) (r : WriteResult) (c : Connection) → IsSound c → IsSound (run_task t r c)
unfolding run_task
run_task-IsSound (send_task data_) r c h = send_in_loop-IsSound data_ r c h
run_task-IsSound shutdown_task r c h = shutdown_in_loop-IsSound c h
run_task-IsSound _ r c h = h

run_next-IsSound :
    (ts : List Task) (r : WriteResult) (c : Connection) → IsSound c → IsSound (run_next ts r c)
unfolding run_next
run_next-IsSound [] r c h = h
run_next-IsSound (t ∷ ts) r c h =
    run_task-IsSound t r _
      (record { input_valid = h.input_valid; output_valid = h.output_valid; phase = h.phase })

Step-IsSound : (c c' : Connection) → Step c c' → IsSound c → IsSound c'
unfolding run_first
Step-IsSound c _ (sets s) h = set-IsSound s c h
Step-IsSound c _ (establishes e) h = connect_established-IsSound c e h
Step-IsSound c _ destroys h = connect_destroyed-IsSound c h
Step-IsSound c _ (sends in_loop data_ r) h = send-IsSound in_loop data_ r c h
Step-IsSound c _ (shuts in_loop) h = shutdown-IsSound in_loop c h
Step-IsSound c _ (reads o) h = handle_read-IsSound o c h
Step-IsSound c _ (writes r) h = handle_write-IsSound r c h
Step-IsSound c _ closes h = handle_close-IsSound c h
Step-IsSound c _ (runs r) h = run_next-IsSound c.tasks r c h

-- Whatever is called on a connection in whatever order, `connectEstablished` only while it is still
-- connecting: its buffers stay valid, and it is closed and has no events, or it is open and wants write
-- events exactly while output is waiting.
pub Reachable-IsSound : (c : Connection) → Reachable c → IsSound c
unfolding make_connection make_buffer
Reachable-IsSound _ start = record {
  input_valid = make_buffer-IsValid 1024;
  output_valid = make_buffer-IsValid 1024;
  phase = inr (inr (refl, refl, refl));
}
Reachable-IsSound _ (next b c r s) = Step-IsSound b c s (Reachable-IsSound b r)
