-- ===== src/Net/Connection/Tests.antt =====
-- Runs of a connection, and its theorems on them.
use myoj.Common.{◌≡◌, refl, true, false, [], ◌∷◌, ◌++◌, if◌then◌else◌, arith}
use myoj.Common.Bytes.{codes}
use myoj.Net.Buffer.{
  make_buffer, append, ensure_writeable_bytes, make_space, copy_in, retrieve, retrieve_all,
}
use myoj.Net.Connection.{
  Connection, connected, disconnected, disconnecting, make_connection, connect_established, set,
  set_write_complete_callback, write_complete_task, WriteResult, wrote, write_failed, would_block,
  queue_task, write_now, keep_rest, after_write, send_in_loop, send, shutdown_in_loop, shutdown,
  call, output_sent, written, write_out, handle_write, handle_close,
}
use myoj.Net.Connection.Output.{stream, accepts, stream-send_in_loop, stream-handle_write}
use myoj.Net.Connection.Phase.{IsSound}
use myoj.Net.Connection.Invariant.{
  Reachable, start, next, sets, establishes, sends, Reachable-IsSound,
}
use myoj.Net.Connection.Shutdown.{write_all, shutdown_lost}

connection_code : Unit {0}
unfolding make_connection make_buffer append ensure_writeable_bytes make_space copy_in retrieve
    retrieve_all connect_established set queue_task write_now keep_rest after_write send_in_loop
    send shutdown_in_loop shutdown call output_sent written write_out handle_write handle_close
    write_all
connection_code = tt

abbrev fresh : Connection
fresh = set (set_write_complete_callback true) make_connection

abbrev opened : Connection
opened = connect_established fresh

-- The kernel takes two of five bytes.
abbrev waiting : Connection
waiting = send true (codes "hello") (wrote 2) opened

fresh-connecting : fresh.state ≡ myoj.Net.Connection.connecting
unfolding connection_code
fresh-connecting = refl

opened-Reachable : Reachable opened
opened-Reachable =
    next fresh opened (next make_connection fresh start (sets (set_write_complete_callback true)))
      (establishes fresh-connecting)

waiting-Reachable : Reachable waiting
waiting-Reachable = next opened waiting opened-Reachable (sends true (codes "hello") (wrote 2))

waiting_wire : waiting.wire ≡ codes "he"
unfolding connection_code
waiting_wire = refl

waiting_writes : waiting.is_writing ≡ true
unfolding connection_code
waiting_writes = refl

-- A message sent while another one waits is lost.
second_lost : stream (send true (codes "!") (wrote 1) waiting) ≡ codes "hello"
unfolding connection_code
second_lost = refl

-- So is one that meets a full socket.
full_socket_lost : stream (send true (codes "hello") (write_failed would_block) opened) ≡ []
unfolding connection_code
full_socket_lost = refl

-- All is written, but the peer is not told that it was the last.
still_open_after_write : (handle_write (wrote 3) (shutdown true waiting)).write_end_shut ≡ false
unfolding connection_code
still_open_after_write = refl

stream-send_in_loop_example :
    stream (send_in_loop (codes "!") (wrote 1) waiting)
    ≡ stream waiting ++ (if accepts (wrote 1) waiting then codes "!" else [])
stream-send_in_loop_example =
    stream-send_in_loop (codes "!") (wrote 1) waiting
      (Reachable-IsSound waiting waiting-Reachable).output_valid (omega arith)

stream-handle_write_example : stream (handle_write (wrote 3) waiting) ≡ stream waiting
stream-handle_write_example =
    stream-handle_write (wrote 3) waiting (Reachable-IsSound waiting waiting-Reachable).output_valid

Reachable-IsSound_example : IsSound waiting
Reachable-IsSound_example = Reachable-IsSound waiting waiting-Reachable

shutdown_lost_example :
    (write_all (wrote 3 ∷ wrote 0 ∷ []) (shutdown true waiting)).write_end_shut
    ≡ waiting.write_end_shut
shutdown_lost_example =
    shutdown_lost (wrote 3 ∷ wrote 0 ∷ []) waiting waiting-Reachable waiting_writes
