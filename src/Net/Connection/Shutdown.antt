-- ===== src/Net/Connection/Shutdown.antt =====
-- TcpConnection.cc: `shutdown` while output is waiting.
use myoj.Common.{ℕ, ◌≡◌, refl, ◌∙◌, Bool, true, false, if-cases, List, [], ◌∷◌, ltb, ◌==◌, arith}
use myoj.Net.Buffer.{readable_bytes, retrieve}
use myoj.Net.Connection.{
  Connection, is_disconnected, is_connected, Task, WriteResult, wrote, write_failed, queue_task,
  shutdown_in_loop, shutdown, output_sent, written, write_out, handle_write,
}
use myoj.Net.Connection.Sending.{writing_is_open}
use myoj.Net.Connection.Invariant.{Reachable, next, writes, shuts, Reachable-IsSound}

shut-queue_task :
    (b : Bool) (t : Task) (c : Connection) → (queue_task b t c).write_end_shut ≡ c.write_end_shut
unfolding queue_task
shut-queue_task true t c = refl
shut-queue_task false t c = refl

-- The test for a closed connection never succeeds here, since a closed one has no write event.
shut-written :
    (n : ℕ) (c : Connection)
    → is_disconnected c.state ≡ false
    → (written n c).write_end_shut ≡ c.write_end_shut
unfolding written output_sent
shut-written n c d =
    if-cases (λ (k : Connection). k.write_end_shut ≡ c.write_end_shut)
      (readable_bytes (retrieve n c.output_buffer) == 0) _ _ (λ e. rw d (shut-queue_task _ _ _))
      (λ e. refl)

pub shut-handle_write :
    (r : WriteResult) (c : Connection)
    → Reachable c
    → (handle_write r c).write_end_shut ≡ c.write_end_shut
unfolding handle_write write_out
shut-handle_write (wrote n) c h =
    if-cases (λ (k : Connection). k.write_end_shut ≡ c.write_end_shut) c.is_writing _ c
      (λ w.
        if-cases (λ (k : Connection). k.write_end_shut ≡ c.write_end_shut) (ltb 0 n) _ c
          (λ k. shut-written n c (writing_is_open c (Reachable-IsSound c h) w)) (λ k. refl))
      (λ w. refl)
shut-handle_write (write_failed e) c h =
    if-cases (λ (k : Connection). k.write_end_shut ≡ c.write_end_shut) c.is_writing c c (λ w. refl)
      (λ w. refl)

-- Write events, one after the other.
unfoldable pub write_all : List WriteResult → Connection → Connection
write_all [] c = c
write_all (r ∷ rs) c = write_all rs (handle_write r c)

shut-write_all :
    (rs : List WriteResult) (c : Connection)
    → Reachable c
    → (write_all rs c).write_end_shut ≡ c.write_end_shut
unfolding write_all
shut-write_all [] c h = refl
shut-write_all (r ∷ rs) c h =
    shut-write_all rs (handle_write r c) (next c _ h (writes r)) ∙ shut-handle_write r c h

-- A `shutdown` while output is waiting is not carried out: neither at once nor by any write events,
-- also when they send everything.
pub shutdown_lost :
    (rs : List WriteResult) (c : Connection)
    → Reachable c
    → c.is_writing ≡ true
    → (write_all rs (shutdown true c)).write_end_shut ≡ c.write_end_shut
unfolding shutdown shutdown_in_loop
shutdown_lost rs c h w =
    shut-write_all rs (shutdown true c) (next c _ h (shuts true))
    ∙ if-cases (λ (k : Connection). k.write_end_shut ≡ c.write_end_shut) (is_connected c.state) _ c
        (λ e.
          if-cases (λ (k : Connection). k.write_end_shut ≡ c.write_end_shut) c.is_writing _ _
            (λ x. refl) (λ x. absurd (ground (arith, w, x))))
        (λ e. refl)
