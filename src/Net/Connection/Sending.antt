-- ===== src/Net/Connection/Sending.antt =====
-- TcpConnection.cc: sending and the write event keep the phase.
use myoj.Common.{
  ℕ, ◌-◌, ◌≤◌, ◌<◌, ◌≡◌, refl, ap, ◌∙◌, inl, inr, Bool, true, false, not, ◌&&◌, if-cases, ◌++◌,
  take, drop, length, length-append, length-drop, ltb, ◌==◌, ==_iff, arith,
}
use myoj.Common.Bytes.{Bytes}
use myoj.Net.Buffer.{Buffer, readable_bytes, contents, retrieve, append}
use myoj.Net.Buffer.Contents.{IsValid, retrieve-IsValid, length-contents}
use myoj.Net.Buffer.Space.{append-IsValid, contents-append}
use myoj.Net.Connection.{
  Connection, is_disconnected, is_connected, Task, WriteResult, wrote, write_failed, is_fault,
  queue_task, write_now, keep_rest, after_write, send_in_loop, send, output_sent, written,
  write_out, handle_write,
}
use myoj.Net.Connection.Phase.{
  IsSound, queue_task-IsSound, shutdown_in_loop-IsSound, state-queue_task,
}

pub append_filled :
    (rest : Bytes) (b : Buffer) → IsValid b → 0 < length rest → 0 < readable_bytes (append rest b)
append_filled rest b v k = omega (
  arith,
  length-contents (append rest b) (append-IsValid rest b v),
  ap length (contents-append rest b v),
  length-append (contents b) rest,
)

pub waiting-IsSound :
    (rest : Bytes) (b : Bool) (t : Task) (c : Connection)
    → IsSound c
    → is_disconnected c.state ≡ false
    → 0 < length rest
    → IsSound (record (queue_task b t c) {
      output_buffer = append rest c.output_buffer;
      is_writing = true;
    })
unfolding queue_task
waiting-IsSound rest true t c h e k = record {
  input_valid = h.input_valid;
  output_valid = append-IsValid rest c.output_buffer h.output_valid;
  phase = inr (inl (e, refl, append_filled rest c.output_buffer h.output_valid k));
}
waiting-IsSound rest false t c h e k = record {
  input_valid = h.input_valid;
  output_valid = append-IsValid rest c.output_buffer h.output_valid;
  phase = inr (inl (e, refl, append_filled rest c.output_buffer h.output_valid k));
}

-- What is kept for later is not empty, so a write event is wanted.
pub after_write-IsSound :
    (data_ : Bytes) (r : WriteResult) (c : Connection) (left : ℕ)
    → IsSound c
    → is_disconnected c.state ≡ false
    → left ≤ length data_
    → IsSound (after_write data_ r (c, left))
unfolding after_write keep_rest
after_write-IsSound data_ r c left h e k =
    let filled : (not (is_fault r) && ltb 0 left) ≡ true
        → 0 < length (drop (length data_ - left) data_) =
      λ some_left. ground (arith, some_left, length-drop (length data_ - left) data_) in
    if-cases IsSound (not (is_fault r) && ltb 0 left) _ c
      (λ some_left. waiting-IsSound (drop (length data_ - left) data_) _ _ c h e (filled some_left))
      (λ none_left. h)

pub send_in_loop-IsSound :
    (data_ : Bytes) (r : WriteResult) (c : Connection)
    → IsSound c
    → IsSound (send_in_loop data_ r c)
unfolding send_in_loop write_now
send_in_loop-IsSound data_ (wrote n) c h =
    if-cases IsSound (is_disconnected c.state) c _ (λ d. h)
      (λ d.
        if-cases IsSound (not c.is_writing && readable_bytes c.output_buffer == 0) _ c
          (λ idle.
            after_write-IsSound data_ (wrote n) _ (length data_ - n)
              (queue_task-IsSound _ _ (record c { wire = c.wire ++ take n data_ })
                (record {
                  input_valid = h.input_valid;
                  output_valid = h.output_valid;
                  phase = h.phase;
                }))
              (ap is_disconnected
                  (state-queue_task _ _ (record c { wire = c.wire ++ take n data_ }))
                ∙ d)
              (omega arith))
          (λ busy. h))
send_in_loop-IsSound data_ (write_failed x) c h =
    if-cases IsSound (is_disconnected c.state) c _ (λ d. h)
      (λ d.
        if-cases IsSound (not c.is_writing && readable_bytes c.output_buffer == 0) _ c
          (λ idle. after_write-IsSound data_ (write_failed x) c 0 h d (omega arith)) (λ busy. h))

pub send-IsSound :
    (in_loop : Bool) (data_ : Bytes) (r : WriteResult) (c : Connection)
    → IsSound c
    → IsSound (send in_loop data_ r c)
unfolding send
send-IsSound in_loop data_ r c h =
    if-cases IsSound (is_connected c.state) _ c
      (λ e.
        if-cases IsSound in_loop _ _ (λ i. send_in_loop-IsSound data_ r c h)
          (λ i. queue_task-IsSound true _ c h))
      (λ e. h)

-- When everything is written, the write event goes.
pub output_sent-IsSound :
    (c : Connection)
    → IsValid c.input_buffer
    → IsValid c.output_buffer
    → is_disconnected c.state ≡ false
    → readable_bytes c.output_buffer ≡ 0
    → IsSound (output_sent c)
unfolding output_sent
output_sent-IsSound c u v d e =
    let idle : IsSound (record c { is_writing = false }) = record {
      input_valid = u;
      output_valid = v;
      phase = inr (inr (d, refl, e));
    } in
    if-cases IsSound (is_disconnected c.state) _ _
      (λ x. shutdown_in_loop-IsSound _ (queue_task-IsSound _ _ _ idle))
      (λ x. queue_task-IsSound _ _ _ idle)

pub written-IsSound :
    (n : ℕ) (c : Connection)
    → IsSound c
    → is_disconnected c.state ≡ false
    → c.is_writing ≡ true
    → IsSound (written n c)
unfolding written
written-IsSound n c h d w =
    let v : IsValid (retrieve n c.output_buffer) =
      retrieve-IsValid n c.output_buffer h.output_valid in
    if-cases IsSound (readable_bytes (retrieve n c.output_buffer) == 0) _ _
      (λ e. output_sent-IsSound _ h.input_valid v d ((==_iff _ 0).0 e))
      (λ e. record {
        input_valid = h.input_valid;
        output_valid = v;
        phase = inr (inl (d, w, ground (arith, e)));
      })

pub writing_is_open :
    (c : Connection) → IsSound c → c.is_writing ≡ true → is_disconnected c.state ≡ false
writing_is_open c h w = ground (arith, h.phase, w)

pub handle_write-IsSound :
    (r : WriteResult) (c : Connection) → IsSound c → IsSound (handle_write r c)
unfolding handle_write write_out
handle_write-IsSound (wrote n) c h =
    if-cases IsSound c.is_writing _ c
      (λ w.
        if-cases IsSound (ltb 0 n) _ c (λ k. written-IsSound n c h (writing_is_open c h w) w)
          (λ k. h))
      (λ w. h)
handle_write-IsSound (write_failed e) c h = if-cases IsSound c.is_writing c c (λ w. h) (λ w. h)
