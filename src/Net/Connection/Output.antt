-- ===== src/Net/Connection/Output.antt =====
-- TcpConnection.cc: the bytes that a connection sends, those in the kernel in front of those in the
-- output buffer.
use myoj.Common.{
  ℕ, ◌-◌, ◌≤◌, ◌≡◌, refl, sym, ap, ◌∙◌, subst, inl, inr, Bool, true, false, not, ◌&&◌, Bool-cases,
  [], ◌++◌, append-nil, append_assoc, take, drop, length, take-append-drop, drop_all, ltb, ◌==◌,
  ==_iff, if◌then◌else◌, arith, dec_lt, ltb_of_lt, ltb_of_le,
}
use myoj.Common.Bytes.{Bytes}
use myoj.Net.Buffer.{Buffer, readable_bytes, contents, retrieve}
use myoj.Net.Buffer.Contents.{IsValid, contents-retrieve}
use myoj.Net.Buffer.Space.{contents-append}
use myoj.Net.Connection.{
  Connection, StateE, Task, is_disconnected, WriteResult, wrote, write_failed, would_block,
  broken_pipe, conn_reset, other_error, is_fault, queue_task, write_now, keep_rest, after_write,
  send_in_loop, shutdown_in_loop, output_sent, written, write_out, handle_write,
}

-- All bytes that were accepted for sending, in order.
abbrev pub stream : Connection → Bytes
stream c = c.wire ++ contents c.output_buffer

-- `write` takes no more than it is offered.
abbrev pub Fits : ℕ → WriteResult → Type 0
Fits len (wrote n) = n ≤ len
Fits len (write_failed e) = Unit

abbrev pub is_written : WriteResult → Bool
is_written (wrote n) = true
is_written (write_failed e) = false

-- A message is accepted when nothing waits to be written and the kernel takes a part of it.
abbrev pub accepts : WriteResult → Connection → Bool
accepts r c =
    not (is_disconnected c.state)
    && not c.is_writing
    && readable_bytes c.output_buffer == 0
    && is_written r

pub stream-queue_task :
    (b : Bool) (t : Task) (c : Connection) → stream (queue_task b t c) ≡ stream c
unfolding queue_task
stream-queue_task true t c = refl
stream-queue_task false t c = refl

output_buffer-queue_task :
    (b : Bool) (t : Task) (c : Connection) → (queue_task b t c).output_buffer ≡ c.output_buffer
unfolding queue_task
output_buffer-queue_task true t c = refl
output_buffer-queue_task false t c = refl

wire-queue_task : (b : Bool) (t : Task) (c : Connection) → (queue_task b t c).wire ≡ c.wire
unfolding queue_task
wire-queue_task true t c = refl
wire-queue_task false t c = refl

after_write-failed :
    (data_ : Bytes) (e : myoj.Net.Connection.Errno) (c : Connection)
    → after_write data_ (write_failed e) (c, 0) ≡ c
unfolding after_write
after_write-failed data_ would_block c = refl
after_write-failed data_ broken_pipe c = refl
after_write-failed data_ conn_reset c = refl
after_write-failed data_ other_error c = refl

stream-keep_rest :
    (rest : Bytes) (c : Connection)
    → IsValid c.output_buffer
    → stream (keep_rest rest c) ≡ stream c ++ rest
unfolding keep_rest
stream-keep_rest rest c v =
    rw (wire-queue_task _ _ c, contents-append rest c.output_buffer v)
      (sym (append_assoc c.wire (contents c.output_buffer) rest))

contents_none : (b : Buffer) → readable_bytes b ≡ 0 → contents b ≡ []
contents_none b h = ap (λ n. take n (drop b.reader_index b.buffer)) h

stream-after_write :
    (data_ : Bytes) (n left : ℕ) (c : Connection)
    → IsValid c.output_buffer
    → left ≤ length data_
    → stream (after_write data_ (wrote n) (c, left)) ≡ stream c ++ drop (length data_ - left) data_
unfolding after_write
stream-after_write data_ n left c v h = elim (dec_lt 0 left) [
  | yes some_left ↦
      rw (ltb_of_lt 0 left some_left) (stream-keep_rest (drop (length data_ - left) data_) c v)
  | no all_sent ↦
      rw (ltb_of_le 0 left (omega arith), drop_all (length data_ - left) data_ (omega arith))
        (sym (append-nil (stream c)))
]

rejoined :
    (w data_ o : Bytes) (n : ℕ)
    → o ≡ []
    → ((w ++ take n data_) ++ o) ++ drop n data_ ≡ (w ++ o) ++ data_
rejoined w data_ o n h =
    rw (h, append-nil w, append-nil (w ++ take n data_))
      (append_assoc w (take n data_) (drop n data_) ∙ ap (λ d. w ++ d) (take-append-drop n data_))

-- A message that is taken by the kernel in part or in full.
stream-write_now :
    (data_ : Bytes) (n : ℕ) (c : Connection)
    → IsValid c.output_buffer
    → readable_bytes c.output_buffer ≡ 0
    → n ≤ length data_
    → stream (after_write data_ (wrote n) (write_now data_ (wrote n) c)) ≡ stream c ++ data_
unfolding write_now
stream-write_now data_ n c v h k =
    let sent : Connection = record c { wire = c.wire ++ take n data_ } in
    let full : Bool = length data_ - n == 0 && c.has_write_complete_callback in
    let back : length data_ - (length data_ - n) ≡ n = omega arith in
    let told : Connection = queue_task full myoj.Net.Connection.write_complete_task sent in
    stream-after_write data_ n (length data_ - n) told
      (subst IsValid (sym (output_buffer-queue_task full _ sent)) v) (omega arith)
    ∙ rw (stream-queue_task full myoj.Net.Connection.write_complete_task sent, back)
        (rejoined c.wire data_ (contents c.output_buffer) n (contents_none c.output_buffer h))

failed-send_in_loop :
    (data_ : Bytes) (e : myoj.Net.Connection.Errno) (c : Connection)
    → send_in_loop data_ (write_failed e) c ≡ c
unfolding send_in_loop write_now
failed-send_in_loop data_ e c = elim (Bool-cases (is_disconnected c.state)) [
  | inl d ↦ rw d refl
  | inr d ↦ elim (Bool-cases (not c.is_writing && readable_bytes c.output_buffer == 0)) [
    | inl f ↦ rw (d, f) (after_write-failed data_ e c)
    | inr f ↦ rw (d, f) refl
  ]
]

never_accepts :
    (e : myoj.Net.Connection.Errno) (c : Connection) → accepts (write_failed e) c ≡ false
never_accepts e c = ground arith

-- A message is either sent as a whole, behind everything accepted before, or not at all: it is
-- accepted exactly when the connection is not closed, nothing waits to be written, and `write` does
-- not fail.
pub stream-send_in_loop :
    (data_ : Bytes) (r : WriteResult) (c : Connection)
    → IsValid c.output_buffer
    → Fits (length data_) r
    → stream (send_in_loop data_ r c) ≡ stream c ++ (if accepts r c then data_ else [])
unfolding send_in_loop
stream-send_in_loop data_ (wrote n) c v k = elim (Bool-cases (is_disconnected c.state)) [
  | inl e ↦ rw e (sym (append-nil (stream c)))
  | inr e ↦ elim (Bool-cases c.is_writing) [
    | inl f ↦ rw (e, f) (sym (append-nil (stream c)))
    | inr f ↦ elim (Bool-cases (readable_bytes c.output_buffer == 0)) [
      | inl g ↦
          simp (e, f, g)
            (stream-write_now data_ n c v ((==_iff (readable_bytes c.output_buffer) 0).0 g) k)
      | inr g ↦ rw (e, f, g) (sym (append-nil (stream c)))
    ]
  ]
]
stream-send_in_loop data_ (write_failed e) c v k =
    rw (failed-send_in_loop data_ e c, never_accepts e c) (sym (append-nil (stream c)))

stream-shutdown_in_loop : (c : Connection) → stream (shutdown_in_loop c) ≡ stream c
unfolding shutdown_in_loop
stream-shutdown_in_loop c = elim (Bool-cases c.is_writing) [ inl e ↦ rw e refl | inr e ↦ rw e refl ]

stream-output_sent : (c : Connection) → stream (output_sent c) ≡ stream c
unfolding output_sent
stream-output_sent c =
    let idle : Connection = record c { is_writing = false } in
    let done : Connection =
      queue_task c.has_write_complete_callback myoj.Net.Connection.write_complete_task idle in
    elim (Bool-cases (is_disconnected c.state)) [
      | inl e ↦ rw e (stream-shutdown_in_loop done ∙ stream-queue_task _ _ idle)
      | inr e ↦ rw e (stream-queue_task _ _ idle)
    ]

stream-written :
    (n : ℕ) (c : Connection) → IsValid c.output_buffer → stream (written n c) ≡ stream c
unfolding written
stream-written n c v =
    let sent : Connection = record c {
      wire = c.wire ++ take n (contents c.output_buffer);
      output_buffer = retrieve n c.output_buffer;
    } in
    let moved : stream sent ≡ stream c =
      ap (λ o. (c.wire ++ take n (contents c.output_buffer)) ++ o)
        (contents-retrieve n c.output_buffer v)
      ∙ append_assoc c.wire _ _
      ∙ ap (λ o. c.wire ++ o) (take-append-drop n (contents c.output_buffer)) in
    elim (Bool-cases (readable_bytes sent.output_buffer == 0)) [
      | inl e ↦ rw e (stream-output_sent sent ∙ moved)
      | inr e ↦ rw e moved
    ]

-- A write event moves bytes from the output buffer to the kernel and loses none.
pub stream-handle_write :
    (r : WriteResult) (c : Connection)
    → IsValid c.output_buffer
    → stream (handle_write r c) ≡ stream c
unfolding handle_write write_out
stream-handle_write (wrote n) c v = elim (Bool-cases c.is_writing) [
  | inr e ↦ rw e refl
  | inl e ↦ elim (Bool-cases (ltb 0 n)) [
    | inl f ↦ simp (e, f) (stream-written n c v)
    | inr f ↦ rw (e, f) refl
  ]
]
stream-handle_write (write_failed x) c v = elim (Bool-cases c.is_writing) [
  | inl e ↦ rw e refl
  | inr e ↦ rw e refl
]
