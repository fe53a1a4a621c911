-- ===== src/Net/Buffer/Space.antt =====
-- Making room: `makeSpace` moves or grows, and what is appended or read from a socket stands behind
-- the bytes that were there.
use myoj.Common.{
  ℕ, ◌+◌, ◌-◌, ◌≤◌, ◌<◌, ◌≡◌, refl, sym, ap, ◌∙◌, dec_lt, ltb_of_lt, ltb_of_le, ◌++◌, length, take,
  drop, replicate, arith, length-append, length-take, length-drop, length-replicate, take_all,
  take-append_left, drop-append_left, take-append-drop, append_assoc,
}
use myoj.Common.Bytes.{Bytes}
use myoj.Net.Buffer.{
  Buffer, cheap_prepend, readable_bytes, writable_bytes, contents, write_at, resize, make_space,
  ensure_writeable_bytes, copy_in, append, read_fd,
}
use myoj.Net.Buffer.Contents.{
  IsValid, length-contents, length-write_at, slice-write_at, copy_in-IsValid, contents-copy_in,
}

make_space_grow :
    (len : ℕ) (b : Buffer)
    → writable_bytes b + b.reader_index < len + cheap_prepend
    → make_space len b ≡ record b { buffer = resize (b.writer_index + len) b.buffer }
unfolding make_space
make_space_grow len b h = rw (ltb_of_lt _ _ h)

make_space_move :
    (len : ℕ) (b : Buffer)
    → len + cheap_prepend ≤ writable_bytes b + b.reader_index
    → make_space len b ≡ record {
      buffer = write_at cheap_prepend (contents b) b.buffer;
      reader_index = cheap_prepend;
      writer_index = cheap_prepend + readable_bytes b;
    }
unfolding make_space
make_space_move len b h = rw (ltb_of_le _ _ h)

-- What `make_space` owes to the writer that asked for `len` bytes.
pub record Makes (len : ℕ) (b c : Buffer) : Type 0 where
  pub valid : IsValid c
  pub room : len ≤ writable_bytes c
  pub same : contents c ≡ contents b

grow-Makes :
    (len : ℕ) (b : Buffer)
    → IsValid b
    → writable_bytes b < len
    → Makes len b (record b { buffer = resize (b.writer_index + len) b.buffer })
grow-Makes len b v h = record {
  valid = omega (arith, size);
  room = omega (arith, size);
  same =
      ap (λ v. take (readable_bytes b) (drop b.reader_index (v ++ zeros)))
        (take_all (b.writer_index + len) b.buffer (omega arith))
      ∙ ap (take (readable_bytes b)) (drop-append_left b.reader_index b.buffer zeros (omega arith))
      ∙ take-append_left (readable_bytes b) (drop b.reader_index b.buffer) zeros
          (omega (arith, length-drop {0} b.reader_index b.buffer));
}
  where
    zeros : Bytes
    zeros = replicate (b.writer_index + len - length b.buffer) 0

    size : length (resize (b.writer_index + len) b.buffer) ≡ b.writer_index + len
    size = omega (
      arith,
      length-append {0} (take (b.writer_index + len) b.buffer) zeros,
      length-take {0} (b.writer_index + len) b.buffer,
      length-replicate {A = ℕ} (b.writer_index + len - length b.buffer) 0,
    )

move-Makes :
    (len : ℕ) (b : Buffer)
    → IsValid b
    → len + cheap_prepend ≤ writable_bytes b + b.reader_index
    → Makes len b (record {
      buffer = write_at cheap_prepend (contents b) b.buffer;
      reader_index = cheap_prepend;
      writer_index = cheap_prepend + readable_bytes b;
    })
move-Makes len b v h = record {
  valid = omega (arith, length-contents b v, size);
  room = omega (arith, length-contents b v, size);
  same =
      ap (λ k. take (cheap_prepend + k - cheap_prepend) (drop cheap_prepend moved))
        (sym (length-contents b v))
      ∙ slice-write_at cheap_prepend cheap_prepend (contents b) b.buffer (omega arith)
          (omega arith);
}
  where
    moved : Bytes
    moved = write_at cheap_prepend (contents b) b.buffer

    size : length (write_at cheap_prepend (contents b) b.buffer) ≡ length b.buffer
    size = length-write_at cheap_prepend (contents b) b.buffer (omega (arith, length-contents b v))

make_space-Makes :
    (len : ℕ) (b : Buffer) → IsValid b → writable_bytes b < len → Makes len b (make_space len b)
make_space-Makes len b v h =
    elim (dec_lt (writable_bytes b + b.reader_index) (len + cheap_prepend)) [
      | yes grow ↦ rw (make_space_grow len b grow) (grow-Makes len b v h)
      | no move ↦ rw (make_space_move len b (omega arith)) (move-Makes len b v (omega arith))
    ]

-- After `ensureWriteableBytes` there is room, and the bytes to be read are the same.
pub ensure_writeable_bytes-Makes :
    (len : ℕ) (b : Buffer) → IsValid b → Makes len b (ensure_writeable_bytes len b)
unfolding ensure_writeable_bytes
ensure_writeable_bytes-Makes len b v = elim (dec_lt (writable_bytes b) len) [
  | yes short ↦ rw (ltb_of_lt _ _ short) (make_space-Makes len b v short)
  | no enough ↦
      rw (ltb_of_le (writable_bytes b) len (omega arith))
        (record { valid = v; room = omega arith; same = refl })
]

pub append-IsValid : (src : Bytes) (b : Buffer) → IsValid b → IsValid (append src b)
unfolding append
append-IsValid src b v =
    let made = ensure_writeable_bytes-Makes (length src) b v in
    copy_in-IsValid src _ made.valid made.room

pub contents-append :
    (src : Bytes) (b : Buffer) → IsValid b → contents (append src b) ≡ contents b ++ src
unfolding append
contents-append src b v =
    let made = ensure_writeable_bytes-Makes (length src) b v in
    contents-copy_in src _ made.valid ∙ ap (λ c. c ++ src) made.same

-- `readFd` in its two cases.
pub read_fd-IsValid : (src : Bytes) (b : Buffer) → IsValid b → IsValid (read_fd src b)
unfolding read_fd
read_fd-IsValid src b v = elim (dec_lt (writable_bytes b) (length src)) [
  | yes more ↦
      let front = take (writable_bytes b) src in
      let copied =
        copy_in-IsValid front b v (omega (arith, length-take {0} (writable_bytes b) src)) in
      rw (ltb_of_lt _ _ more)
        (append-IsValid (drop (writable_bytes b) src) (copy_in front b) copied)
  | no fits ↦
      rw (ltb_of_le (writable_bytes b) (length src) (omega arith))
        (copy_in-IsValid src b v (omega arith))
]

pub contents-read_fd :
    (src : Bytes) (b : Buffer) → IsValid b → contents (read_fd src b) ≡ contents b ++ src
unfolding read_fd
contents-read_fd src b v = elim (dec_lt (writable_bytes b) (length src)) [
  | yes more ↦ rw (ltb_of_lt _ _ more) (both more)
  | no fits ↦
      rw (ltb_of_le (writable_bytes b) (length src) (omega arith)) (contents-copy_in src b v)
]
  where
    front : Bytes
    front = take (writable_bytes b) src

    rest : Bytes
    rest = drop (writable_bytes b) src

    both :
        writable_bytes b < length src → contents (append rest (copy_in front b)) ≡ contents b ++ src
    both more =
        contents-append rest (copy_in front b)
          (copy_in-IsValid front b v (omega (arith, length-take {0} (writable_bytes b) src)))
        ∙ ap (λ c. c ++ rest) (contents-copy_in front b v)
        ∙ append_assoc (contents b) front rest
        ∙ ap (◌++◌ (contents b)) (take-append-drop (writable_bytes b) src)
