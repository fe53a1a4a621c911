-- ===== src/Net/Buffer/Contents.antt =====
-- What each operation of the buffer does to its indices and to the bytes that can be read.
use myoj.Common.{
  ℕ, ◌+◌, ◌-◌, ◌≤◌, ◌<◌, ◌≡◌, refl, sym, ap, ◌∙◌, dec_lt, drop_all, ltb_of_lt, ltb_of_le, ◌++◌,
  length, take, drop, arith, length-append, length-take, length-drop, length-replicate, take_all,
  take-append_left, take-append_right, drop-append_left, drop-drop, drop-take,
}
use myoj.Common.Bytes.{Bytes}
use myoj.Net.Buffer.{
  Buffer, cheap_prepend, readable_bytes, writable_bytes, contents, write_at, retrieve_all, retrieve,
  copy_in, make_buffer,
}

-- The indices are in order and inside the vector, and the reserve in front is free.
pub record IsValid (b : Buffer) : Type 0 where
  pub reserve : cheap_prepend ≤ b.reader_index
  pub ordered : b.reader_index ≤ b.writer_index
  pub within : b.writer_index ≤ length b.buffer

pub length-contents : (b : Buffer) → IsValid b → length (contents b) ≡ readable_bytes b
length-contents b v = omega (
  arith,
  length-take {0} (readable_bytes b) (drop b.reader_index b.buffer),
  length-drop {0} b.reader_index b.buffer,
)

pub length-write_at :
    (i : ℕ) (src v : Bytes) → i + length src ≤ length v → length (write_at i src v) ≡ length v
length-write_at i src v h = omega (
  arith,
  length-append {0} (take i v) (src ++ drop (i + length src) v),
  length-append {0} src (drop (i + length src) v),
  length-take {0} i v,
  length-drop {0} (i + length src) v,
)

-- A range that ends where the write begins grows by what is written.
pub slice-write_at :
    (r w : ℕ) (src v : Bytes)
    → r ≤ w
    → w ≤ length v
    → take (w + length src - r) (drop r (write_at w src v)) ≡ take (w - r) (drop r v) ++ src
slice-write_at r w src v h k =
    ap (take (w + length src - r))
      (front ∙ ap (λ (s : Bytes). s ++ rest) (drop-take r w (w - r) v (omega arith)))
    ∙ take-append_right (w + length src - r) (length src) (take (w - r) (drop r v)) rest long
    ∙ ap (◌++◌ (take (w - r) (drop r v))) (
        take-append_left (length src) src _ (omega arith) ∙ take_all (length src) src (omega arith))
  where
    rest : Bytes
    rest = src ++ drop (w + length src) v

    front : drop r (write_at w src v) ≡ drop r (take w v) ++ rest
    front = drop-append_left r (take w v) rest (omega (arith, length-take {0} w v))

    long : w + length src - r ≡ length (take (w - r) (drop r v)) + length src
    long = omega (arith, length-take {0} (w - r) (drop r v), length-drop {0} r v)

pub make_buffer-IsValid : (size : ℕ) → IsValid (make_buffer size)
unfolding make_buffer
make_buffer-IsValid size = omega (arith, length-replicate {A = ℕ} (cheap_prepend + size) 0)

pub retrieve-IsValid : (len : ℕ) (b : Buffer) → IsValid b → IsValid (retrieve len b)
unfolding retrieve
retrieve-IsValid len b v = ground arith

retrieve_some :
    (len : ℕ) (b : Buffer)
    → len < readable_bytes b
    → retrieve len b ≡ record b { reader_index = b.reader_index + len }
unfolding retrieve
retrieve_some len b h = rw (ltb_of_lt _ _ h)

pub retrieve_rest :
    (len : ℕ) (b : Buffer) → readable_bytes b ≤ len → retrieve len b ≡ retrieve_all b
unfolding retrieve
retrieve_rest len b h = rw (ltb_of_le _ _ h)

contents-retrieve_some :
    (len : ℕ) (b : Buffer)
    → len < readable_bytes b
    → contents (record b { reader_index = b.reader_index + len }) ≡ drop len (contents b)
contents-retrieve_some len b h =
    ap (take (b.writer_index - (b.reader_index + len)))
      (sym (drop-drop len b.reader_index _ b.buffer refl))
    ∙ sym (drop-take len (readable_bytes b) _ (drop b.reader_index b.buffer) (omega arith))

pub contents-retrieve :
    (len : ℕ) (b : Buffer) → IsValid b → contents (retrieve len b) ≡ drop len (contents b)
unfolding retrieve_all
contents-retrieve len b v = elim (dec_lt len (readable_bytes b)) [
  | yes less ↦ ap contents (retrieve_some len b less) ∙ contents-retrieve_some len b less
  | no more ↦
      ap contents (retrieve_rest len b (omega arith))
      ∙ sym (drop_all len (contents b) (omega (arith, length-contents b v)))
]

pub copy_in-IsValid :
    (src : Bytes) (b : Buffer) → IsValid b → length src ≤ writable_bytes b → IsValid (copy_in src b)
unfolding copy_in
copy_in-IsValid src b v h = omega (arith, length-write_at b.writer_index src b.buffer)

pub contents-copy_in :
    (src : Bytes) (b : Buffer) → IsValid b → contents (copy_in src b) ≡ contents b ++ src
unfolding copy_in
contents-copy_in src b v =
    slice-write_at b.reader_index b.writer_index src b.buffer v.ordered v.within
