-- ===== src/Net/Buffer.antt =====
-- include/net/Buffer.h and src/net/Buffer.cc: the byte buffer of a connection. The vector's first
-- 8 bytes are kept free, the bytes between the two indices are the ones to be read.
-- A pointer into the buffer is its distance from `begin()`. `LOG_FATAL` flushes and aborts, which
-- is `none` here. Sizes are those of objects in memory, so sums of them stay below 2^64; that no
-- difference of indices wraps is part of `IsValid`.
pub mod Contents
pub mod Space
pub mod Refinement
pub mod Tests
use myoj.Common.{
  ℕ, ◌+◌, ◌-◌, ltb, ◌==◌, ◌||◌, if◌then◌else◌, Option, none, some, List, ◌++◌, length, take, drop,
  replicate, Bool,
}
use myoj.Common.Bytes.{Bytes, find_index}

abbrev pub cheap_prepend : ℕ
cheap_prepend = 8

abbrev pub initial_size : ℕ
initial_size = 1024

-- `sizeof extrabuf` in `readFd`.
abbrev pub extra_size : ℕ
extra_size = 65536

pub record Buffer : Type 0 where
  pub buffer : List ℕ
  pub reader_index : ℕ
  pub writer_index : ℕ

unfoldable pub make_buffer : ℕ → Buffer
make_buffer size = record {
  buffer = replicate (cheap_prepend + size) 0;
  reader_index = cheap_prepend;
  writer_index = cheap_prepend;
}

abbrev pub readable_bytes : Buffer → ℕ
readable_bytes b = b.writer_index - b.reader_index

abbrev pub writable_bytes : Buffer → ℕ
writable_bytes b = length b.buffer - b.writer_index

abbrev pub prependable_bytes : Buffer → ℕ
prependable_bytes b = b.reader_index

-- The range from `peek()` to `beginWrite()`.
abbrev pub contents : Buffer → Bytes
contents b = take (readable_bytes b) (drop b.reader_index b.buffer)

unfoldable pub empty : Buffer → Bool
empty b = readable_bytes b == 0

unfoldable pub retrieve_all : Buffer → Buffer
retrieve_all b = record b { reader_index = cheap_prepend; writer_index = cheap_prepend }

unfoldable pub retrieve : ℕ → Buffer → Buffer
unfolding retrieve_all
retrieve len b =
    if ltb len (readable_bytes b)
    then record b { reader_index = b.reader_index + len }
    else retrieve_all b

unfoldable pub retrieve_as_string : ℕ → Buffer → Option (Bytes × Buffer)
unfolding retrieve
retrieve_as_string len b =
    if ltb (readable_bytes b) len
    then none
    else some (take len (drop b.reader_index b.buffer), retrieve len b)

unfoldable pub retrieve_all_as_string : Buffer → Option (Bytes × Buffer)
unfolding retrieve_as_string
retrieve_all_as_string b = retrieve_as_string (readable_bytes b) b

-- `std::copy` of a range to the position `i` of the vector.
abbrev pub write_at : ℕ → Bytes → Bytes → Bytes
write_at i src v = take i v ++ (src ++ drop (i + length src) v)

-- `std::vector<char>::resize`.
abbrev pub resize : ℕ → Bytes → Bytes
resize n v = take n v ++ replicate (n - length v) 0

unfoldable pub make_space : ℕ → Buffer → Buffer
make_space len b =
    if ltb (writable_bytes b + prependable_bytes b) (len + cheap_prepend)
    then record b { buffer = resize (b.writer_index + len) b.buffer }
    else record {
      buffer = write_at cheap_prepend (contents b) b.buffer;
      reader_index = cheap_prepend;
      writer_index = cheap_prepend + readable_bytes b;
    }

unfoldable pub ensure_writeable_bytes : ℕ → Buffer → Buffer
ensure_writeable_bytes len b = if ltb (writable_bytes b) len then make_space len b else b

-- `std::copy(data, data + len, beginWrite())` and the move of the write index.
unfoldable pub copy_in : Bytes → Buffer → Buffer
copy_in src b = record b {
  buffer = write_at b.writer_index src b.buffer;
  writer_index = b.writer_index + length src;
}

unfoldable pub append : Bytes → Buffer → Buffer
append src b = copy_in src (ensure_writeable_bytes (length src) b)

-- `std::search(peek(), beginWrite(), kCRLF, kCRLF + 1)` looks for the first byte of "\r\n" only.
unfoldable pub find_crlf : Buffer → Option ℕ
unfolding empty find_index
find_crlf b =
    if empty b
    then none
    else (if find_index 13 (contents b) == length (contents b)
        then none
        else some (b.reader_index + find_index 13 (contents b)))

unfoldable pub retrieve_until : ℕ → Buffer → Option Buffer
retrieve_until end b =
    if ltb end b.reader_index || ltb b.writer_index end
    then none
    else some (retrieve (end - b.reader_index) b)

-- How many bytes the two vectors that `readFd` hands to `readv` can take.
unfoldable pub read_capacity : Buffer → ℕ
read_capacity b =
    if ltb (writable_bytes b) extra_size then writable_bytes b + extra_size else writable_bytes b

-- `readFd` when `readv` has returned the bytes `src`: those that fit lie behind the write index,
-- the others in `extrabuf`. A negative return of `readv` leaves the buffer alone.
unfoldable pub read_fd : Bytes → Buffer → Buffer
read_fd src b =
    if ltb (writable_bytes b) (length src)
    then append (drop (writable_bytes b) src) (copy_in (take (writable_bytes b) src) b)
    else copy_in src b
