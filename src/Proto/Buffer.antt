-- ===== src/Proto/Buffer.antt =====
-- `pb_buffer_t` of src/include/esphome_proto.h and its initialisers, and the two views of it that
-- the proofs are stated over: what an encoder has written, and what a decoder has still to read.
pub mod Views
use esphome_linux.Base.{ℕ, ◌+◌, ◌%◌, ◌^◌, ◌≤◌, ◌<◌, Bool, true, false, List, length, set, write_at}

-- `data` is the array behind the pointer; `size` may be less than the array holds. A `size_t` has
-- 64 bits.
pub record PbBuffer : Type 0 where
  pub bytes : List ℕ
  pub size : ℕ
  pub pos : ℕ
  pub error : Bool

abbrev pub IsByte : ℕ → Type 0
IsByte b = b < 256

abbrev pub IsU16 : ℕ → Type 0
IsU16 v = v < 2 ^ 16

abbrev pub IsU32 : ℕ → Type 0
IsU32 v = v < 2 ^ 32

abbrev pub IsU64 : ℕ → Type 0
IsU64 v = v < 2 ^ 64

-- `size_t` addition
abbrev pub add_size : ℕ → ℕ → ℕ
add_size a b = (a + b) % 2 ^ 64

abbrev pub pb_buffer_init_write : List ℕ → ℕ → PbBuffer
pb_buffer_init_write array size = record { bytes = array; size = size; pos = 0; error = false }

abbrev pub pb_buffer_init_read : List ℕ → ℕ → PbBuffer
pb_buffer_init_read array size = record { bytes = array; size = size; pos = 0; error = false }

-- `buf->error = true`
abbrev pub fail : PbBuffer → PbBuffer
fail b = record b { error = true }

-- `buf->data[buf->pos++] = v`, reached only where `pos < size`, so `pos` cannot wrap.
abbrev pub put_byte : PbBuffer → ℕ → PbBuffer
put_byte b v = record b { bytes = set b.bytes b.pos v; pos = b.pos + 1 }

-- `memcpy(buf->data + buf->pos, src, len); buf->pos += len`
abbrev pub put_bytes : PbBuffer → List ℕ → PbBuffer
put_bytes b src = record b { bytes = write_at b.bytes b.pos src; pos = add_size b.pos (length src) }

-- The position is inside the buffer, the buffer inside its array, and the array is an object of C,
-- which has fewer than 2 ^ 63 bytes.
pub record IsValid (b : PbBuffer) : Type 0 where
  pub within : b.pos ≤ b.size
  pub backed : b.size ≤ length b.bytes
  pub object : length b.bytes < 2 ^ 63
