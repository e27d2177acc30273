-- ===== src/Proto/Field.antt =====
-- The field encoders and decoders of src/esphome_proto.c.
pub mod Encode
pub mod Decode
use esphome_linux.Base.{
  ℕ, ◌+◌, ◌-◌, ◌*◌, ◌/◌, ◌%◌, ◌^◌, bit_and, bit_or, bit_xor, Bool, true, false, not, Option, none,
  some, List, [], ◌∷◌, ◌++◌, ltb, leb, ◌==◌, if◌then◌else◌, length, take, drop,
}
use esphome_linux.Proto.Buffer.{PbBuffer, add_size, fail, put_byte, put_bytes}
use esphome_linux.Proto.Buffer.Views.{Encoder}
use esphome_linux.Proto.WireType
use esphome_linux.Proto.Varint.{Decoded, pb_encode_varint, pb_decode_varint}

-- `PB_FIELD_TAG` on a `uint32_t` field number
unfoldable pub pb_field_tag : ℕ → ℕ → ℕ
pb_field_tag field_num wire_type = bit_or (field_num * 2 ^ 3 % 2 ^ 32) wire_type

-- `if (!m(buf)) return false; return k(buf);`
unfoldable pub and_then : Encoder → Encoder → Encoder
and_then m k b = let (ok, b') = m b in if ok then k b' else (false, b')

-- The bounds check and the `memcpy` that end the string and the bytes encoder.
unfoldable pub copy_bytes : List ℕ → Encoder
copy_bytes src b =
    if ltb b.size (add_size b.pos (length src)) then (false, fail b) else (true, put_bytes b src)

-- A C string is the list of its characters before the NUL; `none` is the null pointer.
unfoldable pub pb_encode_string : ℕ → Option (List ℕ) → Encoder
pb_encode_string field_num none b = (true, b)
pb_encode_string field_num (some []) b = (true, b)
pb_encode_string field_num (some (c ∷ cs)) b =
    and_then (pb_encode_varint (pb_field_tag field_num WireType.length_delimited))
      (and_then (pb_encode_varint (length (c ∷ cs))) (copy_bytes (c ∷ cs))) b

unfoldable pub pb_encode_bool : ℕ → Bool → Encoder
pb_encode_bool field_num value =
    and_then (pb_encode_varint (pb_field_tag field_num WireType.varint))
      (pb_encode_varint (if value then 1 else 0))

unfoldable pub pb_encode_uint32 : ℕ → ℕ → Encoder
pb_encode_uint32 field_num value =
    and_then (pb_encode_varint (pb_field_tag field_num WireType.varint)) (pb_encode_varint value)

unfoldable pub pb_encode_uint64 : ℕ → ℕ → Encoder
pb_encode_uint64 field_num value =
    and_then (pb_encode_varint (pb_field_tag field_num WireType.varint)) (pb_encode_varint value)

-- `(uint8_t)(value >> shift)`
abbrev pub byte_at : ℕ → ℕ → ℕ
byte_at value shift = value / 2 ^ shift % 256

-- `buf->data[buf->pos++] = ...`, one statement for each byte.
unfoldable pub put_each : List ℕ → PbBuffer → PbBuffer
put_each [] b = b
put_each (y ∷ ys) b = put_each ys (put_byte b y)

-- Little-endian encoding
abbrev pub fixed64_bytes : ℕ → List ℕ
fixed64_bytes value =
    byte_at value 0
    ∷ byte_at value 8
    ∷ byte_at value 16
    ∷ byte_at value 24
    ∷ byte_at value 32
    ∷ byte_at value 40
    ∷ byte_at value 48
    ∷ byte_at value 56
    ∷ []

unfoldable pub put_fixed64 : ℕ → Encoder
unfolding put_each
put_fixed64 value b =
    if ltb b.size (add_size b.pos 8)
    then (false, fail b)
    else (true, put_each (fixed64_bytes value) b)

unfoldable pub pb_encode_fixed64 : ℕ → ℕ → Encoder
pb_encode_fixed64 field_num value =
    and_then (pb_encode_varint (pb_field_tag field_num WireType.fixed64)) (put_fixed64 value)

-- An `int32_t` is its bit pattern. `value << 1` drops the top bit, and `value >> 31` copies the sign
-- into every bit.
unfoldable pub zigzag : ℕ → ℕ
zigzag value = bit_xor (value * 2 % 2 ^ 32) (if ltb value (2 ^ 31) then 0 else 2 ^ 32 - 1)

unfoldable pub pb_encode_sint32 : ℕ → ℕ → Encoder
pb_encode_sint32 field_num value = pb_encode_uint32 field_num (zigzag value)

-- `none` is the null pointer; the copy reads the first `len` bytes of the array.
unfoldable pub pb_encode_bytes : ℕ → Option (List ℕ) → ℕ → Encoder
pb_encode_bytes field_num none len b = (true, b)
pb_encode_bytes field_num (some array) len b =
    if len == 0
    then (true, b)
    else and_then (pb_encode_varint (pb_field_tag field_num WireType.length_delimited))
        (and_then (pb_encode_varint len) (copy_bytes (take len array))) b

-- The bytes copied are `len` from the position on; `str` keeps what it held where nothing is copied.
-- `len < max_len` here, so only the position takes part in the wrap of `pos + len`.
unfoldable pub pb_decode_string : List ℕ → ℕ → PbBuffer → Decoded (List ℕ)
pb_decode_string str max_len b =
    let d = pb_decode_varint b in
    let b' = d.buffer in
    if not d.ok
    then record { ok = false; value = str; buffer = b' }
    else if leb max_len d.value
    then record { ok = false; value = str; buffer = fail b' }
    else if ltb b'.size (add_size b'.pos d.value)
    then record { ok = false; value = str; buffer = fail b' }
    else record {
      ok = true;
      value = take d.value (drop b'.pos b'.bytes);
      buffer = record b' { pos = add_size b'.pos d.value };
    }

unfoldable pub pb_decode_uint32 : ℕ → PbBuffer → Decoded ℕ
pb_decode_uint32 old b =
    let d = pb_decode_varint b in
    if d.ok
    then record { ok = true; value = d.value % 2 ^ 32; buffer = d.buffer }
    else record { ok = false; value = old; buffer = d.buffer }

-- `if (buf->pos + n > buf->size) fail; buf->pos += n;`
abbrev pub skip_bytes : ℕ → PbBuffer → Bool × PbBuffer
skip_bytes n b =
    if ltb b.size (add_size b.pos n)
    then (false, fail b)
    else (true, record b { pos = add_size b.pos n })

unfoldable pub pb_skip_field : ℕ → PbBuffer → Bool × PbBuffer
pb_skip_field wire_type b =
    if wire_type == WireType.varint
    then ((pb_decode_varint b).ok, (pb_decode_varint b).buffer)
    else if wire_type == WireType.fixed64
    then skip_bytes 8 b
    else if wire_type == WireType.length_delimited
    then (let d = pb_decode_varint b in
        if d.ok then skip_bytes d.value d.buffer else (false, d.buffer))
    else if wire_type == WireType.fixed32
    then skip_bytes 4 b
    else (false, fail b)
