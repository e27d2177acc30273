-- ===== src/Proto/Field/Encode.antt =====
-- Each field encoder appends the wire form of its field, or fails.
use esphome_linux.Base.{
  ℕ, zero, suc, ◌+◌, ◌-◌, ◌*◌, ◌%◌, ◌^◌, ◌≤◌, ◌<◌, Bool, true, false, some, arith, ltb, ◌==◌,
  if◌then◌else◌, List, [], ◌∷◌, ◌++◌, ◌≡◌, length, take, Bool-cases, inl, inr, lt→ltb, le→ltb,
  dec_lt, length-take,
}
use esphome_linux.Base.Bits.{bit_xor-zero, bit_or_disjoint_right, bit_xor_mask}
use esphome_linux.Proto.Buffer.{PbBuffer, add_size, put_byte, IsValid, IsU32, IsU64}
use esphome_linux.Proto.Buffer.Views.{
  Encoder, Writes, Wrote, Wrote-fail, Wrote-nothing, Wrote-put_byte, Wrote-put_bytes, Wrote-trans,
  Wrote-stop,
}
use esphome_linux.Proto.Varint.{pb_encode_varint}
use esphome_linux.Proto.Varint.Encode.{varint, pb_encode_varint-Writes}
use esphome_linux.Proto.Field.{
  pb_field_tag, and_then, copy_bytes, pb_encode_string, pb_encode_bool, pb_encode_uint32,
  pb_encode_uint64, fixed64_bytes, put_each, put_fixed64, pb_encode_fixed64, zigzag,
  pb_encode_sint32, pb_encode_bytes,
}

-- The wire forms, with the tag as a number.
abbrev pub tag : ℕ → ℕ → List ℕ
tag field_num wire_type = varint (field_num * 8 + wire_type)

abbrev pub uint_field : ℕ → ℕ → List ℕ
uint_field field_num value = tag field_num 0 ++ varint value

abbrev pub bool_field : ℕ → Bool → List ℕ
bool_field field_num value = uint_field field_num (if value then 1 else 0)

abbrev pub bytes_field : ℕ → List ℕ → List ℕ
bytes_field field_num text = tag field_num 2 ++ (varint (length text) ++ text)

-- An empty text is left out.
abbrev pub text_field : ℕ → List ℕ → List ℕ
text_field field_num [] = []
text_field field_num (c ∷ cs) = bytes_field field_num (c ∷ cs)

abbrev pub fixed64_field : ℕ → ℕ → List ℕ
fixed64_field field_num value = tag field_num 1 ++ fixed64_bytes value

pub pb_field_tag_lem :
    (field_num wire_type : ℕ)
    → field_num < 2 ^ 29
    → wire_type < 8
    → pb_field_tag field_num wire_type ≡ field_num * 8 + wire_type
unfolding pb_field_tag
pb_field_tag_lem n w hn hw =
    let small : n * 2 ^ 3 % 2 ^ 32 ≡ n * 2 ^ 3 = omega arith in
    rw (small, bit_or_disjoint_right 3 n w hw) (omega arith)

pub and_then-Writes :
    {m k : Encoder} (xs ys : List ℕ) → Writes m xs → Writes k ys → Writes (and_then m k) (xs ++ ys)
unfolding and_then
and_then-Writes {m} {k} xs ys hm hk b v = elim (Bool-cases (m b).0) [
  | inl ok ↦
      let first : Wrote xs b true (m b).1 = rw ok at (hm b v) in
      rw ok (Wrote-trans xs ys first (hk (m b).1 first.appended.valid))
  | inr failed ↦ rw failed (Wrote-stop xs ys v (rw failed at (hm b v)))
]

pub copy_bytes-Writes : (ys : List ℕ) → length ys < 2 ^ 63 → Writes (copy_bytes ys) ys
unfolding copy_bytes
copy_bytes-Writes ys h b v = elim (Bool-cases (ltb b.size (add_size b.pos (length ys)))) [
  | inl long ↦ rw long (Wrote-fail ys b v (ground arith))
  | inr fits ↦ rw fits (Wrote-put_bytes ys b v (ground arith))
]

pub tag-Writes :
    (n w : ℕ) → n < 2 ^ 29 → w < 8 → Writes (pb_encode_varint (pb_field_tag n w)) (tag n w)
tag-Writes n w hn hw =
    rw (pb_field_tag_lem n w hn hw) (pb_encode_varint-Writes (n * 8 + w) (omega arith))

-- A string field below number 2 ^ 29, written in a valid buffer: tag, length and text are appended if
-- they fit, nothing is for an empty string, and otherwise the encoder fails and sets the error flag.
pub pb_encode_string-Writes :
    (n : ℕ) (s : List ℕ)
    → n < 2 ^ 29
    → length s < 2 ^ 63
    → Writes (pb_encode_string n (some s)) (text_field n s)
unfolding pb_encode_string
pb_encode_string-Writes n [] hn hs b v = Wrote-nothing b v
pb_encode_string-Writes n (c ∷ cs) hn hs b v =
    and_then-Writes _ _ (tag-Writes n 2 hn (omega arith))
      (and_then-Writes _ _ (pb_encode_varint-Writes (length (c ∷ cs)) (omega arith))
        (copy_bytes-Writes (c ∷ cs) hs))
      b v

pub pb_encode_uint64-Writes :
    (n value : ℕ)
    → n < 2 ^ 29
    → IsU64 value
    → Writes (pb_encode_uint64 n value) (uint_field n value)
unfolding pb_encode_uint64
pb_encode_uint64-Writes n value hn hv =
    and_then-Writes _ _ (tag-Writes n 0 hn (omega arith)) (pb_encode_varint-Writes value hv)

pub pb_encode_uint32-Writes :
    (n value : ℕ)
    → n < 2 ^ 29
    → IsU32 value
    → Writes (pb_encode_uint32 n value) (uint_field n value)
unfolding pb_encode_uint32
pb_encode_uint32-Writes n value hn hv =
    and_then-Writes _ _ (tag-Writes n 0 hn (omega arith))
      (pb_encode_varint-Writes value (omega arith))

pub pb_encode_bool-Writes :
    (n : ℕ) (value : Bool) → n < 2 ^ 29 → Writes (pb_encode_bool n value) (bool_field n value)
unfolding pb_encode_bool
pb_encode_bool-Writes n value hn =
    and_then-Writes _ _ (tag-Writes n 0 hn (omega arith)) (pb_encode_varint-Writes _ (small value))
  where
    small : (value : Bool) → IsU64 (if value then 1 else 0)
    small true = omega arith
    small false = omega arith

-- The zigzag form of a non-negative `int32_t`.
pub zigzag_pos : (k : ℕ) → k < 2 ^ 31 → zigzag k ≡ 2 * k
unfolding zigzag
zigzag_pos k h = rw (lt→ltb k (2 ^ 31) h, bit_xor-zero) (omega arith)

-- The zigzag form of the negative `int32_t` `-(k + 1)` is `2 * k + 1`.
pub zigzag_neg : (k : ℕ) → k < 2 ^ 31 → zigzag (2 ^ 32 - 1 - k) ≡ 2 * k + 1
unfolding zigzag
zigzag_neg k h =
    let doubled : (2 ^ 32 - 1 - k) * 2 % 2 ^ 32 ≡ 2 ^ 32 - 2 - 2 * k = omega arith in
    rw
      (
        le→ltb (2 ^ 32 - 1 - k) (2 ^ 31) (omega arith),
        doubled,
        bit_xor_mask 32 (2 ^ 32 - 2 - 2 * k) (omega arith),
      )
      (omega arith)

pub zigzag-IsU32 : (value : ℕ) → IsU32 value → IsU32 (zigzag value)
zigzag-IsU32 value h = elim (dec_lt value (2 ^ 31)) [
  | yes p ↦ omega (arith, zigzag_pos value p)
  | no p ↦
      let back : 2 ^ 32 - 1 - (2 ^ 32 - 1 - value) ≡ value = omega arith in
      rw (← back) (omega (arith, zigzag_neg (2 ^ 32 - 1 - value) (omega arith)))
]

-- A sint32 field below number 2 ^ 29, written in a valid buffer: the tag and the varint of the value's
-- zigzag form are appended if they fit, and otherwise the encoder fails and sets the error flag.
pub pb_encode_sint32-Writes :
    (n value : ℕ)
    → n < 2 ^ 29
    → IsU32 value
    → Writes (pb_encode_sint32 n value) (uint_field n (zigzag value))
unfolding pb_encode_sint32
pb_encode_sint32-Writes n value hn hv =
    pb_encode_uint32-Writes n (zigzag value) hn (zigzag-IsU32 value hv)

-- A bytes field below number 2 ^ 29 of the first `len` bytes of an array, written in a valid buffer:
-- tag, length and bytes are appended if they fit, nothing is for a length of 0, and otherwise the
-- encoder fails and sets the error flag.
pub pb_encode_bytes-Writes :
    (n len : ℕ) (array : List ℕ)
    → n < 2 ^ 29
    → len ≤ length array
    → length array < 2 ^ 63
    → Writes (pb_encode_bytes n (some array) len) (text_field n (take len array))
unfolding pb_encode_bytes
pb_encode_bytes-Writes n zero array hn hl ha b v = Wrote-nothing b v
pb_encode_bytes-Writes n (suc len) [] hn hl ha b v = absurd (omega arith)
pb_encode_bytes-Writes n (suc len) (c ∷ array) hn hl ha b v =
    let whole : length (take len array) ≡ len = omega (arith, length-take len array) in
    let positive : (suc len == 0) ≡ false = ground arith in
    rw (whole, positive, pb_encode_bytes)
      (and_then-Writes (tag n 2) (varint (suc len) ++ (c ∷ take len array))
        (tag-Writes n 2 hn (omega arith))
        (and_then-Writes _ _ (pb_encode_varint-Writes (suc len) (omega arith))
          (copy_bytes-Writes (c ∷ take len array) (omega (arith, whole))))
        b v)

put_each-Wrote :
    (ys : List ℕ) (b : PbBuffer)
    → IsValid b
    → b.pos + length ys ≤ b.size
    → Wrote ys b true (put_each ys b)
unfolding put_each
put_each-Wrote [] b v h = Wrote-nothing b v
put_each-Wrote (y ∷ ys) b v h =
    let first : Wrote (y ∷ []) b true (put_byte b y) = Wrote-put_byte y b v (omega arith) in
    Wrote-trans (y ∷ []) ys first
      (put_each-Wrote ys (put_byte b y) first.appended.valid (omega arith))

put_fixed64-Writes : (value : ℕ) → Writes (put_fixed64 value) (fixed64_bytes value)
unfolding put_fixed64
put_fixed64-Writes value b v = elim (Bool-cases (ltb b.size (add_size b.pos 8))) [
  | inl long ↦ rw long (Wrote-fail (fixed64_bytes value) b v (ground arith))
  | inr fits ↦ rw fits (put_each-Wrote (fixed64_bytes value) b v (ground arith))
]

-- A fixed64 field below number 2 ^ 29, written in a valid buffer: the tag and the eight bytes of the
-- value, the lowest first, are appended if they fit, and otherwise the encoder fails and sets the
-- error flag.
pub pb_encode_fixed64-Writes :
    (n value : ℕ) → n < 2 ^ 29 → Writes (pb_encode_fixed64 n value) (fixed64_field n value)
unfolding pb_encode_fixed64
pb_encode_fixed64-Writes n value hn =
    and_then-Writes _ _ (tag-Writes n 1 hn (omega arith)) (put_fixed64-Writes value)
