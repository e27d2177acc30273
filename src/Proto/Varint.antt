-- ===== src/Proto/Varint.antt =====
-- The varint routines of src/esphome_proto.c.
pub mod Encode
pub mod Decode
pub mod RoundTrip
use esphome_linux.Base.{
  ℕ, zero, suc, ◌+◌, ◌-◌, ◌*◌, ◌/◌, ◌%◌, ◌^◌, ◌<◌, bit_and, bit_or, Bool, true, false, arith, ltb,
  leb, ◌==◌, if◌then◌else◌, get_or, dite, dec_lt, List, [], ◌∷◌, ◌≡◌, refl,
}
use esphome_linux.Base.Order.{lt_wf}
use esphome_linux.Proto.Buffer.{PbBuffer, fail, put_byte, pb_buffer_init_write}
use mathlib.Core.WellFounded.{Acc}

shift_shrinks : (v : ℕ) → 0x7F < v → v / 2 ^ 7 < v
shift_shrinks v h = omega arith

-- `while (value > 0x7F)`; each round shifts `value`, so the recursion is on its order.
encode_rounds : PbBuffer → (v : ℕ) → Acc ◌<◌ v → Bool × PbBuffer
encode_rounds b v (Acc.intro _ smaller) =
    dite (dec_lt 0x7F v)
      (λ more.
        let b' = put_byte b (bit_or (bit_and v 0x7F) 0x80 % 256) in
        let rest = encode_rounds b' (v / 2 ^ 7) (smaller _ (shift_shrinks v more)) in
        if leb b.size b.pos then (false, fail b) else rest)
      (λ _. if leb b.size b.pos then (false, fail b) else (true, put_byte b (bit_and v 0x7F % 256)))

unfoldable pub pb_encode_varint : ℕ → PbBuffer → Bool × PbBuffer
unfolding encode_rounds shift_shrinks lt_wf dec_lt
pb_encode_varint value b = encode_rounds b value (lt_wf.apply value)

-- A decoder's answer: its return value, what it stored through its out parameter, the buffer.
pub record Decoded {ℓ} (A : Type ℓ) : Type ℓ where
  pub ok : Bool
  pub value : A
  pub buffer : PbBuffer

-- `*value |= ((uint64_t)(byte & 0x7F)) << shift`
abbrev pub or_group : ℕ → ℕ → ℕ → ℕ
or_group value byte shift = bit_or value (bit_and byte 0x7F * 2 ^ shift % 2 ^ 64)

-- `while (buf->pos < buf->size)`: `left` is `size - pos`, the rounds that its test lets through.
unfoldable pub decode_rounds : (left : ℕ) → PbBuffer → ℕ → ℕ → Decoded ℕ
decode_rounds zero b value shift = record { ok = false; value = value; buffer = fail b }
decode_rounds (suc left) b value shift =
    let byte = get_or b.bytes b.pos 0 in
    let b' : PbBuffer = record b { pos = b.pos + 1 } in
    let value' = or_group value byte shift in
    let rest = decode_rounds left b' value' (shift + 7) in
    if bit_and byte 0x80 == 0
    then record { ok = true; value = value'; buffer = b' }
    else if ltb 63 (shift + 7)
    then record { ok = false; value = value'; buffer = fail b' }
    else rest

unfoldable pub pb_decode_varint : PbBuffer → Decoded ℕ
unfolding decode_rounds
pb_decode_varint b = decode_rounds (b.size - b.pos) b 0 0
