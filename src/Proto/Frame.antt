-- ===== src/Proto/Frame.antt =====
-- The message framing of src/esphome_proto.c.
pub mod Encode
pub mod Decode
pub mod Prefix
pub mod RoundTrip
use esphome_linux.Base.{
  ℕ, zero, suc, ◌+◌, ◌-◌, ◌*◌, ◌/◌, ◌%◌, ◌^◌, Bool, true, false, not, List, [], take, length,
  get_or, ltb, ◌==◌, if◌then◌else◌,
}
use esphome_linux.Proto.Buffer.{
  PbBuffer, add_size, put_byte, put_bytes, pb_buffer_init_read, pb_buffer_init_write,
}
use esphome_linux.Proto.Buffer.Views.{Encoder}
use esphome_linux.Proto.Varint.{Decoded, pb_encode_varint, pb_decode_varint}
use esphome_linux.Proto.Field.{and_then}

-- `if (out_size < 1) return 0; out_buf[pb.pos++] = 0x00;`
unfoldable pub put_preamble : Encoder
put_preamble b = if ltb b.size 1 then (false, b) else (true, put_byte b 0x00)

-- `if (pb.pos + payload_len > out_size) return 0; memcpy(...); pb.pos += payload_len;`
unfoldable pub put_payload : List ℕ → ℕ → Encoder
put_payload payload payload_len b =
    if ltb b.size (add_size b.pos payload_len)
    then (false, b)
    else (true, put_bytes b (take payload_len payload))

-- The number returned, 0 for a failure, and what is in `out_buf` then.
unfoldable pub esphome_frame_message : List ℕ → ℕ → ℕ → List ℕ → ℕ → ℕ × List ℕ
unfolding put_preamble put_payload and_then
esphome_frame_message out_buf out_size msg_type payload payload_len =
    let (ok, pb) =
      and_then put_preamble
        (and_then (pb_encode_varint payload_len)
          (and_then (pb_encode_varint msg_type) (put_payload payload payload_len)))
        (pb_buffer_init_write out_buf out_size) in
    (if ok then pb.pos else 0, pb.bytes)

-- The out parameters of the header decoder.
pub record Header : Type 0 where
  pub msg_len : ℕ
  pub msg_type : ℕ

-- The out parameters, which keep what they held where nothing is stored, and the number returned.
unfoldable pub esphome_decode_frame_header : List ℕ → ℕ → Header → Header × ℕ
esphome_decode_frame_header buf size old =
    let pb : PbBuffer = record (pb_buffer_init_read buf size) { pos = 1 } in
    let len = pb_decode_varint pb in
    let type = pb_decode_varint len.buffer in
    let with_len : Header = record old { msg_len = len.value % 2 ^ 32 } in
    let both : Header = record with_len { msg_type = type.value % 2 ^ 16 } in
    if ltb size 1
    then (old, 0)
    else if not (get_or buf 0 0 == 0x00)
    then (old, 0)
    else if not len.ok
    then (old, 0)
    else if not type.ok
    then (with_len, 0)
    else if ltb size (add_size type.buffer.pos both.msg_len)
    then (both, 0)
    else (both, type.buffer.pos)
