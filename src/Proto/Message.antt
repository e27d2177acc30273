-- ===== src/Proto/Message.antt =====
-- The message decoders of src/esphome_proto.c.
pub mod Wire
pub mod Loop
pub mod Decode
pub mod Endless
use esphome_linux.Base.{
  ℕ, zero, suc, ◌+◌, ◌-◌, ◌*◌, ◌/◌, ◌%◌, ◌^◌, bit_and, Bool, true, false, not, ◌&&◌, Option, none,
  some, List, [], ltb, ◌==◌, if◌then◌else◌,
}
use esphome_linux.Proto.Buffer.{PbBuffer, pb_buffer_init_read}
use esphome_linux.Proto.WireType
use esphome_linux.Proto.Varint.{Decoded, pb_decode_varint}
use esphome_linux.Proto.Field.{pb_decode_string, pb_decode_uint32, pb_skip_field}

abbrev pub max_string_len : ℕ
max_string_len = 128

-- `client` and `password` are the bytes in front of the NUL that the decoder writes.
pub record HelloRequest : Type 0 where
  pub client : List ℕ

pub record ConnectRequest : Type 0 where
  pub password : List ℕ

pub record SubscribeBleAdvertisements : Type 0 where
  pub flags : ℕ

-- What the loop does with one field: field number, wire type, the message so far, the buffer.
abbrev pub OnField : Type 0 → Type 0
OnField M = ℕ → ℕ → M → PbBuffer → M × PbBuffer

-- `while (pb.pos < pb.size && !pb.error)` of the three decoders, and `return !pb.error`. `none` means
-- that the fuel ran out.
unfoldable pub message_loop : {M : Type 0} → OnField M → ℕ → M → PbBuffer → Option (Bool × M)
message_loop on_field zero msg b = none
message_loop on_field (suc fuel) msg b =
    let tag = pb_decode_varint b in
    let field_num = tag.value / 2 ^ 3 % 2 ^ 32 in
    let wire_type = bit_and tag.value 0x7 in
    let next = on_field field_num wire_type msg tag.buffer in
    let rest = message_loop on_field fuel next.0 next.1 in
    if ltb b.pos b.size && not b.error
    then (if tag.ok then rest else some (not tag.buffer.error, msg))
    else some (not b.error, msg)

unfoldable pub on_hello_field : OnField HelloRequest
on_hello_field field_num wire_type msg b =
    let d = pb_decode_string msg.client max_string_len b in
    if field_num == 1 && wire_type == WireType.length_delimited
    then (record { client = d.value }, d.buffer)
    else (msg, (pb_skip_field wire_type b).1)

unfoldable pub esphome_decode_hello_request : ℕ → List ℕ → ℕ → Option (Bool × HelloRequest)
unfolding message_loop on_hello_field
esphome_decode_hello_request fuel buf size =
    message_loop on_hello_field fuel (record { client = [] }) (pb_buffer_init_read buf size)

unfoldable pub on_connect_field : OnField ConnectRequest
on_connect_field field_num wire_type msg b =
    let d = pb_decode_string msg.password max_string_len b in
    if field_num == 1 && wire_type == WireType.length_delimited
    then (record { password = d.value }, d.buffer)
    else (msg, (pb_skip_field wire_type b).1)

unfoldable pub esphome_decode_connect_request : ℕ → List ℕ → ℕ → Option (Bool × ConnectRequest)
unfolding message_loop on_connect_field
esphome_decode_connect_request fuel buf size =
    message_loop on_connect_field fuel (record { password = [] }) (pb_buffer_init_read buf size)

unfoldable pub on_subscribe_field : OnField SubscribeBleAdvertisements
on_subscribe_field field_num wire_type msg b =
    let d = pb_decode_uint32 msg.flags b in
    if field_num == 1 && wire_type == WireType.varint
    then (record { flags = d.value }, d.buffer)
    else (msg, (pb_skip_field wire_type b).1)

unfoldable pub esphome_decode_subscribe_ble_advertisements :
    ℕ → List ℕ → ℕ → Option (Bool × SubscribeBleAdvertisements)
unfolding message_loop on_subscribe_field
esphome_decode_subscribe_ble_advertisements fuel buf size =
    message_loop on_subscribe_field fuel (record { flags = 0 }) (pb_buffer_init_read buf size)
