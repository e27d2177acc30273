-- ===== src/Proto/Advertisements.antt =====
-- `esphome_encode_ble_advertisements` of src/esphome_proto.c.
pub mod Fields
pub mod Encode
use esphome_linux.Base.{
  ℕ, ◌+◌, min, Bool, true, false, Option, none, some, List, [], ◌∷◌, length, take, ltb,
  if◌then◌else◌, uninitialised,
}
use esphome_linux.Proto.Buffer.{PbBuffer, add_size, fail, put_bytes, pb_buffer_init_write}
use esphome_linux.Proto.Buffer.Views.{Encoder}
use esphome_linux.Proto.WireType
use esphome_linux.Proto.Varint.{pb_encode_varint}
use esphome_linux.Proto.Field.{
  pb_field_tag, and_then, pb_encode_uint64, pb_encode_sint32, pb_encode_uint32, pb_encode_bytes,
}
use esphome_linux.Proto.Response.{BleAdvertisement, BleAdvertisementsResponse, max_adv_batch}

-- The four fields of one advertisement, each checked.
abbrev pub encode_advertisement : BleAdvertisement → Encoder
encode_advertisement adv = and_then (pb_encode_uint64 1 adv.address) (
    and_then (pb_encode_sint32 2 adv.rssi) (
      and_then (pb_encode_uint32 3 adv.address_type)
        (pb_encode_bytes 4 (some adv.bytes) adv.data_len)))

-- The tag and the length, which are not checked, and the bounds check and `memcpy` of the text.
unfoldable pub put_nested : List ℕ → Encoder
put_nested encoded pb =
    let tagged = (pb_encode_varint (pb_field_tag 1 WireType.length_delimited) pb).1 in
    let sized = (pb_encode_varint (length encoded) tagged).1 in
    if ltb sized.size (add_size sized.pos (length encoded))
    then (false, fail sized)
    else (true, put_bytes sized encoded)

-- One round of the loop; false where the function returns 0.
unfoldable pub put_advertisement : BleAdvertisement → Encoder
unfolding put_nested
put_advertisement adv pb =
    let (ok, adv_pb) = encode_advertisement adv (pb_buffer_init_write (uninitialised 256) 256) in
    if ok
    then (if adv_pb.error then (false, pb) else put_nested (take adv_pb.pos adv_pb.bytes) pb)
    else (false, pb)

unfoldable pub advertisement_loop : List BleAdvertisement → Encoder
unfolding put_advertisement and_then
advertisement_loop [] pb = (true, pb)
advertisement_loop (adv ∷ advs) pb = and_then (put_advertisement adv) (advertisement_loop advs) pb

-- `i < msg->count && i < ESPHOME_MAX_ADV_BATCH`
abbrev pub batch : BleAdvertisementsResponse → List BleAdvertisement
batch msg = take (min msg.count max_adv_batch) msg.advertisements

unfoldable pub esphome_encode_ble_advertisements :
    List ℕ → ℕ → BleAdvertisementsResponse → ℕ × List ℕ
unfolding advertisement_loop
esphome_encode_ble_advertisements buf size msg =
    let (ok, pb) = advertisement_loop (batch msg) (pb_buffer_init_write buf size) in
    ((if ok then (if pb.error then 0 else pb.pos) else 0), pb.bytes)
