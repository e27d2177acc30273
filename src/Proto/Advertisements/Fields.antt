-- ===== src/Proto/Advertisements/Fields.antt =====
-- The fields of an advertisement, and that its encoder writes them.
use esphome_linux.Base.{
  ℕ, ◌≤◌, ◌≡◌, refl, sym, some, List, [], ◌∷◌, ◌++◌, map, arith, length, take, length-take,
  append-nil,
}
use esphome_linux.Proto.Buffer.{IsU32, IsU64}
use esphome_linux.Proto.Buffer.Views.{Encoder}
use esphome_linux.Proto.Field.{
  and_then, zigzag, pb_encode_uint64, pb_encode_sint32, pb_encode_bytes,
}
use esphome_linux.Proto.Field.Encode.{
  and_then-Writes, text_field, pb_encode_uint64-Writes, pb_encode_sint32-Writes,
  pb_encode_bytes-Writes,
}
use esphome_linux.Proto.Message.Wire.{Field, number, text, field_bytes, message_bytes}
use esphome_linux.Proto.Response.{BleAdvertisement, max_adv_data}
use esphome_linux.Proto.Response.Sequence.{
  text_fields, number_fields, WritesFields, message_bytes-append, uint32-WritesFields,
}
use esphome_linux.Proto.Response.Sizes.{
  length-number_fields, length-text_fields, length-fields-append,
}
use esphome_linux.Proto.Advertisements.{encode_advertisement}

-- What the members of the structure can hold, and a length that is not longer than the array.
pub record IsAdvertisement (adv : BleAdvertisement) : Type 0 where
  pub address : IsU64 adv.address
  pub rssi : IsU32 adv.rssi
  pub address_type : IsU32 adv.address_type
  pub array : length adv.bytes ≡ max_adv_data
  pub data_len : adv.data_len ≤ max_adv_data

-- The fields of an advertisement; `rssi` in zigzag form, and no data field without data.
abbrev pub advertisement_fields : BleAdvertisement → List Field
advertisement_fields adv =
    number_fields 1 adv.address
    ++ (number_fields 2 (zigzag adv.rssi)
        ++ (number_fields 3 adv.address_type ++ text_fields 4 (take adv.data_len adv.bytes)))

abbrev pub advertisement_bytes : BleAdvertisement → List ℕ
advertisement_bytes adv = message_bytes (advertisement_fields adv)

-- The response repeats one field, each time with the message of an advertisement.
abbrev pub batch_fields : List BleAdvertisement → List Field
batch_fields = map (λ adv. (1, text (advertisement_bytes adv)))

text_field-fields : (n : ℕ) (s : List ℕ) → text_field n s ≡ message_bytes (text_fields n s)
text_field-fields n [] = refl
text_field-fields n (c ∷ cs) = sym (append-nil (field_bytes (n, text (c ∷ cs))))

WritesFields-and_then :
    {m k : Encoder} (fs gs : List Field)
    → WritesFields m fs
    → WritesFields k gs
    → WritesFields (and_then m k) (fs ++ gs)
WritesFields-and_then fs gs hm hk =
    rw (message_bytes-append fs gs) (and_then-Writes (message_bytes fs) (message_bytes gs) hm hk)

pub encode_advertisement-WritesFields :
    (adv : BleAdvertisement)
    → IsAdvertisement adv
    → WritesFields (encode_advertisement adv) (advertisement_fields adv)
encode_advertisement-WritesFields adv h =
    let address : WritesFields (pb_encode_uint64 1 adv.address) (number_fields 1 adv.address) =
      rw (append-nil (field_bytes (1, number adv.address)))
        (pb_encode_uint64-Writes 1 adv.address (omega arith) h.address) in
    let rssi : WritesFields (pb_encode_sint32 2 adv.rssi) (number_fields 2 (zigzag adv.rssi)) =
      rw (append-nil (field_bytes (2, number (zigzag adv.rssi))))
        (pb_encode_sint32-Writes 2 adv.rssi (omega arith) h.rssi) in
    let payload : WritesFields (pb_encode_bytes 4 (some adv.bytes) adv.data_len)
        (text_fields 4 (take adv.data_len adv.bytes)) =
      rw (← text_field-fields 4 (take adv.data_len adv.bytes)) (
        pb_encode_bytes-Writes 4 adv.data_len adv.bytes (omega arith)
          (omega (arith, h.array, h.data_len)) (omega (arith, h.array))) in
    let third = number_fields 3 adv.address_type in
    let fourth = text_fields 4 (take adv.data_len adv.bytes) in
    WritesFields-and_then (number_fields 1 adv.address)
      (number_fields 2 (zigzag adv.rssi) ++ (third ++ fourth)) address
      (WritesFields-and_then (number_fields 2 (zigzag adv.rssi)) (third ++ fourth) rssi (
        WritesFields-and_then third fourth
          (uint32-WritesFields 3 adv.address_type (omega arith) h.address_type) payload))

pub length-advertisement_bytes :
    (adv : BleAdvertisement) → IsAdvertisement adv → length (advertisement_bytes adv) ≤ 148
length-advertisement_bytes adv h =
    let third = number_fields 3 adv.address_type in
    let fourth = text_fields 4 (take adv.data_len adv.bytes) in
    omega (
      arith,
      length-fields-append (number_fields 1 adv.address)
          (number_fields 2 (zigzag adv.rssi) ++ (third ++ fourth)),
      length-fields-append (number_fields 2 (zigzag adv.rssi)) (third ++ fourth),
      length-fields-append third fourth,
      length-number_fields 1 adv.address,
      length-number_fields 2 (zigzag adv.rssi),
      length-number_fields 3 adv.address_type,
      length-text_fields 4 (take adv.data_len adv.bytes),
      length-take adv.data_len adv.bytes,
      h.array,
      h.data_len,
    )
