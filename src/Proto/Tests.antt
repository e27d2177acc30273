-- ===== src/Proto/Tests.antt =====
-- The theorems on src/esphome_proto.c at concrete inputs.
use esphome_linux.Base.{
  none, ℕ, ◌+◌, ◌^◌, ◌≤◌, ◌<◌, ◌≡◌, refl, true, false, some, List, [], ◌∷◌, arith, take, length,
  replicate, uninitialised, length-uninitialised, leb, if◌then◌else◌,
}
use esphome_linux.Proto.Buffer.{IsValid, IsU64, pb_buffer_init_read}
use esphome_linux.Proto.Buffer.Views.{Writes}
use esphome_linux.Proto.Varint.{pb_encode_varint, pb_decode_varint}
use esphome_linux.Proto.Varint.Encode.{varint, pb_encode_varint-Writes}
use esphome_linux.Proto.Varint.Decode.{pb_decode_varint_bounds}
use esphome_linux.Proto.Varint.RoundTrip.{pb_decode_varint-varint}
use esphome_linux.Proto.Field.{
  pb_encode_string, pb_encode_sint32, pb_encode_bytes, pb_encode_fixed64, zigzag, pb_decode_string,
}
use esphome_linux.Proto.Field.Encode.{
  text_field, uint_field, fixed64_field, pb_encode_string-Writes, pb_encode_bytes-Writes,
  pb_encode_fixed64-Writes, pb_encode_sint32-Writes, zigzag_neg,
}
use esphome_linux.Proto.Message.{
  esphome_decode_hello_request, esphome_decode_connect_request,
  esphome_decode_subscribe_ble_advertisements,
}
use esphome_linux.Proto.Message.Wire.{Field, number, text, message_bytes, read_fields}
use esphome_linux.Proto.Message.Decode.{
  accept_hello, accept_connect, accept_subscribe, esphome_decode_hello_request-message,
  esphome_decode_connect_request-message, esphome_decode_subscribe_ble_advertisements-message,
}
use esphome_linux.Proto.Message.Endless.{endless_message, esphome_decode_hello_request-endless}
use esphome_linux.Proto.Response.{
  HelloResponse, DeviceInfoResponse, BleAdvertisementsResponse, esphome_encode_hello_response,
  esphome_encode_connect_response, esphome_encode_device_info_response,
}
use esphome_linux.Proto.Response.Sequence.{IsEncoding, all_fields, bool_fields}
use esphome_linux.Proto.Response.Encode.{
  hello_fields, device_info_fields, esphome_encode_hello_response-IsEncoding,
  esphome_encode_connect_response-IsEncoding, esphome_encode_device_info_response-IsEncoding,
}
use esphome_linux.Proto.Advertisements.{batch, esphome_encode_ble_advertisements}
use esphome_linux.Proto.Advertisements.Fields.{batch_fields}
use esphome_linux.Proto.Advertisements.Encode.{
  esphome_encode_ble_advertisements-IsEncoding, esphome_encode_ble_advertisements-fits,
}
use esphome_linux.Proto.Frame.{Header, esphome_frame_message, esphome_decode_frame_header}
use esphome_linux.Proto.Frame.Encode.{frame, frame_header, esphome_frame_message-frame}
use esphome_linux.Proto.Frame.RoundTrip.{esphome_decode_frame_header-esphome_frame_message}

-- "ab"
abbrev ab : List ℕ
ab = 97 ∷ 98 ∷ []

abbrev array : List ℕ
array = replicate 8 0

abbrev no_header : Header
no_header = record { msg_len = 0; msg_type = 0 }

varint_300 : varint 300 ≡ 172 ∷ 2 ∷ []
unfolding varint
varint_300 = refl

frame_ab : esphome_frame_message array 8 7 ab 2 ≡ (5, 0 ∷ 2 ∷ 7 ∷ 97 ∷ 98 ∷ 0 ∷ 0 ∷ 0 ∷ [])
unfolding esphome_frame_message pb_encode_varint
frame_ab = refl

frame_too_long : (esphome_frame_message array 4 7 ab 2).0 ≡ 0
unfolding esphome_frame_message pb_encode_varint
frame_too_long = refl

header_ab :
    esphome_decode_frame_header (0 ∷ 2 ∷ 7 ∷ 97 ∷ 98 ∷ []) 5 no_header
    ≡ (record { msg_len = 2; msg_type = 7 }, 3)
unfolding esphome_decode_frame_header pb_decode_varint
header_ab = refl

hello_ab :
    esphome_decode_hello_request 3 (10 ∷ 2 ∷ 97 ∷ 98 ∷ []) 4 ≡ some (true, record { client = ab })
unfolding esphome_decode_hello_request pb_decode_varint pb_decode_string
hello_ab = refl

-- The varint round trip.
pb_decode_varint-varint_example :
    pb_decode_varint (pb_buffer_init_read (172 ∷ 2 ∷ 9 ∷ []) 3) ≡ record {
      ok = true;
      value = 300;
      buffer = record {
        bytes = 172 ∷ 2 ∷ 9 ∷ [];
        size = 3;
        pos = 0 + length (varint 300);
        error = false;
      };
    }
pb_decode_varint-varint_example =
    pb_decode_varint-varint 300 (9 ∷ []) (pb_buffer_init_read (172 ∷ 2 ∷ 9 ∷ []) 3) (omega arith)
      (omega arith) (unfold varint in refl)

pb_encode_varint-Writes_example : Writes (pb_encode_varint 300) (varint 300)
pb_encode_varint-Writes_example = pb_encode_varint-Writes 300 (omega arith)

pb_decode_varint_bounds_example :
    let b = pb_buffer_init_read (172 ∷ 2 ∷ []) 2 in
    let r = pb_decode_varint b in
    IsU64 r.value
    × (b.pos ≤ r.buffer.pos)
    × (r.buffer.pos ≤ b.pos + 10)
    × IsValid r.buffer
    × (r.ok ≡ true → (b.pos < r.buffer.pos) × (r.buffer.error ≡ b.error))
    × (r.ok ≡ false → r.buffer.error ≡ true)
pb_decode_varint_bounds_example =
    pb_decode_varint_bounds (pb_buffer_init_read (172 ∷ 2 ∷ []) 2) (omega arith)

-- Fields.
pb_encode_string-Writes_example : Writes (pb_encode_string 1 (some ab)) (text_field 1 ab)
pb_encode_string-Writes_example = pb_encode_string-Writes 1 ab (omega arith) (omega arith)

pb_encode_bytes-Writes_example :
    Writes (pb_encode_bytes 4 (some array) 3) (text_field 4 (take 3 array))
pb_encode_bytes-Writes_example =
    pb_encode_bytes-Writes 4 3 array (omega arith) (omega arith) (omega arith)

pb_encode_fixed64-Writes_example : Writes (pb_encode_fixed64 2 258) (fixed64_field 2 258)
pb_encode_fixed64-Writes_example = pb_encode_fixed64-Writes 2 258 (omega arith)

pb_encode_sint32-Writes_example :
    Writes (pb_encode_sint32 2 4294967227) (uint_field 2 (zigzag 4294967227))
pb_encode_sint32-Writes_example = pb_encode_sint32-Writes 2 4294967227 (omega arith) (omega arith)

-- -69, as a signal strength
zigzag_neg_example : zigzag 4294967227 ≡ 137
zigzag_neg_example = zigzag_neg 68 (omega arith)

-- Messages: a field that the decoders pass over, and field 1.
abbrev two_fields : List Field
two_fields = (3, number 5) ∷ (1, text ab) ∷ []

esphome_decode_hello_request-message_example :
    esphome_decode_hello_request 3 (message_bytes two_fields) (length (message_bytes two_fields))
    ≡ some (read_fields accept_hello two_fields (record { client = [] }))
esphome_decode_hello_request-message_example =
    esphome_decode_hello_request-message two_fields 3 (omega arith) (omega arith)
      (unfold varint in omega arith)

esphome_decode_connect_request-message_example :
    esphome_decode_connect_request 3 (message_bytes two_fields) (length (message_bytes two_fields))
    ≡ some (read_fields accept_connect two_fields (record { password = [] }))
esphome_decode_connect_request-message_example =
    esphome_decode_connect_request-message two_fields 3 (omega arith) (omega arith)
      (unfold varint in omega arith)

abbrev flags_field : List Field
flags_field = (1, number 1) ∷ []

esphome_decode_subscribe_ble_advertisements-message_example :
    esphome_decode_subscribe_ble_advertisements 2
      (message_bytes flags_field)
      (length (message_bytes flags_field))
    ≡ some (read_fields accept_subscribe flags_field (record { flags = 0 }))
esphome_decode_subscribe_ble_advertisements-message_example =
    esphome_decode_subscribe_ble_advertisements-message flags_field 2 (omega arith) (omega arith)
      (unfold varint in omega arith)

-- Responses.
abbrev hello : HelloResponse
hello = record { api_version_major = 1; api_version_minor = 12; server_info = ab; name = ab }

esphome_encode_hello_response-IsEncoding_example :
    IsEncoding
      (message_bytes (all_fields (hello_fields hello)))
      8
      (esphome_encode_hello_response array 8 hello)
esphome_encode_hello_response-IsEncoding_example =
    esphome_encode_hello_response-IsEncoding array 8 (omega arith) (omega arith) hello (omega arith)

esphome_encode_connect_response-IsEncoding_example :
    IsEncoding
      (message_bytes (bool_fields 1 false))
      8
      (esphome_encode_connect_response array 8 (record { invalid_password = false }))
esphome_encode_connect_response-IsEncoding_example =
    esphome_encode_connect_response-IsEncoding array 8 (omega arith) (omega arith)
      (record { invalid_password = false })

abbrev device : DeviceInfoResponse
device = record {
  uses_password = false;
  name = ab;
  mac_address = ab;
  esphome_version = [];
  compilation_time = [];
  model = [];
  has_deep_sleep = false;
  project_name = ab;
  project_version = [];
  webserver_port = 80;
  manufacturer = [];
  friendly_name = ab;
  bluetooth_proxy_feature_flags = 33;
  suggested_area = [];
  voice_assistant_feature_flags = 0;
  bluetooth_mac_address = ab;
  api_encryption_supported = true;
  zwave_proxy_feature_flags = 0;
  zwave_home_id = 0;
}

esphome_encode_device_info_response-IsEncoding_example :
    IsEncoding
      (message_bytes (all_fields (device_info_fields device)))
      64
      (esphome_encode_device_info_response (replicate 64 0) 64 device)
esphome_encode_device_info_response-IsEncoding_example =
    esphome_encode_device_info_response-IsEncoding (replicate 64 0) 64 (omega arith) (omega arith)
      device (omega arith)

-- Advertisements.
abbrev one_advertisement : BleAdvertisementsResponse
one_advertisement = record {
  advertisements =
      record {
        address = 1;
        rssi = 4294967227;
        address_type = 0;
        bytes = replicate 62 7;
        data_len = 3;
      }
      ∷ [];
  count = 1;
}

esphome_encode_ble_advertisements-IsEncoding_example :
    IsEncoding
      (message_bytes (batch_fields (batch one_advertisement)))
      64
      (esphome_encode_ble_advertisements (replicate 64 0) 64 one_advertisement)
esphome_encode_ble_advertisements-IsEncoding_example =
    esphome_encode_ble_advertisements-IsEncoding (replicate 64 0) 64 one_advertisement (omega arith)
      (omega arith) (omega arith)

abbrev page : List ℕ
page = uninitialised 4096

esphome_encode_ble_advertisements-fits_example :
    let (n, out) = esphome_encode_ble_advertisements page 4096 one_advertisement in
    take n out ≡ message_bytes (batch_fields (batch one_advertisement))
esphome_encode_ble_advertisements-fits_example =
    esphome_encode_ble_advertisements-fits page 4096 one_advertisement (omega arith)
      (omega (arith, length-uninitialised 4096)) (omega (arith, length-uninitialised 4096))
      (omega arith)

-- Frames.
esphome_frame_message-frame_example :
    let (n, out) = esphome_frame_message array 8 7 ab 2 in
    (n ≡ (if leb (length (frame 7 ab)) 8 then length (frame 7 ab) else 0))
    × ((0 < n → take n out ≡ frame 7 ab) × (0 < n → length out < 2 ^ 63))
esphome_frame_message-frame_example =
    esphome_frame_message-frame array 8 7 2 ab (omega arith) (omega arith) (omega arith)
      (omega arith) (omega arith)

esphome_decode_frame_header-esphome_frame_message_example :
    let (n, out) = esphome_frame_message array 8 7 ab 2 in
    esphome_decode_frame_header out n no_header
    ≡ (record { msg_len = 2; msg_type = 7 }, length (frame_header 7 2))
esphome_decode_frame_header-esphome_frame_message_example =
    esphome_decode_frame_header-esphome_frame_message array 8 7 2 ab no_header (omega arith)
      (omega arith) (omega arith) (omega arith) (omega arith) (omega arith)
      (unfold esphome_frame_message pb_encode_varint in omega arith)

esphome_decode_hello_request-endless_example :
    esphome_decode_hello_request 1000 (endless_message 2 []) (length (endless_message 2 [])) ≡ none
esphome_decode_hello_request-endless_example =
    esphome_decode_hello_request-endless 2 [] (omega arith) (omega arith) (omega arith) 1000
