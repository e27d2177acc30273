-- ===== src/Proto/Response.antt =====
-- The response messages of src/include/esphome_proto.h and their encoders in src/esphome_proto.c.
-- A `char` array is the list of the characters before its NUL.
pub mod Sequence
pub mod Sizes
pub mod Encode
use esphome_linux.Base.{
  ℕ, ◌+◌, Bool, true, false, not, ◌&&◌, Option, none, some, List, [], ◌∷◌, length, take, ltb, ◌==◌,
  if◌then◌else◌,
}
use esphome_linux.Proto.Buffer.{PbBuffer, add_size, put_bytes, pb_buffer_init_write}
use esphome_linux.Proto.Buffer.Views.{Encoder}
use esphome_linux.Proto.WireType
use esphome_linux.Proto.Varint.{pb_encode_varint}
use esphome_linux.Proto.Field.{
  pb_field_tag, pb_encode_string, pb_encode_bool, pb_encode_uint32, pb_encode_uint64,
  pb_encode_sint32, pb_encode_bytes,
}

pub record HelloResponse : Type 0 where
  pub api_version_major : ℕ
  pub api_version_minor : ℕ
  pub server_info : List ℕ
  pub name : List ℕ

pub record ConnectResponse : Type 0 where
  pub invalid_password : Bool

pub record DeviceInfoResponse : Type 0 where
  pub uses_password : Bool
  pub name : List ℕ
  pub mac_address : List ℕ
  pub esphome_version : List ℕ
  pub compilation_time : List ℕ
  pub model : List ℕ
  pub has_deep_sleep : Bool
  pub project_name : List ℕ
  pub project_version : List ℕ
  pub webserver_port : ℕ
  pub manufacturer : List ℕ
  pub friendly_name : List ℕ
  pub bluetooth_proxy_feature_flags : ℕ
  pub suggested_area : List ℕ
  pub voice_assistant_feature_flags : ℕ
  pub bluetooth_mac_address : List ℕ
  pub api_encryption_supported : Bool
  pub zwave_proxy_feature_flags : ℕ
  pub zwave_home_id : ℕ

-- `rssi` is the bit pattern of an `int32_t`; `bytes` is the `data` array.
pub record BleAdvertisement : Type 0 where
  pub address : ℕ
  pub rssi : ℕ
  pub address_type : ℕ
  pub bytes : List ℕ
  pub data_len : ℕ

pub record BleAdvertisementsResponse : Type 0 where
  pub advertisements : List BleAdvertisement
  pub count : ℕ

abbrev pub max_adv_data : ℕ
max_adv_data = 62

abbrev pub max_adv_batch : ℕ
max_adv_batch = 16

-- Statements that run one after the other; what each answers is dropped.
unfoldable pub run_each : List Encoder → PbBuffer → PbBuffer
run_each [] b = b
run_each (m ∷ ms) b = run_each ms (m b).1

-- `if (test) m(buf);`
abbrev pub when : Bool → Encoder → Encoder
when true m b = m b
when false m b = (true, b)

abbrev pub is_empty : List ℕ → Bool
is_empty [] = true
is_empty (c ∷ cs) = false

-- `return pb.error ? 0 : pb.pos;`, beside what is in the buffer then.
abbrev pub encoded : PbBuffer → ℕ × List ℕ
encoded pb = (if pb.error then 0 else pb.pos, pb.bytes)

abbrev pub hello_statements : HelloResponse → List Encoder
hello_statements msg =
    pb_encode_uint32 1 msg.api_version_major
    ∷ pb_encode_uint32 2 msg.api_version_minor
    ∷ pb_encode_string 3 (some msg.server_info)
    ∷ pb_encode_string 4 (some msg.name)
    ∷ []

unfoldable pub esphome_encode_hello_response : List ℕ → ℕ → HelloResponse → ℕ × List ℕ
unfolding run_each
esphome_encode_hello_response buf size msg =
    encoded (run_each (hello_statements msg) (pb_buffer_init_write buf size))

abbrev pub connect_statements : ConnectResponse → List Encoder
connect_statements msg = pb_encode_bool 1 msg.invalid_password ∷ []

unfoldable pub esphome_encode_connect_response : List ℕ → ℕ → ConnectResponse → ℕ × List ℕ
unfolding run_each
esphome_encode_connect_response buf size msg =
    encoded (run_each (connect_statements msg) (pb_buffer_init_write buf size))

abbrev pub device_info_statements : DeviceInfoResponse → List Encoder
device_info_statements msg =
    pb_encode_bool 1 uses_password
    ∷ pb_encode_string 2 (some name)
    ∷ pb_encode_string 3 (some mac_address)
    ∷ pb_encode_string 4 (some esphome_version)
    ∷ pb_encode_string 5 (some compilation_time)
    ∷ pb_encode_string 6 (some model)
    ∷ pb_encode_bool 7 has_deep_sleep
    ∷ when (not (is_empty project_name)) (pb_encode_string 8 (some project_name))
    ∷ when (not (is_empty project_version)) (pb_encode_string 9 (some project_version))
    ∷ when (not (webserver_port == 0)) (pb_encode_uint32 10 webserver_port)
    ∷ pb_encode_string 12 (some manufacturer)
    ∷ pb_encode_string 13 (some friendly_name)
    ∷ when (not (bluetooth_proxy_feature_flags == 0))
        (pb_encode_uint32 15 bluetooth_proxy_feature_flags)
    ∷ pb_encode_string 16 (some suggested_area)
    ∷ when (not (voice_assistant_feature_flags == 0))
        (pb_encode_uint32 17 voice_assistant_feature_flags)
    ∷ pb_encode_string 18 (some bluetooth_mac_address)
    ∷ when api_encryption_supported (pb_encode_bool 19 api_encryption_supported)
    ∷ when (not (zwave_proxy_feature_flags == 0)) (pb_encode_uint32 23 zwave_proxy_feature_flags)
    ∷ when (not (zwave_home_id == 0)) (pb_encode_uint32 24 zwave_home_id)
    ∷ []
  where
    open msg use {
      uses_password, name, mac_address, esphome_version, compilation_time, model, has_deep_sleep,
      project_name, project_version, webserver_port, manufacturer, friendly_name,
      bluetooth_proxy_feature_flags, suggested_area, voice_assistant_feature_flags,
      bluetooth_mac_address, api_encryption_supported, zwave_proxy_feature_flags, zwave_home_id,
    }

unfoldable pub esphome_encode_device_info_response : List ℕ → ℕ → DeviceInfoResponse → ℕ × List ℕ
unfolding run_each
esphome_encode_device_info_response buf size msg =
    encoded (run_each (device_info_statements msg) (pb_buffer_init_write buf size))

unfoldable pub esphome_encode_list_entities_done : List ℕ → ℕ → ℕ × List ℕ
esphome_encode_list_entities_done buf size = (0, buf)
