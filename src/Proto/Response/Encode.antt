-- ===== src/Proto/Response/Encode.antt =====
-- Each response encoder writes the protobuf message of its fields.
use esphome_linux.Base.{ℕ, ◌^◌, ◌≤◌, ◌<◌, List, [], ◌∷◌, arith, length}
use esphome_linux.Proto.Buffer.{IsU32}
use esphome_linux.Proto.Message.Wire.{Field, message_bytes}
use esphome_linux.Proto.Response.{
  HelloResponse, ConnectResponse, DeviceInfoResponse, hello_statements, connect_statements,
  device_info_statements, esphome_encode_hello_response, esphome_encode_connect_response,
  esphome_encode_device_info_response,
}
use esphome_linux.Proto.Response.Sequence.{
  text_fields, number_fields, nonzero_fields, bool_fields, true_fields, all_fields,
  string-WritesFields, uint32-WritesFields, bool-WritesFields, when_nonzero, when_true,
  when_nonempty, EachWrites, IsEncoding, run_each-IsEncoding,
}

-- Numbers of 32 bits, and texts that fit the `char` arrays.
pub record IsHello (msg : HelloResponse) : Type 0 where
  pub major : IsU32 msg.api_version_major
  pub minor : IsU32 msg.api_version_minor
  pub server_info : length msg.server_info < 128
  pub name : length msg.name < 128

abbrev pub hello_fields : HelloResponse → List (List Field)
hello_fields msg =
    number_fields 1 msg.api_version_major
    ∷ number_fields 2 msg.api_version_minor
    ∷ text_fields 3 msg.server_info
    ∷ text_fields 4 msg.name
    ∷ []

pub record IsDeviceInfo (msg : DeviceInfoResponse) : Type 0 where
  pub name : length msg.name < 128
  pub mac_address : length msg.mac_address < 24
  pub esphome_version : length msg.esphome_version < 32
  pub compilation_time : length msg.compilation_time < 64
  pub model : length msg.model < 128
  pub project_name : length msg.project_name < 128
  pub project_version : length msg.project_version < 128
  pub webserver_port : IsU32 msg.webserver_port
  pub manufacturer : length msg.manufacturer < 128
  pub friendly_name : length msg.friendly_name < 128
  pub bluetooth_proxy_feature_flags : IsU32 msg.bluetooth_proxy_feature_flags
  pub suggested_area : length msg.suggested_area < 64
  pub voice_assistant_feature_flags : IsU32 msg.voice_assistant_feature_flags
  pub bluetooth_mac_address : length msg.bluetooth_mac_address < 24
  pub zwave_proxy_feature_flags : IsU32 msg.zwave_proxy_feature_flags
  pub zwave_home_id : IsU32 msg.zwave_home_id

-- The fields of DeviceInfoResponse; an empty text and a zero number are left out.
abbrev pub device_info_fields : DeviceInfoResponse → List (List Field)
device_info_fields msg =
    bool_fields 1 msg.uses_password
    ∷ text_fields 2 msg.name
    ∷ text_fields 3 msg.mac_address
    ∷ text_fields 4 msg.esphome_version
    ∷ text_fields 5 msg.compilation_time
    ∷ text_fields 6 msg.model
    ∷ bool_fields 7 msg.has_deep_sleep
    ∷ text_fields 8 msg.project_name
    ∷ text_fields 9 msg.project_version
    ∷ nonzero_fields 10 msg.webserver_port
    ∷ text_fields 12 msg.manufacturer
    ∷ text_fields 13 msg.friendly_name
    ∷ nonzero_fields 15 msg.bluetooth_proxy_feature_flags
    ∷ text_fields 16 msg.suggested_area
    ∷ nonzero_fields 17 msg.voice_assistant_feature_flags
    ∷ text_fields 18 msg.bluetooth_mac_address
    ∷ true_fields 19 msg.api_encryption_supported
    ∷ nonzero_fields 23 msg.zwave_proxy_feature_flags
    ∷ nonzero_fields 24 msg.zwave_home_id
    ∷ []

hello-EachWrites :
    (msg : HelloResponse) → IsHello msg → EachWrites (hello_statements msg) (hello_fields msg)
hello-EachWrites msg h = (
  uint32-WritesFields 1 msg.api_version_major (omega arith) h.major,
  (
    uint32-WritesFields 2 msg.api_version_minor (omega arith) h.minor,
    (
      string-WritesFields 3 msg.server_info (omega arith) (omega (arith, h.server_info)),
      (string-WritesFields 4 msg.name (omega arith) (omega (arith, h.name)), tt),
    ),
  ),
)

device_info-EachWrites :
    (msg : DeviceInfoResponse)
    → IsDeviceInfo msg
    → EachWrites (device_info_statements msg) (device_info_fields msg)
device_info-EachWrites msg h = (
  bool-WritesFields 1 msg.uses_password (omega arith),
  (
    string-WritesFields 2 msg.name (omega arith) (omega (arith, h.name)),
    (
      string-WritesFields 3 msg.mac_address (omega arith) (omega (arith, h.mac_address)),
      (
        string-WritesFields 4 msg.esphome_version (omega arith) (omega (arith, h.esphome_version)),
        (
          string-WritesFields 5 msg.compilation_time (omega arith)
              (omega (arith, h.compilation_time)),
          (
            string-WritesFields 6 msg.model (omega arith) (omega (arith, h.model)),
            (
              bool-WritesFields 7 msg.has_deep_sleep (omega arith),
              (
                when_nonempty 8 msg.project_name (omega arith) (omega (arith, h.project_name)),
                (
                  when_nonempty 9 msg.project_version (omega arith)
                      (omega (arith, h.project_version)),
                  (
                    when_nonzero 10 msg.webserver_port (omega arith) h.webserver_port,
                    (
                      string-WritesFields 12 msg.manufacturer (omega arith)
                          (omega (arith, h.manufacturer)),
                      (
                        string-WritesFields 13 msg.friendly_name (omega arith)
                            (omega (arith, h.friendly_name)),
                        (
                          when_nonzero 15 msg.bluetooth_proxy_feature_flags (omega arith)
                              h.bluetooth_proxy_feature_flags,
                          (
                            string-WritesFields 16 msg.suggested_area (omega arith)
                                (omega (arith, h.suggested_area)),
                            (
                              when_nonzero 17 msg.voice_assistant_feature_flags (omega arith)
                                  h.voice_assistant_feature_flags,
                              (
                                string-WritesFields 18 msg.bluetooth_mac_address (omega arith)
                                    (omega (arith, h.bluetooth_mac_address)),
                                (
                                  when_true 19 msg.api_encryption_supported (omega arith),
                                  (
                                    when_nonzero 23 msg.zwave_proxy_feature_flags (omega arith)
                                        h.zwave_proxy_feature_flags,
                                    (
                                      when_nonzero 24 msg.zwave_home_id (omega arith)
                                          h.zwave_home_id,
                                      tt,
                                    ),
                                  ),
                                ),
                              ),
                            ),
                          ),
                        ),
                      ),
                    ),
                  ),
                ),
              ),
            ),
          ),
        ),
      ),
    ),
  ),
)

module _ (buf : List ℕ) (size : ℕ) (inside : size ≤ length buf) (object : length buf < 2 ^ 63) where
  -- Into a buffer of `size` bytes, a hello response with texts shorter than their arrays is encoded as
  -- the protobuf message of its fields 1 to 4, an empty text left out: the length is returned with
  -- the message at the front of the buffer if it fits, and 0 if it does not.
  pub esphome_encode_hello_response-IsEncoding :
      (msg : HelloResponse)
      → IsHello msg
      → IsEncoding
          (message_bytes (all_fields (hello_fields msg)))
          size
          (esphome_encode_hello_response buf size msg)
  unfolding esphome_encode_hello_response
  esphome_encode_hello_response-IsEncoding msg h =
      run_each-IsEncoding (hello_statements msg) (hello_fields msg) buf size inside object
        (hello-EachWrites msg h)

  -- Into a buffer of `size` bytes, a connect response is encoded as the protobuf message of its one
  -- boolean field: the length is returned with the message at the front of the buffer if it fits, and
  -- 0 if it does not.
  pub esphome_encode_connect_response-IsEncoding :
      (msg : ConnectResponse)
      → IsEncoding
          (message_bytes (bool_fields 1 msg.invalid_password))
          size
          (esphome_encode_connect_response buf size msg)
  unfolding esphome_encode_connect_response
  esphome_encode_connect_response-IsEncoding msg =
      run_each-IsEncoding (connect_statements msg) (bool_fields 1 msg.invalid_password ∷ []) buf
        size inside object (bool-WritesFields 1 msg.invalid_password (omega arith), tt)

  -- Into a buffer of `size` bytes, a device info response with texts shorter than their arrays is
  -- encoded as the protobuf message of its fields in order, the empty texts, the numbers that are 0
  -- and an `api_encryption_supported` that is false left out: the length is returned with the message
  -- at the front of the buffer if it fits, and 0 if it does not.
  pub esphome_encode_device_info_response-IsEncoding :
      (msg : DeviceInfoResponse)
      → IsDeviceInfo msg
      → IsEncoding
          (message_bytes (all_fields (device_info_fields msg)))
          size
          (esphome_encode_device_info_response buf size msg)
  unfolding esphome_encode_device_info_response
  esphome_encode_device_info_response-IsEncoding msg h =
      run_each-IsEncoding (device_info_statements msg) (device_info_fields msg) buf size inside
        object (device_info-EachWrites msg h)
