-- ===== src/Api/Handlers/Replies.antt =====
-- The frame that each handler answers with.
use esphome_linux.Base.{
  uninitialised, length-uninitialised, ℕ, ◌+◌, ◌^◌, ◌≤◌, ◌<◌, ◌≡◌, inl, inr, refl, sym, ap, ◌∙◌,
  true, false, List, [], ◌++◌, arith, take, drop, length, length-append, length-take, ltb, leb,
  if◌then◌else◌, Bool-cases, min, leb→le, leb→lt,
}
use esphome_linux.Proto.Buffer.{IsU16}
use esphome_linux.Proto.Varint.Encode.{varint, length-varint}
use esphome_linux.Proto.Message.Wire.{message_bytes}
use esphome_linux.Proto.Response.{DeviceInfoResponse}
use esphome_linux.Proto.Response.Sequence.{
  text_fields, number_fields, bool_fields, all_fields, IsEncoding,
}
use esphome_linux.Proto.Response.Sizes.{
  length-number_fields, length-text_fields, length-fields-append,
}
use esphome_linux.Proto.Response.Encode.{
  IsHello, IsDeviceInfo, hello_fields, device_info_fields, esphome_encode_hello_response-IsEncoding,
  esphome_encode_connect_response-IsEncoding, esphome_encode_device_info_response-IsEncoding,
}
use esphome_linux.Proto.Frame.Encode.{frame}
use esphome_linux.Plugin.{esphome_plugin_configure_device_info_all}
use esphome_linux.Api.Server.{DeviceConfig, World, Node, System, client_at}
use esphome_linux.Api.Send.{send_buffer_size}
use esphome_linux.Api.Send.Transmit.{transmit, send_message-transmit_frame}
use esphome_linux.Api.Handlers.{
  server_suffix, msg_hello_response, msg_connect_response, msg_device_info_response,
  msg_ping_response, hello_response, device_info_response, send_from, send_encoded,
  handle_hello_request, authenticate, handle_connect_request, handle_device_info_request,
  handle_ping_request,
}

-- A frame is its payload and at most 21 bytes more.
length-frame :
    (msg_type : ℕ) (payload : List ℕ) → length (frame msg_type payload) ≤ length payload + 21
length-frame t payload = omega (
  arith,
  length-append (varint (length payload)) (varint t ++ payload),
  length-append (varint t) payload,
  length-varint (length payload),
  length-varint t,
)

module _ {W : Type 0} (system : System W) where
  -- The world after one frame was handed to the operating system for the client in a slot.
  abbrev pub reply : ℕ → ℕ → List ℕ → World W → World W
  reply slot msg_type payload world = record world {
    outside =
        (transmit system (client_at world.server.clients slot).fd (frame msg_type payload)
          world.outside).1;
  }

  send_from-reply :
      (slot msg_type : ℕ) (payload : List ℕ) (len : ℕ) (world : World W)
      → IsU16 msg_type
      → len ≤ length payload
      → len ≤ 8000
      → length payload < 2 ^ 63
      → send_from system slot msg_type payload len world
        ≡ reply slot msg_type (take len payload) world
  send_from-reply slot t payload len world ht hl hs ho =
      let client = client_at world.server.clients slot in
      let fits : leb (length (frame t (take len payload))) send_buffer_size ≡ true =
        ground (arith, length-frame t (take len payload), length-take len payload) in
      let sent = send_message-transmit_frame system client t payload len world.outside ht hl ho in
      rw (sent, fits) refl

  send_encoded-reply :
      (slot msg_type : ℕ) (ys : List ℕ) (size : ℕ) (encoding : ℕ × List ℕ) (world : World W)
      → IsU16 msg_type
      → size ≤ 8000
      → 1 ≤ length ys
      → length ys ≤ size
      → IsEncoding ys size encoding
      → send_encoded system slot msg_type encoding world ≡ reply slot msg_type ys world
  unfolding send_encoded
  send_encoded-reply slot t ys size (n, out) world ht hs hy fits (told, (front, ho)) =
      let exact : n ≡ length ys = ground (arith, told) in
      let some_byte : ltb 0 n ≡ true = ground arith in
      let whole : min n (length out) ≡ length ys =
        sym (length-take n out) ∙ ap length (front fits) in
      let sent = send_from-reply slot t out n world ht (omega arith) (omega arith) ho in
      rw (some_byte, sent, front fits) refl

  -- An encoding that does not fit: nothing is sent.
  send_encoded-nothing :
      (slot msg_type : ℕ) (ys : List ℕ) (size : ℕ) (encoding : ℕ × List ℕ) (world : World W)
      → size < length ys
      → IsEncoding ys size encoding
      → send_encoded system slot msg_type encoding world ≡ world
  unfolding send_encoded
  send_encoded-nothing slot t ys size (n, out) world long (told, _) =
      let failed : ltb 0 n ≡ false = ground (arith, told) in rw failed refl

abbrev pub hello_message : DeviceConfig → List ℕ
hello_message config = message_bytes (all_fields (hello_fields (hello_response config)))

length-hello_message :
    (config : DeviceConfig)
    → (1 ≤ length (hello_message config)) × (length (hello_message config) ≤ 512)
length-hello_message config =
    let msg = hello_response config in
    let last = text_fields 4 msg.name ++ [] in
    let texts = text_fields 3 msg.server_info ++ last in
    let minor = number_fields 2 msg.api_version_minor ++ texts in
    omega (
      arith,
      length-fields-append (number_fields 1 msg.api_version_major) minor,
      length-fields-append (number_fields 2 msg.api_version_minor) texts,
      length-fields-append (text_fields 3 msg.server_info) last,
      length-fields-append (text_fields 4 msg.name) [],
      length-number_fields 1 msg.api_version_major,
      length-number_fields 2 msg.api_version_minor,
      length-text_fields 3 msg.server_info,
      length-text_fields 4 msg.name,
      length-take 127 (config.device_name ++ server_suffix),
      length-take 127 config.device_name,
    )

hello_response-IsHello : (config : DeviceConfig) → IsHello (hello_response config)
hello_response-IsHello config = record {
  major = omega arith;
  minor = omega arith;
  server_info = omega (arith, length-take 127 (config.device_name ++ server_suffix));
  name = omega (arith, length-take 127 config.device_name);
}

module _ {W : Type 0} (system : System W) where
  -- A HelloRequest is answered with one HelloResponse frame, whatever the configuration: version 1.12,
  -- the first 127 characters of the device name and suffix, and those of the device name.
  pub handle_hello_request-reply :
      (slot : ℕ) (world : World W)
      → handle_hello_request system slot world
        ≡ reply system slot msg_hello_response (hello_message world.server.config) world
  unfolding handle_hello_request
  handle_hello_request-reply slot world =
      let config = world.server.config in
      let room = length-uninitialised 512 in
      let size = length-hello_message config in
      send_encoded-reply system slot msg_hello_response (hello_message config) 512 _ world
        (omega arith) (omega arith) size.0 size.1
        (esphome_encode_hello_response-IsEncoding (uninitialised 512) 512 (omega (arith, room))
          (omega (arith, room)) (hello_response config) (hello_response-IsHello config))

  -- A ConnectRequest marks the client as authenticated and is answered with one ConnectResponse frame
  -- that says that the password is not invalid; no password is compared.
  pub handle_connect_request-reply :
      (slot : ℕ) (world : World W)
      → handle_connect_request system slot world
        ≡ reply system slot msg_connect_response
            (message_bytes (bool_fields 1 false))
            (authenticate system slot world)
  unfolding handle_connect_request
  handle_connect_request-reply slot world =
      let room = length-uninitialised 32 in
      let size = length-number_fields 1 0 in
      send_encoded-reply system slot msg_connect_response (message_bytes (bool_fields 1 false)) 32 _
        (authenticate system slot world) (omega arith) (omega arith) size.0 (omega (arith, size.1))
        (esphome_encode_connect_response-IsEncoding (uninitialised 32) 32 (omega (arith, room))
          (omega (arith, room)) (record { invalid_password = false }))

  -- A PingRequest is answered with one PingResponse frame without payload.
  pub handle_ping_request-reply :
      (slot : ℕ) (world : World W)
      → handle_ping_request system slot world ≡ reply system slot msg_ping_response [] world
  unfolding handle_ping_request
  handle_ping_request-reply slot world =
      send_from-reply system slot msg_ping_response [] 0 world (omega arith) (omega arith)
        (omega arith) (omega arith)

abbrev pub device_info_message : DeviceInfoResponse → List ℕ
device_info_message info = message_bytes (all_fields (device_info_fields info))

length-device_info_message : (info : DeviceInfoResponse) → 1 ≤ length (device_info_message info)
length-device_info_message info =
    let fss = device_info_fields info in
    omega (
      arith,
      length-fields-append (bool_fields 1 info.uses_password) (all_fields (drop 1 fss)),
      length-number_fields 1 (if info.uses_password then 1 else 0),
    )

module _ {W : Type 0} (system : System W) where
  -- A DeviceInfoRequest is answered with one DeviceInfoResponse frame of what the plugins made of the
  -- response, if that respects the sizes of its members and is at most 1024 bytes long; if it is
  -- longer nothing is sent. The plugins are called in either case.
  pub handle_device_info_request-reply :
      (build_time : List ℕ) (slot : ℕ) (node : Node W)
      → let configured =
          esphome_plugin_configure_device_info_all node.plugins
            (device_info_response build_time node.world.server.config)
            node.world in
        IsDeviceInfo configured.result
        → handle_device_info_request system build_time slot node ≡ record {
          world =
              if leb (length (device_info_message configured.result)) 1024
              then reply system slot msg_device_info_response
                  (device_info_message configured.result)
                  configured.world
              else configured.world;
          plugins = configured.plugins;
        }
  unfolding handle_device_info_request
  handle_device_info_request-reply build_time slot node h =
      let configured =
        esphome_plugin_configure_device_info_all node.plugins
          (device_info_response build_time node.world.server.config) node.world in
      let room = length-uninitialised 1024 in
      let ys = device_info_message configured.result in
      let encodes =
        esphome_encode_device_info_response-IsEncoding (uninitialised 1024) 1024
          (omega (arith, room)) (omega (arith, room)) configured.result h in
      elim (Bool-cases (leb (length ys) 1024)) [
        | inl fits ↦
            let replies =
              send_encoded-reply system slot msg_device_info_response ys 1024 _ configured.world
                (omega arith) (omega arith) (length-device_info_message configured.result)
                (leb→le _ _ fits) encodes in
            rw (fits, replies) refl
        | inr long ↦
            let nothing =
              send_encoded-nothing system slot msg_device_info_response ys 1024 _ configured.world
                (leb→lt _ _ long) encodes in
            rw (long, nothing) refl
      ]
