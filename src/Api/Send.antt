-- ===== src/Api/Send.antt =====
-- The sending of messages, src/esphome_api.c, and the functions that plugins send by.
pub mod Transmit
pub mod Keeps
use esphome_linux.Base.{
  uninitialised, length-uninitialised, ℕ, zero, suc, ◌+◌, ◌-◌, ◌%◌, ◌^◌, Bool, true, false, ◌||◌,
  Option, none, some, List, [], ◌∷◌, ◌++◌, take, length, replicate, write_at, ltb, leb, ◌==◌,
  if◌then◌else◌,
}
use esphome_linux.Proto.Frame.{esphome_frame_message}
use esphome_linux.Plugin.{minus_one, is_negative, Context}
use esphome_linux.Api.Server.{Client, Server, World, System, max_clients, client_at}

abbrev pub send_buffer_size : ℕ
send_buffer_size = 8192

-- `strncpy` into an array of `n` characters.
abbrev pub strncpy : List ℕ → ℕ → List ℕ
strncpy source n = take n source ++ replicate (n - length source) 0

-- `if (sent < 0) return -1; if ((size_t)sent != frame_len) return -1; return 0;`
abbrev pub answer : {W : Type 0} → ℕ → Option ℕ → W → ℕ × W
answer frame_len none w = (minus_one, w)
answer frame_len (some sent) w = if sent == frame_len then (0, w) else (minus_one, w)

module _ {W : Type 0} (system : System W) where
  unfoldable pub send_message : Client → ℕ → List ℕ → ℕ → W → ℕ × W
  send_message client msg_type payload payload_len w =
      let (frame_len, send_buf) =
        esphome_frame_message (uninitialised send_buffer_size) send_buffer_size msg_type payload
          payload_len in
      let (sent, w') = system.send client.fd (take frame_len send_buf) w in
      if frame_len == 0 then (minus_one, w) else answer frame_len sent w'

  -- `server` is `none` for a null pointer.
  unfoldable pub esphome_api_send_to_client : Option Server → ℕ → ℕ → List ℕ → ℕ → W → ℕ × W
  unfolding send_message
  esphome_api_send_to_client none client_id msg_type payload payload_len w = (minus_one, w)
  esphome_api_send_to_client (some server) client_id msg_type payload payload_len w =
      let client = client_at server.clients client_id in
      if is_negative client_id || leb max_clients client_id
      then (minus_one, w)
      else if is_negative client.fd
      then (minus_one, w)
      else send_message client msg_type payload payload_len w

  -- The loop over the clients, with `sent_count`.
  unfoldable pub broadcast_loop : List Client → ℕ → List ℕ → ℕ → ℕ → W → ℕ × W
  unfolding send_message
  broadcast_loop [] msg_type payload payload_len sent_count w = (sent_count, w)
  broadcast_loop (client ∷ clients) msg_type payload payload_len sent_count w =
      let (result, w') = send_message client msg_type payload payload_len w in
      let skipped = broadcast_loop clients msg_type payload payload_len sent_count w in
      let later =
        broadcast_loop clients msg_type payload payload_len
          (if result == 0 then sent_count + 1 else sent_count) w' in
      if is_negative client.fd then skipped else later

  unfoldable pub esphome_api_broadcast : Option Server → ℕ → List ℕ → ℕ → W → ℕ × W
  unfolding broadcast_loop
  esphome_api_broadcast none msg_type payload payload_len w = (0, w)
  esphome_api_broadcast (some server) msg_type payload payload_len w =
      broadcast_loop server.clients msg_type payload payload_len 0 w

  -- `inet_ntoa` gives the text of an address, or a null pointer. `host_buf` keeps what it held unless
  -- 0 is returned.
  unfoldable pub esphome_api_get_client_host :
      (ℕ → Option (List ℕ)) → Option Server → ℕ → List ℕ → ℕ → ℕ × List ℕ
  esphome_api_get_client_host inet_ntoa none client_id host_buf host_buf_size =
      (minus_one, host_buf)
  esphome_api_get_client_host inet_ntoa (some server) client_id host_buf host_buf_size =
      let client = client_at server.clients client_id in
      if (host_buf_size == 0) || (is_negative client_id || leb max_clients client_id)
      then (minus_one, host_buf)
      else if is_negative client.fd
      then (minus_one, host_buf)
      else elim (inet_ntoa client.addr) [
        | none ↦ (minus_one, host_buf)
        | some ip_str ↦ (0, write_at host_buf 0 (strncpy ip_str (host_buf_size - 1) ++ (0 ∷ [])))
      ]

  -- The functions of src/esphome_plugin.c that hand on to these, with `ctx` and `ctx->server` as
  -- `none` for null pointers.
  unfoldable pub esphome_plugin_send_message : Option (Option Server) → ℕ → List ℕ → ℕ → W → ℕ × W
  unfolding esphome_api_broadcast
  esphome_plugin_send_message none msg_type payload len w = (minus_one, w)
  esphome_plugin_send_message (some none) msg_type payload len w = (minus_one, w)
  esphome_plugin_send_message (some (some server)) msg_type payload len w =
      let (sent, w') = esphome_api_broadcast (some server) (msg_type % 2 ^ 16) payload len w in
      (if ltb 0 sent then 0 else minus_one, w')

  unfoldable pub esphome_plugin_send_message_to_client :
      Option (Option Server) → ℕ → ℕ → List ℕ → ℕ → W → ℕ × W
  unfolding esphome_api_send_to_client
  esphome_plugin_send_message_to_client none client_id msg_type payload len w = (minus_one, w)
  esphome_plugin_send_message_to_client (some none) client_id msg_type payload len w =
      (minus_one, w)
  esphome_plugin_send_message_to_client (some (some server)) client_id msg_type payload len w =
      esphome_api_send_to_client (some server) client_id (msg_type % 2 ^ 16) payload len w
