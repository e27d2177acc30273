-- ===== src/Api/Send/Transmit.antt =====
-- What reaches the operating system when a message is sent.
use esphome_linux.Base.{
  uninitialised, length-uninitialised, ℕ, ◌+◌, ◌^◌, ◌≤◌, ◌<◌, ◌≡◌, inl, inr, refl, ap, ◌∙◌, true,
  false, not, ◌&&◌, some, List, [], ◌∷◌, arith, take, length, ltb, leb, ◌==◌, if◌then◌else◌,
  Bool-cases,
}
use esphome_linux.Proto.Buffer.{IsU16}
use esphome_linux.Proto.Frame.Encode.{frame, esphome_frame_message-frame}
use esphome_linux.Plugin.{minus_one, is_negative}
use esphome_linux.Api.Server.{Client, Server, System, max_clients, client_at}
use esphome_linux.Api.Send.{
  send_buffer_size, answer, send_message, esphome_api_send_to_client, broadcast_loop,
  esphome_api_broadcast,
}

module _ {W : Type 0} (system : System W) where
  -- Handing one text to `send` in a single call: 0 if all of it is taken, and -1 otherwise.
  abbrev pub transmit : ℕ → List ℕ → W → ℕ × W
  transmit fd ys w = answer (length ys) (system.send fd ys w).0 (system.send fd ys w).1

  -- One frame if it fits into the send buffer, and nothing otherwise.
  abbrev pub transmit_frame : ℕ → ℕ → List ℕ → W → ℕ × W
  transmit_frame fd msg_type payload w =
      if leb (length (frame msg_type payload)) send_buffer_size
      then transmit fd (frame msg_type payload) w
      else (minus_one, w)

  -- Sending what has been framed, or not.
  framed-transmit :
      (fd : ℕ) (ys : List ℕ) (cap n : ℕ) (out : List ℕ) (w : W)
      → 1 ≤ length ys
      → n ≡ (if leb (length ys) cap then length ys else 0)
      → (0 < n → take n out ≡ ys)
      → (if n == 0
          then (minus_one, w)
          else answer n (system.send fd (take n out) w).0 (system.send fd (take n out) w).1)
        ≡ (if leb (length ys) cap then transmit fd ys w else (minus_one, w))
  framed-transmit fd ys cap n out w some_byte size text = elim (Bool-cases (leb (length ys) cap)) [
    | inr long ↦
        let none_framed : (n == 0) ≡ true = ground (arith, size) in rw (none_framed, long) refl
    | inl fits ↦
        let exact : n ≡ length ys = ground (arith, size) in
        let framed : (n == 0) ≡ false = ground arith in
        rw (framed, fits, text (omega arith), exact) refl
  ]

  -- A message whose type has 16 bits is sent as its frame, in one call of `send`, with 0 returned if
  -- the call takes the whole frame and -1 if not; a frame longer than 8192 bytes is refused with -1,
  -- and nothing is sent.
  pub send_message-transmit_frame :
      (client : Client) (msg_type : ℕ) (payload : List ℕ) (payload_len : ℕ) (w : W)
      → IsU16 msg_type
      → payload_len ≤ length payload
      → length payload < 2 ^ 63
      → send_message system client msg_type payload payload_len w
        ≡ transmit_frame client.fd msg_type (take payload_len payload) w
  unfolding send_message
  send_message-transmit_frame client msg_type payload payload_len w ht hl ho =
      let frames =
        esphome_frame_message-frame (uninitialised send_buffer_size) send_buffer_size msg_type
          payload_len payload (omega (arith, length-uninitialised send_buffer_size))
          (omega (arith, length-uninitialised send_buffer_size)) ht hl (omega arith) in
      framed-transmit client.fd (frame msg_type (take payload_len payload)) send_buffer_size _ _ w
        (omega arith) frames.0 frames.1.0

  -- One frame to each of some descriptors, in turn: how many took it.
  abbrev pub transmit_each : ℕ → List ℕ → List ℕ → W → ℕ × W
  transmit_each msg_type payload [] w = (0, w)
  transmit_each msg_type payload (fd ∷ fds) w =
      let (result, w') = transmit_frame fd msg_type payload w in
      let (count, w'') = transmit_each msg_type payload fds w' in
      ((if result == 0 then count + 1 else count), w'')

-- The descriptors of the clients that are connected.
abbrev pub connected_fds : List Client → List ℕ
connected_fds [] = []
connected_fds (client ∷ clients) =
    if is_negative client.fd then connected_fds clients else client.fd ∷ connected_fds clients

module _ {W : Type 0} (system : System W) (msg_type : ℕ) (payload : List ℕ) (payload_len : ℕ)
    (small_type : IsU16 msg_type) (readable : payload_len ≤ length payload)
    (object : length payload < 2 ^ 63) where
  pub broadcast_loop-transmit_each :
      (clients : List Client) (sent_count : ℕ) (w : W)
      → let each =
          transmit_each system msg_type (take payload_len payload) (connected_fds clients) w in
        broadcast_loop system clients msg_type payload payload_len sent_count w
        ≡ (sent_count + each.0, each.1)
  unfolding broadcast_loop
  broadcast_loop-transmit_each [] sent_count w = ap (λ n. (n, w)) (omega arith)
  broadcast_loop-transmit_each (client ∷ clients) sent_count w =
      elim (Bool-cases (is_negative client.fd)) [
        | inl off ↦ rw (off, broadcast_loop) (broadcast_loop-transmit_each clients sent_count w)
        | inr on ↦
            let sends =
              send_message-transmit_frame system client msg_type payload payload_len w small_type
                readable object in
            let sent = transmit_frame system client.fd msg_type (take payload_len payload) w in
            elim (Bool-cases (sent.0 == 0)) [
              | inl ok ↦
                  let later = broadcast_loop-transmit_each clients (sent_count + 1) sent.1 in
                  let each =
                    transmit_each system msg_type (take payload_len payload) (connected_fds clients)
                      sent.1 in
                  rw (on, sends, ok, later, broadcast_loop) (ap (λ n. (n, each.1)) (omega arith))
              | inr failed ↦
                  let later = broadcast_loop-transmit_each clients sent_count sent.1 in
                  rw (on, sends, failed, later, broadcast_loop) refl
            ]
      ]

  -- A broadcast of a message whose type has 16 bits sends its frame once to each connected client, in
  -- the order of the slots and whether or not the earlier calls failed, and returns how many took it.
  pub esphome_api_broadcast-transmit_each :
      (server : Server) (w : W)
      → esphome_api_broadcast system (some server) msg_type payload payload_len w
        ≡ transmit_each system msg_type (take payload_len payload) (connected_fds server.clients) w
  unfolding esphome_api_broadcast
  esphome_api_broadcast-transmit_each server w =
      let each =
        transmit_each system msg_type (take payload_len payload) (connected_fds server.clients) w in
      broadcast_loop-transmit_each server.clients 0 w ∙ ap (λ n. (n, each.1)) (omega arith)

  -- Sending to one client: its frame if the index is that of a slot with a connected client, and -1
  -- with nothing sent for any other index, negative ones included.
  pub esphome_api_send_to_client-transmit_frame :
      (server : Server) (client_id : ℕ) (w : W)
      → let client = client_at server.clients client_id in
        esphome_api_send_to_client system (some server) client_id msg_type payload payload_len w ≡ (
          if ltb client_id max_clients && not (is_negative client.fd)
          then transmit_frame system client.fd msg_type (take payload_len payload) w
          else (minus_one, w))
  unfolding esphome_api_send_to_client
  esphome_api_send_to_client-transmit_frame server i w =
      let client = client_at server.clients i in
      let sends =
        send_message-transmit_frame system client msg_type payload payload_len w small_type readable
          object in
      rw sends (ground arith)
