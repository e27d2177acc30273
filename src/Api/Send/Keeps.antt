-- ===== src/Api/Send/Keeps.antt =====
-- What sending leaves alone.
use esphome_linux.Base.{
  ℕ, ◌+◌, ◌%◌, ◌^◌, Option, none, some, List, [], ◌∷◌, take, ◌==◌, if◌then◌else◌, uninitialised,
}
use esphome_linux.Proto.Frame.{esphome_frame_message}
use esphome_linux.Plugin.{is_negative}
use esphome_linux.Api.Server.{Client, Server, System}
use esphome_linux.Api.Send.{
  answer, send_message, broadcast_loop, esphome_api_broadcast, esphome_plugin_send_message,
}
use esphome_linux.Api.Handlers.Unchanged.{choose}

module _ {W : Type 0} (system : System W) (P : W → Type 0)
    (sends : (fd : ℕ) (bytes : List ℕ) (w : W) → P w → P (system.send fd bytes w).1) where
  abbrev After : ℕ × W → Type 0
  After r = P r.1

  answer-keeps : (frame_len : ℕ) (sent : Option ℕ) (w : W) → P w → P (answer frame_len sent w).1
  answer-keeps frame_len none w h = h
  answer-keeps frame_len (some sent) w h = choose After (sent == frame_len) h h

  send_message-keeps :
      (client : Client) (t : ℕ) (payload : List ℕ) (n : ℕ) (w : W)
      → P w
      → P (send_message system client t payload n w).1
  unfolding send_message
  send_message-keeps client t payload n w h =
      let framed = esphome_frame_message (uninitialised 8192) 8192 t payload n in
      let bytes = take framed.0 framed.1 in
      let sent = system.send client.fd bytes w in
      choose After (framed.0 == 0) h
        (answer-keeps framed.0 sent.0 sent.1 (sends client.fd bytes w h))

  broadcast_loop-keeps :
      (clients : List Client) (t : ℕ) (payload : List ℕ) (n count : ℕ) (w : W)
      → P w
      → P (broadcast_loop system clients t payload n count w).1
  unfolding broadcast_loop
  broadcast_loop-keeps [] t payload n count w h = h
  broadcast_loop-keeps (client ∷ clients) t payload n count w h =
      let sent = send_message system client t payload n w in
      choose After (is_negative client.fd) (broadcast_loop-keeps clients t payload n count w h) (
        broadcast_loop-keeps clients t payload n (if sent.0 == 0 then count + 1 else count) sent.1
          (send_message-keeps client t payload n w h))

  -- What `send` keeps, a broadcast of a plugin keeps.
  pub broadcasting-keeps :
      (server : Server) (t : ℕ) (payload : List ℕ) (n : ℕ) (w : W)
      → P w
      → P (esphome_plugin_send_message system (some (some server)) t payload n w).1
  unfolding esphome_plugin_send_message esphome_api_broadcast
  broadcasting-keeps server t payload n w h =
      broadcast_loop-keeps server.clients (t % 2 ^ 16) payload n 0 w h
