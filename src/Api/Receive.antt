-- ===== src/Api/Receive.antt =====
-- The receive buffer of a client and `handle_client_data` of src/esphome_api.c.
pub mod Stream
pub mod Reassembly
pub mod Thread
pub mod Room
use esphome_linux.Base.{
  ℕ, zero, suc, ◌+◌, ◌-◌, ◌%◌, ◌^◌, ◌≤◌, ◌<◌, Option, none, some, List, [], ◌∷◌, length, take, drop,
  write_at, ltb, ◌==◌, ◌++◌, Bool, true, false, not, if◌then◌else◌,
}
use esphome_linux.Proto.Frame.{Header, esphome_decode_frame_header}

abbrev pub recv_buffer_size : ℕ
recv_buffer_size = 4096

-- `recv_buffer` and `recv_pos` of `client_connection_t`
pub record Receiver : Type 0 where
  pub recv_buffer : List ℕ
  pub recv_pos : ℕ

-- The out parameters are not initialised; nothing reads them before they are stored.
abbrev unset : Header
unset = record { msg_len = 0; msg_type = 0 }

-- The bytes that wait for a complete message.
abbrev pub pending : Receiver → List ℕ
pending r = take r.recv_pos r.recv_buffer

-- `memmove(recv_buffer, recv_buffer + total_len, recv_pos - total_len); recv_pos -= total_len;`
abbrev pub remove_front : ℕ → Receiver → Receiver
remove_front total_len r = record {
  recv_buffer =
      write_at r.recv_buffer 0 (take (r.recv_pos - total_len) (drop total_len r.recv_buffer));
  recv_pos = r.recv_pos - total_len;
}

-- What a call of `recv` returns: -1, or the bytes stored; 0 bytes are the end of the connection, or a
-- full buffer.
pub data Recv : Type 0 where
  failed : Recv
  bytes : List ℕ → Recv

-- Where the rounds of a client thread stand: whether its loop was left, and its state.
pub record Rounds (S : Type 0) : Type 0 where
  pub leaves : Bool
  pub receiver : Receiver
  pub state : S

-- `recv` stores a chunk behind what is pending.
abbrev pub store_chunk : List ℕ → Receiver → Receiver
store_chunk chunk r = record {
  recv_buffer = write_at r.recv_buffer r.recv_pos chunk;
  recv_pos = r.recv_pos + length chunk;
}

-- `S` is all that a message handler can change; it does not reach the receive buffer of the client
-- whose data is handled.
module _ {S : Type 0} (dispatch : ℕ → List ℕ → S → S) where
  -- `while (client->recv_pos > 0)`; `none` means that the fuel ran out.
  unfoldable pub handle_client_data : ℕ → Receiver → S → Option (Receiver × S)
  handle_client_data zero r s = none
  handle_client_data (suc fuel) r s =
      let (header, header_len) = esphome_decode_frame_header r.recv_buffer r.recv_pos unset in
      let total_len = (header_len + header.msg_len) % 2 ^ 32 in
      let payload = take header.msg_len (drop header_len r.recv_buffer) in
      let rest =
        handle_client_data fuel (remove_front total_len r) (dispatch header.msg_type payload s) in
      if r.recv_pos == 0
      then some (r, s)
      else if header_len == 0
      then some (r, s)
      else if ltb r.recv_pos total_len
      then some (r, s)
      else rest

  -- `while (server->running && client->fd >= 0)` of the client thread, over what the calls of `recv`
  -- return; `alive` is the test. The list ends where the thread waits for the next call.
  unfoldable pub client_rounds : (S → Bool) → List Recv → Receiver → S → Option (Rounds S)
  unfolding handle_client_data
  client_rounds alive [] r s = some (record { leaves = not (alive s); receiver = r; state = s })
  client_rounds alive (received ∷ later) r s =
      let stop = some (record { leaves = true; receiver = r; state = s }) in
      let handle = λ (chunk : List ℕ).
        (let r' = store_chunk chunk r in handle_client_data (suc r'.recv_pos) r' s) in
      elim (alive s) [
        | false ↦ stop
        | true ↦ elim received [
          | failed ↦ stop
          | bytes [] ↦ stop
          | bytes (x ∷ xs) ↦ elim (handle (x ∷ xs)) [
            | none ↦ none
            | some (r'', s') ↦ client_rounds alive later r'' s'
          ]
        ]
      ]
