-- ===== src/Api/Receive/Reassembly.antt =====
-- `handle_client_data` and the client thread dispatch the messages of the byte stream.
use esphome_linux.Base.{
  ℕ, zero, suc, ◌+◌, ◌-◌, ◌%◌, ◌^◌, ◌≤◌, ◌<◌, ◌≡◌, refl, sym, ap, ◌∙◌, false, Option, none, some,
  List, [], ◌∷◌, length, take, drop, arith, length-take, length-drop, drop-take, take-take,
  take-write_at, length-write_at, ◌==◌, le→ltb,
}
use esphome_linux.Proto.Frame.{esphome_decode_frame_header}
use esphome_linux.Proto.Frame.Decode.{Found, header_of, esphome_decode_frame_header-Answers}
use esphome_linux.Proto.Frame.Prefix.{IsHeader, header_of-IsHeader}
use esphome_linux.Api.Receive.{Receiver, unset, pending, remove_front, handle_client_data}
use esphome_linux.Api.Receive.Stream.{Message, total, message_at, Split, stop, more}

pub record IsReceiver (r : Receiver) : Type 0 where
  pub inside : r.recv_pos ≤ length r.recv_buffer
  pub size : length r.recv_buffer ≡ 4096

pub length-pending : (r : Receiver) → IsReceiver r → length (pending r) ≡ r.recv_pos
length-pending r v = omega (arith, length-take r.recv_pos r.recv_buffer)

-- The payload that is handed on, and what is pending once a message is removed.
message_at-pending :
    (r : Receiver) (h : Found)
    → IsReceiver r
    → IsHeader (pending r) h
    → message_at h (pending r) ≡ (h.msg_type, take h.msg_len (drop h.offset r.recv_buffer))
message_at-pending r h v i =
    rw
      (
        drop-take h.offset r.recv_pos r.recv_buffer,
        take-take h.msg_len (r.recv_pos - h.offset) (drop h.offset r.recv_buffer)
            (omega (arith, i.complete, length-pending r v)),
      )
      refl

pending-remove_front :
    (n : ℕ) (r : Receiver)
    → IsReceiver r
    → n ≤ r.recv_pos
    → pending (remove_front n r) ≡ drop n (pending r)
pending-remove_front n r v h =
    let rest : List ℕ = take (r.recv_pos - n) (drop n r.recv_buffer) in
    let size : length rest ≡ r.recv_pos - n = omega (
      arith,
      length-take (r.recv_pos - n) (drop n r.recv_buffer),
      length-drop n r.recv_buffer,
      v,
    ) in
    take-write_at r.recv_buffer 0 (r.recv_pos - n) rest (omega (arith, size, v))
      (omega (arith, size))
    ∙ sym (drop-take n r.recv_pos r.recv_buffer)

remove_front-IsReceiver : (n : ℕ) (r : Receiver) → IsReceiver r → IsReceiver (remove_front n r)
remove_front-IsReceiver n r v =
    omega (arith, length-write_at r.recv_buffer 0 (take (r.recv_pos - n) (drop n r.recv_buffer)), v)

module _ {S : Type 0} (dispatch : ℕ → List ℕ → S → S) where
  -- The messages handed to the dispatcher in order.
  abbrev pub deliver : List Message → S → S
  deliver [] s = s
  deliver ((t, p) ∷ ms) s = deliver ms (dispatch t p s)

  -- What a run over the pending bytes comes to.
  pub record Delivered (r : Receiver) (s : S) (result : Option (Receiver × S)) : Type 0 where
    pub messages : List Message
    pub after : Receiver
    pub valid : IsReceiver after
    pub split : Split (pending r) messages (pending after)
    pub returned : result ≡ some (after, deliver messages s)

  deliver_none :
      (fuel : ℕ) (r : Receiver) (s : S)
      → IsReceiver r
      → header_of (pending r) ≡ none
      → handle_client_data dispatch (suc fuel) r s ≡ some (r, s)
  unfolding handle_client_data
  deliver_none fuel r s v e =
      let answer : (esphome_decode_frame_header r.recv_buffer r.recv_pos unset).1 ≡ 0 = rw e at (
        esphome_decode_frame_header-Answers r.recv_buffer r.recv_pos unset v.inside
          (omega (arith, v))) in
      rw answer (ground arith)

  deliver_one :
      (fuel : ℕ) (r : Receiver) (s : S) (h : Found)
      → IsReceiver r
      → header_of (pending r) ≡ some h
      → handle_client_data dispatch (suc fuel) r s
        ≡ handle_client_data dispatch fuel
            (remove_front (total h) r)
            (dispatch h.msg_type (message_at h (pending r)).1 s)
  unfolding handle_client_data
  deliver_one fuel r s h v e =
      let answer : ((esphome_decode_frame_header r.recv_buffer r.recv_pos unset).1 ≡ h.offset)
          × ((esphome_decode_frame_header r.recv_buffer r.recv_pos unset).0
              ≡ record { msg_len = h.msg_len; msg_type = h.msg_type }) =
        rw e at (
          esphome_decode_frame_header-Answers r.recv_buffer r.recv_pos unset v.inside
            (omega (arith, v))) in
      let i : IsHeader (pending r) h = header_of-IsHeader (pending r) e in
      let fits : h.offset + h.msg_len ≤ r.recv_pos =
        omega (arith, i.complete, length-pending r v) in
      let waiting : (r.recv_pos == 0) ≡ false = ground (arith, i.nonempty) in
      let found : (h.offset == 0) ≡ false = ground (arith, i.nonempty) in
      let narrow : (h.offset + h.msg_len) % 2 ^ 32 ≡ h.offset + h.msg_len = omega (arith, v) in
      rw (answer.0, answer.1, waiting, found, narrow, le→ltb _ _ fits)
        (ap
          (λ (m : Message).
            handle_client_data dispatch fuel (remove_front (total h) r) (dispatch m.0 m.1 s))
          (sym (message_at-pending r h v i)))

  -- From a valid receive buffer and with more rounds than bytes are pending, `handle_client_data`
  -- ends: it has dispatched the messages that the pending bytes split into, in order, and keeps the
  -- bytes that are left, which do not start with a complete message.
  pub handle_client_data-Delivered :
      (fuel : ℕ) (r : Receiver) (s : S)
      → IsReceiver r
      → r.recv_pos < fuel
      → Delivered r s (handle_client_data dispatch fuel r s)
  handle_client_data-Delivered zero r s v h = absurd (omega arith)
  handle_client_data-Delivered (suc fuel) r s v enough =
      go (header_of (pending r)) refl (handle_client_data-Delivered fuel)
    where
      go :
          (o : Option Found)
          → header_of (pending r) ≡ o
          → ((r : Receiver) (s : S)
              → IsReceiver r
              → r.recv_pos < fuel
              → Delivered r s (handle_client_data dispatch fuel r s))
          → Delivered r s (handle_client_data dispatch (suc fuel) r s)
      go none e ih = record {
        messages = [];
        after = r;
        valid = v;
        split = stop e;
        returned = deliver_none fuel r s v e;
      }
      go (some h) e ih =
          let i : IsHeader (pending r) h = header_of-IsHeader (pending r) e in
          let fits : h.offset + h.msg_len ≤ r.recv_pos =
            omega (arith, i.complete, length-pending r v) in
          let m : Message = message_at h (pending r) in
          let d : Delivered (remove_front (total h) r) (dispatch m.0 m.1 s) _ =
            ih (remove_front (total h) r) (dispatch m.0 m.1 s)
              (remove_front-IsReceiver (total h) r v) (omega (arith, i.nonempty)) in
          record {
            messages = m ∷ d.messages;
            after = d.after;
            valid = d.valid;
            split = more h e (rw (pending-remove_front (total h) r v fits) at d.split);
            returned = deliver_one fuel r s h v e ∙ d.returned;
          }
