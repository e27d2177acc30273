-- ===== src/Proto/Frame/RoundTrip.antt =====
-- The frame header that is read back from what was framed.
use esphome_linux.Base.{
  ℕ, ◌^◌, ◌≤◌, ◌<◌, ◌≡◌, sym, ap, ◌∙◌, List, [], arith, take, length, length-take, append-nil, some,
}
use esphome_linux.Proto.Buffer.{IsU16, IsU32}
use esphome_linux.Proto.Frame.{Header, esphome_frame_message, esphome_decode_frame_header}
use esphome_linux.Proto.Frame.Encode.{frame, frame_header, esphome_frame_message-frame}
use esphome_linux.Proto.Frame.Decode.{header_of, esphome_decode_frame_header-Answers}
use esphome_linux.Proto.Frame.Prefix.{header_of-frame}

-- A payload and type that were framed into a buffer, with room, are found there again: decoding the
-- header of the bytes that framing returned yields the length and the type, and the position at
-- which the payload starts. The type has 16 bits, the length 32.
pub esphome_decode_frame_header-esphome_frame_message :
    (out_buf : List ℕ) (out_size msg_type payload_len : ℕ) (payload : List ℕ) (old : Header)
    → out_size ≤ length out_buf
    → length out_buf < 2 ^ 63
    → IsU16 msg_type
    → payload_len ≤ length payload
    → length payload < 2 ^ 63
    → IsU32 payload_len
    → let (n, out) = esphome_frame_message out_buf out_size msg_type payload payload_len in
      0 < n
      → esphome_decode_frame_header out n old ≡ (
        record { msg_len = payload_len; msg_type = msg_type },
        length (frame_header msg_type payload_len),
      )
esphome_decode_frame_header-esphome_frame_message out_buf out_size t len payload old inside object
      ht hl ho small framed =
    let ys = take len payload in
    let (n, out) = esphome_frame_message out_buf out_size t payload len in
    let (told, (front, whole_object)) =
      esphome_frame_message-frame out_buf out_size t len payload inside object ht hl ho in
    let text : take n out ≡ frame t ys = front framed in
    let size : length ys ≡ len = omega (arith, length-take len payload) in
    let exact : n ≡ length (frame t ys) = ground (arith, told) in
    let whole : n ≤ length out = omega (arith, length-take n out, ap length text) in
    let found : header_of (take n out)
        ≡ some (record { offset = length (frame_header t len); msg_len = len; msg_type = t }) =
      ap header_of (text ∙ sym (append-nil (frame t ys)))
      ∙ header_of-frame t ys [] ht (omega (arith, size))
      ∙ ap
          (λ (k : ℕ).
            some (record { offset = length (frame_header t k); msg_len = k; msg_type = t }))
          size in
    let answers =
      rw found at (esphome_decode_frame_header-Answers out n old whole (whole_object framed)) in
    let header : Header = record { msg_len = len; msg_type = t } in
    ap (λ (h : Header). (h, (esphome_decode_frame_header out n old).1)) answers.1
    ∙ ap (λ (k : ℕ). (header, k)) answers.0
