-- ===== src/Proto/Frame/Encode.antt =====
-- `esphome_frame_message` writes one frame.
use esphome_linux.Base.{
  ℕ, ◌+◌, ◌^◌, ◌≤◌, ◌<◌, Bool, true, false, arith, List, [], ◌∷◌, ◌++◌, ◌≡◌, refl, ◌∙◌, take,
  length, ltb, leb, if◌then◌else◌, Bool-cases, inl, inr, length-take, length-append,
}
use esphome_linux.Proto.Buffer.{PbBuffer, IsValid, IsU16, add_size, pb_buffer_init_write}
use esphome_linux.Proto.Buffer.Views.{
  Encoder, Wrote, Writes, Wrote-put_byte, Wrote-put_bytes, Wrote-trans,
}
use esphome_linux.Proto.Varint.{pb_encode_varint}
use esphome_linux.Proto.Varint.Encode.{varint, pb_encode_varint-Writes}
use esphome_linux.Proto.Field.{and_then}
use esphome_linux.Proto.Frame.{put_preamble, put_payload, esphome_frame_message}

abbrev pub frame_header : ℕ → ℕ → List ℕ
frame_header msg_type len = 0x00 ∷ (varint len ++ varint msg_type)

-- A frame on the wire.
abbrev pub frame : ℕ → List ℕ → List ℕ
frame msg_type payload = 0x00 ∷ (varint (length payload) ++ (varint msg_type ++ payload))

-- The part of the contract of an encoder that does not ask for the error flag, which framing leaves
-- alone: the answer, and the text if it is true.
record Sent (ys : List ℕ) (b : PbBuffer) (ok : Bool) (b' : PbBuffer) : Type 0 where
  told : ok ≡ leb (b.pos + length ys) b.size
  success : ok ≡ true → Wrote ys b true b'

abbrev Sends : Encoder → List ℕ → Type 0
Sends m ys = (b : PbBuffer) → IsValid b → Sent ys b (m b).0 (m b).1

Writes-Sends : {m : Encoder} (ys : List ℕ) → Writes m ys → Sends m ys
Writes-Sends {m} ys w b v = record { told = (w b v).told; success = λ e. rw e at (w b v) }

and_then-Sent :
    (m : Encoder) {k : Encoder} (xs ys : List ℕ) {b : PbBuffer}
    → Sent xs b (m b).0 (m b).1
    → Sends k ys
    → Sent (xs ++ ys) b (and_then m k b).0 (and_then m k b).1
unfolding and_then
and_then-Sent m {k} xs ys {b} hm hk = elim (Bool-cases (m b).0) [
  | inl ok ↦
      let first : Wrote xs b true (m b).1 = hm.success ok in
      let later : Sent ys (m b).1 (k (m b).1).0 (k (m b).1).1 = hk (m b).1 first.appended.valid in
      rw ok (record {
        told =
            later.told
            ∙ ground (arith, (first.moved refl).0, first.appended.same_size, length-append xs ys);
        success = λ e. Wrote-trans xs ys first (later.success e);
      })
  | inr failed ↦
      let told : false ≡ leb (b.pos + length xs) b.size = rw failed at hm.told in
      rw failed (record { told = ground (arith, told, length-append xs ys); success = λ e. cc })
]

and_then-Sends :
    {m k : Encoder} (xs ys : List ℕ) → Sends m xs → Sends k ys → Sends (and_then m k) (xs ++ ys)
and_then-Sends {m} xs ys hm hk b v = and_then-Sent m xs ys (hm b v) hk

-- What a caller sees of an encoder that was run on a fresh buffer.
Sent-result :
    (ys array : List ℕ) (size : ℕ) {ok : Bool} {b' : PbBuffer}
    → Sent ys (pb_buffer_init_write array size) ok b'
    → let n = if ok then b'.pos else 0 in
      (n ≡ (if leb (length ys) size then length ys else 0))
      × ((0 < n → take n b'.bytes ≡ ys) × (0 < n → length b'.bytes < 2 ^ 63))
Sent-result ys array size {ok = false} s =
    (ground (arith, s.told), ((λ h. absurd (omega arith)), (λ h. absurd (omega arith))))
Sent-result ys array size {ok = true} {b'} s =
    let w : Wrote ys (pb_buffer_init_write array size) true b' = s.success refl in
    let at : b'.pos ≡ 0 + length ys = (w.moved refl).0 in
    (
      ground (arith, s.told, at),
      (
        (λ h. ground (arith, w.appended.text, (w.moved refl).1, s.told)),
        (λ h. w.appended.valid.object),
      ),
    )

put_preamble-Sent :
    (b : PbBuffer)
    → IsValid b
    → b.pos ≡ 0
    → Sent (0x00 ∷ []) b (put_preamble b).0 (put_preamble b).1
unfolding put_preamble
put_preamble-Sent b v e = elim (Bool-cases (ltb b.size 1)) [
  | inl none_left ↦ rw none_left (record { told = ground (arith, e); success = λ e. cc })
  | inr room ↦ rw room (record {
    told = ground (arith, e);
    success = λ _. Wrote-put_byte 0x00 b v (ground (arith, e));
  })
]

put_payload-Sends :
    (payload : List ℕ) (len : ℕ)
    → len ≤ length payload
    → length payload < 2 ^ 63
    → Sends (put_payload payload len) (take len payload)
unfolding put_payload
put_payload-Sends payload len h object b v =
    let whole : length (take len payload) ≡ len = omega (arith, length-take len payload) in
    elim (Bool-cases (ltb b.size (add_size b.pos len))) [
      | inl long ↦ rw long (record { told = ground (arith, whole, v); success = λ e. cc })
      | inr fits ↦ rw fits (record {
        told = ground (arith, whole, v);
        success = λ _. Wrote-put_bytes (take len payload) b v (ground (arith, whole, v));
      })
    ]

module _ (out_buf : List ℕ) (out_size msg_type payload_len : ℕ) (payload : List ℕ)
    (inside : out_size ≤ length out_buf) (object : length out_buf < 2 ^ 63)
    (small_type : IsU16 msg_type) (readable : payload_len ≤ length payload)
    (payload_object : length payload < 2 ^ 63) where
  abbrev init : PbBuffer
  init = pb_buffer_init_write out_buf out_size

  abbrev sent : List ℕ
  sent = take payload_len payload

  length-Sends : Sends (pb_encode_varint payload_len) (varint (length sent))
  length-Sends =
      let whole : length sent ≡ payload_len = omega (arith, length-take payload_len payload) in
      rw whole (Writes-Sends _ (pb_encode_varint-Writes payload_len (omega arith)))

  -- Framing into a buffer: the frame's length is returned and the frame stands at the front of
  -- the buffer, still an array of C, if it fits there, and 0 is returned if it does not. The type has
  -- 16 bits, and the payload is an array of at least `payload_len` bytes.
  pub esphome_frame_message-frame :
      let sent = take payload_len payload in
      let (n, out) = esphome_frame_message out_buf out_size msg_type payload payload_len in
      (n
        ≡ (if leb (length (frame msg_type sent)) out_size then length (frame msg_type sent) else 0))
      × ((0 < n → take n out ≡ frame msg_type sent) × (0 < n → length out < 2 ^ 63))
  unfolding esphome_frame_message
  esphome_frame_message-frame =
      let v : IsValid init = record { within = omega arith; backed = inside; object = object } in
      Sent-result (frame msg_type sent) out_buf out_size (
        and_then-Sent put_preamble (0x00 ∷ []) (varint (length sent) ++ (varint msg_type ++ sent))
          (put_preamble-Sent init v refl)
          (and_then-Sends {m = pb_encode_varint payload_len} (varint (length sent))
            (varint msg_type ++ sent) length-Sends
            (and_then-Sends {m = pb_encode_varint msg_type} (varint msg_type) sent
              (Writes-Sends _ (pb_encode_varint-Writes msg_type (omega arith)))
              (put_payload-Sends payload payload_len readable payload_object))))
