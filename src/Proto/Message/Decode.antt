-- ===== src/Proto/Message/Decode.antt =====
-- The decoders read every message that is made of fields.
use esphome_linux.Base.{
  ℕ, ◌%◌, ◌^◌, ◌<◌, Option, none, some, arith, ltb, ◌==◌, if◌then◌else◌, List, [], ◌≡◌, refl,
  length, All, inl, inr, ltb→lt, ltb→le, Bool-cases,
}
use esphome_linux.Proto.Buffer.{PbBuffer}
use esphome_linux.Proto.Field.Decode.{
  Facing, pb_decode_string-prefixed, pb_decode_string_too_long, pb_decode_uint32-varint,
}
use esphome_linux.Proto.Message.{
  HelloRequest, ConnectRequest, SubscribeBleAdvertisements, on_hello_field, on_connect_field,
  on_subscribe_field, esphome_decode_hello_request, esphome_decode_connect_request,
  esphome_decode_subscribe_ble_advertisements,
}
use esphome_linux.Proto.Message.Wire.{
  Content, number, fixed64, text, fixed32, wire_type, payload, Field, IsField, message_bytes,
  read_fields,
}
use esphome_linux.Proto.Message.Loop.{
  pb_skip_field-payload, Handled, message_loop-message, Facing-init,
}

-- What the three decoders accept: the last field 1 of the right wire type; all else is passed over.
abbrev pub accept_hello : HelloRequest → Field → Option HelloRequest
accept_hello msg (n, text s) =
    if n == 1 then (if ltb (length s) 128 then some (record { client = s }) else none) else some msg
accept_hello msg (n, _) = some msg

abbrev pub accept_connect : ConnectRequest → Field → Option ConnectRequest
accept_connect msg (n, text s) =
    if n == 1
    then (if ltb (length s) 128 then some (record { password = s }) else none)
    else some msg
accept_connect msg (n, _) = some msg

abbrev pub accept_subscribe : SubscribeBleAdvertisements → Field → Option SubscribeBleAdvertisements
accept_subscribe msg (n, number v) =
    if n == 1 then some (record { flags = v % 2 ^ 32 }) else some msg
accept_subscribe msg (n, _) = some msg

on_hello_field-Handled :
    (msg : HelloRequest) (n : ℕ) (c : Content) (ys : List ℕ) (b : PbBuffer)
    → IsField (n, c)
    → Facing (payload c) ys b
    → Handled
        (accept_hello msg (n, c))
        msg
        b
        (length (payload c))
        (on_hello_field n (wire_type c) msg b)
unfolding on_hello_field
on_hello_field-Handled msg n (text s) ys b h f = elim (Bool-cases (n == 1)) [
  | inr other ↦ rw (other, pb_skip_field-payload (text s) ys h.1 f) refl
  | inl one ↦ elim (Bool-cases (ltb (length s) 128)) [
    | inl fits ↦
        rw (one, fits, pb_decode_string-prefixed s ys f msg.client 128 (ltb→lt (length s) 128 fits))
          refl
    | inr long ↦
        rw (one, long, pb_decode_string_too_long s ys f msg.client 128 (ltb→le (length s) 128 long))
          (refl, refl)
  ]
]
on_hello_field-Handled msg n (number v) ys b h f =
    ground (arith, pb_skip_field-payload (number v) ys h.1 f)
on_hello_field-Handled msg n (fixed64 s) ys b h f =
    ground (arith, pb_skip_field-payload (fixed64 s) ys h.1 f)
on_hello_field-Handled msg n (fixed32 s) ys b h f =
    ground (arith, pb_skip_field-payload (fixed32 s) ys h.1 f)

on_connect_field-Handled :
    (msg : ConnectRequest) (n : ℕ) (c : Content) (ys : List ℕ) (b : PbBuffer)
    → IsField (n, c)
    → Facing (payload c) ys b
    → Handled
        (accept_connect msg (n, c))
        msg
        b
        (length (payload c))
        (on_connect_field n (wire_type c) msg b)
unfolding on_connect_field
on_connect_field-Handled msg n (text s) ys b h f = elim (Bool-cases (n == 1)) [
  | inr other ↦ rw (other, pb_skip_field-payload (text s) ys h.1 f) refl
  | inl one ↦ elim (Bool-cases (ltb (length s) 128)) [
    | inl fits ↦
        rw
          (
            one,
            fits,
            pb_decode_string-prefixed s ys f msg.password 128 (ltb→lt (length s) 128 fits),
          )
          refl
    | inr long ↦
        rw
          (
            one,
            long,
            pb_decode_string_too_long s ys f msg.password 128 (ltb→le (length s) 128 long),
          )
          (refl, refl)
  ]
]
on_connect_field-Handled msg n (number v) ys b h f =
    ground (arith, pb_skip_field-payload (number v) ys h.1 f)
on_connect_field-Handled msg n (fixed64 s) ys b h f =
    ground (arith, pb_skip_field-payload (fixed64 s) ys h.1 f)
on_connect_field-Handled msg n (fixed32 s) ys b h f =
    ground (arith, pb_skip_field-payload (fixed32 s) ys h.1 f)

on_subscribe_field-Handled :
    (msg : SubscribeBleAdvertisements) (n : ℕ) (c : Content) (ys : List ℕ) (b : PbBuffer)
    → IsField (n, c)
    → Facing (payload c) ys b
    → Handled
        (accept_subscribe msg (n, c))
        msg
        b
        (length (payload c))
        (on_subscribe_field n (wire_type c) msg b)
unfolding on_subscribe_field
on_subscribe_field-Handled msg n (number v) ys b h f = elim (Bool-cases (n == 1)) [
  | inr other ↦ rw (other, pb_skip_field-payload (number v) ys h.1 f) refl
  | inl one ↦ rw (one, pb_decode_uint32-varint msg.flags v ys h.1 f) refl
]
on_subscribe_field-Handled msg n (text s) ys b h f =
    ground (arith, pb_skip_field-payload (text s) ys h.1 f)
on_subscribe_field-Handled msg n (fixed64 s) ys b h f =
    ground (arith, pb_skip_field-payload (fixed64 s) ys h.1 f)
on_subscribe_field-Handled msg n (fixed32 s) ys b h f =
    ground (arith, pb_skip_field-payload (fixed32 s) ys h.1 f)

module _ (fs : List Field) (fuel : ℕ) (hs : All IsField fs) (enough : length fs < fuel)
    (object : length (message_bytes fs) < 2 ^ 63) where
  -- On the bytes of any protobuf message, and with more rounds than the message has fields, the hello
  -- decoder ends and reads the fields in turn: field 1 as a text is the client's name if it is shorter
  -- than 128 bytes and is an error otherwise; every other field is passed over.
  pub esphome_decode_hello_request-message :
      esphome_decode_hello_request fuel (message_bytes fs) (length (message_bytes fs))
      ≡ some (read_fields accept_hello fs (record { client = [] }))
  unfolding esphome_decode_hello_request
  esphome_decode_hello_request-message =
      message_loop-message on_hello_field accept_hello on_hello_field-Handled fs fuel _ _ hs enough
        (Facing-init (message_bytes fs) object) refl

  -- On the bytes of any protobuf message, and with more rounds than the message has fields, the
  -- connect decoder ends and reads the fields in turn: field 1 as a text is the password if it is
  -- shorter than 128 bytes and is an error otherwise; every other field is passed over.
  pub esphome_decode_connect_request-message :
      esphome_decode_connect_request fuel (message_bytes fs) (length (message_bytes fs))
      ≡ some (read_fields accept_connect fs (record { password = [] }))
  unfolding esphome_decode_connect_request
  esphome_decode_connect_request-message =
      message_loop-message on_connect_field accept_connect on_connect_field-Handled fs fuel _ _ hs
        enough (Facing-init (message_bytes fs) object) refl

  -- On the bytes of any protobuf message, and with more rounds than the message has fields, the
  -- subscription decoder ends and reads the fields in turn: field 1 as a number gives the flags, cut
  -- to 32 bits, and every other field is passed over.
  pub esphome_decode_subscribe_ble_advertisements-message :
      esphome_decode_subscribe_ble_advertisements fuel
        (message_bytes fs)
        (length (message_bytes fs))
      ≡ some (read_fields accept_subscribe fs (record { flags = 0 }))
  unfolding esphome_decode_subscribe_ble_advertisements
  esphome_decode_subscribe_ble_advertisements-message =
      message_loop-message on_subscribe_field accept_subscribe on_subscribe_field-Handled fs fuel _
        _ hs enough (Facing-init (message_bytes fs) object) refl
