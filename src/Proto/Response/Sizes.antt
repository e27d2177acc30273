-- ===== src/Proto/Response/Sizes.antt =====
-- How long fields are.
use esphome_linux.Base.{ℕ, ◌+◌, ◌*◌, ◌≤◌, ◌≡◌, List, [], ◌∷◌, ◌++◌, arith, length, length-append}
use esphome_linux.Proto.Varint.Encode.{varint, length-varint}
use esphome_linux.Proto.Message.Wire.{Field, text, number, field_bytes, message_bytes}
use esphome_linux.Proto.Response.Sequence.{text_fields, number_fields, message_bytes-append}

pub length-number_fields :
    (n v : ℕ) → let ys = message_bytes (number_fields n v) in (1 ≤ length ys) × (length ys ≤ 20)
length-number_fields n v = omega (
  arith,
  length-append (field_bytes (n, number v)) [],
  length-append (varint (n * 8 + 0)) (varint v),
  length-varint (n * 8 + 0),
  length-varint v,
)

pub length-text_fields :
    (n : ℕ) (s : List ℕ) → length (message_bytes (text_fields n s)) ≤ length s + 20
length-text_fields n [] = omega arith
length-text_fields n (c ∷ cs) =
    let body = varint (length (c ∷ cs)) in
    omega (
      arith,
      length-append (field_bytes (n, text (c ∷ cs))) [],
      length-append (varint (n * 8 + 2)) (body ++ (c ∷ cs)),
      length-append body (c ∷ cs),
      length-varint (n * 8 + 2),
      length-varint (length (c ∷ cs)),
    )

pub length-fields-append :
    (fs gs : List Field)
    → length (message_bytes (fs ++ gs)) ≡ length (message_bytes fs) + length (message_bytes gs)
length-fields-append fs gs =
    rw (message_bytes-append fs gs) (length-append (message_bytes fs) (message_bytes gs))
