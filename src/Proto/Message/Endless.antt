-- ===== src/Proto/Message/Endless.antt =====
-- A length at which skipping a field wraps around to the start of the buffer: there the loop of the
-- hello decoder does not end.
use esphome_linux.Base.{
  ℕ, zero, suc, ◌+◌, ◌-◌, ◌*◌, ◌/◌, ◌^◌, ◌≤◌, ◌<◌, ◌≡◌, ◌≢◌, refl, ap, ◌∙◌, true, false, none, List,
  [], ◌++◌, arith, ltb, ◌==◌, length, length-append, append-nil, lt→ltb,
}
use esphome_linux.Proto.Buffer.{PbBuffer, add_size, pb_buffer_init_read}
use esphome_linux.Proto.Varint.Encode.{digits_of, varint, length-varint}
use esphome_linux.Proto.Field.{pb_skip_field}
use esphome_linux.Proto.Field.Encode.{tag}
use esphome_linux.Proto.Field.Decode.{skip, Facing, Facing-skip, decode-varint}
use esphome_linux.Proto.Message.{
  HelloRequest, message_loop, on_hello_field, esphome_decode_hello_request,
}
use esphome_linux.Proto.Message.Wire.{text}
use esphome_linux.Proto.Message.Loop.{tag_parts, Facing-init}
use native.Mathlib.Nat.{pow-suc}

pow-positive : (k : ℕ) → 1 ≤ 128 ^ k
pow-positive zero = omega arith
pow-positive (suc k) = omega (arith, pow-suc 128 k, pow-positive k)

-- A value of at least 63 bits takes ten bytes.
length-digits_of_full : (k v : ℕ) → 128 ^ k ≤ v → length (digits_of k v) ≡ suc k
unfolding digits_of
length-digits_of_full zero v h = refl
length-digits_of_full (suc k) v h =
    let high : ltb 127 v ≡ true = lt→ltb 127 v (omega (arith, pow-suc 128 k, pow-positive k)) in
    rw high (ap suc (length-digits_of_full k (v / 128) (omega (arith, pow-suc 128 k))))

length-varint_full : (v : ℕ) → 2 ^ 63 ≤ v → length (varint v) ≡ 10
unfolding varint
length-varint_full v h = length-digits_of_full 9 v (omega arith)

-- The length that leads back to the start from behind a tag and ten bytes.
abbrev pub wrapping_length : ℕ → ℕ
wrapping_length n = 2 ^ 64 - (length (tag n 2) + 10)

abbrev pub endless_message : ℕ → List ℕ → List ℕ
endless_message n rest = tag n 2 ++ (varint (wrapping_length n) ++ rest)

module _ (n : ℕ) (rest : List ℕ) (small : n < 2 ^ 29) (other : n ≢ 1)
    (object : length rest < 2 ^ 62) where
  abbrev t : List ℕ
  t = tag n 2

  abbrev start : PbBuffer
  start = pb_buffer_init_read (endless_message n rest) (length (endless_message n rest))

  length-t : (1 ≤ length t) × (length t ≤ 10)
  length-t = length-varint (n * 8 + 2)

  length-length : length (varint (wrapping_length n)) ≡ 10
  length-length = length-varint_full (wrapping_length n) (omega (arith, length-t))

  length-message : length (endless_message n rest) ≡ length t + 10 + length rest
  length-message = omega (
    arith,
    length-append t (varint (wrapping_length n) ++ rest),
    length-append (varint (wrapping_length n)) rest,
    length-length,
  )

  facing : Facing t (varint (wrapping_length n) ++ rest) start
  facing =
      let whole = Facing-init (endless_message n rest) (omega (arith, length-message, length-t)) in
      record { valid = whole.valid; ahead = whole.ahead ∙ append-nil (endless_message n rest) }

  skipped : pb_skip_field 2 (skip (length t) start) ≡ (true, start)
  unfolding pb_skip_field
  skipped =
      let len_read =
        decode-varint (wrapping_length n) rest (omega (arith, length-t))
          (Facing-skip t (varint (wrapping_length n)) rest facing) in
      let around : add_size (0 + length t + length (varint (wrapping_length n))) (wrapping_length n)
          ≡ 0 =
        omega (arith, length-length, length-t) in
      let inside : ltb (length (endless_message n rest)) 0 ≡ false = ground arith in
      rw (len_read, around, inside) refl

  round :
      (fuel : ℕ) (msg : HelloRequest)
      → message_loop on_hello_field (suc fuel) msg start
        ≡ message_loop on_hello_field fuel msg start
  unfolding message_loop on_hello_field
  round fuel msg =
      let (wide, number_part, type_part) = tag_parts n (text []) small in
      let more : ltb 0 (length (endless_message n rest)) ≡ true = ground (arith, length-message) in
      let unlike : (n == 1) ≡ false = ground (arith, other) in
      rw
        (
          decode-varint (n * 8 + 2) (varint (wrapping_length n) ++ rest) wide facing,
          more,
          number_part,
          type_part,
          unlike,
          skipped,
        )
        refl

  round_loop : (fuel : ℕ) (msg : HelloRequest) → message_loop on_hello_field fuel msg start ≡ none
  round_loop zero msg = unfold message_loop in refl
  round_loop (suc fuel) msg = round fuel msg ∙ round_loop fuel msg

  -- On a field of any number below 2 ^ 29 but 1, with a length that makes the position wrap around to
  -- 0, and with fewer than 2 ^ 62 bytes behind it, the hello decoder does not end: no number of rounds
  -- is enough.
  pub esphome_decode_hello_request-endless :
      (fuel : ℕ)
      → esphome_decode_hello_request fuel (endless_message n rest) (length (endless_message n rest))
        ≡ none
  unfolding esphome_decode_hello_request
  esphome_decode_hello_request-endless fuel = round_loop fuel (record { client = [] })
