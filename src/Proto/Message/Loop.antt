-- ===== src/Proto/Message/Loop.antt =====
-- The loop over the fields of a message.
use esphome_linux.Base.{
  ℕ, zero, suc, ◌+◌, ◌-◌, ◌*◌, ◌/◌, ◌%◌, ◌^◌, ◌<◌, bit_and, true, false, Option, none, some, arith,
  ltb, List, [], ◌∷◌, ◌++◌, ◌≡◌, refl, sym, ap, ◌∙◌, length, All, append_assoc, append-nil, lt→ltb,
  take-length,
}
use esphome_linux.Base.Bits.{bit_and_mask}
use esphome_linux.Proto.Buffer.{PbBuffer, IsU64, pb_buffer_init_read}
use esphome_linux.Proto.Varint.Encode.{length-varint}
use esphome_linux.Proto.Field.Encode.{tag}
use esphome_linux.Proto.Field.{pb_skip_field}
use esphome_linux.Proto.Field.Decode.{
  skip, Facing, Facing-length, Facing-skip, decode-varint, pb_skip_field-prefixed,
  pb_skip_field-varint, pb_skip_field-fixed64, pb_skip_field-fixed32,
}
use esphome_linux.Proto.Message.{OnField, message_loop}
use esphome_linux.Proto.Message.Wire.{
  Content, number, fixed64, text, fixed32, wire_type, payload, Field, IsContent, IsField,
  field_bytes, message_bytes, read_fields,
}

-- The tag of a field splits into its number and its wire type.
pub tag_parts :
    (n : ℕ) (c : Content)
    → n < 2 ^ 29
    → let t = n * 8 + wire_type c in
      (IsU64 t) × (t / 2 ^ 3 % 2 ^ 32 ≡ n) × (bit_and t 0x7 ≡ wire_type c)
tag_parts n c h =
    (omega (arith, small c), omega (arith, small c), bit_and_mask 3 _ ∙ omega (arith, small c))
  where
    small : (c : Content) → wire_type c < 8
    small (number v) = omega arith
    small (fixed64 s) = omega arith
    small (text s) = omega arith
    small (fixed32 s) = omega arith

-- Skipping a field passes over it.
pub pb_skip_field-payload :
    (c : Content) (ys : List ℕ) {b : PbBuffer}
    → IsContent c
    → Facing (payload c) ys b
    → pb_skip_field (wire_type c) b ≡ (true, skip (length (payload c)) b)
pb_skip_field-payload (number v) ys h f = pb_skip_field-varint v ys h f
pb_skip_field-payload (fixed64 s) ys h f = pb_skip_field-fixed64 s ys h f
pb_skip_field-payload (text s) ys h f = pb_skip_field-prefixed s ys f
pb_skip_field-payload (fixed32 s) ys h f = pb_skip_field-fixed32 s ys h f

-- What a handler does where the specification accepts a field, and where it refuses it.
abbrev pub Handled : {M : Type 0} → Option M → M → PbBuffer → ℕ → M × PbBuffer → Type 0
Handled (some msg') msg b n r = r ≡ (msg', skip n b)
Handled none msg b n r = (r.0 ≡ msg) × (r.1.error ≡ true)

module _ {M : Type 0} (on_field : OnField M) (accept : M → Field → Option M)
    (handles : (msg : M) (n : ℕ) (c : Content) (ys : List ℕ) (b : PbBuffer)
      → IsField (n, c)
      → Facing (payload c) ys b
      → Handled
          (accept msg (n, c))
          msg
          b
          (length (payload c))
          (on_field n (wire_type c) msg b)) where
  message_loop-stop :
      (fuel : ℕ) (msg : M) (b : PbBuffer)
      → b.error ≡ true
      → message_loop on_field (suc fuel) msg b ≡ some (false, msg)
  unfolding message_loop
  message_loop-stop fuel msg b e = ground arith

  Facing-tag :
      (n : ℕ) (c : Content) (ys : List ℕ) {b : PbBuffer}
      → Facing (field_bytes (n, c)) ys b
      → Facing (tag n (wire_type c)) (payload c ++ ys) b
  Facing-tag n c ys f = record {
    valid = f.valid;
    ahead = f.ahead ∙ append_assoc (tag n (wire_type c)) (payload c) ys;
  }

  Facing-rest :
      (n : ℕ) (c : Content) (fs : List Field) {b : PbBuffer}
      → Facing (message_bytes ((n, c) ∷ fs)) [] b
      → Facing (field_bytes (n, c)) (message_bytes fs) b
  Facing-rest n c fs f = record { valid = f.valid; ahead = f.ahead ∙ append-nil _ }

  -- One round of the loop takes one field.
  message_loop-field :
      (fuel : ℕ) (msg : M) (n : ℕ) (c : Content) (ys : List ℕ) (b : PbBuffer)
      → IsField (n, c)
      → Facing (field_bytes (n, c)) ys b
      → b.error ≡ false
      → let next = on_field n (wire_type c) msg (skip (length (tag n (wire_type c))) b) in
        message_loop on_field (suc fuel) msg b ≡ message_loop on_field fuel next.0 next.1
  unfolding message_loop
  message_loop-field fuel msg n c ys b h f e =
      let t = tag n (wire_type c) in
      let front : Facing t (payload c ++ ys) b = Facing-tag n c ys f in
      let (small, number_part, type_part) = tag_parts n c h.0 in
      let more : ltb b.pos b.size ≡ true = lt→ltb b.pos b.size (
        omega
          (arith, Facing-length t (payload c ++ ys) front, length-varint (n * 8 + wire_type c))) in
      rw
        (
          decode-varint (n * 8 + wire_type c) (payload c ++ ys) small front,
          more,
          e,
          number_part,
          type_part,
        )
        refl

  read_fields-none :
      (fs : List Field) {f : Field} {msg : M}
      → accept msg f ≡ none
      → read_fields accept (f ∷ fs) msg ≡ (false, msg)
  read_fields-none fs q = rw (q, read_fields)

  read_fields-some :
      (fs : List Field) {f : Field} {msg msg' : M}
      → accept msg f ≡ some msg'
      → read_fields accept (f ∷ fs) msg ≡ read_fields accept fs msg'
  read_fields-some fs q = rw (q, read_fields)

  pub message_loop-message :
      (fs : List Field) (fuel : ℕ) (msg : M) (b : PbBuffer)
      → All IsField fs
      → length fs < fuel
      → Facing (message_bytes fs) [] b
      → b.error ≡ false
      → message_loop on_field fuel msg b ≡ some (read_fields accept fs msg)
  message_loop-message fs zero msg b h hf f e = absurd (omega arith)
  message_loop-message [] (suc fuel) msg b h hf f e =
      unfold message_loop in ground (arith, Facing-length [] [] f)
  message_loop-message ((n, c) ∷ fs) (suc fuel) msg b (h, hs) hf f e =
      message_loop-field fuel msg n c (message_bytes fs) b h (Facing-rest n c fs f) e
      ∙ go (accept msg (n, c)) refl
          (λ m b g e. message_loop-message fs fuel m b hs (omega arith) g e)
    where
      t : List ℕ
      t = tag n (wire_type c)

      b' : PbBuffer
      b' = skip (length t) b

      facing : Facing (payload c) (message_bytes fs) b'
      facing =
          Facing-skip t (payload c) (message_bytes fs)
            (Facing-tag n c (message_bytes fs) (Facing-rest n c fs f))

      next : M × PbBuffer
      next = on_field n (wire_type c) msg b'

      handled : Handled (accept msg (n, c)) msg b' (length (payload c)) next
      handled = handles msg n c (message_bytes fs) b' h facing

      go :
          (o : Option M)
          → accept msg (n, c) ≡ o
          → ((m : M) (b : PbBuffer)
              → Facing (message_bytes fs) [] b
              → b.error ≡ false
              → message_loop on_field fuel m b ≡ some (read_fields accept fs m))
          → message_loop on_field fuel next.0 next.1 ≡ some (read_fields accept ((n, c) ∷ fs) msg)
      go none q ih =
          let refused : (next.0 ≡ msg) × (next.1.error ≡ true) = rw q at handled in
          let round : fuel ≡ suc (fuel - 1) = omega arith in
          rw round (message_loop-stop (fuel - 1) next.0 next.1 refused.1)
          ∙ ap (λ m. some (false, m)) refused.0
          ∙ ap some (sym (read_fields-none fs q))
      go (some msg') q ih =
          let passed : next ≡ (msg', skip (length (payload c)) b') = rw q at handled in
          let ahead : Facing (message_bytes fs) [] (skip (length (payload c)) b') =
            Facing-skip (payload c) (message_bytes fs) [] (record {
              valid = facing.valid;
              ahead = facing.ahead ∙ ap (λ t. payload c ++ t) (sym (append-nil (message_bytes fs)));
            }) in
          ap (λ (r : M × PbBuffer). message_loop on_field fuel r.0 r.1) passed
          ∙ ih msg' (skip (length (payload c)) b') ahead e
          ∙ ap some (sym (read_fields-some fs q))

-- A buffer that holds a message and nothing else.
pub Facing-init :
    (buf : List ℕ) → length buf < 2 ^ 63 → Facing buf [] (pb_buffer_init_read buf (length buf))
Facing-init buf h = record {
  valid = omega arith;
  ahead =
      let e : length buf - 0 ≡ length buf = omega arith in
      rw e (take-length (length buf) buf (omega arith) ∙ sym (append-nil buf));
}
