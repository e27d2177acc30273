-- ===== src/Proto/Varint/Encode.antt =====
-- `pb_encode_varint` appends the base-128 digits of its argument, or fails.
use esphome_linux.Base.{
  ℕ, zero, suc, ◌+◌, ◌/◌, ◌%◌, ◌^◌, ◌≤◌, ◌<◌, bit_and, bit_or, Bool, true, false, arith, ltb, leb,
  if◌then◌else◌, dec_lt, List, [], ◌∷◌, ◌≡◌, length, Bool-cases, inl, inr, leb→le, leb→lt, lt→ltb,
  le→ltb,
}
use esphome_linux.Base.Bits.{bit_and_mask, bit_or_disjoint}
use esphome_linux.Proto.Buffer.{PbBuffer, fail, put_byte, IsU64}
use esphome_linux.Proto.Buffer.Views.{Wrote, Wrote-fail, Wrote-put_byte, Wrote-trans, Writes}
use esphome_linux.Proto.Varint.{shift_shrinks, encode_rounds, pb_encode_varint}
use mathlib.Core.WellFounded.{Acc}
use mathlib.Core.Logic.{dif_pos, dif_neg}
use native.Mathlib.Bridge.{le_prop}
use esphome_linux.Base.Order.{lt_wf}

-- The digits of `v` in base 128, lowest first, at most `k + 1` of them, all but the last marked by
-- the top bit.
unfoldable pub digits_of : ℕ → ℕ → List ℕ
digits_of zero v = v ∷ []
digits_of (suc k) v =
    let higher = digits_of k (v / 128) in if ltb 127 v then (v % 128 + 128) ∷ higher else v ∷ []

-- The wire form of a 64-bit value: ten digits are enough.
unfoldable pub varint : ℕ → List ℕ
unfolding digits_of
varint v = digits_of 9 v

pub marked_digit : (v : ℕ) → bit_or (bit_and v 0x7F) 0x80 % 256 ≡ v % 128 + 128
marked_digit v = rw (bit_and_mask 7 v) (omega (arith, bit_or_disjoint 7 (v % 128) 1 (omega arith)))

last_digit : (v : ℕ) → v < 128 → bit_and v 0x7F % 256 ≡ v
last_digit v h = rw (bit_and_mask 7 v) (omega arith)

pub length-digits_of : (k v : ℕ) → (1 ≤ length (digits_of k v)) × (length (digits_of k v) ≤ k + 1)
unfolding digits_of
length-digits_of zero v = omega arith
length-digits_of (suc k) v = ground (arith, length-digits_of k (v / 128))

pub length-varint : (v : ℕ) → (1 ≤ length (varint v)) × (length (varint v) ≤ 10)
unfolding varint
length-varint v = length-digits_of 9 v

-- One byte, or the failure of a full buffer.
one_byte-Writes :
    (y : ℕ)
    → Writes (λ b. if leb b.size b.pos then (false, fail b) else (true, put_byte b y)) (y ∷ [])
one_byte-Writes y b valid = elim (Bool-cases (leb b.size b.pos)) [
  | inl full ↦ rw full (Wrote-fail (y ∷ []) b valid (omega (arith, leb→le b.size b.pos)))
  | inr room ↦ rw room (Wrote-put_byte y b valid (omega (arith, leb→lt b.size b.pos)))
]

-- One byte and then more of them.
more_bytes-Writes :
    (m : PbBuffer → Bool × PbBuffer) (y : ℕ) (ys : List ℕ)
    → Writes m ys
    → Writes (λ b. if leb b.size b.pos then (false, fail b) else m (put_byte b y)) (y ∷ ys)
more_bytes-Writes m y ys rest b valid = elim (Bool-cases (leb b.size b.pos)) [
  | inl full ↦ rw full (Wrote-fail (y ∷ ys) b valid (omega (arith, leb→le b.size b.pos)))
  | inr room ↦
      let first : Wrote (y ∷ []) b true (put_byte b y) =
        Wrote-put_byte y b valid (omega (arith, leb→lt b.size b.pos)) in
      rw room (Wrote-trans (y ∷ []) ys first (rest (put_byte b y) first.appended.valid))
]

encode_rounds-digits_of :
    (k v : ℕ) (w : Acc ◌<◌ v) → v < 128 ^ suc k → Writes (λ b. encode_rounds b v w) (digits_of k v)
unfolding encode_rounds digits_of
encode_rounds-digits_of zero v (Acc.intro _ smaller) h b valid =
    rw (dif_neg (dec_lt 127 v) (omega arith), last_digit v (omega arith))
      (one_byte-Writes v b valid)
encode_rounds-digits_of (suc k) v (Acc.intro _ smaller) h b valid = elim (dec_lt 0x7F v) [
  | yes more ↦
      let w : Acc ◌<◌ (v / 128) = smaller (v / 128) (shift_shrinks v more) in
      rw (dif_pos (dec_lt 127 v) le_prop more, lt→ltb 127 v more, marked_digit v)
        (more_bytes-Writes (λ b. encode_rounds b (v / 128) w) _ _
          (encode_rounds-digits_of k (v / 128) w (omega arith)) b valid)
  | no last ↦
      rw (dif_neg (dec_lt 127 v) last, le→ltb 127 v (omega arith), last_digit v (omega arith))
        (one_byte-Writes v b valid)
]

-- On every 64-bit value and valid buffer, the encoder appends `varint value` if that fits, and fails
-- and sets the error flag if it does not.
pub pb_encode_varint-Writes :
    (value : ℕ) → IsU64 value → Writes (pb_encode_varint value) (varint value)
unfolding pb_encode_varint varint
pb_encode_varint-Writes value h b valid =
    encode_rounds-digits_of 9 value (lt_wf.apply value) (omega arith) b valid
