-- ===== src/Proto/Varint/RoundTrip.antt =====
-- Decoding what was encoded.
use esphome_linux.Base.{
  sym, ℕ, zero, suc, ◌+◌, ◌*◌, ◌/◌, ◌%◌, ◌^◌, ◌≤◌, ◌<◌, true, arith, ltb, List, ◌∷◌, ◌++◌, ◌≡◌, ap,
  ◌∙◌, length, Bool-cases, ltb→lt, ltb→le, dec_lt, inl, inr,
}
use esphome_linux.Base.Bits.{bit_and_mask, bit_and_power, bit_or_disjoint}
use esphome_linux.Proto.Buffer.{PbBuffer, IsValid, IsU64}
use esphome_linux.Proto.Buffer.Views.{unread}
use esphome_linux.Proto.Varint.{or_group, pb_decode_varint}
use esphome_linux.Proto.Varint.Encode.{digits_of, varint}
use esphome_linux.Proto.Varint.Decode.{scan, pb_decode_varint-scan}
use native.Mathlib.Numerals.{towards_suc}
use native.Mathlib.Nat.{div-add-mod, mod-eq_of_lt, pow-le-pow_right, mul-le-mul_right}

-- `|` puts a digit above the digits that are there.
or_group_digit :
    (value byte shift : ℕ)
    → value < 2 ^ shift
    → byte % 128 * 2 ^ shift < 2 ^ 64
    → or_group value byte shift ≡ value + byte % 128 * 2 ^ shift
or_group_digit value byte shift hv fits =
    rw (bit_and_mask 7 byte, mod-eq_of_lt fits) (bit_or_disjoint shift value (byte % 128) hv)

shift_seven : (s : ℕ) → 2 ^ (s + 7) ≡ 128 * 2 ^ s
shift_seven s = simp towards_suc (omega arith)

-- A digit above shift 56 leaves no room for another one.
shift_room : (s : ℕ) → 128 * 2 ^ s < 2 ^ 64 → s + 7 ≤ 63
shift_room s h = elim (dec_lt (s + 7) 64) [
  | yes p ↦ omega arith
  | no p ↦ absurd (
      omega (
        arith,
        shift_seven s,
        pow-le-pow_right {n = 2} (omega arith) {i = 64} {j = s + 7} (omega arith),
      ))
]

-- One byte of a scan: the last of a number, and one that is marked.
scan_last :
    (w value shift : ℕ) (rest : List ℕ)
    → w < 128
    → value < 2 ^ shift
    → value + w * 2 ^ shift < 2 ^ 64
    → scan (w ∷ rest) value shift ≡ record { ok = true; value = value + w * 2 ^ shift; taken = 1 }
unfolding scan
scan_last w value shift rest hw hv fits =
    let small : w % 128 ≡ w = omega arith in
    let step : or_group value w shift ≡ value + w * 2 ^ shift =
      rw small at (or_group_digit value w shift hv (rw small (omega arith))) in
    ground (arith, step, bit_and_power 7 w)

scan_marked :
    (digit value shift : ℕ) (rest : List ℕ)
    → digit < 128
    → value < 2 ^ shift
    → shift + 7 ≤ 63
    → digit * 2 ^ shift < 2 ^ 64
    → let more = scan rest (value + digit * 2 ^ shift) (shift + 7) in
      scan ((digit + 128) ∷ rest) value shift
      ≡ record { ok = more.ok; value = more.value; taken = suc more.taken }
unfolding scan
scan_marked digit value shift rest hd hv hs fits =
    let small : (digit + 128) % 128 ≡ digit = omega arith in
    let step : or_group value (digit + 128) shift ≡ value + digit * 2 ^ shift =
      rw small at (or_group_digit value (digit + 128) shift hv (rw small fits)) in
    ground (arith, step, bit_and_power 7 (digit + 128))

-- A value in units of weight `p` is its last digit and the rest in units of 128 times the weight.
split_weight : (w p : ℕ) → w % 128 * p + w / 128 * (128 * p) ≡ w * p
split_weight w p = omega (arith, ap (λ (k : ℕ). k * p) (div-add-mod w 128))

split_digit : (w s : ℕ) → w * 2 ^ s ≡ w % 128 * 2 ^ s + w / 128 * 2 ^ (s + 7)
split_digit w s = rw (shift_seven s) (sym (split_weight w (2 ^ s)))

pub scan-digits_of :
    (k w value shift : ℕ) (rest : List ℕ)
    → w < 128 ^ suc k
    → value < 2 ^ shift
    → value + w * 2 ^ shift < 2 ^ 64
    → scan (digits_of k w ++ rest) value shift
      ≡ record { ok = true; value = value + w * 2 ^ shift; taken = length (digits_of k w) }
unfolding digits_of
scan-digits_of zero w value shift rest hw hv fits = scan_last w value shift rest hw hv fits
scan-digits_of (suc k) w value shift rest hw hv fits = elim (Bool-cases (ltb 127 w)) [
  | inr low ↦ rw low (scan_last w value shift rest (omega (arith, ltb→le 127 w low)) hv fits)
  | inl high ↦
      let big : 128 * 2 ^ shift ≤ w * 2 ^ shift =
        mul-le-mul_right (2 ^ shift) (ltb→lt 127 w high) in
      let room : shift + 7 ≤ 63 = shift_room shift (omega arith) in
      let digit : w % 128 * 2 ^ shift ≤ 127 * 2 ^ shift =
        mul-le-mul_right (2 ^ shift) (omega arith) in
      rw
        (
          high,
          scan_marked (w % 128) value shift (digits_of k (w / 128) ++ rest) (omega arith) hv room
              (omega arith),
          scan-digits_of k (w / 128) (value + w % 128 * 2 ^ shift) (shift + 7) rest (omega arith)
              (omega (arith, shift_seven shift)) (omega (arith, split_digit w shift)),
        )
        (ground (arith, split_digit w shift))
]

pub scan-varint :
    (value : ℕ) (rest : List ℕ)
    → IsU64 value
    → scan (varint value ++ rest) 0 0
      ≡ record { ok = true; value = value; taken = length (varint value) }
unfolding varint
scan-varint value rest h =
    scan-digits_of 9 value 0 0 rest (omega arith) (omega arith) (omega arith) ∙ ground arith

-- In a valid buffer whose unread bytes start with the encoding of a 64-bit value, the decoder returns
-- that value, whatever follows, and stops right behind it.
pub pb_decode_varint-varint :
    (value : ℕ) (rest : List ℕ) (b : PbBuffer)
    → IsU64 value
    → IsValid b
    → unread b ≡ varint value ++ rest
    → pb_decode_varint b ≡ record {
      ok = true;
      value = value;
      buffer = record b { pos = b.pos + length (varint value) };
    }
pb_decode_varint-varint value rest b h v e =
    rw (pb_decode_varint-scan b v, e, scan-varint value rest h)
