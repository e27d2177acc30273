-- ===== src/Proto/Varint/Decode.antt =====
-- `pb_decode_varint` on any input: it is a scan of the bytes that are left.
use esphome_linux.Base.{
  ℕ, zero, suc, ◌+◌, ◌-◌, ◌*◌, ◌≤◌, ◌<◌, bit_and, Bool, true, false, arith, ltb, ◌==◌,
  if◌then◌else◌, get_or, List, [], ◌∷◌, ◌≡◌, refl, length, take, drop, length-take, length-drop,
}
use esphome_linux.Base.Bits.{bit_or-lt}
use esphome_linux.Proto.Buffer.{PbBuffer, IsValid, IsU64}
use esphome_linux.Proto.Buffer.Views.{unread}
use esphome_linux.Proto.Varint.{Decoded, or_group, decode_rounds, pb_decode_varint}

-- What a scan of a list finds: whether the number ended, its value, the bytes taken.
pub record Scan : Type 0 where
  pub ok : Bool
  pub value : ℕ
  pub taken : ℕ

unfoldable pub scan : List ℕ → ℕ → ℕ → Scan
scan [] value shift = record { ok = false; value = value; taken = 0 }
scan (byte ∷ bytes) value shift =
    let value' = or_group value byte shift in
    let rest = scan bytes value' (shift + 7) in
    if bit_and byte 0x80 == 0
    then record { ok = true; value = value'; taken = 1 }
    else if ltb 63 (shift + 7)
    then record { ok = false; value = value'; taken = 1 }
    else record { ok = rest.ok; value = rest.value; taken = suc rest.taken }

-- The decoder's answer for a scan of what is left.
abbrev pub moved : PbBuffer → Scan → Decoded ℕ
moved b s = record {
  ok = s.ok;
  value = s.value;
  buffer = record b { pos = b.pos + s.taken; error = if s.ok then b.error else true };
}

pub drop-cons {ℓ} :
    {A : Type ℓ} (xs : List A) (i : ℕ) (d : A)
    → i < length xs
    → drop i xs ≡ get_or xs i d ∷ drop (i + 1) xs
drop-cons [] i d h = absurd (omega arith)
drop-cons (x ∷ xs) zero d h = refl
drop-cons (x ∷ xs) (suc i) d h =
    let e : suc i + 1 ≡ suc (i + 1) = omega arith in rw e (drop-cons xs i d (omega arith))

pub length-unread : (b : PbBuffer) → IsValid b → length (unread b) ≡ b.size - b.pos
length-unread b v =
    omega (arith, length-take (b.size - b.pos) (drop b.pos b.bytes), length-drop b.pos b.bytes)

decode_rounds-scan :
    (left : ℕ) (b : PbBuffer) (value shift : ℕ)
    → b.pos + left ≤ length b.bytes
    → decode_rounds left b value shift ≡ moved b (scan (take left (drop b.pos b.bytes)) value shift)
unfolding decode_rounds scan
decode_rounds-scan zero b value shift h = ground arith
decode_rounds-scan (suc left) b value shift h =
    let byte = get_or b.bytes b.pos 0 in
    let value' = or_group value byte shift in
    rw (drop-cons b.bytes b.pos 0 (omega arith)) (
      ground (
        arith,
        decode_rounds-scan left (record b { pos = b.pos + 1 }) value' (shift + 7) (omega arith),
      ))

pub pb_decode_varint-scan :
    (b : PbBuffer) → IsValid b → pb_decode_varint b ≡ moved b (scan (unread b) 0 0)
unfolding pb_decode_varint
pb_decode_varint-scan b v = decode_rounds-scan (b.size - b.pos) b 0 0 (omega arith)

pub or_group-lt : (value byte shift : ℕ) → IsU64 value → IsU64 (or_group value byte shift)
or_group-lt value byte shift h = bit_or-lt 64 value _ h (omega arith)

-- After `j` bytes the shift is 7 * j, and it never passes 63.
pub scan_bounds :
    (bytes : List ℕ) (value shift j : ℕ)
    → shift ≡ 7 * j
    → j ≤ 9
    → IsU64 value
    → IsU64 (scan bytes value shift).value
      × ((scan bytes value shift).taken ≤ length bytes)
      × ((scan bytes value shift).taken + j ≤ 10)
unfolding scan
scan_bounds [] value shift j hs hj hv = omega arith
scan_bounds (byte ∷ bytes) value shift j hs hj hv = ground (
  arith,
  or_group-lt value byte shift hv,
  scan_bounds bytes (or_group value byte shift) (shift + 7) (j + 1),
)

pub scan-ok-taken :
    (bytes : List ℕ) (value shift : ℕ)
    → (scan bytes value shift).ok ≡ true
    → 1 ≤ (scan bytes value shift).taken
unfolding scan
scan-ok-taken [] value shift h = cc
scan-ok-taken (byte ∷ bytes) value shift h = ground arith

-- On every valid buffer the decoder ends with a 64-bit value inside the buffer, at most ten bytes on; a
-- number that ends takes a byte at least, and a failure is recorded in the error flag.
pub pb_decode_varint_bounds :
    (b : PbBuffer)
    → IsValid b
    → let r = pb_decode_varint b in
      IsU64 r.value
      × (b.pos ≤ r.buffer.pos)
      × (r.buffer.pos ≤ b.pos + 10)
      × IsValid r.buffer
      × (r.ok ≡ true → (b.pos < r.buffer.pos) × (r.buffer.error ≡ b.error))
      × (r.ok ≡ false → r.buffer.error ≡ true)
pb_decode_varint_bounds b v = rw (pb_decode_varint-scan b v) (
  omega (arith, bounds),
  omega (arith, bounds),
  omega (arith, bounds),
  omega (arith, bounds, length-unread b v),
  (λ e. (omega (arith, scan-ok-taken (unread b) 0 0 e), rw e)),
  (λ e. rw e),
)
  where
    bounds :
        IsU64 (scan (unread b) 0 0).value
        × ((scan (unread b) 0 0).taken ≤ length (unread b))
        × ((scan (unread b) 0 0).taken + 0 ≤ 10)
    bounds = scan_bounds (unread b) 0 0 0 refl (omega arith) (omega arith)
