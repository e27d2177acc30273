-- ===== src/Proto/Field/Decode.antt =====
-- The field decoders on the wire form of a field.
use esphome_linux.Base.{
  ℕ, ◌+◌, ◌-◌, ◌%◌, ◌^◌, ◌≤◌, ◌<◌, true, false, arith, List, ◌++◌, ◌≡◌, sym, ap, ◌∙◌, length, take,
  drop, append_assoc, length-append, take-take, drop-take, drop-drop, take-append, drop-append,
}
use esphome_linux.Proto.Buffer.{PbBuffer, add_size, fail, IsValid, IsU64}
use esphome_linux.Proto.Buffer.Views.{unread}
use esphome_linux.Proto.Varint.{pb_decode_varint}
use esphome_linux.Proto.Varint.Encode.{varint}
use esphome_linux.Proto.Varint.Decode.{length-unread}
use esphome_linux.Proto.Varint.RoundTrip.{pb_decode_varint-varint}
use esphome_linux.Proto.Field.{skip_bytes, pb_decode_string, pb_decode_uint32, pb_skip_field}

-- The buffer after `n` bytes.
abbrev pub skip : ℕ → PbBuffer → PbBuffer
skip n b = record b { pos = b.pos + n }

-- The position is in front of `xs` and then `ys`.
pub record Facing (xs ys : List ℕ) (b : PbBuffer) : Type 0 where
  pub valid : IsValid b
  pub ahead : unread b ≡ xs ++ ys

pub Facing-length :
    (xs ys : List ℕ) {b : PbBuffer} → Facing xs ys b → b.pos + length xs + length ys ≡ b.size
Facing-length xs ys {b} f =
    omega (arith, length-unread b f.valid, ap length f.ahead, length-append xs ys, f.valid.within)

pub unread-skip :
    (xs ys : List ℕ) {b : PbBuffer} → Facing xs ys b → unread (skip (length xs) b) ≡ ys
unread-skip xs ys {b} f =
    let left : b.size - (b.pos + length xs) ≡ b.size - b.pos - length xs = omega arith in
    rw
      (
        left,
        ← drop-drop b.pos (length xs) b.bytes,
        ← drop-take (length xs) (b.size - b.pos) (drop b.pos b.bytes),
      )
      (rw f.ahead (drop-append xs ys))

pub Facing-skip :
    (xs ys zs : List ℕ) {b : PbBuffer} → Facing xs (ys ++ zs) b → Facing ys zs (skip (length xs) b)
Facing-skip xs ys zs {b} f = record {
  valid = omega (arith, Facing-length xs (ys ++ zs) f, f.valid);
  ahead = unread-skip xs (ys ++ zs) f;
}

pub take-ahead :
    (xs ys : List ℕ) {b : PbBuffer} → Facing xs ys b → take (length xs) (drop b.pos b.bytes) ≡ xs
take-ahead xs ys {b} f =
    let fits : length xs ≤ b.size - b.pos = omega (arith, Facing-length xs ys f) in
    rw (← take-take (length xs) (b.size - b.pos) (drop b.pos b.bytes) fits, f.ahead)
      (take-append xs ys)

pub decode-varint :
    (v : ℕ) (ys : List ℕ) {b : PbBuffer}
    → IsU64 v
    → Facing (varint v) ys b
    → pb_decode_varint b ≡ record { ok = true; value = v; buffer = skip (length (varint v)) b }
decode-varint v ys {b} h f = pb_decode_varint-varint v ys b h f.valid f.ahead

-- A jump over what is ahead does not wrap.
pub no_wrap :
    (xs ys : List ℕ) {b : PbBuffer}
    → Facing xs ys b
    → add_size b.pos (length xs) ≡ b.pos + length xs
no_wrap xs ys {b} f = omega (arith, Facing-length xs ys f, f.valid.backed, f.valid.object)

-- A text in front of which its length stands.
abbrev pub prefixed : List ℕ → List ℕ
prefixed s = varint (length s) ++ s

module _ (s ys : List ℕ) {b : PbBuffer} (f : Facing (prefixed s) ys b) where
  Facing-prefix : Facing (varint (length s)) (s ++ ys) b
  Facing-prefix = record {
    valid = f.valid;
    ahead = f.ahead ∙ append_assoc (varint (length s)) s ys;
  }

  Facing-text : Facing s ys (skip (length (varint (length s))) b)
  Facing-text = Facing-skip (varint (length s)) s ys Facing-prefix

  length-IsU64 : IsU64 (length s)
  length-IsU64 = omega (
    arith,
    Facing-length (varint (length s)) (s ++ ys) Facing-prefix,
    length-append s ys,
    f.valid.backed,
    f.valid.object,
  )

  prefix_read :
      pb_decode_varint b
      ≡ record { ok = true; value = length s; buffer = skip (length (varint (length s))) b }
  prefix_read = decode-varint (length s) (s ++ ys) length-IsU64 Facing-prefix

  pub whole_length : b.pos + length (varint (length s)) + length s ≡ b.pos + length (prefixed s)
  whole_length = omega (arith, length-append (varint (length s)) s)

  pub pb_decode_string-prefixed :
      (str : List ℕ) (max_len : ℕ)
      → length s < max_len
      → pb_decode_string str max_len b
        ≡ record { ok = true; value = s; buffer = skip (length (prefixed s)) b }
  unfolding pb_decode_string
  pb_decode_string-prefixed str max_len h =
      let b' = skip (length (varint (length s))) b in
      let fits : length s ≤ b'.size - b'.pos = omega (arith, Facing-length s ys Facing-text) in
      rw (prefix_read, no_wrap s ys Facing-text, take-ahead s ys Facing-text)
        (ground (arith, fits, whole_length, Facing-text.valid.within))

  pub pb_decode_string_too_long :
      (str : List ℕ) (max_len : ℕ)
      → max_len ≤ length s
      → pb_decode_string str max_len b
        ≡ record { ok = false; value = str; buffer = fail (skip (length (varint (length s))) b) }
  unfolding pb_decode_string
  pb_decode_string_too_long str max_len h = rw prefix_read (ground arith)

  pub pb_skip_field-prefixed : pb_skip_field 2 b ≡ (true, skip (length (prefixed s)) b)
  unfolding pb_skip_field
  pb_skip_field-prefixed =
      let b' = skip (length (varint (length s))) b in
      let fits : length s ≤ b'.size - b'.pos = omega (arith, Facing-length s ys Facing-text) in
      rw (prefix_read, no_wrap s ys Facing-text)
        (ground (arith, fits, whole_length, Facing-text.valid.within))

pub pb_decode_uint32-varint :
    (old v : ℕ) (ys : List ℕ) {b : PbBuffer}
    → IsU64 v
    → Facing (varint v) ys b
    → pb_decode_uint32 old b
      ≡ record { ok = true; value = v % 2 ^ 32; buffer = skip (length (varint v)) b }
unfolding pb_decode_uint32
pb_decode_uint32-varint old v ys h f = rw (decode-varint v ys h f)

pub pb_skip_field-varint :
    (v : ℕ) (ys : List ℕ) {b : PbBuffer}
    → IsU64 v
    → Facing (varint v) ys b
    → pb_skip_field 0 b ≡ (true, skip (length (varint v)) b)
unfolding pb_skip_field
pb_skip_field-varint v ys h f = rw (decode-varint v ys h f)

skip_bytes-ahead :
    (xs ys : List ℕ) {b : PbBuffer}
    → Facing xs ys b
    → skip_bytes (length xs) b ≡ (true, skip (length xs) b)
skip_bytes-ahead xs ys {b} f =
    rw (no_wrap xs ys f) (ground (arith, Facing-length xs ys f, f.valid.within))

pub pb_skip_field-fixed64 :
    (xs ys : List ℕ) {b : PbBuffer}
    → length xs ≡ 8
    → Facing xs ys b
    → pb_skip_field 1 b ≡ (true, skip (length xs) b)
unfolding pb_skip_field
pb_skip_field-fixed64 xs ys {b} h f = ap (λ n. skip_bytes n b) (sym h) ∙ skip_bytes-ahead xs ys f

pub pb_skip_field-fixed32 :
    (xs ys : List ℕ) {b : PbBuffer}
    → length xs ≡ 4
    → Facing xs ys b
    → pb_skip_field 5 b ≡ (true, skip (length xs) b)
unfolding pb_skip_field
pb_skip_field-fixed32 xs ys {b} h f = ap (λ n. skip_bytes n b) (sym h) ∙ skip_bytes-ahead xs ys f
