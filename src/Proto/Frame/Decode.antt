-- ===== src/Proto/Frame/Decode.antt =====
-- `esphome_decode_frame_header` on any input, and on a frame.
use esphome_linux.Base.{
  ℕ, zero, suc, ◌+◌, ◌-◌, ◌%◌, ◌^◌, ◌≤◌, ◌<◌, true, false, ◌&&◌, arith, List, [], ◌∷◌, ◌≡◌, refl,
  ◌∙◌, take, drop, length, ltb, leb, ◌==◌, if◌then◌else◌, Bool-cases, inl, inr, length-take, Option,
  some, none, drop-drop, drop-take,
}
use esphome_linux.Proto.Buffer.{PbBuffer, IsValid, add_size}
use esphome_linux.Proto.Buffer.Views.{unread}
use esphome_linux.Proto.Varint.{pb_decode_varint}
use esphome_linux.Proto.Varint.Decode.{Scan, scan, moved, scan_bounds, pb_decode_varint-scan}
use esphome_linux.Proto.Frame.{Header, esphome_decode_frame_header}

-- A header that is complete, with all of its payload behind it.
pub record Found : Type 0 where
  pub offset : ℕ
  pub msg_len : ℕ
  pub msg_type : ℕ

unfoldable pub header_of : List ℕ → Option Found
header_of [] = none
header_of (x ∷ xs) =
    let len = scan xs 0 0 in
    let type = scan (drop len.taken xs) 0 0 in
    let offset = 1 + len.taken + type.taken in
    if x == 0 && len.ok && type.ok && leb (offset + len.value % 2 ^ 32) (suc (length xs))
    then some
        (record { offset = offset; msg_len = len.value % 2 ^ 32; msg_type = type.value % 2 ^ 16 })
    else none

-- What the decoder answers where the bytes start with a complete frame, and where not.
abbrev pub Answers : Option Found → Header × ℕ → Type 0
Answers none r = r.1 ≡ 0
Answers (some f) r =
    (r.1 ≡ f.offset) × (r.0 ≡ record { msg_len = f.msg_len; msg_type = f.msg_type })

-- The scans of the decoder are scans of the readable bytes.
unread-moved :
    (b : PbBuffer) (s : Scan)
    → s.taken ≤ b.size - b.pos
    → s.ok ≡ true
    → unread (moved b s).buffer ≡ drop s.taken (unread b)
unread-moved b s h ok =
    let left : b.size - (b.pos + s.taken) ≡ b.size - b.pos - s.taken = omega arith in
    rw
      (
        left,
        ← drop-drop b.pos s.taken b.bytes,
        ← drop-take s.taken (b.size - b.pos) (drop b.pos b.bytes),
      )
      refl

-- The case of a buffer that holds a byte at least.
module _ (x : ℕ) (xs : List ℕ) (k : ℕ) (old : Header) (inside : k ≤ length xs)
    (object : suc (length xs) < 2 ^ 63) where
  abbrev start : PbBuffer
  start = record { bytes = x ∷ xs; size = suc k; pos = 1; error = false }

  abbrev body : List ℕ
  body = take k xs

  abbrev len : Scan
  len = scan body 0 0

  abbrev type : Scan
  type = scan (drop len.taken body) 0 0

  length-body : length body ≡ k
  length-body = omega (arith, length-take k xs)

  start-IsValid : IsValid start
  start-IsValid = omega arith

  unread-start : unread start ≡ body
  unread-start = let e : suc k - 1 ≡ k = omega arith in rw e refl

  len_read : pb_decode_varint start ≡ moved start len
  len_read = pb_decode_varint-scan start start-IsValid ∙ rw unread-start refl

  taken_bounds : (len.taken ≤ k) × (len.taken ≤ 10) × (type.taken ≤ 10)
  taken_bounds =
      let first = scan_bounds body 0 0 0 refl (omega arith) (omega arith) in
      let second = scan_bounds (drop len.taken body) 0 0 0 refl (omega arith) (omega arith) in
      (omega (arith, first, length-body), omega (arith, first), omega (arith, second))

  type_read :
      len.ok ≡ true
      → pb_decode_varint (moved start len).buffer ≡ moved (moved start len).buffer type
  type_read ok =
      pb_decode_varint-scan (moved start len).buffer (omega (arith, taken_bounds))
      ∙ rw (unread-moved start len (omega (arith, taken_bounds)) ok, unread-start) refl

  nonempty_Answers :
      Answers (header_of (x ∷ body)) (esphome_decode_frame_header (x ∷ xs) (suc k) old)
  unfolding esphome_decode_frame_header header_of
  nonempty_Answers = elim (Bool-cases (x == 0)) [
    | inr bad ↦ rw (some_byte, bad) refl
    | inl good ↦ elim (Bool-cases len.ok) [
      | inr cut ↦ rw (some_byte, good, len_read, cut) refl
      | inl ok ↦ elim (Bool-cases type.ok) [
        | inr cut ↦ rw (some_byte, good, len_read, type_read ok, ok, cut) refl
        | inl ok' ↦ rw (some_byte, good, len_read, type_read ok, ok, ok') sized
      ]
    ]
  ]
    where
      some_byte : ltb (suc k) 1 ≡ false
      some_byte = ground arith

      n : ℕ
      n = 1 + len.taken + type.taken

      answer : Header
      answer = record { msg_len = len.value % 2 ^ 32; msg_type = type.value % 2 ^ 16 }

      sized :
          Answers
            (if leb (n + len.value % 2 ^ 32) (suc (length body))
              then some
                  (record { offset = n; msg_len = answer.msg_len; msg_type = answer.msg_type })
              else none)
            (if ltb (suc k) (add_size n answer.msg_len) then (answer, 0) else (answer, n))
      sized = elim (Bool-cases (leb (n + len.value % 2 ^ 32) (suc (length body)))) [
        | inl fits ↦
            let e : ltb (suc k) (add_size n answer.msg_len) ≡ false =
              ground (arith, length-body, taken_bounds, fits) in
            rw (fits, e) (refl, refl)
        | inr long ↦
            let e : ltb (suc k) (add_size n answer.msg_len) ≡ true =
              ground (arith, length-body, taken_bounds, long) in
            rw (long, e) refl
      ]

module _ (buf : List ℕ) (size : ℕ) (old : Header) (inside : size ≤ length buf)
    (object : length buf < 2 ^ 63) where
  pub esphome_decode_frame_header-Answers :
      Answers (header_of (take size buf)) (esphome_decode_frame_header buf size old)
  unfolding esphome_decode_frame_header
  esphome_decode_frame_header-Answers = by_cases buf size inside object
    where
      by_cases :
          (buf : List ℕ) (size : ℕ)
          → size ≤ length buf
          → length buf < 2 ^ 63
          → Answers (header_of (take size buf)) (esphome_decode_frame_header buf size old)
      by_cases buf zero h o = unfold header_of in refl
      by_cases [] (suc k) h o = absurd (omega arith)
      by_cases (x ∷ xs) (suc k) h o = nonempty_Answers x xs k old (omega arith) o
