-- ===== src/Proto/Frame/Prefix.antt =====
-- Headers in a stream: what follows a frame does not matter, and a part of a frame has no header.
use esphome_linux.Base.{
  ℕ, zero, suc, ◌+◌, ◌%◌, ◌^◌, ◌≤◌, true, arith, List, [], ◌∷◌, ◌++◌, ◌≡◌, refl, sym, ap, ◌∙◌, drop,
  length, length-append, some, append_assoc, drop-append, le→leb, ==_iff,
}
use esphome_linux.Proto.Buffer.{IsU16, IsU32}
use esphome_linux.Proto.Varint.{or_group}
use esphome_linux.Proto.Varint.Encode.{varint}
use esphome_linux.Proto.Varint.Decode.{Scan, scan, scan_bounds}
use esphome_linux.Proto.Varint.RoundTrip.{scan-varint}
use esphome_linux.Proto.Frame.Encode.{frame, frame_header}
use esphome_linux.Proto.Frame.Decode.{Found, header_of}

-- A scan that ended does not look further.
scan-append :
    (xs ys : List ℕ) (value shift : ℕ)
    → (scan xs value shift).ok ≡ true
    → scan (xs ++ ys) value shift ≡ scan xs value shift
unfolding scan
scan-append [] ys value shift h = cc
scan-append (x ∷ xs) ys value shift h =
    ground (arith, scan-append xs ys (or_group value x shift) (shift + 7))

pub drop-append_le {ℓ} :
    {A : Type ℓ} (n : ℕ) (xs ys : List A) → n ≤ length xs → drop n (xs ++ ys) ≡ drop n xs ++ ys
drop-append_le zero xs ys h = refl
drop-append_le (suc n) [] ys h = absurd (omega arith)
drop-append_le (suc n) (x ∷ xs) ys h = drop-append_le n xs ys (omega arith)

-- The scans behind a header, and the header from its scans.
len_scan : List ℕ → Scan
len_scan xs = scan xs 0 0

type_scan : List ℕ → Scan
unfolding len_scan
type_scan xs = scan (drop (len_scan xs).taken xs) 0 0

abbrev found : List ℕ → Found
found xs = record {
  offset = 1 + (len_scan xs).taken + (type_scan xs).taken;
  msg_len = (len_scan xs).value % 2 ^ 32;
  msg_type = (type_scan xs).value % 2 ^ 16;
}

record Parts (x : ℕ) (xs : List ℕ) : Type 0 where
  preamble : x ≡ 0
  len_ok : (len_scan xs).ok ≡ true
  type_ok : (type_scan xs).ok ≡ true
  fits : (found xs).offset + (found xs).msg_len ≤ suc (length xs)

header-Parts :
    (x : ℕ) (xs : List ℕ) {f : Found} → header_of (x ∷ xs) ≡ some f → Parts x xs × (f ≡ found xs)
unfolding header_of type_scan
header-Parts x xs h = ground arith

header_of-Parts : (x : ℕ) (xs : List ℕ) → Parts x xs → header_of (x ∷ xs) ≡ some (found xs)
unfolding header_of type_scan
header_of-Parts x xs p = rw ((==_iff x 0).1 p.preamble, p.len_ok, p.type_ok, le→leb _ _ p.fits) refl

-- What a header that was found says of the bytes.
pub record IsHeader (bytes : List ℕ) (f : Found) : Type 0 where
  pub nonempty : 1 ≤ f.offset
  pub complete : f.offset + f.msg_len ≤ length bytes
  pub short_header : f.offset ≤ 21

len_scan-le : (xs : List ℕ) → ((len_scan xs).taken ≤ length xs) × ((len_scan xs).taken ≤ 10)
unfolding len_scan
len_scan-le xs =
    let bounds = scan_bounds xs 0 0 0 refl (omega arith) (omega arith) in
    (omega (arith, bounds), omega (arith, bounds))

type_scan-le : (xs : List ℕ) → (type_scan xs).taken ≤ 10
unfolding type_scan
type_scan-le xs =
    omega (arith, scan_bounds (drop (len_scan xs).taken xs) 0 0 0 refl (omega arith) (omega arith))

pub header_of-IsHeader : (bytes : List ℕ) {f : Found} → header_of bytes ≡ some f → IsHeader bytes f
header_of-IsHeader [] h = unfold header_of in cc
header_of-IsHeader (x ∷ xs) {f} h =
    let (p, e) = header-Parts x xs h in
    rw e (record {
      nonempty = omega arith;
      complete = p.fits;
      short_header = omega (arith, len_scan-le xs, type_scan-le xs);
    })

len_scan-append : {x : ℕ} (xs back : List ℕ) → Parts x xs → len_scan (xs ++ back) ≡ len_scan xs
unfolding len_scan
len_scan-append xs back p = scan-append xs back 0 0 p.len_ok

type_scan-append : {x : ℕ} (xs back : List ℕ) → Parts x xs → type_scan (xs ++ back) ≡ type_scan xs
type_scan-append xs back p =
    unfold type_scan in
    rw (len_scan-append xs back p, drop-append_le (len_scan xs).taken xs back (len_scan-le xs).0)
      (scan-append (drop (len_scan xs).taken xs) back 0 0 p.type_ok)

pub header_of-append :
    (front back : List ℕ) {f : Found}
    → header_of front ≡ some f
    → header_of (front ++ back) ≡ some f
header_of-append [] back h = unfold header_of in cc
header_of-append (x ∷ xs) back {f} h =
    let (p, e) = header-Parts x xs h in
    let len_same : len_scan (xs ++ back) ≡ len_scan xs = len_scan-append xs back p in
    let type_same : type_scan (xs ++ back) ≡ type_scan xs = type_scan-append xs back p in
    let same : found (xs ++ back) ≡ found xs = rw (len_same, type_same) refl in
    header_of-Parts x (xs ++ back) (record {
      preamble = p.preamble;
      len_ok = rw len_same p.len_ok;
      type_ok = rw type_same p.type_ok;
      fits = rw (len_same, type_same) (omega (arith, p.fits, length-append xs back));
    })
    ∙ ap some (same ∙ sym e)

-- The bytes behind the preamble of a frame.
module _ (t : ℕ) (p rest : List ℕ) (ht : IsU16 t) (hp : IsU32 (length p)) where
  abbrev tail_bytes : List ℕ
  tail_bytes = (varint (length p) ++ (varint t ++ p)) ++ rest

  shape : tail_bytes ≡ varint (length p) ++ (varint t ++ (p ++ rest))
  shape = simp append_assoc

  len_read :
      len_scan tail_bytes
      ≡ record { ok = true; value = length p; taken = length (varint (length p)) }
  unfolding len_scan
  len_read = rw shape (scan-varint (length p) (varint t ++ (p ++ rest)) (omega arith))

  type_read : type_scan tail_bytes ≡ record { ok = true; value = t; taken = length (varint t) }
  type_read =
      unfold type_scan in
      rw (len_read, shape, drop-append (varint (length p)) (varint t ++ (p ++ rest)))
        (scan-varint t (p ++ rest) (omega arith))

  length-tail_bytes :
      length tail_bytes ≡ length (varint (length p)) + length (varint t) + length p + length rest
  length-tail_bytes = rw shape (
      omega (
        arith,
        length-append (varint (length p)) (varint t ++ (p ++ rest)),
        length-append (varint t) (p ++ rest),
        length-append p rest,
      ))

  -- A frame is found whatever follows it.
  pub header_of-frame :
      header_of (frame t p ++ rest)
      ≡ some
          (record { offset = length (frame_header t (length p)); msg_len = length p; msg_type = t })
  header_of-frame =
      header_of-Parts 0x00 tail_bytes (record {
        preamble = refl;
        len_ok = rw len_read refl;
        type_ok = rw type_read refl;
        fits = rw (len_read, type_read) (omega (arith, length-tail_bytes));
      })
      ∙ rw (len_read, type_read) (ground (arith, length-append (varint (length p)) (varint t)))
