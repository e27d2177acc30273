-- ===== src/Proto/Advertisements/Encode.antt =====
-- The encoding of a batch of advertisements.
use esphome_linux.Base.{
  ℕ, ◌*◌, ◌^◌, ◌≤◌, ◌<◌, min, ◌≡◌, refl, sym, ◌∙◌, Bool-cases, inl, inr, Bool, true, false, none,
  List, [], ◌∷◌, ◌++◌, All, arith, ltb, length, take, length-take, length-append, uninitialised,
  length-uninitialised,
}
use esphome_linux.Proto.Buffer.{PbBuffer, add_size, IsValid, pb_buffer_init_write}
use esphome_linux.Proto.Buffer.Views.{
  Appends, Appends-trans, Appends-fail, Appends-put_bytes, Wrote-nothing, written, emit,
  emit-append,
}
use esphome_linux.Proto.WireType
use esphome_linux.Proto.Varint.{pb_encode_varint}
use esphome_linux.Proto.Varint.Encode.{varint, length-varint, pb_encode_varint-Writes}
use esphome_linux.Proto.Field.{pb_field_tag, and_then}
use esphome_linux.Proto.Field.Encode.{tag, tag-Writes}
use esphome_linux.Proto.Message.Wire.{text, field_bytes, message_bytes}
use esphome_linux.Proto.Response.{BleAdvertisement, BleAdvertisementsResponse, max_adv_batch}
use esphome_linux.Proto.Response.Sequence.{IsEncoding, Appends-IsEncoding}
use esphome_linux.Proto.Advertisements.{
  encode_advertisement, put_nested, put_advertisement, advertisement_loop, batch,
  esphome_encode_ble_advertisements,
}
use esphome_linux.Proto.Advertisements.Fields.{
  IsAdvertisement, advertisement_bytes, batch_fields, encode_advertisement-WritesFields,
  length-advertisement_bytes,
}

-- What a step of the loop leaves: the text is appended, or the function returns 0 with the error
-- flag set.
record Puts (ys : List ℕ) (b : PbBuffer) (ok : Bool) (b' : PbBuffer) : Type 0 where
  flagged : ok ≡ false → b'.error ≡ true
  appended : Appends ys b b'

put_nested-Puts :
    (ys : List ℕ) (b : PbBuffer)
    → length ys < 2 ^ 63
    → IsValid b
    → Puts (field_bytes (1, text ys)) b (put_nested ys b).0 (put_nested ys b).1
unfolding put_nested
put_nested-Puts ys b hy v =
    let tagged = (tag-Writes 1 2 (omega arith) (omega arith) b v).appended in
    let b1 = (pb_encode_varint (pb_field_tag 1 WireType.length_delimited) b).1 in
    let sized = (pb_encode_varint-Writes (length ys) (omega arith) b1 tagged.valid).appended in
    let b2 = (pb_encode_varint (length ys) b1).1 in
    elim (Bool-cases (ltb b2.size (add_size b2.pos (length ys)))) [
      | inl long ↦
          let stops = Appends-fail ys b2 sized.valid (ground (arith, sized.valid)) in
          rw long (record {
            flagged = λ e. refl;
            appended =
                Appends-trans (tag 1 2) (varint (length ys) ++ ys) tagged
                  (Appends-trans (varint (length ys)) ys sized stops);
          })
      | inr fits ↦
          let copied = Appends-put_bytes ys b2 sized.valid (ground (arith, sized.valid)) in
          rw fits (record {
            flagged = λ e. cc;
            appended =
                Appends-trans (tag 1 2) (varint (length ys) ++ ys) tagged
                  (Appends-trans (varint (length ys)) ys sized copied);
          })
    ]

put_advertisement-Puts :
    (adv : BleAdvertisement) (b : PbBuffer)
    → IsAdvertisement adv
    → IsValid b
    → Puts
        (field_bytes (1, text (advertisement_bytes adv)))
        b
        (put_advertisement adv b).0
        (put_advertisement adv b).1
unfolding put_advertisement
put_advertisement-Puts adv b h v =
    let room = length-uninitialised 256 in
    let start = pb_buffer_init_write (uninitialised 256) 256 in
    let v0 : IsValid start = record {
      within = omega arith;
      backed = omega (arith, room);
      object = omega (arith, room);
    } in
    let adv_pb = (encode_advertisement adv start).1 in
    let wrote = encode_advertisement-WritesFields adv h start v0 in
    let size = length-advertisement_bytes adv h in
    let ok : (encode_advertisement adv start).0 ≡ true = wrote.told ∙ ground arith in
    let clean : adv_pb.error ≡ false = (wrote.moved ok).1 in
    let whole : take adv_pb.pos adv_pb.bytes ≡ advertisement_bytes adv =
      ground (arith, wrote.appended.text) in
    rw (ok, clean, whole) (put_nested-Puts (advertisement_bytes adv) b (omega arith) v)

-- Once the error flag is set, what follows changes nothing.
Appends-stop :
    (xs ys : List ℕ) {a b : PbBuffer} → Appends xs a b → b.error ≡ true → Appends (xs ++ ys) a b
Appends-stop xs ys {a} {b} p e =
    let failed : emit a.size xs (written a) ≡ none = sym p.text ∙ rw e refl in
    let later : emit a.size (xs ++ ys) (written a) ≡ none =
      sym (emit-append a.size xs ys (written a)) ∙ rw failed refl in
    record { valid = p.valid; same_size = p.same_size; text = rw e (sym later) }

advertisement_loop-Puts :
    (advs : List BleAdvertisement) (b : PbBuffer)
    → All IsAdvertisement advs
    → IsValid b
    → Puts
        (message_bytes (batch_fields advs))
        b
        (advertisement_loop advs b).0
        (advertisement_loop advs b).1
unfolding advertisement_loop and_then
advertisement_loop-Puts [] b h v = record {
  flagged = λ e. cc;
  appended = (Wrote-nothing b v).appended;
}
advertisement_loop-Puts (adv ∷ advs) b (ha, hs) v =
    let xs = field_bytes (1, text (advertisement_bytes adv)) in
    let first = put_advertisement-Puts adv b ha v in
    let b1 = (put_advertisement adv b).1 in
    elim (Bool-cases (put_advertisement adv b).0) [
      | inl ok ↦
          let later = advertisement_loop-Puts advs b1 hs first.appended.valid in
          rw ok (record {
            flagged = later.flagged;
            appended =
                Appends-trans xs (message_bytes (batch_fields advs)) first.appended later.appended;
          })
      | inr failed ↦ rw failed (record {
        flagged = λ e. first.flagged failed;
        appended =
            Appends-stop xs (message_bytes (batch_fields advs)) first.appended
              (first.flagged failed);
      })
    ]

-- Into a buffer of `size` bytes, a batch is encoded as the protobuf message that repeats field 1 for
-- each of its first 16 advertisements, and fewer if `count` is less: the length is returned with the
-- message at the front of the buffer if it fits, and 0 if it does not. The members of each
-- advertisement hold what their types allow, with `data_len` at most 62.
pub esphome_encode_ble_advertisements-IsEncoding :
    (buf : List ℕ) (size : ℕ) (msg : BleAdvertisementsResponse)
    → size ≤ length buf
    → length buf < 2 ^ 63
    → All IsAdvertisement (batch msg)
    → IsEncoding
        (message_bytes (batch_fields (batch msg)))
        size
        (esphome_encode_ble_advertisements buf size msg)
unfolding esphome_encode_ble_advertisements
esphome_encode_ble_advertisements-IsEncoding buf size msg inside object h =
    let start = pb_buffer_init_write buf size in
    let puts =
      advertisement_loop-Puts (batch msg) start h
        (record { within = omega arith; backed = inside; object = object }) in
    let encodes =
      Appends-IsEncoding (message_bytes (batch_fields (batch msg))) buf size puts.appended in
    elim (Bool-cases (advertisement_loop (batch msg) start).0) [
      | inl ok ↦ rw ok encodes
      | inr failed ↦ rw failed (rw (puts.flagged failed) at encodes)
    ]

pub length-batch_fields :
    (advs : List BleAdvertisement)
    → All IsAdvertisement advs
    → length (message_bytes (batch_fields advs)) ≤ 168 * length advs
length-batch_fields [] h = omega arith
length-batch_fields (adv ∷ advs) (ha, hs) =
    let ys = advertisement_bytes adv in
    omega (
      arith,
      length-batch_fields advs hs,
      length-advertisement_bytes adv ha,
      length-append (field_bytes (1, text ys)) (message_bytes (batch_fields advs)),
      length-append (varint 10) (varint (length ys) ++ ys),
      length-append (varint (length ys)) ys,
      length-varint 10,
      length-varint (length ys),
    )

-- Of a buffer of 4096 bytes or more, the bytes returned are the whole message of the batch: at most 16
-- advertisements, whose members hold what their types allow with `data_len` at most 62, always fit.
pub esphome_encode_ble_advertisements-fits :
    (buf : List ℕ) (size : ℕ) (msg : BleAdvertisementsResponse)
    → 4096 ≤ size
    → size ≤ length buf
    → length buf < 2 ^ 63
    → All IsAdvertisement (batch msg)
    → let (n, out) = esphome_encode_ble_advertisements buf size msg in
      take n out ≡ message_bytes (batch_fields (batch msg))
esphome_encode_ble_advertisements-fits buf size msg room inside object h =
    let most = length-batch_fields (batch msg) h in
    let few = length-take (min msg.count max_adv_batch) msg.advertisements in
    (esphome_encode_ble_advertisements-IsEncoding buf size msg inside object h).1.0
      (omega (arith, most, few))
