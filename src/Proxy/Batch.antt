-- ===== src/Proxy/Batch.antt =====
-- The batch of `bluetooth_proxy_state_t` as a queue of what the scanner reported.
use esphome_linux.Base.{
  ℕ, suc, ◌+◌, ◌-◌, ◌*◌, ◌%◌, ◌^◌, ◌≤◌, ◌<◌, ◌≡◌, refl, sym, ap, ◌∙◌, bit_or, min, true, false,
  List, [], ◌∷◌, ◌++◌, map, All, arith, take, length, set, get_or, write_at, ltb, leb, ◌==◌,
  if◌then◌else◌, uninitialised, length-uninitialised, take-set, take-write_at, length-write_at,
  length-set, All-get_or, All-set, All-take, length-take, length-append, Bool-cases, inl, inr,
  leb→lt,
}
use esphome_linux.Base.Bits.{bit_or-lt}
use esphome_linux.Proto.Buffer.{IsU64}
use esphome_linux.Proto.Field.{zigzag}
use esphome_linux.Proto.Varint.Encode.{varint, length-varint}
use esphome_linux.Proto.Message.Wire.{Field, text, field_bytes, message_bytes}
use esphome_linux.Proto.Response.{BleAdvertisement, max_adv_data}
use esphome_linux.Proto.Response.Sequence.{text_fields, number_fields, IsEncoding}
use esphome_linux.Proto.Advertisements.{batch, esphome_encode_ble_advertisements}
use esphome_linux.Proto.Advertisements.Fields.{
  IsAdvertisement, advertisement_fields, advertisement_bytes, batch_fields,
}
use esphome_linux.Proto.Advertisements.Encode.{
  length-batch_fields, esphome_encode_ble_advertisements-IsEncoding,
}
use esphome_linux.Api.Server.{Server, System}
use esphome_linux.Api.Send.{esphome_plugin_send_message}
use esphome_linux.Api.Send.Transmit.{connected_fds, transmit_each, broadcast_loop-transmit_each}
use esphome_linux.Proxy.{
  ProxyState, BleReport, mac_loop, mac_to_uint64, widen, entry, empty_entry, append_entry,
  flush_ble_batch, on_ble_advertisement,
}

-- What a `ble_advertisement_t` can hold: bytes, and as much data as its length says.
pub record IsReport (advert : BleReport) : Type 0 where
  pub address_type : advert.address_type < 256
  pub rssi : advert.rssi < 256
  pub data_len : advert.data_len ≤ length advert.bytes

-- The fields that a report is sent as: at most 62 bytes of its data.
abbrev pub report_fields : BleReport → List Field
report_fields advert =
    number_fields 1 (mac_to_uint64 advert.address)
    ++ (number_fields 2 (zigzag (widen advert.rssi))
        ++ (number_fields 3 advert.address_type
            ++ text_fields 4 (take (min advert.data_len max_adv_data) advert.bytes)))

abbrev pub report_field : BleReport → Field
report_field advert = (1, text (message_bytes (report_fields advert)))

-- The message of a batch of reports.
abbrev pub reports_message : List BleReport → List ℕ
reports_message reports = message_bytes (map report_field reports)

-- The state holds the reports of a queue, the oldest first, in an array of 16 valid entries.
pub record Holds (state : ProxyState) (reports : List BleReport) : Type 0 where
  pub slots : length state.ble_batch.advertisements ≡ 16
  pub entries : All IsAdvertisement state.ble_batch.advertisements
  pub count : state.ble_batch.count ≡ length reports
  pub room : length reports ≤ 16
  pub content :
      batch_fields (take state.ble_batch.count state.ble_batch.advertisements)
      ≡ map report_field reports

mac_loop-IsU64 : (i result : ℕ) (xs : List ℕ) → IsU64 result → IsU64 (mac_loop i result xs)
mac_loop-IsU64 i result [] h = h
mac_loop-IsU64 i result (x ∷ xs) h =
    mac_loop-IsU64 (i + 1) (bit_or result (x * 2 ^ ((5 - i) * 8) % 2 ^ 64)) xs
      (bit_or-lt 64 result _ h (omega arith))

mac_to_uint64-IsU64 : (mac : List ℕ) → IsU64 (mac_to_uint64 mac)
unfolding mac_to_uint64
mac_to_uint64-IsU64 mac = mac_loop-IsU64 0 0 mac (omega arith)

entry-IsAdvertisement :
    (advert : BleReport) (old : BleAdvertisement)
    → IsReport advert
    → IsAdvertisement old
    → IsAdvertisement (entry advert old)
entry-IsAdvertisement advert old h ho = record {
  address = mac_to_uint64-IsU64 advert.address;
  rssi = ground (arith, h.rssi);
  address_type = omega (arith, h.address_type);
  array =
      length-write_at old.bytes 0 (take (min advert.data_len max_adv_data) advert.bytes) ∙ ho.array;
  data_len = omega arith;
}

entry-fields :
    (advert : BleReport) (old : BleAdvertisement)
    → IsReport advert
    → IsAdvertisement old
    → advertisement_fields (entry advert old) ≡ report_fields advert
entry-fields advert old h ho =
    let copy_len = min advert.data_len max_adv_data in
    let copied = take copy_len advert.bytes in
    let size : length copied ≡ copy_len =
      omega (arith, length-take copy_len advert.bytes, h.data_len) in
    let read : take copy_len (write_at old.bytes 0 copied) ≡ copied =
      take-write_at old.bytes 0 copy_len copied (omega (arith, size, ho.array))
        (omega (arith, size)) in
    rw read refl

map-append : {A B : Type 0} (f : A → B) (xs ys : List A) → map f (xs ++ ys) ≡ map f xs ++ map f ys
map-append f [] ys = refl
map-append f (x ∷ xs) ys = ap (λ t. f x ∷ t) (map-append f xs ys)

empty_entry-IsAdvertisement : IsAdvertisement empty_entry
empty_entry-IsAdvertisement = omega arith

-- Adding a report to a batch with room.
append_entry-Holds :
    (advert : BleReport) (state : ProxyState) (reports : List BleReport)
    → IsReport advert
    → length reports < 16
    → Holds state reports
    → Holds (append_entry advert state) (reports ++ (advert ∷ []))
append_entry-Holds advert state reports ha room h =
    let ads = state.ble_batch.advertisements in
    let n = state.ble_batch.count in
    let old = get_or ads n empty_entry in
    let valid_old : IsAdvertisement old =
      All-get_or IsAdvertisement ads n empty_entry h.entries empty_entry-IsAdvertisement in
    let added = entry advert old in
    let front : take (suc n) (set ads n added) ≡ take n ads ++ (added ∷ []) =
      take-set ads n added (omega (arith, h.slots, h.count)) in
    let next : n + 1 ≡ suc n = omega arith in
    let field : (1, text (advertisement_bytes added)) ≡ report_field advert =
      ap (λ (fs : List Field). (1, text (message_bytes fs)))
        (entry-fields advert old ha valid_old) in
    record {
      slots = length-set ads n added ∙ h.slots;
      entries =
          All-set IsAdvertisement ads n added h.entries
            (entry-IsAdvertisement advert old ha valid_old);
      count = omega (arith, h.count, length-append reports (advert ∷ []));
      room = omega (arith, length-append reports (advert ∷ []));
      content =
          ap (λ (k : ℕ). batch_fields (take k (set ads n added))) next
          ∙ ap batch_fields front
          ∙ map-append (λ adv. (1, text (advertisement_bytes adv))) (take n ads) (added ∷ [])
          ∙ ap (λ (fs : List Field). fs ++ ((1, text (advertisement_bytes added)) ∷ [])) h.content
          ∙ ap (λ (f : Field). map report_field reports ++ (f ∷ [])) field
          ∙ sym (map-append report_field reports (advert ∷ []));
    }

length-reports_message :
    (report : BleReport) (reports : List BleReport)
    → 1 ≤ length (reports_message (report ∷ reports))
length-reports_message report reports =
    let ys = message_bytes (report_fields report) in
    omega (
      arith,
      length-append (field_bytes (report_field report)) (reports_message reports),
      length-append (varint 10) (varint (length ys) ++ ys),
      length-varint 10,
    )

module _ {W : Type 0} (system : System W) (server : Server) where
  -- Broadcasting the message of some reports.
  abbrev pub broadcast_reports : List BleReport → W → W
  broadcast_reports reports w =
      (transmit_each system 93 (reports_message reports) (connected_fds server.clients) w).1

  flush-sends :
      (now : ℕ) (state : ProxyState) (w : W) (report : BleReport) (reports : List BleReport)
      → Holds state (report ∷ reports)
      → (flush_ble_batch system server now state w).1 ≡ broadcast_reports (report ∷ reports) w
  unfolding flush_ble_batch esphome_plugin_send_message
  flush-sends now state w report reports h =
      let page = length-uninitialised 4096 in
      let ads = state.ble_batch.advertisements in
      let encoded = esphome_encode_ble_advertisements (uninitialised 4096) 4096 state.ble_batch in
      let valid = All-take IsAdvertisement (min state.ble_batch.count 16) ads h.entries in
      let counted : min state.ble_batch.count 16 ≡ state.ble_batch.count =
        omega (arith, h.count, h.room) in
      let whole : batch_fields (batch state.ble_batch) ≡ map report_field (report ∷ reports) =
        ap (λ (k : ℕ). batch_fields (take k ads)) counted ∙ h.content in
      let size : length (message_bytes (batch_fields (batch state.ble_batch))) ≤ 4096 = omega (
        arith,
        length-batch_fields (batch state.ble_batch) valid,
        length-take (min state.ble_batch.count 16) ads,
      ) in
      let encodes : IsEncoding (reports_message (report ∷ reports)) 4096 encoded =
        rw (ap message_bytes whole) at (
          esphome_encode_ble_advertisements-IsEncoding (uninitialised 4096) 4096 state.ble_batch
            (omega (arith, page)) (omega (arith, page)) valid) in
      let small : length (reports_message (report ∷ reports)) ≤ 4096 =
        rw (ap message_bytes whole) at size in
      let some_byte = length-reports_message report reports in
      let text : take encoded.0 encoded.1 ≡ reports_message (report ∷ reports) =
        encodes.1.0 small in
      let exact : encoded.0 ≡ length (reports_message (report ∷ reports)) =
        ground (arith, encodes.0, small) in
      let readable : encoded.0 ≤ length encoded.1 =
        omega (arith, length-take encoded.0 encoded.1, ap length text) in
      let waiting : (state.ble_batch.count == 0) ≡ false = ground (arith, h.count) in
      let nonempty : ltb 0 encoded.0 ≡ true = ground (arith, exact, some_byte) in
      let sends =
        ap (λ (r : ℕ × W). r.1)
          (broadcast_loop-transmit_each system 93 encoded.1 encoded.0 (omega arith) readable
            encodes.1.1 server.clients 0 w) in
      rw (waiting, nonempty) (sends ∙ rw text refl)

  -- The queue that the batch implements: flushing broadcasts what is queued, if anything is.
  abbrev pub deliver_batch : List BleReport → W → W
  deliver_batch [] w = w
  deliver_batch (report ∷ reports) w = broadcast_reports (report ∷ reports) w

  -- A report joins the queue, which is delivered when it has 16.
  abbrev pub enqueue : List BleReport → BleReport → W → List BleReport × W
  enqueue reports advert w =
      if leb 16 (length reports)
      then (advert ∷ [], deliver_batch reports w)
      else if leb 16 (length (reports ++ (advert ∷ [])))
      then ([], deliver_batch (reports ++ (advert ∷ [])) w)
      else (reports ++ (advert ∷ []), w)

  -- Flushing a batch that holds a queue broadcasts the queue's message once, if it holds anything,
  -- and leaves a batch that holds nothing.
  pub flush_ble_batch-Holds :
      (now : ℕ) (state : ProxyState) (w : W) (reports : List BleReport)
      → Holds state reports
      → let flushed = flush_ble_batch system server now state w in
        Holds flushed.0 [] × (flushed.1 ≡ deliver_batch reports w)
  flush_ble_batch-Holds now state w [] h =
      let idle : flush_ble_batch system server now state w ≡ (state, w) =
        unfold flush_ble_batch in rw h.count refl in
      rw idle (h, refl)
  flush_ble_batch-Holds now state w (report ∷ reports) h =
      (emptied, flush-sends now state w report reports h)
    where
      emptied : Holds (flush_ble_batch system server now state w).0 []
      emptied =
          let waiting : (state.ble_batch.count == 0) ≡ false = ground (arith, h.count) in
          unfold flush_ble_batch in
          rw waiting (record {
            slots = h.slots;
            entries = h.entries;
            count = refl;
            room = omega arith;
            content = refl;
          })

  -- A report that the scanner makes joins the queue that the batch holds, and the batch is flushed
  -- when it has 16 entries: the plugin implements the queue. The report's numbers have 8 bits, and
  -- its data is at least as long as its length says; no more than 62 bytes of it are sent.
  pub on_ble_advertisement-enqueue :
      (now : ℕ) (advert : BleReport) (state : ProxyState) (w : W) (reports : List BleReport)
      → IsReport advert
      → Holds state reports
      → let handled = on_ble_advertisement system server now advert state w in
        let queued = enqueue reports advert w in Holds handled.0 queued.0 × (handled.1 ≡ queued.1)
  unfolding on_ble_advertisement
  on_ble_advertisement-enqueue now advert state w reports ha h =
      elim (Bool-cases (leb 16 (length reports))) [
        | inl full ↦
            let flushed = flush_ble_batch-Holds now state w reports h in
            let s = flush_ble_batch system server now state w in
            let added = append_entry-Holds advert s.0 [] ha (omega arith) flushed.0 in
            let over : leb 16 state.ble_batch.count ≡ true = rw h.count full in
            let under : leb 16 (s.0.ble_batch.count + 1) ≡ false =
              ground (arith, flushed.0.count) in
            rw (full, over, under) (added, flushed.1)
        | inr open_slot ↦
            let added =
              append_entry-Holds advert state reports ha (leb→lt 16 (length reports) open_slot) h in
            let under : leb 16 state.ble_batch.count ≡ false = rw h.count open_slot in
            elim (Bool-cases (leb 16 (length (reports ++ (advert ∷ []))))) [
              | inl last ↦
                  let over : leb 16 (state.ble_batch.count + 1) ≡ true = rw added.count last in
                  rw (open_slot, under, over, last)
                    (flush_ble_batch-Holds now (append_entry advert state) w
                      (reports ++ (advert ∷ [])) added)
              | inr more ↦
                  let still : leb 16 (state.ble_batch.count + 1) ≡ false = rw added.count more in
                  rw (open_slot, under, still, more) (added, refl)
            ]
      ]
