-- ===== src/Scanner/Merge.antt =====
-- The packets that an advertisement is merged from, `process_advertisement` of ble_scanner.cpp.
use esphome_linux.Base.{
  ℕ, ◌+◌, ◌-◌, ◌≤◌, ◌≡◌, refl, sym, ap, ◌∙◌, List, [], ◌∷◌, ◌++◌, min, arith, take, length, flatten,
  write_at, ltb, leb, Bool-cases, inl, inr, append-nil, append_assoc, length-take, length-append,
  length-write_at, take-write_at, take-length, take-append_more, take-append_left, leb→le, leb→lt,
  ltb→le,
}
use mathlib.Core.Path.{subst}
use esphome_linux.Scanner.{merge_packets}

-- What merging leaves: an array of 62 bytes, its length, and the front of the bytes that it was given.
pub record Merged (front : List ℕ) (merged : List ℕ × ℕ) : Type 0 where
  pub size : length merged.0 ≡ 62
  pub data_len : merged.1 ≡ min 62 (length front)
  pub content : take merged.1 merged.0 ≡ take 62 front

-- A packet that does not fit is cut.
merge_cut :
    (bytes : List ℕ) (data_len : ℕ) (packet more : List ℕ)
    → length bytes ≡ 62
    → data_len ≤ 62
    → 62 ≤ data_len + length packet
    → Merged
        (take data_len bytes ++ (packet ++ more))
        (write_at bytes data_len (take (62 - data_len) packet), 62)
merge_cut bytes data_len packet more size h over =
    let front = take data_len bytes in
    let cut = take (62 - data_len) packet in
    let front_len : length front ≡ data_len = omega (arith, length-take data_len bytes) in
    let cut_len : length cut ≡ 62 - data_len = omega (arith, length-take (62 - data_len) packet) in
    record {
      size = length-write_at bytes data_len cut ∙ size;
      data_len = omega (arith, length-append front (packet ++ more), length-append packet more);
      content =
          take-write_at bytes data_len 62 cut (omega arith) (omega arith)
          ∙ ap (λ t. front ++ t) (sym (take-append_left (62 - data_len) packet more (omega arith)))
          ∙ sym (take-append_more front (packet ++ more) 62 (62 - data_len) (omega arith));
    }

merge_packets-from :
    (bytes : List ℕ) (data_len : ℕ) (packets : List (List ℕ))
    → length bytes ≡ 62
    → data_len ≤ 62
    → Merged (take data_len bytes ++ flatten packets) (merge_packets bytes data_len packets)
unfolding merge_packets
merge_packets-from bytes data_len [] size h =
    let front = take data_len bytes in
    let front_len : length front ≡ data_len = omega (arith, length-take data_len bytes) in
    rw (append-nil front) (record {
      size = size;
      data_len = omega arith;
      content = sym (take-length 62 front (omega arith));
    })
merge_packets-from bytes data_len (packet ∷ packets) size h =
    elim (Bool-cases (leb (data_len + length packet) 62)) [
      | inl fits ↦
          let within : data_len + length packet ≤ 62 = leb→le _ _ fits in
          let written =
            take-write_at bytes data_len (data_len + length packet) packet (omega arith) refl in
          let rest =
            merge_packets-from (write_at bytes data_len packet) (data_len + length packet) packets
              (length-write_at bytes data_len packet ∙ size) within in
          let joined =
            ap (λ t. t ++ flatten packets) written
            ∙ append_assoc (take data_len bytes) packet (flatten packets) in
          rw fits (rw joined at rest)
      | inr over ↦
          let beyond : 62 ≤ data_len + length packet = omega (arith, leb→lt _ _ over) in
          let cut = merge_cut bytes data_len packet (flatten packets) size h beyond in
          elim (Bool-cases (ltb 0 (62 - data_len))) [
            | inl room ↦ rw (over, room) cut
            | inr full ↦
                let none_left : 62 - data_len ≡ 0 = omega (arith, ltb→le _ _ full) in
                let all : 62 ≡ data_len = omega arith in
                let left : Merged (take data_len bytes ++ (packet ++ flatten packets)) (bytes, 62) =
                  rw none_left at cut in
                rw (over, full)
                  (subst
                    (λ (k : ℕ).
                      Merged (take data_len bytes ++ (packet ++ flatten packets)) (bytes, k))
                    all left)
          ]
    ]

-- Whatever packets an advertisement has, the entry holds the first 62 of their bytes in order, and
-- its length is the number of these.
pub merge_packets-Merged :
    (bytes : List ℕ) (packets : List (List ℕ))
    → length bytes ≡ 62
    → Merged (flatten packets) (merge_packets bytes 0 packets)
merge_packets-Merged bytes packets size = merge_packets-from bytes 0 packets size (omega arith)
