-- ===== src/Api/Receive/Room.antt =====
-- The room that a client's receive buffer has for the next call of `recv`.
use esphome_linux.Base.{
  ℕ, zero, suc, ◌+◌, ◌≤◌, ◌<◌, ◌≡◌, refl, sym, ap, ◌∙◌, Bool, true, false, none, some, List, [],
  ◌∷◌, ◌++◌, length, take, drop, flatten, arith, All, append_assoc, length-append, take-append,
  take-append_left,
}
use native.Mathlib.Decide.{dec_lt}
use esphome_linux.Proto.Frame.Encode.{frame, frame_header}
use esphome_linux.Proto.Frame.Decode.{Found, header_of}
use esphome_linux.Proto.Frame.Prefix.{
  header_of-IsHeader, header_of-append, header_of-frame, drop-append_le,
}
use esphome_linux.Api.Receive.{Receiver, pending, Rounds, client_rounds}
use esphome_linux.Api.Receive.Stream.{
  Message, Split, stop, more, total, IsMessage, stream, drop-frame,
}
use esphome_linux.Api.Receive.Reassembly.{IsReceiver, length-pending, deliver}
use esphome_linux.Api.Receive.Thread.{Arrives, received, Received, client_rounds-Received}

-- A message whose frame fits into the receive buffer.
abbrev pub FitsBuffer : Message → Type 0
FitsBuffer (t, p) = length (frame t p) ≤ 4096

take-drop {ℓ} : {A : Type ℓ} (n : ℕ) (xs : List A) → take n xs ++ drop n xs ≡ xs
take-drop zero xs = refl
take-drop (suc n) [] = refl
take-drop (suc n) (x ∷ xs) = ap (λ t. x ∷ t) (take-drop n xs)

-- Bytes that a frame begins, and that have no complete message, are fewer than the frame's.
partial-lt :
    (m : Message) (bytes rest later : List ℕ)
    → IsMessage m
    → header_of bytes ≡ none
    → bytes ++ rest ≡ frame m.0 m.1 ++ later
    → length bytes < length (frame m.0 m.1)
partial-lt (t, p) bytes rest later h e same =
    let n = length (frame t p) in
    elim (dec_lt (length bytes) n) [
      | yes short ↦ short
      | no long ↦
          let front : take n bytes ≡ frame t p =
            sym (take-append_left n bytes rest (omega arith))
            ∙ ap (take n) same
            ∙ take-append (frame t p) later in
          let whole : bytes ≡ frame t p ++ drop n bytes =
            sym (take-drop n bytes) ∙ ap (λ l. l ++ drop n bytes) front in
          let there = header_of-frame t p (drop n bytes) h.0 h.1 in
          let here : header_of (frame t p ++ drop n bytes) ≡ none = rw whole at e in
          absurd (let no : none ≡ some _ = sym here ∙ there in cc)
    ]

length-frame :
    (t : ℕ) (p : List ℕ) → length (frame t p) ≡ length (frame_header t (length p)) + length p
length-frame t p = ap length (sym (frame-parts t p)) ∙ length-append (frame_header t (length p)) p
  where
    frame-parts : (t : ℕ) (p : List ℕ) → frame_header t (length p) ++ p ≡ frame t p
    frame-parts t p = simp append_assoc

-- What is left of a part of a stream is shorter than the longest frame.
Split-lt :
    (ms : List Message) {bytes left : List ℕ} {done : List Message} (rest : List ℕ)
    → Split bytes done left
    → All IsMessage ms
    → All FitsBuffer ms
    → bytes ++ rest ≡ stream ms
    → length left < 4096
Split-lt [] {bytes} rest (stop e) h fits same =
    omega (arith, ap length same, length-append bytes rest)
Split-lt (m ∷ ms) {bytes} rest (stop e) (hm, h) (fm, fits) same =
    omega (arith, partial-lt m bytes rest (stream ms) hm e same, fm)
Split-lt [] {bytes} rest (more f e later) h fits same =
    let there = header_of-append bytes rest e in
    let none_there : header_of [] ≡ none = unfold header_of in refl in
    let some_there : header_of [] ≡ some f = rw same at there in absurd (cc)
Split-lt ((t, p) ∷ ms) {bytes} rest (more f e later) (hm, h) (fm, fits) same =
    let i = header_of-IsHeader bytes e in
    let there = header_of-append bytes rest e in
    let frames : header_of (frame t p ++ stream ms) ≡ some f = rw same at there in
    let first = header_of-frame t p (stream ms) hm.0 hm.1 in
    let found : Found = record {
      offset = length (frame_header t (length p));
      msg_len = length p;
      msg_type = t;
    } in
    let eq : f ≡ found = cc in
    let behind : drop (total f) bytes ++ rest ≡ stream ms =
      sym (drop-append_le (total f) bytes rest i.complete)
      ∙ ap (drop (total f)) same
      ∙ ap (λ (g : Found). drop (total g) (frame t p ++ stream ms)) eq
      ∙ drop-frame t p (stream ms) in
    Split-lt ms rest later h fits behind

module _ {S : Type 0} (dispatch : ℕ → List ℕ → S → S) (alive : S → Bool) (Kept : S → Type 0)
    (kept_alive : (s : S) → Kept s → alive s ≡ true)
    (stays_kept : (t : ℕ) (p : List ℕ) (s : S) → Kept s → Kept (dispatch t p s)) where
  -- Where a stream of messages, whose frames have at most 4096 bytes, has arrived up to any byte, the
  -- client thread of an open connection is in its loop, and its receive buffer has room for another
  -- byte: it never calls `recv` with a size of 0, whose answer it would take for a disconnection.
  pub client_rounds-room :
      (ms : List Message) (cs : List (List ℕ)) (rest : List ℕ) (r : Receiver) (s : S)
      → All IsMessage ms
      → All FitsBuffer ms
      → flatten cs ++ rest ≡ stream ms
      → IsReceiver r
      → r.recv_pos ≡ 0
      → Kept s
      → Arrives [] cs
      → (rounds : Rounds S) × (client_rounds dispatch alive (received cs) r s ≡ some rounds)
        × (rounds.leaves ≡ false)
        × (rounds.receiver.recv_pos < 4096)
  client_rounds-room ms cs rest r s hm fits e v empty a room =
      let nothing : pending r ≡ [] = rw empty refl in
      let d : Received dispatch alive Kept kept_alive stays_kept cs r s =
        client_rounds-Received dispatch alive Kept kept_alive stays_kept cs r s v a
          (rw nothing (unfold header_of in refl)) (rw nothing room) in
      let split : Split (flatten cs) d.messages (pending d.after) = rw nothing at d.split in
      let short = Split-lt ms rest split hm fits e in
      (
        record { leaves = false; receiver = d.after; state = deliver dispatch d.messages s },
        d.returned,
        refl,
        omega (arith, short, length-pending d.after d.valid),
      )
