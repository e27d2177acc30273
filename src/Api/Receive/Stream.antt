-- ===== src/Api/Receive/Stream.antt =====
-- A byte stream as a sequence of messages: the specification of `handle_client_data`.
use esphome_linux.Base.{
  ℕ, zero, suc, ◌+◌, ◌≤◌, ◌≡◌, refl, sym, ap, ◌∙◌, none, some, List, [], ◌∷◌, ◌++◌, length, take,
  drop, arith, append_assoc, length-drop, drop-append, drop-drop, take-append, All,
}
use mathlib.Core.Path.{subst}
use esphome_linux.Proto.Buffer.{IsU16, IsU32}
use esphome_linux.Proto.Frame.Encode.{frame, frame_header}
use esphome_linux.Proto.Frame.Decode.{Found, header_of}
use esphome_linux.Proto.Frame.Prefix.{
  IsHeader, header_of-IsHeader, header_of-append, header_of-frame, drop-append_le,
}

abbrev pub Message : Type 0
Message = ℕ × List ℕ

abbrev pub total : Found → ℕ
total h = h.offset + h.msg_len

abbrev pub message_at : Found → List ℕ → Message
message_at h bytes = (h.msg_type, take h.msg_len (drop h.offset bytes))

-- `Split bytes ms left`: the bytes are the messages `ms` in order, and then `left`, in which no
-- complete message stands at the front.
pub data Split : List ℕ → List Message → List ℕ → Type 0 where
  stop : {bytes : List ℕ} → header_of bytes ≡ none → Split bytes [] bytes
  more :
      {bytes left : List ℕ} {ms : List Message} (h : Found)
      → header_of bytes ≡ some h
      → Split (drop (total h) bytes) ms left
      → Split bytes (message_at h bytes ∷ ms) left

take-append_le {ℓ} :
    {A : Type ℓ} (n : ℕ) (xs ys : List A) → n ≤ length xs → take n (xs ++ ys) ≡ take n xs
take-append_le zero xs ys h = refl
take-append_le (suc n) [] ys h = absurd (omega arith)
take-append_le (suc n) (x ∷ xs) ys h = ap (λ t. x ∷ t) (take-append_le n xs ys (omega arith))

-- A complete message reads the same with more bytes behind it.
message_at-append :
    (h : Found) (bytes more_bytes : List ℕ)
    → IsHeader bytes h
    → message_at h (bytes ++ more_bytes) ≡ message_at h bytes
message_at-append h bytes more_bytes i =
    rw
      (
        drop-append_le h.offset bytes more_bytes (omega (arith, i.complete)),
        take-append_le h.msg_len (drop h.offset bytes) more_bytes
            (omega (arith, i.complete, length-drop h.offset bytes)),
      )
      refl

-- Splitting in two steps: what the first step leaves goes in front of the bytes that come later.
pub Split-append :
    {bytes left left' : List ℕ} {ms ms' : List Message} (later : List ℕ)
    → Split bytes ms left
    → Split (left ++ later) ms' left'
    → Split (bytes ++ later) (ms ++ ms') left'
Split-append later (stop e) s = s
Split-append {bytes} {left' = end} {ms' = ms'} later (more {ms = ms} h e rest) s =
    let i : IsHeader bytes h = header_of-IsHeader bytes e in
    let tail : drop (total h) (bytes ++ later) ≡ drop (total h) bytes ++ later =
      drop-append_le (total h) bytes later i.complete in
    let rest' : Split (drop (total h) (bytes ++ later)) (ms ++ ms') end =
      rw tail (Split-append later rest s) in
    rw (message_at-append h bytes later i) at (more h (header_of-append bytes later e) rest')

-- No complete message is left at the front.
pub Split-left :
    {bytes left : List ℕ} {ms : List Message} → Split bytes ms left → header_of left ≡ none
Split-left (stop e) = e
Split-left (more h e rest) = Split-left rest

-- The bytes determine the messages.
pub Split-unique :
    {bytes left left' : List ℕ} {ms ms' : List Message}
    → Split bytes ms left
    → Split bytes ms' left'
    → (ms ≡ ms') × (left ≡ left')
Split-unique (stop e) (stop e') = (refl, refl)
Split-unique (stop e) (more h' e' rest') = cc
Split-unique (more h e rest) (stop e') = cc
Split-unique {bytes} (more h e rest) (more h' e' rest') =
    let same : h' ≡ h = cc in
    let (tail, left) = Split-unique rest (rw same at rest') in
    (rw same (ap (λ t. message_at h bytes ∷ t) tail), left)

abbrev pub IsMessage : Message → Type 0
IsMessage (t, p) = IsU16 t × IsU32 (length p)

abbrev pub stream : List Message → List ℕ
stream [] = []
stream ((t, p) ∷ ms) = frame t p ++ stream ms

-- The pieces of a frame that stands in front of other bytes.
module _ (t : ℕ) (p rest : List ℕ) where
  frame-split : frame t p ++ rest ≡ frame_header t (length p) ++ (p ++ rest)
  frame-split = simp append_assoc

  drop-header : drop (length (frame_header t (length p))) (frame t p ++ rest) ≡ p ++ rest
  drop-header = rw frame-split (drop-append (frame_header t (length p)) (p ++ rest))

  pub drop-frame : drop (length (frame_header t (length p)) + length p) (frame t p ++ rest) ≡ rest
  drop-frame =
      sym (drop-drop (length (frame_header t (length p))) (length p) (frame t p ++ rest))
      ∙ rw drop-header (drop-append p rest)

-- The frames of messages, one after the other, split into those messages with nothing left.
pub stream-Split : (ms : List Message) → All IsMessage ms → Split (stream ms) ms []
stream-Split [] h = stop {bytes = []} (unfold header_of in refl)
stream-Split ((t, p) ∷ ms) (h, hs) =
    let found : Found = record {
      offset = length (frame_header t (length p));
      msg_len = length p;
      msg_type = t;
    } in
    let rest : Split (drop (total found) (frame t p ++ stream ms)) ms [] =
      subst (λ (l : List ℕ). Split l ms []) (sym (drop-frame t p (stream ms)))
        (stream-Split ms hs) in
    let first : message_at found (frame t p ++ stream ms) ≡ (t, p) =
      ap (λ (l : List ℕ). (t, l))
        (ap (take (length p)) (drop-header t p (stream ms)) ∙ take-append p (stream ms)) in
    subst (λ (m : Message). Split (frame t p ++ stream ms) (m ∷ ms) []) first
      (more found (header_of-frame t p (stream ms) h.0 h.1) rest)
