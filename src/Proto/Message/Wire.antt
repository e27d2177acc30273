-- ===== src/Proto/Message/Wire.antt =====
-- A protobuf message as a list of fields, and its bytes: the specification of the decoders.
use esphome_linux.Base.{
  ℕ, ◌^◌, ◌<◌, Bool, true, false, Option, none, some, List, [], ◌∷◌, ◌++◌, length, ◌≡◌,
}
use esphome_linux.Proto.Buffer.{IsU64}
use esphome_linux.Proto.Varint.Encode.{varint}
use esphome_linux.Proto.Field.Encode.{tag}
use esphome_linux.Proto.Field.Decode.{prefixed}

pub data Content : Type 0 where
  number : ℕ → Content
  fixed64 : List ℕ → Content
  text : List ℕ → Content
  fixed32 : List ℕ → Content

abbrev pub wire_type : Content → ℕ
wire_type (number v) = 0
wire_type (fixed64 s) = 1
wire_type (text s) = 2
wire_type (fixed32 s) = 5

abbrev pub payload : Content → List ℕ
payload (number v) = varint v
payload (fixed64 s) = s
payload (text s) = prefixed s
payload (fixed32 s) = s

abbrev pub Field : Type 0
Field = ℕ × Content

-- A number has 64 bits, and the fixed contents their size.
abbrev pub IsContent : Content → Type 0
IsContent (number v) = IsU64 v
IsContent (fixed64 s) = length s ≡ 8
IsContent (text s) = Unit {0}
IsContent (fixed32 s) = length s ≡ 4

abbrev pub IsField : Field → Type 0
IsField (n, c) = (n < 2 ^ 29) × IsContent c

abbrev pub field_bytes : Field → List ℕ
field_bytes (n, c) = tag n (wire_type c) ++ payload c

abbrev pub message_bytes : List Field → List ℕ
message_bytes [] = []
message_bytes (f ∷ fs) = field_bytes f ++ message_bytes fs

-- Reading the fields in turn, each by `accept`; `none` is a field that is refused, at which the
-- decoder stops with the message that it has.
abbrev pub read_fields : {M : Type 0} → (M → Field → Option M) → List Field → M → Bool × M
read_fields accept [] msg = (true, msg)
read_fields accept (f ∷ fs) msg = elim (accept msg f) [
  | none ↦ (false, msg)
  | some msg' ↦ read_fields accept fs msg'
]
