-- ===== src/Proto/Response/Sequence.antt =====
-- A sequence of field encoders writes a message: the list of the fields of each.
use esphome_linux.Base.{
  ℕ, ◌^◌, ◌≤◌, ◌<◌, ◌≡◌, Bool-cases, inl, inr, refl, sym, ap, ◌∙◌, Bool, true, false, not, some,
  List, [], ◌∷◌, ◌++◌, arith, leb, ◌==◌, if◌then◌else◌, length, take, append-nil, append_assoc,
}
use esphome_linux.Proto.Buffer.{PbBuffer, IsValid, IsU32, pb_buffer_init_write}
use esphome_linux.Proto.Buffer.Views.{
  Encoder, Appends, Appends-trans, Writes, Wrote-nothing, length-front,
}
use esphome_linux.Proto.Field.{pb_encode_string, pb_encode_bool, pb_encode_uint32}
use esphome_linux.Proto.Field.Encode.{
  pb_encode_string-Writes, pb_encode_bool-Writes, pb_encode_uint32-Writes,
}
use esphome_linux.Proto.Message.Wire.{Field, number, text, field_bytes, message_bytes}
use esphome_linux.Proto.Response.{run_each, when, is_empty, encoded}

pub message_bytes-append :
    (fs gs : List Field) → message_bytes (fs ++ gs) ≡ message_bytes fs ++ message_bytes gs
message_bytes-append [] gs = refl
message_bytes-append (f ∷ fs) gs =
    ap (λ t. field_bytes f ++ t) (message_bytes-append fs gs)
    ∙ sym (append_assoc (field_bytes f) (message_bytes fs) (message_bytes gs))

-- The fields that one statement writes.
abbrev pub WritesFields : Encoder → List Field → Type 0
WritesFields m fs = Writes m (message_bytes fs)

abbrev pub text_fields : ℕ → List ℕ → List Field
text_fields n [] = []
text_fields n (c ∷ cs) = (n, text (c ∷ cs)) ∷ []

abbrev pub number_fields : ℕ → ℕ → List Field
number_fields n v = (n, number v) ∷ []

-- A number that is left out if it is 0.
abbrev pub nonzero_fields : ℕ → ℕ → List Field
nonzero_fields n v = if v == 0 then [] else number_fields n v

abbrev pub bool_fields : ℕ → Bool → List Field
bool_fields n v = number_fields n (if v then 1 else 0)

abbrev pub true_fields : ℕ → Bool → List Field
true_fields n true = number_fields n 1
true_fields n false = []

pub string-WritesFields :
    (n : ℕ) (s : List ℕ)
    → n < 2 ^ 29
    → length s < 2 ^ 63
    → WritesFields (pb_encode_string n (some s)) (text_fields n s)
string-WritesFields n [] hn hs = pb_encode_string-Writes n [] hn hs
string-WritesFields n (c ∷ cs) hn hs =
    rw (append-nil (field_bytes (n, text (c ∷ cs)))) (pb_encode_string-Writes n (c ∷ cs) hn hs)

pub uint32-WritesFields :
    (n v : ℕ) → n < 2 ^ 29 → IsU32 v → WritesFields (pb_encode_uint32 n v) (number_fields n v)
uint32-WritesFields n v hn hv =
    rw (append-nil (field_bytes (n, number v))) (pb_encode_uint32-Writes n v hn hv)

pub bool-WritesFields :
    (n : ℕ) (v : Bool) → n < 2 ^ 29 → WritesFields (pb_encode_bool n v) (bool_fields n v)
bool-WritesFields n v hn =
    rw (append-nil (field_bytes (n, number (if v then 1 else 0)))) (pb_encode_bool-Writes n v hn)

pub when_nonzero :
    (n v : ℕ)
    → n < 2 ^ 29
    → IsU32 v
    → WritesFields (when (not (v == 0)) (pb_encode_uint32 n v)) (nonzero_fields n v)
when_nonzero n v hn hv = elim (Bool-cases (v == 0)) [
  | inl z ↦ rw z (λ b h. Wrote-nothing b h)
  | inr nz ↦ rw nz (uint32-WritesFields n v hn hv)
]

pub when_true :
    (n : ℕ) (v : Bool) → n < 2 ^ 29 → WritesFields (when v (pb_encode_bool n v)) (true_fields n v)
when_true n true hn b h = bool-WritesFields n true hn b h
when_true n false hn b h = Wrote-nothing b h

pub when_nonempty :
    (n : ℕ) (s : List ℕ)
    → n < 2 ^ 29
    → length s < 2 ^ 63
    → WritesFields (when (not (is_empty s)) (pb_encode_string n (some s))) (text_fields n s)
when_nonempty n [] hn hs b h = Wrote-nothing b h
when_nonempty n (c ∷ cs) hn hs b h = string-WritesFields n (c ∷ cs) hn hs b h

-- Statement by statement.
abbrev pub EachWrites : List Encoder → List (List Field) → Type 0
EachWrites [] [] = Unit {0}
EachWrites (m ∷ ms) (fs ∷ fss) = WritesFields m fs × EachWrites ms fss
EachWrites _ _ = ⊥

abbrev pub all_fields : List (List Field) → List Field
all_fields [] = []
all_fields (fs ∷ fss) = fs ++ all_fields fss

run_each-Appends :
    (ms : List Encoder) (fss : List (List Field)) (b : PbBuffer)
    → IsValid b
    → EachWrites ms fss
    → Appends (message_bytes (all_fields fss)) b (run_each ms b)
unfolding run_each
run_each-Appends [] [] b v h = (Wrote-nothing b v).appended
run_each-Appends [] (fs ∷ fss) b v h = absurd h
run_each-Appends (m ∷ ms) [] b v h = absurd h
run_each-Appends (m ∷ ms) (fs ∷ fss) b v h =
    let first : Appends (message_bytes fs) b (m b).1 = (h.0 b v).appended in
    rw (message_bytes-append fs (all_fields fss)) (
      Appends-trans (message_bytes fs) (message_bytes (all_fields fss)) first
        (run_each-Appends ms fss (m b).1 first.valid h.1))

-- What a caller sees of an encoder: the length of the text if it fits into the buffer, with the text
-- at the front of the buffer, and 0 if it does not fit. The buffer is still an array of C.
abbrev pub IsEncoding : List ℕ → ℕ → ℕ × List ℕ → Type 0
IsEncoding ys size (n, out) =
    (n ≡ (if leb (length ys) size then length ys else 0))
    × ((length ys ≤ size → take n out ≡ ys) × (length out < 2 ^ 63))

pub Appends-IsEncoding :
    (ys array : List ℕ) (size : ℕ) {b : PbBuffer}
    → Appends ys (pb_buffer_init_write array size) b
    → IsEncoding ys size (encoded b)
Appends-IsEncoding ys array size {b} a = (
  ground (arith, a.text, length-front b a.valid),
  ((λ h. ground (arith, a.text, length-front b a.valid)), a.valid.object),
)

pub run_each-IsEncoding :
    (ms : List Encoder) (fss : List (List Field)) (array : List ℕ) (size : ℕ)
    → size ≤ length array
    → length array < 2 ^ 63
    → EachWrites ms fss
    → IsEncoding
        (message_bytes (all_fields fss))
        size
        (encoded (run_each ms (pb_buffer_init_write array size)))
run_each-IsEncoding ms fss array size inside object h = Appends-IsEncoding _ array size (
    run_each-Appends ms fss _ (record { within = omega arith; backed = inside; object = object }) h)
