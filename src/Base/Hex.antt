-- ===== src/Base/Hex.antt =====
-- The conversions `%02X` and `%02x` of `printf` and `scanf`.
use Prim.Native.Nat.{ℕ, ◌+◌, ◌-◌, ◌*◌, ◌/◌, ◌%◌, ◌^◌, ◌<◌}
use mathlib.Core.Path.{◌≡◌, refl}
use mathlib.Core.Logic.{◌⊎◌, inl, inr}
use mathlib.Core.Bool.{Bool, false, ◌&&◌, ◌||◌}
use mathlib.Core.Option.{Option, none, some}
use mathlib.Core.List.{List, [], ◌∷◌, ◌++◌}
use native.Mathlib.Omega.{arith}
use esphome_linux.Base.Tests.{ltb, leb, ◌==◌, if◌then◌else◌}

-- A digit below 16; `letter` is `A` or `a`.
abbrev pub hex_char : ℕ → ℕ → ℕ
hex_char letter d = if ltb d 10 then 48 + d else letter + (d - 10)

-- What `printf` writes for a byte.
abbrev pub print_hex : ℕ → ℕ → List ℕ
print_hex letter x = hex_char letter (x / 16) ∷ hex_char letter (x % 16) ∷ []

abbrev pub print_colons : ℕ → List ℕ → List ℕ
print_colons letter [] = []
print_colons letter (x ∷ xs) = 58 ∷ (print_hex letter x ++ print_colons letter xs)

-- The bytes of an address in hexadecimal digits, with colons between them; `letter` is `A` or `a`.
abbrev pub print_address : ℕ → List ℕ → List ℕ
print_address letter [] = []
print_address letter (x ∷ xs) = print_hex letter x ++ print_colons letter xs

unfoldable pub hex_digit : ℕ → Option ℕ
hex_digit c =
    if leb 48 c && leb c 57
    then some (c - 48)
    else if leb 65 c && leb c 70
    then some (c - 55)
    else if leb 97 c && leb c 102
    then some (c - 87)
    else none

abbrev is_space : ℕ → Bool
is_space c = c == 32 || leb 9 c && leb c 13

abbrev is_sign : ℕ → Bool
is_sign c = c == 43 || c == 45

skip_space : List ℕ → List ℕ
skip_space [] = []
skip_space (c ∷ s) = if is_space c then skip_space s else c ∷ s

-- The digit behind a sign; a negative number is its bit pattern in 32 bits.
scan_signed : ℕ → List ℕ → Option (ℕ × List ℕ)
unfolding hex_digit
scan_signed sign [] = none
scan_signed sign (c ∷ s) = elim (hex_digit c) [
  | none ↦ none
  | some d ↦ some ((if sign == 45 then (2 ^ 32 - d) % 2 ^ 32 else d), s)
]

-- The second character of the two behind a first digit; `0x` begins a number and is none.
scan_second : ℕ → List ℕ → Option (ℕ × List ℕ)
unfolding hex_digit
scan_second d [] = some (d, [])
scan_second d (c ∷ s) = elim (hex_digit c) [
  | none ↦ if d == 0 && (c == 120 || c == 88) then none else some (d, c ∷ s)
  | some e ↦ some (d * 16 + e, s)
]

scan_item : List ℕ → Option (ℕ × List ℕ)
unfolding scan_signed scan_second hex_digit
scan_item [] = none
scan_item (c ∷ s) =
    if is_sign c
    then scan_signed c s
    else elim (hex_digit c) [ none ↦ none | some d ↦ scan_second d s ]

-- What `scanf` reads by either conversion, and the text behind it.
unfoldable pub scan_hex : List ℕ → Option (ℕ × List ℕ)
unfolding skip_space scan_item
scan_hex s = scan_item (skip_space s)

-- The letter that digits from 10 on begin with.
abbrev pub IsLetter : ℕ → Type 0
IsLetter letter = (letter ≡ 65) ⊎ (letter ≡ 97)

hex_digit-hex_char :
    (letter d : ℕ) → IsLetter letter → d < 16 → hex_digit (hex_char letter d) ≡ some d
unfolding hex_digit
hex_digit-hex_char letter d (inl e) h = ground arith
hex_digit-hex_char letter d (inr e) h = ground arith

hex_char-plain :
    (letter d : ℕ)
    → IsLetter letter
    → d < 16
    → (is_space (hex_char letter d) ≡ false) × (is_sign (hex_char letter d) ≡ false)
hex_char-plain letter d (inl e) h = ground arith
hex_char-plain letter d (inr e) h = ground arith

-- A byte that was printed is read back, and what follows it is left.
pub scan_hex-print_hex :
    (letter x : ℕ) (s : List ℕ)
    → IsLetter letter
    → x < 256
    → scan_hex (print_hex letter x ++ s) ≡ some (x, s)
unfolding scan_hex
scan_hex-print_hex letter x s l h =
    let high = hex_digit-hex_char letter (x / 16) l (omega arith) in
    let low = hex_digit-hex_char letter (x % 16) l (omega arith) in
    let plain = hex_char-plain letter (x / 16) l (omega arith) in
    let whole : x / 16 * 16 + x % 16 ≡ x = omega arith in
    rw (plain.0, plain.1, high, scan_second, low, whole) refl
