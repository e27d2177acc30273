-- ===== src/Scanner/Address.antt =====
-- Reading the text of an address, `parse_mac_address` of ble_scanner.cpp.
use esphome_linux.Base.{ℕ, ◌%◌, ◌<◌, ◌≡◌, refl, ap, some, List, [], ◌∷◌, All, arith, map, length}
use esphome_linux.Base.Hex.{IsLetter, print_colons, print_address, scan_hex-print_hex}
use esphome_linux.Scanner.{scan_colons, scan_address, parse_mac_address}

abbrev pub IsByte : ℕ → Type 0
IsByte x = x < 256

scan_colons-print_colons :
    (letter : ℕ) (xs : List ℕ)
    → IsLetter letter
    → All IsByte xs
    → scan_colons (length xs) (print_colons letter xs) ≡ some xs
unfolding scan_colons
scan_colons-print_colons letter [] l h = refl
scan_colons-print_colons letter (x ∷ xs) l (hx, hs) =
    rw
      (
        scan_hex-print_hex letter x (print_colons letter xs) l hx,
        scan_colons-print_colons letter xs l hs,
        scan_colons,
      )
      refl

narrow-bytes : (xs : List ℕ) → All IsByte xs → map (λ v. v % 256) xs ≡ xs
narrow-bytes [] h = refl
narrow-bytes (x ∷ xs) (hx, hs) =
    let low : x % 256 ≡ x = omega arith in rw low (ap (λ t. x ∷ t) (narrow-bytes xs hs))

scan_address-print_address :
    (letter x : ℕ) (xs : List ℕ)
    → IsLetter letter
    → All IsByte (x ∷ xs)
    → length xs ≡ 5
    → scan_address (print_address letter (x ∷ xs)) ≡ some (x ∷ xs)
unfolding scan_address
scan_address-print_address letter x xs l (hx, hs) e =
    let rest : scan_colons 5 (print_colons letter xs) ≡ some xs =
      rw e at (scan_colons-print_colons letter xs l hs) in
    rw (scan_hex-print_hex letter x (print_colons letter xs) l hx, rest, scan_address) refl

-- The text of six bytes in hexadecimal digits, all upper case or all lower case, is read as these
-- bytes.
pub parse_mac_address-print_address :
    (letter x : ℕ) (xs : List ℕ)
    → IsLetter letter
    → All IsByte (x ∷ xs)
    → length xs ≡ 5
    → parse_mac_address (print_address letter (x ∷ xs)) ≡ some (x ∷ xs)
unfolding parse_mac_address
parse_mac_address-print_address letter x xs l h e =
    rw (scan_address-print_address letter x xs l h e, narrow-bytes (x ∷ xs) h, parse_mac_address)
      refl
