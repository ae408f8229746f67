-- ===== src/Crypto/Hex.antt =====
-- `bytes.fromhex` and `bytes.hex`, as crypto/merkle.py calls them in `_hex_to_bytes` and
-- `_bytes_to_hex`.
use fanxiangdiguijiexi.Prelude.{
  ℕ, ◌+◌, ◌-◌, ◌*◌, ◌/◌, ◌%◌, ◌<◌, ◌≡◌, refl, Bool, true, false, ◌&&◌, ◌||◌, Option, none, some,
  List, [], ◌∷◌, arith, leb, ltb, ◌==◌, if◌then◌else◌, All, Text, lower, Outcome, ok, raised,
  PyError, value_error,
}

-- A hexadecimal digit's value, either case.
unfoldable pub hex_value : ℕ → Option ℕ
hex_value c =
    if leb b'0' c && leb c b'9'
    then some (c - 48)
    else if leb b'a' c && leb c b'f'
    then some (c - 87)
    else if leb b'A' c && leb c b'F'
    then some (c - 55)
    else none

unfoldable pub hex_digit : ℕ → ℕ
hex_digit v = if ltb v 10 then v + 48 else v + 87

-- ASCII white space, which `bytes.fromhex` skips between bytes.
unfoldable pub is_space : ℕ → Bool
is_space c = c == 32 || (leb 9 c && leb c 13)

-- One byte of two digits, before what follows.
unfoldable pub hex_byte : Option ℕ → Option ℕ → Outcome PyError (List ℕ) → Outcome PyError (List ℕ)
hex_byte (some h) (some l) (ok rest) = ok ((h * 16 + l) ∷ rest)
hex_byte (some h) (some l) (raised e) = raised e
hex_byte _ _ _ = raised value_error

unfoldable pub fromhex : Text → Outcome PyError (List ℕ)
unfolding hex_value is_space hex_byte
fromhex [] = ok []
fromhex (c ∷ []) = if is_space c then ok [] else raised value_error
fromhex (c ∷ d ∷ rest) = elim (is_space c) [
  | true ↦ fromhex (d ∷ rest)
  | false ↦ hex_byte (hex_value c) (hex_value d) (fromhex rest)
]

unfoldable pub hex : List ℕ → Text
unfolding hex_digit
hex [] = []
hex (b ∷ rest) = hex_digit (b / 16) ∷ hex_digit (b % 16) ∷ hex rest

-- `value[2:] if value.startswith("0x") else value`
abbrev pub strip_0x : Text → Text
strip_0x [] = []
strip_0x (c ∷ []) = c ∷ []
strip_0x (c ∷ d ∷ rest) = if c == b'0' && d == b'x' then rest else c ∷ d ∷ rest

unfoldable pub hex_to_bytes : Text → Outcome PyError (List ℕ)
hex_to_bytes value = fromhex (strip_0x value)

unfoldable pub bytes_to_hex : List ℕ → Text
bytes_to_hex value = b'0' ∷ b'x' ∷ hex value

abbrev pub IsBytes : List ℕ → Type 0
IsBytes = All (λ b. b < 256)

hex_digit_lem :
    (v : ℕ) → v < 16 → (hex_value (hex_digit v) ≡ some v) × (is_space (hex_digit v) ≡ false)
unfolding hex_value hex_digit is_space
hex_digit_lem v h = (ground arith, ground arith)

fromhex-hex : (bs : List ℕ) → IsBytes bs → fromhex (hex bs) ≡ ok bs
unfolding fromhex hex hex_byte
fromhex-hex [] h = refl
fromhex-hex (b ∷ bs) h = ground (
  arith,
  hex_digit_lem (b / 16) (omega arith),
  hex_digit_lem (b % 16) (omega arith),
  fromhex-hex bs h.1,
)

lower-hex_digit : (v : ℕ) → v < 16 → lower (hex_digit v ∷ []) ≡ hex_digit v ∷ []
unfolding lower hex_digit
lower-hex_digit v h = ground arith

lower-hex : (bs : List ℕ) → IsBytes bs → lower (hex bs) ≡ hex bs
unfolding lower hex
lower-hex [] h = refl
lower-hex (b ∷ bs) h = ground (arith, lower-hex bs h.1)

-- Decoding what was encoded gives the bytes back.
pub hex_to_bytes-bytes_to_hex : (bs : List ℕ) → IsBytes bs → hex_to_bytes (bytes_to_hex bs) ≡ ok bs
unfolding hex_to_bytes bytes_to_hex
hex_to_bytes-bytes_to_hex bs h = fromhex-hex bs h

-- The encoding is in lower case already.
pub lower-bytes_to_hex : (bs : List ℕ) → IsBytes bs → lower (bytes_to_hex bs) ≡ bytes_to_hex bs
unfolding bytes_to_hex lower
lower-bytes_to_hex bs h = ground (arith, lower-hex bs h)
