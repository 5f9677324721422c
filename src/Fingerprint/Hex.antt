-- ===== src/Fingerprint/Hex.antt =====
-- encoding/hex, as utils.go uses it: EncodeToString and DecodeString.
use git_kmssign.Base.{
  ℕ, ◌+◌, ◌-◌, ◌*◌, ◌/◌, ◌%◌, ◌<◌, ◌≡◌, refl, false, ◌&&◌, [], ◌∷◌, Bytes, All, Option, none, some,
  leb, ltb, ◌==◌, arith, if◌then◌else◌,
}
use git_kmssign.Base.Text.{Text}

pub hex_digit : ℕ → ℕ
hex_digit n = if ltb n 10 then b'0' + n else b'a' + (n - 10)

hex_value : ℕ → Option ℕ
hex_value c =
    if leb b'0' c && leb c b'9'
    then some (c - b'0')
    else if leb b'a' c && leb c b'f'
    then some (c - b'a' + 10)
    else if leb b'A' c && leb c b'F'
    then some (c - b'A' + 10)
    else none

unfoldable pub encode_hex : Bytes → Text
unfolding hex_digit
encode_hex [] = []
encode_hex (b ∷ bs) = hex_digit (b / 16) ∷ hex_digit (b % 16) ∷ encode_hex bs

byte_of : Option ℕ → Option ℕ → Option Bytes → Option Bytes
byte_of (some hi) (some lo) (some bs) = some ((hi * 16 + lo) ∷ bs)
byte_of _ _ _ = none

-- An odd number of digits, or a character that is no digit, is an error.
unfoldable pub decode_hex : Text → Option Bytes
unfolding hex_value byte_of
decode_hex [] = some []
decode_hex (a ∷ []) = none
decode_hex (a ∷ b ∷ rest) = byte_of (hex_value a) (hex_value b) (decode_hex rest)

abbrev pub IsBytes : Bytes → Type 0
IsBytes = All (λ b. b < 256)

hex_value-hex_digit : (n : ℕ) → n < 16 → hex_value (hex_digit n) ≡ some n
unfolding hex_value hex_digit
hex_value-hex_digit n h = ground arith

pub decode_hex-encode_hex : (bs : Bytes) → IsBytes bs → decode_hex (encode_hex bs) ≡ some bs
unfolding decode_hex encode_hex
decode_hex-encode_hex [] h = refl
decode_hex-encode_hex (b ∷ bs) (hb, hbs) =
    let whole : b / 16 * 16 + b % 16 ≡ b = omega arith in
    rw
      (
        hex_value-hex_digit (b / 16) (omega arith),
        hex_value-hex_digit (b % 16) (omega arith),
        decode_hex-encode_hex bs hbs,
        whole,
      )
      refl

-- No digit is an x.
pub hex_digit-x : (n : ℕ) → n < 16 → (hex_digit n == b'x') ≡ false
unfolding hex_digit
hex_digit-x n h = ground arith
