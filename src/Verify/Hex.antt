-- ===== src/Verify/Hex.antt =====
-- agent/internal/verify/artifact_security.go: the shape of a digest, with the functions of
-- `encoding/hex` and `strings` that it is read by.
pub mod Laws
use readyfleet_lightagent.Base.{
  ℕ, ◌+◌, ◌-◌, ◌*◌, ◌/◌, ◌%◌, String, Bool, true, false, ◌&&◌, ◌||◌, not, Option, none, some, List,
  [], ◌∷◌, Result, ok, err, Error, is_ok, leb, ltb, eqb, if◌then◌else◌, new,
}
use readyfleet_lightagent.Base.Lists.{length}
use readyfleet_lightagent.Base.Text.{Bytes, bytes}

-- strings.ToLower on a byte. Other letters of Unicode stay: a text that holds one is refused by
-- `decode_string` all the same.
abbrev pub lower : ℕ → ℕ
lower c = if leb b'A' c && leb c b'Z' then c + 32 else c

abbrev pub is_lower : Bytes → Bool
is_lower [] = true
is_lower (c ∷ s) = eqb (lower c) c && is_lower s

-- The value of a hexadecimal digit, in either case.
abbrev pub digit : ℕ → Option ℕ
digit c =
    if leb b'0' c && leb c b'9'
    then some (c - b'0')
    else if leb b'a' c && leb c b'f'
    then some (c - b'a' + 10)
    else if leb b'A' c && leb c b'F'
    then some (c - b'A' + 10)
    else none

abbrev pub bad_hex : Error
bad_hex = new "encoding/hex: invalid byte or odd length"

abbrev pair : Option ℕ → Option ℕ → Result Bytes → Result Bytes
pair (some h) (some l) (ok rest) = ok ((16 * h + l) ∷ rest)
pair _ _ _ = err bad_hex

-- hex.DecodeString
unfoldable pub decode_string : Bytes → Result Bytes
decode_string [] = ok []
decode_string (h ∷ []) = err bad_hex
decode_string (h ∷ l ∷ rest) = pair (digit h) (digit l) (decode_string rest)

abbrev pub hex_digit : ℕ → ℕ
hex_digit n = if ltb n 10 then b'0' + n else b'a' + (n - 10)

-- hex.EncodeToString
unfoldable pub encode_to_string : Bytes → Bytes
encode_to_string [] = []
encode_to_string (b ∷ rest) = hex_digit (b / 16) ∷ hex_digit (b % 16) ∷ encode_to_string rest

-- ValidLowerHex256
unfoldable pub valid_lower_hex256 : String → Bool
unfolding decode_string
valid_lower_hex256 value =
    if not (eqb (length (bytes value)) 64) || not (is_lower (bytes value))
    then false
    else is_ok (decode_string (bytes value))
