-- ===== src/Verify/Hex/Laws.antt =====
-- What the digest test accepts, and that decoding inverts encoding.
use mathlib.Core.Path.{ap₂}
use mathlib.Core.Bool.{false≢true}
use readyfleet_lightagent.Base.{
  ℕ, zero, suc, ◌<◌, ◌/◌, ◌%◌, String, ◌≡◌, refl, ◌↔◌, inl, inr, Bool, true, false, ◌&&◌, ◌||◌,
  Option, none, some, [], ◌∷◌, Result, ok, err, is_ok, ap, ◌∙◌, arith, leb, ltb, eqb, Bool-cases,
  eqb_iff, not, if◌then◌else◌,
}
use readyfleet_lightagent.Base.Lists.{length, all}
use readyfleet_lightagent.Base.Text.{Bytes, bytes}
use readyfleet_lightagent.Verify.Hex.{
  lower, is_lower, digit, pair, decode_string, encode_to_string, hex_digit, valid_lower_hex256,
}

-- A digit, or one of the letters a to f.
abbrev pub is_lower_hex : ℕ → Bool
is_lower_hex c = (leb b'0' c && leb c b'9') || (leb b'a' c && leb c b'f')

-- Whether a length is even.
even : ℕ → Bool
even zero = true
even (suc zero) = false
even (suc (suc n)) = even n

abbrev is_some : Option ℕ → Bool
is_some (some _) = true
is_some none = false

pair_ok :
    (x y : Option ℕ) (r : Result Bytes) → is_ok (pair x y r) ≡ (is_some x && (is_some y && is_ok r))
pair_ok none y r = refl
pair_ok (some x) none r = refl
pair_ok (some x) (some y) (ok r) = refl
pair_ok (some x) (some y) (err e) = refl

digit_lower : (c : ℕ) → (is_some (digit c) && eqb (lower c) c) ≡ is_lower_hex c
digit_lower c = ground arith

regroup :
    (a b c d e f : Bool)
    → ((a && (b && c)) && (d && (e && f))) ≡ ((d && a) && ((e && b) && (c && f)))
regroup a b c d e f = ground arith

decode-all :
    (s : Bytes)
    → even (length s) ≡ true
    → (is_lower s && is_ok (decode_string s)) ≡ all is_lower_hex s
unfolding decode_string even
decode-all [] h = refl
decode-all (c ∷ []) h = absurd (false≢true h)
decode-all (c ∷ d ∷ s) h =
    ap (λ k. (eqb (lower c) c && (eqb (lower d) d && is_lower s)) && k)
      (pair_ok (digit c) (digit d) (decode_string s))
    ∙ regroup (eqb (lower c) c) (eqb (lower d) d) (is_lower s) (is_some (digit c))
        (is_some (digit d)) (is_ok (decode_string s))
    ∙ ap₂ ◌&&◌ (digit_lower c) (ap₂ ◌&&◌ (digit_lower d) (decode-all s h))

hex_digit-digit : (n : ℕ) → n < 16 → digit (hex_digit n) ≡ some n
hex_digit-digit n h = ground arith

decode-encode :
    (s : Bytes) → all (λ b. ltb b 256) s ≡ true → decode_string (encode_to_string s) ≡ ok s
unfolding decode_string encode_to_string
decode-encode [] h = refl
decode-encode (b ∷ s) h =
    ground (arith, decode-encode s, hex_digit-digit (b / 16), hex_digit-digit (b % 16))

even-64 : (n : ℕ) → n ≡ 64 → even n ≡ true
unfolding even
even-64 n h = rw h

shape_iff :
    (n : ℕ) (low decodes hex : Bool)
    → (n ≡ 64 → (low && decodes) ≡ hex)
    → ((if not (eqb n 64) || not low then false else decodes) ≡ true) ↔ ((n ≡ 64) × (hex ≡ true))
shape_iff n low decodes hex h = elim (Bool-cases (eqb n 64)) [
  | inl e ↦ let k = h ((eqb_iff n 64).0 e) in ground arith
  | inr e ↦ ground arith
]

-- A text passes exactly when it is 64 bytes long and each is a digit or a letter from a to f.
pub valid_lower_hex256_iff :
    (value : String)
    → (valid_lower_hex256 value ≡ true)
      ↔ ((length (bytes value) ≡ 64) × (all is_lower_hex (bytes value) ≡ true))
unfolding valid_lower_hex256
valid_lower_hex256_iff value =
    shape_iff (length (bytes value)) (is_lower (bytes value)) (is_ok (decode_string (bytes value)))
      (all is_lower_hex (bytes value)) (λ e. decode-all (bytes value) (even-64 _ e))
