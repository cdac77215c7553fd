-- ===== src/Install/Payload.antt =====
-- agent/internal/lightinstall/payload.go: the file that carries the token of an enrollment.
pub mod Laws
use readyfleet_lightagent.Base.{
  ◌≡◌, ◌↔◌, refl, sym, ap, ◌∙◌, ℕ, suc, ◌*◌, ◌≤◌, String, Bool, true, false, not, ◌&&◌, ◌||◌, List,
  [], ◌∷◌, Error, new, errorf, Result, ok, err, Act, pure, fail, lift, catch, ◌>>=◌, ◌>>◌, ◌==◌,
  eqb, ltb, leb, inl, inr, Option, none, some, wrap, is_not_exist, if◌then◌else◌, arith, eqb_iff,
  eq_iff, Result-cases, Bool-cases,
}
use readyfleet_lightagent.Base.Lists.{length, all, take}
use readyfleet_lightagent.Base.Text.{Bytes, bytes}
use readyfleet_lightagent.Base.Disk.{Disk, read_file, remove}

abbrev pub max_payload_bytes : ℕ
max_payload_bytes = 16 * 1024

-- A token of encoding/json: json.Delim('{'), json.Delim('}'), a string, or another one.
pub data Token : Type 0 where
  open_brace : Token
  close_brace : Token
  text : String → Token
  other : Token

-- One turn of the loop: what Token returns for the key, and what Decode into a string does.
pub record Field : Type 0 where
  pub key : Result Token
  pub value : Result String

-- What a json.Decoder returns over a body: the first token, then one field for each time that More
-- holds, the token after them, and whether there is nothing behind.
pub record Decoding : Type 0 where
  pub first : Result Token
  pub fields : List Field
  pub last : Result Token
  pub at_end : Bool

pub record Payload : Type 0 where
  pub enrollment_token : String

unfoldable pub invalid_payload : String → Error
invalid_payload reason = errorf "lightinstall: invalid enrollment payload: %s" (reason ∷ [])

abbrev pub is_open : Result Token → Bool
is_open (ok open_brace) = true
is_open _ = false

abbrev pub is_close : Result Token → Bool
is_close (ok close_brace) = true
is_close _ = false

-- a letter, a digit, '_' or '-'
abbrev pub is_token_byte : ℕ → Bool
is_token_byte c =
    (leb 65 c && leb c 90)
    || (leb 97 c && leb c 122)
    || (leb 48 c && leb c 57)
    || eqb c 95
    || eqb c 45

-- lightTokenPattern
unfoldable pub light_token_pattern : Bytes → Bool
light_token_pattern (a ∷ b ∷ c ∷ d ∷ s) =
    eqb a 114 && eqb b 102 && eqb c 116 && eqb d 95 && eqb (length s) 43 && all is_token_byte s
light_token_pattern _ = false

-- `key, ok := token.(string); !ok || key != "enrollment_token" || seen`
abbrev accepted_key : Result Token → Bool → Result (Unit {0})
accepted_key (err e) seen = err (invalid_payload "invalid JSON")
accepted_key (ok (text k)) seen =
    if k == "enrollment_token" && not seen
    then ok tt
    else err (invalid_payload "unexpected or duplicate field")
accepted_key (ok _) seen = err (invalid_payload "unexpected or duplicate field")

abbrev decoded : Result String → Result String
decoded (ok v) = ok v
decoded (err e) = err (invalid_payload "field must be a string")

-- The loop of ParsePayload, from the token and `seen` so far.
unfoldable pub fields_of : List Field → Bool → String → Result (Bool × String)
unfolding invalid_payload
fields_of [] seen token = ok (seen, token)
fields_of (f ∷ fs) seen token = elim (accepted_key f.key seen) [
  | err e ↦ err e
  | ok u ↦ elim (decoded f.value) [ err e ↦ err e | ok v ↦ fields_of fs true v ]
]

abbrev finished : Decoding → Bool × String → Result Payload
finished d (seen, token) =
    if not (is_close d.last)
    then err (invalid_payload "invalid JSON")
    else if not d.at_end
    then err (invalid_payload "trailing data")
    else if not seen || not (light_token_pattern (bytes token))
    then err (invalid_payload "single-use enrollment token required")
    else ok (record { enrollment_token = token })

-- ParsePayload, over the decoder of a body
unfoldable pub parse_payload : (Bytes → Decoding) → Bytes → Result Payload
unfolding fields_of invalid_payload
parse_payload decoder body =
    if ltb max_payload_bytes (length body)
    then err (invalid_payload "too large")
    else if not (is_open (decoder body).first)
    then err (invalid_payload "invalid JSON")
    else elim (fields_of (decoder body).fields false "") [
      | err e ↦ err e
      | ok r ↦ finished (decoder body) r
    ]

-- LoadPayload; os.Open and the bounded read are one call
unfoldable pub load_payload : (Bytes → Decoding) → String → Act Disk Payload
unfolding invalid_payload
load_payload decoder path = do
  body ← catch (read_file path) (λ e. fail (invalid_payload "read"))
  lift (parse_payload decoder (take (suc max_payload_bytes) body))

-- RemovePayload
unfoldable pub remove_payload : String → Act Disk (Unit {0})
remove_payload path =
    catch (remove path)
      (λ e. if is_not_exist e then pure tt else fail (wrap "lightinstall: remove payload: %w" e))
