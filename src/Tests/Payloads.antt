-- ===== src/Tests/Payloads.antt =====
-- The payload of an installer at concrete inputs.
use readyfleet_lightagent.Base.{String, true, ◌≡◌, ◌↔◌, [], ◌∷◌, ok}
use readyfleet_lightagent.Base.Text.{Bytes}
use readyfleet_lightagent.Install.Payload.{open_brace, close_brace, Decoding, parse_payload}
use readyfleet_lightagent.Install.Payload.Laws.{the_field, IsStrict, parse_payload-IsStrict}

abbrev token : String
token = "rft_0123456789abcdefghijABCDEFGHIJ-_0123456789abc"

abbrev decoder : Bytes → Decoding
decoder body = record {
  first = ok open_brace;
  fields = the_field token ∷ [];
  last = ok close_brace;
  at_end = true;
}

parse_payload-IsStrict_example :
    (parse_payload decoder (123 ∷ 125 ∷ []) ≡ ok (record { enrollment_token = token }))
    ↔ IsStrict (decoder (123 ∷ 125 ∷ [])) (123 ∷ 125 ∷ []) token
parse_payload-IsStrict_example = parse_payload-IsStrict decoder (123 ∷ 125 ∷ []) token
