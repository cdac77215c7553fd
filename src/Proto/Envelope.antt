-- ===== src/Proto/Envelope.antt =====
-- `Envelope` of proto/messages.go, and the decoding of what it carries.
use readyfleet_lightagent.Base.{
  ℕ, String, Option, none, some, [], ◌∷◌, Result, ok, err, errorf, wrap, eqb, if◌then◌else◌,
}
use readyfleet_lightagent.Base.Text.{Bytes}
use readyfleet_lightagent.Proto.{CommandData}

-- A UUID is a number, and uuid.Nil is 0. Raw JSON with no bytes is absent.
pub record Envelope : Type 0 where
  pub id : ℕ
  pub type : String
  pub in_reply_to : Option ℕ
  pub timestamp : ℕ
  pub payload : Bytes

abbrev assemble : String → ℕ → Option ℕ → ℕ → Option (Result Bytes) → Result Envelope
assemble t id reply_to now none =
    ok (record { id = id; type = t; in_reply_to = reply_to; timestamp = now; payload = [] })
assemble t id reply_to now (some (ok raw)) =
    ok (record { id = id; type = t; in_reply_to = reply_to; timestamp = now; payload = raw })
assemble t id reply_to now (some (err e)) = err (wrap "proto: marshal data for %s: %w" e)

-- NewEnvelope, given what uuid.New would return, the clock, and what json.Marshal returns for the
-- data, if there is data.
unfoldable pub new_envelope :
    ℕ → ℕ → String → ℕ → Option ℕ → Option (Result Bytes) → Result Envelope
new_envelope fresh now t id reply_to marshaled =
    assemble t (if eqb id 0 then fresh else id) reply_to now marshaled

abbrev decoded {ℓ} : {A : Type ℓ} → Result A → Result A
decoded (ok a) = ok a
decoded (err e) = err (wrap "proto: decode %s data: %w" e)

-- Envelope.DecodeData; `unmarshal` is json.Unmarshal into the type that is wanted.
unfoldable pub decode_data {ℓ} : {A : Type ℓ} → Envelope → (Bytes → Result A) → Result A
decode_data e unmarshal = elim e.payload [
  | [] ↦ err (errorf "proto: envelope %s carries no data" (e.type ∷ []))
  | b ∷ bs ↦ decoded (unmarshal (b ∷ bs))
]

-- CommandData.DecodeArgs
unfoldable pub decode_args {ℓ} : {A : Type ℓ} → CommandData → (Bytes → Result A) → Result A
decode_args c unmarshal = elim c.args [
  | [] ↦ err (errorf "proto: command %s has no args" (c.kind ∷ []))
  | b ∷ bs ↦ unmarshal (b ∷ bs)
]
