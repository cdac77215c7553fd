-- ===== src/Install/Payload/Laws.antt =====
-- Which payloads are let in.
use native.Mathlib.Decide.{dec_le}
use readyfleet_lightagent.Base.{
  ◌≡◌, ◌↔◌, refl, sym, ap, ◌∙◌, suc, ◌≤◌, String, Bool, true, false, List, [], ◌∷◌, ok, err, inl,
  inr, arith, ◌==◌, eq_iff, Result-cases, Bool-cases,
}
use readyfleet_lightagent.Base.Lists.{length, take, take_whole, length-take}
use readyfleet_lightagent.Base.Text.{Bytes, bytes}
use readyfleet_lightagent.Base.Disk.{Disk, read_file}
use readyfleet_lightagent.Install.Payload.{
  is_open, is_close, open_brace, close_brace, text, other, Field, Decoding, max_payload_bytes,
  invalid_payload, light_token_pattern, fields_of, parse_payload, load_payload,
}

-- The one field that is allowed.
abbrev pub the_field : String → Field
the_field token = record { key = ok (text "enrollment_token"); value = ok token }

no_second :
    (f : Field) (fs : List Field) (token : String) (r : Bool × String)
    → fields_of (f ∷ fs) true token ≡ ok r
    → ⊥
unfolding fields_of
no_second f fs token r h = elim (Result-cases f.key) [
  | inr (e, g) ↦ ground arith
  | inl (t, g) ↦
      elim t as (λ t. f.key ≡ ok t → ⊥) [
        | open_brace ↦ λ g. ground arith
        | close_brace ↦ λ g. ground arith
        | text k ↦ λ g. ground arith
        | other ↦ λ g. ground arith
      ]
        g
]

accepted :
    (f : Field) (fs : List Field) (r : Bool × String)
    → fields_of (f ∷ fs) false "" ≡ ok r
    → (v : String) × (f.key ≡ ok (text "enrollment_token"))
      × (f.value ≡ ok v)
      × (fields_of fs true v ≡ ok r)
unfolding fields_of
accepted f fs r h = elim (Result-cases f.key) [
  | inr (e, g) ↦ absurd (ground arith)
  | inl (t, g) ↦
      elim t
          as (λ t.
            f.key ≡ ok t
            → (v : String) × (f.key ≡ ok (text "enrollment_token"))
              × (f.value ≡ ok v)
              × (fields_of fs true v ≡ ok r)) [
                | open_brace ↦ λ g. absurd (ground arith)
                | close_brace ↦ λ g. absurd (ground arith)
                | other ↦ λ g. absurd (ground arith)
                | text k ↦ λ g. elim (Bool-cases (k == "enrollment_token")) [
                  | inr n ↦ absurd (ground arith)
                  | inl y ↦ elim (Result-cases f.value) [
                    | inr (e, w) ↦ absurd (ground arith)
                    | inl (v, w) ↦ (
                      v,
                      g ∙ ap (λ (s : String). ok (text s)) ((eq_iff k "enrollment_token").0 y),
                      w,
                      ground arith,
                    )
                  ]
                ]
              ]
        g
]

one_field :
    (fs : List Field) (token : String)
    → fields_of fs false "" ≡ ok (true, token)
    → fs ≡ the_field token ∷ []
unfolding fields_of
one_field [] token h = absurd (ground arith)
one_field (f ∷ []) token h =
    let (v, key, value, last) = accepted f [] (true, token) h in
    let same : v ≡ token = ground arith in ground arith
one_field (f ∷ g ∷ fs) token h =
    let (v, key, value, last) = accepted f (g ∷ fs) (true, token) h in
    absurd (no_second g fs v (true, token) last)

single : (token : String) → fields_of (the_field token ∷ []) false "" ≡ ok (true, token)
unfolding fields_of
single token = refl

opens : (d : Decoding) → is_open d.first ≡ true → d.first ≡ ok open_brace
opens d h = ground arith

closes : (d : Decoding) → is_close d.last ≡ true → d.last ≡ ok close_brace
closes d h = ground arith

-- A body that is let in: small enough, one object with the one field and nothing behind, and a token
-- of the right shape.
pub record IsStrict (d : Decoding) (body : Bytes) (token : String) : Type 0 where
  pub bounded : length body ≤ max_payload_bytes
  pub first : d.first ≡ ok open_brace
  pub one : d.fields ≡ the_field token ∷ []
  pub last : d.last ≡ ok close_brace
  pub at_end : d.at_end ≡ true
  pub shape : light_token_pattern (bytes token) ≡ true

-- A payload is accepted exactly if its body has at most 16 KiB and is one JSON object with nothing
-- behind it, whose one field is the enrollment token, in the shape `rft_` and 43 letters, digits,
-- underscores or dashes.
pub parse_payload-IsStrict :
    (decoder : Bytes → Decoding) (body : Bytes) (token : String)
    → (parse_payload decoder body ≡ ok (record { enrollment_token = token }))
      ↔ IsStrict (decoder body) body token
unfolding parse_payload
parse_payload-IsStrict decoder body token = (
  λ h. elim (Result-cases (fields_of (decoder body).fields false "")) [
    | inr (e, f) ↦ absurd (ground arith)
    | inl ((seen, t), f) ↦
        let good : seen ≡ true = ground arith in
        let same : t ≡ token = ground arith in
        record {
          bounded = ground arith;
          first = opens (decoder body) (ground arith);
          one = one_field (decoder body).fields token (ground arith);
          last = closes (decoder body) (ground arith);
          at_end = ground arith;
          shape = ground arith;
        }
  ],
  λ s.
      let fields : fields_of (decoder body).fields false "" ≡ ok (true, token) =
        ap (λ fs. fields_of fs false "") s.one ∙ single token in
      ground (arith, s.bounded, s.first, s.last, s.at_end, s.shape),
)

too_large :
    (decoder : Bytes → Decoding) (body : Bytes)
    → suc max_payload_bytes ≤ length body
    → parse_payload decoder body ≡ err (invalid_payload "too large")
unfolding parse_payload
too_large decoder body h = ground arith

bounded_read :
    (decoder : Bytes → Decoding) (path : String) (body : Bytes) (d : Disk)
    → (read_file path d).0 ≡ ok body
    → (load_payload decoder path d).0 ≡ parse_payload decoder (take (suc max_payload_bytes) body)
unfolding load_payload
bounded_read decoder path body d h = ground arith

-- The bounded read of a payload's file is enough: what is made of the file is what would be made of the
-- whole of its content.
pub load_payload_whole :
    (decoder : Bytes → Decoding) (path : String) (body : Bytes) (d : Disk)
    → (read_file path d).0 ≡ ok body
    → (load_payload decoder path d).0 ≡ parse_payload decoder body
load_payload_whole decoder path body d h =
    let read = bounded_read decoder path body d h in
    elim (dec_le (length body) (suc max_payload_bytes)) [
      | yes small ↦
          read ∙ ap (parse_payload decoder) (take_whole (suc max_payload_bytes) body small)
      | no big ↦
          let long : suc max_payload_bytes ≤ length body = omega arith in
          read
          ∙ too_large decoder (take (suc max_payload_bytes) body)
              (omega (arith, length-take (suc max_payload_bytes) body))
          ∙ sym (too_large decoder body long)
    ]
