-- ===== src/Verify/Authenticode/Laws.antt =====
-- Which files pass, and that Windows gets its handles back.
use readyfleet_lightagent.Base.{
  ℕ, String, Bool, true, ◌≡◌, ◌≢◌, ◌↔◌, ◌⊎◌, inl, inr, refl, Option, [], ◌∷◌, Error, ok, err,
  Result-cases, arith, eqb_iff,
}
use readyfleet_lightagent.Base.Lists.{length}
use readyfleet_lightagent.Base.Text.{Bytes, bytes, bytes_eq, bytes_eq_lem}
use readyfleet_lightagent.Verify.Hex.{decode_string, is_lower}
use readyfleet_lightagent.Verify.Authenticode.{
  Windows, Handles, verify_signer_certificate_der, verify_trust, trusted,
  crypt_msg_signer_cert_info, signer_certificate_der, verify_authenticode_with,
}

-- The certificate's digest is the one that the fingerprint spells, in 64 lowercase digits.
pub record IsPinned (sha256 : Bytes → Bytes) (cert_der : Bytes) (fingerprint : String)
    : Type 0 where
  pub present : cert_der ≢ []
  pub lower : is_lower (bytes fingerprint) ≡ true
  pub digest : decode_string (bytes fingerprint) ≡ ok (sha256 cert_der)
  pub size : length (sha256 cert_der) ≡ 32

bytes_eq_self : (xs : Bytes) → bytes_eq xs xs ≡ true
bytes_eq_self [] = refl
bytes_eq_self (x ∷ xs) = ground (arith, bytes_eq_self xs, eqb_iff x x)

verify_signer-IsPinned :
    (sha256 : Bytes → Bytes) (cert_der : Bytes) (fingerprint : String)
    → (verify_signer_certificate_der sha256 cert_der fingerprint ≡ ok tt)
      ↔ IsPinned sha256 cert_der fingerprint
unfolding verify_signer_certificate_der
verify_signer-IsPinned sha256 [] f = (λ h. absurd (ground arith), λ h. absurd (h.present refl))
verify_signer-IsPinned sha256 (b ∷ bs) f = elim (Result-cases (decode_string (bytes f))) [
  | inr (e, g) ↦ (λ h. absurd (ground arith), λ h. absurd (ground (arith, h.digest)))
  | inl (d, g) ↦ (
    λ h.
        let same = bytes_eq_lem (sha256 (b ∷ bs)) d (ground arith) in
        record {
          present = λ e. cc;
          lower = ground arith;
          digest = ground arith;
          size = ground (arith, eqb_iff (length d) 32);
        },
    λ h.
        ground
          (arith, h.digest, eqb_iff (length (sha256 (b ∷ bs))) 32, bytes_eq_self (sha256 (b ∷ bs))),
  )
]

module _ (w : Windows) where
  -- The certificate that signed the file: Windows finds its message, the signer's identity in it,
  -- and with that the certificate.
  pub record IsSigner (file : Option Bytes) (der : Bytes) : Type 0 where
    pub message : w.Message
    pub queried : w.query_object file ≡ ok message
    pub size : ℕ
    pub sized : w.param_size message ≡ ok size
    pub positive : size ≢ 0
    pub info : Bytes
    pub identified : w.param message size ≡ ok info
    pub found : w.find_certificate message info ≡ ok der

  certificate-IsSigner :
      (file : Option Bytes) (h : Handles) (der : Bytes)
      → (signer_certificate_der w file h).0 ≡ ok der
      → IsSigner file der
  unfolding signer_certificate_der crypt_msg_signer_cert_info
  certificate-IsSigner file h der e = elim (Result-cases (w.query_object file)) [
    | inr (x, f) ↦ absurd (ground arith)
    | inl (msg, f) ↦ elim (Result-cases (w.param_size msg)) [
      | inr (x, g) ↦ absurd (ground arith)
      | inl (size, g) ↦ elim (Result-cases (w.param msg size)) [
        | inr (x, i) ↦ absurd (ground (arith, eqb_iff size 0))
        | inl (info, i) ↦ record {
          message = msg;
          queried = f;
          size = size;
          sized = g;
          positive = ground (arith, eqb_iff size 0);
          info = info;
          identified = i;
          found = ground (arith, eqb_iff size 0);
        }
      ]
    ]
  ]

  signer_certificate_balanced :
      (file : Option Bytes) (h : Handles) → (signer_certificate_der w file h).1 ≡ h
  unfolding signer_certificate_der
  signer_certificate_balanced file h = ground arith

  verify_trust_balanced : (file : Option Bytes) (h : Handles) → (verify_trust w file h).1 ≡ h
  unfolding verify_trust
  verify_trust_balanced file h = ground arith

  -- A check of a signature gives Windows back every handle, whatever it returns.
  pub authenticode_balanced :
      (allow : Bool) (path : String) (file : Option Bytes) (fingerprint : String) (h : Handles)
      → (verify_authenticode_with w allow path file fingerprint h).1 ≡ h
  unfolding verify_authenticode_with
  authenticode_balanced allow path file fingerprint h =
      ground (arith, verify_trust_balanced file h, signer_certificate_balanced file h)

  IsSigner-certificate :
      (file : Option Bytes) (h : Handles) (der : Bytes)
      → IsSigner file der
      → (signer_certificate_der w file h).0 ≡ ok der
  unfolding signer_certificate_der crypt_msg_signer_cert_info
  IsSigner-certificate file h der s =
      let info : crypt_msg_signer_cert_info w s.message ≡ ok s.info =
        ground (arith, eqb_iff s.size 0) in
      ground (arith, s.queried, s.found)

  -- Windows trusts the file, or only lacks the root of its chain where that is allowed.
  abbrev IsTrusted : Bool → Option Bytes → Type 0
  IsTrusted allow file =
      (w.verify_trust file ≡ ok tt)
      ⊎ ((e : Error) × (w.verify_trust file ≡ err e)
          × (allow ≡ true)
          × (w.is_untrusted_root e ≡ true))

  verify_trust-result :
      (file : Option Bytes) (h : Handles) → (verify_trust w file h).0 ≡ w.verify_trust file
  unfolding verify_trust
  verify_trust-result file h = ground arith

  trusted-IsTrusted :
      (allow : Bool) (file : Option Bytes)
      → (trusted w allow (w.verify_trust file) ≡ ok tt) ↔ IsTrusted allow file
  trusted-IsTrusted allow file = elim (Result-cases (w.verify_trust file)) [
    | inl (u, f) ↦ (λ h. inl f, λ h. rw f refl)
    | inr (e, f) ↦ (
      λ h. inr (e, f, ground arith, ground arith),
      λ h. elim h [ inl g ↦ absurd (ground arith) | inr (x, g, a, u) ↦ ground arith ],
    )
  ]

  -- A file that passes: trusted by Windows, and signed by the certificate of the fingerprint.
  pub record IsAuthentic (allow : Bool) (path : String) (file : Option Bytes) (fingerprint : String)
      : Type 0 where
    pub encoded : w.encode_path path ≡ ok tt
    pub trusted : IsTrusted allow file
    pub der : Bytes
    pub signer : IsSigner file der
    pub pinned : IsPinned w.sha256 der fingerprint

  -- A check of a signature succeeds exactly for a file that Windows trusts (or whose chain only lacks
  -- its root, where that is allowed), whose signer's certificate it finds, and where this certificate
  -- has the digest that the fingerprint spells in 64 lowercase digits.
  pub authenticode_iff :
      (allow : Bool) (path : String) (file : Option Bytes) (fingerprint : String) (h : Handles)
      → ((verify_authenticode_with w allow path file fingerprint h).0 ≡ ok tt)
        ↔ IsAuthentic allow path file fingerprint
  unfolding verify_authenticode_with
  authenticode_iff allow path file fingerprint h =
      let h1 = (verify_trust w file h).1 in
      (
        λ k. elim (Result-cases (signer_certificate_der w file h1).0) [
          | inr (e, f) ↦ absurd (ground arith)
          | inl (der, f) ↦ record {
            encoded = ground arith;
            trusted = (trusted-IsTrusted allow file).0 (ground (arith, verify_trust-result file h));
            der = der;
            signer = certificate-IsSigner file h1 der f;
            pinned = (verify_signer-IsPinned w.sha256 der fingerprint).0 (ground arith);
          }
        ],
        λ k.
            let t = (trusted-IsTrusted allow file).1 k.trusted in
            let s = IsSigner-certificate file h1 k.der k.signer in
            let p = (verify_signer-IsPinned w.sha256 k.der fingerprint).1 k.pinned in
            ground (arith, verify_trust-result file h, k.encoded),
      )
