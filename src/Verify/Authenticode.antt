-- ===== src/Verify/Authenticode.antt =====
-- agent/internal/verify: the pin of the signer in artifact_security.go, and authenticode_windows.go,
-- which asks Windows for the trust and for the signer's certificate of a file.
pub mod Laws
use readyfleet_lightagent.Base.{
  ℕ, suc, ◌-◌, String, Bool, true, false, not, ◌&&◌, ◌||◌, Option, none, some, List, [], ◌∷◌, Error,
  new, errorf, wrap, Result, ok, err, Act, pure, fail, lift, modify, catch, inspect, guard, ◌>>=◌,
  ◌>>◌, eqb, is_ok, if◌then◌else◌,
}
use readyfleet_lightagent.Base.Lists.{length}
use readyfleet_lightagent.Base.Text.{Bytes, bytes, bytes_eq}
use readyfleet_lightagent.Verify.Hex.{decode_string, is_lower}

abbrev decoded : Result Bytes → Bytes
decoded (ok b) = b
decoded (err e) = []

-- VerifySignerCertificateDER, over the digest of crypto/sha256
unfoldable pub verify_signer_certificate_der : (Bytes → Bytes) → Bytes → String → Result (Unit {0})
verify_signer_certificate_der sha256 cert_der expected_fingerprint = elim cert_der [
  | [] ↦ err (new "signer certificate is missing")
  | b ∷ bs ↦
      (let expected = decode_string (bytes expected_fingerprint) in
        if not (is_ok expected)
          || not (eqb (length (decoded expected)) 32)
          || not (is_lower (bytes expected_fingerprint))
        then err (new "expected signer fingerprint must be 64 lowercase hexadecimal characters")
        else if bytes_eq (sha256 (b ∷ bs)) (decoded expected)
        then ok tt
        else err (errorf "signer fingerprint mismatch: got %s" []))
]

-- What Windows answers about a file's content: WinVerifyTrustEx, CryptQueryObject with a message and
-- its certificate store, CryptMsgGetParam asked for a size and then for that many bytes, and
-- CertFindCertificateInStore. `is_untrusted_root` tells CERT_E_UNTRUSTEDROOT from other errors.
pub record Windows : Type 1 where
  pub Message : Type 0
  pub encode_path : String → Result (Unit {0})
  pub verify_trust : Option Bytes → Result (Unit {0})
  pub is_untrusted_root : Error → Bool
  pub query_object : Option Bytes → Result Message
  pub param_size : Message → Result ℕ
  pub param : Message → ℕ → Result Bytes
  pub find_certificate : Message → Bytes → Result Bytes
  pub sha256 : Bytes → Bytes

-- The handles that Windows has given out and not got back.
pub record Handles : Type 0 where
  pub states : ℕ
  pub stores : ℕ
  pub messages : ℕ
  pub certificates : ℕ

abbrev pub no_handles : Handles
no_handles = record { states = 0; stores = 0; messages = 0; certificates = 0 }

-- `defer`: what runs after a call, whatever it returns.
abbrev after {ℓ} : {S : Type 0} {A : Type ℓ} → Act S A → (S → S) → Act S A
after m f s = ((m s).0, f (m s).1)

module _ (w : Windows) where
  -- verifyTrust: the state is released by the second call
  unfoldable pub verify_trust : Option Bytes → Act Handles (Unit {0})
  verify_trust file =
      modify (λ h. record h { states = suc h.states })
      >> after (lift (w.verify_trust file)) (λ h. record h { states = h.states - 1 })

  -- cryptMsgSignerCertInfo; a size of 0 is an index out of range at `&buf[0]`
  unfoldable pub crypt_msg_signer_cert_info : w.Message → Result Bytes
  crypt_msg_signer_cert_info msg = elim (w.param_size msg) [
    | err e ↦ err (wrap "cryptmsggetparam(size): %w" e)
    | ok size ↦
        (if eqb size 0
          then err (new "runtime error: index out of range [0] with length 0")
          else elim (w.param msg size) [
            | err e ↦ err (wrap "cryptmsggetparam: %w" e)
            | ok b ↦ ok b
          ])
  ]

  abbrev opened : w.Message → Act Handles Bytes
  opened msg = do
    signer_info ← lift (crypt_msg_signer_cert_info msg)
    cert ←
        catch (lift (w.find_certificate msg signer_info))
          (λ e. fail (wrap "certfindcertificateinstore: %w" e))
    modify (λ h. record h { certificates = suc h.certificates })
    after (pure cert) (λ h. record h { certificates = h.certificates - 1 })

  -- signerCertificateDER
  unfoldable pub signer_certificate_der : Option Bytes → Act Handles Bytes
  unfolding crypt_msg_signer_cert_info
  signer_certificate_der file = do
    msg ← catch (lift (w.query_object file)) (λ e. fail (wrap "cryptqueryobject: %w" e))
    modify (λ h. record h { stores = suc h.stores; messages = suc h.messages })
    after (opened msg) (λ h. record h { stores = h.stores - 1; messages = h.messages - 1 })

  abbrev pub tolerated : Bool → Error → Bool
  tolerated allow_untrusted_root e = allow_untrusted_root && w.is_untrusted_root e

  abbrev pub trusted : Bool → Result (Unit {0}) → Result (Unit {0})
  trusted allow (ok _) = ok tt
  trusted allow (err e) =
      if tolerated allow e then ok tt else err (wrap "authenticode: signature status invalid: %w" e)

  -- verifyAuthenticode
  unfoldable pub verify_authenticode_with :
      Bool → String → Option Bytes → String → Act Handles (Unit {0})
  verify_authenticode_with allow path file expected_fingerprint = do
    catch (lift (w.encode_path path)) (λ e. fail (wrap "authenticode: encode path: %w" e))
    inspect (verify_trust file) (λ r. lift (trusted allow r))
    cert_der ←
        catch (signer_certificate_der file)
          (λ e. fail (wrap "authenticode: extract signer certificate: %w" e))
    lift (verify_signer_certificate_der w.sha256 cert_der expected_fingerprint)

  -- VerifyAuthenticode; `file` is what the file at the path holds
  unfoldable pub verify_authenticode : String → Option Bytes → String → Act Handles (Unit {0})
  verify_authenticode = verify_authenticode_with false

  -- VerifyAuthenticodeAllowUntrustedRoot
  unfoldable pub verify_authenticode_allow_untrusted_root :
      String → Option Bytes → String → Act Handles (Unit {0})
  verify_authenticode_allow_untrusted_root = verify_authenticode_with true

  -- The answer alone, for callers that keep other state.
  abbrev pub authenticode : String → Option Bytes → String → Result (Unit {0})
  authenticode path file expected_fingerprint =
      (verify_authenticode path file expected_fingerprint no_handles).0
