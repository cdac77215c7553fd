-- ===== src/Light/Wiring/Laws.antt =====
-- From an enrollment to the first dial.
use mathlib.Core.Option.{some_inj}
use readyfleet_lightagent.Base.{String, false, ◌≡◌, ◌∙◌, sym, some, ok}
use readyfleet_lightagent.Base.Text.{Bytes, bytes}
use readyfleet_lightagent.Base.Disk.{Disk}
use readyfleet_lightagent.Enroll.{Response, encode_key_pem, request_body}
use readyfleet_lightagent.Enroll.Laws.{IsAnswer}
use readyfleet_lightagent.Config.{Config}
use readyfleet_lightagent.Light.Startup.{Setting, Started, options}
use readyfleet_lightagent.Light.Startup.Laws.{IsEnrolledAt}
use readyfleet_lightagent.Light.Wiring.{client_config}
use readyfleet_lightagent.Transport.Dialing.{Crypto, Dial, dialing}
use readyfleet_lightagent.Transport.Dialing.Laws.{dialing-IsMutual}

-- An agent that was enrolled with some configuration and is not insecure, if it gets as far as its dial, presents the certificate that
-- the server issued in its answer to that request with the key that was generated for it, and trusts the authority that this
-- answer names, and no other.
pub enrolled_dials :
    (s : Setting) (x : Crypto) (path : String) (before : Config) (a : Started) (d d' : Disk)
    (l : Dial x)
    → IsEnrolledAt s path before a.cfg d
    → s.insecure ≡ false
    → dialing x (client_config s a) d ≡ (ok l, d')
    → (key : s.os.Key) × (body : Bytes) × (out : Response) × (request_body s.os
          (options s path before)
        ≡ ok (key, body))
      × IsAnswer s.os (options s path before) body out
      × (a.cfg.machine_id ≡ out.machine_id)
      × (certificate : x.Certificate) × (x.x509_key_pair
            (bytes out.cert_pem)
            (encode_key_pem s.os key)
          ≡ ok certificate)
      × (l.tls.certificate ≡ some certificate)
      × (pool : x.CertPool) × (x.append_certs_from_pem (bytes out.ca_pem) ≡ some pool)
      × (l.tls.root_cas ≡ some pool)
      × (l.tls.insecure_skip_verify ≡ false)
unfolding client_config
enrolled_dials s x path before a d d' l enrolled safe h =
    let (t, bare, url) = dialing-IsMutual x (client_config s a) d d' l safe h in
    let (key, body, out, asked, answer, machine, cert, private_key, ca) = enrolled.material in
    let same_cert : bytes out.cert_pem ≡ t.cert_pem = some_inj.0 (sym cert ∙ t.cert_file) in
    let same_key : encode_key_pem s.os key ≡ t.key_pem =
      some_inj.0 (sym private_key ∙ t.key_file) in
    let same_ca : bytes out.ca_pem ≡ t.ca_pem = some_inj.0 (sym ca ∙ t.ca_file) in
    (
      key,
      body,
      out,
      asked,
      answer,
      machine,
      t.certificate,
      rw (same_cert, same_key) t.pair,
      t.presented,
      t.pool,
      rw same_ca t.roots,
      t.trusted,
      t.checked,
    )
