-- ===== src/Transport/Dialing/Laws.antt =====
-- Whom a client trusts, and what it presents.
use mathlib.Core.Path.{subst}
use readyfleet_lightagent.Base.{
  false, ◌≡◌, refl, some, [], inl, inr, ok, Option-cases, Result-cases, arith,
}
use readyfleet_lightagent.Base.Text.{Bytes}
use readyfleet_lightagent.Base.Disk.{Disk, read_file}
use readyfleet_lightagent.Transport.Dialing.{
  Identity, Crypto, TlsConfig, Dial, version_tls12, tls_config, dialing,
}

module _ (x : Crypto) where
  -- A TLS configuration that checks the server against the authority of the client's file, and presents the
  -- certificate of its files.
  pub record IsMutual (c : Identity) (d : Disk) (t : TlsConfig x) : Type 0 where
    pub checked : t.insecure_skip_verify ≡ false
    pub version : t.min_version ≡ version_tls12
    pub cert_pem : Bytes
    pub cert_file : d.files c.cert_file ≡ some cert_pem
    pub key_pem : Bytes
    pub key_file : d.files c.key_file ≡ some key_pem
    pub ca_pem : Bytes
    pub ca_file : d.files c.ca_file ≡ some ca_pem
    pub certificate : x.Certificate
    pub presented : t.certificate ≡ some certificate
    pub pair : x.x509_key_pair cert_pem key_pem ≡ ok certificate
    pub pool : x.CertPool
    pub trusted : t.root_cas ≡ some pool
    pub roots : x.append_certs_from_pem ca_pem ≡ some pool

  abbrev mutual_tls : x.Certificate → x.CertPool → TlsConfig x
  mutual_tls pair pool = record {
    insecure_skip_verify = false;
    certificate = some pair;
    root_cas = some pool;
    min_version = version_tls12;
  }

  tls_config-IsMutual :
      (c : Identity) (d : Disk) (t : TlsConfig x)
      → c.insecure ≡ false
      → (tls_config x c d).0 ≡ ok t
      → IsMutual c d t
  unfolding tls_config read_file
  tls_config-IsMutual c d t safe h = elim (Option-cases (d.files c.cert_file)) [
    | inl e ↦ absurd (ground arith)
    | inr (cert, e) ↦ elim (Option-cases (d.files c.key_file)) [
      | inl f ↦ absurd (ground arith)
      | inr (key, f) ↦ elim (Result-cases (x.x509_key_pair cert key)) [
        | inr (y, g) ↦ absurd (ground arith)
        | inl (pair, g) ↦ elim (Option-cases (d.files c.ca_file)) [
          | inl k ↦ absurd (ground arith)
          | inr (ca, k) ↦ elim (Option-cases (x.append_certs_from_pem ca)) [
            | inl l ↦ absurd (ground arith)
            | inr (pool, l) ↦
                let made : mutual_tls pair pool ≡ t = ground arith in
                subst (IsMutual c d) made (record {
                  checked = refl;
                  version = refl;
                  cert_pem = cert;
                  cert_file = e;
                  key_pem = key;
                  key_file = f;
                  ca_pem = ca;
                  ca_file = k;
                  certificate = pair;
                  presented = refl;
                  pair = g;
                  pool = pool;
                  trusted = refl;
                  roots = l;
                })
          ]
        ]
      ]
    ]
  ]

  -- A client that is not insecure and gets as far as its dial checks the server against the authority of its
  -- file, with TLS 1.2 at least, presents the certificate of its two files, and sends no header that names
  -- the machine.
  pub dialing-IsMutual :
      (c : Identity) (d d' : Disk) (l : Dial x)
      → c.insecure ≡ false
      → dialing x c d ≡ (ok l, d')
      → IsMutual c d l.tls × (l.headers ≡ []) × (x.parse_url c.server_url ≡ ok l.url)
  unfolding dialing
  dialing-IsMutual c d d' l safe h = elim (Result-cases (tls_config x c d).0) [
    | inr (e, f) ↦ absurd (ground arith)
    | inl (t, f) ↦ elim (Result-cases (x.parse_url c.server_url)) [
      | inr (e, g) ↦ absurd (ground arith)
      | inl (url, g) ↦
          let same : t ≡ l.tls = ground arith in
          (subst (IsMutual c d) same (tls_config-IsMutual c d t safe f), ground arith, ground arith)
    ]
  ]
