-- ===== src/Transport/Dialing.antt =====
-- agent/internal/transport/client.go: tlsConfig, and connectAndServe up to its call of DialContext.
pub mod Laws
use readyfleet_lightagent.Base.{
  ℕ, String, Bool, true, false, not, ◌&&◌, ◌||◌, Option, none, some, List, [], ◌∷◌, new, wrap,
  Result, ok, err, Act, pure, fail, lift, catch, guard, ◌>>=◌, ◌>>◌, ◌==◌, if◌then◌else◌,
}
use readyfleet_lightagent.Base.Text.{Bytes}
use readyfleet_lightagent.Base.Disk.{Disk, read_file}
use readyfleet_lightagent.Proto.{HelloData, protocol_version}

-- The fields of Config that name the server and the machine.
pub record Identity : Type 0 where
  pub server_url : String
  pub cert_file : String
  pub key_file : String
  pub ca_file : String
  pub machine_id : String
  pub agent_version : String
  pub os : String
  pub os_version : String
  pub insecure : Bool

-- crypto/tls and crypto/x509: X509KeyPair, AppendCertsFromPEM on a new pool (none where it takes no
-- certificate), and url.Parse with String.
pub record Crypto : Type 1 where
  pub Certificate : Type 0
  pub CertPool : Type 0
  pub x509_key_pair : Bytes → Bytes → Result Certificate
  pub append_certs_from_pem : Bytes → Option CertPool
  pub parse_url : String → Result String

abbrev pub version_tls12 : ℕ
version_tls12 = 0x0303

module _ (x : Crypto) where
  -- tls.Config, as far as it is set
  pub record TlsConfig : Type 0 where
    pub insecure_skip_verify : Bool
    pub certificate : Option x.Certificate
    pub root_cas : Option x.CertPool
    pub min_version : ℕ

  -- What DialContext is called with.
  pub record Dial : Type 0 where
    pub url : String
    pub headers : List (String × String)
    pub tls : TlsConfig

  abbrev unverified : TlsConfig
  unverified = record {
    insecure_skip_verify = true;
    certificate = none;
    root_cas = none;
    min_version = 0;
  }

  -- tls.LoadX509KeyPair
  abbrev load_x509_key_pair : String → String → Act Disk x.Certificate
  load_x509_key_pair cert_file key_file = do
    cert ← read_file cert_file
    key ← read_file key_file
    lift (x.x509_key_pair cert key)

  abbrev pooled : Option x.CertPool → Result x.CertPool
  pooled none = err (new "transport: CA file did not contain a usable certificate")
  pooled (some pool) = ok pool

  abbrev verified : Identity → Act Disk TlsConfig
  verified c = do
    guard (not (c.cert_file == "" || c.key_file == "" || c.ca_file == ""))
        (new "transport: cert/key/ca paths required when not in insecure mode")
    cert ← catch (load_x509_key_pair c.cert_file c.key_file) (λ e. fail (wrap "load keypair: %w" e))
    ca_bytes ← catch (read_file c.ca_file) (λ e. fail (wrap "read CA: %w" e))
    pool ← lift (pooled (x.append_certs_from_pem ca_bytes))
    pure (record {
      insecure_skip_verify = false;
      certificate = some cert;
      root_cas = some pool;
      min_version = version_tls12;
    })

  -- tlsConfig
  unfoldable pub tls_config : Identity → Act Disk TlsConfig
  tls_config c = if c.insecure then pure unverified else verified c

  abbrev pub headers_of : Identity → List (String × String)
  headers_of c =
      if c.insecure && not (c.machine_id == "") then ("X-Dev-Machine-Id", c.machine_id) ∷ [] else []

  -- connectAndServe, from its TLS configuration to its dial
  unfoldable pub dialing : Identity → Act Disk Dial
  dialing c = do
    tls ← catch (tls_config c) (λ e. fail (wrap "tls: %w" e))
    url ← catch (lift (x.parse_url c.server_url)) (λ e. fail (wrap "parse url: %w" e))
    pure (record { url = url; headers = headers_of c; tls = tls })

-- The hello of a connection.
unfoldable pub hello_data : Identity → HelloData
hello_data c = record {
  protocol_version = protocol_version;
  agent_version = c.agent_version;
  machine_id = c.machine_id;
  os = c.os;
  os_version = c.os_version;
  inventory_checksum = "";
}
