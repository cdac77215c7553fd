-- ===== src/Enroll.antt =====
-- agent/internal/enroll/enroll.go: a bootstrap secret is exchanged for a signed certificate, which is
-- written to disk with its key and the certificate of the authority.
pub mod Laws
use readyfleet_lightagent.Base.{
  ℕ, ◌^◌, ◌/◌, String, ◌<>◌, Bool, true, false, ◌||◌, not, Option, none, some, Error, new, wrap,
  no_bearer_secret, server_rejected, Result, ok, err, Act, pure, lift, ignore, catch, fail, guard,
  when, ◌>>=◌, ◌>>◌, ◌==◌, eqb, if◌then◌else◌,
}
use readyfleet_lightagent.Base.Text.{Bytes, bytes}
use readyfleet_lightagent.Base.Lists.{take}
use readyfleet_lightagent.Base.Disk.{Disk, write_file, rename, touch, temporary}

-- Result
pub record Enrolled : Type 0 where
  pub machine_id : String
  pub venue_id : String
  pub agent_listen_url : String
  pub cert_path : String
  pub key_path : String
  pub ca_path : String

-- Request; the inventory is passed on as it is.
pub record Request (I : Type 0) : Type 0 where
  pub csr_pem : Bytes
  pub agent_version : String
  pub inventory : I

pub record Response : Type 0 where
  pub machine_id : String
  pub venue_id : String
  pub cert_pem : String
  pub ca_pem : String
  pub agent_listen_url : String

-- The request that goes out: its URL, the two headers and the body.
pub record Post : Type 0 where
  pub url : String
  pub authorization : String
  pub content_type : String
  pub body : Bytes

pub record Answer : Type 0 where
  pub status : ℕ
  pub body : Bytes

abbrev pub HttpClient : Type 0
HttpClient = Post → Result Answer

pub record Options (I : Type 0) : Type 0 where
  pub enrollment_url : String
  pub bearer_secret : String
  pub agent_version : String
  pub inventory : I
  pub material_dir : String
  pub http_client : Option HttpClient
  pub insecure : Bool

-- What the code calls: crypto/rsa and crypto/x509 at a type of keys, encoding/pem, encoding/json,
-- http.NewRequest (which may refuse the URL), the default client of net/http with or without the
-- check of the server's certificate, filepath.Join, and runtime.GOOS.
pub record Platform (I : Type 0) : Type 1 where
  pub Key : Type 0
  pub new_key : ℕ → Result Key
  pub create_request : String → Key → Result Bytes
  pub marshal_key : Key → Bytes
  pub encode_pem : String → Bytes → Bytes
  pub marshal : Request I → Result Bytes
  pub unmarshal : Bytes → Result Response
  pub new_request : String → Result (Unit {0})
  pub default_client : Bool → HttpClient
  pub join : String → String → String
  pub is_windows : Bool

module _ {I : Type 0} (os : Platform I) where
  -- GenerateKey
  unfoldable pub generate_key : Result os.Key
  generate_key = os.new_key 2048

  abbrev encoded_request : Result Bytes → Result Bytes
  encoded_request (ok der) = ok (os.encode_pem "CERTIFICATE REQUEST" der)
  encoded_request (err e) = err (wrap "agent/enroll: create CSR: %w" e)

  -- GenerateCSR
  unfoldable pub generate_csr : os.Key → Result Bytes
  generate_csr key = encoded_request (os.create_request "fleetmgr-agent" key)

  -- EncodeKeyPEM
  unfoldable pub encode_key_pem : os.Key → Bytes
  encode_key_pem key = os.encode_pem "RSA PRIVATE KEY" (os.marshal_key key)

  -- writeRestricted
  unfoldable pub write_restricted : String → Bytes → Act Disk (Unit {0})
  write_restricted path b = do
    write_file (temporary path) b
    when (not os.is_windows) (ignore touch)
    rename (temporary path) path

  abbrev pub client_of : Options I → HttpClient
  client_of opts = elim opts.http_client [ none ↦ os.default_client opts.insecure | some c ↦ c ]

  abbrev pub cert_path : String → String
  cert_path dir = os.join dir "client.crt"

  abbrev pub key_path : String → String
  key_path dir = os.join dir "client.key"

  abbrev pub ca_path : String → String
  ca_path dir = os.join dir "ca.crt"

  abbrev requesting : Options I → Act (Unit {0}) (os.Key × Bytes)
  requesting opts = do
    guard (not (opts.bearer_secret == "")) no_bearer_secret
    guard (not (opts.enrollment_url == "")) (new "agent/enroll: enrollment_url is required")
    guard (not (opts.material_dir == "")) (new "agent/enroll: material_dir is required")
    key ← catch (lift generate_key) (λ e. fail (wrap "agent/enroll: keygen: %w" e))
    csr ← lift (generate_csr key)
    body ←
        catch
          (lift (
            os.marshal (record {
              csr_pem = csr;
              agent_version = opts.agent_version;
              inventory = opts.inventory;
            })))
          (λ e. fail (wrap "agent/enroll: marshal: %w" e))
    pure (key, body)

  -- From the tests of the options to the body of the request.
  unfoldable pub request_body : Options I → Result (os.Key × Bytes)
  unfolding generate_key generate_csr
  request_body opts = (requesting opts tt).0

  abbrev pub post_of : Options I → Bytes → Post
  post_of opts body = record {
    url = opts.enrollment_url;
    authorization = "Bearer " <> opts.bearer_secret;
    content_type = "application/json";
    body = body;
  }

  abbrev exchanging : Options I → Bytes → Act (Unit {0}) Response
  exchanging opts body = do
    catch (lift (os.new_request opts.enrollment_url))
        (λ e. fail (wrap "agent/enroll: build request: %w" e))
    resp ←
        catch (lift (client_of opts (post_of opts body)))
          (λ e. fail (wrap "agent/enroll: post: %w" e))
    guard (eqb (resp.status / 100) 2) (wrap "%w: status %d: %s" server_rejected)
    out ←
        catch (lift (os.unmarshal (take (2 ^ 20) resp.body)))
          (λ e. fail (wrap "agent/enroll: parse response: %w" e))
    guard (not (out.cert_pem == "" || out.ca_pem == "" || out.machine_id == ""))
        (new "agent/enroll: server response missing required fields")
    pure out

  -- From the request to the response that is accepted.
  unfoldable pub exchange : Options I → Bytes → Result Response
  exchange opts body = (exchanging opts body tt).0

  -- The three files and the result.
  unfoldable pub persist : String → os.Key → Response → Act Disk Enrolled
  unfolding encode_key_pem
  persist dir key out = do
    catch touch (λ e. fail (wrap "agent/enroll: mkdir material dir: %w" e))
    catch (write_restricted (cert_path dir) (bytes out.cert_pem))
        (λ e. fail (wrap "agent/enroll: write cert: %w" e))
    catch (write_restricted (key_path dir) (encode_key_pem key))
        (λ e. fail (wrap "agent/enroll: write key: %w" e))
    catch (write_restricted (ca_path dir) (bytes out.ca_pem))
        (λ e. fail (wrap "agent/enroll: write ca: %w" e))
    pure (record {
      machine_id = out.machine_id;
      venue_id = out.venue_id;
      agent_listen_url = out.agent_listen_url;
      cert_path = cert_path dir;
      key_path = key_path dir;
      ca_path = ca_path dir;
    })

  -- Enroll
  unfoldable pub enroll : Options I → Act Disk Enrolled
  enroll opts = do
    (key, body) ← lift (request_body opts)
    out ← lift (exchange opts body)
    persist opts.material_dir key out
