-- ===== src/Tests/Files.antt =====
-- The configuration, an enrollment, a start and an unlink at concrete inputs.
use readyfleet_lightagent.Base.{
  ℕ, zero, suc, ◌&&◌, String, ◌<>◌, Bool, true, false, ◌≡◌, ◌≢◌, refl, none, some, [], ◌∷◌, Result,
  ok, err, new, arith, eq_iff, ◌==◌,
}
use readyfleet_lightagent.Base.Text.{Bytes, bytes}
use readyfleet_lightagent.Base.Disk.{Disk, write_file, read_file, rename, touch}
use readyfleet_lightagent.Config
use readyfleet_lightagent.Config.{Json, zero_config, save, load, unmarshal_json, is_enrolled}
use readyfleet_lightagent.Config.Saving.{IsRoundTrip, load-save}
use readyfleet_lightagent.Enroll.{
  Platform, Options, Enrolled, Response, enroll, request_body, exchange, persist, write_restricted,
  generate_key, generate_csr, encode_key_pem,
}
use readyfleet_lightagent.Enroll.Laws.{AreApart, IsAnswer, Holds, enroll-ok}
use readyfleet_lightagent.Light.Urls.{derive_enrollment_url, strip_scheme_and_path}
use readyfleet_lightagent.Light.Startup
use readyfleet_lightagent.Light.Startup.{
  Setting, Started, InventorySnapshot, Host, run_light_enrollment, run_unlink,
}
use readyfleet_lightagent.Light.Startup.Laws.{IsLaidOut, IsEnrolledAt, run_light_enrollment-ok}
use readyfleet_lightagent.Light.Startup.Unlinking.{Gone, run_unlink_clears}
use readyfleet_lightagent.Tests.Downloads.{blank}
use readyfleet_lightagent.Transport.Dialing.{Crypto, Dial, dialing, tls_config}
use readyfleet_lightagent.Light.Wiring.{client_config}
use readyfleet_lightagent.Light.Wiring.Laws.{enrolled_dials}

abbrev pub full : Config.Config
full = record {
  server_url = "wss://fleet:1/agent";
  enrollment_url = "";
  enrollment_secret = "";
  intended_label = "";
  cert_path = "/d/client.crt";
  key_path = "/d/client.key";
  ca_path = "/d/ca.crt";
  machine_id = "m1";
  venue_id = "v1";
}

-- Not enrolled yet, with a secret.
abbrev fresh : Config.Config
fresh = record zero_config { server_url = "https://fleet/x"; enrollment_secret = "rft_1" }

abbrev is_full : Config.Config → Bool
is_full c =
    c.server_url == full.server_url
    && c.enrollment_url == full.enrollment_url
    && c.enrollment_secret == full.enrollment_secret
    && c.intended_label == full.intended_label
    && c.cert_path == full.cert_path
    && c.key_path == full.key_path
    && c.ca_path == full.ca_path
    && c.machine_id == full.machine_id
    && c.venue_id == full.venue_id

abbrev coded : Bool → Result Bytes
coded true = ok (1 ∷ [])
coded false = err (new "unsupported")

abbrev decoded : Bytes → Result Config.Config
decoded (suc zero ∷ []) = ok full
decoded (suc (suc zero) ∷ []) = ok fresh
decoded _ = err (new "invalid")

abbrev old_secret : Bytes → String
old_secret (suc zero ∷ []) = ""
old_secret _ = "old"

-- A coding of one configuration, with two that can be read.
abbrev pub json : Json
json = record { marshal_indent = λ c. coded (is_full c); fields = decoded; legacy = old_secret }

json-IsRoundTrip : IsRoundTrip json
json-IsRoundTrip = record {
  fields = λ c b h. ground (
    arith,
    eq_iff c.server_url full.server_url,
    eq_iff c.enrollment_url full.enrollment_url,
    eq_iff c.enrollment_secret full.enrollment_secret,
    eq_iff c.intended_label full.intended_label,
    eq_iff c.cert_path full.cert_path,
    eq_iff c.key_path full.key_path,
    eq_iff c.ca_path full.ca_path,
    eq_iff c.machine_id full.machine_id,
    eq_iff c.venue_id full.venue_id,
  );
  legacy = λ c b h. ground arith;
}

pub unequal : (s t : String) → (s == t) ≡ false → s ≢ t
unequal s t h = ground (arith, eq_iff s t)

load-save_example :
    (load json "/d/config.json" (save json "/d/config.json" full blank).1).0 ≡ ok full
unfolding save write_file rename
load-save_example = load-save json json-IsRoundTrip "/d/config.json" full blank refl refl

abbrev pub os : Platform InventorySnapshot
os = record {
  Key = ℕ;
  new_key = λ n. ok n;
  create_request = λ name key. ok (key ∷ []);
  marshal_key = λ key. key ∷ [];
  encode_pem = λ kind b. b;
  marshal = λ r. ok r.csr_pem;
  unmarshal = λ b. ok (record {
    machine_id = "m1";
    venue_id = "v1";
    cert_pem = "cert";
    ca_pem = "ca";
    agent_listen_url = "wss://fleet:1/agent";
  });
  new_request = λ url. ok tt;
  default_client = λ insecure post. ok (record { status = 201; body = post.body });
  join = λ dir name. dir <> "/" <> name;
  is_windows = false;
}

abbrev setting : Setting
setting = record {
  os = os;
  json = json;
  os_inventory = ("windows", "11");
  dir = λ p. "/d";
  agent_version = "dev";
  insecure = false;
}

pub apart : AreApart os "/d"
apart = record {
  cert_key = unequal _ _ refl;
  cert_ca = unequal _ _ refl;
  key_ca = unequal _ _ refl;
  cert_key_tmp = unequal _ _ refl;
  cert_ca_tmp = unequal _ _ refl;
  key_ca_tmp = unequal _ _ refl;
}

abbrev options : Options InventorySnapshot
options = record {
  enrollment_url = "https://fleet/enroll/v1/redeem";
  bearer_secret = "rft_1";
  agent_version = "dev";
  inventory = record {
    hostname = "";
    os_name = "windows";
    os_version = "11";
    hardware_fingerprint = "";
  };
  material_dir = "/d";
  http_client = none;
  insecure = false;
}

abbrev issued : Enrolled
issued = record {
  machine_id = "m1";
  venue_id = "v1";
  agent_listen_url = "wss://fleet:1/agent";
  cert_path = "/d/client.crt";
  key_path = "/d/client.key";
  ca_path = "/d/ca.crt";
}

enroll-ok_example :
    (options.bearer_secret ≢ "")
    × (key : ℕ) × (body : Bytes) × (out : Response) × (os.new_key 2048 ≡ ok key)
    × IsAnswer os options body out
    × (issued.machine_id ≡ out.machine_id)
    × (issued.venue_id ≡ out.venue_id)
    × Holds os issued key out (enroll os options blank).1
unfolding enroll request_body exchange persist write_restricted generate_key generate_csr write_file
    rename touch
enroll-ok_example = enroll-ok os options blank issued (enroll os options blank).1 apart refl

laid : IsLaidOut setting "/d/config.json"
laid = record {
  apart = apart;
  cert_named = unequal _ _ refl;
  key_named = unequal _ _ refl;
  cert = unequal _ _ refl;
  key = unequal _ _ refl;
  ca = unequal _ _ refl;
  cert_tmp = unequal _ _ refl;
  key_tmp = unequal _ _ refl;
  ca_tmp = unequal _ _ refl;
}

run_light_enrollment-ok_example :
    IsEnrolledAt setting "/d/config.json" fresh full
      (run_light_enrollment setting "/d/config.json" fresh blank).1
unfolding run_light_enrollment save enroll request_body exchange persist write_restricted
    generate_key generate_csr write_file rename touch derive_enrollment_url strip_scheme_and_path
run_light_enrollment-ok_example =
    run_light_enrollment-ok setting "/d/config.json" fresh blank laid full
      (run_light_enrollment setting "/d/config.json" fresh blank).1 refl

abbrev host : Host
host = record {
  disk = record { files = λ p. some (1 ∷ []); outcomes = [] };
  registered = true;
  open_fault = none;
  delete_fault = none;
}

run_unlink_clears_example :
    ((run_unlink json "/d/config.json" host).0 ≡ ok tt)
    × ((run_unlink json "/d/config.json" host).1.disk.files "/d/config.json" ≡ none)
    × Gone "/d/client.crt" (run_unlink json "/d/config.json" host).1
    × Gone "/d/client.key" (run_unlink json "/d/config.json" host).1
    × Gone "/d/ca.crt" (run_unlink json "/d/config.json" host).1
    × ((run_unlink json "/d/config.json" host).1.registered ≡ false)
unfolding load read_file unmarshal_json
run_unlink_clears_example =
    run_unlink_clears json "/d/config.json" host full
      (record { disk = refl; open_key = refl; delete_value = refl }) refl

-- A key pair is its certificate, and a pool what it was read from.
abbrev crypto : Crypto
crypto = record {
  Certificate = Bytes;
  CertPool = Bytes;
  x509_key_pair = λ cert key. ok cert;
  append_certs_from_pem = λ ca. some ca;
  parse_url = λ url. ok url;
}

abbrev started : Started
started = record {
  cfg = full;
  allowed_host = "fleet";
  policy = record { product_id = "light"; profile = "byod"; signers = [] };
}

abbrev enrolled_disk : Disk
enrolled_disk = (run_light_enrollment setting "/d/config.json" fresh blank).1

abbrev dial : Dial crypto
dial = record {
  url = "wss://fleet:1/agent";
  headers = [];
  tls = record {
    insecure_skip_verify = false;
    certificate = some (bytes "cert");
    root_cas = some (bytes "ca");
    min_version = 0x0303;
  };
}

enrolled_dials_example :
    (key : ℕ) × (body : Bytes) × (out : Response) × (request_body os
        (Startup.options setting "/d/config.json" fresh)
      ≡ ok (key, body))
    × IsAnswer os (Startup.options setting "/d/config.json" fresh) body out
    × ("m1" ≡ out.machine_id)
    × (certificate : Bytes) × (crypto.x509_key_pair (bytes out.cert_pem) (encode_key_pem os key)
        ≡ ok certificate)
    × (dial.tls.certificate ≡ some certificate)
    × (pool : Bytes) × (crypto.append_certs_from_pem (bytes out.ca_pem) ≡ some pool)
    × (dial.tls.root_cas ≡ some pool)
    × (dial.tls.insecure_skip_verify ≡ false)
unfolding run_light_enrollment save enroll request_body exchange persist write_restricted
    generate_key generate_csr write_file rename touch derive_enrollment_url strip_scheme_and_path
    client_config dialing tls_config read_file
enrolled_dials_example =
    enrolled_dials setting crypto "/d/config.json" fresh started enrolled_disk
      (dialing crypto (client_config setting started) enrolled_disk).1 dial
      (run_light_enrollment-ok setting "/d/config.json" fresh blank laid full enrolled_disk refl)
      refl refl
