-- ===== src/Tests/Installing.antt =====
-- An install on Windows at concrete inputs.
use readyfleet_lightagent.Base.{
  String, ◌≢◌, refl, none, some, [], ◌∷◌, ok, pure, ◌==◌, if◌then◌else◌,
}
use readyfleet_lightagent.Base.Disk.{read_file, write_file, rename, touch}
use readyfleet_lightagent.Config.{save}
use readyfleet_lightagent.Enroll.{
  enroll, request_body, exchange, persist, write_restricted, generate_key, generate_csr,
}
use readyfleet_lightagent.Light.Startup.{InventorySnapshot}
use readyfleet_lightagent.Verify.Hex.{decode_string, encode_to_string, valid_lower_hex256}
use readyfleet_lightagent.Verify.Authenticode.{
  verify_authenticode, verify_authenticode_with, verify_trust, signer_certificate_der,
  crypt_msg_signer_cert_info, verify_signer_certificate_der,
}
use readyfleet_lightagent.Install.{Paths, install}
use readyfleet_lightagent.Install.Windows.{
  Machine, Build, LightConfig, connected_log_marker, verify_bundled_agent, protect_key_acl,
  register_logon_startup, enroll_light, start_agent_once, wait_for_agent_connected, new_manager,
  look, poll, derive_enrollment_url,
}
use readyfleet_lightagent.Install.Windows.Laws.{IsLaidOut}
use readyfleet_lightagent.Install.Windows.Laws.Installing.{IsInstalled, windows_install-ok}
use readyfleet_lightagent.Tests.Downloads.{of_three_bytes}
use readyfleet_lightagent.Tests.Engine.{windows}
use readyfleet_lightagent.Tests.Files.{os, json, apart, unequal}

abbrev paths : Paths
paths = record {
  root = "/d";
  agent_exe = "/d/lightagent.exe";
  config_path = "/d/config.json";
  key_path = "/d/client.key";
  log_path = "/d/lightagent.log";
}

abbrev config : LightConfig
config = record { server_url = "https://fleet/x"; paths = paths }

abbrev build : Build InventorySnapshot
build = record {
  expected_agent_sha256 = of_three_bytes;
  expected_signer_fingerprint = of_three_bytes;
  sha256 = windows.sha256;
  trust = windows;
  os = os;
  no_inventory = record { hostname = ""; os_name = ""; os_version = ""; hardware_fingerprint = "" };
  json = json;
  user = ok "kim";
  icacls = λ line. ok tt;
  registry = record {
    create_key = none;
    set_string_value = none;
    open_key = none;
    delete_value = none;
  };
  start = λ path. ok tt;
  unlink = λ path. pure tt;
}

-- The agent's log has the line at the second look.
abbrev machine : Machine
machine = record {
  disk = record {
    files = λ p. if p == "/d/lightagent.exe" then some (7 ∷ []) else none;
    outcomes = [];
  };
  run_value = none;
  acls = [];
  started = [];
  clock = 0;
  appended = none ∷ some (10 ∷ connected_log_marker) ∷ [];
  late = [];
  picks = [];
}

abbrev token : String
token = "rft_1"

abbrev installed : Machine
installed =
    (install paths (new_manager build config none (λ p. pure tt) (λ p. pure tt)) token machine).1

laid : IsLaidOut build paths
laid = record {
  apart = apart;
  key_path = refl;
  config_log = unequal _ _ refl;
  cert = unequal _ _ refl;
  key = unequal _ _ refl;
  ca = unequal _ _ refl;
  cert_tmp = unequal _ _ refl;
  key_tmp = unequal _ _ refl;
  ca_tmp = unequal _ _ refl;
  cert_log = unequal _ _ refl;
  key_log = unequal _ _ refl;
  ca_log = unequal _ _ refl;
}

windows_install-ok_example : IsInstalled build config token machine installed × (token ≢ "")
unfolding install new_manager verify_bundled_agent protect_key_acl register_logon_startup
    enroll_light start_agent_once wait_for_agent_connected look poll derive_enrollment_url save
    enroll request_body exchange persist write_restricted generate_key generate_csr read_file
    write_file rename touch valid_lower_hex256 decode_string encode_to_string verify_authenticode
    verify_authenticode_with verify_trust signer_certificate_der crypt_msg_signer_cert_info
    verify_signer_certificate_der
windows_install-ok_example =
    windows_install-ok build config none (λ p. pure tt) (λ p. pure tt) token machine installed laid
      refl
