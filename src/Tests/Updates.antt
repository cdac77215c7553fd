-- ===== src/Tests/Updates.antt =====
-- Updates of the agent at concrete inputs.
use readyfleet_lightagent.Base.{true, false, ◌≡◌, ◌≢◌, ◌↔◌, some, [], ◌∷◌, ok, pure}
use readyfleet_lightagent.Base.Disk.{write_file, read_file, remove, touch}
use readyfleet_lightagent.Proto.{UpdateArgs}
use readyfleet_lightagent.Verify.Hex.{encode_to_string, valid_lower_hex256}
use readyfleet_lightagent.Verify.Download.{
  download_verified, receive, copy_limited, verify_sha256, create_temp,
}
use readyfleet_lightagent.Verify.SingleFlight.{try_begin, end}
use readyfleet_lightagent.Update.Policy
use readyfleet_lightagent.Update.Manager.{
  Manager, World, Applied, validate, update, update_begun, apply_verified, session_active,
}
use readyfleet_lightagent.Update.Manager.Validation.{IsAccepted, validate_iff}
use readyfleet_lightagent.Update.Manager.Safety.{IsRightful, update_applied}
use readyfleet_lightagent.Tests.Downloads.{good, blank, of_three_bytes}

abbrev pub manager : Manager
manager = record {
  cfg = record {
    allowed_host = "fleet";
    download_dir = "";
    policy = record { product_id = "light"; profile = "byod"; signers = of_three_bytes ∷ [] };
  };
  hostname = λ url. ok "fleet";
  apply_fn = some (λ path version signer. pure tt);
  asks_session = true;
}

abbrev pub args : UpdateArgs
args = record {
  release_id = "r1";
  version = "1.2";
  url = "https://fleet/agent.exe";
  sha256 = of_three_bytes;
  agent_profile = "byod";
  signer_fingerprint = of_three_bytes;
  product_id = "light";
}

abbrev pub idle_world : World
idle_world = record {
  flight = record { in_flight = false };
  disk = blank;
  sessions = false ∷ false ∷ true ∷ [];
  applied = [];
}

applies : (update good manager args idle_world).1.applied ≢ []
unfolding update update_begun validate Policy.validate apply_verified session_active try_begin end
    valid_lower_hex256 download_verified create_temp receive copy_limited verify_sha256 write_file
    read_file remove touch encode_to_string
applies h = cc h

update_applied_example :
    (a : Applied) × ((update good manager args idle_world).1.applied ≡ a ∷ [])
    × IsRightful good manager args a
update_applied_example = update_applied good manager args idle_world applies

validate_iff_example : (validate manager args ≡ ok tt) ↔ IsAccepted manager args
validate_iff_example = validate_iff manager args
