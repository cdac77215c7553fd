-- ===== src/Tests/Swaps.antt =====
-- The exchange of the light agent's binary at concrete inputs.
use readyfleet_lightagent.Base.{
  String, Bool, false, ◌≡◌, refl, ap, some, none, [], ◌∷◌, Result, ok, err, new, arith, ◌==◌,
  if◌then◌else◌,
}
use readyfleet_lightagent.Base.Text.{Bytes, bytes}
use readyfleet_lightagent.Base.Disk.{pass, fault, write_file, read_file, remove, rename, touch}
use readyfleet_lightagent.Verify.Hex.{decode_string, encode_to_string, valid_lower_hex256}
use readyfleet_lightagent.Verify.Download.{
  download_verified, receive, copy_limited, verify_sha256, create_temp,
}
use readyfleet_lightagent.Verify.SingleFlight.{try_begin, end}
use readyfleet_lightagent.Verify.Authenticode.{
  verify_authenticode, verify_authenticode_with, verify_trust, signer_certificate_der,
  crypt_msg_signer_cert_info, verify_signer_certificate_der,
}
use readyfleet_lightagent.Verify.Authenticode.Laws.{IsAuthentic}
use readyfleet_lightagent.Update.Policy
use readyfleet_lightagent.Update.Manager.{
  Manager, World, params, validate, update, update_begun, apply_verified, session_active,
}
use readyfleet_lightagent.Update.Swap.{Process, apply_fn, apply_light_update, swap}
use readyfleet_lightagent.Update.Swap.Laws.{IsPlaced, LightSwapped, apply_light_update_swaps}
use readyfleet_lightagent.Update.Swap.Updating.{light_update_installs}
use readyfleet_lightagent.Tests.Downloads.{good, blank, of_three_bytes}
use readyfleet_lightagent.Tests.Engine.{windows}
use readyfleet_lightagent.Tests.Updates.{manager, args, idle_world}

-- The binary and a download; the move of the new binary fails, and so does the move back.
abbrev stuck : Process
stuck = record {
  disk = record {
    files = λ p.
        if p == "agent.exe" then some (1 ∷ []) else if p == "new.exe" then some (2 ∷ []) else none;
    outcomes = pass ∷ pass ∷ fault (new "denied") ∷ fault (new "denied") ∷ [];
  };
  exits_after = none;
}

stuck-IsPlaced : IsPlaced "agent.exe" "new.exe" stuck.disk
stuck-IsPlaced = record {
  apart = λ e. ground (arith, ap (λ (x : String). x == "agent.exe") e);
  apart_old = λ e. ground (arith, ap (λ (x : String). x == "agent.exe.old") e);
  old = 1 ∷ [];
  running = refl;
}

apply_light_update_swaps_example :
    LightSwapped windows "agent.exe" "new.exe" of_three_bytes stuck
      (apply_light_update windows (ok "agent.exe") "new.exe" "2" of_three_bytes stuck)
apply_light_update_swaps_example =
    apply_light_update_swaps windows "agent.exe" "new.exe" "2" of_three_bytes stuck stuck-IsPlaced

abbrev light_manager : Manager
light_manager = record manager { apply_fn = some (apply_fn windows (ok "agent.exe")) }

abbrev light_world : World
light_world = record idle_world {
  disk = record blank { files = λ p. if p == "agent.exe" then some (1 ∷ []) else none };
}

abbrev downloads_to : String → Result String → Bool
downloads_to q (ok p) = p == q
downloads_to q (err e) = false

placed :
    (path : String)
    → (download_verified good (params light_manager args) light_world.disk).0 ≡ ok path
    → IsPlaced "agent.exe" path
        (download_verified good (params light_manager args) light_world.disk).1
unfolding download_verified create_temp receive copy_limited verify_sha256 write_file read_file
    remove touch encode_to_string
placed path h = record {
  apart =
      λ e. ground (arith, ap (downloads_to "agent.exe") h, ap (λ (x : String). x == "agent.exe") e);
  apart_old = λ e.
      ground
        (arith, ap (downloads_to "agent.exe.old") h, ap (λ (x : String). x == "agent.exe.old") e);
  old = 1 ∷ [];
  running = refl;
}

light_update_installs_example :
    (path : String) × (b : Bytes) × ((update good light_manager args light_world).1.disk.files
        "agent.exe"
      ≡ some b)
    × (encode_to_string (good.sha256 b) ≡ bytes of_three_bytes)
    × IsAuthentic windows false path (some b) of_three_bytes
unfolding update update_begun validate Policy.validate apply_verified session_active try_begin end
    valid_lower_hex256 download_verified create_temp receive copy_limited verify_sha256 write_file
    read_file remove rename touch encode_to_string decode_string apply_light_update swap
    verify_authenticode verify_authenticode_with verify_trust signer_certificate_der
    crypt_msg_signer_cert_info verify_signer_certificate_der
light_update_installs_example =
    light_update_installs good light_manager args windows "agent.exe" light_world refl placed refl
