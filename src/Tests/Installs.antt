-- ===== src/Tests/Installs.antt =====
-- An uninstall at concrete inputs.
use readyfleet_lightagent.Base.{
  String, ◌<>◌, false, ◌≡◌, refl, none, some, [], ◌∷◌, new, pure, fail, ◌==◌,
}
use readyfleet_lightagent.Base.Disk.{Disk, write_file, touch}
use readyfleet_lightagent.Install.{
  Paths, Seams, Layout, revoke, uninstall, windows_seams, write_tombstone, remove_install_dir,
  remove_tree,
}
use readyfleet_lightagent.Install.Laws.{uninstall_loses_tombstone}
use readyfleet_lightagent.Tests.Downloads.{blank}

abbrev paths : Paths
paths = record {
  root = "/light";
  agent_exe = "/light/lightagent.exe";
  config_path = "/light/config.json";
  key_path = "/light/client.key";
  log_path = "/light/lightagent.log";
}

abbrev layout : Layout
layout = record {
  join = λ dir name. dir <> "/" <> name;
  is_below = λ root path. path == root <> "/pending-unlink.tombstone";
  locked = λ path. false;
  stamp = 2 ∷ 0 ∷ [];
}

-- A disk on which the calls that are not of files do nothing, and the revoke fails.
abbrev unreachable : Seams Disk String
unreachable = record {
  verify_agent = λ path. pure tt;
  protect_key = λ path. pure tt;
  register_task = λ path. pure tt;
  remove_task = pure tt;
  enroll = λ payload. pure tt;
  start_agent = λ path. pure tt;
  wait_for_connected = λ path. pure tt;
  unlink_online = λ path. fail (new "offline");
  remove_all = λ root. pure tt;
  write_tombstone = λ root. pure tt;
}

uninstall_loses_tombstone_example :
    ((revoke paths (windows_seams layout unreachable) blank).1.files
        "/light/pending-unlink.tombstone"
      ≡ some (2 ∷ 0 ∷ []))
    × ((uninstall paths (windows_seams layout unreachable) blank).1.files
          "/light/pending-unlink.tombstone"
        ≡ none)
unfolding uninstall revoke write_tombstone remove_install_dir remove_tree write_file touch
uninstall_loses_tombstone_example =
    uninstall_loses_tombstone paths layout unreachable refl blank
      (uninstall paths (windows_seams layout unreachable) blank).1 (new "offline") refl refl
