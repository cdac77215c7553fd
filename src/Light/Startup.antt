-- ===== src/Light/Startup.antt =====
-- agent/cmd/lightagent/main.go: from the configuration on disk to the settings of the client and of
-- the updater, with the enrollment in between, and the subcommand `unlink`.
pub mod Laws
pub mod Unlinking
use readyfleet_lightagent.Base.{
  String, Bool, true, false, not, Option, none, some, List, [], ◌∷◌, Error, new, wrap, is_not_exist,
  not_exist, Result, ok, err, Act, pure, fail, lift, gets, modify, ignore, inspect, catch, guard,
  when, ◌>>=◌, ◌>>◌, ◌==◌, if◌then◌else◌,
}
use readyfleet_lightagent.Base.Disk.{Disk, remove}
use readyfleet_lightagent.Config
use readyfleet_lightagent.Config.{Json, is_enrolled, load, save}
use readyfleet_lightagent.Enroll.{Platform, Options, Enrolled, enroll}
use readyfleet_lightagent.Update.Policy.{ProductPolicy}
use readyfleet_lightagent.Install.Windows.{is_err_not_exist}
use readyfleet_lightagent.Light.Urls.{derive_enrollment_url, agent_download_host}

abbrev pub light_product_id : String
light_product_id = "readyfleet-light-agent"

abbrev pub light_profile : String
light_profile = "byod_solarbeam"

abbrev pub light_trusted_signer : String
light_trusted_signer = "5b2e7596208e78bfd59d6e8d08844d2e3760614540040ca7f48e2dcb698be027"

-- enroll.InventorySnapshot, without the three collections that the light agent never sets
pub record InventorySnapshot : Type 0 where
  pub hostname : String
  pub os_name : String
  pub os_version : String
  pub hardware_fingerprint : String

-- `os_inventory` is what lightinventory.Collect returns for the name and the version of the system
-- (both "" with an error), `dir` is filepath.Dir.
pub record Setting : Type 1 where
  pub os : Platform InventorySnapshot
  pub json : Json
  pub os_inventory : String × String
  pub dir : String → String
  pub agent_version : String
  pub insecure : Bool

-- What the client and the updater are made from.
pub record Started : Type 0 where
  pub cfg : Config.Config
  pub allowed_host : String
  pub policy : ProductPolicy

module _ (s : Setting) where
  abbrev pub options : String → Config.Config → Options InventorySnapshot
  options path cfg = record {
    enrollment_url =
        if cfg.enrollment_url == ""
        then derive_enrollment_url cfg.server_url s.insecure
        else cfg.enrollment_url;
    bearer_secret = cfg.enrollment_secret;
    agent_version = s.agent_version;
    inventory = record {
      hostname = "";
      os_name = s.os_inventory.0;
      os_version = s.os_inventory.1;
      hardware_fingerprint = "";
    };
    material_dir = s.dir path;
    http_client = none;
    insecure = s.insecure;
  }

  -- The configuration after an enrollment.
  abbrev pub enrolled : Config.Config → Enrolled → Config.Config
  enrolled cfg res = record cfg {
    machine_id = res.machine_id;
    venue_id = res.venue_id;
    cert_path = res.cert_path;
    key_path = res.key_path;
    ca_path = res.ca_path;
    server_url = if not (res.agent_listen_url == "") then res.agent_listen_url else cfg.server_url;
    enrollment_secret = "";
  }

  -- runLightEnrollment, which returns the configuration that it leaves in the caller's variable. On
  -- an error the caller returns at once.
  unfoldable pub run_light_enrollment : String → Config.Config → Act Disk Config.Config
  run_light_enrollment path cfg = do
    res ← enroll s.os (options path cfg)
    save s.json path (enrolled cfg res)
    pure (enrolled cfg res)

  abbrev pub ensure_enrolled : String → Config.Config → Act Disk Config.Config
  ensure_enrolled path cfg =
      if is_enrolled cfg
      then pure cfg
      else if cfg.enrollment_secret == ""
      then fail (new "not enrolled and no enrollment secret")
      else run_light_enrollment path cfg

  -- runLightAgent, up to the run of the client
  unfoldable pub run_light_agent : String → Act Disk Started
  run_light_agent path = do
    cfg ← load s.json path
    guard (not (cfg.server_url == "")) (new "server_url required")
    cfg' ← ensure_enrolled path cfg
    pure (record {
      cfg = cfg';
      allowed_host = agent_download_host cfg'.server_url;
      policy = record {
        product_id = light_product_id;
        profile = light_profile;
        signers = light_trusted_signer ∷ [];
      };
    })

-- The machine that `unlink` clears: its files, and whether the value of the Run key is there.
-- `open_fault` and `delete_fault` are what OpenKey and DeleteValue fail with, if they fail.
pub record Host : Type 0 where
  pub disk : Disk
  pub registered : Bool
  pub open_fault : Option Error
  pub delete_fault : Option Error

abbrev on_disk : {A : Type 0} → Act Disk A → Act Host A
on_disk c h = let (r, d) = c h.disk in (r, record h { disk = d })

abbrev pub delete_run_entry : Option Error → Bool → Act Host (Unit {0})
delete_run_entry fault false h = (err not_exist, h)
delete_run_entry none true h = (ok tt, record h { registered = false })
delete_run_entry (some e) true h = (err e, h)

abbrev present_or_missing : String → Error → Act Host (Unit {0})
present_or_missing text e = if is_err_not_exist e then pure tt else fail (wrap text e)

-- removeLogonStartup: a key or a value that is missing is no error
unfoldable pub remove_logon_startup : Act Host (Unit {0})
remove_logon_startup h = elim h.open_fault [
  | some e ↦ present_or_missing "open Run key: %w" e h
  | none ↦
      catch (delete_run_entry h.delete_fault h.registered)
        (present_or_missing "delete Run value: %w") h
]

-- `if p != "" { _ = os.Remove(p) }`
abbrev pub discard : String → Act Host (Unit {0})
discard p = when (not (p == "")) (ignore (on_disk (remove p)))

abbrev unless_missing : Result (Unit {0}) → Act Host (Unit {0})
unless_missing (ok _) h = (ok tt, h)
unless_missing (err e) h =
    if is_not_exist e then (ok tt, h) else (err (wrap "unlink: remove config: %w" e), h)

-- The last two steps of `unlink`.
unfoldable pub clear_config : String → Act Host (Unit {0})
clear_config path = do
  inspect (on_disk (remove path)) unless_missing
  catch remove_logon_startup (λ e. fail (wrap "unlink: remove logon startup: %w" e))

-- runUnlink, with an error for the exit code 1
unfoldable pub run_unlink : Json → String → Act Host (Unit {0})
run_unlink json path = do
  cfg ← catch (on_disk (load json path)) (λ e. fail (wrap "unlink: load config: %w" e))
  discard cfg.cert_path
  discard cfg.key_path
  discard cfg.ca_path
  clear_config path
