-- ===== src/Proto/Snapshot.antt =====
-- The payloads of `MsgInventory` and `MsgTelemetry` in proto/messages.go. Times are numbers, and a
-- floating-point number is the text that JSON has for it. A pointer field is an option.
use readyfleet_lightagent.Base.{ℕ, String, Bool, Option, List}
use readyfleet_lightagent.Base.Int.{ℤ}

abbrev pub Float : Type 0
Float = String

pub record OsInfo : Type 0 where
  pub name : String
  pub version : String
  pub build : String
  pub install_date : ℕ

pub record DiskInfo : Type 0 where
  pub model : String
  pub size_bytes : ℤ
  pub free_bytes : ℤ
  pub mount : String

pub record HardwareInfo : Type 0 where
  pub cpu_model : String
  pub cpu_cores : ℤ
  pub ram_bytes : ℤ
  pub disks : List DiskInfo

pub record Nic : Type 0 where
  pub name : String
  pub mac : String
  pub ips : List String
  pub gateway : String

pub record NetworkInfo : Type 0 where
  pub nics : List Nic
  pub primary_ip : String

pub record SoftwareItem : Type 0 where
  pub name : String
  pub version : String
  pub publisher : String
  pub install_date : ℕ

pub record BootEntry : Type 0 where
  pub guid : String
  pub description : String
  pub is_default : Bool

pub record InventoryData : Type 0 where
  pub hostname : String
  pub fqdn : String
  pub os : OsInfo
  pub hardware : HardwareInfo
  pub network : NetworkInfo
  pub installed_software : List SoftwareItem
  pub boot_entries : List BootEntry
  pub hardware_fingerprint : String
  pub collected_at : ℕ
  pub checksum : String

pub record DiskUsage : Type 0 where
  pub mount : String
  pub used_bytes : ℤ
  pub total_bytes : ℤ
  pub read_bytes_sec : ℤ
  pub write_bytes_sec : ℤ

pub record NetworkUsage : Type 0 where
  pub rx_bytes_sec : ℤ
  pub tx_bytes_sec : ℤ

pub record GpuInfo : Type 0 where
  pub name : String
  pub util_percent : Option Float
  pub mem_used_bytes : Option ℤ
  pub mem_total_bytes : Option ℤ
  pub temp_c : Option Float

pub record ThermalInfo : Type 0 where
  pub cpu_temp_c : Option Float
  pub motherboard_temp_c : Option Float

pub record TelemetryData : Type 0 where
  pub collected_at : ℕ
  pub cpu_percent : Float
  pub ram_used_bytes : ℤ
  pub ram_total_bytes : ℤ
  pub disks : List DiskUsage
  pub network : NetworkUsage
  pub gpus : List GpuInfo
  pub thermal : ThermalInfo
