-- ===== src/Light/Inventory.antt =====
-- agent/internal/lightinventory/inventory.go: the snapshot that the light agent reports.
use readyfleet_lightagent.Base.{String, Option, none, some, Result, ok, err, if◌then◌else◌}
use readyfleet_lightagent.Proto.{LightInventoryData}
use readyfleet_lightagent.Solarbeam.Manager.{Status}

abbrev pub os_family : String
os_family = "windows"

abbrev snapshot : String → String → String → Option Status → LightInventoryData
snapshot arch version major none = record {
  os_family = os_family;
  os_major_version = major;
  architecture = arch;
  agent_version = version;
  solarbeam_version = "";
  solarbeam_status = "";
}
snapshot arch version major (some s) = record {
  os_family = os_family;
  os_major_version = major;
  architecture = arch;
  agent_version = version;
  solarbeam_version = s.engine_version;
  solarbeam_status = if s.running then "running" else "stopped";
}

abbrev collected : (String → LightInventoryData) → Result String → Result LightInventoryData
collected f (ok major) = ok (f major)
collected f (err e) = err e

-- Collect; `os_major_version` is what osMajorVersion returns, and there is a status where there is a
-- manager
unfoldable pub collect : String → Result String → String → Option Status → Result LightInventoryData
collect arch os_major_version agent_version status =
    collected (λ major. snapshot arch agent_version major status) os_major_version
