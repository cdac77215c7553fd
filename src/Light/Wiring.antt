-- ===== src/Light/Wiring.antt =====
-- agent/cmd/lightagent/main.go and agent/internal/runtime/runtime.go: what runLightAgent hands to the
-- client that it runs.
pub mod Laws
use readyfleet_lightagent.Base.{String, Bool}
use readyfleet_lightagent.Config
use readyfleet_lightagent.Light.Startup.{Setting, Started}
use readyfleet_lightagent.Transport.Dialing.{Identity}

-- runtime.Config as runLightAgent fills it, which NewClient passes on to transport.Config; the light agent
-- sets neither OS nor OSVersion.
unfoldable pub client_config : Setting → Started → Identity
client_config s a = record {
  server_url = a.cfg.server_url;
  cert_file = a.cfg.cert_path;
  key_file = a.cfg.key_path;
  ca_file = a.cfg.ca_path;
  machine_id = a.cfg.machine_id;
  agent_version = s.agent_version;
  os = "";
  os_version = "";
  insecure = s.insecure;
}
