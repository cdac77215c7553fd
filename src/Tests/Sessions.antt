-- ===== src/Tests/Sessions.antt =====
-- Sessions of the engine at concrete inputs.
use readyfleet_lightagent.Base.{
  String, true, false, ◌≡◌, refl, none, some, [], ◌∷◌, Result, err, new, pure, Act,
}
use readyfleet_lightagent.Proto.{SolarbeamStartArgs, SolarbeamEngineUpdateArgs}
use readyfleet_lightagent.Solarbeam.Manager.{Seams, Managed, start, status}
use readyfleet_lightagent.Solarbeam.Interactive.{
  Host, Paths, interactive_seams, engine_env, kill_engine, prepare_interactive, launch_bridge,
  start_engine_interactive, start_process, wait_for_listener,
}
use readyfleet_lightagent.Solarbeam.Interactive.Sessions.{bridged, start-ok}

abbrev pub paths : Paths
paths = record {
  engine = "sunshine.exe";
  bridge = "bridge.exe";
  base_name = λ p. p;
  lower = λ s. s;
}

abbrev no_version : Host → Result String
no_version h = err (new "no version resource")

abbrev apply : SolarbeamEngineUpdateArgs → Act Host (Unit {0})
apply a = pure tt

abbrev seams : Seams Host
seams = interactive_seams paths apply no_version

abbrev pub machine : Managed Host
machine = record {
  host = record {
    processes = record { pid = 3; image = "bridge.exe"; env = [] } ∷ [];
    next_pid = 7;
    engine_proc = none;
    stubborn = λ pid. false;
    installed = λ path. true;
    failures = [];
  };
  last_updated_version = "";
}

abbrev pub session : SolarbeamStartArgs
session = record {
  session_id = "s1";
  machine_id = "m1";
  readyapp_url = "https://app";
  bundle_token = "t1";
}

abbrev running : Managed Host
running = (start seams session machine).1

start-ok_example :
    (machine.host.installed "sunshine.exe" ≡ true)
    × ((status seams running).running ≡ true)
    × (running.host.engine_proc ≡ some 8)
    × (running.host.processes
        ≡ record { pid = 8; image = "sunshine.exe"; env = engine_env paths session }
          ∷ (kill_engine (bridged paths apply no_version session machine.host)).processes)
unfolding start prepare_interactive launch_bridge start_engine_interactive start_process
    wait_for_listener
start-ok_example = start-ok paths apply no_version session machine running refl
