-- ===== src/Tests/Services.antt =====
-- The engine as a service at concrete inputs.
use readyfleet_lightagent.Base.{
  ◌+◌, String, true, false, not, ◌||◌, ◌≡◌, ◌≢◌, refl, ◌⊎◌, none, some, List, [], ◌∷◌, Act, Error,
  Result, err, is_ok, new, pure, is_not_exist,
}
use readyfleet_lightagent.Base.Lists.{all}
use readyfleet_lightagent.Base.Disk.{remove}
use readyfleet_lightagent.Proto.{SolarbeamEngineUpdateArgs}
use readyfleet_lightagent.Solarbeam.Manager.{Managed, start}
use readyfleet_lightagent.Solarbeam.Interactive.{is_bridge}
use readyfleet_lightagent.Solarbeam.Service.{
  ServiceHost, stopped, running, verdict, rest, service_state_timeout, enough_polls, now, query,
  poll, wait_for_service_state,
}
use readyfleet_lightagent.Solarbeam.Managed.{
  stop_service_if_running, bridge_env_file, stop_engine_service, stop_solarbeam, managed_seams,
}
use readyfleet_lightagent.Solarbeam.Managed.Waiting.{wait_ends}
use readyfleet_lightagent.Solarbeam.Managed.Sessions.{stop_solarbeam-clears}
use readyfleet_lightagent.Tests.Downloads.{blank}
use readyfleet_lightagent.Tests.Sessions.{paths, machine, session}

-- The service is stopped, and runs at the second look.
abbrev quiet : ServiceHost
quiet = record {
  host = machine.host;
  service = some stopped;
  calls = [];
  drift = none ∷ some running ∷ [];
  clock = 0;
  ticks = 7 ∷ [];
  handles = 0;
  starts = 0;
  disk = blank;
}

wait_ends_example :
    poll enough_polls running ((now quiet).1.clock + service_state_timeout) (now quiet).1 ≢ none
wait_ends_example = wait_ends running quiet

abbrev dir : String → String
dir p = p

abbrev join : List String → String
join ps = "sunshinesvc.exe"

abbrev apply_nothing : SolarbeamEngineUpdateArgs → Act ServiceHost (Unit {0})
apply_nothing a = pure tt

abbrev unknown : ServiceHost → Result String
unknown h = err (new "no version resource")

abbrev managed : Managed ServiceHost
managed = record { host = quiet; last_updated_version = "" }

abbrev after_start : Managed ServiceHost
after_start = (start (managed_seams dir join paths apply_nothing unknown) session managed).1

-- A running service that stops at the second look.
abbrev busy : ServiceHost
busy = record quiet { service = some running; drift = none ∷ some stopped ∷ [] }

stop_solarbeam-clears_example :
    let d = (stop_solarbeam dir join paths busy).1 in
    ((d.service ≡ some stopped)
      ⊎ (some running ≡ none)
      ⊎ (is_ok (verdict (rest busy.calls)) ≡ false))
    × (all (λ p. not (is_bridge paths p) || busy.host.stubborn p.pid) d.host.processes ≡ true)
    × ((d.disk.files bridge_env_file ≡ none)
        ⊎ ((e : Error) × ((remove bridge_env_file busy.disk).0 ≡ err e) × (is_not_exist e ≡ true)))
    × (d.handles ≡ 0)
unfolding stop_solarbeam stop_engine_service stop_service_if_running wait_for_service_state poll
    query now remove
stop_solarbeam-clears_example = stop_solarbeam-clears dir join paths busy (λ e. cc) refl
