-- ===== src/Solarbeam/Managed.antt =====
-- agent/internal/solarbeam/manager_windows.go in ModeManaged: the engine as a service of Windows.
pub mod Waiting
pub mod Handing
pub mod Sessions
use readyfleet_lightagent.Base.{
  ℕ, zero, suc, ◌+◌, ◌-◌, ◌*◌, String, ◌<>◌, Bool, true, false, not, ◌&&◌, ◌||◌, Option, none, some,
  List, [], ◌∷◌, Error, new, errorf, wrap, not_exist, is_not_exist, is_ok, Result, ok, err, Act,
  pure, fail, lift, gets, modify, catch, inspect, guard, when, ◌>>=◌, ◌>>◌, ◌==◌, ltb,
  if◌then◌else◌,
}
use readyfleet_lightagent.Base.Text.{bytes}
use readyfleet_lightagent.Base.Disk.{Disk, write_file, remove, touch}
use readyfleet_lightagent.Proto.{SolarbeamStartArgs, SolarbeamEngineUpdateArgs}
use readyfleet_lightagent.Solarbeam.Manager.{Seams}
use readyfleet_lightagent.Solarbeam.Interactive.{
  Host, Paths, bridge_ws_url, prepare_interactive, launch_bridge, terminate_bridge,
}
use readyfleet_lightagent.Solarbeam.Service.{
  ServiceHost, ServiceState, applied, calling, connected, drifted, enough_polls, finished, is_state,
  looked, now, open_service, opened, other, pause, poll, poll_interval, present, query, rest,
  running, same_state, service_state_timeout, start_pending, state_of, stop_pending, stopped, tick,
  verdict, wait_for_service_state,
}

abbrev engine_service_name : String
engine_service_name = "SunshineService"

-- stopServiceIfRunning
unfoldable pub stop_service_if_running : Act ServiceHost (Unit {0})
unfolding query wait_for_service_state
stop_service_if_running = do
  state ← catch query (λ e. fail (wrap "query %s: %w" e))
  when (not (same_state state stopped)) (do
    catch (calling (λ h. record h { service = some stop_pending }))
        (λ e. fail (wrap "stop %s: %w" e))
    reached ← wait_for_service_state stopped
    guard reached (errorf "%s did not stop within %s" (engine_service_name ∷ [])))

-- restartEngineService, with the service open
unfoldable pub restart_service : Act ServiceHost (Unit {0})
unfolding stop_service_if_running wait_for_service_state
restart_service = do
  stop_service_if_running
  catch (calling (λ h. record h { service = some start_pending; starts = suc h.starts }))
      (λ e. fail (wrap "start %s: %w" e))
  reached ← wait_for_service_state running
  guard reached (errorf "%s did not reach running within %s" (engine_service_name ∷ []))

-- restartEngineService
unfoldable pub restart_engine_service : Act ServiceHost (Unit {0})
restart_engine_service =
    connected (do catch open_service (λ e. fail (wrap "open %s: %w" e)); opened restart_service)

-- The call and its close: a service that opens is closed at once.
abbrev closed_at_once : Act ServiceHost (Unit {0})
closed_at_once = opened (pure tt)

-- CreateService, of a service that is not there
abbrev create_service : Option ServiceState → Act ServiceHost (Unit {0})
create_service none = calling (λ h. record h { service = some stopped })
create_service (some s) = fail (new "The specified service already exists.")

-- writeBridgeEnv
abbrev pub bridge_contents : SolarbeamStartArgs → String
bridge_contents args =
    "SOLARBEAM_BRIDGE_WS=" <> bridge_ws_url <> "\n" <> "SOLARBEAM_MACHINE_ID=" <> args.machine_id
    <> "\n"

abbrev pub bridge_env_file : String
bridge_env_file = "C:\\ProgramData\\SolarBeam\\bridge.env"

abbrev pub on_disk : Act Disk (Unit {0}) → Act ServiceHost (Unit {0})
on_disk m h = let (r, d) = m h.disk in (r, record h { disk = d })

-- A call on the processes.
abbrev pub on_processes : Act Host (Unit {0}) → Act ServiceHost (Unit {0})
on_processes m h = let (r, p) = m h.host in (r, record h { host = p })

unfoldable pub write_bridge_env : SolarbeamStartArgs → Act ServiceHost (Unit {0})
write_bridge_env args = do
  catch (on_disk touch) (λ e. fail (wrap "create %s: %w" e))
  catch (on_disk (write_file bridge_env_file (bytes (bridge_contents args))))
      (λ e. fail (wrap "write %s: %w" e))

-- startEngine
unfoldable pub start_engine : SolarbeamStartArgs → Act ServiceHost (Unit {0})
start_engine args = write_bridge_env args >> restart_engine_service

-- Whatever kept the service from being opened passes for "not installed".
abbrev stop_opened : Result (Unit {0}) → Act ServiceHost (Unit {0})
stop_opened (err e) = pure tt
stop_opened (ok u) = opened stop_service_if_running

-- stopEngineService
unfoldable pub stop_engine_service : Act ServiceHost (Unit {0})
stop_engine_service =
    connected (
      inspect open_service
        (λ r. elim r [ err e ↦ pure tt | ok u ↦ opened stop_service_if_running ]))

-- engineServiceRunning
unfoldable pub engine_service_running : ServiceHost → Bool
unfolding query
engine_service_running h =
    is_ok
      ((do
        calling (λ h. h)
        open_service
        state ← query
        guard (same_state state running) (new "not running"))
        h).0

-- `os.Remove(bridgeEnvFile)` with a missing file let pass
abbrev pub remove_bridge_env : Act ServiceHost (Unit {0})
remove_bridge_env =
    catch (on_disk (remove bridge_env_file))
      (λ e. if is_not_exist e then pure tt else fail (wrap "remove %s: %w" e))

-- filepath.Dir and filepath.Join are parameters.
module _ (dir : String → String) (join : List String → String) (paths : Paths) where
  abbrev pub engine_service_path : String
  engine_service_path = join (dir paths.engine ∷ "tools" ∷ "sunshinesvc.exe" ∷ [])

  -- What ensureEngineService does where the service does not open.
  abbrev pub install_service : Act ServiceHost (Unit {0})
  install_service = do
    λ h.
        guard (h.host.installed engine_service_path)
          (errorf "engine service host %s not installed: %w" (engine_service_path ∷ [])) h
    catch (λ h. create_service h.service h) (λ e. fail (wrap "create %s service: %w" e))
    closed_at_once

  abbrev ensure_opened : Result (Unit {0}) → Act ServiceHost (Unit {0})
  ensure_opened (ok u) = closed_at_once
  ensure_opened (err e) = install_service

  -- ensureEngineService
  unfoldable pub ensure_engine_service : Act ServiceHost (Unit {0})
  ensure_engine_service = connected (inspect open_service ensure_opened)

  -- prepareEngine
  unfoldable pub prepare_engine : Act ServiceHost (Unit {0})
  prepare_engine = on_processes (prepare_interactive paths) >> ensure_engine_service

  -- stopSolarbeam
  unfoldable pub stop_solarbeam : Act ServiceHost (Unit {0})
  stop_solarbeam = do
    stop_engine_service
    modify
        (λ h. if paths.bridge == "" then h else record h { host = terminate_bridge paths h.host })
    remove_bridge_env

  -- New, in ModeManaged. The update and the version resource are the caller's.
  abbrev pub managed_seams :
      (SolarbeamEngineUpdateArgs → Act ServiceHost (Unit {0}))
      → (ServiceHost → Result String)
      → Seams ServiceHost
  managed_seams apply version = record {
    prepare = prepare_engine;
    launch = λ args. on_processes (launch_bridge paths args);
    engine = start_engine;
    stop = stop_solarbeam;
    is_running = engine_service_running;
    apply_update = apply;
    file_version = version;
  }
