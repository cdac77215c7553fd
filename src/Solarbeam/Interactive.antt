-- ===== src/Solarbeam/Interactive.antt =====
-- agent/internal/solarbeam/manager_windows.go in ModeInteractive: the seams of the manager over the
-- processes of the machine.
pub mod Sessions
use readyfleet_lightagent.Base.{
  ℕ, suc, String, Bool, true, false, ◌||◌, ◌&&◌, not, Option, none, some, List, [], ◌∷◌, Error, new,
  errorf, wrap, Result, ok, err, Act, fail, catch, guard, modify, ◌>>=◌, ◌>>◌, ◌==◌, eqb,
  if◌then◌else◌,
}
use readyfleet_lightagent.Proto.{SolarbeamStartArgs, SolarbeamEngineUpdateArgs}
use readyfleet_lightagent.Solarbeam.Manager.{Seams}

-- A running process. `image` is the base name of its executable.
pub record Process : Type 0 where
  pub pid : ℕ
  pub image : String
  pub env : List (String × String)

-- `stubborn` are the processes that terminateByName leaves: OpenProcess or TerminateProcess
-- fails on them, or its walk does not come to them, as the snapshot, Process32First or Process32Next
-- failed; `installed` the files that os.Stat
-- finds, and `failures` what the next starts and waits for a listener return (past the end they
-- succeed). Process ids are not used again.
pub record Host : Type 0 where
  pub processes : List Process
  pub next_pid : ℕ
  pub engine_proc : Option ℕ  -- the field interactiveEngineProc
  pub stubborn : ℕ → Bool
  pub installed : String → Bool
  pub failures : List (Option Error)

-- `base_name` is filepath.Base and `lower` is strings.ToLower.
pub record Paths : Type 0 where
  pub engine : String
  pub bridge : String
  pub base_name : String → String
  pub lower : String → String

abbrev pub bridge_ws_url : String
bridge_ws_url = "ws://127.0.0.1:9092/bridge"

abbrev pub remaining : (Process → Bool) → List Process → List Process
remaining dies [] = []
remaining dies (p ∷ ps) = let rest = remaining dies ps in if dies p then rest else p ∷ rest

-- Every process that passes a test is terminated, if it can be.
abbrev pub terminate : (Process → Bool) → Host → Host
terminate target h = record h {
  processes = remaining (λ p. target p && not (h.stubborn p.pid)) h.processes;
}

abbrev verdict : List (Option Error) → Option Error
verdict [] = none
verdict (f ∷ fs) = f

abbrev later : List (Option Error) → List (Option Error)
later [] = []
later (f ∷ fs) = fs

abbrev attempted : {A : Type 0} → Option Error → A → Result A
attempted none a = ok a
attempted (some e) a = err e

abbrev launched : Option Error → Process → List Process → List Process
launched none p ps = p ∷ ps
launched (some e) p ps = ps

-- cmd.Start()
unfoldable pub start_process : String → List (String × String) → Act Host ℕ
start_process image env h =
    let p : Process = record { pid = h.next_pid; image = image; env = env } in
    (
      attempted (verdict h.failures) h.next_pid,
      record h {
        processes = launched (verdict h.failures) p h.processes;
        next_pid = suc h.next_pid;
        failures = later h.failures;
      },
    )

-- waitForListener: the bridge listens within the time, or an error comes back
unfoldable pub wait_for_listener : Act Host (Unit {0})
wait_for_listener h = (attempted (verdict h.failures) tt, record h { failures = later h.failures })

abbrev pub has_pid : ℕ → List Process → Bool
has_pid pid [] = false
has_pid pid (p ∷ ps) = eqb p.pid pid || has_pid pid ps

-- engineProcessRunning
unfoldable pub engine_process_running : Host → Bool
engine_process_running h = elim h.engine_proc [ none ↦ false | some pid ↦ has_pid pid h.processes ]

-- `_ = m.interactiveEngineProc.Kill(); m.interactiveEngineProc = nil`, if it is set
abbrev kill_tracked : Option ℕ → Host → Host
kill_tracked none h = h
kill_tracked (some pid) h = record (terminate (λ p. eqb p.pid pid) h) { engine_proc = none }

abbrev pub kill_engine : Host → Host
kill_engine h = kill_tracked h.engine_proc h

module _ (paths : Paths) where
  -- terminateByName of the bridge
  abbrev pub is_bridge : Process → Bool
  is_bridge p = paths.lower p.image == paths.lower (paths.base_name paths.bridge)

  abbrev pub terminate_bridge : Host → Host
  terminate_bridge h = terminate is_bridge h

  -- engineBinaryExists, which is all of prepareEngineInteractive
  unfoldable pub prepare_interactive : Act Host (Unit {0})
  prepare_interactive = do
    guard (not (paths.engine == "")) (new "engine path not configured")
    λ h.
        guard (h.installed paths.engine)
          (errorf "engine not installed at %s: %w" (paths.engine ∷ [])) h

  -- the variables that launchBridge adds to the bridge's environment
  abbrev pub bridge_env : SolarbeamStartArgs → List (String × String)
  bridge_env args =
      ("READYAPP_URL", args.readyapp_url)
      ∷ ("SESSION_ID", args.session_id)
      ∷ ("SOLARBEAM_MACHINE_ID", args.machine_id)
      ∷ ("SOLARBEAM_BUNDLE_TOKEN", args.bundle_token)
      ∷ []

  -- launchBridge
  unfoldable pub launch_bridge : SolarbeamStartArgs → Act Host (Unit {0})
  unfolding start_process wait_for_listener
  launch_bridge args = do
    guard (not (paths.bridge == "")) (new "bridge path not configured")
    modify terminate_bridge
    catch (start_process (paths.base_name paths.bridge) (bridge_env args))
        (λ e. fail (wrap "start bridge: %w" e))
    catch wait_for_listener (λ e. fail (wrap "bridge not listening on %s: %w" e))

  -- the variables that buildEngineCmd adds to the engine's environment
  abbrev pub engine_env : SolarbeamStartArgs → List (String × String)
  engine_env args =
      ("SOLARBEAM_BRIDGE_WS", bridge_ws_url) ∷ ("SOLARBEAM_MACHINE_ID", args.machine_id) ∷ []

  -- startEngineInteractive
  unfoldable pub start_engine_interactive : SolarbeamStartArgs → Act Host (Unit {0})
  unfolding start_process
  start_engine_interactive args = do
    modify kill_engine
    pid ←
        catch (start_process (paths.base_name paths.engine) (engine_env args))
          (λ e. fail (wrap "start engine: %w" e))
    modify (λ h. record h { engine_proc = some pid })

  -- stopSolarbeamInteractive
  unfoldable pub stop_interactive : Act Host (Unit {0})
  stop_interactive = do
    modify kill_engine
    modify (λ h. if paths.bridge == "" then h else terminate_bridge h)

  -- New, in ModeInteractive. The update's download and the version resource are the caller's.
  abbrev pub interactive_seams :
      (SolarbeamEngineUpdateArgs → Act Host (Unit {0})) → (Host → Result String) → Seams Host
  interactive_seams apply version = record {
    prepare = prepare_interactive;
    launch = launch_bridge;
    engine = start_engine_interactive;
    stop = stop_interactive;
    is_running = engine_process_running;
    apply_update = apply;
    file_version = version;
  }
