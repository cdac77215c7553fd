-- ===== src/Light/Command.antt =====
-- agent/cmd/lightagent/main.go: the command itself, its subcommand `uninstall`, and the paths that it
-- uses when none is given.
use readyfleet_lightagent.Base.{
  ℕ, String, Bool, Option, none, some, List, [], ◌∷◌, Result, ok, err, Act, ◌==◌, if◌then◌else◌,
}
use readyfleet_lightagent.Install
use readyfleet_lightagent.Install.{Seams, uninstall}

-- os.Getenv and filepath.Join
pub record Env : Type 0 where
  pub getenv : String → String
  pub join : String → String → String

-- Paths of the package solarbeam, without its mode
pub record EnginePaths : Type 0 where
  pub engine : String
  pub bridge : String
  pub root : String

module _ (e : Env) where
  abbrev local : String → String → String
  local fallback name =
      let base = e.getenv "LocalAppData" in if base == "" then fallback else e.join base name

  -- lightAppDataDir
  unfoldable pub light_app_data_dir : String
  light_app_data_dir = local "lightagent-data" "ReadyFleet Light"

  -- defaultLightConfigPath
  unfoldable pub default_light_config_path : String
  unfolding light_app_data_dir
  default_light_config_path = e.join light_app_data_dir "config.json"

  -- defaultLightLogPath; filepath.Join of three
  unfoldable pub default_light_log_path : String
  unfolding light_app_data_dir
  default_light_log_path = e.join (e.join light_app_data_dir "logs") "lightagent.log"

  -- lightEngineDir
  unfoldable pub light_engine_dir : String
  light_engine_dir = local "solarbeam-engine" "SolarBeam"

  -- lightEnginePath
  unfoldable pub light_engine_path : String
  unfolding light_engine_dir
  light_engine_path = e.join light_engine_dir "sunshine.exe"

  -- lightBridgePath
  unfoldable pub light_bridge_path : String
  unfolding light_engine_dir
  light_bridge_path = e.join light_engine_dir "solarbeam-bridge.exe"

  -- solarbeamPath
  unfoldable pub solarbeam_path : String → String → String
  solarbeam_path key def = let v = e.getenv key in if v == "" then def else v

  -- The paths that runLightAgent gives to the manager of the engine.
  unfoldable pub engine_paths : EnginePaths
  unfolding solarbeam_path light_engine_path light_bridge_path light_engine_dir
  engine_paths = record {
    engine = solarbeam_path "SOLARBEAM_ENGINE_PATH" light_engine_path;
    bridge = solarbeam_path "SOLARBEAM_BRIDGE_PATH" light_bridge_path;
    root = light_engine_dir;
  }

-- The exit code of a function whose error is printed.
abbrev pub exit_code : Result (Unit {0}) → ℕ
exit_code (ok _) = 0
exit_code (err e) = 1

abbrev pub exited {ℓ} : {S : Type ℓ} → Result (Unit {0}) × S → ℕ × S
exited (r, s) = (exit_code r, s)

-- The paths of runUninstall.
abbrev pub uninstall_paths : Env → (String → String) → String → Install.Paths
uninstall_paths e dir exe = record {
  root = dir exe;
  agent_exe = exe;
  config_path = default_light_config_path e;
  key_path = e.join (dir exe) "client.key";
  log_path = "";
}

module _ {S P : Type 0} (e : Env) (dir : String → String) where
  abbrev located : Seams S P → Result String → S → ℕ × S
  located m (err x) s = (1, s)
  located m (ok exe) s = exited (uninstall (uninstall_paths e dir exe) m s)

  -- runUninstall; `executable` is what os.Executable returns, and `m` the manager on Windows
  unfoldable pub run_uninstall : Result String → Seams S P → S → ℕ × S
  run_uninstall executable m = located m executable

-- What the command is made of: runUnlink at a path, runUninstall, runLightAgent at a configuration with
-- the switch `insecure`, and the package flag (none is its own exit with the code 2).
pub record Program (S : Type 0) : Type 0 where
  pub unlink : String → Act S (Unit {0})
  pub uninstall : S → ℕ × S
  pub agent : String → Bool → Act S (Unit {0})
  pub parse_flags : List String → Option (Option String × Bool)

module _ {S : Type 0} (e : Env) (p : Program S) where
  -- The path that runUnlink takes.
  abbrev pub unlink_path : List String → String
  unlink_path [] = default_light_config_path e
  unlink_path (path ∷ args) = path

  abbrev pub config_path : Option String → String
  config_path none = default_light_config_path e
  config_path (some path) = path

  abbrev running : Option (Option String × Bool) → S → ℕ × S
  running none s = (2, s)
  running (some (path, insecure)) s = exited (p.agent (config_path path) insecure s)

  abbrev subcommand : String → List String → S → ℕ × S
  subcommand name args s =
      if name == "unlink"
      then exited (p.unlink (unlink_path args) s)
      else if name == "uninstall"
      then p.uninstall s
      else running (p.parse_flags (name ∷ args)) s

  -- main, over os.Args[1:]
  unfoldable pub main : List String → S → ℕ × S
  main [] s = running (p.parse_flags []) s
  main (name ∷ args) s = subcommand name args s
