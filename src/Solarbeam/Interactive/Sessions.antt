-- ===== src/Solarbeam/Interactive/Sessions.antt =====
-- What starting and stopping a session does to the processes of the machine.
use readyfleet_lightagent.Base.{
  ℕ, suc, String, Bool, true, false, not, ◌&&◌, ◌||◌, Act, ◌≡◌, ◌≢◌, refl, none, some, List, [],
  ◌∷◌, Result, ok, arith, eqb_iff, eq_iff,
}
use readyfleet_lightagent.Base.Lists.{all}
use readyfleet_lightagent.Proto.{SolarbeamStartArgs, SolarbeamEngineUpdateArgs}
use readyfleet_lightagent.Solarbeam.Manager.{Seams, Managed, start, stop, update, status}
use readyfleet_lightagent.Solarbeam.Manager.Laws.{update_refused}
use readyfleet_lightagent.Solarbeam.Interactive.{
  Process, Host, Paths, remaining, engine_process_running, kill_engine, is_bridge, terminate_bridge,
  interactive_seams, prepare_interactive, launch_bridge, start_engine_interactive, stop_interactive,
  bridge_env, engine_env,
}

-- No process is left that passes the test and could be terminated.
pub remaining-all :
    (target : Process → Bool) (stubborn : ℕ → Bool) (ps : List Process)
    → all
        (λ p. not (target p) || stubborn p.pid)
        (remaining (λ p. target p && not (stubborn p.pid)) ps)
      ≡ true
remaining-all target stubborn [] = refl
remaining-all target stubborn (p ∷ ps) = ground (arith, remaining-all target stubborn ps)

module _ (paths : Paths) (apply : SolarbeamEngineUpdateArgs → Act Host (Unit {0}))
    (version : Host → Result String) where
  abbrev seams : Seams Host
  seams = interactive_seams paths apply version

  -- The machine once the bridge of a session runs: other bridges are terminated first.
  abbrev pub bridged : SolarbeamStartArgs → Host → Host
  bridged args h = record h {
    processes =
        record {
          pid = h.next_pid;
          image = paths.base_name paths.bridge;
          env = bridge_env paths args;
        }
        ∷ (terminate_bridge paths h).processes;
  }

  -- A start that succeeds had an installed engine. After it a new engine is tracked and runs. The
  -- processes are that engine, whose added variables are the bridge's address and the machine id,
  -- then those of the machine with the new bridge, less the engine that was tracked before (unless
  -- it could not be killed).
  pub start-ok :
      (args : SolarbeamStartArgs) (s s' : Managed Host)
      → start seams args s ≡ (ok tt, s')
      → (s.host.installed paths.engine ≡ true)
        × ((status seams s').running ≡ true)
        × (s'.host.engine_proc ≡ some (suc s.host.next_pid))
        × (s'.host.processes
            ≡ record {
              pid = suc s.host.next_pid;
              image = paths.base_name paths.engine;
              env = engine_env paths args;
            }
              ∷ (kill_engine (bridged args s.host)).processes)
  unfolding start status prepare_interactive launch_bridge start_engine_interactive
      engine_process_running
  start-ok args s s' h = (
    ground arith,
    ground (arith, eqb_iff (suc s.host.next_pid) (suc s.host.next_pid)),
    ground arith,
    ground arith,
  )

  -- A stop always succeeds. After it no engine is tracked, the status says that none runs, and no
  -- bridge process is left but those that could not be terminated.
  pub stop-clears :
      (s : Managed Host)
      → paths.bridge ≢ ""
      → let (r, s') = stop seams s in
        (r ≡ ok tt)
        × (s'.host.engine_proc ≡ none)
        × ((status seams s').running ≡ false)
        × (all (λ p. not (is_bridge paths p) || s.host.stubborn p.pid) s'.host.processes ≡ true)
  unfolding stop status stop_interactive engine_process_running
  stop-clears s h = (
    ground arith,
    ground arith,
    ground arith,
    ground (
      arith,
      eq_iff paths.bridge "",
      remaining-all (is_bridge paths) s.host.stubborn (kill_engine s.host).processes,
    ),
  )

  -- While a started engine runs, no engine update is let in.
  pub start_blocks_update :
      (args : SolarbeamStartArgs) (s s' : Managed Host) (u : SolarbeamEngineUpdateArgs)
      → start seams args s ≡ (ok tt, s')
      → ((update seams u s').1 ≡ s') × ((update seams u s').0 ≢ ok tt)
  unfolding status
  start_blocks_update args s s' u h = update_refused seams u s' (start-ok args s s' h).1
