-- ===== src/Light/Handlers.antt =====
-- agent/cmd/lightagent/handlers.go: the six command handlers.
pub mod Replies
pub mod Calls
use readyfleet_lightagent.Base.{
  ℕ, String, Bool, true, false, ◌||◌, ◌&&◌, not, Option, none, some, List, [], ◌∷◌, Error, new,
  errorf, wrap, Result, ok, err, Act, pure, fail, lift, ignore, inspect, catch, guard, ◌>>=◌, ◌>>◌,
  ◌==◌, eqb, if◌then◌else◌,
}
use readyfleet_lightagent.Base.Int.{pos, negsuc}
use readyfleet_lightagent.Base.Text.{Bytes}
use readyfleet_lightagent.Proto.{
  CommandData, ResultData, SolarbeamStartArgs, StopSolarbeamArgs, SolarbeamEngineUpdateArgs,
  UpdateArgs, ShowNotificationArgs, LightInventoryData, msg_result, msg_inventory,
  cmd_inventory_refresh, cmd_start_solarbeam, cmd_stop_solarbeam, cmd_solarbeam_engine_update,
  cmd_update, cmd_show_notification,
}
use readyfleet_lightagent.Proto.Envelope.{Envelope, decode_data, decode_args}
use readyfleet_lightagent.Runtime.Link.{Link, now, since, send, make_envelope, on_host}
use readyfleet_lightagent.Runtime.Dispatch
use readyfleet_lightagent.Runtime.Dispatch.{Handler, Handlers}

-- trayicon.NotifySeverity
pub data Severity : Type 0 where
  notify_info notify_warning notify_error : Severity

-- json.Unmarshal and json.Marshal at the types that the handlers use.
pub record Codec : Type 0 where
  pub decode_command : Bytes → Result CommandData
  pub decode_start : Bytes → Result SolarbeamStartArgs
  pub decode_stop : Bytes → Result StopSolarbeamArgs
  pub decode_engine_update : Bytes → Result SolarbeamEngineUpdateArgs
  pub decode_update : Bytes → Result UpdateArgs
  pub decode_notification : Bytes → Result ShowNotificationArgs
  pub encode_result : ResultData → Result Bytes
  pub encode_inventory : LightInventoryData → Result Bytes

-- What the handlers call on the machine: lightinventory.Collect, the methods of solarbeam.Manager
-- and of update.Manager, `Notify` of the tray (with the URL that a click opens), and
-- showConnectionRequest, which starts a goroutine and returns, where a prompter is set.
pub record Services (S : Type 0) : Type 0 where
  pub collect : Act S LightInventoryData
  pub start : SolarbeamStartArgs → Act S (Unit {0})
  pub stop : StopSolarbeamArgs → Act S (Unit {0})
  pub engine_update : SolarbeamEngineUpdateArgs → Act S (Unit {0})
  pub self_update : UpdateArgs → Act S (Unit {0})
  pub notify : String → String → Severity → Option String → Act S (Unit {0})
  pub connection_request : Option (String → String → String → Act S (Unit {0}))

abbrev pub connection_request_kind : String
connection_request_kind = "connection_request"

unfoldable pub severity_from_wire : String → Severity
severity_from_wire s =
    if s == "warning" then notify_warning else if s == "error" then notify_error else notify_info

abbrev pub success : ResultData
success = record { exit_code = pos 0; duration = 0; output_hash = ""; error = none }

abbrev pub failure : Error → ResultData
failure e = record { exit_code = negsuc 0; duration = 0; output_hash = ""; error = some e }

module _ {S : Type 0} (codec : Codec) (svc : Services S) where
  -- decodeArgs
  unfoldable pub decode_args_for :
      {A : Type 0} → String → Envelope → (Bytes → Result A) → Act (Link S) A
  unfolding decode_data decode_args
  decode_args_for want env unmarshal = do
    cmd ←
        catch (lift (decode_data env codec.decode_command))
          (λ e. fail (wrap "decode command: %w" e))
    guard (cmd.kind == want) (errorf "expected kind %v, got %q" (want ∷ cmd.kind ∷ []))
    catch (lift (decode_args cmd unmarshal)) (λ e. fail (wrap "decode %s args: %w" e))

  abbrev duration_of : ResultData → ℕ → Act (Link S) ℕ
  duration_of data_ start = if eqb data_.duration 0 then since start else pure data_.duration

  -- emitResult
  unfoldable pub emit_result : ℕ → ResultData → ℕ → Act (Link S) (Unit {0})
  unfolding since make_envelope send
  emit_result parent data_ start = ignore (do
    d ← duration_of data_ start
    env ←
        make_envelope msg_result 0 (some parent)
          (some (codec.encode_result (record data_ { duration = d })))
    send env)

  abbrev timed_success : ℕ → Envelope → Act (Link S) (Unit {0})
  timed_success start env = do
    d ← since start
    emit_result env.id (record success { duration = d }) start

  -- The last lines of a handler: the result for what its body returned.
  abbrev report : ℕ → Envelope → Result (Unit {0}) → Act (Link S) (Unit {0})
  report start env (ok _) = timed_success start env
  report start env (err e) = emit_result env.id (failure e) start

  abbrev with_result : Envelope → Act (Link S) (Unit {0}) → Act (Link S) (Unit {0})
  with_result env body = do start ← now; inspect body (report start env)

  abbrev pub start_body : Envelope → Act (Link S) (Unit {0})
  start_body env = do
    args ← decode_args_for cmd_start_solarbeam env codec.decode_start
    guard (not (args.session_id == "" || args.machine_id == "" || args.bundle_token == ""))
        (new "start_solarbeam args: session_id, machine_id and bundle_token are required")
    on_host (svc.start args)

  unfoldable pub run_start_solarbeam : Handler S
  run_start_solarbeam env = with_result env (start_body env)

  abbrev pub stop_body : Envelope → Act (Link S) (Unit {0})
  stop_body env = do
    args ← decode_args_for cmd_stop_solarbeam env codec.decode_stop
    guard (not (args.session_id == "")) (new "stop_solarbeam args: session_id is required")
    on_host (svc.stop args)

  unfoldable pub run_stop_solarbeam : Handler S
  run_stop_solarbeam env = with_result env (stop_body env)

  abbrev pub engine_update_body : Envelope → Act (Link S) (Unit {0})
  engine_update_body env = do
    args ← decode_args_for cmd_solarbeam_engine_update env codec.decode_engine_update
    on_host (svc.engine_update args)

  unfoldable pub run_solarbeam_engine_update : Handler S
  run_solarbeam_engine_update env = with_result env (engine_update_body env)

  abbrev pub self_update_body : Envelope → Act (Link S) (Unit {0})
  self_update_body env = do
    args ← decode_args_for cmd_update env codec.decode_update
    on_host (svc.self_update args)

  unfoldable pub run_self_update : Handler S
  run_self_update env = with_result env (self_update_body env)

  -- A connection request goes to the prompter, if there is one; all else is a balloon.
  abbrev pub show :
      Option (String → String → String → Act S (Unit {0}))
      → ShowNotificationArgs
      → Act (Link S) (Unit {0})
  show none args = on_host (
      svc.notify args.title args.body (severity_from_wire args.severity)
        (if args.url == "" then none else some args.url))
  show (some prompt) args =
      if args.kind == connection_request_kind
      then ignore (on_host (prompt args.title args.body args.url))
      else on_host (
          svc.notify args.title args.body (severity_from_wire args.severity)
            (if args.url == "" then none else some args.url))

  abbrev pub notification_body : Envelope → Act (Link S) (Unit {0})
  notification_body env = do
    args ← decode_args_for cmd_show_notification env codec.decode_notification
    guard (not (args.kind == "" || args.title == "" || args.body == ""))
        (new "show_notification args: kind, title and body are required")
    show svc.connection_request args

  unfoldable pub run_show_notification : Handler S
  run_show_notification env = with_result env (notification_body env)

  abbrev pub inventory_body : Envelope → Act (Link S) (Unit {0})
  inventory_body env = do
    inv ← catch (on_host svc.collect) (λ e. fail (wrap "inventory collect: %w" e))
    inv_env ←
        catch (make_envelope msg_inventory 0 (some env.id) (some (codec.encode_inventory inv)))
          (λ e. fail (wrap "build inventory envelope: %w" e))
    catch (send inv_env) (λ e. fail (wrap "send inventory: %w" e))

  abbrev report_inventory : ℕ → Envelope → Result (Unit {0}) → Act (Link S) (Unit {0})
  report_inventory start env (ok _) = emit_result env.id success start
  report_inventory start env (err e) = emit_result env.id (failure e) start

  unfoldable pub run_inventory_refresh : Handler S
  run_inventory_refresh env = do
    start ← now
    inspect (inventory_body env) (report_inventory start env)

  -- LightHandlers
  unfoldable pub light_handlers : Handlers S
  light_handlers =
      (cmd_inventory_refresh, run_inventory_refresh)
      ∷ (cmd_start_solarbeam, run_start_solarbeam)
      ∷ (cmd_stop_solarbeam, run_stop_solarbeam)
      ∷ (cmd_solarbeam_engine_update, run_solarbeam_engine_update)
      ∷ (cmd_update, run_self_update)
      ∷ (cmd_show_notification, run_show_notification)
      ∷ []

  -- The CommandHandler of the client that the light agent runs.
  unfoldable pub light_dispatch : Handler S
  light_dispatch = Dispatch.dispatch codec.decode_command codec.encode_result light_handlers
