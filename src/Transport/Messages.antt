-- ===== src/Transport/Messages.antt =====
-- `dispatch`, `sendInventory` and a sample of `telemetryLoop` of
-- agent/internal/transport/client.go: what each makes of what it gets, up to the Send.
pub mod Routes
use readyfleet_lightagent.Base.{
  ℕ, String, Bool, true, false, ◌&&◌, ◌||◌, Option, none, some, [], Error, Result, ok, err, ◌==◌,
  if◌then◌else◌,
}
use readyfleet_lightagent.Base.Text.{Bytes}
use readyfleet_lightagent.Proto.{
  HelloAckData, msg_hello, msg_hello_ack, msg_ping, msg_pong, msg_command, msg_terminal_open,
  msg_terminal_input, msg_terminal_resize, msg_terminal_close, msg_screen_start, msg_screen_stop,
  msg_inventory, msg_telemetry, msg_cancel, protocol_version,
}
use readyfleet_lightagent.Proto.Envelope.{Envelope, new_envelope, decode_data}
use readyfleet_lightagent.Proto.Snapshot.{InventoryData, TelemetryData}

-- Which function fields of Config are set.
pub record Config : Type 0 where
  pub inventory_provider : Bool
  pub telemetry_provider : Bool
  pub command_handler : Bool
  pub terminal_handler : Bool
  pub screen_handler : Bool

-- encoding/json at the types that the connection needs.
pub record Codec : Type 0 where
  pub marshal : Envelope → Result Bytes
  pub unmarshal : Bytes → Result Envelope
  pub unmarshal_ack : Bytes → Result HelloAckData
  pub marshal_inventory : InventoryData → Result Bytes
  pub marshal_telemetry : TelemetryData → Result Bytes

-- A goroutine that dispatch starts.
pub data Task : Type 0 where
  inventory : Task
  command : Envelope → Task
  terminal : Envelope → Task
  screen : Envelope → Task

-- What dispatch does with a message: it fails, starts a goroutine, sends a reply, or only logs.
pub data Routed : Type 0 where
  failed : Error → Routed
  start : Task → Routed
  reply : Envelope → Routed
  logged : Routed

abbrev pub is_terminal : String → Bool
is_terminal t =
    t == msg_terminal_open
    || t == msg_terminal_input
    || t == msg_terminal_resize
    || t == msg_terminal_close

abbrev pub is_screen : String → Bool
is_screen t = t == msg_screen_start || t == msg_screen_stop

abbrev pub greeted : Config → Result HelloAckData → Routed
greeted cfg (err e) = failed e
greeted cfg (ok ack) =
    if ack.needs_inventory && cfg.inventory_provider then start inventory else logged

abbrev pub replied : Result Envelope → Routed
replied (err e) = failed e
replied (ok e) = reply e

-- dispatch, up to the Send of a pong; `fresh` and `now` are what uuid.New and time.Now return
unfoldable pub dispatch : Config → Codec → ℕ → ℕ → Envelope → Routed
unfolding new_envelope decode_data
dispatch cfg k fresh now env =
    if env.type == msg_hello_ack
    then greeted cfg (decode_data env k.unmarshal_ack)
    else if env.type == msg_ping
    then replied (new_envelope fresh now msg_pong 0 (some env.id) none)
    else if env.type == msg_command
    then (if cfg.command_handler then start (command env) else logged)
    else if is_terminal env.type
    then (if cfg.terminal_handler then start (terminal env) else logged)
    else if is_screen env.type
    then (if cfg.screen_handler then start (screen env) else logged)
    else logged

abbrev marshaled {ℓ} :
    {A : Type ℓ}
    → (A → Result Bytes)
    → Result A
    → (Result Bytes → Result Envelope)
    → Result Envelope
marshaled m (err e) f = err e
marshaled m (ok a) f = f (m a)

-- sendInventory, up to its Send; an error is logged there
unfoldable pub inventory_message : Codec → ℕ → ℕ → Result InventoryData → Result Envelope
unfolding new_envelope
inventory_message k fresh now provided =
    marshaled k.marshal_inventory provided
      (λ raw. new_envelope fresh now msg_inventory 0 none (some raw))

-- A turn of telemetryLoop, up to its Send; an error is logged there
unfoldable pub telemetry_message : Codec → ℕ → ℕ → Result TelemetryData → Result Envelope
unfolding new_envelope
telemetry_message k fresh now provided =
    marshaled k.marshal_telemetry provided
      (λ raw. new_envelope fresh now msg_telemetry 0 none (some raw))
