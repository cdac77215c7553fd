-- ===== src/Proto.antt =====
-- proto/messages.go: the messages between the agent and its server.
pub mod Envelope
pub mod Snapshot
use readyfleet_lightagent.Base.{ℕ, String, Option, Bool, Error}
use readyfleet_lightagent.Base.Int.{ℤ}
use readyfleet_lightagent.Base.Text.{Bytes}

-- MessageType, agent to server and server to agent.
abbrev pub msg_hello : String
msg_hello = "hello"

abbrev pub msg_pong : String
msg_pong = "pong"

abbrev pub msg_inventory : String
msg_inventory = "inventory"

abbrev pub msg_telemetry : String
msg_telemetry = "telemetry"

abbrev pub msg_result : String
msg_result = "result"

abbrev pub msg_hello_ack : String
msg_hello_ack = "hello_ack"

abbrev pub msg_ping : String
msg_ping = "ping"

abbrev pub msg_command : String
msg_command = "command"

abbrev pub msg_cancel : String
msg_cancel = "cancel"

abbrev pub msg_terminal_open : String
msg_terminal_open = "terminal_open"

abbrev pub msg_terminal_input : String
msg_terminal_input = "terminal_input"

abbrev pub msg_terminal_resize : String
msg_terminal_resize = "terminal_resize"

abbrev pub msg_terminal_close : String
msg_terminal_close = "terminal_close"

abbrev pub msg_screen_start : String
msg_screen_start = "screen_start"

abbrev pub msg_screen_stop : String
msg_screen_stop = "screen_stop"

-- CommandKind
abbrev pub cmd_inventory_refresh : String
cmd_inventory_refresh = "inventory_refresh"

abbrev pub cmd_start_solarbeam : String
cmd_start_solarbeam = "start_solarbeam"

abbrev pub cmd_stop_solarbeam : String
cmd_stop_solarbeam = "stop_solarbeam"

abbrev pub cmd_update : String
cmd_update = "update"

abbrev pub cmd_solarbeam_engine_update : String
cmd_solarbeam_engine_update = "solarbeam_engine_update"

abbrev pub cmd_show_notification : String
cmd_show_notification = "show_notification"

abbrev pub protocol_version : ℕ
protocol_version = 1

pub record HelloData : Type 0 where
  pub protocol_version : ℕ
  pub agent_version : String
  pub machine_id : String
  pub os : String
  pub os_version : String
  pub inventory_checksum : String

pub record HelloAckData : Type 0 where
  pub accepted_protocol_version : ℕ
  pub heartbeat_seconds : ℕ
  pub output_chunk_bytes : ℕ
  pub needs_inventory : Bool
  pub server_time : ℕ

-- `error` is the text of the error that the handler reports, none where it is "".
pub record ResultData : Type 0 where
  pub exit_code : ℤ
  pub duration : ℕ
  pub output_hash : String
  pub error : Option Error

-- `args` is raw JSON.
pub record CommandData : Type 0 where
  pub kind : String
  pub args : Bytes

pub record UpdateArgs : Type 0 where
  pub release_id : String
  pub version : String
  pub url : String
  pub sha256 : String
  pub agent_profile : String
  pub signer_fingerprint : String
  pub product_id : String

pub record SolarbeamEngineUpdateArgs : Type 0 where
  pub release_id : String
  pub version : String
  pub url : String
  pub sha256 : String
  pub signer_fingerprint : String
  pub product_id : String

pub record SolarbeamStartArgs : Type 0 where
  pub session_id : String
  pub machine_id : String
  pub readyapp_url : String
  pub bundle_token : String

pub record StopSolarbeamArgs : Type 0 where
  pub session_id : String

pub record ShowNotificationArgs : Type 0 where
  pub kind : String
  pub title : String
  pub body : String
  pub severity : String
  pub url : String

pub record LightInventoryData : Type 0 where
  pub os_family : String
  pub os_major_version : String
  pub architecture : String
  pub agent_version : String
  pub solarbeam_version : String
  pub solarbeam_status : String
