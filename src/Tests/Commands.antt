-- ===== src/Tests/Commands.antt =====
-- Commands at concrete inputs.
use readyfleet_lightagent.Base.{
  ℕ, suc, ◌≡◌, refl, none, [], ◌∷◌, Result, ok, err, new, pure, modify,
}
use readyfleet_lightagent.Base.Text.{Bytes}
use readyfleet_lightagent.Proto.{CommandData, cmd_stop_solarbeam, msg_command}
use readyfleet_lightagent.Proto.Envelope.{Envelope, decode_data, decode_args}
use readyfleet_lightagent.Runtime.Link.{Link}
use readyfleet_lightagent.Light.Handlers.{Codec, Services, light_dispatch}
use readyfleet_lightagent.Light.Handlers.Replies.{Encodes, replies, light_dispatch_once}
use readyfleet_lightagent.Light.Handlers.Calls.{light_dispatch-host}

-- Every payload is the command to stop the session s1, and nothing else can be decoded.
abbrev stop_command : CommandData
stop_command = record { kind = cmd_stop_solarbeam; args = 2 ∷ [] }

abbrev unknown {ℓ} : {A : Type ℓ} → Bytes → Result A
unknown b = err (new "unexpected")

abbrev codec : Codec
codec = record {
  decode_command = λ b. ok stop_command;
  decode_start = unknown;
  decode_stop = λ b. ok (record { session_id = "s1" });
  decode_engine_update = unknown;
  decode_update = unknown;
  decode_notification = unknown;
  encode_result = λ r. ok (1 ∷ []);
  encode_inventory = λ i. ok (2 ∷ []);
}

-- A machine that counts its stops.
abbrev services : Services ℕ
services = record {
  collect = λ s. (err (new "unsupported"), s);
  start = λ a. pure tt;
  stop = λ a. modify suc;
  engine_update = λ a. pure tt;
  self_update = λ a. pure tt;
  notify = λ title body severity url. pure tt;
  connection_request = none;
}

abbrev envelope : Envelope
envelope = record {
  id = 40;
  type = msg_command;
  in_reply_to = none;
  timestamp = 0;
  payload = 1 ∷ [];
}

abbrev link : Link ℕ
link = record { host = 0; sent = []; failures = []; ids = 100; clock = 5; ticks = 1 ∷ 1 ∷ [] }

codec-Encodes : Encodes codec
codec-Encodes = record { raw = λ r. 1 ∷ []; encodes = λ r. refl }

light_dispatch_once_example : replies 40 (light_dispatch codec services envelope link).1 ≡ 1
unfolding decode_data
light_dispatch_once_example =
    light_dispatch_once codec services codec-Encodes envelope link refl stop_command refl

light_dispatch-host_example : (light_dispatch codec services envelope link).1.host ≡ 1
unfolding decode_data decode_args
light_dispatch-host_example = light_dispatch-host codec services envelope stop_command refl link
