-- ===== src/Runtime/Dispatch.antt =====
-- agent/internal/runtime/runtime.go: `Dispatch`.
use readyfleet_lightagent.Base.{
  String, Option, none, some, List, [], ◌∷◌, errorf, Result, ok, err, Act, ignore, inspect, ◌==◌,
  if◌then◌else◌,
}
use readyfleet_lightagent.Base.Int.{negsuc}
use readyfleet_lightagent.Base.Text.{Bytes}
use readyfleet_lightagent.Proto.{CommandData, ResultData, msg_result}
use readyfleet_lightagent.Proto.Envelope.{Envelope, decode_data}
use readyfleet_lightagent.Runtime.Link.{Link, make_envelope, send}

abbrev pub Handler : Type 0 → Type 0
Handler S = Envelope → Act (Link S) (Unit {0})

-- A Go map from command kinds, with its keys distinct.
abbrev pub Handlers : Type 0 → Type 0
Handlers S = List (String × Handler S)

-- `h, ok := handlers[kind]`
unfoldable pub find : {S : Type 0} → String → Handlers S → Option (Handler S)
find kind [] = none
find kind ((k, h) ∷ rest) = if kind == k then some h else find kind rest

abbrev pub unsupported : String → ResultData
unsupported kind = record {
  exit_code = negsuc 0;
  duration = 0;
  output_hash = "";
  error = some (errorf "command kind not supported: %s" (kind ∷ []));
}

-- Envelope{}
abbrev zero_envelope : Envelope
zero_envelope = record { id = 0; type = ""; in_reply_to = none; timestamp = 0; payload = [] }

abbrev result_or_zero : Result Envelope → Envelope
result_or_zero (ok result) = result
result_or_zero (err e) = zero_envelope

module _ {S : Type 0} (decode_command : Bytes → Result CommandData)
    (encode_result : ResultData → Result Bytes) where
  -- `result, _ := proto.NewEnvelope(…); _ = send(ctx, result)`
  abbrev pub reply_unsupported : Envelope → String → Act (Link S) (Unit {0})
  reply_unsupported env kind =
      inspect
        (make_envelope msg_result env.id (some env.id) (some (encode_result (unsupported kind))))
        λ result. ignore (send (result_or_zero result))

  abbrev pub run_handler : Option (Handler S) → String → Handler S
  run_handler (some h) kind env = h env
  run_handler none kind env = reply_unsupported env kind

  abbrev routed : Handlers S → Result CommandData → Handler S
  routed handlers (err e) env = λ l. (ok tt, l)
  routed handlers (ok cmd) env = run_handler (find cmd.kind handlers) cmd.kind env

  -- Dispatch
  unfoldable pub dispatch : Handlers S → Handler S
  dispatch handlers env = routed handlers (decode_data env decode_command) env
