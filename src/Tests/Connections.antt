-- ===== src/Tests/Connections.antt =====
-- A connection at concrete inputs.
use readyfleet_lightagent.Base.{
  ℕ, ◌+◌, ◌≤◌, ◌≢◌, true, false, refl, none, some, List, [], ◌∷◌, ok, err, new, canceled, ◌*◌,
  arith,
}
use readyfleet_lightagent.Base.Lists.{count}
use readyfleet_lightagent.Proto.{msg_ping, msg_pong}
use readyfleet_lightagent.Proto.Envelope.{Envelope, new_envelope}
use readyfleet_lightagent.Transport.Backoff.{second}
use readyfleet_lightagent.Transport.Messages.{Config, Codec, dispatch}
use readyfleet_lightagent.Transport.Connection.{
  Conn, replying, read_error, read_deadline, by_done, message, broken, wait, cancel, receive,
  answer, write, writer_stops, pinger_stops, Move, returned, new_conn, send, step, Reach, here,
  onward,
}
use readyfleet_lightagent.Transport.Connection.Queue.{IsOrdered}
use readyfleet_lightagent.Transport.Connection.Ordering.{Reach-IsOrdered}
use readyfleet_lightagent.Transport.Connection.Silence.{silence, timeout_silent}
use readyfleet_lightagent.Transport.Connection.Shutdown.{is_turn, is_heard, shutdown_bounded}
use readyfleet_lightagent.Transport.Connection.Returns.{pumps_return_errors}

abbrev config : Config
config = record {
  inventory_provider = true;
  telemetry_provider = false;
  command_handler = true;
  terminal_handler = false;
  screen_handler = false;
}

abbrev envelope : ℕ → Envelope
envelope n = record { id = n; type = msg_ping; in_reply_to = none; timestamp = 0; payload = [] }

-- A message is the number of its envelope; what comes in is a ping.
abbrev codec : Codec
codec = record {
  marshal = λ e. ok (e.id ∷ []);
  unmarshal = λ b. ok (envelope 9);
  unmarshal_ack = λ b. err (new "no json");
  marshal_inventory = λ i. ok [];
  marshal_telemetry = λ t. ok [];
}

abbrev greeted : Conn
greeted = record (new_conn 100) {
  out = record (new_conn 100).out { queue = (1 ∷ []) ∷ []; accepted = (1 ∷ []) ∷ [] };
}

-- A ping comes in, and the hello is written.
abbrev pinged : Conn
pinged = record greeted {
  reader =
      replying
        (record { id = 5; type = msg_pong; in_reply_to = some 9; timestamp = 100; payload = [] });
}

abbrev served : Conn
served = record pinged { out = record greeted.out { queue = []; written = (1 ∷ []) ∷ [] } }

served_reached : Reach config codec greeted served
unfolding step dispatch new_envelope new_conn
served_reached = onward {d = pinged} (write none) (onward (receive 5 (message [])) here refl) refl

greeted-IsOrdered : IsOrdered greeted.out
unfolding new_conn
greeted-IsOrdered = ground arith

Reach-IsOrdered_example : IsOrdered served.out
Reach-IsOrdered_example = Reach-IsOrdered config codec greeted-IsOrdered served_reached

-- 80 seconds without a sign of the server.
abbrev silent : Conn
silent = record (new_conn 100) { clock = record (new_conn 100).clock { now = 100 + 80 * second } }

timeout_silent_example : read_deadline ≤ silence 0 (wait (80 * second) ∷ [])
unfolding step new_conn
timeout_silent_example =
    timeout_silent config codec 100 0 (wait (80 * second) ∷ []) silent
      (record silent { reader = read_error (new "i/o timeout") }) refl refl

-- The write pump has seen the cancel.
abbrev canceling : Conn
canceling = record (new_conn 100) { ctx_done = true }

abbrev stopping : Conn
stopping = record canceling {
  out = record (new_conn 100).out { writer = returned (some canceled) };
}

stopping_reached : Reach config codec (new_conn 100) stopping
unfolding step new_conn
stopping_reached = onward {d = canceling} (writer_stops by_done) (onward cancel here refl) refl

pumps_return_errors_example :
    (stopping.out.writer ≢ returned none) × (stopping.pinger ≢ returned none)
unfolding new_conn
pumps_return_errors_example = pumps_return_errors config codec 100 stopping stopping_reached refl

-- The socket is closed while a pong is to be sent, and a further ping has come in.
abbrev closing : Conn
closing = record pinged { alive = false; ctx_done = true }

abbrev last_turns : List Move
last_turns =
    answer by_done
    ∷ receive 7 (message [])
    ∷ answer by_done
    ∷ receive 6 (broken (new "closed"))
    ∷ writer_stops by_done
    ∷ pinger_stops by_done
    ∷ []

abbrev ended : Conn
ended = record closing {
  reader = read_error (new "closed");
  out = record greeted.out { writer = returned (some canceled) };
  pinger = returned (some canceled);
}

shutdown_bounded_example : count is_turn last_turns ≤ 4 + 2 * count is_heard last_turns
unfolding step send new_conn dispatch new_envelope
shutdown_bounded_example = shutdown_bounded config codec last_turns closing ended refl refl
