-- ===== src/Transport/Client.antt =====
-- `Client` of agent/internal/transport/client.go: `Run`, `connectAndServe`, `SetPaused` and `Stats` as
-- steps. A step is what one goroutine does between two points at which another can come in: a
-- section under the mutex, or a wait. What the network and the clock do is part of the move.
pub mod Invariant
pub mod Pausing
pub mod Retrying
use readyfleet_lightagent.Base.{
  ◌≡◌, ℕ, suc, Bool, true, false, ◌&&◌, ◌||◌, not, Option, none, some, List, [], ◌∷◌, Error, wrap,
  canceled, paused_mid_connection, already_running, is_canceled, is_paused, Result, ok, err, ltb,
  ◌*◌, if◌then◌else◌,
}
use readyfleet_lightagent.Transport.Backoff.{Backoff, second, new_backoff, next}

pub record Stats : Type 0 where
  pub connected : Bool
  pub connected_since : Option ℕ  -- none is the zero time
  pub connect_count : ℕ
  pub last_error : Option Error  -- none is ""

-- Where the goroutine of `Run` stands.
pub data Phase : Type 0 where
  idle : Phase  -- `Run` is not called, or has returned
  loop_head : Phase  -- before the test of ctx.Err()
  reading : Phase  -- before the read of `paused` and `pauseWake`
  waiting : ℕ → Phase  -- the select on the wake channel with this number
  entering : Phase  -- in connectAndServe, before `cancelCurrent` is set
  dialing : Phase  -- from there until the hello is queued
  serving : Phase  -- the select on the four pumps
  leaving : Error → Phase  -- before the deferred function, with the error to return
  returned : Error → Phase  -- back in `Run`, before the statistics are written
  sleeping : ℕ → Phase  -- the select on the reconnect delay

-- The channels `pauseWake` are numbered: those below `wake` are closed. `registered` says that
-- `cancelCurrent` is set, and `attempt_canceled` that the context of the attempt is canceled.
pub record Client : Type 0 where
  pub phase : Phase
  pub running : Bool
  pub stats : Stats
  pub paused : Bool
  pub wake : ℕ
  pub registered : Bool
  pub attempt_canceled : Bool
  pub ctx_done : Bool
  pub backoff : Backoff

abbrev pub no_stats : Stats
no_stats = record {
  connected = false;
  connected_since = none;
  connect_count = 0;
  last_error = none;
}

-- NewClient
unfoldable pub new_client : Client
unfolding new_backoff
new_client = record {
  phase = idle;
  running = false;
  stats = no_stats;
  paused = false;
  wake = 0;
  registered = false;
  attempt_canceled = false;
  ctx_done = false;
  backoff = new_backoff second (60 * second);
}

-- SetPaused
unfoldable pub set_paused : Bool → Client → Client
set_paused p c = record c {
  paused = p;
  attempt_canceled = c.attempt_canceled || (p && c.registered);
  wake = suc c.wake;
}

-- The entry of `Run`, under the mutex, with the backoff that it makes.
unfoldable pub run : Client → Result (Unit {0}) × Client
unfolding new_backoff
run c = if c.running then (err already_running, c) else (
  ok tt,
  record c { running = true; phase = loop_head; backoff = new_backoff second (60 * second) },
)

-- Why an attempt fails before its pumps run.
pub data Fault : Type 0 where
  tls : Error → Fault
  parse_url : Error → Fault
  dial : Error → Fault
  hello_envelope : Error → Fault
  send_hello : Error → Fault

abbrev pub fault_error : Fault → Error
fault_error (tls e) = wrap "tls: %w" e
fault_error (parse_url e) = wrap "parse url: %w" e
fault_error (dial e) = wrap "dial: %w" e
fault_error (hello_envelope e) = e
fault_error (send_hello e) = wrap "send hello: %w" e

pub data Move : Type 0 where
  call_run : Move  -- a caller's goroutine calls `Run`
  proceed : Move  -- the goroutine of `Run` goes on, where it can without the network
  attempt_fails : Fault → Move
  attempt_connects : ℕ → Move  -- with the clock's reading
  pump_ends : Error → Move  -- one of the four pumps returns this error
  delay_elapses : Move
  pause : Bool → Move  -- another goroutine calls SetPaused
  cancel : Move  -- the context of `Run` is canceled

-- `Run` returns, and its deferred function clears `running`.
abbrev stop : Client → Client
stop c = record c { phase = idle; running = false }

-- The first part of the deferred function of connectAndServe clears `cancelCurrent` and calls
-- `cancel()`; its last part then replaces the error where the context of `Run` is alive and the
-- context of the attempt is not.
abbrev pub released : Client → Client
released c = record c { registered = false; attempt_canceled = true }

abbrev pub deferred_error : Client → Error → Error
deferred_error c e = if not c.ctx_done && c.attempt_canceled then paused_mid_connection else e

-- What `Run` does with the error that connectAndServe returned.
abbrev after_error : Error → Client → Client
after_error e c =
    if is_canceled e
    then stop c
    else if is_paused e
    then record c { phase = loop_head }
    else let (delay, b) = next c.backoff in record c { phase = sleeping delay; backoff = b }

abbrev record_error : Error → Client → Client
record_error e c = record c {
  stats = record c.stats { connected = false; connected_since = none; last_error = some e };
}

-- The moves that the goroutine of `Run` makes by itself.
abbrev proceeds : Phase → Client → Option Client
proceeds idle c = none
proceeds loop_head c = some (if c.ctx_done then stop c else record c { phase = reading })
proceeds reading c =
    some (if c.paused then record c { phase = waiting c.wake } else record c { phase = entering })
proceeds (waiting w) c =
    if c.ctx_done
    then some (stop c)
    else if ltb w c.wake
    then some (record c { phase = loop_head })
    else none
proceeds entering c =
    some (record c { phase = dialing; registered = true; attempt_canceled = c.ctx_done })
proceeds dialing c = none
proceeds serving c = if c.ctx_done then some (record c { phase = leaving canceled }) else none
proceeds (leaving e) c =
    let c' = released c in some (record c' { phase = returned (deferred_error c' e) })
proceeds (returned e) c = some (after_error e (record_error e c))
proceeds (sleeping d) c = if c.ctx_done then some (stop c) else none

abbrev connects : ℕ → Phase → Client → Option Client
connects now dialing c = some (record c {
  phase = serving;
  stats = record c.stats {
    connected = true;
    connected_since = some now;
    connect_count = suc c.stats.connect_count;
  };
})
connects now _ c = none

abbrev fails : Fault → Phase → Client → Option Client
fails f dialing c = some (record c { phase = leaving (fault_error f) })
fails f _ c = none

abbrev ends : Error → Phase → Client → Option Client
ends e serving c = some (record c { phase = leaving e })
ends e _ c = none

abbrev elapses : Phase → Client → Option Client
elapses (sleeping d) c = some (record c { phase = loop_head })
elapses _ c = none

-- One move; none where it cannot be made.
unfoldable pub step : Move → Client → Option Client
unfolding run set_paused next
step call_run c = some (run c).1
step proceed c = proceeds c.phase c
step (attempt_fails f) c = fails f c.phase c
step (attempt_connects now) c = connects now c.phase c
step (pump_ends e) c = ends e c.phase c
step delay_elapses c = elapses c.phase c
step (pause p) c = some (set_paused p c)
step cancel c = some (record c { ctx_done = true; attempt_canceled = true })

-- A whole run of moves.
abbrev pub continue : List Move → Client → Option Client
continue [] c = some c
continue (m ∷ ms) c = elim (step m c) [ none ↦ none | some c' ↦ continue ms c' ]

-- The clients that moves lead to.
pub data Reach (c : Client) : Client → Type 0 where
  here : Reach c c
  onward : {d e : Client} (m : Move) → Reach c d → step m d ≡ some e → Reach c e
