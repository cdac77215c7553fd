-- ===== src/Transport/Connection.antt =====
-- `persistentConn` of agent/internal/transport/client.go and the goroutines that use it: `Send`,
-- `Close`, `readLoop`, `writeLoop`, `pingLoop` and `telemetryLoop`, as steps. Each step is what one
-- goroutine does between two waits. Ticks come at any time.
pub mod Queue
pub mod Frames
pub mod Returns
pub mod Ordering
pub mod Silence
pub mod Shutdown
use readyfleet_lightagent.Base.{
  ◌≡◌, ℕ, zero, suc, ◌+◌, ◌-◌, ◌*◌, Bool, true, false, not, ◌&&◌, Option, none, some, List, [], ◌∷◌,
  ◌++◌, Error, new, errorf, canceled, Result, ok, err, ltb, leb, eqb, if◌then◌else◌,
}
use readyfleet_lightagent.Base.Lists.{length}
use readyfleet_lightagent.Base.Text.{Bytes}
use readyfleet_lightagent.Proto.Envelope.{Envelope}
use readyfleet_lightagent.Proto.Snapshot.{InventoryData, TelemetryData}
use readyfleet_lightagent.Transport.Backoff.{second}
use readyfleet_lightagent.Transport.Messages.{
  Config, Codec, Task, inventory, Routed, failed, start, reply, logged, dispatch, inventory_message,
  telemetry_message,
}

abbrev pub read_deadline : ℕ
read_deadline = 75 * second

abbrev pub queue_size : ℕ
queue_size = 32

-- Where the read pump stands.
pub data Reader : Type 0 where
  listening : Reader  -- in ReadMessage
  replying : Envelope → Reader  -- in the Send of a pong
  read_error : Error → Reader  -- has returned

-- Where the telemetry loop stands.
pub data Sampler : Type 0 where
  waiting : Sampler
  sending : Envelope → Sampler
  sample_error : Error → Sampler  -- has returned

-- Another pump: it waits, or has returned an error or nil.
pub data Pump : Type 0 where
  running : Pump
  returned : Option Error → Pump

-- The channel `send_` and the write pump. `accepted` are the messages for which Send returned nil,
-- `written` those that the socket took, and `lost` one whose write failed, each in its order.
pub record Outbox : Type 0 where
  pub queue : List Bytes
  pub writer : Pump
  pub accepted : List Bytes
  pub written : List Bytes
  pub lost : List Bytes

pub record Clock : Type 0 where
  pub now : ℕ
  pub deadline : ℕ

-- `closed` and `ctx_done` say that these channels are closed, `alive` that the socket is open.
pub record Conn : Type 0 where
  pub out : Outbox
  pub closed : Bool
  pub ctx_done : Bool
  pub alive : Bool
  pub reader : Reader
  pub pinger : Pump
  pub sampler : Sampler
  pub tasks : List Task  -- those started, the last one first
  pub inventories : ℕ  -- those started and not yet at their Send
  pub clock : Clock

-- newPersistentConn, with the read pump armed and the others started
unfoldable pub new_conn : ℕ → Conn
new_conn now = record {
  out = record { queue = []; writer = running; accepted = []; written = []; lost = [] };
  closed = false;
  ctx_done = false;
  alive = true;
  reader = listening;
  pinger = running;
  sampler = waiting;
  tasks = [];
  inventories = 0;
  clock = record { now = now; deadline = now + read_deadline };
}

-- The case that a select takes; of those that are ready any may be taken.
pub data Case : Type 0 where
  by_closed : Case
  by_done : Case
  by_room : Case

abbrev pub is_ready : Case → Conn → Bool
is_ready by_closed c = c.closed
is_ready by_done c = c.ctx_done
is_ready by_room c = ltb (length c.out.queue) queue_size

abbrev pub enqueued : Bytes → Outbox → Outbox
enqueued b o = record o { queue = o.queue ++ (b ∷ []); accepted = o.accepted ++ (b ∷ []) }

abbrev pub taken : Case → Bytes → Conn → Result (Unit {0}) × Conn
taken by_closed b c = (err (new "transport: connection closed"), c)
taken by_done b c = (err canceled, c)
taken by_room b c = (ok tt, record c { out = enqueued b c.out })

-- persistentConn.Send; none where it waits
unfoldable pub send : Codec → Case → Envelope → Conn → Option (Result (Unit {0}) × Conn)
send k s env c = elim (k.marshal env) [
  | err e ↦ some (err e, c)
  | ok b ↦ if is_ready s c then some (taken s b c) else none
]

abbrev pub sent :
    (Result (Unit {0}) → Conn → Conn) → Option (Result (Unit {0}) × Conn) → Option Conn
sent f none = none
sent f (some (r, c)) = some (f r c)

-- What the socket gives ReadMessage.
pub data Inbound : Type 0 where
  message : Bytes → Inbound
  broken : Error → Inbound
  timeout : Inbound

pub data Move : Type 0 where
  wait : ℕ → Move  -- time passes
  cancel : Move  -- the context of the attempt is canceled
  close : Move  -- Close()
  close_socket : Move  -- the deferred conn.Close()
  offer : Envelope → Case → Move  -- a handler's goroutine calls Send
  inventory_ready : ℕ → Result InventoryData → Case → Move  -- sendInventory comes to its end
  receive : ℕ → Inbound → Move  -- the read pump's ReadMessage returns
  pong : Move  -- the pong handler runs, within ReadMessage
  answer : Case → Move  -- the read pump's Send of a pong
  write : Option Error → Move  -- the write pump takes a message and writes it
  writer_stops : Case → Move
  ping : Option Error → Move  -- the ping pump's tick
  pinger_stops : Case → Move
  sample : ℕ → Result TelemetryData → Move  -- the telemetry loop's tick
  push : Case → Move  -- its Send
  sampler_stops : Move

-- SetReadDeadline
abbrev pub refresh : Conn → Conn
refresh c = record c { clock = record c.clock { deadline = c.clock.now + read_deadline } }

abbrev pub start_task : Task → Conn → Conn
start_task inventory c = record c { tasks = inventory ∷ c.tasks; inventories = suc c.inventories }
start_task t c = record c { tasks = t ∷ c.tasks }

abbrev pub routed : Routed → Conn → Conn
routed (failed e) c = c
routed (start t) c = start_task t c
routed (reply e) c = record c { reader = replying e }
routed logged c = c

abbrev pub understood : Config → Codec → ℕ → Result Envelope → Conn → Conn
understood cfg k fresh (err e) c = c
understood cfg k fresh (ok env) c = routed (dispatch cfg k fresh c.clock.now env) c

-- A turn of readLoop, from the return of ReadMessage on. ReadMessage may return a message that the
-- connection has buffered after the socket is closed.
abbrev pub receives : Config → Codec → ℕ → Inbound → Reader → Conn → Option Conn
receives cfg k fresh (message raw) listening c =
    some (understood cfg k fresh (k.unmarshal raw) (refresh c))
receives cfg k fresh (broken e) listening c = some (record c { reader = read_error e })
receives cfg k fresh timeout listening c =
    if leb c.clock.deadline c.clock.now
    then some (record c { reader = read_error (new "i/o timeout") })
    else none
receives _ _ _ _ _ c = none

abbrev pub pongs : Reader → Conn → Option Conn
pongs listening c = some (refresh c)
pongs _ c = none

-- The error of an answer is logged.
abbrev pub answers : Codec → Case → Reader → Conn → Option Conn
answers k s (replying env) c = sent (λ r d. record d { reader = listening }) (send k s env c)
answers k s _ c = none

-- A turn of writeLoop that takes a message; a write fails once the socket is closed.
abbrev pub writes : Option Error → Bool → Pump → List Bytes → Outbox → Option Outbox
writes none true running (b ∷ bs) o =
    some (record o { queue = bs; written = o.written ++ (b ∷ []) })
writes (some e) _ running (b ∷ bs) o =
    some (record o { queue = bs; lost = b ∷ []; writer = returned (some e) })
writes _ _ _ _ o = none

abbrev pub wrote : Conn → Option Outbox → Option Conn
wrote c none = none
wrote c (some o) = some (record c { out = o })

abbrev pub stop_of : Case → Conn → Option (Option Error)
stop_of by_done c = if c.ctx_done then some (some canceled) else none
stop_of by_closed c = if c.closed then some none else none
stop_of by_room c = none

abbrev pub stops : (Option Error → Conn → Conn) → Pump → Option (Option Error) → Conn → Option Conn
stops f running (some r) c = some (f r c)
stops f _ _ c = none

abbrev pub pings : Option Error → Pump → Conn → Option Conn
pings none running c = if c.alive then some c else none
pings (some e) running c = some (record c { pinger = returned (some e) })
pings _ _ c = none

abbrev pub carried : Result Envelope → Conn → Conn
carried (err e) c = c
carried (ok env) c = record c { sampler = sending env }

-- A tick of telemetryLoop.
abbrev pub samples : Config → Codec → ℕ → Result TelemetryData → Sampler → Conn → Option Conn
samples cfg k fresh provided waiting c =
    if cfg.telemetry_provider
    then some (carried (telemetry_message k fresh c.clock.now provided) c)
    else none
samples cfg k fresh provided _ c = none

abbrev pub pushed : Result (Unit {0}) → Conn → Conn
pushed (ok _) c = record c { sampler = waiting }
pushed (err e) c = record c { sampler = sample_error e }

abbrev pub pushes : Codec → Case → Sampler → Conn → Option Conn
pushes k s (sending env) c = sent pushed (send k s env c)
pushes k s _ c = none

abbrev pub sampler_ends : Sampler → Conn → Option Conn
sampler_ends waiting c =
    if c.ctx_done then some (record c { sampler = sample_error canceled }) else none
sampler_ends _ c = none

-- sendInventory with what the provider returned: an error is logged, here and in its Send.
abbrev pub reports : Codec → Case → Result Envelope → Conn → Option Conn
reports k s (err e) c = some c
reports k s (ok env) c = sent (λ r d. d) (send k s env c)

abbrev pub delivers : Codec → ℕ → Result InventoryData → Case → ℕ → Conn → Option Conn
delivers k fresh provided s zero c = none
delivers k fresh provided s (suc n) c =
    reports k s (inventory_message k fresh c.clock.now provided) (record c { inventories = n })

-- One step; none where its goroutine waits, or is not there.
unfoldable pub step : Config → Codec → Move → Conn → Option Conn
unfolding send dispatch inventory_message telemetry_message
step cfg k (wait n) c = some (record c { clock = record c.clock { now = c.clock.now + n } })
step cfg k cancel c = some (record c { ctx_done = true })
step cfg k close c = some (record c { closed = true; alive = false })
step cfg k close_socket c = some (record c { alive = false })
step cfg k (offer env s) c = sent (λ r d. d) (send k s env c)
step cfg k (inventory_ready fresh provided s) c = delivers k fresh provided s c.inventories c
step cfg k (receive fresh i) c = receives cfg k fresh i c.reader c
step cfg k pong c = pongs c.reader c
step cfg k (answer s) c = answers k s c.reader c
step cfg k (write f) c = wrote c (writes f c.alive c.out.writer c.out.queue c.out)
step cfg k (writer_stops s) c =
    stops (λ r d. record d { out = record d.out { writer = returned r } }) c.out.writer
      (stop_of s c) c
step cfg k (ping f) c = pings f c.pinger c
step cfg k (pinger_stops s) c =
    stops (λ r d. record d { pinger = returned r }) c.pinger (stop_of s c) c
step cfg k (sample fresh provided) c = samples cfg k fresh provided c.sampler c
step cfg k (push s) c = pushes k s c.sampler c
step cfg k sampler_stops c = sampler_ends c.sampler c

-- A whole run of steps.
abbrev pub continue : Config → Codec → List Move → Conn → Option Conn
continue cfg k [] c = some c
continue cfg k (m ∷ ms) c = elim (step cfg k m c) [ none ↦ none | some d ↦ continue cfg k ms d ]

-- The connections that steps lead to.
pub data Reach (cfg : Config) (k : Codec) (c : Conn) : Conn → Type 0 where
  here : Reach cfg k c c
  onward : {d e : Conn} (m : Move) → Reach cfg k c d → step cfg k m d ≡ some e → Reach cfg k c e
