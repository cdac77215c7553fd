-- ===== src/Transport/Connection/Shutdown.antt =====
-- How the pumps end once the socket is closed.
use readyfleet_lightagent.Base.{
  ℕ, suc, ◌+◌, ◌*◌, ◌≤◌, ◌≢◌, Bool, true, false, ◌≡◌, refl, ap, ◌∙◌, inl, inr, some, List, [], ◌∷◌,
  canceled, Option-cases, Result-cases, arith,
}
use readyfleet_lightagent.Base.Lists.{count}
use readyfleet_lightagent.Base.Text.{Bytes}
use readyfleet_lightagent.Transport.Messages.{
  Config, Codec, inventory, Routed, failed, start, reply, logged, dispatch,
}
use readyfleet_lightagent.Transport.Connection.{
  Conn, message, broken, timeout, Reader, listening, replying, read_error, Pump, running, returned,
  Case, by_done, Move, wait, cancel, close, close_socket, offer, inventory_ready, receive, pong,
  answer, write, writer_stops, ping, pinger_stops, sample, push, sampler_stops, send, answers,
  refresh, routed, receives, step, continue,
}
use readyfleet_lightagent.Transport.Connection.Frames.{
  IsBlind, send-frame, sent-frame, pushes-frame, delivers-frame,
}

-- A turn of the read pump, the write pump or the ping pump.
abbrev pub is_turn : Move → Bool
is_turn (receive _ _) = true
is_turn pong = true
is_turn (answer _) = true
is_turn (write _) = true
is_turn (writer_stops _) = true
is_turn (ping _) = true
is_turn (pinger_stops _) = true
is_turn _ = false

abbrev reader_left : Reader → ℕ
reader_left listening = 1
reader_left (replying _) = 2
reader_left (read_error _) = 0

abbrev pump_left : Pump → ℕ
pump_left running = 1
pump_left (returned _) = 0

-- The turns that are left to the three pumps once the socket is closed.
abbrev pub left : Conn → ℕ
left c = reader_left c.reader + pump_left c.out.writer + pump_left c.pinger

-- The read pump takes a message or a pong that has come in.
abbrev pub is_heard : Move → Bool
is_heard (receive _ (message _)) = true
is_heard pong = true
is_heard _ = false

-- What a step that is no turn of the three keeps.
abbrev kept : Conn → ℕ × Bool
kept c = (left c, c.alive)

kept-IsBlind : IsBlind kept
kept-IsBlind = record { messages = λ c q a. refl; sampler = λ c s. refl; inventories = λ c n. refl }

-- A turn on a closed socket leaves fewer.
abbrev Lessens : Conn → Conn → Type 0
Lessens c d = (suc (left d) ≤ left c) × (d.alive ≡ c.alive)

answers-Lessens :
    (k : Codec) (s : Case) (r : Reader) (c d : Conn)
    → c.reader ≡ r
    → answers k s r c ≡ some d
    → Lessens c d
answers-Lessens k s (replying env) c d at h = elim (Option-cases (send k s env c)) [
  | inl e ↦ absurd (ground arith)
  | inr ((r, x), e) ↦ let framed = send-frame k s env c x r e in (ground arith, ground arith)
]
answers-Lessens k s listening c d at h = absurd (ground arith)
answers-Lessens k s (read_error e) c d at h = absurd (ground arith)

-- The turn costs one of those left, but for a message, which may call for an answer.
abbrev After : Move → Conn → Conn → Type 0
After m c d =
    (elim (is_turn m) [ true ↦ suc (left d) | false ↦ left d ]
      ≤ left c + elim (is_heard m) [ true ↦ 2 | false ↦ 0 ])
    × (d.alive ≡ false)

kept-After :
    (c d : Conn) → c.alive ≡ false → kept d ≡ kept c → (left d ≤ left c + 0) × (d.alive ≡ false)
kept-After c d a e =
    let l = ap (λ (x : ℕ × Bool). x.0) e in
    let b = ap (λ (x : ℕ × Bool). x.1) e in (omega (arith, l), b ∙ a)

routed-After :
    (r : Routed) (c : Conn)
    → c.reader ≡ listening
    → (suc (left (routed r c)) ≤ left c + 2) × ((routed r c).alive ≡ c.alive)
routed-After (failed e) c at = (omega arith, refl)
routed-After (start inventory) c at = (omega arith, refl)
routed-After (start t) c at = ground arith
routed-After (reply e) c at = (ground arith, refl)
routed-After logged c at = (omega arith, refl)

receives-After :
    (cfg : Config) (k : Codec) (fresh : ℕ) (raw : Bytes) (r : Reader) (c d : Conn)
    → c.reader ≡ r
    → c.alive ≡ false
    → receives cfg k fresh (message raw) r c ≡ some d
    → (suc (left d) ≤ left c + 2) × (d.alive ≡ false)
receives-After cfg k fresh raw listening c d at a h = elim (Result-cases (k.unmarshal raw)) [
  | inr (e, f) ↦ ground arith
  | inl (env, f) ↦
      ground (arith, routed-After (dispatch cfg k fresh c.clock.now env) (refresh c) at)
]
receives-After cfg k fresh raw (replying e) c d at a h = absurd (ground arith)
receives-After cfg k fresh raw (read_error e) c d at a h = absurd (ground arith)

step-After :
    (cfg : Config) (k : Codec) (m : Move) (c d : Conn)
    → c.alive ≡ false
    → step cfg k m c ≡ some d
    → After m c d
unfolding step
step-After cfg k (wait n) c d a h = ground arith
step-After cfg k cancel c d a h = ground arith
step-After cfg k close c d a h = ground arith
step-After cfg k close_socket c d a h = ground arith
step-After cfg k (offer env s) c d a h =
    kept-After c d a (sent-frame kept kept-IsBlind k s env (λ r x. x) c d (λ r x. refl) h)
step-After cfg k (inventory_ready fresh provided s) c d a h =
    kept-After c d a (delivers-frame kept kept-IsBlind k s fresh provided c.inventories c d h)
step-After cfg k (receive fresh (message raw)) c d a h =
    receives-After cfg k fresh raw c.reader c d refl a h
step-After cfg k (receive fresh (broken e)) c d a h = ground arith
step-After cfg k (receive fresh timeout) c d a h = ground arith
step-After cfg k pong c d a h = ground arith
step-After cfg k (answer s) c d a h =
    let i = answers-Lessens k s c.reader c d refl h in (omega (arith, i.0), ground (arith, i.1))
step-After cfg k (write f) c d a h = ground arith
step-After cfg k (writer_stops s) c d a h = ground arith
step-After cfg k (ping f) c d a h = ground arith
step-After cfg k (pinger_stops s) c d a h = ground arith
step-After cfg k (sample fresh provided) c d a h = ground arith
step-After cfg k (push s) c d a h =
    kept-After c d a (pushes-frame kept kept-IsBlind k s c.sampler c d h)
step-After cfg k sampler_stops c d a h = ground arith

turns_left :
    (cfg : Config) (k : Codec) (ms : List Move) (c d : Conn)
    → c.alive ≡ false
    → continue cfg k ms c ≡ some d
    → count is_turn ms + left d ≤ left c + 2 * count is_heard ms
turns_left cfg k [] c d a h = ground arith
turns_left cfg k (m ∷ ms) c d a h = elim (Option-cases (step cfg k m c)) [
  | inl e ↦ absurd (ground arith)
  | inr (x, e) ↦
      let (fewer, dead) = step-After cfg k m c x a e in
      ground (arith, turns_left cfg k ms x d dead (ground arith))
]

-- Once the socket is closed, whatever the goroutines do, the read pump, the write pump and the ping
-- pump take at most four turns more between them, and two more for each message or pong that the
-- read pump still takes from what had come in.
pub shutdown_bounded :
    (cfg : Config) (k : Codec) (ms : List Move) (c d : Conn)
    → c.alive ≡ false
    → continue cfg k ms c ≡ some d
    → count is_turn ms ≤ 4 + 2 * count is_heard ms
shutdown_bounded cfg k ms c d a h = ground (arith, turns_left cfg k ms c d a h)

-- A turn of a pump that has not returned.
turn :
    (cfg : Config) (k : Codec) (c : Conn) (r : Reader) (w g : Pump)
    → c.ctx_done ≡ true
    → c.reader ≡ r
    → c.out.writer ≡ w
    → c.pinger ≡ g
    → left c ≢ 0
    → (m : Move) × (d : Conn) × (is_turn m ≡ true) × (step cfg k m c ≡ some d)
unfolding step send
turn cfg k c listening w g done er ew eg h =
    (receive 0 (broken canceled), record c { reader = read_error canceled }, refl, ground arith)
turn cfg k c (replying env) w g done er ew eg h =
    (answer by_done, record c { reader = listening }, refl, ground arith)
turn cfg k c (read_error e) running g done er ew eg h = (
  writer_stops by_done,
  record c { out = record c.out { writer = returned (some canceled) } },
  refl,
  ground arith,
)
turn cfg k c (read_error e) (returned x) running done er ew eg h =
    (pinger_stops by_done, record c { pinger = returned (some canceled) }, refl, ground arith)
turn cfg k c (read_error e) (returned x) (returned y) done er ew eg h = absurd (ground arith)

-- While the context is canceled, a pump of the three that has not returned
-- has a turn to take: none of them waits for ever.
pub shutdown_goes_on :
    (cfg : Config) (k : Codec) (c : Conn)
    → c.ctx_done ≡ true
    → left c ≢ 0
    → (m : Move) × (d : Conn) × (is_turn m ≡ true) × (step cfg k m c ≡ some d)
shutdown_goes_on cfg k c done h = turn cfg k c c.reader c.out.writer c.pinger done refl refl refl h
