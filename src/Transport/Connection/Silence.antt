-- ===== src/Transport/Connection/Silence.antt =====
-- When a read times out.
use mathlib.Core.Path.{subst}
use readyfleet_lightagent.Base.{
  ℕ, ◌+◌, ◌≤◌, ◌≡◌, refl, sym, inl, inr, some, List, [], ◌∷◌, Result-cases, Option-cases, arith,
}
use readyfleet_lightagent.Transport.Messages.{Config, Codec, Routed, dispatch}
use readyfleet_lightagent.Transport.Connection.{
  Conn, Clock, read_deadline, Inbound, message, broken, timeout, Reader, listening, replying,
  read_error, Case, Move, wait, cancel, close, close_socket, offer, inventory_ready, receive, pong,
  answer, write, writer_stops, ping, pinger_stops, sample, push, sampler_stops, new_conn, routed,
  refresh, receives, answers, step, continue,
}
use readyfleet_lightagent.Transport.Connection.Frames.{
  IsBlind, sent-frame, pushes-frame, delivers-frame,
}

-- The time since the last message or pong of some moves; `n` is the time before them.
abbrev pub quiet : Move → ℕ → ℕ
quiet (wait t) n = n + t
quiet (receive _ (message _)) n = 0
quiet pong n = 0
quiet _ n = n

pub silence : ℕ → List Move → ℕ
silence n [] = n
silence n (m ∷ ms) = silence (quiet m n) ms

abbrev clock_of : Conn → Clock
clock_of c = c.clock

clock_of-IsBlind : IsBlind clock_of
clock_of-IsBlind = record {
  messages = λ c q a. refl;
  sampler = λ c s. refl;
  inventories = λ c n. refl;
}

answers-clock :
    (k : Codec) (s : Case) (r : Reader) (c d : Conn) → answers k s r c ≡ some d → d.clock ≡ c.clock
answers-clock k s (replying env) c d h =
    sent-frame clock_of clock_of-IsBlind k s env (λ r x. record x { reader = listening }) c d
      (λ r x. refl) h
answers-clock k s listening c d h = absurd (ground arith)
answers-clock k s (read_error e) c d h = absurd (ground arith)

routed-clock : (r : Routed) (c : Conn) → (routed r c).clock ≡ c.clock
routed-clock r c = ground arith

-- What a move does to the clock.
abbrev ticked : Move → Clock → Clock
ticked (wait n) t = record t { now = t.now + n }
ticked (receive _ (message _)) t = record t { deadline = t.now + read_deadline }
ticked pong t = record t { deadline = t.now + read_deadline }
ticked _ t = t

receives-ticked :
    (cfg : Config) (k : Codec) (fresh : ℕ) (i : Inbound) (r : Reader) (c d : Conn)
    → receives cfg k fresh i r c ≡ some d
    → d.clock ≡ ticked (receive fresh i) c.clock
receives-ticked cfg k fresh (message raw) listening c d h = elim (Result-cases (k.unmarshal raw)) [
  | inr (e, f) ↦ ground arith
  | inl (env, f) ↦ ground (arith, routed-clock (dispatch cfg k fresh c.clock.now env) (refresh c))
]
receives-ticked cfg k fresh (message raw) (replying e) c d h = absurd (ground arith)
receives-ticked cfg k fresh (message raw) (read_error e) c d h = absurd (ground arith)
receives-ticked cfg k fresh (broken e) r c d h = ground arith
receives-ticked cfg k fresh timeout r c d h = ground arith

step-ticked :
    (cfg : Config) (k : Codec) (m : Move) (c d : Conn)
    → step cfg k m c ≡ some d
    → d.clock ≡ ticked m c.clock
unfolding step
step-ticked cfg k (wait n) c d h = ground arith
step-ticked cfg k cancel c d h = ground arith
step-ticked cfg k close c d h = ground arith
step-ticked cfg k close_socket c d h = ground arith
step-ticked cfg k (offer env s) c d h =
    sent-frame clock_of clock_of-IsBlind k s env (λ r x. x) c d (λ r x. refl) h
step-ticked cfg k (inventory_ready fresh provided s) c d h =
    delivers-frame clock_of clock_of-IsBlind k s fresh provided c.inventories c d h
step-ticked cfg k (receive fresh i) c d h = receives-ticked cfg k fresh i c.reader c d h
step-ticked cfg k pong c d h = ground arith
step-ticked cfg k (answer s) c d h = answers-clock k s c.reader c d h
step-ticked cfg k (write f) c d h = ground arith
step-ticked cfg k (writer_stops s) c d h = ground arith
step-ticked cfg k (ping f) c d h = ground arith
step-ticked cfg k (pinger_stops s) c d h = ground arith
step-ticked cfg k (sample fresh provided) c d h = ground arith
step-ticked cfg k (push s) c d h = pushes-frame clock_of clock_of-IsBlind k s c.sampler c d h
step-ticked cfg k sampler_stops c d h = ground arith

-- The deadline is 75 seconds past the last sign of the server, `n` ago.
abbrev IsTimed : ℕ → Clock → Type 0
IsTimed n t = t.deadline + n ≡ t.now + read_deadline

ticked-IsTimed : (m : Move) (n : ℕ) (t : Clock) → IsTimed n t → IsTimed (quiet m n) (ticked m t)
ticked-IsTimed m n t v = ground arith

pub continue-IsTimed :
    (cfg : Config) (k : Codec) (ms : List Move) (n : ℕ) (c d : Conn)
    → continue cfg k ms c ≡ some d
    → IsTimed n c.clock
    → IsTimed (silence n ms) d.clock
unfolding silence
continue-IsTimed cfg k [] n c d h v = ground arith
continue-IsTimed cfg k (m ∷ ms) n c d h v = elim (Option-cases (step cfg k m c)) [
  | inl e ↦ absurd (ground arith)
  | inr (x, e) ↦
      let same = step-ticked cfg k m c x e in
      let timed : IsTimed (quiet m n) x.clock =
        subst (IsTimed (quiet m n)) (sym same) (ticked-IsTimed m n c.clock v) in
      continue-IsTimed cfg k ms (quiet m n) x d (ground arith) timed
]

-- A read of a connection times out only after 75 seconds in which neither a message nor a pong came
-- in, counted over the moves since the connection was made.
pub timeout_silent :
    (cfg : Config) (k : Codec) (now fresh : ℕ) (ms : List Move) (c d : Conn)
    → continue cfg k ms (new_conn now) ≡ some c
    → step cfg k (receive fresh timeout) c ≡ some d
    → read_deadline ≤ silence 0 ms
unfolding step new_conn
timeout_silent cfg k now fresh ms c d r h =
    ground (arith, continue-IsTimed cfg k ms 0 (new_conn now) c r (omega arith))
