-- ===== src/Transport/Connection/Returns.antt =====
-- What the pumps return.
use readyfleet_lightagent.Base.{
  ℕ, ◌≢◌, Bool, true, false, ◌&&◌, ◌||◌, ◌≡◌, refl, sym, ap, ◌∙◌, inl, inr, none, some,
  Result-cases, arith,
}
use readyfleet_lightagent.Transport.Messages.{Config, Codec, Routed, dispatch}
use readyfleet_lightagent.Transport.Connection.{
  Conn, Pump, returned, Inbound, message, broken, timeout, Reader, listening, replying, read_error,
  Case, Move, wait, cancel, close, close_socket, offer, inventory_ready, receive, pong, answer,
  write, writer_stops, ping, pinger_stops, sample, push, sampler_stops, receives, answers, new_conn,
  routed, refresh, step, Reach, here, onward,
}
use readyfleet_lightagent.Transport.Connection.Frames.{
  IsBlind, sent-frame, pushes-frame, delivers-frame,
}

abbrev failed_or_running : Pump → Bool
failed_or_running (returned none) = false
failed_or_running _ = true

-- A pump that has returned nil has seen Close.
abbrev sound : Conn → Bool
sound c = c.closed || (failed_or_running c.out.writer && failed_or_running c.pinger)

sound-IsBlind : IsBlind sound
sound-IsBlind = record {
  messages = λ c q a. refl;
  sampler = λ c s. refl;
  inventories = λ c n. refl;
}

routed-sound : (r : Routed) (c : Conn) → sound (routed r c) ≡ sound c
routed-sound r c = ground arith

receives-sound :
    (cfg : Config) (k : Codec) (fresh : ℕ) (i : Inbound) (r : Reader) (c d : Conn)
    → receives cfg k fresh i r c ≡ some d
    → sound d ≡ sound c
receives-sound cfg k fresh (message raw) listening c d h = elim (Result-cases (k.unmarshal raw)) [
  | inr (e, f) ↦ ground arith
  | inl (env, f) ↦
      let last : routed (dispatch cfg k fresh c.clock.now env) (refresh c) ≡ d = ground arith in
      ap sound (sym last) ∙ routed-sound (dispatch cfg k fresh c.clock.now env) (refresh c)
]
receives-sound cfg k fresh (message raw) (replying e) c d h = absurd (ground arith)
receives-sound cfg k fresh (message raw) (read_error e) c d h = absurd (ground arith)
receives-sound cfg k fresh (broken e) r c d h = ground arith
receives-sound cfg k fresh timeout r c d h = ground arith

answers-sound :
    (k : Codec) (s : Case) (r : Reader) (c d : Conn) → answers k s r c ≡ some d → sound d ≡ sound c
answers-sound k s (replying env) c d h =
    sent-frame sound sound-IsBlind k s env (λ r x. record x { reader = listening }) c d
      (λ r x. refl) h
answers-sound k s listening c d h = absurd (ground arith)
answers-sound k s (read_error e) c d h = absurd (ground arith)

step-sound :
    (cfg : Config) (k : Codec) (m : Move) (c d : Conn)
    → step cfg k m c ≡ some d
    → sound c ≡ true
    → sound d ≡ true
unfolding step
step-sound cfg k (wait n) c d h v = ground arith
step-sound cfg k cancel c d h v = ground arith
step-sound cfg k close c d h v = ground arith
step-sound cfg k close_socket c d h v = ground arith
step-sound cfg k (offer env s) c d h v =
    sent-frame sound sound-IsBlind k s env (λ r x. x) c d (λ r x. refl) h ∙ v
step-sound cfg k (inventory_ready fresh provided s) c d h v =
    delivers-frame sound sound-IsBlind k s fresh provided c.inventories c d h ∙ v
step-sound cfg k (receive fresh i) c d h v = receives-sound cfg k fresh i c.reader c d h ∙ v
step-sound cfg k pong c d h v = ground arith
step-sound cfg k (answer s) c d h v = answers-sound k s c.reader c d h ∙ v
step-sound cfg k (write f) c d h v = ground arith
step-sound cfg k (writer_stops s) c d h v = ground arith
step-sound cfg k (ping f) c d h v = ground arith
step-sound cfg k (pinger_stops s) c d h v = ground arith
step-sound cfg k (sample fresh provided) c d h v = ground arith
step-sound cfg k (push s) c d h v = pushes-frame sound sound-IsBlind k s c.sampler c d h ∙ v
step-sound cfg k sampler_stops c d h v = ground arith

Reach-sound :
    (cfg : Config) (k : Codec) {c d : Conn} → sound c ≡ true → Reach cfg k c d → sound d ≡ true
Reach-sound cfg k v here = v
Reach-sound cfg k v (onward {d} {e} m r h) = step-sound cfg k m d e h (Reach-sound cfg k v r)

new_conn-sound : (now : ℕ) → sound (new_conn now) ≡ true
unfolding new_conn
new_conn-sound now = refl

-- While nobody calls Close, as connectAndServe does not, neither the write pump nor the ping pump
-- returns nil: what connectAndServe gets from a pump is an error.
pub pumps_return_errors :
    (cfg : Config) (k : Codec) (now : ℕ) (c : Conn)
    → Reach cfg k (new_conn now) c
    → c.closed ≡ false
    → (c.out.writer ≢ returned none) × (c.pinger ≢ returned none)
pumps_return_errors cfg k now c r h =
    let v = Reach-sound cfg k (new_conn-sound now) r in
    (λ e. absurd (ground arith), λ e. absurd (ground arith))
