-- ===== src/Transport/Client/Invariant.antt =====
-- What holds between two steps of the client, and how the statistics follow the connection.
use readyfleet_lightagent.Base.{
  ℕ, Bool, true, false, not, ◌≡◌, some, paused_mid_connection, arith, leb,
}
use readyfleet_lightagent.Transport.Client.{
  Client, Phase, idle, waiting, dialing, serving, leaving, returned, sleeping, Move, call_run,
  proceed, attempt_fails, attempt_connects, pump_ends, delay_elapses, pause, cancel, new_client,
  step, Reach, here, onward,
}

-- From the call of connectAndServe's first section under the mutex to its deferred function.
abbrev pub in_attempt : Phase → Bool
in_attempt dialing = true
in_attempt serving = true
in_attempt (leaving _) = true
in_attempt _ = false

-- The phases in which the statistics may say that the client is connected.
abbrev pub may_be_up : Phase → Bool
may_be_up serving = true
may_be_up (leaving _) = true
may_be_up (returned _) = true
may_be_up _ = false

abbrev pub is_idle : Phase → Bool
is_idle idle = true
is_idle _ = false

-- A number on which a goroutine waits is not past the number of the open channel.
abbrev wake_bounded : Phase → ℕ → Bool
wake_bounded (waiting w) n = leb w n
wake_bounded _ n = true

-- The error that `Run` is about to read while its context is alive, which is also when it would sleep;
-- by the comments of client.go (lines 15 and 312 to 322) it sleeps after every lost connection.
abbrev interrupted : Phase → Bool → Bool
interrupted (returned paused_mid_connection) done = true
interrupted (returned _) done = done
interrupted (sleeping _) done = done
interrupted _ done = true

pub record Inv (c : Client) : Type 0 where
  pub registered : c.registered ≡ in_attempt c.phase
  pub running : c.running ≡ not (is_idle c.phase)
  pub down : may_be_up c.phase ≡ false → c.stats.connected ≡ false
  pub up : c.phase ≡ serving → c.stats.connected ≡ true
  pub wake : wake_bounded c.phase c.wake ≡ true
  pub interrupted : interrupted c.phase c.ctx_done ≡ true

pub new_client-Inv : Inv new_client
unfolding new_client
new_client-Inv = ground arith

pub step-Inv : (m : Move) (c : Client) {d : Client} → step m c ≡ some d → Inv c → Inv d
unfolding step
step-Inv call_run c h v = ground arith
step-Inv proceed c h v = ground arith
step-Inv (attempt_fails f) c h v = ground arith
step-Inv (attempt_connects now) c h v = ground arith
step-Inv (pump_ends e) c h v = ground arith
step-Inv delay_elapses c h v = ground arith
step-Inv (pause p) c h v = ground arith
step-Inv cancel c h v = ground arith

-- Whatever moves lead from a client to another, in any order, the invariant is kept: `cancelCurrent`
-- is set exactly within an attempt, `running` exactly until `Run` returns, the statistics say
-- connected while the pumps run and not before an attempt or after its error is recorded, no
-- goroutine waits on a wake channel that is still to come; and `Run` reads another error than that of a
-- pause, or sleeps for its backoff, only once its context is done, whatever ended the attempt.
pub Reach-Inv : {c d : Client} → Inv c → Reach c d → Inv d
Reach-Inv v here = v
Reach-Inv v (onward {d = c} m r h) = step-Inv m c h (Reach-Inv v r)
