-- ===== src/Transport/Client/Retrying.antt =====
-- What the client does after an attempt has failed.
use readyfleet_lightagent.Base.{
  ℕ, true, false, ◌≡◌, none, some, List, [], ◌∷◌, Error, paused_mid_connection, refl, arith,
}
use readyfleet_lightagent.Transport.Client.{
  Client, serving, sleeping, reading, dialing, Fault, Move, proceed, pump_ends, attempt_fails,
  new_client, step, continue, Reach,
}
use readyfleet_lightagent.Transport.Client.Invariant.{new_client-Inv, Reach-Inv}

-- The client never waits out a reconnect delay while the context of `Run` is alive: a reachable
-- client that sleeps has been canceled.
pub sleeping_only_canceled :
    (c : Client) (d : ℕ) → Reach new_client c → c.phase ≡ sleeping d → c.ctx_done ≡ true
sleeping_only_canceled c d r p = let v = Reach-Inv new_client-Inv r in ground arith

abbrev pub go_on : List Move
go_on = proceed ∷ proceed ∷ proceed ∷ []

-- While the context of `Run` is alive, the end of a connection, by whatever error of a pump, leads
-- in three steps of `Run` alone to the next attempt, with no delay and the same backoff, and the
-- statistics name the error of a pause in place of the real one.
pub lost_connection_retries_at_once :
    (c : Client) (e : Error)
    → c.phase ≡ serving
    → c.ctx_done ≡ false
    → (d : Client) × (continue (pump_ends e ∷ go_on) c ≡ some d)
      × (d.phase ≡ reading)
      × (d.stats.connected ≡ false)
      × (d.stats.last_error ≡ some paused_mid_connection)
      × (d.backoff ≡ c.backoff)
unfolding step
lost_connection_retries_at_once c e p alive = (
  record c {
    phase = reading;
    registered = false;
    attempt_canceled = true;
    stats = record c.stats {
      connected = false;
      connected_since = none;
      last_error = some paused_mid_connection;
    };
  },
  ground arith,
  refl,
  refl,
  refl,
  refl,
)

-- The same for an attempt that fails before its pumps run: a dial that is refused is repeated at
-- once.
pub failed_dial_retries_at_once :
    (c : Client) (f : Fault)
    → c.phase ≡ dialing
    → c.ctx_done ≡ false
    → (d : Client) × (continue (attempt_fails f ∷ go_on) c ≡ some d)
      × (d.phase ≡ reading)
      × (d.stats.last_error ≡ some paused_mid_connection)
      × (d.backoff ≡ c.backoff)
unfolding step
failed_dial_retries_at_once c f p alive = (
  record c {
    phase = reading;
    registered = false;
    attempt_canceled = true;
    stats = record c.stats {
      connected = false;
      connected_since = none;
      last_error = some paused_mid_connection;
    };
  },
  ground arith,
  refl,
  refl,
  refl,
)
