-- ===== src/Transport/Client/Pausing.antt =====
-- What SetPaused does to a client, wherever `Run` stands.
use readyfleet_lightagent.Base.{
  ℕ, Bool, true, false, ◌≡◌, ◌⊎◌, inl, inr, none, some, List, [], ◌∷◌, Error, paused_mid_connection,
  refl, arith, Option-cases, suc,
}
use readyfleet_lightagent.Base.Lists.{all}
use readyfleet_lightagent.Transport.Client.{
  Client, Phase, loop_head, waiting, entering, dialing, serving, Move, call_run, proceed,
  attempt_fails, attempt_connects, pump_ends, delay_elapses, pause, cancel, new_client, step,
  continue, Reach, set_paused,
}
use readyfleet_lightagent.Transport.Client.Invariant.{new_client-Inv, Reach-Inv}

-- The phases before and within an attempt, from the read of `paused` on.
abbrev pub past_check : Phase → Bool
past_check entering = true
past_check dialing = true
past_check serving = true
past_check _ = false

-- Moves with no SetPaused(false) among them.
abbrev pub stays_paused : Move → Bool
stays_paused (pause false) = false
stays_paused _ = true

-- SetPaused(true) cancels an attempt that is being dialed or served.
pub pause_cancels :
    (c : Client)
    → Reach new_client c
    → (c.phase ≡ dialing) ⊎ (c.phase ≡ serving)
    → (set_paused true c).attempt_canceled ≡ true
unfolding set_paused
pause_cancels c r p = let v = Reach-Inv new_client-Inv r in ground arith

paused_step :
    (m : Move) (c : Client) {d : Client}
    → step m c ≡ some d
    → stays_paused m ≡ true
    → c.paused ≡ true
    → past_check c.phase ≡ false
    → (d.paused ≡ true) × (past_check d.phase ≡ false)
unfolding step
paused_step call_run c h s p q = ground arith
paused_step proceed c h s p q = ground arith
paused_step (attempt_fails f) c h s p q = ground arith
paused_step (attempt_connects now) c h s p q = ground arith
paused_step (pump_ends e) c h s p q = ground arith
paused_step delay_elapses c h s p q = ground arith
paused_step (pause true) c h s p q = ground arith
paused_step (pause false) c h s p q = ground arith
paused_step cancel c h s p q = ground arith

-- A paused client whose `Run` is outside an attempt starts none, whatever else happens, until
-- SetPaused(false) is called.
pub paused_stays_out :
    (ms : List Move) (c d : Client)
    → continue ms c ≡ some d
    → all stays_paused ms ≡ true
    → c.paused ≡ true
    → past_check c.phase ≡ false
    → past_check d.phase ≡ false
paused_stays_out [] c d h s p q = ground arith
paused_stays_out (m ∷ ms) c d h s p q = elim (Option-cases (step m c)) [
  | inl e ↦ ground arith
  | inr (c', e) ↦
      let kept = paused_step m c e (ground arith) p q in
      paused_stays_out ms c' d (ground arith) (ground arith) kept.0 kept.1
]

-- A call of SetPaused, with either argument, lets a `Run` that waits on the wake channel go on to
-- the head of its loop, if its context is alive.
pub pause_wakes :
    (c : Client) (p : Bool) (w : ℕ)
    → Reach new_client c
    → c.phase ≡ waiting w
    → c.ctx_done ≡ false
    → (d : Client) × (continue (pause p ∷ proceed ∷ []) c ≡ some d)
      × (d.phase ≡ loop_head)
      × (d.paused ≡ p)
unfolding step set_paused
pause_wakes c p w r q alive =
    let v = Reach-Inv new_client-Inv r in
    (record (set_paused p c) { phase = loop_head }, ground arith, refl, refl)

-- SetPaused(true) on a live connection: whatever error its pump then ends with, the client is in
-- the wait of a paused `Run` after five steps, and no longer connected.
pub pause_drops :
    (c : Client) (e : Error)
    → c.phase ≡ serving
    → c.ctx_done ≡ false
    → (d : Client) × (continue
          (pause true ∷ pump_ends e ∷ proceed ∷ proceed ∷ proceed ∷ proceed ∷ [])
          c
        ≡ some d)
      × (d.phase ≡ waiting d.wake)
      × (d.stats.connected ≡ false)
unfolding step set_paused
pause_drops c e p alive = (
  record (set_paused true c) {
    phase = waiting (suc c.wake);
    registered = false;
    attempt_canceled = true;
    stats = record c.stats {
      connected = false;
      connected_since = none;
      last_error = some paused_mid_connection;
    };
  },
  ground arith,
  refl,
  refl,
)

-- SetPaused(true) between the read of `paused` and the first section of connectAndServe is lost: the
-- client dials and connects while it is paused, and nothing has canceled the attempt.
pub pause_lost_before_register :
    (c : Client) (now : ℕ)
    → Reach new_client c
    → c.phase ≡ entering
    → c.ctx_done ≡ false
    → (d : Client) × (continue (pause true ∷ proceed ∷ attempt_connects now ∷ []) c ≡ some d)
      × (d.paused ≡ true)
      × (d.stats.connected ≡ true)
      × (d.attempt_canceled ≡ false)
unfolding step set_paused
pause_lost_before_register c now r p alive =
    let v = Reach-Inv new_client-Inv r in
    (
      record (set_paused true c) {
        phase = serving;
        registered = true;
        attempt_canceled = false;
        stats = record c.stats {
          connected = true;
          connected_since = some now;
          connect_count = suc c.stats.connect_count;
        };
      },
      ground arith,
      refl,
      refl,
      refl,
    )
