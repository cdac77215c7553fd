-- ===== src/Runtime/Link.antt =====
-- What a command handler can reach: the machine, the connection that it answers on, and the clock.
use readyfleet_lightagent.Base.{
  ℕ, suc, ◌+◌, ◌-◌, String, Option, none, some, List, [], ◌∷◌, Error, Result, ok, err, Act, lift,
  ◌>>=◌,
}
use readyfleet_lightagent.Base.Text.{Bytes}
use readyfleet_lightagent.Proto.Envelope.{Envelope, new_envelope}

-- `sent` holds the envelopes queued on the connection, the last one first, and `failures` what the
-- next calls of `send` return (past its end they succeed). `ids` have been drawn from uuid.New, and
-- `ticks` is how far the clock goes on after each reading.
pub record Link (S : Type 0) : Type 0 where
  pub host : S
  pub sent : List Envelope
  pub failures : List (Option Error)
  pub ids : ℕ
  pub clock : ℕ
  pub ticks : List ℕ

abbrev tick : List ℕ → ℕ
tick [] = 0
tick (t ∷ ts) = t

abbrev rest {ℓ} : {A : Type ℓ} → List A → List A
rest [] = []
rest (x ∷ xs) = xs

abbrev verdict : List (Option Error) → Option Error
verdict [] = none
verdict (f ∷ fs) = f

abbrev queue : {S : Type 0} → Option Error → Envelope → Act (Link S) (Unit {0})
queue none e l = (ok tt, record l { sent = e ∷ l.sent })
queue (some x) e l = (err x, l)

module _ {S : Type 0} where
  -- time.Now()
  unfoldable pub now : Act (Link S) ℕ
  now l = (ok l.clock, record l { clock = l.clock + tick l.ticks; ticks = rest l.ticks })

  -- uuid.New()
  unfoldable pub new_id : Act (Link S) ℕ
  new_id l = (ok (suc l.ids), record l { ids = suc l.ids })

  -- time.Since(start)
  unfoldable pub since : ℕ → Act (Link S) ℕ
  unfolding now
  since start = do t ← now; lift (ok (t - start))

  -- the SendFunc of the connection
  unfoldable pub send : Envelope → Act (Link S) (Unit {0})
  send e l = queue (verdict l.failures) e (record l { failures = rest l.failures })

  -- NewEnvelope
  unfoldable pub make_envelope :
      String → ℕ → Option ℕ → Option (Result Bytes) → Act (Link S) Envelope
  unfolding now new_id new_envelope
  make_envelope t id reply_to marshaled = do
    fresh ← new_id
    at ← now
    lift (new_envelope fresh at t id reply_to marshaled)

  -- A call that reaches the machine alone.
  abbrev pub on_host : {A : Type 0} → Act S A → Act (Link S) A
  on_host c l = let (r, h) = c l.host in (r, record l { host = h })
