-- ===== src/Transport/Connection/Frames.antt =====
-- What the senders of a connection leave alone: all but the channel and their own places.
use readyfleet_lightagent.Base.{
  ℕ, zero, suc, ◌≡◌, refl, ap, ◌∙◌, inl, inr, some, List, Result, ok, err, Option-cases, arith,
}
use readyfleet_lightagent.Base.Text.{Bytes}
use readyfleet_lightagent.Proto.Envelope.{Envelope}
use readyfleet_lightagent.Proto.Snapshot.{InventoryData}
use readyfleet_lightagent.Transport.Messages.{Codec, inventory_message}
use readyfleet_lightagent.Transport.Connection.{
  Conn, Case, by_closed, by_done, by_room, Sampler, waiting, sending, sample_error, send, sent,
  pushes, pushed, reports, delivers,
}

-- A Send changes the channel alone, and there not the write pump.
pub send-frame :
    (k : Codec) (s : Case) (env : Envelope) (c d : Conn) (r : Result (Unit {0}))
    → send k s env c ≡ some (r, d)
    → d ≡ record c { out = record c.out { queue = d.out.queue; accepted = d.out.accepted } }
unfolding send
send-frame k by_closed env c d r h = ground arith
send-frame k by_done env c d r h = ground arith
send-frame k by_room env c d r h = ground arith

-- What is read of a connection does not depend on the messages, on the place of the telemetry loop,
-- and on the inventories asked for.
pub record IsBlind {ℓ} {A : Type ℓ} (p : Conn → A) : Type ℓ where
  pub messages :
      (c : Conn) (q a : List Bytes)
      → p (record c { out = record c.out { queue = q; accepted = a } }) ≡ p c
  pub sampler : (c : Conn) (s : Sampler) → p (record c { sampler = s }) ≡ p c
  pub inventories : (c : Conn) (n : ℕ) → p (record c { inventories = n }) ≡ p c

module _ {ℓ} {A : Type ℓ} (p : Conn → A) (blind : IsBlind p) (k : Codec) (s : Case) where
  pub sent-frame :
      (env : Envelope) (f : Result (Unit {0}) → Conn → Conn) (c d : Conn)
      → ((r : Result (Unit {0})) (x : Conn) → p (f r x) ≡ p x)
      → sent f (send k s env c) ≡ some d
      → p d ≡ p c
  sent-frame env f c d same h = elim (Option-cases (send k s env c)) [
    | inl e ↦ absurd (ground arith)
    | inr ((r, x), e) ↦
        let last : d ≡ f r x = ground arith in
        ap p last
        ∙ same r x
        ∙ ap p (send-frame k s env c x r e)
        ∙ blind.messages c x.out.queue x.out.accepted
  ]

  pushed-frame : (r : Result (Unit {0})) (x : Conn) → p (pushed r x) ≡ p x
  pushed-frame (ok u) x = blind.sampler x waiting
  pushed-frame (err e) x = blind.sampler x (sample_error e)

  pub pushes-frame : (r : Sampler) (c d : Conn) → pushes k s r c ≡ some d → p d ≡ p c
  pushes-frame (sending env) c d h = sent-frame env pushed c d pushed-frame h
  pushes-frame waiting c d h = absurd (ground arith)
  pushes-frame (sample_error e) c d h = absurd (ground arith)

  reports-frame : (e : Result Envelope) (c d : Conn) → reports k s e c ≡ some d → p d ≡ p c
  reports-frame (err e) c d h = let last : d ≡ c = ground arith in ap p last
  reports-frame (ok env) c d h = sent-frame env (λ r x. x) c d (λ r x. refl) h

  pub delivers-frame :
      (fresh : ℕ) (provided : Result InventoryData) (n : ℕ) (c d : Conn)
      → delivers k fresh provided s n c ≡ some d
      → p d ≡ p c
  delivers-frame fresh provided zero c d h = absurd (ground arith)
  delivers-frame fresh provided (suc n) c d h =
      reports-frame (inventory_message k fresh c.clock.now provided) (record c { inventories = n })
        d h
      ∙ blind.inventories c n
