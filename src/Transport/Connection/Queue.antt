-- ===== src/Transport/Connection/Queue.antt =====
-- The order of the messages, and the bound of the channel.
use mathlib.Core.List.{append_assoc}
use mathlib.Core.Path.{subst}
use readyfleet_lightagent.Base.{
  ℕ, zero, suc, ◌≤◌, ◌<◌, Bool, true, false, ◌≡◌, refl, sym, ap, ◌∙◌, ◌⊎◌, Option, none, some, List,
  [], ◌∷◌, ◌++◌, Result, ok, err, Result-cases, Option-cases, inl, inr, arith, Error,
}
use readyfleet_lightagent.Base.Lists.{length, length-append}
use readyfleet_lightagent.Base.Text.{Bytes}
use readyfleet_lightagent.Proto.Envelope.{Envelope}
use readyfleet_lightagent.Proto.Snapshot.{InventoryData}
use readyfleet_lightagent.Transport.Messages.{Config, Codec, Routed, dispatch, inventory_message}
use readyfleet_lightagent.Transport.Connection.{
  Conn, Outbox, Inbound, message, broken, timeout, Reader, listening, replying, read_error,
  receives, routed, answers, Sampler, waiting, sending, sample_error, pushes, pushed, sent, reports,
  delivers, wrote, stops, stop_of, refresh, enqueued, writes, Pump, running, returned, Case,
  by_closed, by_done, by_room, Move, wait, cancel, close, close_socket, offer, inventory_ready,
  receive, pong, answer, write, writer_stops, ping, pinger_stops, sample, push, sampler_stops, send,
  step,
}

-- What Send accepted is what was written, then what a failed write lost, then what waits; a message
-- is lost only by the write pump's end, and at most one is; and no more than 32 messages wait.
pub record IsOrdered (o : Outbox) : Type 0 where
  pub order : o.accepted ≡ o.written ++ (o.lost ++ o.queue)
  pub lossless : o.writer ≡ running → o.lost ≡ []
  pub one_lost : length o.lost ≤ 1
  pub bounded : length o.queue ≤ 32

pub enqueued-IsOrdered :
    (b : Bytes) (o : Outbox) → length o.queue < 32 → IsOrdered o → IsOrdered (enqueued b o)
enqueued-IsOrdered b o room v = record {
  order =
      ap (λ l. l ++ (b ∷ [])) v.order
      ∙ append_assoc o.written (o.lost ++ o.queue) (b ∷ [])
      ∙ ap (λ l. o.written ++ l) (append_assoc o.lost o.queue (b ∷ []));
  lossless = v.lossless;
  one_lost = v.one_lost;
  bounded = ground (arith, length-append o.queue (b ∷ []));
}

-- What one step makes of the channel: nothing; one more message where there was room; one message
-- that is written or lost; or the end of the write pump.
abbrev pub Changed : Outbox → Outbox → Type 0
Changed o o' =
    (o' ≡ o)
    ⊎ ((b : Bytes) × (length o.queue < 32) × (o' ≡ enqueued b o))
    ⊎ ((f : Option Error) × (alive : Bool) × (writes f alive o.writer o.queue o ≡ some o'))
    ⊎ ((r : Option Error) × (o' ≡ record o { writer = returned r }))

send-Changed :
    (k : Codec) (s : Case) (env : Envelope) (c d : Conn) (r : Result (Unit {0}))
    → send k s env c ≡ some (r, d)
    → Changed c.out d.out
unfolding send
send-Changed k by_closed env c d r h = inl (ground arith)
send-Changed k by_done env c d r h = inl (ground arith)
send-Changed k by_room env c d r h = elim (Result-cases (k.marshal env)) [
  | inr (e, f) ↦ inl (ground arith)
  | inl (b, f) ↦ inr (inl (b, ground arith, ground arith))
]

-- The messages, in order, where none is lost and one waits.
unlost :
    (o : Outbox) (b : Bytes) (bs : List Bytes)
    → IsOrdered o
    → o.writer ≡ running
    → o.queue ≡ b ∷ bs
    → o.accepted ≡ o.written ++ (b ∷ bs)
unlost o b bs v w q =
    v.order ∙ ap (λ l. o.written ++ (l ++ o.queue)) (v.lossless w) ∙ ap (λ l. o.written ++ l) q

writes-IsOrdered :
    (f : Option Error) (alive : Bool) (w : Pump) (q : List Bytes) (o o' : Outbox)
    → writes f alive w q o ≡ some o'
    → o.writer ≡ w
    → o.queue ≡ q
    → IsOrdered o
    → IsOrdered o'
writes-IsOrdered none true running (b ∷ bs) o o' h w q v =
    let same : record o { queue = bs; written = o.written ++ (b ∷ []) } ≡ o' = ground arith in
    subst IsOrdered same (record {
      order =
          unlost o b bs v w q
          ∙ sym (append_assoc o.written (b ∷ []) bs)
          ∙ ap (λ l. (o.written ++ (b ∷ [])) ++ (l ++ bs)) (sym (v.lossless w));
      lossless = v.lossless;
      one_lost = v.one_lost;
      bounded = ground (arith, v.bounded, ap (λ l. length l) q);
    })
writes-IsOrdered (some e) alive running (b ∷ bs) o o' h w q v =
    let same : record o { queue = bs; lost = b ∷ []; writer = returned (some e) } ≡ o' =
      ground arith in
    subst IsOrdered same (record {
      order = unlost o b bs v w q;
      lossless = λ x. absurd (ground arith);
      one_lost = ground arith;
      bounded = ground (arith, v.bounded, ap (λ l. length l) q);
    })
writes-IsOrdered none true running [] o o' h w q v = absurd (ground arith)
writes-IsOrdered none true (returned r) q' o o' h w q v = absurd (ground arith)
writes-IsOrdered none false w' q' o o' h w q v = absurd (ground arith)
writes-IsOrdered (some e) alive running [] o o' h w q v = absurd (ground arith)
writes-IsOrdered (some e) alive (returned r) q' o o' h w q v = absurd (ground arith)

pub Changed-IsOrdered : (o o' : Outbox) → Changed o o' → IsOrdered o → IsOrdered o'
Changed-IsOrdered o o' t v = elim t [
  | inl e ↦ subst IsOrdered (sym e) v
  | inr t ↦ elim t [
    | inl (b, room, e) ↦ subst IsOrdered (sym e) (enqueued-IsOrdered b o room v)
    | inr t ↦ elim t [
      | inl (f, alive, e) ↦ writes-IsOrdered f alive o.writer o.queue o o' e refl refl v
      | inr (r, e) ↦ subst IsOrdered (sym e) (record {
        order = v.order;
        lossless = λ x. absurd (ground arith);
        one_lost = v.one_lost;
        bounded = v.bounded;
      })
    ]
  ]
]

routed-out : (r : Routed) (c : Conn) → (routed r c).out ≡ c.out
routed-out r c = ground arith

receive-out :
    (cfg : Config) (k : Codec) (fresh : ℕ) (i : Inbound) (r : Reader) (c d : Conn)
    → receives cfg k fresh i r c ≡ some d
    → d.out ≡ c.out
receive-out cfg k fresh (message raw) listening c d h = elim (Result-cases (k.unmarshal raw)) [
  | inr (e, f) ↦ ground arith
  | inl (env, f) ↦ ground (arith, routed-out (dispatch cfg k fresh c.clock.now env) (refresh c))
]
receive-out cfg k fresh (message raw) (replying e) c d h = absurd (ground arith)
receive-out cfg k fresh (message raw) (read_error e) c d h = absurd (ground arith)
receive-out cfg k fresh (broken e) r c d h = ground arith
receive-out cfg k fresh timeout r c d h = ground arith

-- A step that is a Send and then changes nothing of the channel.
sent-Changed :
    (k : Codec) (s : Case) (env : Envelope) (f : Result (Unit {0}) → Conn → Conn) (c d : Conn)
    → ((r : Result (Unit {0})) (x : Conn) → (f r x).out ≡ x.out)
    → sent f (send k s env c) ≡ some d
    → Changed c.out d.out
sent-Changed k s env f c d same h = elim (Option-cases (send k s env c)) [
  | inl e ↦ absurd (ground arith)
  | inr ((r, x), e) ↦
      let last : d.out ≡ x.out = ground (arith, same r x) in
      subst (Changed c.out) (sym last) (send-Changed k s env c x r e)
]

answers-Changed :
    (k : Codec) (s : Case) (r : Reader) (c d : Conn)
    → answers k s r c ≡ some d
    → Changed c.out d.out
answers-Changed k s (replying env) c d h =
    sent-Changed k s env (λ r x. record x { reader = listening }) c d (λ r x. refl) h
answers-Changed k s listening c d h = absurd (ground arith)
answers-Changed k s (read_error e) c d h = absurd (ground arith)

pushes-Changed :
    (k : Codec) (s : Case) (r : Sampler) (c d : Conn)
    → pushes k s r c ≡ some d
    → Changed c.out d.out
pushes-Changed k s (sending env) c d h = sent-Changed k s env pushed c d (λ r x. ground arith) h
pushes-Changed k s waiting c d h = absurd (ground arith)
pushes-Changed k s (sample_error e) c d h = absurd (ground arith)

reports-Changed :
    (k : Codec) (s : Case) (e : Result Envelope) (c d : Conn)
    → reports k s e c ≡ some d
    → Changed c.out d.out
reports-Changed k s (err e) c d h = inl (ground arith)
reports-Changed k s (ok env) c d h = sent-Changed k s env (λ r x. x) c d (λ r x. refl) h

delivers-Changed :
    (k : Codec) (fresh : ℕ) (provided : Result InventoryData) (s : Case) (n : ℕ) (c d : Conn)
    → delivers k fresh provided s n c ≡ some d
    → Changed c.out d.out
delivers-Changed k fresh provided s zero c d h = absurd (ground arith)
delivers-Changed k fresh provided s (suc n) c d h =
    reports-Changed k s (inventory_message k fresh c.clock.now provided)
      (record c { inventories = n }) d h

wrote-Changed :
    (f : Option Error) (c d : Conn)
    → wrote c (writes f c.alive c.out.writer c.out.queue c.out) ≡ some d
    → Changed c.out d.out
wrote-Changed f c d h = elim (Option-cases (writes f c.alive c.out.writer c.out.queue c.out)) [
  | inl e ↦ absurd (ground arith)
  | inr (o, e) ↦
      let last : o ≡ d.out = ground arith in
      inr (inr (inl (f, c.alive, e ∙ ap (λ (x : Outbox). some x) last)))
]

stops-Changed :
    (w : Pump) (r : Option (Option Error)) (c d : Conn)
    → stops (λ r x. record x { out = record x.out { writer = returned r } }) w r c ≡ some d
    → Changed c.out d.out
stops-Changed running (some r) c d h = inr (inr (inr (r, ground arith)))
stops-Changed running none c d h = absurd (ground arith)
stops-Changed (returned e) r c d h = absurd (ground arith)

pub step-Changed :
    (cfg : Config) (k : Codec) (m : Move) (c d : Conn)
    → step cfg k m c ≡ some d
    → Changed c.out d.out
unfolding step
step-Changed cfg k (wait n) c d h = inl (ground arith)
step-Changed cfg k cancel c d h = inl (ground arith)
step-Changed cfg k close c d h = inl (ground arith)
step-Changed cfg k close_socket c d h = inl (ground arith)
step-Changed cfg k (offer env s) c d h = sent-Changed k s env (λ r x. x) c d (λ r x. refl) h
step-Changed cfg k (inventory_ready fresh provided s) c d h =
    delivers-Changed k fresh provided s c.inventories c d h
step-Changed cfg k (receive fresh i) c d h = inl (receive-out cfg k fresh i c.reader c d h)
step-Changed cfg k pong c d h = inl (ground arith)
step-Changed cfg k (answer s) c d h = answers-Changed k s c.reader c d h
step-Changed cfg k (write f) c d h = wrote-Changed f c d h
step-Changed cfg k (writer_stops s) c d h = stops-Changed c.out.writer (stop_of s c) c d h
step-Changed cfg k (ping f) c d h = inl (ground arith)
step-Changed cfg k (pinger_stops s) c d h = inl (ground arith)
step-Changed cfg k (sample fresh provided) c d h = inl (ground arith)
step-Changed cfg k (push s) c d h = pushes-Changed k s c.sampler c d h
step-Changed cfg k sampler_stops c d h = inl (ground arith)
