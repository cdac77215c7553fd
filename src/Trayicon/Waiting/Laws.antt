-- ===== src/Trayicon/Waiting/Laws.antt =====
-- That Notify's wait ends, and when it finds nothing.
use readyfleet_lightagent.Base.{
  ℕ, zero, suc, ◌+◌, ◌*◌, ◌≤◌, ◌<◌, ◌≡◌, ◌≢◌, ◌∙◌, ◌⊎◌, sym, refl, ap, Bool, not, Option, none,
  some, inl, inr, ltb, Bool-cases, Option-cases, arith,
}
use readyfleet_lightagent.Trayicon.{TrayState}
use readyfleet_lightagent.Trayicon.Waiting.{
  Waiter, look, now, notify_ready_timeout, nap, asleep, poll, enough_looks, wait_for_state,
}

look-clock : (h : Waiter) → (look h).clock ≡ h.clock
unfolding look
look-clock h = refl

now-clock : (h : Waiter) → h.clock ≤ (now h).clock
unfolding now
now-clock h = omega arith

now-state : (h : Waiter) → (now h).state ≡ h.state
unfolding now
now-state h = refl

-- Whether a turn of the loop is followed by another.
abbrev again : ℕ → Waiter → Bool
again deadline h = not (ltb deadline (now (look h)).clock)

abbrev next : Waiter → Waiter
next h = asleep (now (look h))

poll_enough :
    (n deadline : ℕ) (h : Waiter) → deadline < h.clock + nap * n → poll (suc n) deadline h ≢ none
unfolding poll
poll_enough zero deadline h e k =
    let late = now-clock (look h) in let same = look-clock h in ground arith
poll_enough (suc n) deadline h e k = elim (Option-cases (look h).state) [
  | inr (ts, f) ↦ ground arith
  | inl f ↦ elim (Bool-cases (again deadline h)) [
    | inr g ↦ ground arith
    | inl g ↦
        let late = now-clock (look h) in
        let same = look-clock h in poll_enough n deadline (next h) (omega arith) (ground arith)
  ]
]

-- What the wait ends with: the state that it has seen, or none, after the deadline.
abbrev Ends : ℕ → Option TrayState → Waiter → Type 0
Ends deadline r d = (d.state ≡ r) × ((r ≢ none) ⊎ (deadline < d.clock))

poll-Ends :
    (n deadline : ℕ) (h : Waiter) (r : Option TrayState) (d : Waiter)
    → poll n deadline h ≡ some (r, d)
    → Ends deadline r d
unfolding poll
poll-Ends zero deadline h r d e = absurd (ground arith)
poll-Ends (suc n) deadline h r d e = elim (Option-cases (look h).state) [
  | inr (ts, f) ↦
      let same : look h ≡ d = ground arith in
      let seen : some ts ≡ r = ground arith in
      (ap (λ (x : Waiter). x.state) (sym same) ∙ f ∙ seen, inl (λ k. ground arith))
  | inl f ↦ elim (Bool-cases (again deadline h)) [
    | inl g ↦ poll-Ends n deadline (next h) r d (ground arith)
    | inr g ↦
        let same : now (look h) ≡ d = ground arith in
        let none_seen : none ≡ r = ground arith in
        (
          ap (λ (x : Waiter). x.state) (sym same) ∙ now-state (look h) ∙ f ∙ none_seen,
          inr (ground arith),
        )
  ]
]

-- The wait of Notify ends within its 152 looks, with the state that Run has published, or with none and
-- then only when none is published 3 seconds after its start.
pub wait_for_state_ends :
    (h : Waiter)
    → (poll enough_looks ((now h).clock + notify_ready_timeout) (now h) ≢ none)
      × (let (r, d) = wait_for_state h in
          (d.state ≡ r) × ((r ≢ none) ⊎ ((now h).clock + notify_ready_timeout < d.clock)))
unfolding wait_for_state
wait_for_state_ends h =
    let deadline = (now h).clock + notify_ready_timeout in
    let whole = poll_enough 151 deadline (now h) (omega arith) in
    elim (Option-cases (poll enough_looks deadline (now h))) [
      | inl e ↦ absurd (whole e)
      | inr ((r, d), e) ↦ (whole, rw e (poll-Ends enough_looks deadline (now h) r d e))
    ]
