-- ===== src/Solarbeam/Managed/Waiting.antt =====
-- That the wait for a service ends, and what it has seen.
use mathlib.Core.Path.{subst}
use readyfleet_lightagent.Base.{
  ℕ, zero, suc, ◌+◌, ◌*◌, ◌≤◌, ◌≢◌, Bool, true, false, not, ◌&&◌, ◌≡◌, refl, sym, ap, ◌∙◌, ◌⊎◌, inl,
  inr, none, some, Result, ok, err, Bool-cases, Option-cases, ltb, arith,
}
use readyfleet_lightagent.Solarbeam.Service.{
  ServiceState, same_state, ServiceHost, poll_interval, service_state_timeout, enough_polls, now,
  query, is_state, pause, poll, wait_for_service_state,
}

pub same_state-≡ : (a b : ServiceState) → same_state a b ≡ true → a ≡ b
same_state-≡ a b h = ground arith

-- What a look at the service leaves: the clock, and all that is not the service's.
query-clock : (h : ServiceHost) → (query h).1.clock ≡ h.clock
unfolding query
query-clock h = ground arith

now-clock : (h : ServiceHost) → h.clock ≤ (now h).1.clock
unfolding now
now-clock h = ground arith

-- The test of a turn of the loop: the deadline is not reached, and the state is not the one wanted.
abbrev again : ServiceState → ℕ → ServiceHost → Bool
again want deadline h =
    let h1 = (now h).1 in ltb h1.clock deadline && not (is_state want (query h1).0)

abbrev looked_at : ServiceHost → ServiceHost
looked_at h = (query (now h).1).1

-- Enough turns for a deadline: each sleeps for a quarter of a second.
poll_enough :
    (n : ℕ) (want : ServiceState) (deadline : ℕ) (h : ServiceHost)
    → deadline ≤ h.clock + poll_interval * n
    → poll (suc n) want deadline h ≢ none
unfolding poll
poll_enough zero want deadline h e k = let late = now-clock h in ground arith
poll_enough (suc n) want deadline h e k = elim (Bool-cases (again want deadline h)) [
  | inr f ↦ ground arith
  | inl f ↦
      let late = now-clock h in
      let kept = query-clock (now h).1 in
      poll_enough n want deadline (pause (looked_at h)) (ground arith) (ground arith)
]

-- The wait for a state of the service ends within its 15 seconds: its 61 turns are enough.
pub wait_ends :
    (want : ServiceState) (h : ServiceHost)
    → poll enough_polls want ((now h).1.clock + service_state_timeout) (now h).1 ≢ none
wait_ends want h =
    poll_enough 60 want ((now h).1.clock + service_state_timeout) (now h).1 (omega arith)

-- What a wait leaves alone.
abbrev pub Same : ServiceHost → ServiceHost → Type 0
Same h d = (d.host ≡ h.host) × (d.handles ≡ h.handles) × (d.starts ≡ h.starts) × (d.disk ≡ h.disk)

pub query-Same : (h : ServiceHost) → Same h (query h).1
unfolding query
query-Same h = (ground arith, ground arith, ground arith, ground arith)

now-Same : (h : ServiceHost) → Same h (now h).1
unfolding now
now-Same h = (refl, refl, refl, refl)

-- A look that shows a state has left the service in it.
pub query-ok :
    (h : ServiceHost) (s : ServiceState) → (query h).0 ≡ ok s → (query h).1.service ≡ some s
unfolding query
query-ok h s e = ground arith

is_state-ok : (want : ServiceState) (r : Result ServiceState) → is_state want r ≡ true → r ≡ ok want
is_state-ok want (ok s) h = ap (λ (x : ServiceState). ok x) (same_state-≡ s want h)
is_state-ok want (err e) h = absurd (ground arith)

-- A wait changes nothing but the service and what it consumes, and one that finds the state has left
-- the service in it.
poll-seen :
    (n : ℕ) (want : ServiceState) (deadline : ℕ) (h : ServiceHost) (b : Bool) (d : ServiceHost)
    → poll n want deadline h ≡ some (b, d)
    → Same h d × ((b ≡ false) ⊎ (d.service ≡ some want))
unfolding poll
poll-seen zero want deadline h b d e = absurd (ground arith)
poll-seen (suc n) want deadline h b d e =
    let (a1, a2, a3, a4) = now-Same h in
    let (b1, b2, b3, b4) = query-Same (now h).1 in
    elim (Bool-cases (again want deadline h)) [
      | inl f ↦
          let ((c1, c2, c3, c4), seen) =
            poll-seen n want deadline (pause (looked_at h)) b d (ground arith) in
          ((c1 ∙ b1 ∙ a1, c2 ∙ b2 ∙ a2, c3 ∙ b3 ∙ a3, c4 ∙ b4 ∙ a4), seen)
      | inr f ↦
          let last : looked_at h ≡ d = ground arith in
          let same = subst (Same h) last (b1 ∙ a1, b2 ∙ a2, b3 ∙ a3, b4 ∙ a4) in
          (
            same,
            elim (Bool-cases (is_state want (query (now h).1).0)) [
              | inr g ↦ inl (ground arith)
              | inl g ↦ inr (
                  ap (λ (x : ServiceHost). x.service) (sym last)
                  ∙ query-ok (now h).1 want (is_state-ok want (query (now h).1).0 g))
            ],
          )
    ]

found-cases :
    {want : ServiceState} (b : Bool) (d : ServiceHost)
    → (b ≡ false) ⊎ (d.service ≡ some want)
    → (ok b ≡ ok false) ⊎ ((ok b ≡ ok true) × (d.service ≡ some want))
found-cases false d seen = inl refl
found-cases true d (inl e) = absurd (ground arith)
found-cases true d (inr s) = inr (refl, s)

pub wait-seen :
    (want : ServiceState) (h : ServiceHost)
    → let (r, d) = wait_for_service_state want h in
      Same h d × ((r ≡ ok false) ⊎ ((r ≡ ok true) × (d.service ≡ some want)))
unfolding wait_for_service_state
wait-seen want h =
    let (a1, a2, a3, a4) = now-Same h in
    elim (Option-cases
      (poll enough_polls want ((now h).1.clock + service_state_timeout) (now h).1)) [
        | inl e ↦ absurd (wait_ends want h e)
        | inr ((b, d), e) ↦
            let ((c1, c2, c3, c4), seen) =
              poll-seen enough_polls want ((now h).1.clock + service_state_timeout) (now h).1 b d
                e in
            rw e ((c1 ∙ a1, c2 ∙ a2, c3 ∙ a3, c4 ∙ a4), found-cases b d seen)
      ]
