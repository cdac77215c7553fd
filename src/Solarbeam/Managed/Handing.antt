-- ===== src/Solarbeam/Managed/Handing.antt =====
-- What the calls on the service do to it and to the machine.
use mathlib.Core.Path.{subst}
use readyfleet_lightagent.Base.{
  suc, ◌-◌, false, ◌≡◌, refl, sym, ap, ◌∙◌, ◌⊎◌, inl, inr, some, Result, ok, is_ok, Result-cases,
  Bool-cases, Option-cases, arith,
}
use readyfleet_lightagent.Solarbeam.Service.{
  ServiceState, stopped, start_pending, stop_pending, running, same_state, ServiceHost, verdict,
  rest, query,
}
use readyfleet_lightagent.Solarbeam.Managed.{
  stop_service_if_running, restart_service, restart_engine_service,
}
use readyfleet_lightagent.Solarbeam.Managed.Waiting.{
  same_state-≡, Same, query-Same, query-ok, wait-seen,
}

-- The machine after a stop was asked for.
abbrev asked : ServiceHost → ServiceHost
asked h = record h { calls = rest h.calls; service = some stop_pending }

pub stop_if-seen :
    (h : ServiceHost)
    → let (r, d) = stop_service_if_running h in
      Same h d × ((is_ok r ≡ false) ⊎ ((r ≡ ok tt) × (d.service ≡ some stopped)))
unfolding stop_service_if_running
stop_if-seen h =
    let q = (query h).1 in
    let (b1, b2, b3, b4) = query-Same h in
    let ((c1, c2, c3, c4), seen) = wait-seen stopped (asked q) in
    elim (Result-cases (query h).0) [
      | inr (e, f) ↦ rw f ((b1, b2, b3, b4), inl refl)
      | inl (s, f) ↦ elim (Bool-cases (same_state s stopped)) [
        | inl t ↦
            let at =
              query-ok h stopped (f ∙ ap (λ (x : ServiceState). ok x) (same_state-≡ s stopped t)) in
            rw (f, t) ((b1, b2, b3, b4), inr (refl, at))
        | inr t ↦ elim (Result-cases (verdict q.calls)) [
          | inr (e, g) ↦ rw (f, t, g) ((b1, b2, b3, b4), inl refl)
          | inl (u, g) ↦ elim seen [
            | inl w ↦ rw (f, t, g, w) ((c1 ∙ b1, c2 ∙ b2, c3 ∙ b3, c4 ∙ b4), inl refl)
            | inr (w, at) ↦ rw (f, t, g, w) ((c1 ∙ b1, c2 ∙ b2, c3 ∙ b3, c4 ∙ b4), inr (refl, at))
          ]
        ]
      ]
    ]

abbrev started : ServiceHost → ServiceHost
started h = record h { calls = rest h.calls; service = some start_pending; starts = suc h.starts }

-- What a restart does: it fails, or the service runs, started once more.
abbrev pub Restarted : ServiceHost → Result (Unit {0}) → ServiceHost → Type 0
Restarted h r d =
    (d.host ≡ h.host)
    × (d.handles ≡ h.handles)
    × (d.disk ≡ h.disk)
    × ((is_ok r ≡ false) ⊎ ((r ≡ ok tt) × (d.service ≡ some running) × (d.starts ≡ suc h.starts)))

restart_service-seen : (h : ServiceHost) → Restarted h (restart_service h).0 (restart_service h).1
unfolding restart_service
restart_service-seen h =
    let x = (stop_service_if_running h).1 in
    let ((b1, b2, b3, b4), stop) = stop_if-seen h in
    let ((c1, c2, c3, c4), seen) = wait-seen running (started x) in
    elim (Result-cases (stop_service_if_running h).0) [
      | inr (e, k) ↦ rw k (b1, b2, b4, inl refl)
      | inl (w, k) ↦ elim (Result-cases (verdict x.calls)) [
        | inr (e, l) ↦ rw (k, l) (b1, b2, b4, inl refl)
        | inl (w', l) ↦ elim seen [
          | inl late ↦ rw (k, l, late) (c1 ∙ b1, c2 ∙ b2, c4 ∙ b4, inl refl)
          | inr (found, up) ↦
              rw (k, l, found) (c1 ∙ b1, c2 ∙ b2, c4 ∙ b4, inr (refl, up, c3 ∙ ap suc b3))
        ]
      ]
    ]

-- The machine while a service is open: its two handles are out.
abbrev entered : ServiceHost → ServiceHost
entered h = record h { calls = rest (rest h.calls); handles = suc (suc h.handles) }

abbrev left : ServiceHost → ServiceHost
left h = record h { handles = h.handles - 1 - 1 }

pub restart-seen :
    (h : ServiceHost) → Restarted h (restart_engine_service h).0 (restart_engine_service h).1
unfolding restart_engine_service
restart-seen h =
    let y = restart_service (entered h) in
    let (b1, b2, b4, seen) = restart_service-seen (entered h) in
    elim (Result-cases (verdict h.calls)) [
      | inr (e, f) ↦ rw f (refl, refl, refl, inl refl)
      | inl (u, f) ↦ elim (Result-cases (verdict (rest h.calls))) [
        | inr (e, g) ↦ rw (f, g) (refl, omega arith, refl, inl refl)
        | inl (v, g) ↦ elim (Option-cases h.service) [
          | inl there ↦ rw (f, g, there) (refl, omega arith, refl, inl refl)
          | inr (s, there) ↦
              let last : restart_engine_service h ≡ (y.0, left y.1) = rw (f, g, there) refl in
              subst (λ (z : Result (Unit {0}) × ServiceHost). Restarted h z.0 z.1) (sym last)
                (b1, omega (arith, b2), b4, seen)
        ]
      ]
    ]
