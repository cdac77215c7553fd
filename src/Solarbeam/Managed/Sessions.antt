-- ===== src/Solarbeam/Managed/Sessions.antt =====
-- What starting and stopping a session does where the engine is a service.
use readyfleet_lightagent.Base.{
  suc, ◌-◌, String, true, false, not, ◌||◌, ◌≡◌, ◌≢◌, refl, sym, ap, ◌∙◌, ◌⊎◌, inl, inr, none, some,
  List, ok, err, is_ok, Result-cases, Option-cases, arith, eq_iff, Error, is_not_exist,
}
use readyfleet_lightagent.Base.Lists.{all}
use readyfleet_lightagent.Base.Disk.{Disk, remove}
use readyfleet_lightagent.Solarbeam.Manager.{Managed}
use readyfleet_lightagent.Solarbeam.Interactive.{Host, Paths, is_bridge, terminate_bridge}
use readyfleet_lightagent.Solarbeam.Interactive.Sessions.{remaining-all}
use readyfleet_lightagent.Solarbeam.Service.{ServiceState, stopped, ServiceHost, verdict, rest}
use readyfleet_lightagent.Solarbeam.Managed.{
  bridge_env_file, stop_service_if_running, stop_engine_service, stop_solarbeam,
}
use readyfleet_lightagent.Solarbeam.Managed.Handing.{stop_if-seen}

-- The machine while the service is open to be stopped.
abbrev opened_once : ServiceHost → ServiceHost
opened_once h = record h { calls = rest (rest h.calls); handles = suc (suc h.handles) }

-- The machine after a stop that did not open the service.
abbrev passed : ServiceHost → ServiceHost
passed h = record h { calls = rest (rest h.calls); handles = suc h.handles - 1 }

not_opened :
    (h : ServiceHost)
    → verdict h.calls ≡ ok tt
    → (is_ok (verdict (rest h.calls)) ≡ false)
      ⊎ ((verdict (rest h.calls) ≡ ok tt) × (h.service ≡ none))
    → stop_engine_service h ≡ (ok tt, passed h)
unfolding stop_engine_service
not_opened h f (inl g) = ground arith
not_opened h f (inr (g, there)) = ground arith

opened-stop :
    (h : ServiceHost) (s : ServiceState)
    → verdict h.calls ≡ ok tt
    → verdict (rest h.calls) ≡ ok tt
    → h.service ≡ some s
    → let y = stop_service_if_running (opened_once h) in
      stop_engine_service h ≡ (y.0, record y.1 { handles = y.1.handles - 1 - 1 })
unfolding stop_engine_service
opened-stop h s f g there = ground arith

stop_engine_service-seen :
    (h : ServiceHost)
    → let (r, d) = stop_engine_service h in
      (d.host ≡ h.host)
      × (d.handles ≡ h.handles)
      × (d.disk ≡ h.disk)
      × ((is_ok r ≡ false)
          ⊎ (r ≡ ok tt)
            × ((d.service ≡ some stopped)
                ⊎ (h.service ≡ none)
                ⊎ (is_ok (verdict (rest h.calls)) ≡ false)))
unfolding stop_engine_service
stop_engine_service-seen h =
    let y = stop_service_if_running (opened_once h) in
    let ((b1, b2, b3, b4), seen) = stop_if-seen (opened_once h) in
    elim (Result-cases (verdict h.calls)) [
      | inr (e, f) ↦ rw f (refl, refl, refl, inl refl)
      | inl (u, f) ↦ elim (Result-cases (verdict (rest h.calls))) [
        | inr (e, g) ↦
            let last : stop_engine_service h ≡ (ok tt, passed h) =
              not_opened h f (inl (ground arith)) in
            rw last (refl, omega arith, refl, inr (refl, inr (inr (ground arith))))
        | inl (v, g) ↦ elim (Option-cases h.service) [
          | inl there ↦
              let last : stop_engine_service h ≡ (ok tt, passed h) =
                not_opened h f (inr (g, there)) in
              rw last (refl, omega arith, refl, inr (refl, inr (inl there)))
          | inr (s, there) ↦
              let last : stop_engine_service h
                  ≡ (y.0, record y.1 { handles = y.1.handles - 1 - 1 }) =
                opened-stop h s f g there in
              rw last (
                b1,
                omega (arith, b2),
                b4,
                elim seen [ inl bad ↦ inl bad | inr (good, at) ↦ inr (good, inl at) ],
              )
        ]
      ]
    ]

remaining_file :
    (d : Disk)
    → is_ok (remove bridge_env_file d).0 ≡ true
    → (remove bridge_env_file d).1.files bridge_env_file ≡ none
unfolding remove
remaining_file d h = ground (arith, eq_iff bridge_env_file bridge_env_file)

module _ (dir : String → String) (join : List String → String) (paths : Paths) where
  abbrev swept : ServiceHost → ServiceHost
  swept y = record y {
    host = terminate_bridge paths y.host;
    disk = (remove bridge_env_file y.disk).1;
  }

  swept-stop :
      (h : ServiceHost)
      → paths.bridge ≢ ""
      → (stop_engine_service h).0 ≡ ok tt
      → (stop_solarbeam dir join paths h).0 ≡ ok tt
      → (stop_solarbeam dir join paths h).1 ≡ swept (stop_engine_service h).1
  unfolding stop_solarbeam
  swept-stop h b f e = ground (arith, eq_iff paths.bridge "")

  stop_ok :
      (h : ServiceHost)
      → (stop_solarbeam dir join paths h).0 ≡ ok tt
      → (stop_engine_service h).0 ≡ ok tt
  unfolding stop_solarbeam
  stop_ok h e = ground arith

  removed-stop :
      (h : ServiceHost)
      → (stop_engine_service h).0 ≡ ok tt
      → (stop_solarbeam dir join paths h).0 ≡ ok tt
      → let r = (remove bridge_env_file (stop_engine_service h).1.disk).0 in
        (is_ok r ≡ true) ⊎ ((e : Error) × (r ≡ err e) × (is_not_exist e ≡ true))
  unfolding stop_solarbeam
  removed-stop h f e =
      elim (Result-cases (remove bridge_env_file (stop_engine_service h).1.disk).0) [
        | inl (u, g) ↦ inl (ground arith)
        | inr (x, g) ↦ inr (x, g, ground arith)
      ]

  -- A stop of a session that succeeds leaves the service stopped, unless it was not installed or could
  -- not be opened; no bridge is left but those that could not be terminated; the file with the
  -- session's variables is gone, or was reported as missing; and no handle stays open.
  pub stop_solarbeam-clears :
      (h : ServiceHost)
      → paths.bridge ≢ ""
      → (stop_solarbeam dir join paths h).0 ≡ ok tt
      → let d = (stop_solarbeam dir join paths h).1 in
        ((d.service ≡ some stopped) ⊎ (h.service ≡ none) ⊎ (is_ok (verdict (rest h.calls)) ≡ false))
        × (all (λ p. not (is_bridge paths p) || h.host.stubborn p.pid) d.host.processes ≡ true)
        × ((d.disk.files bridge_env_file ≡ none)
            ⊎ ((e : Error) × ((remove bridge_env_file h.disk).0 ≡ err e) × (is_not_exist e ≡ true)))
        × (d.handles ≡ h.handles)
  stop_solarbeam-clears h b e =
      let f = stop_ok h e in
      let y = (stop_engine_service h).1 in
      let last = swept-stop h b f e in
      let (b1, b2, b4, seen) = stop_engine_service-seen h in
      (
        elim seen [
          | inl bad ↦ absurd (ground arith)
          | inr (good, inl at) ↦ inl (ap (λ (x : ServiceHost). x.service) last ∙ at)
          | inr (good, inr t) ↦ inr t
        ],
        ap
              (λ (x : ServiceHost).
                all (λ p. not (is_bridge paths p) || h.host.stubborn p.pid) x.host.processes)
              last
            ∙ ap
                (λ (x : Host).
                  all (λ p. not (is_bridge paths p) || h.host.stubborn p.pid)
                    (terminate_bridge paths x).processes)
                b1
            ∙ remaining-all (is_bridge paths) h.host.stubborn h.host.processes,
        elim (removed-stop h f e) [
          | inl good ↦ inl (
              ap (λ (x : ServiceHost). x.disk.files bridge_env_file) last
              ∙ remaining_file y.disk good)
          | inr (x, g, missing) ↦
              inr (x, ap (λ (d : Disk). (remove bridge_env_file d).0) (sym b4) ∙ g, missing)
        ],
        ap (λ (x : ServiceHost). x.handles) last ∙ b2,
      )
