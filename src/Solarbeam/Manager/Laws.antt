-- ===== src/Solarbeam/Manager/Laws.antt =====
-- The contract of the manager, for any machine.
use readyfleet_lightagent.Base.{
  String, true, false, ◌≡◌, ◌≢◌, ◌↔◌, inl, inr, refl, ap, Error, wrap, Result, ok, err, arith,
  eq_iff, Result-cases,
}
use readyfleet_lightagent.Proto.{SolarbeamStartArgs, SolarbeamEngineUpdateArgs}
use readyfleet_lightagent.Verify.Hex.{valid_lower_hex256}
use readyfleet_lightagent.Solarbeam.Manager.{
  Seams, Managed, start, update, validate_update_args, engine_product_id,
}

-- Engine update arguments that are complete, well shaped and for the engine.
pub record IsEngineUpdate (a : SolarbeamEngineUpdateArgs) : Type 0 where
  pub release_id : a.release_id ≢ ""
  pub version : a.version ≢ ""
  pub url : a.url ≢ ""
  pub sha256 : valid_lower_hex256 a.sha256 ≡ true
  pub signer_fingerprint : valid_lower_hex256 a.signer_fingerprint ≡ true
  pub product_id : a.product_id ≡ engine_product_id

not_empty : valid_lower_hex256 "" ≡ false
unfolding valid_lower_hex256
not_empty = refl

shaped_ne : (s : String) → valid_lower_hex256 s ≡ true → s ≢ ""
shaped_ne s h e = cc (not_empty, ap valid_lower_hex256 e)

-- The arguments of an engine update pass exactly when no field is empty, both digests are well
-- shaped, and the product is the engine.
pub validate_update_args_iff :
    (a : SolarbeamEngineUpdateArgs) → (validate_update_args a ≡ ok tt) ↔ IsEngineUpdate a
unfolding validate_update_args
validate_update_args_iff a = (
  λ h. ground (
    arith,
    eq_iff a.release_id "",
    eq_iff a.version "",
    eq_iff a.url "",
    eq_iff a.product_id engine_product_id,
  ),
  λ h.
      let sha = shaped_ne a.sha256 h.sha256 in
      let signer = shaped_ne a.signer_fingerprint h.signer_fingerprint in
      let product : a.product_id ≢ "" = (λ e. cc) in
      ground (
        arith,
        eq_iff a.release_id "",
        eq_iff a.version "",
        eq_iff a.url "",
        eq_iff a.sha256 "",
        eq_iff a.signer_fingerprint "",
        eq_iff a.product_id "",
        eq_iff a.product_id engine_product_id,
      ),
)

module _ {S : Type 0} (m : Seams S) where
  -- How a start may go: every one of the three calls succeeded, in the order prepare, bridge,
  -- engine; or one failed, the error names the stage, and the later ones were not made.
  pub data StartRun (args : SolarbeamStartArgs) (h : S) : Result (Unit {0}) → S → Type 0 where
    started :
        {h1 h2 h3 : S}
        → m.prepare h ≡ (ok tt, h1)
        → m.launch args h1 ≡ (ok tt, h2)
        → m.engine args h2 ≡ (ok tt, h3)
        → StartRun args h (ok tt) h3
    not_prepared :
        {h1 : S} {e : Error}
        → m.prepare h ≡ (err e, h1)
        → StartRun args h (err (wrap "engine: %w" e)) h1
    no_bridge :
        {h1 h2 : S} {e : Error}
        → m.prepare h ≡ (ok tt, h1)
        → m.launch args h1 ≡ (err e, h2)
        → StartRun args h (err (wrap "bridge launch: %w" e)) h2
    no_engine :
        {h1 h2 h3 : S} {e : Error}
        → m.prepare h ≡ (ok tt, h1)
        → m.launch args h1 ≡ (ok tt, h2)
        → m.engine args h2 ≡ (err e, h3)
        → StartRun args h (err (wrap "engine: %w" e)) h3

  -- Every start either makes its three calls in the order prepare, bridge, engine, each on the
  -- machine that the last one left, and succeeds; or stops at the first that fails, with its error
  -- under the stage's label.
  pub start_runs :
      (args : SolarbeamStartArgs) (s : Managed S)
      → StartRun args s.host (start m args s).0 (start m args s).1.host
  unfolding start
  start_runs args s =
      let h1 = (m.prepare s.host).1 in
      let h2 = (m.launch args h1).1 in
      let h3 = (m.engine args h2).1 in
      elim (Result-cases (m.prepare s.host).0) [
        | inr (x, e) ↦ rw e (not_prepared (ap (λ (r : Result (Unit {0})). (r, h1)) e))
        | inl (u, e) ↦ elim (Result-cases (m.launch args h1).0) [
          | inr (x, f) ↦
              rw (e, f)
                (no_bridge (ap (λ (r : Result (Unit {0})). (r, h1)) e)
                  (ap (λ (r : Result (Unit {0})). (r, h2)) f))
          | inl (v, f) ↦ elim (Result-cases (m.engine args h2).0) [
            | inr (x, g) ↦
                rw (e, f, g)
                  (no_engine (ap (λ (r : Result (Unit {0})). (r, h1)) e)
                    (ap (λ (r : Result (Unit {0})). (r, h2)) f)
                    (ap (λ (r : Result (Unit {0})). (r, h3)) g))
            | inl (w, g) ↦
                rw (e, f, g)
                  (started (ap (λ (r : Result (Unit {0})). (r, h1)) e)
                    (ap (λ (r : Result (Unit {0})). (r, h2)) f)
                    (ap (λ (r : Result (Unit {0})). (r, h3)) g))
          ]
        ]
      ]

  -- An engine update with good arguments while the engine runs is refused, and changes nothing.
  pub update_refused :
      (args : SolarbeamEngineUpdateArgs) (s : Managed S)
      → m.is_running s.host ≡ true
      → ((update m args s).1 ≡ s) × ((update m args s).0 ≢ ok tt)
  unfolding update
  update_refused args s h = (ground arith, ground arith)

  -- An engine update that succeeds had good arguments and a stopped engine, made the one call that
  -- applies it, and is the version that the status falls back on.
  pub update-ok :
      (args : SolarbeamEngineUpdateArgs) (s s' : Managed S)
      → update m args s ≡ (ok tt, s')
      → IsEngineUpdate args
        × (m.is_running s.host ≡ false)
        × (m.apply_update args s.host ≡ (ok tt, s'.host))
        × (s'.last_updated_version ≡ args.version)
  unfolding update
  update-ok args s s' h =
      ((validate_update_args_iff args).0 (ground arith), ground arith, ground arith, ground arith)

  -- An engine update that fails leaves the recorded version.
  pub update-err :
      (args : SolarbeamEngineUpdateArgs) (s s' : Managed S) (e : Error)
      → update m args s ≡ (err e, s')
      → s'.last_updated_version ≡ s.last_updated_version
  unfolding update
  update-err args s s' e h = ground arith
