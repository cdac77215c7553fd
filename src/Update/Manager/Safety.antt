-- ===== src/Update/Manager/Safety.antt =====
-- When an update reaches `ApplyFn`, and what it leaves behind.
use readyfleet_lightagent.Base.{
  String, true, false, ◌≡◌, ◌≢◌, refl, List, ◌∷◌, some, ok, err, new, inl, inr, Result-cases, arith,
  Result, ap, ◌∙◌, sym, ◌⊎◌, Bool-cases, ◌&&◌,
}
use readyfleet_lightagent.Base.Text.{Bytes, bytes}
use readyfleet_lightagent.Proto.{UpdateArgs}
use readyfleet_lightagent.Verify.Hex.{encode_to_string}
use readyfleet_lightagent.Verify.Download.{Machine, download_verified}
use readyfleet_lightagent.Verify.Download.Laws.{download_verified-ok}
use readyfleet_lightagent.Update.Manager.{
  Manager, World, answer, later, Applied, params, session_active, apply_verified, update_begun,
  update, validate,
}
use readyfleet_lightagent.Update.Manager.Validation.{IsAccepted, validate_iff}

module _ (net : Machine) (m : Manager) (args : UpdateArgs) where
  -- While an update runs, another one is rejected and changes nothing.
  pub update_in_flight :
      (w : World)
      → w.flight.in_flight ≡ true
      → update net m args w ≡ (err (new "update already in progress"), w)
  unfolding update
  update_in_flight w h = ground arith

  -- An update that was let in gives the slot back, on every path.
  pub update_releases :
      (w : World) → w.flight.in_flight ≡ false → (update net m args w).1.flight.in_flight ≡ false
  unfolding update
  update_releases w h = ground arith

  abbrev call_at : String → World → Applied
  call_at path w = record {
    path = path;
    content = w.disk.files path;
    version = args.version;
    signer_fingerprint = args.signer_fingerprint;
  }

  apply_verified_applied :
      (path : String) (w : World)
      → (apply_verified m args path w).1.applied ≢ w.applied
      → (apply_verified m args path w).1.applied ≡ call_at path w ∷ w.applied
  unfolding apply_verified
  apply_verified_applied path w h = ground arith

  -- A call of `ApplyFn` that an update may make: the arguments are accepted, and the file
  -- handed over holds bytes whose digest is the one asked for.
  pub record IsRightful (a : Applied) : Type 0 where
    pub accepted : IsAccepted m args
    pub version : a.version ≡ args.version
    pub signer_fingerprint : a.signer_fingerprint ≡ args.signer_fingerprint
    pub content :
        (b : Bytes) × (a.content ≡ some b) × (encode_to_string (net.sha256 b) ≡ bytes args.sha256)

  -- The world after the first question about sessions, and after the download from there.
  abbrev asked : World → World
  asked w = (session_active m w).1

  abbrev downloaded : World → World
  downloaded w = record (asked w) {
    disk = (download_verified net (params m args) (asked w).disk).1;
  }

  session_active_applied : (w : World) → (asked w).applied ≡ w.applied
  unfolding session_active
  session_active_applied w = ground arith

  -- Each way through an update: it ends early, with no call made, or goes on with its download.
  update_begun-cases :
      (w : World)
      → ((update_begun net m args w).1.applied ≡ w.applied)
        ⊎ ((path : String) × (validate m args ≡ ok tt)
            × ((m.asks_session && answer w.sessions) ≡ false)
            × ((download_verified net (params m args) (asked w).disk).0 ≡ ok path)
            × (update_begun net m args w ≡ apply_verified m args path (downloaded w)))
  unfolding update_begun
  update_begun-cases w = elim (Result-cases (validate m args)) [
    | inr (e, f) ↦ inl (ground arith)
    | inl (u, f) ↦ elim (Result-cases (download_verified net (params m args) (asked w).disk).0) [
      | inr (e, g) ↦ inl (ground arith)
      | inl (path, g) ↦ elim (Bool-cases (m.asks_session && answer w.sessions)) [
        | inl b ↦ inl (ground arith)
        | inr b ↦ inr (path, ground arith, b, g, ground arith)
      ]
    ]
  ]

  update_begun_applied :
      (w : World)
      → (update_begun net m args w).1.applied ≢ w.applied
      → (a : Applied) × ((update_begun net m args w).1.applied ≡ a ∷ w.applied) × IsRightful a
  update_begun_applied w h = elim (update_begun-cases w) [
    | inl e ↦ absurd (h e)
    | inr (path, valid, quiet, got, e) ↦
        let same : (update_begun net m args w).1.applied
            ≡ (apply_verified m args path (downloaded w)).1.applied =
          ap (λ (r : Result (Unit {0}) × World). r.1.applied) e in
        let body =
          download_verified-ok net (params m args) (asked w).disk path (downloaded w).disk
            (ground arith) in
        (
          call_at path (downloaded w),
          same
              ∙ apply_verified_applied path (downloaded w)
                  (λ s. h (same ∙ s ∙ session_active_applied w))
              ∙ ap (λ (l : List Applied). call_at path (downloaded w) ∷ l)
                  (session_active_applied w),
          record {
            accepted = (validate_iff m args).0 valid;
            version = refl;
            signer_fingerprint = refl;
            content = (body.0.body, body.4, body.5);
          },
        )
  ]

  apply_verified_quiet :
      (path : String) (w : World)
      → (apply_verified m args path w).1.applied ≢ w.applied
      → m.asks_session ≡ true
      → answer w.sessions ≡ false
  unfolding apply_verified
  apply_verified_quiet path w h a = ground arith

  asked_sessions : (w : World) → m.asks_session ≡ true → (asked w).sessions ≡ later w.sessions
  unfolding session_active
  asked_sessions w a = ground arith

  update_begun_quiet :
      (w : World)
      → (update_begun net m args w).1.applied ≢ w.applied
      → m.asks_session ≡ true
      → (answer w.sessions ≡ false) × (answer (later w.sessions) ≡ false)
  update_begun_quiet w h a = elim (update_begun-cases w) [
    | inl e ↦ absurd (h e)
    | inr (path, valid, quiet, got, e) ↦
        let same : (update_begun net m args w).1.applied
            ≡ (apply_verified m args path (downloaded w)).1.applied =
          ap (λ (r : Result (Unit {0}) × World). r.1.applied) e in
        (
          ground arith,
          ap answer (sym (asked_sessions w a))
              ∙ apply_verified_quiet path (downloaded w)
                  (λ s. h (same ∙ s ∙ session_active_applied w)) a,
        )
  ]

  -- The world that a call of `update` which is let in starts from.
  abbrev let_in : World → World
  let_in w = record w { flight = record { in_flight = true } }

  update_applied_begun :
      (w : World)
      → (update net m args w).1.applied ≢ w.applied
      → (update net m args w).1.applied ≡ (update_begun net m args (let_in w)).1.applied
  unfolding update
  update_applied_begun w h = ground arith

  -- If an update calls `ApplyFn`, whatever it returns, then it calls it once, with accepted
  -- arguments (fields, digests, local policy, host) and with a file whose bytes have the digest
  -- that was asked for.
  pub update_applied :
      (w : World)
      → (update net m args w).1.applied ≢ w.applied
      → (a : Applied) × ((update net m args w).1.applied ≡ a ∷ w.applied) × IsRightful a
  update_applied w h =
      let e = update_applied_begun w h in
      let (a, call, rightful) = update_begun_applied (let_in w) (λ s. h (e ∙ s)) in
      (a, e ∙ call, rightful)

  -- If an update calls `ApplyFn` where `SessionActiveFn` is set, then no session was active when it
  -- asked before the download, nor when it asked again after it.
  pub update_quiet :
      (w : World)
      → (update net m args w).1.applied ≢ w.applied
      → m.asks_session ≡ true
      → (answer w.sessions ≡ false) × (answer (later w.sessions) ≡ false)
  update_quiet w h a =
      let e = update_applied_begun w h in update_begun_quiet (let_in w) (λ s. h (e ∙ s)) a
